-- ===== src/App/Alignment.antt =====
-- The two dictionaries of src/formshift_server/app.py, `store` and `managers`, name the same
-- sessions, in every state that requests and workers can reach.
use formshift_server.Prelude.{
  ℕ, String, ◌==◌, Bool, true, Option, none, some, List, [], ◌≡◌, refl, sym, ap, ◌∙◌, inl, inr,
  string_eq, eq_iff, ok, >>=-eq-ok, raise_if, Option-cases, arith,
}
use formshift_server.Prelude.Dict
use formshift_server.Prelude.Dict.{get-put, get-remove}
use formshift_server.Json.{Bytes, Json}
use formshift_server.Modules.{Registry}
use formshift_server.Sessions.{Session, Payload, create, delete, add_payload}
use formshift_server.Graph.{Graph}
use formshift_server.Jobs.{Job, JobManager, new_manager, submit, set_status, cancel_job, find_job}
use formshift_server.Jobs.Run.{Callback, Outcome, run}
use formshift_server.Prelude.{is_empty}
use formshift_server.App.Accepted.{
  or_refuse-ok, receive_job-manager, current_manager-eq, show_manager-eq,
}
use formshift_server.App.{
  empty_type, empty_payload, session_not_found, App, create_session, delete_session, write_session,
  current_session, current_manager, show_session, show_manager, receive_payload, upload_payload,
  receive_job, submit_job, cancel, session_or_404, manager_or_404,
}

abbrev pub session_of : Option JobManager → Option Session
session_of none = none
session_of (some m) = some m.session

-- Each session of the store has a manager, over that session, and there are no other managers.
abbrev pub IsAligned : App → Type 0
IsAligned app = (id : String) → session_of (Dict.get id app.managers) ≡ Dict.get id app.store

-- A request that is served, whether or not others come before its body, or a worker that runs a job
-- of a session to its end.
pub data Step (registry : Registry) (new_id : ℕ → String) : App → App → Type 0 where
  created : (id : String) (app : App) → Step registry new_id app (create_session id app).0
  deleted :
      (id : String) (app after : App) (stopped : Option JobManager)
      → delete_session id app ≡ ok (after, stopped)
      → Step registry new_id app after
  uploaded :
      (id session_id type : String) (content : Bytes) (app after : App) (payload : Payload)
      → upload_payload id session_id type content app ≡ ok (after, payload)
      → Step registry new_id app after
  submitted :
      (id session_id : String) (request : Option Json) (app after : App) (job : Job) (graph : Graph)
      (draft : Bool)
      → submit_job registry id session_id request app ≡ ok (after, job, graph, draft)
      → Step registry new_id app after
  received_payload :
      (id session_id type : String) (content : Bytes) (held : Session) (app after : App)
      (payload : Payload)
      → receive_payload id session_id type content held app ≡ ok (after, payload)
      → Step registry new_id app after
  received_job :
      (id session_id : String) (request : Option Json) (session : Session) (manager : JobManager)
      (app after : App) (job : Job) (graph : Graph) (draft : Bool)
      → receive_job registry id session_id request session manager app
        ≡ ok (after, job, graph, draft)
      → Step registry new_id app after
  cancelled :
      (session_id job_id : String) (app after : App)
      → cancel session_id job_id app ≡ ok after
      → Step registry new_id app after
  ran :
      (session_id : String) (app : App) (before after : JobManager) (drawn : ℕ) (graph : Graph)
      (callbacks : List Callback) (outcome : Outcome) (asked : Bool) (job : Job)
      → Dict.get session_id app.managers ≡ some before
      → run new_id drawn graph callbacks outcome asked job before ≡ some after
      → Step registry new_id app (record {
        store = Dict.put session_id after.session app.store;
        managers = Dict.put session_id after app.managers;
      })

pub data Reaches (registry : Registry) (new_id : ℕ → String) : App → Type 0 where
  begin : Reaches registry new_id (record { store = []; managers = [] })
  next :
      {app after : App}
      → Reaches registry new_id app
      → Step registry new_id app after
      → Reaches registry new_id after

create-IsAligned : (id : String) (app : App) → IsAligned app → IsAligned (create_session id app).0
unfolding create_session create
create-IsAligned id app h j = ground (
  arith,
  h j,
  get-put {V = JobManager} id j (new_manager (record { id = id; payloads = [] })) app.managers,
  get-put {V = Session} id j (record { id = id; payloads = [] }) app.store,
)

-- Both dictionaries are written at one id.
put-IsAligned :
    (id : String) (m : JobManager) (app : App)
    → IsAligned app
    → IsAligned
        (record { store = Dict.put id m.session app.store; managers = Dict.put id m app.managers })
put-IsAligned id m app h j = ground (
  arith,
  h j,
  get-put {V = JobManager} id j m app.managers,
  get-put {V = Session} id j m.session app.store,
)

-- A manager is replaced by one over the same session.
manager-IsAligned :
    (id : String) (m n : JobManager) (app : App)
    → Dict.get id app.managers ≡ some m
    → n.session ≡ m.session
    → IsAligned app
    → IsAligned (record app { managers = Dict.put id n app.managers })
manager-IsAligned id m n app found same h j =
    ground
      (arith, h j, h id, found, same, eq_iff id j, get-put {V = JobManager} id j n app.managers)

write_session-IsAligned :
    (id : String) (session session' : Session) (app : App)
    → Dict.get id app.store ≡ some session
    → IsAligned app
    → IsAligned (write_session id session' app)
unfolding write_session
write_session-IsAligned id session session' app found h =
    elim (Option-cases (Dict.get id app.managers)) [
      | inl e ↦ absurd (ground (arith, h id, e, found))
      | inr (m, e) ↦
          rw (e, write_session) (put-IsAligned id (record m { session = session' }) app h)
    ]

delete-IsAligned :
    (id : String) (app after : App) (stopped : Option JobManager)
    → delete_session id app ≡ ok (after, stopped)
    → IsAligned app
    → IsAligned after
unfolding delete_session delete
delete-IsAligned id app after stopped e h = elim (Option-cases (Dict.get id app.store)) [
  | inl none_there ↦ absurd (ground arith)
  | inr (session, there) ↦
      let is_after : record {
        store = Dict.remove id app.store;
        managers = Dict.remove id app.managers;
      }
          ≡ after =
        ground arith in
      rw (← is_after) (λ j. ground (
        arith,
        h j,
        get-remove {V = JobManager} id j app.managers,
        get-remove {V = Session} id j app.store,
      ))
]

show_session-IsAligned :
    (id : String) (session : Session) (app : App)
    → IsAligned app
    → IsAligned (show_session id session app)
unfolding show_session
show_session-IsAligned id session app h = elim (Option-cases (Dict.get id app.store)) [
  | inl e ↦ rw (e, show_session) h
  | inr (old, e) ↦ rw (e, show_session) (write_session-IsAligned id old session app e h)
]

receive_payload-IsAligned :
    (id session_id type : String) (content : Bytes) (held : Session) (app after : App)
    (payload : Payload)
    → receive_payload id session_id type content held app ≡ ok (after, payload)
    → IsAligned app
    → IsAligned after
unfolding receive_payload
receive_payload-IsAligned id session_id type content held app after payload e h =
    let (_, _, done) = >>=-eq-ok (raise_if (is_empty content) empty_payload) _ e in
    let changed = (add_payload id (current_session app session_id held) type content).0 in
    let is_after : show_session session_id changed app ≡ after = ground arith in
    rw (← is_after) (show_session-IsAligned session_id changed app h)

upload-IsAligned :
    (id session_id type : String) (content : Bytes) (app after : App) (payload : Payload)
    → upload_payload id session_id type content app ≡ ok (after, payload)
    → IsAligned app
    → IsAligned after
unfolding upload_payload
upload-IsAligned id session_id type content app after payload e h =
    let (_, _, begun) = >>=-eq-ok (raise_if (type == "") empty_type) _ e in
    let (session, _, more) = >>=-eq-ok (session_or_404 app session_id) _ begun in
    receive_payload-IsAligned id session_id type content session app after payload more h

cancel-IsAligned :
    (session_id job_id : String) (app after : App)
    → cancel session_id job_id app ≡ ok after
    → IsAligned app
    → IsAligned after
unfolding cancel manager_or_404 cancel_job
cancel-IsAligned session_id job_id app after e h =
    let (manager, found, more) = >>=-eq-ok (manager_or_404 app session_id) _ e in
    let there = or_refuse-ok session_not_found (Dict.get session_id app.managers) found in
    elim (Option-cases (find_job manager job_id)) [
      | inl gone ↦ absurd (ground arith)
      | inr (job, at_job) ↦
          let next : JobManager = record manager {
            jobs = Dict.put job_id (record job { cancel = true }) manager.jobs;
          } in
          let is_after : record app { managers = Dict.put session_id next app.managers } ≡ after =
            ground arith in
          rw (← is_after) (manager-IsAligned session_id manager next app there refl h)
    ]

receive_job-IsAligned :
    (registry : Registry) (id session_id : String) (request : Option Json) (session : Session)
    (manager : JobManager) (app after : App) (job : Job) (graph : Graph) (draft : Bool)
    → receive_job registry id session_id request session manager app ≡ ok (after, job, graph, draft)
    → IsAligned app
    → IsAligned after
unfolding submit set_status show_manager
receive_job-IsAligned registry id session_id request session manager app after job graph draft e h =
    let (_, _, is_after) =
      receive_job-manager registry id session_id request session manager app after job graph draft
        e in
    elim (Option-cases (Dict.get session_id app.managers)) [
      | inl gone ↦
          let same : show_manager session_id (submit id (current_manager app session_id manager)).0
                app
              ≡ app =
            rw (gone, show_manager) refl in
          rw (← is_after, same) h
      | inr (m, there) ↦
          let one = current_manager-eq app session_id manager m there in
          let same : show_manager session_id (submit id m).0 app ≡ after =
            sym (ap (λ k. show_manager session_id (submit id k).0 app) one) ∙ is_after in
          rw (← same, show_manager-eq app session_id m (submit id m).0 there)
            (manager-IsAligned session_id m (submit id m).0 app there refl h)
    ]

submit-IsAligned :
    (registry : Registry) (id session_id : String) (request : Option Json) (app after : App)
    (job : Job) (graph : Graph) (draft : Bool)
    → submit_job registry id session_id request app ≡ ok (after, job, graph, draft)
    → IsAligned app
    → IsAligned after
unfolding submit_job
submit-IsAligned registry id session_id request app after job graph draft e h =
    let (session, _, more) = >>=-eq-ok (session_or_404 app session_id) _ e in
    let (manager, _, last) = >>=-eq-ok (manager_or_404 app session_id) _ more in
    receive_job-IsAligned registry id session_id request session manager app after job graph draft
      last h

Step-IsAligned :
    (registry : Registry) (new_id : ℕ → String) {app after : App}
    → Step registry new_id app after
    → IsAligned app
    → IsAligned after
Step-IsAligned registry new_id (created id app) h = create-IsAligned id app h
Step-IsAligned registry new_id (deleted id app after stopped e) h =
    delete-IsAligned id app after stopped e h
Step-IsAligned registry new_id (uploaded id session_id type content app after payload e) h =
    upload-IsAligned id session_id type content app after payload e h
Step-IsAligned registry new_id (submitted id session_id request app after job graph draft e) h =
    submit-IsAligned registry id session_id request app after job graph draft e h
Step-IsAligned registry new_id
      (received_payload id session_id type content held app after payload e) h =
    receive_payload-IsAligned id session_id type content held app after payload e h
Step-IsAligned registry new_id
      (received_job id session_id request session manager app after job graph draft e) h =
    receive_job-IsAligned registry id session_id request session manager app after job graph draft e
      h
Step-IsAligned registry new_id (cancelled session_id job_id app after e) h =
    cancel-IsAligned session_id job_id app after e h
Step-IsAligned registry new_id (ran session_id app before after _ _ _ _ _ _ _ _) h =
    put-IsAligned session_id after app h

-- In every state that requests and workers can reach, also where other requests are served between the
-- start of an upload or a submission and its body, an id names a session of the store exactly
-- where it names a manager, and the manager works on that session.
pub Reaches-IsAligned :
    (registry : Registry) (new_id : ℕ → String) {app : App}
    → Reaches registry new_id app
    → IsAligned app
Reaches-IsAligned registry new_id begin = λ id. unfold Dict.get in refl
Reaches-IsAligned registry new_id (next reached step) =
    Step-IsAligned registry new_id step (Reaches-IsAligned registry new_id reached)

-- ===== src/App.antt =====
-- The endpoints of src/formshift_server/app.py that work on sessions, payloads and jobs. A session
-- is one object that the store and its job manager share: a change of it is written to both. A handler
-- that awaits the body of its request has a definition from there on, since others may come between. The
-- body of a request is what `request.json` returns, `none` where it raises. The id that a call
-- draws is an argument.
pub mod Guard
pub mod Listings
pub mod Alignment
pub mod Accepted
use formshift_server.Prelude.{
  ℕ, String, Bool, true, false, not, Option, none, some, List, [], ◌∷◌, string_eq, Result, ok, err,
  ◌>>=◌, ◌>>◌, raise_if, is_empty, if◌then◌else◌, ◌==◌,
}
use formshift_server.Prelude.Dict
use formshift_server.Prelude.Dict.{Dict}
use formshift_server.Json.{Bytes, Json, obj, Fields, end, field?, is_truthy}
use formshift_server.Modules.{Registry}
use formshift_server.Sessions.{
  Session, Payload, SessionStore, create, delete, lookup_session, add_payload,
}
use formshift_server.Graph.{Graph}
use formshift_server.Graph.Parse.{ParseError, no_get, parse_graph}
use formshift_server.Graph.Validate.{ValidationError, validate_graph}
use formshift_server.Jobs.{
  Job, JobDoc, JobManager, new_manager, find_job, shutdown, submit, cancel_job, to_json,
}

-- `store` and `managers`.
pub record App : Type 0 where
  pub store : SessionStore
  pub managers : Dict String JobManager

-- An `HTTPException`.
pub data Refusal : Type 0 where
  session_not_found payload_not_found job_not_found : Refusal
  empty_type empty_payload body_not_json body_not_object : Refusal
  malformed : ParseError → Refusal
  invalid : List ValidationError → Refusal

unfoldable pub status_code : Refusal → ℕ
status_code session_not_found = 404
status_code payload_not_found = 404
status_code job_not_found = 404
status_code empty_type = 422
status_code empty_payload = 400
status_code body_not_json = 400
status_code body_not_object = 400
status_code (malformed _) = 422
status_code (invalid _) = 422

abbrev pub or_refuse {ℓ} : {A : Type ℓ} → Refusal → Option A → Result Refusal A
or_refuse e none = err e
or_refuse e (some a) = ok a

-- `_session_or_404` and `_manager_or_404`
unfoldable pub session_or_404 : App → String → Result Refusal Session
session_or_404 app session_id = or_refuse session_not_found (lookup_session app.store session_id)

unfoldable pub manager_or_404 : App → String → Result Refusal JobManager
manager_or_404 app session_id = or_refuse session_not_found (Dict.get session_id app.managers)

unfoldable pub create_session : String → App → App × String
create_session new_id app =
    let (store, session) = create new_id app.store in
    (
      record { store = store; managers = Dict.put session.id (new_manager session) app.managers },
      session.id,
    )

-- The application after it, and the manager that was shut down.
unfoldable pub delete_session : String → App → Result Refusal (App × Option JobManager)
delete_session session_id app =
    let (store, deleted) = delete app.store session_id in
    if deleted
    then ok (
      record { store = store; managers = Dict.remove session_id app.managers },
      elim (Dict.get session_id app.managers) [ none ↦ none | some m ↦ some (shutdown m) ],
    )
    else err session_not_found

-- A session that changed, in the store and in its manager.
unfoldable pub write_session : String → Session → App → App
write_session session_id session app = record {
  store = Dict.put session_id session app.store;
  managers = elim (Dict.get session_id app.managers) [
    | none ↦ app.managers
    | some m ↦ Dict.put session_id (record m { session = session }) app.managers
  ];
}

-- What a handler that was given a session or a manager before it awaited the body works on after it:
-- the same object, as it is by then, whether or not the application still has it.
abbrev pub current_session : App → String → Session → Session
current_session app session_id held = elim (Dict.get session_id app.store) [
  | none ↦ held
  | some session ↦ session
]

abbrev pub current_manager : App → String → JobManager → JobManager
current_manager app session_id held = elim (Dict.get session_id app.managers) [
  | none ↦ held
  | some manager ↦ manager
]

-- A change of these objects shows in the application where it has them.
unfoldable pub show_session : String → Session → App → App
unfolding write_session
show_session session_id session app = elim (Dict.get session_id app.store) [
  | none ↦ app
  | some _ ↦ write_session session_id session app
]

unfoldable pub show_manager : String → JobManager → App → App
show_manager session_id manager app = elim (Dict.get session_id app.managers) [
  | none ↦ app
  | some _ ↦ record app { managers = Dict.put session_id manager app.managers }
]

-- `upload_payload`, from the body on.
unfoldable pub receive_payload :
    (new_id session_id type : String) → Bytes → Session → App → Result Refusal (App × Payload)
unfolding show_session
receive_payload new_id session_id type content held app = do
  raise_if (is_empty content) empty_payload
  let (changed, payload) = add_payload new_id (current_session app session_id held) type content
  ok (show_session session_id changed app, payload)

-- `upload_payload`, where no other request comes between.
unfoldable pub upload_payload :
    (new_id session_id type : String) → Bytes → App → Result Refusal (App × Payload)
unfolding session_or_404 receive_payload
upload_payload new_id session_id type content app = do
  raise_if (type == "") empty_type
  session ← session_or_404 app session_id
  receive_payload new_id session_id type content session app

unfoldable pub download_payload : String → String → App → Result Refusal Payload
unfolding session_or_404
download_payload session_id payload_id app = do
  session ← session_or_404 app session_id
  or_refuse payload_not_found (Dict.get payload_id session.payloads)

unfoldable pub as_object : Json → Result Refusal Fields
as_object (obj fields) = ok fields
as_object _ = err body_not_object

-- `body.get("graph") or {}`, handed to `parse_graph`, which calls `get` on it.
unfoldable pub graph_document : Option Json → Result Refusal Fields
graph_document none = ok end
graph_document (some (obj fields)) = ok fields
graph_document (some value) = if is_truthy value then err (malformed no_get) else ok end

abbrev pub or_malformed : Result ParseError Graph → Result Refusal Graph
or_malformed (ok graph) = ok graph
or_malformed (err e) = err (malformed e)

-- `bool(body.get("draft", False))`
unfoldable pub draft_of : Fields → Bool
draft_of fields = elim (field? "draft" fields) [ none ↦ false | some value ↦ is_truthy value ]

-- `submit_job`, from the body on, up to the start of the worker; the graph and `draft` are what the
-- worker is given.
unfoldable pub receive_job :
    Registry
    → (new_id session_id : String) → Option Json
    → Session
    → JobManager
    → App
    → Result Refusal (App × Job × Graph × Bool)
unfolding as_object graph_document draft_of show_manager
receive_job registry new_id session_id request session manager app = do
  body ← or_refuse body_not_json request
  fields ← as_object body
  document ← graph_document (field? "graph" fields)
  graph ← or_malformed (parse_graph document)
  let errors = validate_graph graph registry (current_session app session_id session)
  raise_if (not (is_empty errors)) (invalid errors)
  let (after, job) = submit new_id (current_manager app session_id manager)
  ok (show_manager session_id after app, job, graph, draft_of fields)

-- `submit_job`, where no other request comes between.
unfoldable pub submit_job :
    Registry
    → (new_id session_id : String) → Option Json
    → App
    → Result Refusal (App × Job × Graph × Bool)
unfolding session_or_404 manager_or_404 receive_job
submit_job registry new_id session_id request app = do
  session ← session_or_404 app session_id
  manager ← manager_or_404 app session_id
  receive_job registry new_id session_id request session manager app

unfoldable pub get_job : String → String → App → Result Refusal JobDoc
unfolding manager_or_404
get_job session_id job_id app = do
  manager ← manager_or_404 app session_id
  job ← or_refuse job_not_found (find_job manager job_id)
  ok (to_json job)

unfoldable pub cancel : String → String → App → Result Refusal App
unfolding manager_or_404
cancel session_id job_id app = do
  manager ← manager_or_404 app session_id
  let (after, found) = cancel_job manager job_id
  raise_if (not found) job_not_found
  ok (record app { managers = Dict.put session_id after app.managers })

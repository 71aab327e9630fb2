-- ===== src/App/Accepted.antt =====
-- What `submit_job` of src/formshift_server/app.py accepts.
use formshift_server.Prelude.{
  String, Bool, not, Option, none, some, List, [], ◌∷◌, ◌≡◌, refl, sym, ap, subst, ◌∙◌, string_eq,
  eq_iff, ok, >>=-eq-ok, raise_if, is_empty, arith,
}
use formshift_server.Prelude.Dict
use formshift_server.Prelude.Dict.{get-put}
use formshift_server.Json.{Json, field?}
use formshift_server.Modules.{Registry}
use formshift_server.Sessions.{Session, lookup_session}
use formshift_server.Graph.{Graph}
use formshift_server.Graph.Parse.{parse_graph}
use formshift_server.Graph.Validate.{ValidationError, validate_graph}
use formshift_server.Graph.Validate.Spec.{IsValid}
use formshift_server.Graph.Validate.Decides.{validate_graph_iff}
use formshift_server.Jobs.{pending, new_job, Job, JobManager, submit, set_status, find_job}
use formshift_server.Jobs.Outputs.{Plan, make_plan}
use formshift_server.Jobs.Outputs.Pinned.Declared.{make_plan-total}
use formshift_server.App.{
  App, Refusal, session_not_found, body_not_json, invalid, or_refuse, or_malformed, session_or_404,
  manager_or_404, as_object, graph_document, receive_job, submit_job, current_session,
  current_manager, show_manager,
}

-- A value that is there where nothing was refused.
pub or_refuse-ok {ℓ} :
    {A : Type ℓ} (refusal : Refusal) (o : Option A) {a : A}
    → or_refuse refusal o ≡ ok a
    → o ≡ some a
or_refuse-ok refusal none h = absurd (ground arith)
or_refuse-ok refusal (some b) h = ground arith

-- A job that was accepted: its graph is valid in the session and has a plan of its outputs, and the
-- job is pending in the manager of the session.
pub record IsAccepted (registry : Registry) (session_id : String) (app after : App) (job : Job)
    (graph : Graph) : Type 0 where
  pub session : Session
  pub found : lookup_session app.store session_id ≡ some session
  pub valid : IsValid graph registry session
  pub planned : (plan : Plan) × (make_plan graph ≡ some plan)
  pub manager : JobManager
  pub manages : Dict.get session_id after.managers ≡ some manager
  pub held : find_job manager job.id ≡ some job
  pub status : job.status ≡ pending

no_errors :
    (errors : List ValidationError)
    → raise_if (not (is_empty errors)) (invalid errors) ≡ ok tt
    → errors ≡ []
no_errors [] h = refl
no_errors (e ∷ errors) h = absurd (ground arith)

-- What a request comes to after its body, where it is accepted.
pub receive_job-manager :
    (registry : Registry) (new_id session_id : String) (request : Option Json) (session : Session)
    (manager : JobManager) (app after : App) (job : Job) (graph : Graph) (draft : Bool)
    → receive_job registry new_id session_id request session manager app
      ≡ ok (after, job, graph, draft)
    → (validate_graph graph registry (current_session app session_id session) ≡ [])
      × ((submit new_id (current_manager app session_id manager)).1 ≡ job)
      × (show_manager session_id (submit new_id (current_manager app session_id manager)).0 app
          ≡ after)
unfolding receive_job
receive_job-manager registry new_id session_id request session manager app after job graph draft h =
    let (body, _, h3) = >>=-eq-ok (or_refuse body_not_json request) _ h in
    let (fields, _, h4) = >>=-eq-ok (as_object body) _ h3 in
    let (document, _, h5) = >>=-eq-ok (graph_document (field? "graph" fields)) _ h4 in
    let (parsed, _, h6) = >>=-eq-ok (or_malformed (parse_graph document)) _ h5 in
    let errors = validate_graph parsed registry (current_session app session_id session) in
    let (_, checked, done) = >>=-eq-ok (raise_if (not (is_empty errors)) (invalid errors)) _ h6 in
    let is_graph : graph ≡ parsed = ground arith in
    (
      ap (λ g. validate_graph g registry (current_session app session_id session)) is_graph
          ∙ no_errors errors checked,
      ground arith,
      ground arith,
    )

pub current_manager-eq :
    (app : App) (id : String) (held m : JobManager)
    → Dict.get id app.managers ≡ some m
    → current_manager app id held ≡ m
current_manager-eq app id held m found = rw (found, current_manager) refl

current_session-eq :
    (app : App) (id : String) (held s : Session)
    → Dict.get id app.store ≡ some s
    → current_session app id held ≡ s
current_session-eq app id held s found = rw (found, current_session) refl

pub show_manager-eq :
    (app : App) (id : String) (m n : JobManager)
    → Dict.get id app.managers ≡ some m
    → show_manager id n app ≡ record app { managers = Dict.put id n app.managers }
unfolding show_manager
show_manager-eq app id m n found = rw (found, show_manager) refl

-- The session and the manager of a request that was accepted.
submit_job-manager :
    (registry : Registry) (new_id session_id : String) (request : Option Json) (app after : App)
    (job : Job) (graph : Graph) (draft : Bool)
    → submit_job registry new_id session_id request app ≡ ok (after, job, graph, draft)
    → (session : Session) × (manager : JobManager) × (lookup_session app.store session_id
        ≡ some session)
      × (validate_graph graph registry session ≡ [])
      × ((submit new_id manager).1 ≡ job)
      × (record app { managers = Dict.put session_id (submit new_id manager).0 app.managers }
          ≡ after)
unfolding submit_job session_or_404 manager_or_404 lookup_session
submit_job-manager registry new_id session_id request app after job graph draft h =
    let (session, found, h1) = >>=-eq-ok (session_or_404 app session_id) _ h in
    let (manager, manages, h2) = >>=-eq-ok (manager_or_404 app session_id) _ h1 in
    let there = or_refuse-ok session_not_found (Dict.get session_id app.store) found in
    let managed = or_refuse-ok session_not_found (Dict.get session_id app.managers) manages in
    let (no_error, is_job, is_after) =
      receive_job-manager registry new_id session_id request session manager app after job graph
        draft h2 in
    let same = current_session-eq app session_id session session there in
    let one = current_manager-eq app session_id manager manager managed in
    (
      session,
      manager,
      there,
      sym (ap (λ s. validate_graph graph registry s) same) ∙ no_error,
      sym (ap (λ m. (submit new_id m).1) one) ∙ is_job,
      sym (show_manager-eq app session_id manager (submit new_id manager).0 managed)
          ∙ sym (ap (λ m. show_manager session_id (submit new_id m).0 app) one)
          ∙ is_after,
    )

accepted :
    (registry : Registry) (new_id session_id : String) (app : App) (session : Session)
    (manager : JobManager) (graph : Graph)
    → lookup_session app.store session_id ≡ some session
    → validate_graph graph registry session ≡ []
    → IsAccepted registry session_id app
        (record app { managers = Dict.put session_id (submit new_id manager).0 app.managers })
        (submit new_id manager).1
        graph
unfolding submit set_status find_job
accepted registry new_id session_id app session manager graph found no_error =
    let valid = (validate_graph_iff graph registry session).0 no_error in
    record {
      session = session;
      found = found;
      valid = valid;
      planned = make_plan-total graph registry session valid;
      manager = (submit new_id manager).0;
      manages = ground (
        arith,
        eq_iff session_id session_id,
        get-put {V = JobManager} session_id session_id (submit new_id manager).0 app.managers,
      );
      held = ground (
        arith,
        eq_iff new_id new_id,
        get-put {V = Job} new_id new_id (new_job new_id)
            (Dict.put new_id (new_job new_id) manager.jobs),
      );
      status = refl;
    }

-- Where `submit_job` does not refuse a request, the graph it hands to the worker is valid in the
-- session, `_run` can set up its plan, and the job is pending in the manager of the session.
pub submit_job-IsAccepted :
    (registry : Registry) (new_id session_id : String) (request : Option Json) (app after : App)
    (job : Job) (graph : Graph) (draft : Bool)
    → submit_job registry new_id session_id request app ≡ ok (after, job, graph, draft)
    → IsAccepted registry session_id app after job graph
submit_job-IsAccepted registry new_id session_id request app after job graph draft h =
    let (session, manager, found, no_error, is_job, is_after) =
      submit_job-manager registry new_id session_id request app after job graph draft h in
    let next : App = record app {
      managers = Dict.put session_id (submit new_id manager).0 app.managers;
    } in
    subst (λ a. IsAccepted registry session_id app a job graph) is_after
      (subst (λ j. IsAccepted registry session_id app next j graph) is_job
        (accepted registry new_id session_id app session manager graph found no_error))

-- ===== src/Jobs/Run/Lifecycle.antt =====
-- The life of a job in src/formshift_server/jobs.py, as the event log and the job document show it.
use mathlib.Core.List.{append_assoc}
use formshift_server.Prelude.{
  ℕ, String, Bool, true, Option, some, ◌||◌, List, [], ◌∷◌, ◌++◌, ◌≡◌, refl, ap, ◌∙◌, inl, inr,
  string_eq, pair_eq, eq_iff, Option-cases, arith,
}
use formshift_server.Prelude.Dict.{get-put}
use formshift_server.Graph.{Graph}
use formshift_server.Jobs.{
  JobStatus, running, completed, failed, cancelled, EventBody, job_status, job_cancelled,
  job_failed, job_completed, Job, JobManager, set_status, put_job, find_job, is_terminal,
}
use formshift_server.Jobs.Outputs.{make_plan, start}
use formshift_server.Jobs.Run.Traces.{
  bodies, output_records, completed_nodes, reported_nodes, bodies-append, on_callbacks-Traced,
}
use formshift_server.Jobs.Run.{
  Callback, Outcome, finished, interrupted, module_failed, crashed, on_callbacks, final_status,
  final_error, final_event, finish, run,
}

-- The status, the error and the last event with which a job ends, by how its execution ends; the
-- error that it had stays where it does not fail.
pub data Ends (job_id : String) (error : Option String)
    : Outcome → JobStatus → Option String → EventBody → Type 0 where
  completes : Ends job_id error finished completed error (job_completed job_id)
  stops : Ends job_id error interrupted cancelled error (job_cancelled job_id)
  reports :
      (text : String)
      → Ends job_id error (module_failed text) failed (some text) (job_failed job_id text)
  crashes :
      (text : String) → Ends job_id error (crashed text) failed (some text) (job_failed job_id text)

-- What a run of a job leaves: the log goes on with the running status, the events of the callbacks,
-- the final status and the final event; the job is terminal, with the records of its `job.output`
-- events as further outputs.
pub record IsRun (job : Job) (cs : List Callback) (outcome : Outcome) (asked : Bool)
    (before after : JobManager) : Type 0 where
  pub events : List EventBody
  pub last : Job
  pub ending : EventBody
  pub log :
      bodies after.events
      ≡ bodies before.events
        ++ (job_status job.id running ∷ (events ++ (job_status job.id last.status ∷ ending ∷ [])))
  pub found : find_job after job.id ≡ some last
  pub ends : Ends job.id job.error outcome last.status last.error ending
  pub terminal : is_terminal last.status ≡ true
  pub nodes : completed_nodes events ≡ reported_nodes cs
  pub outputs : last.outputs ≡ job.outputs ++ output_records events
  pub cancel : last.cancel ≡ job.cancel || asked

final-Ends :
    (job_id : String) (error : Option String) (outcome : Outcome)
    → Ends job_id error outcome
        (final_status outcome)
        (final_error outcome error)
        (final_event job_id outcome)
unfolding final_status final_error final_event
final-Ends job_id error finished = completes
final-Ends job_id error interrupted = stops
final-Ends job_id error (module_failed text) = reports text
final-Ends job_id error (crashed text) = crashes text

final_status-terminal : (outcome : Outcome) → is_terminal (final_status outcome) ≡ true
unfolding is_terminal final_status
final_status-terminal finished = refl
final_status-terminal _ = refl

finish-log :
    (job : Job) (outcome : Outcome) (m : JobManager)
    → bodies (finish job outcome m).events
      ≡ bodies m.events
        ++ (job_status job.id (final_status outcome) ∷ final_event job.id outcome ∷ [])
unfolding finish set_status
finish-log job outcome m =
    bodies-append _ (final_event job.id outcome)
    ∙ ap (λ l. l ++ final_event job.id outcome ∷ [])
        (bodies-append m.events (job_status job.id (final_status outcome)))
    ∙ append_assoc (bodies m.events) _ _

finish-job :
    (job : Job) (outcome : Outcome) (m : JobManager)
    → find_job (finish job outcome m) job.id
      ≡ some (record job { status = final_status outcome; error = final_error outcome job.error })
unfolding finish set_status find_job
finish-job job outcome m =
    let same : string_eq.beq job.id job.id ≡ true = (eq_iff job.id job.id).1 refl in
    get-put job.id job.id _ m.jobs ∙ rw same refl

regroup :
    (a : List EventBody) (x : EventBody) (b c : List EventBody)
    → ((a ++ x ∷ []) ++ b) ++ c ≡ a ++ (x ∷ (b ++ c))
regroup a x b c = append_assoc (a ++ x ∷ []) b c ∙ append_assoc a (x ∷ []) (b ++ c)

-- Whatever the callbacks and the outcome, a run whose plan exists ends the job as its execution
-- ended: completed after a report, cancelled after `ExecutionCancelled`, and failed with the
-- exception's text after a `ModuleError` or another exception. The log goes on with the running
-- status, events that report each node of `on_node` once and in order, the final status and the
-- event of that end; the job's outputs go on with the records of the logged outputs, and a request
-- to cancel it stays.
pub run-IsRun :
    (new_id : ℕ → String) (drawn : ℕ) (graph : Graph) (cs : List Callback) (outcome : Outcome)
    (asked : Bool) (job : Job) (before after : JobManager)
    → run new_id drawn graph cs outcome asked job before ≡ some after
    → IsRun job cs outcome asked before after
unfolding run
run-IsRun new_id drawn graph cs outcome asked job before after h =
    elim (Option-cases (make_plan graph)) [
      | inl e ↦ absurd (ground arith)
      | inr (plan, e) ↦
          let begun = set_status job running before in
          let first = start plan begun.session begun.events drawn in
          let st = on_callbacks new_id job.id plan cs first in
          let job' : Job = record job {
            status = running;
            cancel = job.cancel || asked;
            outputs = job.outputs ++ st.outputs;
          } in
          let m : JobManager =
            put_job job' (record begun { session = st.session; events = st.events }) in
          let is_after : finish job' outcome m ≡ after = ground arith in
          let trace = on_callbacks-Traced new_id job.id plan cs first in
          rw (← is_after) (record {
            events = trace.events;
            log =
                finish-log job' outcome m
                ∙ ap
                    (λ l.
                      l
                      ++ (job_status job.id (final_status outcome)
                          ∷ final_event job.id outcome
                          ∷ []))
                    (trace.log
                      ∙ ap (λ l. l ++ trace.events)
                          (unfold set_status in
                            bodies-append before.events (job_status job.id running)))
                ∙ regroup (bodies before.events) (job_status job.id running) trace.events _;
            last = record job' {
              status = final_status outcome;
              error = final_error outcome job.error;
            };
            found = finish-job job' outcome m;
            ending = final_event job.id outcome;
            ends = final-Ends job.id job.error outcome;
            terminal = final_status-terminal outcome;
            nodes = trace.completes;
            outputs = ap (λ l. job.outputs ++ l) trace.outputs;
            cancel = refl;
          })
    ]

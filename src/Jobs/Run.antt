-- ===== src/Jobs/Run.antt =====
-- `_run` of src/formshift_server/jobs.py: what the worker thread of a job does with its status, its
-- outputs and the event log. `execute_graph` enters by what it reports: the calls of `on_node` and
-- `on_output`, in the order in which they are made, and how it ends.
mod Traces
pub mod Lifecycle
use formshift_server.Prelude.{
  ℕ, String, Bool, Option, none, some, List, [], ◌∷◌, ◌++◌, ◌||◌, string_eq,
}
use formshift_server.Prelude.Dict
use formshift_server.Graph.{Graph}
use formshift_server.Executor.{ExecutionOutput}
use formshift_server.Jobs.{
  JobStatus, running, completed, failed, cancelled, EventBody, job_status, node_completed,
  job_cancelled, job_failed, job_completed, Job, JobManager, append, put_job, set_status,
}
use formshift_server.Jobs.Outputs.{Plan, Emission, make_plan, start, on_output}

pub data Callback : Type 0 where
  node_done : (node : String) (cached : Bool) → Callback
  output_done : ExecutionOutput → Callback

-- How `execute_graph` ends: with a report, by `ExecutionCancelled`, by a `ModuleError`, or by
-- another exception. The two texts are those of the exception and of "internal error: " with it.
pub data Outcome : Type 0 where
  finished interrupted : Outcome
  module_failed : (text : String) → Outcome
  crashed : (internal_text : String) → Outcome

module _ (new_id : ℕ → String) (job_id : String) (plan : Plan) where
  unfoldable pub on_callback : Callback → Emission → Emission
  unfolding on_output append
  on_callback (node_done node cached) st = record st {
    events = append st.events (node_completed job_id node cached);
  }
  on_callback (output_done output) st = on_output new_id job_id plan output st

  unfoldable pub on_callbacks : List Callback → Emission → Emission
  unfolding on_callback
  on_callbacks [] st = st
  on_callbacks (c ∷ cs) st = on_callbacks cs (on_callback c st)

unfoldable pub final_status : Outcome → JobStatus
final_status finished = completed
final_status interrupted = cancelled
final_status (module_failed _) = failed
final_status (crashed _) = failed

-- `job.error` is written where the job fails, and else stays.
unfoldable pub final_error : Outcome → Option String → Option String
final_error (module_failed text) error = some text
final_error (crashed text) error = some text
final_error _ error = error

unfoldable pub final_event : String → Outcome → EventBody
final_event job_id finished = job_completed job_id
final_event job_id interrupted = job_cancelled job_id
final_event job_id (module_failed text) = job_failed job_id text
final_event job_id (crashed text) = job_failed job_id text

-- The `except` and `else` branches: the error, the status, its event and the last event.
unfoldable pub finish : Job → Outcome → JobManager → JobManager
unfolding set_status final_status final_error final_event append
finish job outcome manager =
    let stopped =
      set_status (record job { error = final_error outcome job.error }) (final_status outcome)
        manager in
    record stopped { events = append stopped.events (final_event job.id outcome) }

-- `none` is the `KeyError` of a plan that names an undeclared group. `drawn` counts the payload
-- ids drawn before, and `asked` tells whether `job.cancel` was set while the job ran.
unfoldable pub run :
    (ℕ → String)
    → ℕ
    → Graph
    → List Callback
    → Outcome
    → (asked : Bool) → Job
    → JobManager
    → Option JobManager
unfolding on_callbacks finish set_status
run new_id drawn graph callbacks outcome asked job manager =
    let begun = set_status job running manager in
    elim (make_plan graph) [
      | none ↦ none
      | some plan ↦
          let st =
            on_callbacks new_id job.id plan callbacks
              (start plan begun.session begun.events drawn) in
          let job' = record job {
            status = running;
            cancel = job.cancel || asked;
            outputs = job.outputs ++ st.outputs;
          } in
          some (
            finish job' outcome
              (put_job job' (record begun { session = st.session; events = st.events })))
    ]

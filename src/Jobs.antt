-- ===== src/Jobs.antt =====
-- src/formshift_server/jobs.py: jobs, the event log of a session and the job manager.
-- An event's JSON data is the data type `EventBody`, whose constructor fixes the event's type.
-- A worker thread (`_run`) is in Jobs/Run, the emission of outputs in Jobs/Outputs.
pub mod Events
pub mod Outputs
pub mod Run
use formshift_server.Prelude.{
  ℕ, String, Bool, true, false, not, Option, none, some, List, [], ◌∷◌, ◌++◌, string_eq, length,
  drop, if◌then◌else◌,
}
use formshift_server.Prelude.Dict
use formshift_server.Prelude.Dict.{Dict}
use formshift_server.Sessions.{Session}

pub data JobStatus : Type 0 where
  pending running completed failed cancelled : JobStatus

unfoldable pub status_value : JobStatus → String
status_value pending = "pending"
status_value running = "running"
status_value completed = "completed"
status_value failed = "failed"
status_value cancelled = "cancelled"

-- `status in TERMINAL`
unfoldable pub is_terminal : JobStatus → Bool
is_terminal completed = true
is_terminal failed = true
is_terminal cancelled = true
is_terminal _ = false

-- The record of one output: where it comes from, its type, the payload that holds it, and the
-- output group, which is left out of the JSON object where there is none.
pub record OutputRecord : Type 0 where
  pub node : String
  pub port : String
  pub type : String
  pub payload : String
  pub group : Option String

pub data EventBody : Type 0 where
  job_status : (job : String) → JobStatus → EventBody
  node_completed : (job node : String) (cached : Bool) → EventBody
  job_output : (job : String) → OutputRecord → EventBody
  job_cancelled : (job : String) → EventBody
  job_failed : (job error : String) → EventBody
  job_completed : (job : String) → EventBody

unfoldable pub event_type : EventBody → String
event_type (job_status _ _) = "job.status"
event_type (node_completed _ _ _) = "node.completed"
event_type (job_output _ _) = "job.output"
event_type (job_cancelled _) = "job.cancelled"
event_type (job_failed _ _) = "job.failed"
event_type (job_completed _) = "job.completed"

pub record Event : Type 0 where
  pub index : ℕ
  pub body : EventBody

abbrev pub EventLog : Type 0
EventLog = List Event

-- `EventLog.append`
unfoldable pub append : EventLog → EventBody → EventLog
append log body = log ++ record { index = length log; body = body } ∷ []

-- `EventLog.since`
unfoldable pub since : EventLog → ℕ → List Event
since log index = drop index log

pub record Job : Type 0 where
  pub id : String
  pub status : JobStatus
  pub outputs : List OutputRecord
  pub error : Option String
  pub cancel : Bool

-- A job as its constructor leaves it.
abbrev pub new_job : String → Job
new_job id = record { id = id; status = pending; outputs = []; error = none; cancel = false }

-- The document of `Job.to_json`: its optional members are options.
pub record JobDoc : Type 0 where
  pub id : String
  pub status : String
  pub outputs : Option (List OutputRecord)
  pub error : Option String

unfoldable pub finished_outputs : JobStatus → List OutputRecord → Option (List OutputRecord)
finished_outputs completed outputs = some outputs
finished_outputs _ outputs = none

unfoldable pub to_json : Job → JobDoc
unfolding status_value finished_outputs
to_json job = record {
  id = job.id;
  status = status_value job.status;
  outputs = finished_outputs job.status job.outputs;
  error = job.error;
}

-- What a `JobManager` owns. Its jobs are the objects that the worker threads change, so a change
-- of a job is a write to this dictionary.
pub record JobManager : Type 0 where
  pub session : Session
  pub jobs : Dict String Job
  pub events : EventLog

-- `JobManager.__init__`
abbrev pub new_manager : Session → JobManager
new_manager session = record { session = session; jobs = []; events = [] }

-- `JobManager.get`
unfoldable pub find_job : JobManager → String → Option Job
find_job manager job_id = Dict.get job_id manager.jobs

abbrev pub put_job : Job → JobManager → JobManager
put_job job manager = record manager { jobs = Dict.put job.id job manager.jobs }

-- `JobManager.cancel`
unfoldable pub cancel_job : JobManager → String → JobManager × Bool
unfolding find_job
cancel_job manager job_id = elim (find_job manager job_id) [
  | none ↦ (manager, false)
  | some job ↦
      (record manager { jobs = Dict.put job_id (record job { cancel = true }) manager.jobs }, true)
]

-- `JobManager.shutdown` sets the flag of each job that is not terminal.
unfoldable pub cancel_all : Dict String Job → Dict String Job
unfolding is_terminal
cancel_all [] = []
cancel_all ((id, job) ∷ jobs) =
    (id, if is_terminal job.status then job else record job { cancel = true }) ∷ cancel_all jobs

unfoldable pub shutdown : JobManager → JobManager
unfolding cancel_all
shutdown manager = record manager { jobs = cancel_all manager.jobs }

-- `_set_status`: the status of the job, and its event.
unfoldable pub set_status : Job → JobStatus → JobManager → JobManager
unfolding append
set_status job status manager = record manager {
  jobs = Dict.put job.id (record job { status = status }) manager.jobs;
  events = append manager.events (job_status job.id status);
}

-- `submit` up to the start of the worker thread; `new_id` is the id that `secrets` returns.
unfoldable pub submit : String → JobManager → JobManager × Job
unfolding set_status
submit new_id manager =
    let job = new_job new_id in (set_status job pending (put_job job manager), job)

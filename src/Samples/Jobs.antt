-- ===== src/Samples/Jobs.antt =====
-- Output plans, the gate of a pinned group, event streams and a run of a job at concrete outputs.
use mathlib.Core.List.{Memᴰ}
use formshift_server.Prelude.{
  ℕ, zero, suc, String, true, false, some, List, [], ◌∷◌, map, ◌≡◌, ◌≢◌, refl, arith, string_eq,
}
use formshift_server.Prelude.Dict
use formshift_server.Executor.{ExecutionOutput}
use formshift_server.Jobs.{
  EventBody, job_status, node_completed, running, new_job, JobManager, new_manager, set_status,
  EventLog,
}
use formshift_server.Jobs.Events.{IsNumbered, stream, grown, stream-eq-log, grown-IsNumbered}
use formshift_server.Jobs.Outputs.{
  Plan, output_key, group_orders, push, pin, plan_from, make_plan, start, on_outputs,
}
use formshift_server.Jobs.Outputs.Gate.{emitted_in}
use formshift_server.Jobs.Outputs.Plans.{declared}
use formshift_server.Jobs.Outputs.Pinned.{arrived_prefix}
use formshift_server.Jobs.Outputs.Pinned.Declared.{make_plan-total, pinned_in_order}
use formshift_server.Jobs.Run.{
  Callback, node_done, output_done, finished, on_callbacks, finish, run,
}
use formshift_server.Jobs.Run.Lifecycle.{IsRun, run-IsRun}
use formshift_server.Samples.{modules, session, chain, layers}
use formshift_server.Samples.Graphs.{chain-IsValid}

abbrev new_id : ℕ → String
new_id zero = "a"
new_id (suc n) = "b"

abbrev chain_plan : Plan
chain_plan = record {
  group_of = (("c", "svg"), some "layers") ∷ (("t", "svg"), some "layers") ∷ [];
  pinned_sequence = ("layers", ("c", "svg") ∷ ("t", "svg") ∷ []) ∷ [];
}

chain_planned : make_plan chain ≡ some chain_plan
unfolding make_plan group_orders plan_from pin push Dict.get Dict.put
chain_planned = refl

-- The traced drawing is computed first, and waits for the painted one.
abbrev svg : String → ExecutionOutput
svg node = record { node = node; port = "svg"; type = "vector/svg"; content = 7 ∷ [] }

make_plan-total_example : (plan : Plan) × (make_plan chain ≡ some plan)
make_plan-total_example = make_plan-total chain modules session chain-IsValid

abbrev traced_first : List ExecutionOutput
traced_first = svg "t" ∷ svg "c" ∷ []

some_member : declared "layers" chain.outputs ≢ []
unfolding declared
some_member e = ground arith

pinned_in_order_example :
    emitted_in "layers"
      (on_outputs new_id "j" chain_plan traced_first (start chain_plan session [] 0)).outputs
    ≡ arrived_prefix (map output_key traced_first) (("c", "svg") ∷ ("t", "svg") ∷ [])
unfolding declared
pinned_in_order_example =
    pinned_in_order chain modules session chain_plan layers chain-IsValid chain_planned
      (Memᴰ.head refl) refl some_member new_id "j" [] 0 traced_first

abbrev batches : List (List EventBody)
batches = [] ∷ (node_completed "j" "t" false ∷ node_completed "j" "c" true ∷ []) ∷ []

abbrev begun : EventLog
begun = record { index = 0; body = job_status "j" running } ∷ []

stream-eq-log_example :
    stream 0 begun ((node_completed "j" "u" false ∷ []) ∷ batches)
    ≡ grown begun ((node_completed "j" "u" false ∷ []) ∷ batches)
stream-eq-log_example = stream-eq-log begun (node_completed "j" "u" false ∷ []) batches (refl, tt)

grown-IsNumbered_example : IsNumbered 0 (grown [] batches)
grown-IsNumbered_example = grown-IsNumbered batches

abbrev reported : List Callback
reported =
    node_done "t" false ∷ output_done (svg "t") ∷ node_done "c" false ∷ output_done (svg "c") ∷ []

abbrev after : JobManager
after =
    let begun = set_status (new_job "j") running (new_manager session) in
    let st =
      on_callbacks new_id "j" chain_plan reported (start chain_plan begun.session begun.events 0) in
    finish (record (new_job "j") { status = running; cancel = true; outputs = st.outputs }) finished
      (record begun {
        session = st.session;
        events = st.events;
        jobs =
            Dict.put "j"
              (record (new_job "j") { status = running; cancel = true; outputs = st.outputs })
              begun.jobs;
      })

ran : run new_id 0 chain reported finished true (new_job "j") (new_manager session) ≡ some after
unfolding run
ran = rw (chain_planned, run) refl

run-IsRun_example : IsRun (new_job "j") reported finished true (new_manager session) after
run-IsRun_example =
    run-IsRun new_id 0 chain reported finished true (new_job "j") (new_manager session) after ran

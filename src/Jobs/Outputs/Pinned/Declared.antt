-- ===== src/Jobs/Outputs/Pinned/Declared.antt =====
-- Pinned groups of a valid graph: `_run` (src/formshift_server/jobs.py) sets up its plan without an
-- exception, and emits each pinned group in the order in which the graph lists its outputs.
use mathlib.Core.List.{Memᴰ}
use formshift_server.Prelude.{
  ℕ, String, some, List, [], map, ◌≡◌, ◌≢◌, refl, ap, ◌∙◌, inl, inr, All-map_of, Option-cases,
  string_eq, arith,
}
use formshift_server.Prelude.Dict
use formshift_server.Modules.{Registry}
use formshift_server.Sessions.{Session}
use formshift_server.Graph.{OutputGroup, Graph}
use formshift_server.Graph.Validate.Spec.{IsValid}
use formshift_server.Executor.{ExecutionOutput}
use formshift_server.Jobs.{EventLog}
use formshift_server.Jobs.Outputs.{
  PortKey, Plan, output_key, group_orders, make_plan, start, on_outputs,
}
use formshift_server.Jobs.Outputs.Gate.{emitted_in}
use formshift_server.Jobs.Outputs.Plans.{
  declared, sequence_of, plan_from-sequence, plan_from-group_for, plan_from-total, declared-members,
  declared-Distinct,
}
use formshift_server.Jobs.Outputs.Orders.{group_orders-found, group_orders-has}
use formshift_server.Jobs.Outputs.Pinned.{arrived_prefix, IsPinned, pinned-emitted}

-- A valid graph has a plan: no output names a group that the dictionary of orders lacks.
pub make_plan-total :
    (graph : Graph) (registry : Registry) (session : Session)
    → IsValid graph registry session
    → (plan : Plan) × (make_plan graph ≡ some plan)
unfolding make_plan
make_plan-total graph registry session v =
    plan_from-total (group_orders [] graph.groups) _ graph.outputs (
      All-map_of graph.outputs (λ r named id e. group_orders-has id [] graph.groups (named id e))
        v.declared_groups)

get_of_sequence :
    (g : String) (sequences : Dict.Dict String (List PortKey)) (seq : List PortKey)
    → sequence_of g sequences ≡ seq
    → seq ≢ []
    → Dict.get g sequences ≡ some seq
get_of_sequence g sequences seq e ne = elim (Option-cases (Dict.get g sequences)) [
  | inl f ↦ absurd (ground (arith, ne))
  | inr (keys, f) ↦ ground arith
]

-- In the plan of a valid graph a pinned group with a member has its declared members as sequence.
make_plan-IsPinned :
    (graph : Graph) (registry : Registry) (session : Session) (plan : Plan) (g : OutputGroup)
    → IsValid graph registry session
    → make_plan graph ≡ some plan
    → Memᴰ g graph.groups
    → g.order ≡ "pinned"
    → declared g.id graph.outputs ≢ []
    → IsPinned plan g.id (declared g.id graph.outputs)
unfolding make_plan
make_plan-IsPinned graph registry session plan g v made member pinned some_member =
    let orders = group_orders [] graph.groups in
    let order : Dict.get g.id orders ≡ some "pinned" =
      group_orders-found g [] graph.groups v.distinct_groups member ∙ ap some pinned in
    let groups = plan_from-group_for orders _ plan graph.outputs made v.distinct_outputs in
    record {
      sequence =
          get_of_sequence g.id plan.pinned_sequence _
            (plan_from-sequence orders g.id _ plan graph.outputs order made
              ∙ unfold Dict.get in refl)
            some_member;
      members = declared-members plan g.id graph.outputs groups;
      distinct = declared-Distinct g.id graph.outputs v.distinct_outputs;
    }

-- In a valid graph, whatever the order in which outputs are computed, the records of a pinned
-- group are the longest computed prefix of the group's outputs in the order of the graph.
pub pinned_in_order :
    (graph : Graph) (registry : Registry) (session : Session) (plan : Plan) (g : OutputGroup)
    → IsValid graph registry session
    → make_plan graph ≡ some plan
    → Memᴰ g graph.groups
    → g.order ≡ "pinned"
    → declared g.id graph.outputs ≢ []
    → (new_id : ℕ → String) (job : String) (log : EventLog) (drawn : ℕ) (os : List ExecutionOutput)
    → emitted_in g.id (on_outputs new_id job plan os (start plan session log drawn)).outputs
      ≡ arrived_prefix (map output_key os) (declared g.id graph.outputs)
pinned_in_order graph registry session plan g v made member pinned some_member new_id job log drawn
      os =
    pinned-emitted new_id job plan g.id (declared g.id graph.outputs)
      (make_plan-IsPinned graph registry session plan g v made member pinned some_member) session
      log drawn os

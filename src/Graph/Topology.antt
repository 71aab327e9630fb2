-- ===== src/Graph/Topology.antt =====
-- `topological_order` of src/formshift_server/graph.py, over Python's `graphlib`.
-- A `TopologicalSorter` maps each node to its predecessors, in the order of the calls of `add`.
-- `static_order` hands out, round after round, the nodes whose predecessors have all been handed
-- out, and raises `CycleError` where there is a cycle. The order inside a round, which the
-- documentation leaves open, is here that of the sorter.
mod Rounds
mod Progress
mod Sorter
pub mod Order
use mathlib.Core.List.{Memᴰ}
use formshift_server.Prelude.{
  ℕ, zero, suc, ◌<◌, All, String, Bool, true, false, Option, none, some, List, [], ◌∷◌, ◌++◌, map,
  ◌&&◌, string_eq, elem, length, is_empty, if◌then◌else◌,
}
use formshift_server.Prelude.Dict
use formshift_server.Prelude.Dict.{Dict}
use formshift_server.Graph.{Node, Edge, Graph}

abbrev pub Sorter : Type 0
Sorter = Dict String (List String)

unfoldable pub predecessors : String → Sorter → List String
predecessors n sorter = elim (Dict.get n sorter) [ none ↦ [] | some preds ↦ preds ]

-- An entry for a node that has none.
unfoldable pub ensure : String → Sorter → Sorter
ensure n sorter = if Dict.has n sorter then sorter else Dict.put n [] sorter

-- `sorter.add(node)`
unfoldable pub add_node : String → Sorter → Sorter
add_node n sorter = ensure n sorter

-- `sorter.add(node, predecessor)`
unfoldable pub add_edge : String → String → Sorter → Sorter
add_edge n pred sorter = ensure pred (Dict.put n (predecessors n sorter ++ pred ∷ []) sorter)

unfoldable pub add_nodes : List Node → Sorter → Sorter
add_nodes [] sorter = sorter
add_nodes (n ∷ ns) sorter = add_nodes ns (add_node n.id sorter)

unfoldable pub add_edges : List Edge → Sorter → Sorter
add_edges [] sorter = sorter
add_edges (e ∷ es) sorter = add_edges es (add_edge e.to_node e.from_node sorter)

unfoldable pub all_in : List String → List String → Bool
all_in [] placed = true
all_in (p ∷ ps) placed = elem p placed && all_in ps placed

-- The entries of `pending` whose predecessors are all placed, and the others.
unfoldable pub ready : List String → Sorter → List String
ready placed [] = []
ready placed ((n, preds) ∷ pending) =
    let rest = ready placed pending in if all_in preds placed then n ∷ rest else rest

unfoldable pub waiting : List String → Sorter → Sorter
waiting placed [] = []
waiting placed ((n, preds) ∷ pending) =
    let rest = waiting placed pending in if all_in preds placed then rest else (n, preds) ∷ rest

-- `static_order`; the fuel is the number of nodes, since each round places at least one.
unfoldable pub rounds : ℕ → List String → Sorter → Option (List String)
rounds fuel placed [] = some placed
rounds zero placed (entry ∷ pending) = none
rounds (suc fuel) placed (entry ∷ pending) =
    let now = ready placed (entry ∷ pending) in
    elim (is_empty now) [
      | true ↦ none
      | false ↦ rounds fuel (placed ++ now) (waiting placed (entry ∷ pending))
    ]

unfoldable pub static_order : Sorter → Option (List String)
static_order sorter = rounds (length sorter) [] sorter

unfoldable pub sorter_of : Graph → Sorter
sorter_of graph = add_edges graph.edges (add_nodes graph.nodes [])

unfoldable pub topological_order : Graph → Option (List String)
topological_order graph = static_order (sorter_of graph)

-- The nodes can be numbered so that every edge goes up: there is no cycle.
abbrev pub IsAcyclic : List Edge → Type 0
IsAcyclic edges = (rank : String → ℕ) × All (λ (e : Edge). rank e.from_node < rank e.to_node) edges

-- One edge or more lead from `a` to `b`.
pub data Leads (edges : List Edge) : String → String → Type 0 where
  along : (e : Edge) → Memᴰ e edges → Leads edges e.from_node e.to_node
  then' : {a b c : String} → Leads edges a b → Leads edges b c → Leads edges a c

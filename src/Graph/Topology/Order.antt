-- ===== src/Graph/Topology/Order.antt =====
-- `topological_order` (src/formshift_server/graph.py) finds an order exactly where there is one.
use mathlib.Core.List.{Perm}
use native.Mathlib.Nat.{le_refl}
use formshift_server.Prelude.{
  ℕ, ◌<◌, String, none, some, List, [], ◌≡◌, ◌≢◌, ◌↔◌, string_eq, elem, length, All, All-map_of,
  All-elem, All-mem, Distinct, Option-cases, inl, inr, arith, position, true,
}
use formshift_server.Prelude.Dict
use formshift_server.Prelude.Dict.{All_of_get, get_of_All, has-eq-elem}
use formshift_server.Graph.{Node, Edge, Graph}
use formshift_server.Graph.Topology.{
  Sorter, predecessors, static_order, sorter_of, topological_order, IsAcyclic, Leads, along, then',
}
use formshift_server.Graph.Topology.Rounds.{IsAfter, Extends, rounds-Extends, nil-Unplaced}
use formshift_server.Graph.Topology.Progress.{rounds-ne-none}
use formshift_server.Graph.Topology.Sorter.{
  sorter_of-IsClosed, sorter_of-edges, sorter_of-nodes, sorter_of-Ranked,
}

-- What the code promises of an order: it lists each node of the sorter once, all nodes of the
-- graph are among them, and the source of each edge stands before its target.
pub record IsOrder (g : Graph) (order : List String) : Type 0 where
  pub perm : Perm order (Dict.keys (sorter_of g))
  pub distinct : Distinct (Dict.keys (sorter_of g))
  pub nodes : All (λ (n : Node). Dict.has n.id (sorter_of g) ≡ true) g.nodes
  pub edges : All (λ (e : Edge). position e.from_node order < position e.to_node order) g.edges

of_predecessors :
    (order : List String) (n p : String) (s : Sorter)
    → All (IsAfter order) s
    → elem p (predecessors n s) ≡ true
    → position p order < position n order
unfolding predecessors
of_predecessors order n p s after m = elim (Option-cases (Dict.get n s)) [
  | inl e ↦ absurd (ground arith)
  | inr (preds, e) ↦
      All-elem (λ q. position q order < position n order) p preds
        (get_of_All (IsAfter order) s n preds after e) (ground arith)
]

-- An order that `topological_order` returns lists each node once and has the source of every edge
-- before its target.
pub topological_order-IsOrder :
    (g : Graph) (order : List String) → topological_order g ≡ some order → IsOrder g order
unfolding topological_order static_order
topological_order-IsOrder g order h =
    let s = sorter_of g in
    let found : Extends [] s order =
      rounds-Extends (length s) [] s order (sorter_of-IsClosed g).distinct (nil-Unplaced s) h in
    record {
      perm = found.perm;
      distinct = (sorter_of-IsClosed g).distinct;
      nodes = sorter_of-nodes g;
      edges =
          All-map_of g.edges (λ e. of_predecessors order e.to_node e.from_node s found.after)
            (sorter_of-edges g);
    }

of_get :
    (n : String) (preds : List String) (s : Sorter)
    → Dict.get n s ≡ some preds
    → predecessors n s ≡ preds
unfolding predecessors
of_get n preds s h = ground arith

topological_order-ne-none : (g : Graph) → IsAcyclic g.edges → topological_order g ≢ none
unfolding topological_order static_order
topological_order-ne-none g (rank, up) =
    let s = sorter_of g in
    let closed = sorter_of-IsClosed g in
    rounds-ne-none rank (length s) [] s (le_refl _)
      (All_of_get _ s closed.distinct (λ n preds h.
        All-map_of preds (λ p known. ground (arith, has-eq-elem {V = List String} p s))
          (rw (of_get n preds s h) at (closed.closed n))))
      (All_of_get _ s closed.distinct
        (λ n preds h. rw (of_get n preds s h) at (sorter_of-Ranked rank g up n)))

-- `topological_order` returns an order exactly where the nodes can be numbered so that every edge
-- goes up.
pub topological_order-some_iff : (g : Graph) → (topological_order g ≢ none) ↔ IsAcyclic g.edges
topological_order-some_iff g = (found, topological_order-ne-none g)
  where
    found : topological_order g ≢ none → IsAcyclic g.edges
    found h = elim (Option-cases (topological_order g)) [
      | inl e ↦ absurd (h e)
      | inr (order, e) ↦ (λ n. position n order, (topological_order-IsOrder g order e).edges)
    ]

Leads-lt :
    (edges : List Edge) (rank : String → ℕ)
    → All (λ (e : Edge). rank e.from_node < rank e.to_node) edges
    → {a b : String} → Leads edges a b
    → rank a < rank b
Leads-lt edges rank up (along e m) =
    All-mem (λ (x : Edge). rank x.from_node < rank x.to_node) e edges up m
Leads-lt edges rank up (then' p q) =
    omega (arith, Leads-lt edges rank up p, Leads-lt edges rank up q)

-- Where edges lead from a node back to itself, `topological_order` returns None.
pub topological_order-eq-none_of_cycle :
    (g : Graph) (a : String) → Leads g.edges a a → topological_order g ≡ none
topological_order-eq-none_of_cycle g a loop = elim (Option-cases (topological_order g)) [
  | inl e ↦ e
  | inr (order, e) ↦ absurd (
      let k : position a order < position a order =
        Leads-lt g.edges (λ n. position n order) (topological_order-IsOrder g order e).edges loop in
      omega arith)
]

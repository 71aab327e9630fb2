-- ===== src/Graph/Topology/Sorter.antt =====
-- What the sorter of a graph holds after the calls of `add`.
use formshift_server.Prelude.{
  ℕ, ◌<◌, String, true, List, [], ◌∷◌, ◌++◌, ◌≡◌, inl, inr, ◌||◌, string_eq, eq_iff, elem, All,
  All-append, All-map_of, Distinct, elem-append, Bool-cases, arith, if◌then◌else◌,
}
use formshift_server.Prelude.Dict
use formshift_server.Prelude.Dict.{get-put, put-Distinct}
use formshift_server.Graph.{Node, Edge, Graph}
use formshift_server.Graph.Topology.{
  Sorter, predecessors, ensure, add_node, add_edge, add_nodes, add_edges, sorter_of,
}

module _ (n m : String) (s : Sorter) where
  predecessors-ensure : predecessors m (ensure n s) ≡ predecessors m s
  unfolding predecessors ensure
  predecessors-ensure = ground (arith, get-put {V = List String} n m [] s, eq_iff n m)

  has-ensure : Dict.has m (ensure n s) ≡ (string_eq.beq n m || Dict.has m s)
  unfolding ensure
  has-ensure = ground (arith, get-put {V = List String} n m [] s, eq_iff n m)

module _ (n p m : String) (s : Sorter) where
  predecessors-add_edge :
      predecessors m (add_edge n p s)
      ≡ (if string_eq.beq n m then predecessors n s ++ p ∷ [] else predecessors m s)
  unfolding add_edge
  predecessors-add_edge =
      rw predecessors-ensure
        (unfold predecessors in ground (arith, get-put n m (predecessors n s ++ p ∷ []) s))

  has-add_edge :
      Dict.has m (add_edge n p s) ≡ (string_eq.beq p m || (string_eq.beq n m || Dict.has m s))
  unfolding add_edge
  has-add_edge = rw has-ensure (ground (arith, get-put n m (predecessors n s ++ p ∷ []) s))

-- Every key once, and every predecessor a key.
pub record IsClosed (s : Sorter) : Type 0 where
  pub distinct : Distinct (Dict.keys s)
  pub closed : (n : String) → All (λ p. Dict.has p s ≡ true) (predecessors n s)

ensure-Distinct :
    (n : String) (s : Sorter) → Distinct (Dict.keys s) → Distinct (Dict.keys (ensure n s))
unfolding ensure
ensure-Distinct n s d = elim (Bool-cases (Dict.has n s)) [
  | inl e ↦ rw e d
  | inr e ↦ rw e (put-Distinct n [] s d)
]

add_node-IsClosed : (n : String) (s : Sorter) → IsClosed s → IsClosed (add_node n s)
unfolding add_node
add_node-IsClosed n s c = record {
  distinct = ensure-Distinct n s c.distinct;
  closed = λ m.
      rw predecessors-ensure (All-map_of _ (λ p h. ground (arith, has-ensure n p s)) (c.closed m));
}

add_edge-IsClosed : (n p : String) (s : Sorter) → IsClosed s → IsClosed (add_edge n p s)
add_edge-IsClosed n p s c = record {
  distinct =
      unfold add_edge in
      ensure-Distinct p _ (put-Distinct n (predecessors n s ++ p ∷ []) s c.distinct);
  closed = closed;
}
  where
    kept : (m : String) → All (λ q. Dict.has q (add_edge n p s) ≡ true) (predecessors m s)
    kept m = All-map_of _ (λ q h. ground (arith, has-add_edge n p q s)) (c.closed m)

    closed :
        (m : String)
        → All (λ q. Dict.has q (add_edge n p s) ≡ true) (predecessors m (add_edge n p s))
    closed m = elim (Bool-cases (string_eq.beq n m)) [
      | inl e ↦
          rw (predecessors-add_edge n p m s, e)
            (All-append (λ q. Dict.has q (add_edge n p s) ≡ true) (predecessors n s) (p ∷ [])
              (kept n) (ground (arith, has-add_edge n p p s, eq_iff p p), tt))
      | inr e ↦ rw (predecessors-add_edge n p m s, e) (kept m)
    ]

add_nodes-IsClosed : (ns : List Node) (s : Sorter) → IsClosed s → IsClosed (add_nodes ns s)
unfolding add_nodes
add_nodes-IsClosed [] s c = c
add_nodes-IsClosed (n ∷ ns) s c =
    add_nodes-IsClosed ns (add_node n.id s) (add_node-IsClosed n.id s c)

add_edges-IsClosed : (es : List Edge) (s : Sorter) → IsClosed s → IsClosed (add_edges es s)
unfolding add_edges
add_edges-IsClosed [] s c = c
add_edges-IsClosed (e ∷ es) s c =
    add_edges-IsClosed es (add_edge e.to_node e.from_node s)
      (add_edge-IsClosed e.to_node e.from_node s c)

pub sorter_of-IsClosed : (g : Graph) → IsClosed (sorter_of g)
unfolding sorter_of
sorter_of-IsClosed g = add_edges-IsClosed g.edges (add_nodes g.nodes []) (
    add_nodes-IsClosed g.nodes []
      (record { distinct = tt; closed = unfold predecessors Dict.get in λ n. tt }))

-- A predecessor stays one, and a node stays one.
elem-add_edge :
    (n p q m : String) (s : Sorter)
    → elem q (predecessors m s) ≡ true
    → elem q (predecessors m (add_edge n p s)) ≡ true
elem-add_edge n p q m s h =
    ground
      (arith, predecessors-add_edge n p m s, eq_iff n m, elem-append q (predecessors n s) (p ∷ []))

elem-add_edges :
    (es : List Edge) (q m : String) (s : Sorter)
    → elem q (predecessors m s) ≡ true
    → elem q (predecessors m (add_edges es s)) ≡ true
unfolding add_edges
elem-add_edges [] q m s h = h
elem-add_edges (e ∷ es) q m s h =
    elem-add_edges es q m _ (elem-add_edge e.to_node e.from_node q m s h)

edges-recorded :
    (es : List Edge) (s : Sorter)
    → All (λ (e : Edge). elem e.from_node (predecessors e.to_node (add_edges es s)) ≡ true) es
unfolding add_edges
edges-recorded [] s = tt
edges-recorded (e ∷ es) s = (
  elem-add_edges es e.from_node e.to_node _ (
      ground (
        arith,
        predecessors-add_edge e.to_node e.from_node e.to_node s,
        eq_iff e.to_node e.to_node,
        eq_iff e.from_node e.from_node,
        elem-append e.from_node (predecessors e.to_node s) (e.from_node ∷ []),
      )),
  edges-recorded es (add_edge e.to_node e.from_node s),
)

-- Each edge of the graph is in its sorter.
pub sorter_of-edges :
    (g : Graph)
    → All (λ (e : Edge). elem e.from_node (predecessors e.to_node (sorter_of g)) ≡ true) g.edges
unfolding sorter_of
sorter_of-edges g = edges-recorded g.edges (add_nodes g.nodes [])

module _ (rank : String → ℕ) where
  -- The sorter holds no other edges than those of the graph.
  abbrev pub Ranked : Sorter → Type 0
  Ranked s = (n : String) → All (λ p. rank p < rank n) (predecessors n s)

  add_nodes-Ranked : (ns : List Node) (s : Sorter) → Ranked s → Ranked (add_nodes ns s)
  unfolding add_nodes add_node
  add_nodes-Ranked [] s r = r
  add_nodes-Ranked (n ∷ ns) s r = add_nodes-Ranked ns _ (λ m. rw predecessors-ensure (r m))

  add_edges-Ranked :
      (es : List Edge) (s : Sorter)
      → All (λ (e : Edge). rank e.from_node < rank e.to_node) es
      → Ranked s
      → Ranked (add_edges es s)
  unfolding add_edges
  add_edges-Ranked [] s up r = r
  add_edges-Ranked (e ∷ es) s up r = add_edges-Ranked es _ up.1 ranked
    where
      ranked : Ranked (add_edge e.to_node e.from_node s)
      ranked m = elim (Bool-cases (string_eq.beq e.to_node m)) [
        | inl same ↦
            let eq : e.to_node ≡ m = (eq_iff e.to_node m).0 same in
            rw (predecessors-add_edge e.to_node e.from_node m s, same)
              (rw (← eq) (
                All-append (λ p. rank p < rank e.to_node) (predecessors e.to_node s)
                  (e.from_node ∷ []) (r e.to_node) (up.0, tt)))
        | inr other ↦ rw (predecessors-add_edge e.to_node e.from_node m s, other) (r m)
      ]

  pub sorter_of-Ranked :
      (g : Graph)
      → All (λ (e : Edge). rank e.from_node < rank e.to_node) g.edges
      → Ranked (sorter_of g)
  unfolding sorter_of
  sorter_of-Ranked g up =
      add_edges-Ranked g.edges _ up
        (add_nodes-Ranked g.nodes [] (unfold predecessors Dict.get in λ n. tt))

has-add_edges :
    (es : List Edge) (m : String) (s : Sorter)
    → Dict.has m s ≡ true
    → Dict.has m (add_edges es s) ≡ true
unfolding add_edges
has-add_edges [] m s h = h
has-add_edges (e ∷ es) m s h =
    has-add_edges es m _ (ground (arith, has-add_edge e.to_node e.from_node m s))

has-add_nodes :
    (ns : List Node) (m : String) (s : Sorter)
    → Dict.has m s ≡ true
    → Dict.has m (add_nodes ns s) ≡ true
unfolding add_nodes add_node
has-add_nodes [] m s h = h
has-add_nodes (n ∷ ns) m s h = has-add_nodes ns m _ (ground (arith, has-ensure n.id m s))

nodes-recorded :
    (ns : List Node) (s : Sorter) → All (λ (n : Node). Dict.has n.id (add_nodes ns s) ≡ true) ns
unfolding add_nodes add_node
nodes-recorded [] s = tt
nodes-recorded (n ∷ ns) s = (
  has-add_nodes ns n.id _ (ground (arith, has-ensure n.id n.id s, eq_iff n.id n.id)),
  nodes-recorded ns (ensure n.id s),
)

-- Each node of the graph is in its sorter.
pub sorter_of-nodes : (g : Graph) → All (λ (n : Node). Dict.has n.id (sorter_of g) ≡ true) g.nodes
unfolding sorter_of
sorter_of-nodes g =
    All-map_of g.nodes (λ n h. has-add_edges g.edges n.id _ h) (nodes-recorded g.nodes [])

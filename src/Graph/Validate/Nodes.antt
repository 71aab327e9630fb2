-- ===== src/Graph/Validate/Nodes.antt =====
-- The first loop of `validate_graph`: what no error there means, and what `nodes_by_id` holds.
use mathlib.Core.List.{Memᴰ}
use mathlib.Core.List.Memᴰ
use formshift_server.Prelude.{
  String, Bool, true, false, Option, none, some, List, [], ◌∷◌, ◌++◌, map, ◌≡◌, ◌≢◌, refl, sym, ap,
  ◌∙◌, ◌⊎◌, inl, inr, string_eq, eq_iff, is_none, All, Distinct, Bool-cases, Option-cases, arith,
}
use formshift_server.Prelude.Dict
use formshift_server.Prelude.Dict.{Dict, get-put, put-fresh, fresh-put}
use formshift_server.Modules.{Module, Registry, lookup_module}
use formshift_server.Graph.{Node}
use formshift_server.Graph.Validate.{
  ValidationError, duplicate_node, unknown_module, error_if, index_nodes, node_errors, module_of,
}
use formshift_server.Graph.Validate.Spec.{HasModule}

abbrev pub ids : List Node → List String
ids ns = map (λ (n : Node). n.id) ns

abbrev pub IsKnown : Registry → Node → Type 0
IsKnown registry n = (m : Module) × (lookup_module registry n.module_name ≡ some m)

-- A test that appends no error failed.
pub error_if-nil :
    (b : Bool) (e : ValidationError) (rest : List ValidationError)
    → error_if b e ++ rest ≡ []
    → (b ≡ false) × (rest ≡ [])
error_if-nil true e rest h = absurd (ground arith)
error_if-nil false e rest h = (refl, h)

module _ (registry : Registry) where
  known_of : (o : Option Module) → is_none o ≡ false → (m : Module) × (o ≡ some m)
  known_of none h = absurd (ground arith)
  known_of (some m) h = (m, ground arith)

  pub node_errors_sound :
      (seen : Dict String Node) (ns : List Node)
      → node_errors registry seen ns ≡ []
      → All (λ k. Dict.has k seen ≡ false) (ids ns) × Distinct (ids ns) × All (IsKnown registry) ns
  unfolding node_errors
  node_errors_sound seen [] h = (tt, tt, tt)
  node_errors_sound seen (n ∷ ns) h =
      let (new, more) = error_if-nil (Dict.has n.id seen) (duplicate_node n.id) _ h in
      let (is_known, rest) =
        error_if-nil (is_none (lookup_module registry n.module_name))
          (unknown_module n.id n.module_name) _ more in
      let (fresh, distinct, known) = node_errors_sound (Dict.put n.id n seen) ns rest in
      let (others, before) = put-fresh n.id n seen (ids ns) fresh in
      (
        (new, before),
        (others, distinct),
        (known_of (lookup_module registry n.module_name) is_known, known),
      )

  pub node_errors_complete :
      (seen : Dict String Node) (ns : List Node)
      → All (λ k. Dict.has k seen ≡ false) (ids ns)
      → Distinct (ids ns)
      → All (IsKnown registry) ns
      → node_errors registry seen ns ≡ []
  unfolding node_errors
  node_errors_complete seen [] f d k = ground arith
  node_errors_complete seen (n ∷ ns) f d k =
      let (m, found) = k.0 in
      ground (
        arith,
        f.0,
        found,
        node_errors_complete (Dict.put n.id n seen) ns (fresh-put n.id n seen (ids ns) d.0 f.1) d.1
            k.1,
      )

index_nodes-other :
    (k : String) (seen : Dict String Node) (ns : List Node)
    → All (λ j. k ≢ j) (ids ns)
    → Dict.get k (index_nodes seen ns) ≡ Dict.get k seen
unfolding index_nodes
index_nodes-other k seen [] h = ground arith
index_nodes-other k seen (n ∷ ns) h = ground (
  arith,
  index_nodes-other k (Dict.put n.id n seen) ns h.1,
  get-put n.id k n seen,
  eq_iff n.id k,
  h.0,
)

index_nodes-member :
    (k : String) (n : Node) (seen : Dict String Node) (ns : List Node)
    → Dict.get k (index_nodes seen ns) ≡ some n
    → (Dict.get k seen ≡ some n) ⊎ (Memᴰ n ns × (n.id ≡ k))
unfolding index_nodes
index_nodes-member k n seen [] h = inl h
index_nodes-member k n seen (m ∷ ns) h = elim (index_nodes-member k n (Dict.put m.id m seen) ns h) [
  | inr (at, named) ↦ inr (Memᴰ.tail at, named)
  | inl old ↦ elim (Bool-cases (string_eq.beq m.id k)) [
    | inl same ↦
        let e : m ≡ n = ground (arith, get-put m.id k m seen) in
        inr (Memᴰ.head (sym e), ap (λ (x : Node). x.id) (sym e) ∙ (eq_iff m.id k).0 same)
    | inr other ↦ inl (ground (arith, get-put m.id k m seen))
  ]
]

index_nodes-found :
    (n : Node) (seen : Dict String Node) (ns : List Node)
    → Distinct (ids ns)
    → Memᴰ n ns
    → Dict.get n.id (index_nodes seen ns) ≡ some n
unfolding index_nodes
index_nodes-found n seen [] d m = elim m [ ]
index_nodes-found n seen (x ∷ ns) d m = elim (Memᴰ.cases_cons m) [
  | inl same ↦ rw same (
      index_nodes-other x.id (Dict.put x.id x seen) ns d.0
      ∙ ground (arith, get-put x.id x.id x seen, eq_iff x.id x.id))
  | inr later ↦ index_nodes-found n (Dict.put x.id x seen) ns d.1 later
]

module _ (registry : Registry) (ns : List Node) (id : String) (m : Module) where
  pub module_of-HasModule :
      module_of registry (index_nodes [] ns) id ≡ some m → HasModule registry ns id m
  unfolding module_of
  module_of-HasModule h = elim (Option-cases (Dict.get id (index_nodes [] ns))) [
    | inl e ↦ absurd (ground arith)
    | inr (n, e) ↦ elim (index_nodes-member id n [] ns e) [
      | inl none_yet ↦ absurd (unfold Dict.get in ground arith)
      | inr (at, named) ↦ record { node = n; member = at; named = named; registered = ground arith }
    ]
  ]

  pub HasModule-module_of :
      Distinct (ids ns)
      → HasModule registry ns id m
      → module_of registry (index_nodes [] ns) id ≡ some m
  unfolding module_of
  HasModule-module_of d h =
      let e : Dict.get h.node.id (index_nodes [] ns) ≡ some h.node =
        index_nodes-found h.node [] ns d h.member in
      rw (← h.named) (ground (arith, e, h.registered))

-- ===== src/Graph/Validate/Outputs.antt =====
-- The loops of `validate_graph` over the output groups and over the outputs.
use mathlib.Core.List.{Memᴰ}
use mathlib.Core.List.Memᴰ
use formshift_server.Prelude.{
  String, true, false, Option, none, some, List, [], ◌∷◌, ◌++◌, map, ◌≡◌, ◌≢◌, ◌⊎◌, refl, inl, inr,
  string_eq, pair_eq, pair_beq_iff, eq_iff, elem, is_none, not, All, Distinct, Bool-cases, arith,
}
use formshift_server.Prelude.Dict
use formshift_server.Prelude.Dict.{Dict, get-put, put-fresh, fresh-put}
use formshift_server.Modules.{Registry}
use formshift_server.Graph.{Node, OutputRef, OutputGroup}
use formshift_server.Graph.Validate.{
  ValidationError, group_without_id, duplicate_group, unknown_order, duplicate_output,
  unknown_output, undeclared_group, PortKey, output_key, index_nodes, index_groups,
  output_group_orders, group_errors, membership_errors, output_errors, output_type,
}
use formshift_server.Graph.Validate.Spec.{Produces}
use formshift_server.Graph.Validate.Nodes.{ids, error_if-nil}
use formshift_server.Graph.Validate.Ports.{output_type-Produces, Produces-output_type}

abbrev pub group_ids : List OutputGroup → List String
group_ids gs = map (λ (g : OutputGroup). g.id) gs

abbrev pub IsNamed : OutputGroup → Type 0
IsNamed g = g.id ≢ ""

abbrev pub HasOrder : OutputGroup → Type 0
HasOrder g = (g.order ≡ "completion") ⊎ (g.order ≡ "pinned")

pub order_known :
    (order : String)
    → not (elem order output_group_orders) ≡ false
    → (order ≡ "completion") ⊎ (order ≡ "pinned")
order_known order h = elim (Bool-cases (string_eq.beq "completion" order)) [
  | inl e ↦ inl (ground (arith, eq_iff "completion" order))
  | inr e ↦ inr (ground (arith, eq_iff "pinned" order))
]

known_order :
    (order : String)
    → (order ≡ "completion") ⊎ (order ≡ "pinned")
    → not (elem order output_group_orders) ≡ false
known_order order (inl e) = ground (arith, eq_iff "completion" order)
known_order order (inr e) = ground (arith, eq_iff "pinned" order)

pub group_errors_sound :
    (seen : Dict String OutputGroup) (gs : List OutputGroup)
    → group_errors seen gs ≡ []
    → All IsNamed gs
      × All (λ k. Dict.has k seen ≡ false) (group_ids gs)
      × Distinct (group_ids gs)
      × All HasOrder gs
unfolding group_errors
group_errors_sound seen [] h = (tt, tt, tt, tt)
group_errors_sound seen (g ∷ gs) h =
    let (named, h1) = error_if-nil _ group_without_id _ h in
    let (new, h2) = error_if-nil _ (duplicate_group g.id) _ h1 in
    let (ordered, rest) = error_if-nil _ (unknown_order g.id g.order) _ h2 in
    let (all_named, fresh, distinct, all_ordered) =
      group_errors_sound (Dict.put g.id g seen) gs rest in
    let (others, before) = put-fresh g.id g seen (group_ids gs) fresh in
    (
      (λ e. ground (arith, eq_iff g.id ""), all_named),
      (new, before),
      (others, distinct),
      (order_known g.order ordered, all_ordered),
    )

pub group_errors_complete :
    (seen : Dict String OutputGroup) (gs : List OutputGroup)
    → All IsNamed gs
    → All (λ k. Dict.has k seen ≡ false) (group_ids gs)
    → Distinct (group_ids gs)
    → All HasOrder gs
    → group_errors seen gs ≡ []
unfolding group_errors
group_errors_complete seen [] a b c d = ground arith
group_errors_complete seen (g ∷ gs) a b c d =
    let named : string_eq.beq g.id "" ≡ false = ground (arith, a.0, eq_iff g.id "") in
    rw (named, b.0, known_order g.order d.0)
      (group_errors_complete (Dict.put g.id g seen) gs a.1
        (fresh-put g.id g seen (group_ids gs) c.0 b.1) c.1 d.1)

index_groups-has :
    (k : String) (seen : Dict String OutputGroup) (gs : List OutputGroup)
    → Dict.has k (index_groups seen gs) ≡ true
    → (Dict.has k seen ≡ true) ⊎ Memᴰ k (group_ids gs)
unfolding index_groups
index_groups-has k seen [] h = inl h
index_groups-has k seen (g ∷ gs) h = elim (index_groups-has k (Dict.put g.id g seen) gs h) [
  | inr later ↦ inr (Memᴰ.tail later)
  | inl now ↦ elim (Bool-cases (string_eq.beq g.id k)) [
    | inl same ↦ inr (Memᴰ.head (ground (arith, eq_iff g.id k)))
    | inr other ↦ inl (ground (arith, get-put g.id k g seen))
  ]
]

has-index_groups_kept :
    (k : String) (seen : Dict String OutputGroup) (gs : List OutputGroup)
    → Dict.has k seen ≡ true
    → Dict.has k (index_groups seen gs) ≡ true
unfolding index_groups
has-index_groups_kept k seen [] h = h
has-index_groups_kept k seen (g ∷ gs) h =
    has-index_groups_kept k (Dict.put g.id g seen) gs (ground (arith, get-put g.id k g seen))

has-index_groups :
    (k : String) (seen : Dict String OutputGroup) (gs : List OutputGroup)
    → Memᴰ k (group_ids gs)
    → Dict.has k (index_groups seen gs) ≡ true
unfolding index_groups
has-index_groups k seen [] m = elim m [ ]
has-index_groups k seen (g ∷ gs) m = elim (Memᴰ.cases_cons m) [
  | inl same ↦
      has-index_groups_kept k (Dict.put g.id g seen) gs
        (ground (arith, get-put g.id k g seen, eq_iff g.id k))
  | inr later ↦ has-index_groups k (Dict.put g.id g seen) gs later
]

-- The group of an output, where it names one, is declared.
abbrev pub IsDeclared : List OutputGroup → OutputRef → Type 0
IsDeclared gs out = (id : String) → out.group ≡ some id → Memᴰ id (group_ids gs)

declared_of :
    (gs : List OutputGroup) (g : String)
    → Dict.has g (index_groups [] gs) ≡ true
    → Memᴰ g (group_ids gs)
declared_of gs g h = elim (index_groups-has g [] gs h) [
  | inl old ↦ absurd (unfold Dict.get in ground arith)
  | inr at ↦ at
]

membership_sound :
    (gs : List OutputGroup) (key : PortKey) (group : Option String) (rest : List ValidationError)
    → membership_errors (index_groups [] gs) key group ++ rest ≡ []
    → ((id : String) → group ≡ some id → Memᴰ id (group_ids gs)) × (rest ≡ [])
unfolding membership_errors
membership_sound gs key none rest h = (λ id e. absurd (ground arith), h)
membership_sound gs key (some g) rest h =
    let (absent, more) = error_if-nil _ (undeclared_group key g) rest h in
    (
      λ id e. let same : g ≡ id = cc in rw (← same) (declared_of gs g (ground (arith, absent))),
      more,
    )

membership_complete :
    (gs : List OutputGroup) (key : PortKey) (group : Option String)
    → ((id : String) → group ≡ some id → Memᴰ id (group_ids gs))
    → membership_errors (index_groups [] gs) key group ≡ []
unfolding membership_errors
membership_complete gs key none h = ground arith
membership_complete gs key (some g) h = rw (has-index_groups g [] gs (h g refl))

abbrev pub keys_of : List OutputRef → List PortKey
keys_of outs = map output_key outs

-- A key that is new to `key ∷ refs` is not `key`, and is new to `refs`.
cons-fresh :
    (key : PortKey) (refs ks : List PortKey)
    → All (λ k. elem k (key ∷ refs) ≡ false) ks
    → All (λ k. key ≢ k) ks × All (λ k. elem k refs ≡ false) ks
cons-fresh key refs [] h = (tt, tt)
cons-fresh key refs (k ∷ ks) h =
    let (ne, old) = cons-fresh key refs ks h.1 in
    (
      (λ same. ground (arith, h.0, pair_beq_iff {A = String} {B = String} key k), ne),
      (ground (arith, h.0), old),
    )

fresh-cons :
    (key : PortKey) (refs ks : List PortKey)
    → All (λ k. key ≢ k) ks
    → All (λ k. elem k refs ≡ false) ks
    → All (λ k. elem k (key ∷ refs) ≡ false) ks
fresh-cons key refs [] ne h = tt
fresh-cons key refs (k ∷ ks) ne h = (
  ground (arith, h.0, ne.0, pair_beq_iff {A = String} {B = String} key k),
  fresh-cons key refs ks ne.1 h.1,
)

module _ (registry : Registry) (ns : List Node) (gs : List OutputGroup) where
  abbrev pub IsProduced : OutputRef → Type 0
  IsProduced out = (t : String) × Produces registry ns (out.node, out.port) t

  type_found :
      (out : OutputRef) (o : Option String)
      → output_type registry (index_nodes [] ns) out.node out.port ≡ o
      → is_none o ≡ false
      → IsProduced out
  type_found out none e h = absurd (ground arith)
  type_found out (some t) e h = (t, output_type-Produces registry ns (output_key out) t e)

  pub output_errors_sound :
      (refs : List PortKey) (outs : List OutputRef)
      → output_errors registry (index_nodes [] ns) (index_groups [] gs) refs outs ≡ []
      → All (λ k. elem k refs ≡ false) (keys_of outs)
        × Distinct (keys_of outs)
        × All IsProduced outs
        × All (IsDeclared gs) outs
  unfolding output_errors
  output_errors_sound refs [] h = (tt, tt, tt, tt)
  output_errors_sound refs (out ∷ outs) h =
      let key = output_key out in
      let (new, h1) = error_if-nil _ (duplicate_output key) _ h in
      let (typed, h2) = error_if-nil _ (unknown_output key) _ h1 in
      let (declared, rest) = membership_sound gs key out.group _ h2 in
      let (fresh, distinct, produced, all_declared) = output_errors_sound (key ∷ refs) outs rest in
      let (others, before) = cons-fresh key refs (keys_of outs) fresh in
      (
        (new, before),
        (others, distinct),
        (type_found out _ refl typed, produced),
        (declared, all_declared),
      )

  pub output_errors_complete :
      (refs : List PortKey) (outs : List OutputRef)
      → Distinct (ids ns)
      → All (λ k. elem k refs ≡ false) (keys_of outs)
      → Distinct (keys_of outs)
      → All IsProduced outs
      → All (IsDeclared gs) outs
      → output_errors registry (index_nodes [] ns) (index_groups [] gs) refs outs ≡ []
  unfolding output_errors
  output_errors_complete refs [] d a b c e = ground arith
  output_errors_complete refs (out ∷ outs) d a b c e =
      let key = output_key out in
      let (t, p) = c.0 in
      rw (a.0, Produces-output_type registry ns key t d p, membership_complete gs key out.group e.0)
        (output_errors_complete (key ∷ refs) outs d (fresh-cons key refs (keys_of outs) b.0 a.1) b.1
          c.1 e.1)

-- ===== src/Jobs/Outputs/Plans.antt =====
-- What `_run` (src/formshift_server/jobs.py) computes from the outputs and groups of a graph before
-- it starts to emit: `group_of` and `pinned_sequence`.
use mathlib.Core.List.{append_assoc, append-nil}
use formshift_server.Prelude.{
  String, true, Option, none, some, List, [], ◌∷◌, ◌++◌, map, ◌≡◌, ◌≢◌, refl, sym, ap, ◌∙◌, inl,
  inr, string_eq, pair_eq, pair_beq_iff, eq_iff, All, Distinct, Option-cases, Bool-cases, arith,
  if◌then◌else◌,
}
use formshift_server.Prelude.Dict
use formshift_server.Prelude.Dict.{Dict, get-put}
use formshift_server.Graph.{OutputRef}
use formshift_server.Jobs.Outputs.{PortKey, Plan, push, pin, extend, plan_from, group_for}
use formshift_server.Jobs.Outputs.Gate.{in_group}

abbrev pub ref_key : OutputRef → PortKey
ref_key r = (r.node, r.port)

-- The ports that a graph lists for a group, in declared order.
unfoldable pub declared : String → List OutputRef → List PortKey
declared g [] = []
declared g (r ∷ rs) =
    let rest = declared g rs in if in_group g r.group then ref_key r ∷ rest else rest

abbrev pub sequence_of : String → Dict String (List PortKey) → List PortKey
sequence_of g sequences = elim (Dict.get g sequences) [ none ↦ [] | some keys ↦ keys ]

sequence_of-push :
    (g h : String) (key : PortKey) (s : Dict String (List PortKey))
    → sequence_of g (push h key s) ≡ sequence_of g s ++ (if string_eq.beq h g then key ∷ [] else [])
unfolding push
sequence_of-push g h key s =
    ground
      (arith, eq_iff h g, append-nil (sequence_of g s), get-put h g (sequence_of h s ++ key ∷ []) s)

pin-sequence :
    (orders : Dict String String) (g : String) (group : Option String) (key : PortKey)
    (s t : Dict String (List PortKey))
    → Dict.get g orders ≡ some "pinned"
    → pin orders group key s ≡ some t
    → sequence_of g t ≡ sequence_of g s ++ (if in_group g group then key ∷ [] else [])
unfolding pin
pin-sequence orders g none key s t pinned h = ground (arith, append-nil (sequence_of g s))
pin-sequence orders g (some i) key s t pinned h = elim (Option-cases (Dict.get i orders)) [
  | inl e ↦ absurd (ground arith)
  | inr (order, e) ↦ elim (Bool-cases (string_eq.beq order "pinned")) [
    | inl same ↦
        let pushed : push i key s ≡ t = ground arith in rw (← pushed) (sequence_of-push g i key s)
    | inr other ↦
        let kept : s ≡ t = ground arith in
        rw (← kept)
          (ground (arith, eq_iff i g, eq_iff order "pinned", append-nil (sequence_of g s)))
  ]
]

group_for-put :
    (key k : PortKey) (group : Option String) (d : Dict PortKey (Option String))
    (s t : Dict String (List PortKey))
    → group_for (record { group_of = Dict.put key group d; pinned_sequence = t }) k ≡ (
        if (pair_eq {A = String} {B = String}).beq key k
        then group
        else group_for (record { group_of = d; pinned_sequence = s }) k)
unfolding group_for
group_for-put key k group d s t = ground (arith, get-put key k group d)

module _ (orders : Dict String String) where
  -- The plan after one output, if its group is declared.
  plan_from-cons :
      (plan final : Plan) (r : OutputRef) (rs : List OutputRef)
      → plan_from orders plan (r ∷ rs) ≡ some final
      → (t : Dict String (List PortKey)) × (pin orders r.group (ref_key r) plan.pinned_sequence
          ≡ some t)
        × (plan_from orders (extend plan r t) rs ≡ some final)
  unfolding plan_from
  plan_from-cons plan final r rs h =
      elim (Option-cases (pin orders r.group (ref_key r) plan.pinned_sequence)) [
        | inl e ↦ absurd (let k : none ≡ some final = rw (e, plan_from) at h in cc)
        | inr (t, e) ↦ (t, e, rw (e, plan_from) at h)
      ]

  pub plan_from-sequence :
      (g : String) (plan final : Plan) (rs : List OutputRef)
      → Dict.get g orders ≡ some "pinned"
      → plan_from orders plan rs ≡ some final
      → sequence_of g final.pinned_sequence ≡ sequence_of g plan.pinned_sequence ++ declared g rs
  unfolding declared
  plan_from-sequence g plan final [] pinned h =
      let same : plan ≡ final = unfold plan_from in ground arith in
      rw (← same) (sym (append-nil (sequence_of g plan.pinned_sequence)))
  plan_from-sequence g plan final (r ∷ rs) pinned h =
      let (t, pinned_t, rest) = plan_from-cons plan final r rs h in
      plan_from-sequence g (extend plan r t) final rs pinned rest
      ∙ ground (
        arith,
        pin-sequence orders g r.group (ref_key r) plan.pinned_sequence t pinned pinned_t,
        append_assoc (sequence_of g plan.pinned_sequence) (ref_key r ∷ []) (declared g rs),
        append-nil (sequence_of g plan.pinned_sequence),
      )

  plan_from-other :
      (plan final : Plan) (rs : List OutputRef) (k : PortKey)
      → plan_from orders plan rs ≡ some final
      → All (λ j. k ≢ j) (map ref_key rs)
      → group_for final k ≡ group_for plan k
  plan_from-other plan final [] k h ne =
      let same : plan ≡ final = unfold plan_from in ground arith in rw same
  plan_from-other plan final (r ∷ rs) k h ne =
      let (t, _, rest) = plan_from-cons plan final r rs h in
      plan_from-other (extend plan r t) final rs k rest ne.1
      ∙ group_for-put (ref_key r) k r.group plan.group_of plan.pinned_sequence t
      ∙ ground (arith, ne.0, pair_beq_iff {A = String} {B = String} (ref_key r) k)

  -- Each output is mapped to its group.
  pub plan_from-group_for :
      (plan final : Plan) (rs : List OutputRef)
      → plan_from orders plan rs ≡ some final
      → Distinct (map ref_key rs)
      → All (λ (r : OutputRef). group_for final (ref_key r) ≡ r.group) rs
  plan_from-group_for plan final [] h d = tt
  plan_from-group_for plan final (r ∷ rs) h d =
      let (t, _, rest) = plan_from-cons plan final r rs h in
      (
        plan_from-other (extend plan r t) final rs (ref_key r) rest d.0
            ∙ group_for-put (ref_key r) (ref_key r) r.group plan.group_of plan.pinned_sequence t
            ∙ ground (arith, pair_beq_iff {A = String} {B = String} (ref_key r) (ref_key r)),
        plan_from-group_for (extend plan r t) final rs rest d.1,
      )

  pin-total :
      (group : Option String) (key : PortKey) (s : Dict String (List PortKey))
      → ((id : String) → group ≡ some id → Dict.has id orders ≡ true)
      → (t : Dict String (List PortKey)) × (pin orders group key s ≡ some t)
  unfolding pin
  pin-total none key s known = (s, refl)
  pin-total (some g) key s known = elim (Option-cases (Dict.get g orders)) [
    | inl e ↦ absurd (ground (arith, known g refl))
    | inr (order, e) ↦ (if string_eq.beq order "pinned" then push g key s else s, rw (e, pin) refl)
  ]

  -- No `KeyError` where every group is declared.
  pub plan_from-total :
      (plan : Plan) (rs : List OutputRef)
      → All (λ (r : OutputRef). (id : String) → r.group ≡ some id → Dict.has id orders ≡ true) rs
      → (final : Plan) × (plan_from orders plan rs ≡ some final)
  unfolding plan_from
  plan_from-total plan [] known = (plan, refl)
  plan_from-total plan (r ∷ rs) known =
      let (t, e) = pin-total r.group (ref_key r) plan.pinned_sequence known.0 in
      let (final, h) = plan_from-total (extend plan r t) rs known.1 in (final, rw (e, plan_from) h)

pub declared-members :
    (plan : Plan) (g : String) (rs : List OutputRef)
    → All (λ (r : OutputRef). group_for plan (ref_key r) ≡ r.group) rs
    → All (λ k. group_for plan k ≡ some g) (declared g rs)
unfolding declared
declared-members plan g [] h = tt
declared-members plan g (r ∷ rs) h = elim (Bool-cases (in_group g r.group)) [
  | inl e ↦ rw e (h.0 ∙ named r.group e, declared-members plan g rs h.1)
  | inr e ↦ rw e (declared-members plan g rs h.1)
]
  where
    named : (group : Option String) → in_group g group ≡ true → group ≡ some g
    named none e = absurd (ground arith)
    named (some i) e = ap some ((eq_iff i g).0 e)

declared-ne :
    (k : PortKey) (g : String) (rs : List OutputRef)
    → All (λ j. k ≢ j) (map ref_key rs)
    → All (λ j. k ≢ j) (declared g rs)
unfolding declared
declared-ne k g [] h = tt
declared-ne k g (r ∷ rs) h = elim (Bool-cases (in_group g r.group)) [
  | inl e ↦ rw e (h.0, declared-ne k g rs h.1)
  | inr e ↦ rw e (declared-ne k g rs h.1)
]

pub declared-Distinct :
    (g : String) (rs : List OutputRef) → Distinct (map ref_key rs) → Distinct (declared g rs)
unfolding declared
declared-Distinct g [] d = tt
declared-Distinct g (r ∷ rs) d = elim (Bool-cases (in_group g r.group)) [
  | inl e ↦ rw e (declared-ne (ref_key r) g rs d.0, declared-Distinct g rs d.1)
  | inr e ↦ rw e (declared-Distinct g rs d.1)
]

-- ===== src/Jobs/Outputs/Pinned.antt =====
-- Pinned groups (src/formshift_server/jobs.py, `on_output`): in what order a group's outputs are
-- emitted, whatever the order in which they are computed.
pub mod Declared
use mathlib.Core.List.{append_assoc, append-nil}
use formshift_server.Prelude.{
  ℕ, ◌||◌, ◌++◌, drop, refl, sym, map, true, false, zero, suc, ◌+◌, String, Bool, Option, none,
  some, List, [], ◌∷◌, ◌≡◌, ◌≢◌, ap, ◌∙◌, inl, inr, string_eq, pair_eq, pair_beq_iff, eq_iff, elem,
  All, All-append, All-map_of, Distinct, Option-cases, Bool-cases, arith, if◌then◌else◌,
}
use formshift_server.Prelude.Dict
use formshift_server.Prelude.Dict.{get-put, get-remove}
use formshift_server.Executor.{ExecutionOutput}
use formshift_server.Sessions.{Session}
use formshift_server.Jobs.{EventLog}
use formshift_server.Jobs.Outputs.{
  zeros, start, index_in, held_in, HeldOutputs, PortKey, Plan, Emission, output_key, emit_output,
  release, flush, store, on_pinned, on_group, group_for, on_output, on_outputs,
}
use formshift_server.Jobs.Outputs.Invariant.{
  IsShut, Waits, Partial, Holds, on_pinned-Holds, other-Holds,
}
use formshift_server.Jobs.Outputs.Gate.{
  in_group, emitted_in, SameView, emit_output-SameView, held_in-release, index_in-release,
  emitted-release, on_pinned-SameView, held_in-store,
}

-- The longest prefix of a sequence of which every member has arrived.
unfoldable pub arrived_prefix : List PortKey → List PortKey → List PortKey
arrived_prefix arrived [] = []
arrived_prefix arrived (k ∷ ks) =
    let rest = arrived_prefix arrived ks in if elem k arrived then k ∷ rest else []

drop-All {ℓ} : (P : PortKey → Type ℓ) (n : ℕ) (xs : List PortKey) → All P xs → All P (drop n xs)
drop-All P zero xs h = h
drop-All P (suc n) [] h = tt
drop-All P (suc n) (x ∷ xs) h = drop-All P n xs h.1

arrived_prefix-same :
    (a b : List PortKey)
    → ((k : PortKey) → elem k a ≡ elem k b)
    → (seq : List PortKey) → arrived_prefix a seq ≡ arrived_prefix b seq
unfolding arrived_prefix
arrived_prefix-same a b same [] = refl
arrived_prefix-same a b same (k ∷ seq) = ground (arith, same k, arrived_prefix-same a b same seq)

arrived_prefix-split :
    (arrived : List PortKey) (held : HeldOutputs) (done rest : List PortKey)
    → All (λ k. elem k arrived ≡ true) done
    → Waits arrived held rest
    → IsShut rest held
    → arrived_prefix arrived (done ++ rest) ≡ done
unfolding arrived_prefix
arrived_prefix-split arrived held [] [] a w s = refl
arrived_prefix-split arrived held [] (k ∷ rest) a w s = elim (Bool-cases (elem k arrived)) [
  | inl e ↦ absurd (ground (arith, w.0 e))
  | inr e ↦ rw e
]
arrived_prefix-split arrived held (k ∷ done) rest a w s =
    rw a.0 (ap (◌∷◌ k) (arrived_prefix-split arrived held done rest a.1 w s))

-- The keys of the outputs, put onto those that arrived before.
arrivals : List PortKey → List ExecutionOutput → List PortKey
arrivals arrived [] = arrived
arrivals arrived (o ∷ os) = arrivals (output_key o ∷ arrived) os

elem-arrivals :
    (k : PortKey) (arrived : List PortKey) (os : List ExecutionOutput)
    → elem k (arrivals arrived os) ≡ (elem k (map output_key os) || elem k arrived)
unfolding arrivals
elem-arrivals k arrived [] = refl
elem-arrivals k arrived (o ∷ os) = ground (arith, elem-arrivals k (output_key o ∷ arrived) os)

or_false : (b : Bool) → (b || false) ≡ b
or_false true = refl
or_false false = refl

zeros-index :
    (g : String) (sequences : Dict.Dict String (List PortKey))
    → ◌≡◌ {A = ℕ} (elim (Dict.get g (zeros sequences)) [ none ↦ 0 | some n ↦ n ]) 0
unfolding Dict.get zeros
zeros-index g [] = refl
zeros-index g ((h, keys) ∷ sequences) = ground (arith, zeros-index g sequences)

Waits-nil : (held : HeldOutputs) (keys : List PortKey) → Waits [] held keys
Waits-nil held [] = tt
Waits-nil held (k ∷ keys) = (λ a. absurd (ground arith), Waits-nil held keys)

IsShut-nil : (keys : List PortKey) → IsShut keys []
unfolding Dict.get
IsShut-nil [] = tt
IsShut-nil (k ∷ keys) = refl

-- `g` is pinned in the plan, and `seq` is its sequence: its members, each once.
pub record IsPinned (plan : Plan) (g : String) (seq : List PortKey) : Type 0 where
  pub sequence : Dict.get g plan.pinned_sequence ≡ some seq
  pub members : All (λ k. group_for plan k ≡ some g) seq
  pub distinct : Distinct seq

module _ (new_id : ℕ → String) (job : String) (plan : Plan) (g : String) (seq : List PortKey)
    (pinned : IsPinned plan g seq) where
  not_member :
      (key : PortKey) (n : ℕ) → group_for plan key ≢ some g → All (λ k. key ≢ k) (drop n seq)
  not_member key n other =
      drop-All (λ k. key ≢ k) n seq
        (All-map_of {P = λ k. group_for plan k ≡ some g} seq
          (λ k m same. other (ap (group_for plan) same ∙ m)) pinned.members)

  on_output-Holds :
      (arrived : List PortKey) (o : ExecutionOutput) (st : Emission)
      → Holds new_id job g seq arrived st
      → Holds new_id job g seq (output_key o ∷ arrived) (on_output new_id job plan o st)
  unfolding on_output on_group
  on_output-Holds arrived o st h =
      let key = output_key o in
      elim (Option-cases (group_for plan key)) [
        | inl e ↦
            rw (e, on_group)
              (other-Holds new_id job g seq arrived key st _
                (not_member key (index_in g st) (λ same. ground arith))
                (emit_output-SameView new_id job g o none st refl) h)
        | inr (i, e) ↦ elim (Bool-cases (string_eq.beq i g)) [
          | inl same ↦
              let is_g : i ≡ g = (eq_iff i g).0 same in
              let mine : group_for plan key ≡ some g = e ∙ ap some is_g in
              rw (mine, on_group)
                (rw (pinned.sequence, on_group)
                  (on_pinned-Holds new_id job g seq arrived o st pinned.distinct h))
          | inr other ↦
              let ne : i ≢ g = λ is_g. ground (arith, eq_iff i g) in
              let outside = not_member key (index_in g st) (λ same. ground (arith, eq_iff i g)) in
              elim (Option-cases (Dict.get i plan.pinned_sequence)) [
                | inl f ↦
                    rw (e, on_group)
                      (rw (f, on_group)
                        (other-Holds new_id job g seq arrived key st _ outside
                          (emit_output-SameView new_id job g o (some i) st other) h))
                | inr (others, f) ↦
                    rw (e, on_group)
                      (rw (f, on_group)
                        (other-Holds new_id job g seq arrived key st _ outside
                          (on_pinned-SameView new_id job g i others o st ne) h))
              ]
        ]
      ]

  on_outputs-Holds :
      (arrived : List PortKey) (os : List ExecutionOutput) (st : Emission)
      → Holds new_id job g seq arrived st
      → Holds new_id job g seq (arrivals arrived os) (on_outputs new_id job plan os st)
  unfolding on_outputs arrivals
  on_outputs-Holds arrived [] st h = h
  on_outputs-Holds arrived (o ∷ os) st h =
      on_outputs-Holds (output_key o ∷ arrived) os (on_output new_id job plan o st)
        (on_output-Holds arrived o st h)

  -- However the outputs of a job are computed, the records of a pinned group are those of the
  -- longest prefix of its sequence of which every member has arrived, in the sequence's order.
  pub pinned-emitted :
      (session : Session) (log : EventLog) (drawn : ℕ) (os : List ExecutionOutput)
      → emitted_in g (on_outputs new_id job plan os (start plan session log drawn)).outputs
        ≡ arrived_prefix (map output_key os) seq
  unfolding emitted_in
  pinned-emitted session log drawn os =
      let first = start plan session log drawn in
      let zero_index : index_in g first ≡ 0 =
        unfold index_in in zeros-index g plan.pinned_sequence in
      let empty : held_in g first ≡ [] = unfold held_in Dict.get in refl in
      let begin : Holds new_id job g seq [] first = (
        record {
          split = rw zero_index refl;
          stored = λ k o e. absurd (unfold held_in Dict.get in ground arith);
          waits = rw zero_index (Waits-nil (held_in g first) seq);
          emitted = unfold emitted_in in tt;
        },
        rw (zero_index, empty) (IsShut-nil seq),
      ) in
      let (p, shut) = on_outputs-Holds [] os first begin in
      let last = on_outputs new_id job plan os first in
      sym (
        arrived_prefix-same (map output_key os) (arrivals [] os)
          (λ k. sym (elem-arrivals k [] os ∙ or_false (elem k (map output_key os)))) seq
        ∙ ap (arrived_prefix (arrivals [] os)) (sym p.split)
        ∙ arrived_prefix-split (arrivals [] os) (held_in g last) (emitted_in g last.outputs)
            (drop (index_in g last) seq) p.emitted p.waits shut)

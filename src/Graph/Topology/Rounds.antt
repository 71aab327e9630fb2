-- ===== src/Graph/Topology/Rounds.antt =====
-- The rounds of `static_order`, on a sorter in which each node stands once.
use mathlib.Core.List.{append-nil, append_assoc, Perm, perm_middle}
use mathlib.Core.List.Perm
use formshift_server.Prelude.{
  ℕ, zero, suc, ◌+◌, ◌<◌, String, true, false, none, some, List, [], ◌∷◌, ◌++◌, ◌≡◌, ◌≢◌, refl, ◌∙◌,
  inl, inr, string_eq, eq_iff, elem, length, is_empty, All, Distinct, not-elem, elem-append,
  position, position-lt-of_elem, position-ge-of_not-elem, Bool-cases, arith,
}
use formshift_server.Prelude.Dict
use formshift_server.Graph.Topology.{Sorter, all_in, ready, waiting, rounds}

abbrev pub Entry : Type 0
Entry = String × List String

-- The node of an entry is not placed.
abbrev pub Unplaced : List String → Sorter → Type 0
Unplaced placed pending = All (λ (e : Entry). elem e.0 placed ≡ false) pending

pub length-ready-waiting :
    (placed : List String) (pending : Sorter)
    → length (ready placed pending) + length (waiting placed pending) ≡ length pending
unfolding ready waiting
length-ready-waiting placed [] = omega arith
length-ready-waiting placed ((n, preds) ∷ pending) =
    ground (arith, length-ready-waiting placed pending)

module _ (placed : List String) where
  ready-ne :
      (n : String) (pending : Sorter)
      → All (λ y. n ≢ y) (Dict.keys pending)
      → All (λ y. n ≢ y) (ready placed pending)
  unfolding ready
  ready-ne n [] h = tt
  ready-ne n ((m, preds) ∷ pending) h = elim (Bool-cases (all_in preds placed)) [
    | inl e ↦ rw e (h.0, ready-ne n pending h.1)
    | inr e ↦ rw e (ready-ne n pending h.1)
  ]

  waiting-keys-ne :
      (n : String) (pending : Sorter)
      → All (λ y. n ≢ y) (Dict.keys pending)
      → All (λ y. n ≢ y) (Dict.keys (waiting placed pending))
  unfolding waiting
  waiting-keys-ne n [] h = tt
  waiting-keys-ne n ((m, preds) ∷ pending) h = elim (Bool-cases (all_in preds placed)) [
    | inl e ↦ rw e (waiting-keys-ne n pending h.1)
    | inr e ↦ rw e (h.0, waiting-keys-ne n pending h.1)
  ]

  waiting-Distinct :
      (pending : Sorter)
      → Distinct (Dict.keys pending)
      → Distinct (Dict.keys (waiting placed pending))
  unfolding waiting
  waiting-Distinct [] h = tt
  waiting-Distinct ((m, preds) ∷ pending) h = elim (Bool-cases (all_in preds placed)) [
    | inl e ↦ rw e (waiting-Distinct pending h.1)
    | inr e ↦ rw e (waiting-keys-ne m pending h.0, waiting-Distinct pending h.1)
  ]

  ready-Distinct :
      (pending : Sorter) → Distinct (Dict.keys pending) → Distinct (ready placed pending)
  unfolding ready
  ready-Distinct [] h = tt
  ready-Distinct ((m, preds) ∷ pending) h = elim (Bool-cases (all_in preds placed)) [
    | inl e ↦ rw e (ready-ne m pending h.0, ready-Distinct pending h.1)
    | inr e ↦ rw e (ready-Distinct pending h.1)
  ]

  -- What holds of the entries that wait and of those that are ready holds of all.
  All-split {ℓ} :
      (P : Entry → Type ℓ) (pending : Sorter)
      → All (λ e. all_in e.1 placed ≡ true → P e) pending
      → All P (waiting placed pending)
      → All P pending
  unfolding waiting
  All-split P [] now later = tt
  All-split P ((m, preds) ∷ pending) now later = elim (Bool-cases (all_in preds placed)) [
    | inl e ↦ (now.0 e, All-split P pending now.1 (rw e at later))
    | inr e ↦
        let later' : All P ((m, preds) ∷ waiting placed pending) = rw e at later in
        (later'.0, All-split P pending now.1 later'.1)
  ]

  pub waiting-All {ℓ} :
      (P : Entry → Type ℓ) (pending : Sorter) → All P pending → All P (waiting placed pending)
  unfolding waiting
  waiting-All P [] h = tt
  waiting-All P ((m, preds) ∷ pending) h = elim (Bool-cases (all_in preds placed)) [
    | inl e ↦ rw e (waiting-All P pending h.1)
    | inr e ↦ rw e (h.0, waiting-All P pending h.1)
  ]

cons-Unplaced :
    (m : String) (done : List String) (d : Sorter)
    → All (λ y. m ≢ y) (Dict.keys d)
    → Unplaced done d
    → Unplaced (m ∷ done) d
cons-Unplaced m done [] ne h = tt
cons-Unplaced m done ((n, preds) ∷ d) ne h =
    (ground (arith, h.0, ne.0, eq_iff m n), cons-Unplaced m done d ne.1 h.1)

append-Unplaced :
    (xs ys : List String) (d : Sorter) → Unplaced xs d → Unplaced ys d → Unplaced (xs ++ ys) d
append-Unplaced xs ys [] hx hy = tt
append-Unplaced xs ys ((n, preds) ∷ d) hx hy =
    (ground (arith, hx.0, hy.0, elem-append n xs ys), append-Unplaced xs ys d hx.1 hy.1)

pub nil-Unplaced : (d : Sorter) → Unplaced [] d
nil-Unplaced [] = tt
nil-Unplaced (e ∷ d) = (refl, nil-Unplaced d)

-- The nodes of a round differ from those that wait.
ready-Unplaced :
    (placed : List String) (pending : Sorter)
    → Distinct (Dict.keys pending)
    → Unplaced (ready placed pending) (waiting placed pending)
unfolding ready waiting
ready-Unplaced placed [] d = tt
ready-Unplaced placed ((m, preds) ∷ pending) d = elim (Bool-cases (all_in preds placed)) [
  | inl e ↦ rw e (
      cons-Unplaced m (ready placed pending) (waiting placed pending)
        (waiting-keys-ne placed m pending d.0) (ready-Unplaced placed pending d.1))
  | inr e ↦ rw e (not-elem m _ (ready-ne placed m pending d.0), ready-Unplaced placed pending d.1)
]

-- Each predecessor of the entry stands before the entry's node.
abbrev pub IsAfter : List String → Entry → Type 0
IsAfter order e = All (λ p. position p order < position e.0 order) e.1

all_in-before :
    (placed rest : List String) (n : String) (preds : List String)
    → elem n placed ≡ false
    → all_in preds placed ≡ true
    → IsAfter (placed ++ rest) (n, preds)
unfolding all_in
all_in-before placed rest n [] h a = tt
all_in-before placed rest n (p ∷ preds) h a = (
  let here : elem p placed ≡ true = ground arith in
      omega
        (arith, position-lt-of_elem p placed rest here, position-ge-of_not-elem n placed rest h),
  all_in-before placed rest n preds h (ground arith),
)

ready-before :
    (placed rest : List String) (pending : Sorter)
    → Unplaced placed pending
    → All (λ e. all_in e.1 placed ≡ true → IsAfter (placed ++ rest) e) pending
ready-before placed rest [] h = tt
ready-before placed rest ((n, preds) ∷ pending) h =
    (all_in-before placed rest n preds h.0, ready-before placed rest pending h.1)

round-perm :
    (placed : List String) (pending : Sorter)
    → Perm (ready placed pending ++ Dict.keys (waiting placed pending)) (Dict.keys pending)
unfolding ready waiting
round-perm placed [] = Perm.refl []
round-perm placed ((m, preds) ∷ pending) = elim (Bool-cases (all_in preds placed)) [
  | inl e ↦ rw e (Perm.cons m (round-perm placed pending))
  | inr e ↦ rw e (
      Perm.trans (perm_middle (ready placed pending) (Dict.keys (waiting placed pending)))
        (Perm.cons m (round-perm placed pending)))
]

-- An order that the rounds return: it goes on from `placed`, it lists each pending node once, and
-- it has each pending node after its predecessors.
pub record Extends (placed : List String) (pending : Sorter) (order : List String) : Type 0 where
  pub rest : List String
  pub split : order ≡ placed ++ rest
  pub after : All (IsAfter order) pending
  pub perm : Perm order (placed ++ Dict.keys pending)

next-Extends :
    (placed : List String) (pending : Sorter) (order : List String)
    → Unplaced placed pending
    → Extends (placed ++ ready placed pending) (waiting placed pending) order
    → Extends placed pending order
next-Extends placed pending order u later = record {
  rest = ready placed pending ++ later.rest;
  split = split;
  after =
      All-split placed (IsAfter order) pending
        (rw split (ready-before placed (ready placed pending ++ later.rest) pending u)) later.after;
  perm =
      Perm.trans later.perm (rw append_assoc (Perm.append_left placed (round-perm placed pending)));
}
  where
    split : order ≡ placed ++ (ready placed pending ++ later.rest)
    split = later.split ∙ append_assoc placed (ready placed pending) later.rest

pub rounds-Extends :
    (fuel : ℕ) (placed : List String) (pending : Sorter) (order : List String)
    → Distinct (Dict.keys pending)
    → Unplaced placed pending
    → rounds fuel placed pending ≡ some order
    → Extends placed pending order
unfolding rounds
rounds-Extends fuel placed [] order d u h = record {
  rest = [];
  split = ground (arith, append-nil placed);
  after = tt;
  perm = let e : order ≡ placed = ground arith in rw (e, append-nil) (Perm.refl placed);
}
rounds-Extends zero placed (e ∷ pending) order d u h = absurd (ground arith)
rounds-Extends (suc fuel) placed (e ∷ pending) order d u h =
    elim (Bool-cases (is_empty (ready placed (e ∷ pending)))) [
      | inl none_ready ↦ absurd (let k : none ≡ some order = rw (none_ready, rounds) at h in cc)
      | inr some_ready ↦ next-Extends placed (e ∷ pending) order u (
          rounds-Extends fuel (placed ++ ready placed (e ∷ pending)) (waiting placed (e ∷ pending))
            order (waiting-Distinct placed (e ∷ pending) d)
            (append-Unplaced placed (ready placed (e ∷ pending)) (waiting placed (e ∷ pending))
              (waiting-All placed (λ e. elem e.0 placed ≡ false) (e ∷ pending) u)
              (ready-Unplaced placed (e ∷ pending) d))
            (rw (some_ready, rounds) at h))
    ]

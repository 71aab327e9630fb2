-- ===== src/Graph/Topology/Progress.antt =====
-- The rounds of `static_order` do not stop before every node is handed out, where every edge goes
-- up in some numbering.
use mathlib.Core.List.{Memᴰ}
use mathlib.Core.List.Memᴰ
use formshift_server.Prelude.{
  ℕ, zero, suc, ◌<◌, ◌≤◌, String, true, false, none, List, [], ◌∷◌, ◌++◌, ◌≡◌, ◌≢◌, refl, inl, inr,
  ◌||◌, string_eq, eq_iff, elem, length, is_empty, All, elem-append, All-elem, All-map_of,
  Bool-cases, arith, All-mem,
}
use formshift_server.Prelude.Dict
use formshift_server.Graph.Topology.{Sorter, all_in, ready, waiting, rounds}
use formshift_server.Graph.Topology.Rounds.{Entry, length-ready-waiting, waiting-All}

-- Each predecessor of a pending node is placed or pending.
abbrev IsKnown : List String → Sorter → Entry → Type 0
IsKnown placed pending e = All (λ p. (elem p placed || elem p (Dict.keys pending)) ≡ true) e.1

module _ (rank : String → ℕ) where
  abbrev GoesUp : Entry → Type 0
  GoesUp e = All (λ p. rank p < rank e.0) e.1

first_missing :
    (placed preds : List String)
    → all_in preds placed ≡ false
    → (p : String) × (elem p preds ≡ true) × (elem p placed ≡ false)
unfolding all_in
first_missing placed [] h = absurd (ground arith)
first_missing placed (p ∷ preds) h = elim (Bool-cases (elem p placed)) [
  | inl e ↦ let (q, m, a) = first_missing placed preds (ground arith) in (q, ground arith, a)
  | inr e ↦ (p, ground (arith, eq_iff p p), e)
]

entry_of :
    (n : String) (d : Sorter)
    → elem n (Dict.keys d) ≡ true
    → (preds : List String) × Memᴰ (n, preds) d
entry_of n [] h = absurd (ground arith)
entry_of n ((m, preds) ∷ d) h = elim (Bool-cases (string_eq.beq m n)) [
  | inl same ↦ (preds, Memᴰ.head (ground (arith, eq_iff m n)))
  | inr other ↦ let (found, at) = entry_of n d (ground arith) in (found, Memᴰ.tail at)
]

ready-of_mem :
    (placed : List String) (n : String) (preds : List String) (pending : Sorter)
    → Memᴰ (n, preds) pending
    → all_in preds placed ≡ true
    → is_empty (ready placed pending) ≡ false
unfolding ready
ready-of_mem placed n preds [] m a = elim m [ ]
ready-of_mem placed n preds ((k, ps) ∷ pending) m a = elim (Memᴰ.cases_cons m) [
  | inl same ↦ let e : all_in ps placed ≡ true = cc in rw e
  | inr later ↦ ground (arith, ready-of_mem placed n preds pending later a)
]

keys-split :
    (placed : List String) (p : String) (pending : Sorter)
    → elem p (Dict.keys pending) ≡ true
    → (elem p (ready placed pending) || elem p (Dict.keys (waiting placed pending))) ≡ true
unfolding ready waiting
keys-split placed p [] h = absurd (ground arith)
keys-split placed p ((n, preds) ∷ pending) h = ground (arith, keys-split placed p pending)

module _ (rank : String → ℕ) (placed : List String) (pending : Sorter) where
  -- Going back from a node that waits along missing predecessors lowers the rank, so it ends at a
  -- node that is ready.
  some_ready :
      (k : ℕ) (n : String) (preds : List String)
      → rank n < k
      → All (IsKnown placed pending) pending
      → All (GoesUp rank) pending
      → Memᴰ (n, preds) pending
      → is_empty (ready placed pending) ≡ false
  some_ready zero n preds h known up m = absurd (omega arith)
  some_ready (suc k) n preds h known up m = elim (Bool-cases (all_in preds placed)) [
    | inl a ↦ ready-of_mem placed n preds pending m a
    | inr a ↦
        let (p, is_pred, missing) = first_missing placed preds a in
        let lower : rank p < rank n =
          All-elem (λ q. rank q < rank n) p preds (All-mem (GoesUp rank) (n, preds) pending up m)
            is_pred in
        let either : (elem p placed || elem p (Dict.keys pending)) ≡ true =
          All-elem (λ q. (elem q placed || elem q (Dict.keys pending)) ≡ true) p preds
            (All-mem (IsKnown placed pending) (n, preds) pending known m) is_pred in
        let (found, at) = entry_of p pending (ground arith) in
        some_ready k p found (omega arith) known up at
  ]

  next-IsKnown :
      (preds : List String)
      → All (λ p. (elem p placed || elem p (Dict.keys pending)) ≡ true) preds
      → All
          (λ p.
            (elem p (placed ++ ready placed pending) || elem p (Dict.keys (waiting placed pending)))
            ≡ true)
          preds
  next-IsKnown preds = All-map_of preds (λ p h.
      ground (arith, elem-append p placed (ready placed pending), keys-split placed p pending))

pub rounds-ne-none :
    (rank : String → ℕ) (fuel : ℕ) (placed : List String) (pending : Sorter)
    → length pending ≤ fuel
    → All (IsKnown placed pending) pending
    → All (GoesUp rank) pending
    → rounds fuel placed pending ≢ none
unfolding rounds
rounds-ne-none rank fuel placed [] fits known up h = ground arith
rounds-ne-none rank zero placed (e ∷ pending) fits known up h = absurd (omega arith)
rounds-ne-none rank (suc fuel) placed (e ∷ pending) fits known up h =
    let all = e ∷ pending in
    let found : is_empty (ready placed all) ≡ false =
      some_ready rank placed all (suc (rank e.0)) e.0 e.1 (omega arith) known up (Memᴰ.head refl) in
    rounds-ne-none rank fuel (placed ++ ready placed all) (waiting placed all)
      (ground (arith, length-ready-waiting placed all))
      (waiting-All placed _ all (All-map_of all (λ x. next-IsKnown rank placed all x.1) known))
      (waiting-All placed (GoesUp rank) all up) (rw (found, rounds) at h)

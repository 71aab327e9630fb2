-- ===== src/Executor/Scheduler/Discard.antt =====
-- The invariant of the scheduler's loop (src/formshift_server/executor.py), and that discarding the
-- finished nodes from the sets of their dependents keeps it.
use formshift_server.Prelude.{
  ℕ, ◌+◌, String, Bool, true, false, not, ◌&&◌, none, some, List, [], ◌∷◌, ◌++◌, ◌≡◌, refl, ◌∙◌,
  inl, inr, string_eq, eq_iff, elem, count, count-append, is_empty, Bool-cases, arith,
  if◌then◌else◌,
}
use formshift_server.Prelude.Dict
use formshift_server.Prelude.Dict.{get-put}
use formshift_server.Executor.Scheduler.{Links, Loop, discard}

-- 1 where the set of a node is empty.
abbrev pub is_free : String → Links → ℕ
is_free n links = elim (Dict.get n links) [ none ↦ 0 | some deps ↦ if is_empty deps then 1 else 0 ]

-- The sets hold what is left of the edges; and a node is in one place, finished, in flight or
-- ready, exactly where its set is empty.
pub record IsScheduling (ids : List String) (left : String → String → Bool) (st : Loop)
    : Type 0 where
  pub keys : (n : String) → Dict.has n st.remaining ≡ elem n ids
  pub rest :
      (n : String) (deps : List String)
      → Dict.get n st.remaining ≡ some deps
      → (p : String) → elem p deps ≡ left p n
  pub once :
      (n : String)
      → count n st.finished + count n st.in_flight + count n st.ready ≡ is_free n st.remaining

pub elem-discard :
    (x p : String) (ys : List String)
    → elem p (discard x ys) ≡ (elem p ys && not (string_eq.beq x p))
unfolding discard
elem-discard x p [] = ground arith
elem-discard x p (y ∷ ys) = ground (arith, eq_iff y x, eq_iff y p, eq_iff x p, elem-discard x p ys)

nonempty_of_elem : (p : String) (xs : List String) → elem p xs ≡ true → is_empty xs ≡ false
nonempty_of_elem p [] h = absurd (ground arith)
nonempty_of_elem p (x ∷ xs) h = refl

module _ (ids : List String) (node d : String) (left : String → String → Bool) (st : Loop)
    (deps : List String) where
  abbrev discarded : Loop
  discarded = record st {
    remaining = Dict.put d (discard node deps) st.remaining;
    ready = if is_empty (discard node deps) then st.ready ++ d ∷ [] else st.ready;
  }

  module _ (inv : IsScheduling ids left st) (found : Dict.get d st.remaining ≡ some deps)
      (there : left node d ≡ true) where
    discarded-rest :
        (n : String) (deps' : List String)
        → Dict.get n discarded.remaining ≡ some deps'
        → (p : String)
        → elem p deps' ≡ (left p n && not (string_eq.beq node p && string_eq.beq d n))
    discarded-rest n deps' at p = elim (Bool-cases (string_eq.beq d n)) [
      | inl same ↦
          let is_n : d ≡ n = (eq_iff d n).0 same in
          let e : discard node deps ≡ deps' =
            ground
              (arith, at, same, get-put {V = List String} d n (discard node deps) st.remaining) in
          let r : elem p deps ≡ left p d = inv.rest d deps found p in
          rw (← e, ← is_n) (ground (arith, r, elem-discard node p deps, eq_iff d d))
      | inr other ↦
          let e : Dict.get n st.remaining ≡ some deps' =
            ground
              (arith, at, other, get-put {V = List String} d n (discard node deps) st.remaining) in
          ground (arith, inv.rest n deps' e p)
    ]

    discarded-once :
        (n : String)
        → count n discarded.finished + count n discarded.in_flight + count n discarded.ready
          ≡ is_free n discarded.remaining
    discarded-once n =
        let was : is_empty deps ≡ false =
          nonempty_of_elem node deps (inv.rest d deps found node ∙ there) in
        ground (
          arith,
          was,
          found,
          inv.once n,
          eq_iff d n,
          count-append n st.ready (d ∷ []),
          get-put {V = List String} d n (discard node deps) st.remaining,
        )

    pub discarded-IsScheduling :
        IsScheduling ids
          (λ p n. left p n && not (string_eq.beq node p && string_eq.beq d n))
          discarded
    discarded-IsScheduling = record {
      keys = λ n. ground (
        arith,
        found,
        inv.keys n,
        inv.keys d,
        eq_iff d n,
        get-put {V = List String} d n (discard node deps) st.remaining,
      );
      rest = discarded-rest;
      once = discarded-once;
    }

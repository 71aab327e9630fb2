-- ===== src/Executor/Scheduler/Turns.antt =====
-- What a turn of the scheduler's loop (src/formshift_server/executor.py) does: every future that is
-- done has its node finished, and the sets hold what is left of the edges.
use formshift_server.Prelude.{
  ◌+◌, ◌<◌, String, Bool, true, false, not, ◌&&◌, ◌||◌, Option, none, some, List, [], ◌∷◌, ◌++◌,
  ◌≡◌, ◌≢◌, refl, sym, ◌∙◌, inl, inr, string_eq, eq_iff, elem, elem-append, count, count-append,
  All, Distinct, ok, Option-cases, arith,
}
use formshift_server.Prelude.Dict
use formshift_server.Graph.{Edge}
use formshift_server.Executor.{Failure}
use formshift_server.Executor.Scheduler.{Links, Loop, pop_node, release, complete, complete_all}
use formshift_server.Executor.Scheduler.Discard.{IsScheduling, discarded-IsScheduling}

abbrev pub has_edge : List Edge → String → String → Bool
has_edge [] p n = false
has_edge (e ∷ es) p n =
    (string_eq.beq e.from_node p && string_eq.beq e.to_node n) || has_edge es p n

-- The edges whose source has not finished.
abbrev pub left_of : List Edge → List String → String → String → Bool
left_of es finished p n = has_edge es p n && not (elem p finished)

pub elem-of_count : (n : String) (xs : List String) → 0 < count n xs → elem n xs ≡ true
elem-of_count n [] h = absurd (omega arith)
elem-of_count n (x ∷ xs) h = ground (arith, elem-of_count n xs)

pub count-of_elem : (n : String) (xs : List String) → elem n xs ≡ true → 0 < count n xs
count-of_elem n [] h = absurd (ground arith)
count-of_elem n (x ∷ xs) h = ground (arith, count-of_elem n xs)

pub count-pop_node :
    (n x : String) (xs : List String)
    → elem x xs ≡ true
    → count n (pop_node x xs) + count n (x ∷ []) ≡ count n xs
unfolding pop_node
count-pop_node n x [] h = absurd (ground arith)
count-pop_node n x (y ∷ ys) h =
    ground (arith, eq_iff y x, eq_iff y n, eq_iff x n, count-pop_node n x ys)

pub IsScheduling-left :
    (ids : List String) (l l' : String → String → Bool) (st : Loop)
    → ((p n : String) → l p n ≡ l' p n)
    → IsScheduling ids l st
    → IsScheduling ids l' st
IsScheduling-left ids l l' st same inv = record {
  keys = inv.keys;
  rest = λ n deps at p. inv.rest n deps at p ∙ same p n;
  once = inv.once;
}

module _ (ids : List String) (node : String) where
  record Releases (ds : List String) (left : String → String → Bool) (st : Loop) : Type 0 where
    after : Loop
    runs : release node ds st ≡ ok after
    finished : after.finished ≡ st.finished
    in_flight : after.in_flight ≡ st.in_flight
    inv : IsScheduling ids (λ p n. left p n && not (string_eq.beq node p && elem n ds)) after

  release-Releases :
      (ds : List String) (left : String → String → Bool) (st : Loop)
      → Distinct ds
      → All (λ d. left node d ≡ true) ds
      → All (λ d. elem d ids ≡ true) ds
      → IsScheduling ids left st
      → Releases ds left st
  unfolding release
  release-Releases [] left st distinct there known inv = record {
    after = st;
    runs = refl;
    finished = refl;
    in_flight = refl;
    inv = IsScheduling-left ids left _ st (λ p n. ground arith) inv;
  }
  release-Releases (d ∷ ds) left st distinct there known inv =
      elim (Option-cases (Dict.get d st.remaining)) [
        | inl e ↦ absurd (ground (arith, inv.keys d, known.0))
        | inr (deps, e) ↦
            let left' =
              λ (p n : String). left p n && not (string_eq.beq node p && string_eq.beq d n) in
            let rest =
              release-Releases ds left' _ distinct.1 (others ds distinct.0 there.1) known.1
                (discarded-IsScheduling ids node d left st deps inv e there.0) in
            record {
              after = rest.after;
              runs = rw (e, release) rest.runs;
              finished = rest.finished;
              in_flight = rest.in_flight;
              inv = IsScheduling-left ids _ _ rest.after (λ p n. ground arith) rest.inv;
            }
      ]
    where
      others :
          (xs : List String)
          → All (λ x. d ≢ x) xs
          → All (λ x. left node x ≡ true) xs
          → All (λ x. (left node x && not (string_eq.beq node node && string_eq.beq d x)) ≡ true) xs
      others [] ne l = tt
      others (x ∷ xs) ne l =
          (ground (arith, ne.0, eq_iff d x, eq_iff node node), others xs ne.1 l.1)

All-of_elem {κ} :
    (P : String → Type κ) (xs : List String) → ((x : String) → elem x xs ≡ true → P x) → All P xs
All-of_elem P [] f = tt
All-of_elem P (x ∷ xs) f =
    (f x (ground (arith, eq_iff x x)), All-of_elem P xs (λ y m. f y (ground (arith, m))))

-- What the loop over the edges leaves in `dependents`, and that edges join nodes of the graph.
pub record AreDependents (es : List Edge) (ids : List String) (dependents : Links) : Type 0 where
  pub lists :
      (p : String) → elem p ids ≡ true → (ds : List String) × (Dict.get p dependents ≡ some ds)
  pub members :
      (p : String) (ds : List String)
      → Dict.get p dependents ≡ some ds
      → (n : String) → elem n ds ≡ has_edge es p n
  pub distinct : (p : String) (ds : List String) → Dict.get p dependents ≡ some ds → Distinct ds
  pub closed : (p n : String) → has_edge es p n ≡ true → (elem p ids ≡ true) × (elem n ids ≡ true)

module _ (es : List Edge) (ids : List String) (dependents : Links)
    (links : AreDependents es ids dependents) where
  abbrev pub InTurn : Loop → Type 0
  InTurn st = IsScheduling ids (left_of es st.finished) st

  -- A node in flight has an empty set, is a node of the graph, and has not finished.
  pub in_flight-unfinished :
      (st : Loop) (node : String)
      → InTurn st
      → 0 < count node st.in_flight
      → (elem node ids ≡ true) × (elem node st.finished ≡ false) × (count node st.finished ≡ 0)
  in_flight-unfinished st node inv h = elim (Option-cases (Dict.get node st.remaining)) [
    | inl e ↦ absurd (ground (arith, inv.once node, e))
    | inr (deps, e) ↦
        let none_yet : count node st.finished ≡ 0 = ground (arith, inv.once node, e) in
        (
          ground (arith, inv.keys node, e),
          ground (arith, count-of_elem node st.finished, none_yet),
          none_yet,
        )
  ]

  pub record Completes (raises : String → Option Failure) (nodes : List String) (st : Loop)
      : Type 0 where
    pub after : Loop
    pub runs : complete_all raises dependents nodes st ≡ ok after
    pub finished : after.finished ≡ st.finished ++ nodes
    pub inv : InTurn after

  module _ (raises : String → Option Failure) where
    pub record CompletesOne (node : String) (st : Loop) : Type 0 where
      pub after : Loop
      pub runs : complete raises dependents node st ≡ ok after
      pub finished : after.finished ≡ st.finished ++ node ∷ []
      pub in_flight : after.in_flight ≡ pop_node node st.in_flight
      pub inv : InTurn after

    popped-IsScheduling :
        (node : String) (st : Loop)
        → InTurn st
        → elem node st.in_flight ≡ true
        → IsScheduling ids (left_of es st.finished) (record st {
          in_flight = pop_node node st.in_flight;
          finished = st.finished ++ node ∷ [];
        })
    popped-IsScheduling node st inv flying = record {
      keys = inv.keys;
      rest = inv.rest;
      once = λ n. omega (
        arith,
        inv.once n,
        count-append n st.finished (node ∷ []),
        count-pop_node n node st.in_flight flying,
      );
    }

    pub completes_one :
        (node : String) (st : Loop)
        → InTurn st
        → elem node st.in_flight ≡ true
        → raises node ≡ none
        → CompletesOne node st
    unfolding complete
    completes_one node st inv flying quiet =
        let (known, unfinished, _) =
          in_flight-unfinished st node inv (count-of_elem node st.in_flight flying) in
        let (ds, found) = links.lists node known in
        let targets = links.members node ds found in
        let popped : Loop = record st {
          in_flight = pop_node node st.in_flight;
          finished = st.finished ++ node ∷ [];
        } in
        let released =
          release-Releases ids node ds (left_of es st.finished) popped
            (links.distinct node ds found)
            (All-of_elem _ ds (λ d m. ground (arith, targets d, m, unfinished)))
            (All-of_elem _ ds (λ d m. (links.closed node d (sym (targets d) ∙ m)).1))
            (popped-IsScheduling node st inv flying) in
        record {
          after = released.after;
          runs = rw (quiet, complete, found) released.runs;
          finished = released.finished;
          in_flight = released.in_flight;
          inv = rw (released.finished) (
              IsScheduling-left ids _ _ released.after
                (λ p n.
                  ground (arith, targets n, eq_iff node p, elem-append p st.finished (node ∷ [])))
                released.inv);
        }

-- ===== src/Executor/Scheduler/Completion.antt =====
-- The loop of the scheduler (src/formshift_server/executor.py) runs every node: where nothing
-- raises and nothing is cancelled it ends, with all nodes of the graph finished.
use mathlib.Core.List.{append_assoc, append-nil}
use formshift_server.Prelude.{
  ℕ, zero, suc, ◌+◌, ◌≤◌, ◌<◌, String, Bool, true, false, ◌&&◌, Option, none, List, [], ◌∷◌, ◌++◌,
  ◌≡◌, refl, sym, ap, ◌∙◌, inl, inr, string_eq, eq_iff, elem, elem-append, count, count-append,
  is_empty, All, All-always, ok, Bool-cases, arith, if◌then◌else◌,
}
use formshift_server.Graph.{Edge}
use formshift_server.Executor.{Failure}
use formshift_server.Executor.Scheduler.{
  Links, Loop, is_idle, complete_all, submit_ready, turn, turns,
}
use formshift_server.Executor.Scheduler.Turns.{
  elem-of_count, count-of_elem, AreDependents, InTurn, in_flight-unfinished, Completes,
  completes_one, count-pop_node,
}

-- What `concurrent.futures.wait` promises with FIRST_COMPLETED: it returns futures that it was
-- given, each once, and not none where it was given some.
pub record IsWait (wait : ℕ → List String → List String) : Type 0 where
  pub given : (k : ℕ) (xs : List String) (n : String) → count n (wait k xs) ≤ count n xs
  pub some_done : (k : ℕ) (xs : List String) → is_empty xs ≡ false → is_empty (wait k xs) ≡ false

-- How many of the ids have not finished.
abbrev pub unfinished : List String → List String → ℕ
unfinished finished [] = 0
unfinished finished (n ∷ ids) =
    let rest = unfinished finished ids in if elem n finished then rest else suc rest

unfinished-pos :
    (n : String) (finished ids : List String)
    → elem n ids ≡ true
    → elem n finished ≡ false
    → 0 < unfinished finished ids
unfinished-pos n finished [] m f = absurd (ground arith)
unfinished-pos n finished (i ∷ ids) m f = ground (arith, eq_iff i n, unfinished-pos n finished ids)

unfinished-append :
    (finished done ids : List String) → unfinished (finished ++ done) ids ≤ unfinished finished ids
unfinished-append finished done [] = omega arith
unfinished-append finished done (i ∷ ids) =
    ground (arith, elem-append i finished done, unfinished-append finished done ids)

unfinished-append_lt :
    (n : String) (finished done ids : List String)
    → elem n ids ≡ true
    → elem n finished ≡ false
    → elem n done ≡ true
    → unfinished (finished ++ done) ids < unfinished finished ids
unfinished-append_lt n finished done [] m f d = absurd (ground arith)
unfinished-append_lt n finished done (i ∷ ids) m f d = ground (
  arith,
  eq_iff i n,
  elem-append i finished done,
  unfinished-append finished done ids,
  unfinished-append_lt n finished done ids,
)

module _ (es : List Edge) (ids : List String) (dependents : Links)
    (links : AreDependents es ids dependents) where
  pub completes :
      (raises : String → Option Failure) (nodes : List String) (st : Loop)
      → InTurn es ids dependents links st
      → ((n : String) → count n nodes ≤ count n st.in_flight)
      → All (λ n. raises n ≡ none) nodes
      → Completes es ids dependents links raises nodes st
  unfolding complete_all
  completes raises [] st inv given quiet = record {
    after = st;
    runs = refl;
    finished = sym (append-nil st.finished);
    inv = inv;
  }
  completes raises (node ∷ nodes) st inv given quiet =
      let here : 0 < count node st.in_flight = ground (arith, given node, eq_iff node node) in
      let one =
        completes_one es ids dependents links raises node st inv
          (elem-of_count node st.in_flight here) quiet.0 in
      let rest =
        completes raises nodes one.after one.inv
          (λ n. rw (one.in_flight) (
            ground (
              arith,
              given n,
              count-pop_node n node st.in_flight (elem-of_count node st.in_flight here),
            )))
          quiet.1 in
      record {
        after = rest.after;
        runs = rw (one.runs, complete_all) rest.runs;
        finished =
            rest.finished
            ∙ ap (λ l. l ++ nodes) one.finished
            ∙ append_assoc st.finished (node ∷ []) nodes;
        inv = rest.inv;
      }

  pub submit_ready-InTurn :
      (st : Loop)
      → InTurn es ids dependents links st
      → InTurn es ids dependents links (submit_ready st)
  unfolding submit_ready
  submit_ready-InTurn st inv = record {
    keys = inv.keys;
    rest = inv.rest;
    once = λ n. omega (arith, inv.once n, count-append n st.in_flight st.ready);
  }

  busy : (st : Loop) → is_idle st ≡ false → is_empty (submit_ready st).in_flight ≡ false
  unfolding submit_ready
  busy st h = joined st.in_flight st.ready h
    where
      joined :
          (xs ys : List String) → (is_empty ys && is_empty xs) ≡ false → is_empty (xs ++ ys) ≡ false
      joined [] [] h = h
      joined [] (y ∷ ys) h = refl
      joined (x ∷ xs) ys h = refl

  module _ (wait : ℕ → List String → List String) (lawful : IsWait wait)
      (raises : String → Option Failure) (is_cancelled : ℕ → Bool) where
    record Progresses (k : ℕ) (st : Loop) : Type 0 where
      after : Loop
      runs : turn wait raises is_cancelled dependents k st ≡ ok after
      fewer : unfinished after.finished ids < unfinished st.finished ids
      inv : InTurn es ids dependents links after

    module _ (quiet : (n : String) → raises n ≡ none)
        (calm : (k : ℕ) → is_cancelled k ≡ false) where
      progresses :
          (k : ℕ) (st : Loop)
          → InTurn es ids dependents links st
          → is_idle st ≡ false
          → Progresses k st
      unfolding turn
      progresses k st inv work =
          let submitted = submit_ready st in
          let inv' = submit_ready-InTurn st inv in
          let done = wait k submitted.in_flight in
          let all =
            completes raises done submitted inv' (lawful.given k submitted.in_flight)
              (All-always _ done quiet) in
          let (n, m) = first_of done (lawful.some_done k submitted.in_flight (busy st work)) in
          let flying : 0 < count n submitted.in_flight =
            omega (arith, lawful.given k submitted.in_flight n, count-of_elem n done m) in
          let (known, new, _) =
            in_flight-unfinished es ids dependents links submitted n inv' flying in
          record {
            after = all.after;
            runs = rw (calm k, turn) all.runs;
            fewer =
                rw (all.finished)
                  (unfold submit_ready in unfinished-append_lt n st.finished done ids known new m);
            inv = all.inv;
          }
        where
          first_of : (xs : List String) → is_empty xs ≡ false → (x : String) × (elem x xs ≡ true)
          first_of [] h = absurd (ground arith)
          first_of (x ∷ xs) h = (x, ground (arith, eq_iff x x))

      pub record Ends (fuel k : ℕ) (st : Loop) : Type 0 where
        pub last : Loop
        pub runs : turns wait raises is_cancelled dependents fuel k st ≡ ok last
        pub idle : is_idle last ≡ true
        pub inv : InTurn es ids dependents links last

      pub turns-Ends :
          (fuel k : ℕ) (st : Loop)
          → InTurn es ids dependents links st
          → unfinished st.finished ids ≤ fuel
          → Ends fuel k st
      unfolding turns
      turns-Ends zero k st inv enough = elim (Bool-cases (is_idle st)) [
        | inl e ↦ record { last = st; runs = rw (e, turns) refl; idle = e; inv = inv }
        | inr e ↦ let next = progresses k st inv e in absurd (omega (arith, next.fewer))
      ]
      turns-Ends (suc fuel) k st inv enough = elim (Bool-cases (is_idle st)) [
        | inl e ↦ record { last = st; runs = rw (e, turns) refl; idle = e; inv = inv }
        | inr e ↦
            let next = progresses k st inv e in
            let rest = turns-Ends fuel (k + 1) next.after next.inv (omega (arith, next.fewer)) in
            record {
              last = rest.last;
              runs = rw (e, turns, next.runs) rest.runs;
              idle = rest.idle;
              inv = rest.inv;
            }
      ]

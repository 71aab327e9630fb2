-- ===== src/Executor/Scheduler/Safety.antt =====
-- In every turn of the scheduler's loop (src/formshift_server/executor.py), whatever raises and
-- whenever the job is cancelled, a node is submitted once, behind the nodes that feed it.
use formshift_server.Prelude.{
  ok_injective, ℕ, suc, ◌+◌, ◌≤◌, ◌<◌, String, Bool, true, Option, none, some, List, [], ◌∷◌, ◌++◌,
  ◌≡◌, sym, ap, subst, ◌∙◌, inl, inr, string_eq, elem, count, All, ok, err, >>=-eq-ok, Bool-cases,
  Option-cases, arith,
}
use formshift_server.Prelude.Dict
use formshift_server.Modules.{Registry}
use formshift_server.Sessions.{Session}
use formshift_server.Graph.{Graph}
use formshift_server.Graph.Validate.Spec.{IsValid}
use formshift_server.Executor.{Failure}
use formshift_server.Executor.Scheduler.{
  Links, Loop, no_links, add_links, first_state, submit_ready, complete, complete_all, turn,
}
use formshift_server.Executor.Scheduler.Discard.{is_free}
use formshift_server.Executor.Scheduler.Turns.{has_edge, count-of_elem, InTurn}
use formshift_server.Executor.Scheduler.Completion.{IsWait, completes, submit_ready-InTurn}
use formshift_server.Executor.Scheduler.Schedule.{ids, links, links-AreDependents, first-InTurn}

quiet_of_ok :
    (raises : String → Option Failure) (dependents : Links) (nodes : List String) (st after : Loop)
    → complete_all raises dependents nodes st ≡ ok after
    → All (λ n. raises n ≡ none) nodes
unfolding complete_all complete
quiet_of_ok raises dependents [] st after h = tt
quiet_of_ok raises dependents (n ∷ nodes) st after h =
    let (next, one, rest) = >>=-eq-ok (complete raises dependents n st) _ h in
    elim (Option-cases (raises n)) [
      | inl e ↦ (e, quiet_of_ok raises dependents nodes next after rest)
      | inr (f, e) ↦ absurd (let k : err f ≡ ok next = rw (e, complete) at one in ground arith)
    ]

-- The states at the head of the loop.
pub data Visits (wait : ℕ → List String → List String) (raises : String → Option Failure)
    (is_cancelled : ℕ → Bool) (graph : Graph) : ℕ → Loop → Type 0 where
  begins :
      (d e : Links)
      → add_links graph.edges (no_links [] graph.nodes) (no_links [] graph.nodes) ≡ ok (d, e)
      → Visits wait raises is_cancelled graph 0 (first_state d)
  turned :
      (k : ℕ) (st after : Loop) (d e : Links)
      → add_links graph.edges (no_links [] graph.nodes) (no_links [] graph.nodes) ≡ ok (d, e)
      → Visits wait raises is_cancelled graph k st
      → turn wait raises is_cancelled e k st ≡ ok after
      → Visits wait raises is_cancelled graph (suc k) after

-- The pool's share of a state: what is in flight once the ready nodes are submitted stands behind
-- everything that feeds it, and no node stands twice among the finished, the ready and those in
-- flight.
pub record IsOrderly (graph : Graph) (st : Loop) : Type 0 where
  pub behind :
      (n : String)
      → elem n (submit_ready st).in_flight ≡ true
      → (p : String) → has_edge graph.edges p n ≡ true
      → elem p st.finished ≡ true
  pub once : (n : String) → count n st.finished + count n st.in_flight + count n st.ready ≤ 1

is_free-le : (n : String) (remaining : Links) → is_free n remaining ≤ 1
is_free-le n remaining = elim (Option-cases (Dict.get n remaining)) [
  | inl e ↦ ground (arith, e)
  | inr ([], e) ↦ ground (arith, e)
  | inr (x ∷ xs, e) ↦ ground (arith, e)
]

free_of :
    (n : String) (remaining : Links) → 0 < is_free n remaining → Dict.get n remaining ≡ some []
free_of n remaining h = elim (Option-cases (Dict.get n remaining)) [
  | inl e ↦ absurd (ground (arith, e, h))
  | inr ([], e) ↦ e
  | inr (x ∷ xs, e) ↦ absurd (ground (arith, e, h))
]

module _ (graph : Graph) (registry : Registry) (session : Session)
    (valid : IsValid graph registry session) where
  abbrev InLoop : Loop → Type 0
  InLoop st =
      InTurn graph.edges (ids graph registry session valid)
        (links graph registry session valid).dependents
        (links-AreDependents graph registry session valid) st

  InLoop-IsOrderly : (st : Loop) → InLoop st → IsOrderly graph st
  unfolding submit_ready
  InLoop-IsOrderly st inv = record {
    behind = λ n flying p edge.
        let submitted =
          submit_ready-InTurn graph.edges (ids graph registry session valid)
            (links graph registry session valid).dependents
            (links-AreDependents graph registry session valid) st inv in
        let empty : Dict.get n st.remaining ≡ some [] =
          free_of n st.remaining
            (omega (arith, submitted.once n, count-of_elem n (st.in_flight ++ st.ready) flying)) in
        ground (arith, edge, inv.rest n [] empty p);
    once = λ n. omega (arith, inv.once n, is_free-le n st.remaining);
  }

  module _ (wait : ℕ → List String → List String) (lawful : IsWait wait)
      (raises : String → Option Failure) (is_cancelled : ℕ → Bool) where
    turn-InLoop :
        (k : ℕ) (st after : Loop)
        → InLoop st
        → turn wait raises is_cancelled (links graph registry session valid).dependents k st
          ≡ ok after
        → InLoop after
    unfolding turn
    turn-InLoop k st after inv h = elim (Bool-cases (is_cancelled k)) [
      | inl e ↦ absurd (ground arith)
      | inr e ↦
          let submitted = submit_ready st in
          let done = wait k submitted.in_flight in
          let ran : complete_all raises (links graph registry session valid).dependents done
                submitted
              ≡ ok after =
            ground arith in
          let all =
            completes graph.edges (ids graph registry session valid)
              (links graph registry session valid).dependents
              (links-AreDependents graph registry session valid) raises done submitted
              (submit_ready-InTurn graph.edges (ids graph registry session valid)
                (links graph registry session valid).dependents
                (links-AreDependents graph registry session valid) st inv)
              (lawful.given k submitted.in_flight)
              (quiet_of_ok raises (links graph registry session valid).dependents done submitted
                after ran) in
          let same : ok all.after ≡ ok after = sym all.runs ∙ ran in
          subst (InLoop) (ok_injective same) all.inv
    ]

    Visits-InLoop : (k : ℕ) (st : Loop) → Visits wait raises is_cancelled graph k st → InLoop st
    Visits-InLoop k st (begins d e filled) =
        let same : ok (d, e)
            ≡ ok (
              (links graph registry session valid).dependencies,
              (links graph registry session valid).dependents,
            ) =
          sym filled ∙ (links graph registry session valid).runs in
        let is_d = ap (λ (p : Links × Links). p.0) (ok_injective same) in
        subst (λ x. InLoop (first_state x)) (sym is_d) (first-InTurn graph registry session valid)
    Visits-InLoop _ _ (turned k st after d e filled visited h) =
        let same : ok (d, e)
            ≡ ok (
              (links graph registry session valid).dependencies,
              (links graph registry session valid).dependents,
            ) =
          sym filled ∙ (links graph registry session valid).runs in
        let is_e = ap (λ (p : Links × Links). p.1) (ok_injective same) in
        turn-InLoop k st after (Visits-InLoop k st visited) (rw is_e at h)

    -- At the head of every turn for a valid graph, whatever raises and whenever the job is
    -- cancelled: what the turn has in flight stands behind everything that feeds it, and no node
    -- is twice among the finished, the ready and those in flight.
    pub Visits-IsOrderly :
        (k : ℕ) (st : Loop) → Visits wait raises is_cancelled graph k st → IsOrderly graph st
    Visits-IsOrderly k st visited = InLoop-IsOrderly st (Visits-InLoop k st visited)

-- ===== src/Samples/Scheduling.antt =====
-- The scheduler's loop at a concrete graph, over a pool that ends the first future that it holds.
use formshift_server.Prelude.{
  ℕ, ◌≤◌, String, Bool, false, none, Option, List, [], ◌∷◌, ◌≡◌, refl, ok, arith, string_eq, count,
  is_empty,
}
use formshift_server.Prelude.Dict
use formshift_server.Executor.{Failure}
use formshift_server.Executor.Scheduler.{
  Links, Loop, no_links, add_link, add_links, first_state, submit_ready, turn, complete_all,
  complete, release, discard, pop_node, free_nodes,
}
use formshift_server.Executor.Scheduler.Completion.{IsWait}
use formshift_server.Executor.Scheduler.Schedule.{RunsAll, schedule-RunsAll}
use formshift_server.Executor.Scheduler.Safety.{Visits, begins, turned, IsOrderly, Visits-IsOrderly}
use formshift_server.Samples.{modules, session, chain}
use formshift_server.Samples.Graphs.{chain-IsValid}

abbrev first_done : ℕ → List String → List String
first_done k [] = []
first_done k (x ∷ xs) = x ∷ []

first_done-IsWait : IsWait first_done
first_done-IsWait = record {
  given = λ k xs n. given k xs n;
  some_done = λ k xs h. some_done k xs h;
}
  where
    given : (k : ℕ) (xs : List String) (n : String) → count n (first_done k xs) ≤ count n xs
    given k [] n = omega arith
    given k (x ∷ xs) n = ground arith

    some_done :
        (k : ℕ) (xs : List String) → is_empty xs ≡ false → is_empty (first_done k xs) ≡ false
    some_done k [] h = h
    some_done k (x ∷ xs) h = refl

abbrev quiet : String → Option Failure
quiet n = none

abbrev calm : ℕ → Bool
calm k = false

schedule-RunsAll_example :
    RunsAll chain modules session chain-IsValid first_done first_done-IsWait quiet calm
schedule-RunsAll_example =
    schedule-RunsAll chain modules session chain-IsValid first_done first_done-IsWait quiet calm
      (λ n. refl) (λ k. refl)

abbrev sources : Links
sources = ("t", []) ∷ ("c", "t" ∷ []) ∷ []

abbrev targets : Links
targets = ("t", "c" ∷ []) ∷ ("c", []) ∷ []

abbrev painting : Loop
painting = record {
  remaining = ("t", []) ∷ ("c", []) ∷ [];
  ready = "c" ∷ [];
  in_flight = [];
  finished = "t" ∷ [];
}

filled :
    add_links chain.edges (no_links [] chain.nodes) (no_links [] chain.nodes)
    ≡ ok (sources, targets)
unfolding add_links add_link no_links Dict.get Dict.put
filled = refl

traced : turn first_done quiet calm targets 0 (first_state sources) ≡ ok painting
unfolding turn submit_ready complete_all complete release discard pop_node free_nodes Dict.get
    Dict.put
traced = refl

one_turn : Visits first_done quiet calm chain 1 painting
one_turn =
    turned 0 (first_state sources) painting sources targets filled (begins sources targets filled)
      traced

Visits-IsOrderly_example : IsOrderly chain painting
Visits-IsOrderly_example =
    Visits-IsOrderly chain modules session chain-IsValid first_done first_done-IsWait quiet calm 1
      painting one_turn

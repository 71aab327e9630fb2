-- ===== src/Executor/Scheduler.antt =====
-- The scheduler of `execute_graph` (src/formshift_server/executor.py): the dictionaries of
-- dependencies and the loop that submits nodes to the pool and waits for their futures. Sets of
-- node ids are lists without repetition. The pool is a parameter: `wait` gives the futures that
-- the call of `wait` in a turn finds done, `raises` the exception of a node's future, and
-- `is_cancelled` whether the cancel event is set when a turn begins.
pub mod Discard
pub mod Turns
pub mod Dependencies
pub mod Completion
pub mod Schedule
pub mod Safety
use formshift_server.Prelude.{
  ℕ, zero, suc, ◌+◌, String, Bool, true, false, ◌&&◌, Option, none, some, List, [], ◌∷◌, ◌++◌,
  string_eq, elem, is_empty, length, Result, ok, err, ◌>>=◌, ◌>>◌, if◌then◌else◌,
}
use formshift_server.Prelude.Dict
use formshift_server.Prelude.Dict.{Dict}
use formshift_server.Graph.{Node, Edge, Graph}
use formshift_server.Executor.{Failure, execution_cancelled, key_error, or_key_error}

abbrev pub Links : Type 0
Links = Dict String (List String)

-- `{node.id: set() for node in graph.nodes}`, onto the entries before.
unfoldable pub no_links : Links → List Node → Links
no_links links [] = links
no_links links (n ∷ ns) = no_links (Dict.put n.id [] links) ns

abbrev pub set_add : String → List String → List String
set_add x xs = if elem x xs then xs else xs ++ x ∷ []

-- `links[from].add(to)`
unfoldable pub add_link : String → String → Links → Result Failure Links
add_link from to links = do
  old ← or_key_error (Dict.get from links)
  ok (Dict.put from (set_add to old) links)

-- `dependencies` and `dependents`, filled by the loop over the edges.
unfoldable pub add_links : List Edge → Links → Links → Result Failure (Links × Links)
unfolding add_link
add_links [] dependencies dependents = ok (dependencies, dependents)
add_links (e ∷ es) dependencies dependents = do
  more ← add_link e.to_node e.from_node dependencies
  back ← add_link e.from_node e.to_node dependents
  add_links es more back

-- `set.discard`
unfoldable pub discard : String → List String → List String
discard x [] = []
discard x (y ∷ ys) = let rest = discard x ys in if string_eq.beq y x then rest else y ∷ rest

-- `in_flight.pop(future)`, where `in_flight` lists the nodes of the futures.
unfoldable pub pop_node : String → List String → List String
pop_node x [] = []
pop_node x (y ∷ ys) = let rest = pop_node x ys in if string_eq.beq y x then ys else y ∷ rest

-- The nodes whose set is empty.
unfoldable pub free_nodes : Links → List String
free_nodes [] = []
free_nodes ((n, deps) ∷ links) =
    let rest = free_nodes links in if is_empty deps then n ∷ rest else rest

-- The state of the loop. `finished` lists the nodes whose future gave its result.
pub record Loop : Type 0 where
  pub remaining : Links
  pub ready : List String
  pub in_flight : List String
  pub finished : List String

-- The loop over `dependents[finished]`.
unfoldable pub release : String → List String → Loop → Result Failure Loop
unfolding discard
release node [] st = ok st
release node (d ∷ ds) st = do
  deps ← or_key_error (Dict.get d st.remaining)
  let left = discard node deps
  release node ds (record st {
    remaining = Dict.put d left st.remaining;
    ready = if is_empty left then st.ready ++ d ∷ [] else st.ready;
  })

-- A future that is done: its result, which may raise, and the dependents of its node.
unfoldable pub complete : (String → Option Failure) → Links → String → Loop → Result Failure Loop
unfolding release pop_node
complete raises dependents node st = elim (raises node) [
  | some e ↦ err e
  | none ↦ do
    ds ← or_key_error (Dict.get node dependents)
    release node ds
        (record st { in_flight = pop_node node st.in_flight; finished = st.finished ++ node ∷ [] })
]

-- `for future in done`
unfoldable pub complete_all :
    (String → Option Failure) → Links → List String → Loop → Result Failure Loop
unfolding complete
complete_all raises dependents [] st = ok st
complete_all raises dependents (node ∷ nodes) st = do
  next ← complete raises dependents node st
  complete_all raises dependents nodes next

-- `pool.submit(run_node, node_id)` for each ready node.
unfoldable pub submit_ready : Loop → Loop
submit_ready st = record st { in_flight = st.in_flight ++ st.ready; ready = [] }

-- How the loop stops where it does not end: by an exception, or short of fuel.
pub data Stop : Type 0 where
  raised : Failure → Stop
  out_of_fuel : Stop

abbrev pub or_stop {ℓ} : {A : Type ℓ} → Result Failure A → Result Stop A
or_stop (ok a) = ok a
or_stop (err e) = err (raised e)

abbrev pub is_idle : Loop → Bool
is_idle st = is_empty st.ready && is_empty st.in_flight

module _ (wait : ℕ → List String → List String) (raises : String → Option Failure)
    (is_cancelled : ℕ → Bool) (dependents : Links) where
  -- One turn of `while ready or in_flight`.
  unfoldable pub turn : ℕ → Loop → Result Failure Loop
  unfolding submit_ready complete_all
  turn k st =
      if is_cancelled k
      then err execution_cancelled
      else let submitted = submit_ready st in
        complete_all raises dependents (wait k submitted.in_flight) submitted

  -- The loop, from turn `k` on.
  unfoldable pub turns : (fuel k : ℕ) → Loop → Result Stop Loop
  unfolding turn
  turns zero k st = if is_idle st then ok st else err out_of_fuel
  turns (suc fuel) k st = elim (is_idle st) [
    | true ↦ ok st
    | false ↦ do next ← or_stop (turn k st); turns fuel (k + 1) next
  ]

-- The state before the first turn.
abbrev pub first_state : Links → Loop
first_state dependencies = record {
  remaining = dependencies;
  ready = free_nodes dependencies;
  in_flight = [];
  finished = [];
}

-- The scheduling of a graph, with one turn for each node.
unfoldable pub schedule :
    (ℕ → List String → List String)
    → (String → Option Failure)
    → (ℕ → Bool)
    → Graph
    → Result Stop Loop
unfolding turns add_links no_links free_nodes
schedule wait raises is_cancelled graph = do
  let empty = no_links [] graph.nodes
  links ← or_stop (add_links graph.edges empty empty)
  turns wait raises is_cancelled links.1 (length graph.nodes) 0 (first_state links.0)

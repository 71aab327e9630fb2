-- ===== src/Executor/Workers.antt =====
-- The workers of `execute_graph` (src/formshift_server/executor.py) side by side. A worker runs
-- `run_node` in phases: it reads its inputs, looks its key up, runs the module and stores what it
-- returns, and updates the shared state. Between two phases of one worker any others may act. The
-- scheduler starts a node after its predecessors; here a node may start wherever its inputs are
-- there, so every schedule of the program is among the sequences of steps.
pub mod Soundness
use formshift_server.Prelude.{String, Bool, true, false, none, some, List, [], ◌∷◌, ◌++◌, ◌≡◌, ok}
use formshift_server.Modules.{Module, Registry, lookup_module}
use formshift_server.Sessions.{Session}
use formshift_server.Graph.{Node, Graph}
use formshift_server.Cache.{Hashes, Results, cache_get, cache_put}
use formshift_server.Executor.{
  Wired, ExecState, fresh, gather, cache_key, execute_module, record_results,
}

-- Where a worker stands: behind `gather`, behind a lookup that found nothing, and with results.
pub data Phase : Type 0 where
  gathered missed : Node → Module → List Wired → Phase
  computed : Node → Module → List Wired → Results → (was_cached : Bool) → Phase

pub record Pool : Type 0 where
  pub shared : ExecState
  pub workers : List Phase

abbrev pub pool : ExecState → List Phase → Pool
pool st workers = record { shared = st; workers = workers }

module _ (hashes : Hashes) (graph : Graph) (registry : Registry) (session : Session)
    (draft : Bool) where
  pub data Step : Pool → Pool → Type 0 where
    starts :
        (node : Node) (m : Module) (ws : List Wired) (st : ExecState) (others : List Phase)
        → lookup_module registry node.module_name ≡ some m
        → gather hashes graph session st node.id m.manifest.inputs ≡ ok ws
        → Step (pool st others) (pool st (gathered node m ws ∷ others))
    hits :
        (node : Node) (m : Module) (ws : List Wired) (st : ExecState) (xs ys : List Phase)
        (hit : Results)
        → cache_get (cache_key hashes m node ws draft) st.cache ≡ some hit
        → Step
            (pool st (xs ++ gathered node m ws ∷ ys))
            (pool st (xs ++ computed node m ws hit true ∷ ys))
    misses :
        (node : Node) (m : Module) (ws : List Wired) (st : ExecState) (xs ys : List Phase)
        → cache_get (cache_key hashes m node ws draft) st.cache ≡ none
        → Step (pool st (xs ++ gathered node m ws ∷ ys)) (pool st (xs ++ missed node m ws ∷ ys))
    executes :
        (node : Node) (m : Module) (ws : List Wired) (st : ExecState) (xs ys : List Phase)
        (is_cancelled : Bool) (results : Results)
        → execute_module m node ws draft is_cancelled ≡ ok results
        → Step (pool st (xs ++ missed node m ws ∷ ys)) (
            pool
              (record st { cache = cache_put (cache_key hashes m node ws draft) results st.cache })
              (xs ++ computed node m ws results false ∷ ys))
    records :
        (node : Node) (m : Module) (ws : List Wired) (st st' : ExecState) (xs ys : List Phase)
        (results : Results) (was_cached : Bool)
        → record_results graph node.id (cache_key hashes m node ws draft) results was_cached st
          ≡ ok st'
        → Step (pool st (xs ++ computed node m ws results was_cached ∷ ys)) (pool st' (xs ++ ys))

  -- From an empty cache and no worker on.
  pub data Reaches : Pool → Type 0 where
    begin : Reaches (pool (fresh []) [])
    next : {p q : Pool} → Reaches p → Step p q → Reaches q

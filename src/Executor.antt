-- ===== src/Executor.antt =====
-- src/formshift_server/executor.py: `run_node`, which executes one node or serves it from the
-- cache. The phases of a run between which another worker may act are functions of their own:
-- `gather` with the cache lookup, `execute_module`, and `record_results` under the lock.
pub mod Keys
pub mod Caching
pub mod Collision
pub mod Workers
pub mod Scheduler
use mathlib.Core.List.{foldl}
use formshift_server.Prelude.{
  String, Bool, true, false, not, Option, none, some, List, [], ◌∷◌, ◌++◌, map, ◌==◌, string_eq,
  pair_eq, elem, Result, ok, err, ◌>>=◌, ◌>>◌, raise_if, is_empty, if◌then◌else◌,
}
use formshift_server.Prelude.Dict
use formshift_server.Prelude.Dict.{Dict}
use formshift_server.Json.{Bytes}
use formshift_server.Modules.{
  PortSpec, ModuleManifest, ModuleResult, Module, RunError, Registry, lookup_module,
}
use formshift_server.Sessions.{Session}
use formshift_server.Graph.{Node, Edge, Binding, OutputRef, Graph}
use formshift_server.Cache.{
  content_hash, recipe_key, Hashes, Results, ResultCache, cache_get, cache_put,
}

abbrev pub PortKey : Type 0
PortKey = String × String

pub record ExecutionOutput : Type 0 where
  pub node : String
  pub port : String
  pub type : String
  pub content : Bytes

-- Why the future of a node raises.
pub data Failure : Type 0 where
  raised : RunError → Failure
  missing_outputs undeclared_outputs : (module' : String) → List String → Failure
  wrong_type : (module' port got declared : String) → Failure
  execution_cancelled : Failure
  key_error : Failure

-- `edge_into` and `binding_into`: a later edge or binding replaces an earlier one.
unfoldable pub edge_into : Dict PortKey PortKey → List Edge → Dict PortKey PortKey
edge_into d [] = d
edge_into d (e ∷ es) = edge_into (Dict.put (e.to_node, e.to_port) (e.from_node, e.from_port) d) es

unfoldable pub binding_into : Dict PortKey String → List Binding → Dict PortKey String
binding_into d [] = d
binding_into d (b ∷ bs) = binding_into (Dict.put (b.node, b.port) b.payload d) bs

-- The state that the workers of one execution share, the cache included.
pub record ExecState : Type 0 where
  pub cache : ResultCache
  pub node_keys : Dict String String
  pub node_results : Dict String Results
  pub executed : List String
  pub cached : List String
  pub emitted : Dict PortKey ExecutionOutput

-- The state before the first node, over the cache that all executions share.
abbrev pub fresh : ResultCache → ExecState
fresh cache = record {
  cache = cache;
  node_keys = [];
  node_results = [];
  executed = [];
  cached = [];
  emitted = [];
}

-- What is fed to one input port: its key for the cache, and the bytes.
pub record Wired : Type 0 where
  pub port : String
  pub key : String
  pub content : Bytes

abbrev pub input_keys : List Wired → List String
input_keys ws = map (λ (w : Wired). w.key) ws

-- `inputs`, filled port by port.
unfoldable pub inputs_of : List Wired → Dict String Bytes
inputs_of ws = foldl (λ d (w : Wired). Dict.put w.port w.content d) [] ws

-- `or_key_error` is a dictionary access that raises where the key is missing.
abbrev pub or_key_error {ℓ} : {A : Type ℓ} → Option A → Result Failure A
or_key_error none = err key_error
or_key_error (some a) = ok a

module _ (hashes : Hashes) (graph : Graph) (session : Session) where
  -- What the loop over the input ports finds for one of them.
  unfoldable pub wire : ExecState → String → PortSpec → Result Failure Wired
  wire st node_id port = elim (Dict.get (node_id, port.name) (binding_into [] graph.bindings)) [
    | some payload_id ↦ do
      payload ← or_key_error (Dict.get payload_id session.payloads)
      ok (record {
        port = port.name;
        key = content_hash hashes payload.content;
        content = payload.content;
      })
    | none ↦ do
      source ← or_key_error (Dict.get (node_id, port.name) (edge_into [] graph.edges))
      key ← or_key_error (Dict.get source.0 st.node_keys)
      results ← or_key_error (Dict.get source.0 st.node_results)
      result ← or_key_error (Dict.get source.1 results)
      ok (record { port = port.name; key = key; content = result.content })
  ]

  unfoldable pub gather : ExecState → String → List PortSpec → Result Failure (List Wired)
  gather st node_id [] = ok []
  gather st node_id (port ∷ ports) =
      let rest = gather st node_id ports in do w ← wire st node_id port; ws ← rest; ok (w ∷ ws)

-- The key of a node for the cache.
unfoldable pub cache_key : Hashes → Module → Node → List Wired → Bool → String
cache_key hashes m node ws draft =
    recipe_key hashes m.manifest.name m.manifest.version node.params (input_keys ws) draft

-- The members of `xs` that are not in `ys`.
unfoldable pub minus : List String → List String → List String
minus [] ys = []
minus (x ∷ xs) ys = let rest = minus xs ys in if elem x ys then rest else x ∷ rest

-- `declared = {p.name: p.type for p in manifest.outputs}`
unfoldable pub declared_outputs : List PortSpec → Dict String String
declared_outputs ports = foldl (λ d (p : PortSpec). Dict.put p.name p.type d) [] ports

unfoldable pub check_types : String → Dict String String → Results → Result Failure (Unit {0})
check_types name declared [] = ok tt
check_types name declared ((port, result) ∷ results) =
    let rest = check_types name declared results in
    do
      type ← or_key_error (Dict.get port declared)
      raise_if (not (result.type == type)) (wrong_type name port result.type type)
      rest

-- The manifest contract, checked before a result reaches the cache.
unfoldable pub check_outputs : ModuleManifest → Results → Result Failure (Unit {0})
unfolding minus declared_outputs check_types
check_outputs manifest results = do
  let declared = declared_outputs manifest.outputs
  let missing = minus (Dict.keys declared) (Dict.keys results)
  raise_if (not (is_empty missing)) (missing_outputs manifest.name missing)
  let extra = minus (Dict.keys results) (Dict.keys declared)
  raise_if (not (is_empty extra)) (undeclared_outputs manifest.name extra)
  check_types manifest.name declared results

abbrev pub or_raised {ℓ} : {A : Type ℓ} → Result RunError A → Result Failure A
or_raised (ok a) = ok a
or_raised (err e) = err (raised e)

-- A cache miss: run the module, check what it returns, and drop it where the job was cancelled.
unfoldable pub execute_module :
    Module → Node → List Wired → (draft is_cancelled : Bool) → Result Failure Results
execute_module m node ws draft is_cancelled = do
  results ← or_raised (m.run (inputs_of ws) node.params draft)
  check_outputs m.manifest results
  raise_if is_cancelled execution_cancelled
  ok results

-- The outputs that a node hands on: the loop over `outputs_by_node`.
unfoldable pub emit_outputs :
    String
    → Results
    → List OutputRef
    → Dict PortKey ExecutionOutput
    → Result Failure (Dict PortKey ExecutionOutput)
emit_outputs node_id results [] emitted = ok emitted
emit_outputs node_id results (ref ∷ refs) emitted = elim (ref.node == node_id) [
  | false ↦ emit_outputs node_id results refs emitted
  | true ↦ do
    result ← or_key_error (Dict.get ref.port results)
    let output : ExecutionOutput = record {
      node = ref.node;
      port = ref.port;
      type = result.type;
      content = result.content;
    }
    emit_outputs node_id results refs (Dict.put (ref.node, ref.port) output emitted)
]

-- The update under `state_lock`, and the outputs.
unfoldable pub record_results :
    Graph → String → String → Results → (was_cached : Bool) → ExecState → Result Failure ExecState
unfolding emit_outputs
record_results graph node_id key results was_cached st = do
  emitted ← emit_outputs node_id results graph.outputs st.emitted
  ok (record st {
    node_keys = Dict.put node_id key st.node_keys;
    node_results = Dict.put node_id results st.node_results;
    executed = if was_cached then st.executed else st.executed ++ node_id ∷ [];
    cached = if was_cached then st.cached ++ node_id ∷ [] else st.cached;
    emitted = emitted;
  })

-- `run_node` with no other worker between its phases. A failure ends the execution, so the state
-- that it leaves is not modelled.
module _ (hashes : Hashes) (graph : Graph) (registry : Registry) (session : Session)
    (draft is_cancelled : Bool) where
  -- From the cache lookup on.
  unfoldable pub serve : Node → Module → List Wired → ExecState → Result Failure ExecState
  serve node m ws st =
      let key = cache_key hashes m node ws draft in
      elim (cache_get key st.cache) [
        | some hit ↦ record_results graph node.id key hit true st
        | none ↦ do
          results ← execute_module m node ws draft is_cancelled
          record_results graph node.id key results false
              (record st { cache = cache_put key results st.cache })
      ]

  unfoldable pub run_module : Node → Module → ExecState → Result Failure ExecState
  unfolding serve
  run_module node m st = do
    ws ← gather hashes graph session st node.id m.manifest.inputs
    serve node m ws st

  unfoldable pub run_node : Node → ExecState → Result Failure ExecState
  unfolding run_module
  run_node node st = do
    m ← or_key_error (lookup_module registry node.module_name)
    run_module node m st

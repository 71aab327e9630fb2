-- ===== src/Samples/Runs.antt =====
-- Runs of nodes at concrete modules.
use formshift_server.Prelude.{
  String, true, false, some, [], ◌∷◌, ◌≡◌, ◌≢◌, ◌⊎◌, refl, sym, ◌∙◌, ap, arith, string_eq, pair_eq,
  ok, Result, inl, inr, Bool-cases, eq_iff,
}
use formshift_server.Prelude.Dict
use formshift_server.Modules.{Module, Registry, lookup_module}
use formshift_server.Graph.{Graph, Node}
use formshift_server.Cache.{cache_get, cache_put}
use formshift_server.Executor.{
  ExecState, Failure, fresh, edge_into, binding_into, wire, gather, inputs_of, cache_key, minus,
  declared_outputs, check_types, check_outputs, execute_module, emit_outputs, record_results, serve,
  run_module,
}
use formshift_server.Executor.Keys.{SingleOutput, IsStable}
use formshift_server.Executor.Caching.{
  HasPlainPayloads, IsTransparent, fresh-IsSound, run_module-IsTransparent,
}
use formshift_server.Prelude.{Bool-cases}
use formshift_server.Prelude.{List}
use formshift_server.Cache.{content_hash, recipe_key, Results}
use formshift_server.Executor.{Wired, input_keys}
use formshift_server.Executor.Workers.{
  pool, computed, Reaches, begin, next, starts, misses, executes,
}
use formshift_server.Executor.Workers.Soundness.{IsNamed, IsSoundPool, Reaches-IsSoundPool}
use formshift_server.Executor.Collision.{FedFrom, second-served_first}
use formshift_server.Samples.{
  modules, tracer, painter, session, chain, trace_node, port, split_modules, split_graph, dark_node,
  light_node,
}
use formshift_server.Samples.Encoding.{hashes, hashes-IsCollisionFree, hashes-plain}

-- A module of the sample registry is one of its two modules.
modules-cases :
    (name : String) (m : Module)
    → lookup_module modules name ≡ some m
    → (m ≡ tracer) ⊎ (m ≡ painter)
unfolding lookup_module Dict.get
modules-cases name m h = elim (Bool-cases (string_eq.beq "trace" name)) [
  | inl a ↦ inl (ground arith)
  | inr a ↦ elim (Bool-cases (string_eq.beq "colorize" name)) [
    | inl b ↦ inr (ground arith)
    | inr b ↦ absurd (ground arith)
  ]
]

modules-SingleOutput : SingleOutput modules
modules-SingleOutput name m h = elim (modules-cases name m h) [
  | inl e ↦ (port "svg" "vector/svg", ap (λ (x : Module). x.manifest.outputs) e)
  | inr e ↦ (port "svg" "vector/svg", ap (λ (x : Module). x.manifest.outputs) e)
]

modules-IsStable : IsStable hashes modules
modules-IsStable name m inputs p q draft h same = elim (modules-cases name m h) [
  | inl e ↦
      ap (λ (x : Module). x.run inputs p draft) e
      ∙ sym (ap (λ (x : Module). x.run inputs q draft) e)
  | inr e ↦
      ap (λ (x : Module). x.run inputs p draft) e
      ∙ sym (ap (λ (x : Module). x.run inputs q draft) e)
]

session-plain : HasPlainPayloads hashes session
unfolding Dict.get
session-plain id p e = elim (Bool-cases (string_eq.beq "p" id)) [
  | inl a ↦ let same : p.content ≡ 1 ∷ 2 ∷ [] = ground arith in rw same hashes-plain
  | inr a ↦ absurd (ground arith)
]

-- The state of a run that succeeds, and otherwise the state before it.
abbrev reached : Result Failure ExecState → ExecState → ExecState
reached (ok st) other = st
reached _ other = other

abbrev run_in : Graph → Registry → Node → Module → ExecState → ExecState
run_in graph registry node m st =
    reached (run_module hashes graph registry session false false node m st) st

abbrev traced : ExecState
traced = run_in chain modules trace_node tracer (fresh [])

traced_ran :
    run_module hashes chain modules session false false trace_node tracer (fresh []) ≡ ok traced
unfolding run_module gather wire binding_into edge_into Dict.get Dict.put cache_key inputs_of minus
    declared_outputs check_types check_outputs execute_module emit_outputs record_results serve
    cache_get cache_put
traced_ran = refl

traced_registered : lookup_module modules tracer.manifest.name ≡ some tracer
unfolding lookup_module Dict.get
traced_registered = refl

run_module-IsTransparent_example :
    IsTransparent hashes modules hashes-IsCollisionFree modules-SingleOutput modules-IsStable chain
      session session-plain false false trace_node tracer
      (fresh [])
      traced
run_module-IsTransparent_example =
    run_module-IsTransparent hashes modules hashes-IsCollisionFree modules-SingleOutput
      modules-IsStable chain session session-plain false false trace_node tracer (fresh []) traced
      traced_registered (fresh-IsSound hashes modules) traced_ran

-- The steps of one worker.
abbrev traced_inputs : List Wired
traced_inputs =
    record { port = "image"; key = content_hash hashes (1 ∷ 2 ∷ []); content = 1 ∷ 2 ∷ [] } ∷ []

abbrev traced_results : Results
traced_results = ("svg", record { type = "vector/svg"; content = 7 ∷ [] }) ∷ []

abbrev traced_key : String
traced_key =
    recipe_key hashes tracer.manifest.name tracer.manifest.version trace_node.params
      (input_keys traced_inputs) false

modules-IsNamed : IsNamed modules
unfolding lookup_module Dict.get
modules-IsNamed name m h = elim (Bool-cases (string_eq.beq "trace" name)) [
  | inl a ↦
      let e : tracer ≡ m = ground arith in
      ap (λ (x : Module). x.manifest.name) (sym e) ∙ (eq_iff "trace" name).0 a
  | inr a ↦ elim (Bool-cases (string_eq.beq "colorize" name)) [
    | inl b ↦
        let e : painter ≡ m = ground arith in
        ap (λ (x : Module). x.manifest.name) (sym e) ∙ (eq_iff "colorize" name).0 b
    | inr b ↦ absurd (ground arith)
  ]
]

abbrev stored : ExecState
stored = record (fresh []) { cache = (traced_key, traced_results) ∷ [] }

one_worker :
    Reaches hashes chain modules session false
      (pool stored (computed trace_node tracer traced_inputs traced_results false ∷ []))
unfolding lookup_module gather wire binding_into edge_into Dict.get Dict.put cache_key inputs_of
    minus declared_outputs check_types check_outputs execute_module cache_get cache_put
one_worker =
    next
      (next (next begin (starts trace_node tracer traced_inputs (fresh []) [] refl refl))
        (misses trace_node tracer traced_inputs (fresh []) [] [] refl))
      (executes trace_node tracer traced_inputs (fresh []) [] [] false traced_results refl)

Reaches-IsSoundPool_example :
    IsSoundPool hashes modules false
      (pool stored (computed trace_node tracer traced_inputs traced_results false ∷ []))
Reaches-IsSoundPool_example =
    Reaches-IsSoundPool hashes modules hashes-IsCollisionFree modules-SingleOutput modules-IsStable
      modules-IsNamed chain session session-plain false one_worker

-- A state in which the splitter has run.
abbrev split : ExecState
split = record (fresh []) {
  node_keys = ("s", "k") ∷ [];
  node_results =
      (
        "s",
        ("dark", record { type = "raster/png"; content = 0 ∷ [] })
            ∷ ("light", record { type = "raster/png"; content = 9 ∷ [] })
            ∷ [],
      )
      ∷ [];
}

abbrev dark_traced : ExecState
dark_traced = run_in split_graph split_modules dark_node tracer split

abbrev light_traced : ExecState
light_traced = run_in split_graph split_modules light_node tracer dark_traced

dark_ran :
    run_module hashes split_graph split_modules session false false dark_node tracer split
    ≡ ok dark_traced
unfolding run_module gather wire binding_into edge_into Dict.get Dict.put cache_key inputs_of minus
    declared_outputs check_types check_outputs execute_module emit_outputs record_results serve
    cache_get cache_put
dark_ran = refl

light_ran :
    run_module hashes split_graph split_modules session false false light_node tracer dark_traced
    ≡ ok light_traced
unfolding run_module gather wire binding_into edge_into Dict.get Dict.put cache_key inputs_of minus
    declared_outputs check_types check_outputs execute_module emit_outputs record_results serve
    cache_get cache_put
light_ran = refl

dark_FedFrom : FedFrom hashes split_graph session "d" "image" "s" "dark"
unfolding binding_into edge_into Dict.get Dict.put
dark_FedFrom = record { unbound = refl; edge = refl }

light_FedFrom : FedFrom hashes split_graph session "l" "image" "s" "light"
unfolding binding_into edge_into Dict.get Dict.put
light_FedFrom = record { unbound = refl; edge = refl }

split_key : Dict.get "s" split.node_keys ≡ some "k"
unfolding Dict.get
split_key = refl

d-ne-s : ◌≢◌ {A = String} "d" "s"
d-ne-s e = let k : string_eq.beq "d" "s" ≡ true = (eq_iff "d" "s").1 e in absurd (ground (arith, k))

-- The node behind the light port is served what the node behind the dark port computed.
second-served_first_example :
    Dict.get "l" light_traced.node_results ≡ Dict.get "d" dark_traced.node_results
second-served_first_example =
    second-served_first hashes split_graph split_modules session false false tracer dark_node
      light_node (port "image" "raster/png") "s" "dark" "light" "k" split dark_traced light_traced
      refl refl dark_FedFrom light_FedFrom d-ne-s split_key dark_ran light_ran

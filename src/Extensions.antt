-- ===== src/Extensions.antt =====
-- src/formshift_server/extensions.py: the manifest of an extension, and its registration with
-- rollback. A manifest is the document that `tomllib.loads` returns. The rest of the file is in the
-- modules Install and Worker.
pub mod Manifest
pub mod Rollback
pub mod Preflight
pub mod Runner
pub mod Worker
pub mod Install
use formshift_server.Prelude.{
  String, Bool, Option, none, some, List, [], ◌∷◌, ◌++◌, string_eq, Result, ok, err,
}
use formshift_server.Prelude.Dict
use formshift_server.Prelude.Dict.{Dict}
use formshift_server.Json.{Bytes, Fields}
use formshift_server.Modules.{
  RunError, ModuleResult, Module, Registry, RegisterError, register_isolated, unregister,
  lookup_module,
}
use formshift_server.Extensions.Manifest.{ExtensionManifest, ExtensionModuleSpec}

-- `manager._registry` and `manager._installed`.
pub record ExtensionManager : Type 0 where
  pub registry : Registry
  pub installed : Dict String ExtensionManifest

-- `for name in registered: self._registry.unregister(name)`
unfoldable pub unregister_all : Registry → List String → Registry
unregister_all registry [] = registry
unregister_all registry (name ∷ names) = unregister_all (unregister registry name) names

-- The loop of `_register`, with the names registered so far: the registry that it leaves, and the
-- exception where it raises one.
unfoldable pub register_all : Registry → List String → List Module → Registry × Option RegisterError
register_all registry registered [] = (registry, none)
register_all registry registered (m ∷ ms) = elim (register_isolated registry m) [
  | ok after ↦ register_all after (registered ++ m.manifest.name ∷ []) ms
  | err e ↦ (unregister_all registry registered, some e)
]

-- The first module of a manifest whose name is taken: the check before the environment is made.
unfoldable pub collision : Registry → List ExtensionModuleSpec → Option String
collision registry [] = none
collision registry (spec ∷ specs) = elim (lookup_module registry spec.manifest.name) [
  | none ↦ collision registry specs
  | some m ↦ some spec.manifest.name
]

-- What `IsolatedModule.run` gets from the worker process for a module.
abbrev pub WorkerRun : Type 0
WorkerRun =
    ExtensionModuleSpec
    → (inputs : Dict String Bytes) (params : Fields) (draft : Bool)
    → Result RunError (Dict String ModuleResult)

module _ (worker_run : WorkerRun) where
  -- `IsolatedModule`
  abbrev pub isolated : ExtensionModuleSpec → Module
  isolated spec = record { manifest = spec.manifest; run = worker_run spec }

  unfoldable pub isolated_modules : List ExtensionModuleSpec → List Module
  isolated_modules [] = []
  isolated_modules (spec ∷ specs) = isolated spec ∷ isolated_modules specs

  -- `_register`
  unfoldable pub register_extension :
      ExtensionManager → ExtensionManifest → ExtensionManager × Option RegisterError
  unfolding register_all isolated_modules
  register_extension manager manifest =
      let (registry, failure) =
        register_all manager.registry [] (isolated_modules manifest.modules) in
      elim failure [
        | some e ↦ (record manager { registry = registry }, some e)
        | none ↦ (
          record {
            registry = registry;
            installed = Dict.put manifest.name manifest manager.installed;
          },
          none,
        )
      ]

-- ===== src/Extensions/Preflight.antt =====
-- The check for collisions before an installation (src/formshift_server/extensions.py) is enough.
use formshift_server.Prelude.{
  String, true, false, none, List, [], ◌∷◌, ◌++◌, ◌≡◌, refl, inl, inr, string_eq, eq_iff, ok, All,
  Distinct, Option-cases, arith,
}
use formshift_server.Prelude.Dict
use formshift_server.Prelude.Dict.{Dict, get-put, get-remove, remove-put, put-fresh, fresh-put}
use formshift_server.Modules.{Module, Registry, add, register_isolated, lookup_module}
use formshift_server.Extensions.Manifest.{ExtensionManifest, ExtensionModuleSpec}
use formshift_server.Json.{Json, Fields}
use formshift_server.Extensions.Manifest.{parse_extension_manifest}
use formshift_server.Extensions.Manifest.Accepted.{
  spec_names, IsSpec, parse_extension_manifest-IsAccepted,
}
use formshift_server.Extensions.{
  isolated, WorkerRun, ExtensionManager, register_all, isolated_modules, register_extension,
  collision,
}

-- The names of the modules are free in the registry.
free_names :
    (d : Registry) (specs : List ExtensionModuleSpec)
    → collision d specs ≡ none
    → All (λ n. Dict.has n d ≡ false) (spec_names specs)
unfolding collision lookup_module
free_names d [] h = tt
free_names d (spec ∷ specs) h = elim (Option-cases (Dict.get spec.manifest.name d)) [
  | inl e ↦ (rw e refl, free_names d specs (rw (e, collision) at h))
  | inr (m, e) ↦ absurd (ground arith)
]

register_isolated-free :
    (d : Registry) (m : Module)
    → m.manifest.isolation ≡ "isolated"
    → Dict.has m.manifest.name d ≡ false
    → register_isolated d m ≡ ok (Dict.put m.manifest.name m d)
unfolding register_isolated add
register_isolated-free d m is_isolated free =
    let same : string_eq.beq m.manifest.isolation "isolated" ≡ true =
      (eq_iff m.manifest.isolation "isolated").1 is_isolated in
    rw (same, free) refl

module _ (worker_run : WorkerRun) (version : String) where
  register_all-succeeds :
      (d : Registry) (registered : List String) (specs : List ExtensionModuleSpec)
      → Distinct (spec_names specs)
      → All (IsSpec version) specs
      → All (λ n. Dict.has n d ≡ false) (spec_names specs)
      → (register_all d registered (isolated_modules worker_run specs)).1 ≡ none
  unfolding register_all isolated_modules
  register_all-succeeds d registered [] distinct all free = refl
  register_all-succeeds d registered (spec ∷ specs) distinct all free =
      let m = isolated worker_run spec in
      let next = Dict.put spec.manifest.name m d in
      let added = register_isolated-free d m all.0.isolated free.0 in
      let rest =
        register_all-succeeds next (registered ++ spec.manifest.name ∷ []) specs distinct.1 all.1
          (fresh-put spec.manifest.name m d (spec_names specs) distinct.0 free.1) in
      rw (added, register_all) rest

-- An accepted manifest whose module names passed the check for collisions is registered without an
-- exception: whatever failed before, no module of it can be refused.
pub register_extension-succeeds :
    (show : Json → String) (data' : Fields) (worker_run : WorkerRun) (manager : ExtensionManager)
    (manifest : ExtensionManifest)
    → parse_extension_manifest show data' ≡ ok manifest
    → collision manager.registry manifest.modules ≡ none
    → (register_extension worker_run manager manifest).1 ≡ none
unfolding register_extension
register_extension-succeeds show data' worker_run manager manifest parsed free =
    let accepted = parse_extension_manifest-IsAccepted show data' manifest parsed in
    let done =
      register_all-succeeds worker_run manifest.version manager.registry [] manifest.modules
        accepted.distinct accepted.specs (free_names manager.registry manifest.modules free) in
    rw (done, register_extension) refl

-- ===== src/Extensions/Rollback.antt =====
-- The registration of an extension (src/formshift_server/extensions.py) is all or nothing.
use formshift_server.Prelude.{
  String, true, Option, none, some, List, [], ◌∷◌, ◌++◌, ◌≡◌, ◌≢◌, refl, sym, ap, ◌∙◌, inl, inr,
  string_eq, eq_iff, ok, All, All-map_of, All-append, Option-cases, Result-cases, arith,
}
use formshift_server.Prelude.Dict
use formshift_server.Prelude.Dict.{Dict, get-put, get-remove, remove-put, put-fresh, fresh-put}
use formshift_server.Modules.{Module, Registry, RegisterError, add, register_isolated, unregister}
use formshift_server.Extensions.Manifest.{ExtensionManifest}
use formshift_server.Extensions.{
  WorkerRun, ExtensionManager, unregister_all, register_all, isolated_modules, register_extension,
}

remove-put_other :
    (k j : String) (m : Module) (d : Registry)
    → k ≢ j
    → Dict.remove j (Dict.put k m d) ≡ Dict.put k m (Dict.remove j d)
unfolding Dict.remove Dict.put
remove-put_other k j m [] ne = ground (arith, ne, eq_iff k j)
remove-put_other k j m ((i, w) ∷ d) ne =
    ground (arith, ne, eq_iff k j, eq_iff i j, eq_iff i k, remove-put_other k j m d ne)

unregister_all-put :
    (d : Registry) (names : List String) (n : String) (m : Module)
    → All (λ j. n ≢ j) names
    → unregister_all (Dict.put n m d) names ≡ Dict.put n m (unregister_all d names)
unfolding unregister_all unregister
unregister_all-put d [] n m ne = refl
unregister_all-put d (j ∷ names) n m ne =
    rw (remove-put_other n j m d ne.0) (unregister_all-put (Dict.remove j d) names n m ne.1)

unregister_all-append :
    (d : Registry) (names : List String) (n : String)
    → unregister_all d (names ++ n ∷ []) ≡ Dict.remove n (unregister_all d names)
unfolding unregister_all unregister
unregister_all-append d [] n = refl
unregister_all-append d (j ∷ names) n = unregister_all-append (Dict.remove j d) names n

unregister_all-free :
    (d : Registry) (names : List String) (n : String)
    → Dict.get n d ≡ none
    → Dict.get n (unregister_all d names) ≡ none
unfolding unregister_all unregister
unregister_all-free d [] n h = h
unregister_all-free d (j ∷ names) n h =
    unregister_all-free (Dict.remove j d) names n (ground (arith, h, get-remove j n d))

register_isolated-ok :
    (d : Registry) (m : Module) (after : Registry)
    → register_isolated d m ≡ ok after
    → (Dict.put m.manifest.name m d ≡ after) × (Dict.get m.manifest.name d ≡ none)
unfolding register_isolated add
register_isolated-ok d m after h = (
  ground (arith, eq_iff m.manifest.isolation "isolated"),
  ground (arith, eq_iff m.manifest.isolation "isolated"),
)

-- What holds between two steps of the loop that started from `before`.
record IsUndoable (before registry : Registry) (registered : List String) : Type 0 where
  undone : unregister_all registry registered ≡ before
  present : All (λ n. Dict.has n registry ≡ true) registered

absent_from :
    (n : String) (d : Registry) (names : List String)
    → Dict.get n d ≡ none
    → All (λ j. Dict.has j d ≡ true) names
    → All (λ j. n ≢ j) names
absent_from n d names free h =
    All-map_of names (λ j there same. let e : Dict.get j d ≡ none = rw same at free in ground arith)
      h

step-IsUndoable :
    (before registry : Registry) (registered : List String) (m : Module)
    → IsUndoable before registry registered
    → Dict.get m.manifest.name registry ≡ none
    → IsUndoable before (Dict.put m.manifest.name m registry) (registered ++ m.manifest.name ∷ [])
step-IsUndoable before registry registered m u free =
    let n = m.manifest.name in
    let others = absent_from n registry registered free u.present in
    let free_before : Dict.get n before ≡ none =
      rw u.undone at (unregister_all-free registry registered n free) in
    record {
      undone =
          unregister_all-append (Dict.put n m registry) registered n
          ∙ ap (Dict.remove n)
              (unregister_all-put registry registered n m others ∙ ap (Dict.put n m) u.undone)
          ∙ remove-put n m before free_before;
      present =
          All-append (λ j. Dict.has j (Dict.put n m registry) ≡ true) registered (n ∷ [])
            (All-map_of registered (λ j there. ground (arith, there, get-put n j m registry))
              u.present)
            (ground (arith, get-put n n m registry, eq_iff n n), tt);
    }

register_all-undone :
    (before registry after : Registry) (registered : List String) (ms : List Module)
    (e : RegisterError)
    → IsUndoable before registry registered
    → register_all registry registered ms ≡ (after, some e)
    → after ≡ before
unfolding register_all
register_all-undone before registry after registered [] e u h =
    absurd (let k : none ≡ some e = ap (λ p. p.1) h in ground arith)
register_all-undone before registry after registered (m ∷ ms) e u h =
    elim (Result-cases (register_isolated registry m)) [
      | inl (next, same) ↦
          let (put, free) = register_isolated-ok registry m next same in
          register_all-undone before next after (registered ++ m.manifest.name ∷ []) ms e
            (rw put at (step-IsUndoable before registry registered m u free))
            (rw (same, register_all) at h)
      | inr (f, same) ↦
          let k : (unregister_all registry registered, some f) ≡ (after, some e) =
            rw (same, register_all) at h in
          sym (ap (λ (p : Registry × Option RegisterError). p.0) k) ∙ u.undone
    ]

-- A registration of an extension that raises leaves the manager as it was: the modules registered
-- before the failure are gone, the order of the registry included.
pub register_extension-undone :
    (worker_run : WorkerRun) (manager after : ExtensionManager) (manifest : ExtensionManifest)
    (e : RegisterError)
    → register_extension worker_run manager manifest ≡ (after, some e)
    → after ≡ manager
unfolding register_extension
register_extension-undone worker_run manager after manifest e h =
    let ms = isolated_modules worker_run manifest.modules in
    let ran = register_all manager.registry [] ms in
    elim (Option-cases ran.1) [
      | inl same ↦
          let k = rw (same, register_extension) at h in
          absurd (
            let j : none ≡ some e = ap (λ (p : ExtensionManager × Option RegisterError). p.1) k in
            ground arith)
      | inr (f, same) ↦
          let k = rw (same, register_extension) at h in
          let kept : ran.0 ≡ manager.registry =
            register_all-undone manager.registry manager.registry ran.0 [] ms f
              (record { undone = unfold unregister_all in refl; present = tt })
              (λ i. (ran.0, same i)) in
          sym (ap (λ (p : ExtensionManager × Option RegisterError). p.0) k)
          ∙ ap (λ r. record manager { registry = r }) kept
    ]

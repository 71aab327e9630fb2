-- ===== src/App/Listings/Refused.antt =====
-- A refused installation, seen through the listings of src/formshift_server/app.py.
use formshift_server.Prelude.{
  String, Option, none, some, ◌==◌, ◌≡◌, refl, subst, string_eq, ok, err, Bool-cases, inl, inr,
}
use formshift_server.Json.{Json, field?}
use formshift_server.Extensions.{ExtensionManager, WorkerRun}
use formshift_server.Extensions.Install.{
  Conditions, Server, Installed, install_locked, load_installed,
}
use formshift_server.Extensions.Install.Atomic.{
  IsAtomic, installed, refused, left_marked, install_locked-IsAtomic,
}
use formshift_server.Extensions.Install.Left.{IsMarked}
use formshift_server.App.Listings.{
  list_modules, list_extensions, InstallRefusal, Responded, respond, install_path,
  install_extension,
}

module _ (show : Json → String) (worker_run : WorkerRun) (conditions_of : String → Conditions)
    (unmarked : (path : String) → IsMarked (conditions_of path) → ⊥) where
  -- Where it is a refusal, the listings are as before, and so is what any start would load.
  Unseen : ExtensionManager → Server → Responded → Type 0
  Unseen start server (after, ok response) = Unit
  Unseen start server (after, err refusal) =
      (list_modules after.manager.registry ≡ list_modules server.manager.registry)
      × ((list_extensions (some after.manager) ≡ list_extensions (some server.manager))
          × (load_installed show worker_run (record { manager = start; disk = after.disk })
              ≡ load_installed show worker_run (record { manager = start; disk = server.disk })))

  respond-Unseen :
      (start : ExtensionManager) (path : String) (server : Server) (end : Installed)
      → IsAtomic show worker_run (conditions_of path) server end
      → Unseen start server (respond end)
  unfolding Unseen respond
  respond-Unseen start path server end (installed manifest free registers) = tt
  respond-Unseen start path server end (refused disk e left loads) = (refl, (refl, loads start))
  respond-Unseen start path server end (left_marked name root e h is_marked) =
      absurd (unmarked path is_marked)

  install_path-Unseen :
      (start : ExtensionManager) (server : Server) (path : Option Json)
      → Unseen start server (install_path show worker_run conditions_of server path)
  unfolding Unseen install_path
  install_path-Unseen start server (some (Json.str path)) = elim (Bool-cases (path == "")) [
    | inl e ↦ rw e (refl, (refl, refl))
    | inr e ↦ rw e (
        respond-Unseen start path server
          (install_locked show worker_run (conditions_of path) server)
          (install_locked-IsAtomic show worker_run (conditions_of path) server))
  ]
  install_path-Unseen start server _ = (refl, (refl, refl))

  install_extension-Unseen :
      (start : ExtensionManager) (server : Server) (body : Option Json)
      → Unseen start server (install_extension show worker_run conditions_of server body)
  unfolding Unseen install_extension
  install_extension-Unseen start server none = (refl, (refl, refl))
  install_extension-Unseen start server (some (Json.obj body)) =
      install_path-Unseen start server (field? "path" body)
  install_extension-Unseen start server (some _) = (refl, (refl, refl))

  -- Where the endpoint refuses to install an extension, whatever failed, the listings of modules
  -- and of extensions are as they were, and the extensions directory is such that `load_installed`
  -- loads the same from it as before, from whatever manager: at the next start of the server too.
  -- The condition: a write of the state file that does not return leaves no state file behind, or
  -- `rmtree` removes it.
  pub install_extension-refused :
      (start : ExtensionManager) (server after : Server) (body : Option Json)
      (refusal : InstallRefusal)
      → install_extension show worker_run conditions_of server body ≡ (after, err refusal)
      → (list_modules after.manager.registry ≡ list_modules server.manager.registry)
        × ((list_extensions (some after.manager) ≡ list_extensions (some server.manager))
            × (load_installed show worker_run (record { manager = start; disk = after.disk })
                ≡ load_installed show worker_run (record { manager = start; disk = server.disk })))
  unfolding Unseen
  install_extension-refused start server after body refusal h =
      subst (Unseen start server) h (install_extension-Unseen start server body)

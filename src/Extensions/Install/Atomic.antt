-- ===== src/Extensions/Install/Atomic.antt =====
-- An installation (src/formshift_server/extensions.py) is all or nothing, but for a state file
-- of which the write does not return.
use formshift_server.Prelude.{
  String, Bool, true, false, not, ◌||◌, Option, none, some, List, [], ◌∷◌, ◌≡◌, inl, inr, refl, sym,
  ◌∙◌, arith, string_eq, ok, err, Bool-cases, Option-cases, Result-cases,
}
use formshift_server.Prelude.Dict
use formshift_server.Json.{Json, Fields}
use formshift_server.Modules.{RegisterError}
use formshift_server.Extensions.Manifest.{ExtensionManifest, parse_extension_manifest}
use formshift_server.Extensions.{ExtensionManager, WorkerRun, collision, register_extension}
use formshift_server.Extensions.Preflight.{register_extension-succeeds}
use formshift_server.Extensions.Install.{
  Document, missing, undecodable, readable, Root, Listing, CallEnd, done, fails, breaks, Conditions,
  InstallError, not_directory, no_document, bad_manifest, already_installed, module_taken,
  directory_exists, could_not_install, other_exception, Server, insert_root, precedes, finished,
  prepare, Installed, settle, conclude, install_manifest, install_source, install_locked, Loaded,
  load_root, load_roots, load_installed,
}
use formshift_server.Extensions.Install.Left.{
  Prepared, ready, untouched, partial, unwritten, prepare-Prepared, IsDebris, same, debris,
  IsMarked, IsLeft, tidy, marked, clean-absent, clean-IsDebris, unwritten-IsLeft,
}

module _ (show : Json → String) (worker_run : WorkerRun) where
  load_root-unfinished :
      (name : String) (root : Root)
      (rest : ExtensionManager → List ExtensionManifest → Loaded show worker_run)
      (manager : ExtensionManager) (loaded : List ExtensionManifest)
      → root.is_complete ≡ false
      → load_root show worker_run name root rest manager loaded ≡ rest manager loaded
  unfolding load_root
  load_root-unfinished name root rest manager loaded h =
      let skips : Dict.has name manager.installed || not root.is_complete ≡ true =
        ground (arith, h) in
      rw (skips, load_root) refl

  -- A directory without the state file is not loaded.
  load_roots-insert_root :
      (name : String) (root : Root) (disk : Listing) (manager : ExtensionManager)
      (loaded : List ExtensionManifest)
      → root.is_complete ≡ false
      → load_roots show worker_run (insert_root name root disk) manager loaded
        ≡ load_roots show worker_run disk manager loaded
  unfolding load_roots insert_root
  load_roots-insert_root name root [] manager loaded h =
      load_root-unfinished name root (load_roots show worker_run []) manager loaded h
  load_roots-insert_root name root ((other, r) ∷ disk) manager loaded h =
      elim (Bool-cases (precedes name other)) [
        | inl e ↦ rw e (
            load_root-unfinished name root (load_roots show worker_run ((other, r) ∷ disk)) manager
              loaded h)
        | inr e ↦ rw e (λ i.
            load_root show worker_run other r (λ m l. load_roots-insert_root name root disk m l h i)
              manager loaded)
      ]

  -- What an installation comes to: the extension is registered and its directory complete; or an
  -- exception is raised, the manager is as it was, and the directory holds at most debris, so that
  -- a start of the server loads what it would have loaded before; or the write of the state file
  -- did not return and left it, the manager is as it was, and there is one more directory.
  pub data IsAtomic (world : Conditions) (server : Server) : Installed → Type 0 where
    installed :
        (manifest : ExtensionManifest)
        → Dict.has manifest.name server.disk ≡ false
        → (register_extension worker_run server.manager manifest).1 ≡ none
        → IsAtomic world server (
          record {
            manager = (register_extension worker_run server.manager manifest).0;
            disk = insert_root manifest.name (finished world) server.disk;
          },
          ok manifest,
        )
    refused :
        (disk : Listing) (e : InstallError)
        → IsDebris server.disk disk
        → ((start : ExtensionManager)
            → load_installed show worker_run (record { manager = start; disk = disk })
              ≡ load_installed show worker_run (record { manager = start; disk = server.disk }))
        → IsAtomic world server (record { manager = server.manager; disk = disk }, err e)
    left_marked :
        (name : String) (root : Root) (e : InstallError)
        → root.is_complete ≡ true
        → IsMarked world
        → IsAtomic world server
            (record { manager = server.manager; disk = insert_root name root server.disk }, err e)

  debris-IsAtomic :
      (world : Conditions) (server : Server) (disk : Listing) (e : InstallError)
      → IsDebris server.disk disk
      → IsAtomic world server (record { manager = server.manager; disk = disk }, err e)
  unfolding load_installed
  debris-IsAtomic world server disk e same = refused disk e same (λ start. refl)
  debris-IsAtomic world server disk e (debris name root h) =
      refused disk e (debris name root h)
        (λ start. load_roots-insert_root name root server.disk start [] h)

  left-IsAtomic :
      (world : Conditions) (server : Server) (disk : Listing) (e : InstallError)
      → IsLeft world server.disk disk
      → IsAtomic world server (record { manager = server.manager; disk = disk }, err e)
  left-IsAtomic world server disk e (tidy after is_debris) =
      debris-IsAtomic world server disk e is_debris
  left-IsAtomic world server disk e (marked name root h is_marked) =
      left_marked name root e h is_marked

  settle-ok :
      (world : Conditions) (manifest : ExtensionManifest) (disk : Listing)
      (registered : ExtensionManager × Option RegisterError)
      → registered.1 ≡ none
      → settle show worker_run world manifest disk registered
        ≡ (record { manager = registered.0; disk = disk }, ok manifest)
  unfolding settle
  settle-ok world manifest disk (manager, none) h = refl
  settle-ok world manifest disk (manager, some e) h = absurd (ground (arith, h))

  conclude-IsAtomic :
      (world : Conditions) (server : Server) (manifest : ExtensionManifest)
      (prepared : Listing × CallEnd)
      → Dict.get manifest.name server.disk ≡ none
      → (register_extension worker_run server.manager manifest).1 ≡ none
      → Prepared world manifest.name server.disk prepared
      → IsAtomic world server (conclude show worker_run world server.manager manifest prepared)
  unfolding conclude
  conclude-IsAtomic world server manifest prepared free registers ready =
      rw
        (settle-ok world manifest (insert_root manifest.name (finished world) server.disk)
          (register_extension worker_run server.manager manifest) registers)
        (installed manifest (ground (arith, free)) registers)
  conclude-IsAtomic world server manifest prepared free registers (untouched done ne) =
      absurd (ne refl)
  conclude-IsAtomic world server manifest prepared free registers (untouched fails ne) =
      rw (clean-absent manifest.name server.disk free world.cleanup)
        (debris-IsAtomic world server server.disk (could_not_install manifest.name) same)
  conclude-IsAtomic world server manifest prepared free registers (untouched breaks ne) =
      debris-IsAtomic world server server.disk other_exception same
  conclude-IsAtomic world server manifest prepared free registers (partial root done ne h) =
      absurd (ne refl)
  conclude-IsAtomic world server manifest prepared free registers (partial root fails ne h) =
      debris-IsAtomic world server _ (could_not_install manifest.name)
        (clean-IsDebris manifest.name server.disk free world.cleanup root h)
  conclude-IsAtomic world server manifest prepared free registers (partial root breaks ne h) =
      debris-IsAtomic world server _ other_exception (debris manifest.name root h)
  conclude-IsAtomic world server manifest prepared free registers (unwritten root done ne h w c) =
      absurd (ne refl)
  conclude-IsAtomic world server manifest prepared free registers (unwritten root fails ne h w c) =
      left-IsAtomic world server _ (could_not_install manifest.name)
        (unwritten-IsLeft manifest.name server.disk free world root h w c)
  conclude-IsAtomic world server manifest prepared free registers (unwritten root breaks ne h w c) =
      left_marked manifest.name root other_exception h
        (record { unwritten = λ e. ne (sym w ∙ e); created = c; uncleared = inl w })

  install_manifest-IsAtomic :
      (world : Conditions) (server : Server) (document : Fields) (manifest : ExtensionManifest)
      → parse_extension_manifest show document ≡ ok manifest
      → IsAtomic world server (install_manifest show worker_run world server manifest)
  unfolding install_manifest
  install_manifest-IsAtomic world server document manifest parsed =
      elim (Bool-cases (Dict.has manifest.name server.manager.installed)) [
        | inl e ↦
            rw e (debris-IsAtomic world server server.disk (already_installed manifest.name) same)
        | inr e ↦ elim (Option-cases (collision server.manager.registry manifest.modules)) [
          | inr (name, f) ↦
              rw (e, f) (debris-IsAtomic world server server.disk (module_taken name) same)
          | inl f ↦ elim (Option-cases (Dict.get manifest.name server.disk)) [
            | inr (root, g) ↦
                rw (e, f, g)
                  (debris-IsAtomic world server server.disk (directory_exists manifest.name) same)
            | inl g ↦
                rw (e, f, g)
                  (conclude-IsAtomic world server manifest (prepare world manifest.name server.disk)
                    g
                    (register_extension-succeeds show document worker_run server.manager manifest
                      parsed f)
                    (prepare-Prepared world manifest.name server.disk))
          ]
        ]
      ]

  install_source-IsAtomic :
      (world : Conditions) (server : Server) (is_directory : Bool) (document : Document)
      → IsAtomic world server (install_source show worker_run world server is_directory document)
  unfolding install_source
  install_source-IsAtomic world server false document =
      debris-IsAtomic world server server.disk not_directory same
  install_source-IsAtomic world server true missing =
      debris-IsAtomic world server server.disk no_document same
  install_source-IsAtomic world server true undecodable =
      debris-IsAtomic world server server.disk other_exception same
  install_source-IsAtomic world server true (readable document) =
      elim (Result-cases (parse_extension_manifest show document)) [
        | inr (error, g) ↦
            rw (g, install_source)
              (debris-IsAtomic world server server.disk (bad_manifest error) same)
        | inl (manifest, g) ↦
            rw (g, install_source) (install_manifest-IsAtomic world server document manifest g)
      ]

  pub install_locked-IsAtomic :
      (world : Conditions) (server : Server)
      → IsAtomic world server (install_locked show worker_run world server)
  unfolding install_locked
  install_locked-IsAtomic world server =
      install_source-IsAtomic world server world.is_directory world.document

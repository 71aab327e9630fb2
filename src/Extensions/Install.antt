-- ===== src/Extensions/Install.antt =====
-- `_install_locked` and `load_installed` of src/formshift_server/extensions.py. The extensions
-- directory is the list of its directories in the order of their names; what the file system,
-- `venv` and `pip` do is given as `Conditions`.
pub mod Left
pub mod Atomic
use Prim.Native.String.{compare}
use Prim.Native.Nat.{Ordering}
use formshift_server.Prelude.{
  String, Bool, true, false, not, ◌&&◌, ◌||◌, Option, none, some, List, [], ◌∷◌, ◌++◌, ◌==◌,
  string_eq, Result, ok, err, if◌then◌else◌,
}
use formshift_server.Prelude.Dict
use formshift_server.Prelude.Dict.{Dict}
use formshift_server.Json.{Json, Fields}
use formshift_server.Modules.{RegisterError, already_registered, not_implemented}
use formshift_server.Extensions.Manifest.{
  ExtensionManifest, ManifestError, parse_extension_manifest,
}
use formshift_server.Extensions.{ExtensionManager, WorkerRun, collision, register_extension}

-- `extension.toml` of a directory: there is none or it cannot be read as TOML, it is no UTF-8, or it
-- is parsed.
pub data Document : Type 0 where
  missing undecodable : Document
  readable : Fields → Document

-- A directory of an extension: its document, and whether it has the state file.
pub record Root : Type 0 where
  pub document : Document
  pub is_complete : Bool

abbrev pub Listing : Type 0
Listing = Dict String Root

-- How a call ends: it returns, raises an `ExtensionError`, `OSError` or `ValueError`, or raises
-- another exception.
pub data CallEnd : Type 0 where
  done fails breaks : CallEnd

-- What `rmtree`, which ignores errors, leaves of a directory: nothing, or a part of it, with or
-- without the document and the state file that it had.
pub data Remains : Type 0 where
  removed : Remains
  remains : (keeps_document keeps_state : Bool) → Remains

-- `part` is the document of the directory that a copy leaves which does not return, where it has
-- made one. `has_state` tells whether a `write_text` that does not return has made the state file,
-- which it opens first.
pub record Conditions : Type 0 where
  pub is_directory : Bool
  pub document : Document
  pub made : CallEnd
  pub copied : CallEnd
  pub part : Option Document
  pub venv : CallEnd
  pub wrote : CallEnd
  pub has_state : Bool
  pub cleanup : Remains

pub data InstallError : Type 0 where
  not_directory : InstallError
  no_document : InstallError
  bad_manifest : ManifestError → InstallError
  already_installed : String → InstallError
  module_taken : String → InstallError
  directory_exists : String → InstallError
  could_not_install : String → InstallError
  not_implemented_error : InstallError
  other_exception : InstallError

pub record Server : Type 0 where
  pub manager : ExtensionManager
  pub disk : Listing

abbrev pub precedes : String → String → Bool
precedes a b = elim (compare a b) [ Ordering.lt ↦ true | _ ↦ false ]

-- A new directory takes its place in the order of the names.
unfoldable pub insert_root : String → Root → Listing → Listing
insert_root name root [] = (name, root) ∷ []
insert_root name root ((other, r) ∷ disk) =
    let rest = insert_root name root disk in
    if precedes name other then (name, root) ∷ (other, r) ∷ disk else (other, r) ∷ rest

-- The directory of an installation that has not come to its end, and of one that has.
abbrev pub unfinished : Conditions → Root
unfinished world = record { document = world.document; is_complete = false }

abbrev pub partly_copied : Document → Root
partly_copied document = record { document = document; is_complete = false }

abbrev pub partly_written : Conditions → Root
partly_written world = record { document = world.document; is_complete = world.has_state }

abbrev pub finished : Conditions → Root
finished world = record { document = world.document; is_complete = true }

module _ (world : Conditions) (name : String) (disk : Listing) where
  -- The listing and how the `try` ends, after the state file is written.
  unfoldable pub after_write : CallEnd → Listing × CallEnd
  unfolding insert_root
  after_write done = (insert_root name (finished world) disk, done)
  after_write fails = (insert_root name (partly_written world) disk, fails)
  after_write breaks = (insert_root name (partly_written world) disk, breaks)

  -- `_create_venv`
  unfoldable pub after_venv : CallEnd → Listing × CallEnd
  unfolding after_write
  after_venv done = after_write world.wrote
  after_venv fails = (insert_root name (unfinished world) disk, fails)
  after_venv breaks = (insert_root name (unfinished world) disk, breaks)

  unfoldable pub with_part : Option Document → Listing
  unfolding insert_root
  with_part none = disk
  with_part (some document) = insert_root name (partly_copied document) disk

  -- `copytree`
  unfoldable pub after_copy : CallEnd → Listing × CallEnd
  unfolding after_venv with_part
  after_copy done = after_venv world.venv
  after_copy fails = (with_part world.part, fails)
  after_copy breaks = (with_part world.part, breaks)

  -- `mkdir`
  unfoldable pub after_make : CallEnd → Listing × CallEnd
  unfolding after_copy
  after_make done = after_copy world.copied
  after_make fails = (disk, fails)
  after_make breaks = (disk, breaks)

  -- The `try` of `_install_locked`, up to the registration.
  unfoldable pub prepare : Listing × CallEnd
  unfolding after_make
  prepare = after_make world.made

abbrev pub part_of : (keeps_document keeps_state : Bool) → Root → Root
part_of keeps_document keeps_state root = record {
  document = if keeps_document then root.document else missing;
  is_complete = keeps_state && root.is_complete;
}

unfoldable pub replace_root : (Root → Root) → String → Listing → Listing
replace_root f name [] = []
replace_root f name ((other, r) ∷ disk) =
    let rest = replace_root f name disk in
    if other == name then (other, f r) ∷ disk else (other, r) ∷ rest

-- `shutil.rmtree(root, ignore_errors=True)`
unfoldable pub clean : Remains → String → Listing → Listing
unfolding replace_root
clean removed name disk = Dict.remove name disk
clean (remains keeps_document keeps_state) name disk =
    replace_root (part_of keeps_document keeps_state) name disk

abbrev pub Installed : Type 0
Installed = Server × Result InstallError ExtensionManifest

module _ (show : Json → String) (worker_run : WorkerRun) where
  -- The end of `_install_locked`, with what `_register` gave.
  unfoldable pub settle :
      Conditions → ExtensionManifest → Listing → ExtensionManager × Option RegisterError → Installed
  unfolding clean
  settle world manifest disk (manager, none) =
      (record { manager = manager; disk = disk }, ok manifest)
  settle world manifest disk (manager, some (already_registered name)) = (
    record { manager = manager; disk = clean world.cleanup manifest.name disk },
    err (could_not_install manifest.name),
  )
  settle world manifest disk (manager, some (not_implemented name isolation)) =
      (record { manager = manager; disk = disk }, err not_implemented_error)

  unfoldable pub conclude :
      Conditions → ExtensionManager → ExtensionManifest → Listing × CallEnd → Installed
  unfolding clean settle
  conclude world manager manifest (disk, done) =
      settle world manifest disk (register_extension worker_run manager manifest)
  conclude world manager manifest (disk, fails) = (
    record { manager = manager; disk = clean world.cleanup manifest.name disk },
    err (could_not_install manifest.name),
  )
  conclude world manager manifest (disk, breaks) =
      (record { manager = manager; disk = disk }, err other_exception)

  -- `_install_locked`, from the manifest on.
  unfoldable pub install_manifest : Conditions → Server → ExtensionManifest → Installed
  unfolding prepare conclude
  install_manifest world server manifest =
      if Dict.has manifest.name server.manager.installed
      then (server, err (already_installed manifest.name))
      else elim (collision server.manager.registry manifest.modules) [
        | some name ↦ (server, err (module_taken name))
        | none ↦
            if Dict.has manifest.name server.disk
            then (server, err (directory_exists manifest.name))
            else conclude world server.manager manifest (prepare world manifest.name server.disk)
      ]

  -- `_install_locked`, with whether the source is a directory, and its document.
  unfoldable pub install_source : Conditions → Server → Bool → Document → Installed
  unfolding install_manifest
  install_source world server false document = (server, err not_directory)
  install_source world server true missing = (server, err no_document)
  install_source world server true undecodable = (server, err other_exception)
  install_source world server true (readable document) =
      elim (parse_extension_manifest show document) [
        | err e ↦ (server, err (bad_manifest e))
        | ok manifest ↦ install_manifest world server manifest
      ]

  -- `_install_locked`
  unfoldable pub install_locked : Conditions → Server → Installed
  unfolding install_source
  install_locked world server = install_source world server world.is_directory world.document

  abbrev pub parse_root : Root → Result InstallError ExtensionManifest
  parse_root root = elim root.document [
    | missing ↦ err no_document
    | undecodable ↦ err other_exception
    | readable document ↦ elim (parse_extension_manifest show document) [
      | err e ↦ err (bad_manifest e)
      | ok manifest ↦ ok manifest
    ]
  ]

  abbrev pub Loaded : Type 0
  Loaded = ExtensionManager × Result InstallError (List ExtensionManifest)

  -- The end of a turn of the loop of `load_installed`, with what `_register` gave.
  unfoldable pub load_next :
      ExtensionManifest
      → List ExtensionManifest
      → (ExtensionManager → List ExtensionManifest → Loaded)
      → ExtensionManager × Option RegisterError
      → Loaded
  load_next manifest loaded rest (manager, none) = rest manager (loaded ++ manifest ∷ [])
  load_next manifest loaded rest (manager, some e) = (manager, err other_exception)

  -- A turn of the loop of `load_installed`, where `rest` is what follows it.
  unfoldable pub load_root :
      String
      → Root
      → (ExtensionManager → List ExtensionManifest → Loaded)
      → ExtensionManager
      → List ExtensionManifest
      → Loaded
  unfolding load_next
  load_root name root rest manager loaded =
      elim (Dict.has name manager.installed || not root.is_complete) [
        | true ↦ rest manager loaded
        | false ↦ elim (parse_root root) [
          | err e ↦ (manager, err e)
          | ok manifest ↦
              load_next manifest loaded rest (register_extension worker_run manager manifest)
        ]
      ]

  -- The loop of `load_installed`, with the extensions loaded so far.
  unfoldable pub load_roots : Listing → ExtensionManager → List ExtensionManifest → Loaded
  unfolding load_root
  load_roots [] manager loaded = (manager, ok loaded)
  load_roots ((name, root) ∷ disk) manager loaded =
      load_root name root (load_roots disk) manager loaded

  -- `load_installed`
  unfoldable pub load_installed : Server → Loaded
  unfolding load_roots
  load_installed server = load_roots server.disk server.manager []

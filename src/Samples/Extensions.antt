-- ===== src/Samples/Extensions.antt =====
-- A parsed graph, the manifest of an extension, its registration and a failed one, at concrete
-- documents.
use formshift_server.Prelude.{
  String, true, none, some, [], ◌∷◌, ◌≡◌, refl, ok, err, Option, string_eq,
}
use formshift_server.Prelude.Dict
use formshift_server.Json.{is_truthy, Json, str, arr, obj, nil, cons, Fields, end, field, field?}
use formshift_server.Modules.{already_registered, register_isolated, add, unregister, lookup_module}
use formshift_server.Extensions.Manifest.{
  ExtensionManifest, ExtensionModuleSpec, parse_extension_manifest, all_then_end, matches_name,
  up_to_colon, matches_entry, requirements_of, text, text_or, port_of, port_list, ports,
  module_spec, module_specs,
}
use formshift_server.Extensions.Manifest.Accepted.{IsAccepted, parse_extension_manifest-IsAccepted}
use formshift_server.Extensions.{
  ExtensionManager, WorkerRun, isolated_modules, register_all, unregister_all, collision,
  register_extension,
}
use formshift_server.Extensions.Rollback.{register_extension-undone}
use formshift_server.App.Listings.{list_modules, list_extensions, unprocessable, install_extension}
use formshift_server.App.Listings.Refused.{install_extension-refused}
use formshift_server.Extensions.Install.{
  could_not_install, unfinished, load_installed, insert_root, clean, replace_root, Conditions,
  readable, remains, done, fails, Server, install_locked,
}
use formshift_server.Extensions.Install.Left.{IsMarked}
use formshift_server.Extensions.Preflight.{register_extension-succeeds}
use formshift_server.Graph.Parse.{parse_graph}
use formshift_server.Graph.Parse.Wire.{write_graph, parse_graph-write}
use formshift_server.Samples.{port, tracer, chain}

parse_graph-write_example :
    parse_graph (write_graph chain (field "comment" (str "new") end)) ≡ ok chain
parse_graph-write_example = parse_graph-write chain (field "comment" (str "new") end)

abbrev show : Json → String
show value = "{}"

abbrev port_table : Json
port_table = obj (field "name" (str "image") (field "type" (str "raster/png") end))

abbrev module_table : String → Json
module_table name = obj (
    field "name" (str name) (
      field "entry" (str "removebg:run") (
        field "inputs" (arr (cons port_table nil))
          (field "outputs" (arr (cons port_table nil)) end))))

abbrev document : Fields
document =
    field "extension"
      (obj (field "name" (str "background-removal") (field "version" (str "1.0") end)))
      (field "modules" (arr (cons (module_table "remove") (cons (module_table "trace") nil))) end)

abbrev manifest : ExtensionManifest
manifest = record {
  name = "background-removal";
  version = "1.0";
  description = "";
  isolation = "isolated";
  requirements = [];
  modules = spec "remove" ∷ spec "trace" ∷ [];
}
  where
    spec : String → ExtensionModuleSpec
    spec name = record {
      manifest = record {
        name = name;
        version = "1.0";
        description = "";
        inputs = port "image" "raster/png" ∷ [];
        outputs = port "image" "raster/png" ∷ [];
        isolation = "isolated";
      };
      entry = "removebg:run";
    }

parsed : parse_extension_manifest show document ≡ ok manifest
unfolding parse_extension_manifest matches_name all_then_end text_or text field? requirements_of
    module_specs module_spec matches_entry up_to_colon ports port_list port_of is_truthy
parsed = refl

parse_extension_manifest-IsAccepted_example : IsAccepted manifest
parse_extension_manifest-IsAccepted_example =
    parse_extension_manifest-IsAccepted show document manifest parsed

-- A worker that returns nothing.
abbrev idle : WorkerRun
idle spec inputs params draft = ok []

-- A manager over a registry in which the second module's name is taken.
abbrev occupied : ExtensionManager
occupied = record { registry = ("trace", tracer) ∷ []; installed = [] }

refused : register_extension idle occupied manifest ≡ (occupied, some (already_registered "trace"))
unfolding register_extension register_all isolated_modules register_isolated add unregister_all
    unregister Dict.get Dict.put Dict.remove
refused = refl

register_extension-undone_example : occupied ≡ occupied
register_extension-undone_example =
    register_extension-undone idle occupied occupied manifest (already_registered "trace") refused

abbrev empty : ExtensionManager
empty = record { registry = []; installed = [] }

free : collision empty.registry manifest.modules ≡ none
unfolding collision lookup_module Dict.get
free = refl

register_extension-succeeds_example : (register_extension idle empty manifest).1 ≡ none
register_extension-succeeds_example =
    register_extension-succeeds show document idle empty manifest parsed free

-- `pip` fails, and the directory cannot be removed.
abbrev no_pip : Conditions
no_pip = record {
  is_directory = true;
  document = readable document;
  made = done;
  copied = done;
  part = none;
  venv = fails;
  wrote = done;
  has_state = true;
  cleanup = remains true true;
}

abbrev server : Server
server = record { manager = empty; disk = [] }

no_pip-unmarked : (path : String) → IsMarked no_pip → ⊥
no_pip-unmarked path is_marked = is_marked.unwritten refl

-- The request of an installation without `pip`, and the directory that it leaves.
abbrev request : Option Json
request = some (obj (field "path" (str "removebg") end))

abbrev littered : Server
littered = record server { disk = ("background-removal", unfinished no_pip) ∷ [] }

refuses :
    install_extension show idle (λ path. no_pip) server request
    ≡ (littered, err (unprocessable (could_not_install "background-removal")))
unfolding install_extension install_locked collision lookup_module Dict.get field? insert_root
    parse_extension_manifest matches_name all_then_end text_or text requirements_of module_specs
    module_spec matches_entry up_to_colon ports port_list port_of is_truthy clean replace_root
refuses = refl

install_extension-refused_example :
    (list_modules littered.manager.registry ≡ list_modules server.manager.registry)
    × ((list_extensions (some littered.manager) ≡ list_extensions (some server.manager))
        × (load_installed show idle (record { manager = empty; disk = littered.disk })
            ≡ load_installed show idle (record { manager = empty; disk = server.disk })))
install_extension-refused_example =
    install_extension-refused show idle (λ path. no_pip) no_pip-unmarked empty server littered
      request (unprocessable (could_not_install "background-removal")) refuses

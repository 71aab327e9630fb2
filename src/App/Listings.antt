-- ===== src/App/Listings.antt =====
-- The endpoints of src/formshift_server/app.py for modules and extensions. `none` for the manager is
-- a server without an extensions directory.
pub mod Refused
use formshift_server.Prelude.{
  ℕ, String, Bool, true, false, Option, none, some, List, [], ◌∷◌, ◌==◌, string_eq, Result, ok, err,
  if◌then◌else◌,
}
use formshift_server.Prelude.Dict
use formshift_server.Json.{Json, bool, str, arr, obj, Items, nil, cons, Fields, end, field, field?}
use formshift_server.Modules.{PortSpec, ModuleManifest, Registry, manifests}
use formshift_server.Extensions.{ExtensionManager, WorkerRun}
use formshift_server.Extensions.Manifest.{ExtensionManifest, ExtensionModuleSpec}
use formshift_server.Extensions.Install.{
  Conditions, InstallError, already_installed, module_taken, directory_exists, other_exception,
  Server, Installed, install_locked,
}

-- `[f(x) for x in xs]`
abbrev pub array {ℓ} : {A : Type ℓ} → (A → Json) → List A → Items
array f [] = nil
array f (x ∷ xs) = cons (f x) (array f xs)

unfoldable pub port_document : PortSpec → Json
port_document port = obj (field "name" (str port.name) (field "type" (str port.type) end))

unfoldable pub module_document : ModuleManifest → Json
unfolding port_document
module_document m = obj (
    field "name" (str m.name) (
      field "version" (str m.version) (
        field "description" (str m.description) (
          field "isolation" (str m.isolation) (
            field "inputs" (arr (array port_document m.inputs))
              (field "outputs" (arr (array port_document m.outputs)) end))))))

unfoldable pub list_modules : Registry → Json
unfolding module_document
list_modules registry = arr (array module_document (manifests registry))

abbrev pub spec_names : List ExtensionModuleSpec → Items
spec_names specs = array (λ (spec : ExtensionModuleSpec). str spec.manifest.name) specs

unfoldable pub extension_document : ExtensionManifest → Json
extension_document m = obj (
    field "name" (str m.name) (
      field "version" (str m.version) (
        field "description" (str m.description) (
          field "isolation" (str m.isolation) (field "modules" (arr (spec_names m.modules)) end)))))

-- `extensions.installed()`
abbrev pub installed_manifests : Dict.Dict String ExtensionManifest → List ExtensionManifest
installed_manifests [] = []
installed_manifests ((name, manifest) ∷ d) = manifest ∷ installed_manifests d

unfoldable pub list_extensions : Option ExtensionManager → Json
unfolding extension_document
list_extensions none = obj (field "enabled" (bool false) (field "extensions" (arr nil) end))
list_extensions (some manager) = obj (
    field "enabled" (bool true) (
      field "extensions" (arr (array extension_document (installed_manifests manager.installed)))
        end))

-- The `HTTPException`s of `install_extension`, and the exceptions that it does not catch.
pub data InstallRefusal : Type 0 where
  disabled : InstallRefusal
  not_json : InstallRefusal
  not_object : InstallRefusal
  no_path : InstallRefusal
  conflict : InstallError → InstallRefusal
  unprocessable : InstallError → InstallRefusal
  not_caught : InstallRefusal

unfoldable pub install_status : InstallRefusal → ℕ
install_status disabled = 503
install_status not_json = 400
install_status not_object = 400
install_status no_path = 400
install_status (conflict e) = 409
install_status (unprocessable e) = 422
install_status not_caught = 500

-- The `except` clauses.
unfoldable pub refusal_of : InstallError → InstallRefusal
refusal_of (already_installed name) = conflict (already_installed name)
refusal_of (module_taken name) = conflict (module_taken name)
refusal_of (directory_exists name) = conflict (directory_exists name)
refusal_of other_exception = not_caught
refusal_of e = unprocessable e

abbrev pub Responded : Type 0
Responded = Server × Result InstallRefusal Json

unfoldable pub respond : Installed → Responded
unfolding refusal_of
respond (server, err e) = (server, err (refusal_of e))
respond (server, ok m) = (
  server,
  ok (
      obj (
        field "name" (str m.name)
          (field "version" (str m.version) (field "modules" (arr (spec_names m.modules)) end)))),
)

module _ (show : Json → String) (worker_run : WorkerRun) (conditions_of : String → Conditions) where
  -- `install_extension`, with the path of the body.
  unfoldable pub install_path : Server → Option Json → Responded
  unfolding respond
  install_path server (some (str path)) =
      if path == ""
      then (server, err no_path)
      else respond (install_locked show worker_run (conditions_of path) server)
  install_path server _ = (server, err no_path)

  -- `install_extension`, where extensions are enabled; a body that is no JSON is `none`.
  unfoldable pub install_extension : Server → Option Json → Responded
  unfolding install_path
  install_extension server none = (server, err not_json)
  install_extension server (some (obj body)) = install_path server (field? "path" body)
  install_extension server (some _) = (server, err not_object)

  -- `install_extension`
  unfoldable pub install_request :
      Option Server → Option Json → Option Server × Result InstallRefusal Json
  unfolding install_extension
  install_request none body = (none, err disabled)
  install_request (some server) body =
      let (after, response) = install_extension server body in (some after, response)

-- ===== src/Modules.antt =====
-- src/formshift_server/modules.py: manifests, the module protocol and the registry.
-- `register`, `register_isolated` and `unregister` return the registry that they leave; an
-- exception leaves the registry as it was. The theorems are in Modules/Registration.
pub mod Registration
use formshift_server.Prelude.{
  String, Bool, Option, none, some, List, [], ◌∷◌, map, ◌==◌, string_eq, not, if◌then◌else◌, Result,
  ok, err, ◌>>=◌, ◌>>◌, raise_if,
}
use formshift_server.Prelude.Dict
use formshift_server.Prelude.Dict.{Dict}
use formshift_server.Json.{Bytes, Fields}

pub record PortSpec : Type 0 where
  pub name : String
  pub type : String

pub record ModuleManifest : Type 0 where
  pub name : String
  pub version : String
  pub description : String
  pub inputs : List PortSpec
  pub outputs : List PortSpec
  pub isolation : String

unfoldable pub find_port : String → List PortSpec → Option PortSpec
find_port name [] = none
find_port name (p ∷ ports) = if p.name == name then some p else find_port name ports

unfoldable pub input_port : ModuleManifest → String → Option PortSpec
input_port manifest name = find_port name manifest.inputs

unfoldable pub output_port : ModuleManifest → String → Option PortSpec
output_port manifest name = find_port name manifest.outputs

pub record ModuleResult : Type 0 where
  pub type : String
  pub content : Bytes

-- What a module may raise: `ModuleError`, or any other exception.
pub data RunError : Type 0 where
  module_error : String → RunError
  other_error : String → RunError

-- The module protocol. `run` is the code of a module, which the server calls as a black box.
pub record Module : Type 0 where
  pub manifest : ModuleManifest
  pub run :
      (inputs : Dict String Bytes) (params : Fields) (draft : Bool)
      → Result RunError (Dict String ModuleResult)

abbrev pub Registry : Type 0
Registry = Dict String Module

pub data RegisterError : Type 0 where
  not_implemented : (name isolation : String) → RegisterError
  already_registered : (name : String) → RegisterError

-- `_add`
unfoldable pub add : Registry → Module → Result RegisterError Registry
add registry module' =
    let name = module'.manifest.name in
    if Dict.has name registry
    then err (already_registered name)
    else ok (Dict.put name module' registry)

unfoldable pub register : Registry → Module → Result RegisterError Registry
unfolding add
register registry module' = do
  let manifest = module'.manifest
  raise_if (not (manifest.isolation == "core")) (not_implemented manifest.name manifest.isolation)
  add registry module'

unfoldable pub register_isolated : Registry → Module → Result RegisterError Registry
unfolding add
register_isolated registry module' = do
  let manifest = module'.manifest
  raise_if (not (manifest.isolation == "isolated"))
      (not_implemented manifest.name manifest.isolation)
  add registry module'

unfoldable pub unregister : Registry → String → Registry
unregister registry name = Dict.remove name registry

unfoldable pub lookup_module : Registry → String → Option Module
lookup_module registry name = Dict.get name registry

unfoldable pub manifests : Registry → List ModuleManifest
manifests registry = map (λ entry. entry.1.manifest) registry

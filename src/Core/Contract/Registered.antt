-- ===== src/Core/Contract/Registered.antt =====
-- The registry that `default_registry` (src/formshift_server/app.py) fills.
use formshift_server.Prelude.{String, Bool, some, List, [], ◌∷◌, ◌≡◌, refl, string_eq, All, ok}
use formshift_server.Prelude.Dict
use formshift_server.Prelude.Dict.{Dict, get_of_All}
use formshift_server.Modules.{Module, Registry, register, add, lookup_module}
use formshift_server.Core.{Platform, Results}
use formshift_server.Executor.{check_outputs}
use formshift_server.Json.{Fields, Bytes}
use formshift_server.Core.Raster.{
  crop_module, rotate_module, levels_module, threshold_module, invert_module, downsample_module,
}
use formshift_server.Core.Color.{posterize_module, colormask_module}
use formshift_server.Core.Svg.{Xml, colorize_module, merge_module}
use formshift_server.Core.Potrace.{Host, potrace_module}
use formshift_server.Core.Registry.{default_registry}
use formshift_server.Core.Contract.{KeepsContract, Returns, check_one}
use formshift_server.Core.Contract.Images.{
  crop-Returns, rotate-Returns, levels-Returns, threshold-Returns, invert-Returns,
  downsample-Returns, posterize-Returns, colormask-Returns,
}
use formshift_server.Core.Contract.Vectors.{colorize-Returns, merge-Returns, trace-Returns}

module _ (py : Platform) (xml : Xml) (host : Host py) where
  -- The core modules, in the order of their registration.
  abbrev pub core_modules : List Module
  core_modules =
      potrace_module py host
      ∷ crop_module py
      ∷ rotate_module py
      ∷ levels_module py
      ∷ threshold_module py
      ∷ invert_module py
      ∷ downsample_module py
      ∷ posterize_module py
      ∷ colormask_module py
      ∷ colorize_module xml
      ∷ merge_module xml
      ∷ []

  -- A registry of the modules under their names.
  abbrev pub by_name : List Module → Registry
  by_name [] = []
  by_name (m ∷ ms) = (m.manifest.name, m) ∷ by_name ms

  abbrev IsEntry : String × Module → Type 0
  IsEntry entry = (entry.1.manifest.name ≡ entry.0) × KeepsContract entry.1

  keeps :
      (m : Module) {port type : String}
      → m.manifest.outputs ≡ record { name = port; type = type } ∷ []
      → ((inputs : Dict String Bytes) (params : Fields) (draft : Bool)
          → Returns port type (m.run inputs params draft))
      → IsEntry (m.manifest.name, m)
  unfolding KeepsContract
  keeps m one returns =
      (refl, λ i p d results h. check_one m.manifest _ _ one results (returns i p d results h))

  core-IsEntry : All IsEntry (by_name core_modules)
  core-IsEntry = (
    keeps (potrace_module py host) refl (trace-Returns py host),
    (
      keeps (crop_module py) refl (crop-Returns py),
      (
        keeps (rotate_module py) refl (rotate-Returns py),
        (
          keeps (levels_module py) refl (levels-Returns py),
          (
            keeps (threshold_module py) refl (threshold-Returns py),
            (
              keeps (invert_module py) refl (invert-Returns py),
              (
                keeps (downsample_module py) refl (downsample-Returns py),
                (
                  keeps (posterize_module py) refl (posterize-Returns py),
                  (
                    keeps (colormask_module py) refl (colormask-Returns py),
                    (
                      keeps (colorize_module xml) refl (colorize-Returns xml),
                      (keeps (merge_module xml) refl (merge-Returns xml), tt),
                    ),
                  ),
                ),
              ),
            ),
          ),
        ),
      ),
    ),
  )

  -- `default_registry` registers the eleven core modules without an exception; a module that is
  -- found under a name has that name, and what it returns passes the check of its manifest.
  pub default_registry-checks :
      (name : String) (m : Module) (inputs : Dict String Bytes) (params : Fields) (draft : Bool)
      (results : Results)
      → lookup_module (by_name core_modules) name ≡ some m
      → m.run inputs params draft ≡ ok results
      → (default_registry py xml host ≡ ok (by_name core_modules))
        × ((m.manifest.name ≡ name) × (check_outputs m.manifest results ≡ ok tt))
  unfolding default_registry register add lookup_module Dict.get Dict.put KeepsContract
  default_registry-checks name m inputs params draft results found ran =
      let (named, keeps_contract) =
        get_of_All IsEntry (by_name core_modules) name m core-IsEntry found in
      (refl, (named, keeps_contract inputs params draft results ran))

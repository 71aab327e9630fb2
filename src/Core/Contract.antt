-- ===== src/Core/Contract.antt =====
-- The modules of src/formshift_server/core against their manifests: what they return passes the
-- check of src/formshift_server/executor.py.
mod Images
mod Vectors
pub mod Registered
use formshift_server.Prelude.{
  ℕ, ℤ, pos, pos_part, leb_ℤ, ltb_ℤ, ◌+ℤ◌, ◌-ℤ◌, ◌+◌, ◌*◌, ◌==◌, nat_eq, ◌++◌, map, ◌||◌, ◌&&◌,
  String, Bool, true, false, not, Option, none, some, List, [], ◌∷◌, ◌≡◌, refl, arith, All, All-mem,
  Result, ok, err, ◌>>=◌, raise_if, ok_injective, Option-cases, Result-cases, eq_iff, string_eq,
  ◌⊎◌, inl, inr, is_empty, subst, if◌then◌else◌,
}
use formshift_server.Prelude.Dict
use formshift_server.Prelude.Dict.{Dict}
use formshift_server.Json.{Fields, Bytes}
use formshift_server.Modules.{
  Module, ModuleManifest, ModuleResult, RunError, Registry, RegisterError, register, add, PortSpec,
  lookup_module,
}
use formshift_server.Executor.{check_outputs, check_types, declared_outputs, minus}
use formshift_server.Core.{
  Platform, Results, raster_png, single, encode, input, decode, flat_input, int_param, float_param,
}
use formshift_server.Core.Raster.{
  exceeds, range_from, round_all, level_at, crop_module, crop_image, crop_run, rotate_module,
  rotate_run, levels_module, levels_run, threshold_module, threshold_run, invert_module, invert_run,
  downsample_module, downsample_run,
}
use formshift_server.Core.Color.{
  mask_table, grow_param, posterize_module, posterize_run, colormask_module, colormask_run,
}
use formshift_server.Core.Svg.{Xml, colorize_module, colorize_run, merge_module, merge_run}
use formshift_server.Core.Potrace.{Host, potrace_module, trace_run, traced, find_potrace}
use formshift_server.Core.Registry.{default_registry}

-- What a module may return: results that pass the check, or an exception.
pub KeepsContract : Module → Type 0
KeepsContract m =
    (inputs : Dict String Bytes) (params : Fields) (draft : Bool) (results : Results)
    → m.run inputs params draft ≡ ok results
    → check_outputs m.manifest results ≡ ok tt

-- The results are one port's, of a type.
pub record IsSingle (port type : String) (results : Results) : Type 0 where
  pub result : ModuleResult
  pub is_single : results ≡ (port, result) ∷ []
  pub typed : result.type ≡ type

abbrev pub Returns : (port type : String) → Result RunError Results → Type 0
Returns port type run = (results : Results) → run ≡ ok results → IsSingle port type results

pub Returns-bind {ℓ} :
    {A : Type ℓ} {port type : String} (r : Result RunError A) (f : A → Result RunError Results)
    → ((a : A) → Returns port type (f a))
    → Returns port type (r >>= f)
Returns-bind (ok a) f h results e = h a results e
Returns-bind (err raised) f h results e = absurd (ground arith)

pub Returns-encode :
    (py : Platform) (port : String) (image : py.Image)
    → Returns port raster_png (single port (encode py image))
unfolding encode
Returns-encode py port image results h = elim (Result-cases (py.save image "PNG")) [
  | inl (content, e) ↦ record {
    result = record { type = raster_png; content = content };
    is_single = ground (arith, e);
    typed = refl;
  }
  | inr (raised, e) ↦ absurd (ground (arith, e))
]

-- One port of the manifest, with its type, passes the check.
pub check_one :
    (m : ModuleManifest) (port type : String)
    → m.outputs ≡ record { name = port; type = type } ∷ []
    → (results : Results) → IsSingle port type results
    → check_outputs m results ≡ ok tt
unfolding check_outputs declared_outputs check_types minus Dict.get Dict.put
check_one m port type is results s =
    rw (is, s.is_single) (ground (arith, s.typed, eq_iff port port, eq_iff type type))

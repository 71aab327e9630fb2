-- ===== src/Core/Color.antt =====
-- `PosterizeModule` and `ColorMaskModule` of src/formshift_server/core/color.py.
pub mod Masks
use formshift_server.Prelude.{
  ℕ, zero, suc, ℤ, pos, pos_part, ltb_ℤ, leb_ℤ, String, Bool, true, false, not, ◌&&◌, ◌*◌, ◌+◌,
  Option, none, some, is_some, List, [], ◌∷◌, ◌==◌, string_eq, nat_eq, Result, ok, err, ◌>>=◌, ◌>>◌,
  raise_if, if◌then◌else◌,
}
use formshift_server.Prelude.Dict.{Dict}
use formshift_server.Json.{Json, int, null, Fields, field?, Bytes}
use formshift_server.Modules.{
  Module, ModuleManifest, PortSpec, ModuleResult, RunError, module_error,
}
use formshift_server.Core.{
  Platform, Results, raster_png, input, single, single_image_manifest, int_param, decode, encode,
  flat_input,
}
use formshift_server.Core.Palette.{validate_palette, map_to_palette}

-- `[value] * n`
unfoldable pub replicate : ℕ → ℤ → List ℤ
replicate zero value = []
replicate (suc n) value = value ∷ replicate n value

-- `table[index] = value`, of an index within the table.
unfoldable pub set_at : ℕ → ℤ → List ℤ → List ℤ
set_at index value [] = []
set_at zero value (x ∷ xs) = value ∷ xs
set_at (suc index) value (x ∷ xs) = x ∷ set_at index value xs

-- The table that selects one index: black there, white elsewhere.
unfoldable pub mask_table : ℕ → List ℤ
unfolding replicate set_at
mask_table index = set_at index (pos 0) (replicate 256 (pos 255))

-- The check of `grow`: an `int` that is no `bool` and not negative. The default is 0.
unfoldable pub grow_of : Option Json → Result RunError ℕ
grow_of none = ok 0
grow_of (some (int false n)) = ok n
grow_of (some (int true zero)) = ok 0
grow_of (some _) = err (module_error "grow must be a non-negative integer")

unfoldable pub grow_param : Fields → Result RunError ℕ
unfolding grow_of
grow_param params = grow_of (field? "grow" params)

module _ (py : Platform) where
  -- `PosterizeModule.run`, with the decoded image: an explicit palette, or a number of colours.
  unfoldable pub posterize_image : py.Image → Fields → Option Json → Result RunError Results
  unfolding int_param encode
  posterize_image image params (some raw) = do
    palette ← validate_palette raw
    mapped ← map_to_palette py image palette
    single "image" (encode py mapped)
  posterize_image image params none = do
    colors ← int_param py params "colors" (pos 8)
    raise_if (not (leb_ℤ (pos 2) colors && leb_ℤ colors (pos 256)))
        (module_error "colors must be in [2, 256]")
    quantized ← py.quantize image colors
    single "image" (encode py quantized)

  -- `PosterizeModule.run`
  unfoldable pub posterize_run : Dict String Bytes → Fields → Bool → Result RunError Results
  unfolding flat_input posterize_image
  posterize_run inputs params draft = do
    raise_if (is_some (field? "palette" params) && is_some (field? "colors" params))
        (module_error "palette and colors are mutually exclusive; give one, not both")
    image ← flat_input py inputs "RGB"
    posterize_image image params (field? "palette" params)

  -- `ColorMaskModule.run`
  unfoldable pub colormask_run : Dict String Bytes → Fields → Bool → Result RunError Results
  unfolding int_param decode encode mask_table grow_param
  colormask_run inputs params draft = do
    index ← int_param py params "index" (pos 0)
    content ← input inputs "image"
    image ← decode py content
    raise_if (not (py.mode image == "P"))
        (module_error "colormask needs a palette-mode image (the output of image.posterize)")
    raise_if (not (leb_ℤ (pos 0) index && ltb_ℤ index (pos 256)))
        (module_error "index must be in [0, 256)")
    mask ← py.point_mode image (mask_table (pos_part index)) "L"
    grow ← grow_param params
    grown ← if grow == 0 then ok mask else py.min_filter mask (pos (2 * grow + 1))
    single "mask" (encode py grown)

  abbrev pub posterize_module : Module
  posterize_module = record {
    manifest =
        single_image_manifest "image.posterize"
          "Quantize to N flat colors (palette-mode PNG output)";
    run = posterize_run;
  }

  abbrev pub colormask_module : Module
  colormask_module = record {
    manifest =
        record (single_image_manifest "image.colormask"
          "Binary mask of one palette index of a posterized image") {
            outputs = record { name = "mask"; type = raster_png } ∷ [];
          };
    run = colormask_run;
  }

-- ===== src/Core.antt =====
-- src/formshift_server/core: what its modules share, `_decode`, `_flatten`, `_encode`, `_float_param`,
-- `_int_param` and `_single_image_manifest` of core/raster.py. Pillow, Python's floats and what it
-- reads as a number are the parameter `Platform`. An f-string of a message is kept as its first words.
pub mod Raster
pub mod Palette
pub mod Color
pub mod Svg
pub mod Potrace
pub mod Registry
pub mod Contract
use formshift_server.Prelude.{
  ℕ, zero, suc, ℤ, pos, negsuc, String, Bool, true, false, not, ◌&&◌, ◌||◌, Option, none, some,
  List, [], ◌∷◌, ◌==◌, string_eq, elem, Result, ok, err, ◌>>=◌, ◌>>◌, raise_if, if◌then◌else◌,
}
use formshift_server.Prelude.Dict
use formshift_server.Prelude.Dict.{Dict}
use formshift_server.Json.{Json, null, bool, int, float, str, arr, obj, Fields, field?, Bytes}
use formshift_server.Modules.{
  PortSpec, ModuleManifest, ModuleResult, RunError, module_error, other_error,
}

-- What `int(value)` and `float(value)` raise: a `TypeError` or `ValueError`, or another exception.
pub data ConversionError : Type 0 where
  type_or_value : ConversionError
  other_conversion : String → ConversionError

-- The libraries that the core modules call. `open_image` is `none` where Pillow raises, and the
-- other calls of Pillow may raise what they like.
pub record Platform : Type 1 where
  pub Float : Type 0
  pub Image : Type 0
  pub literal : String → Float
  pub of_int : ℤ → Float
  pub minus : Float → Float → Float
  pub plus : Float → Float → Float
  pub times : Float → Float → Float
  pub divided : Float → Float → Float
  pub power : Float → Float → Float
  pub less : Float → Float → Bool
  pub at_most : Float → Float → Bool
  pub round : Float → Result RunError ℤ
  pub text_to_int : String → Result ConversionError ℤ
  pub float_to_int : String → Result ConversionError ℤ
  pub to_float : Json → Result ConversionError Float
  pub open_image : Bytes → Option Image
  pub width : Image → ℕ
  pub height : Image → ℕ
  pub mode : Image → String
  pub bands : Image → List String
  pub has_transparency : Image → Bool
  pub new_white : (mode : String) (width height : ℕ) → Image
  pub alpha_composite : Image → Image → Result RunError Image
  pub convert : Image → (mode : String) → Result RunError Image
  pub save : Image → (format : String) → Result RunError Bytes
  pub crop : Image → (left upper right lower : ℤ) → Result RunError Image
  pub rotate_on_white : Image → Float → Result RunError Image
  pub point : Image → (table : List ℤ) → Result RunError Image
  pub point_mode : Image → (table : List ℤ) → (mode : String) → Result RunError Image
  pub invert : Image → Result RunError Image
  pub contain : Image → (width height : ℤ) → Result RunError Image
  pub quantize : Image → (colors : ℤ) → Result RunError Image
  pub min_filter : Image → (size : ℤ) → Result RunError Image
  pub pixels : Image → List (ℕ × (ℕ × ℕ))
  pub rgb_to_lab : Float × Float × Float → Float × Float × Float
  pub argmin : List Float → ℕ
  pub from_indices : List ℕ → (height width : ℕ) → Result RunError Image
  pub put_palette : Image → List ℕ → Result RunError Image

abbrev pub raster_png : String
raster_png = "raster/png"

abbrev pub Results : Type 0
Results = Dict String ModuleResult

-- `inputs[name]`
abbrev pub input : Dict String Bytes → String → Result RunError Bytes
input inputs name = elim (Dict.get name inputs) [
  | none ↦ err (other_error "KeyError")
  | some content ↦ ok content
]

-- `{port: result}`
abbrev pub single : String → Result RunError ModuleResult → Result RunError Results
single port result = result >>= λ r. ok ((port, r) ∷ [])

-- `except (TypeError, ValueError)`, which lets other exceptions through.
abbrev pub or_invalid {ℓ} : {A : Type ℓ} → Result ConversionError A → Result RunError A
or_invalid (ok value) = ok value
or_invalid (err type_or_value) = err (module_error "invalid")
or_invalid (err (other_conversion raised)) = err (other_error raised)

-- `_single_image_manifest`
abbrev pub single_image_manifest : (name description : String) → ModuleManifest
single_image_manifest name description = record {
  name = name;
  version = "1.0";
  description = description;
  inputs = record { name = "image"; type = raster_png } ∷ [];
  outputs = record { name = "image"; type = raster_png } ∷ [];
  isolation = "core";
}

module _ (py : Platform) where
  -- `int(value)` of a value that JSON can hold.
  unfoldable pub to_int : Json → Result ConversionError ℤ
  to_int null = err type_or_value
  to_int (bool b) = ok (if b then pos 1 else pos 0)
  to_int (int false n) = ok (pos n)
  to_int (int true zero) = ok (pos 0)
  to_int (int true (suc n)) = ok (negsuc n)
  to_int (float text) = py.float_to_int text
  to_int (str text) = py.text_to_int text
  to_int (arr xs) = err type_or_value
  to_int (obj fs) = err type_or_value

  -- `_int_param`
  unfoldable pub int_param : Fields → String → ℤ → Result RunError ℤ
  unfolding to_int
  int_param params name default = elim (field? name params) [
    | none ↦ ok default
    | some value ↦ or_invalid (to_int value)
  ]

  -- `_float_param`
  unfoldable pub float_param : Fields → String → py.Float → Result RunError py.Float
  float_param params name default = elim (field? name params) [
    | none ↦ ok default
    | some value ↦ or_invalid (py.to_float value)
  ]

  -- `_decode`
  unfoldable pub decode : Bytes → Result RunError py.Image
  decode content = elim (py.open_image content) [
    | none ↦ err (module_error "could not decode PNG input")
    | some image ↦ ok image
  ]

  -- `_flatten`
  unfoldable pub flatten : py.Image → Result RunError py.Image
  flatten image =
      if elem "A" (py.bands image) || ((py.mode image == "P") && py.has_transparency image)
      then (do
        rgba ← py.convert image "RGBA"
        py.alpha_composite (py.new_white "RGBA" (py.width image) (py.height image)) rgba)
      else ok image

  -- `_encode`
  unfoldable pub encode : py.Image → Result RunError ModuleResult
  encode image = do
    content ← py.save image "PNG"
    ok (record { type = raster_png; content = content })

  -- `_flatten(_decode(inputs[name])).convert(mode)`
  unfoldable pub flat_input : Dict String Bytes → String → Result RunError py.Image
  unfolding decode flatten
  flat_input inputs mode = do
    content ← input inputs "image"
    image ← decode content
    flat ← flatten image
    py.convert flat mode

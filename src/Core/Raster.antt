-- ===== src/Core/Raster.antt =====
-- The modules of src/formshift_server/core/raster.py.
pub mod Bounds
pub mod Draft
use formshift_server.Prelude.{
  ℕ, zero, suc, ◌+◌, ℤ, pos, ltb_ℤ, leb_ℤ, ◌+ℤ◌, ◌-ℤ◌, String, Bool, true, false, not, ◌&&◌, ◌||◌,
  List, [], ◌∷◌, ◌++◌, map, leb, max, Result, ok, err, ◌>>=◌, ◌>>◌, raise_if, if◌then◌else◌,
}
use formshift_server.Prelude.Dict.{Dict}
use formshift_server.Json.{Fields, Bytes}
use formshift_server.Modules.{Module, ModuleResult, RunError, module_error}
use formshift_server.Core.{
  Platform, Results, raster_png, input, single, single_image_manifest, int_param, float_param,
  decode, encode, flat_input,
}

-- `range(n)`, in the order of the numbers from `start` on.
unfoldable pub range_from : (start n : ℕ) → List ℕ
range_from start zero = []
range_from start (suc n) = start ∷ range_from (start + 1) n

module _ (py : Platform) where
  -- Whether a rectangle leaves the image.
  unfoldable pub exceeds : py.Image → (x y width height : ℤ) → Bool
  exceeds image x y width height =
      ltb_ℤ x (pos 0)
      || (ltb_ℤ y (pos 0)
          || (ltb_ℤ (pos (py.width image)) (x +ℤ width)
              || ltb_ℤ (pos (py.height image)) (y +ℤ height)))

  -- `CropModule.run`, from its checks of the rectangle on.
  unfoldable pub crop_image : py.Image → (x y width height : ℤ) → Result RunError Results
  unfolding exceeds encode
  crop_image image x y width height = do
    raise_if (leb_ℤ width (pos 0) || leb_ℤ height (pos 0))
        (module_error "crop size must be positive")
    raise_if (exceeds image x y width height) (module_error "crop rectangle exceeds image bounds")
    cropped ← py.crop image x y (x +ℤ width) (y +ℤ height)
    single "image" (encode py cropped)

  -- `CropModule.run`
  unfoldable pub crop_run : Dict String Bytes → Fields → Bool → Result RunError Results
  unfolding int_param decode crop_image
  crop_run inputs params draft = do
    content ← input inputs "image"
    image ← decode py content
    x ← int_param py params "x" (pos 0)
    y ← int_param py params "y" (pos 0)
    width ← int_param py params "width" (pos (py.width image) -ℤ x)
    height ← int_param py params "height" (pos (py.height image) -ℤ y)
    crop_image image x y width height

  -- `RotateModule.run`
  unfoldable pub rotate_run : Dict String Bytes → Fields → Bool → Result RunError Results
  unfolding float_param flat_input encode
  rotate_run inputs params draft = do
    image ← flat_input py inputs "RGB"
    angle ← float_param py params "angle" (py.literal "0.0")
    rotated ← py.rotate_on_white image angle
    single "image" (encode py rotated)

  -- `round` of every entry of a table.
  unfoldable pub round_all : List py.Float → Result RunError (List ℤ)
  round_all [] = ok []
  round_all (x ∷ xs) = do first ← py.round x; rest ← round_all xs; ok (first ∷ rest)

  -- `max(0.0, min(1.0, x))`, where the first of two equals is taken.
  unfoldable pub clamp : py.Float → py.Float
  clamp x =
      let low = if py.less x (py.literal "1.0") then x else py.literal "1.0" in
      if py.less (py.literal "0.0") low then low else py.literal "0.0"

  -- The entry of the table of levels at `v`, before it is rounded.
  unfoldable pub level_at : (black white : ℤ) → py.Float → ℕ → py.Float
  unfolding clamp
  level_at black white gamma v =
      let scale = py.divided (py.literal "255.0") (py.of_int (white -ℤ black)) in
      let linear = py.divided (py.times (py.of_int (pos v -ℤ black)) scale) (py.literal "255.0") in
      py.times (py.literal "255.0") (py.power (clamp linear) (py.divided (py.literal "1.0") gamma))

  -- `LevelsModule.run`
  unfoldable pub levels_run : Dict String Bytes → Fields → Bool → Result RunError Results
  unfolding int_param float_param flat_input encode level_at round_all range_from
  levels_run inputs params draft = do
    image ← flat_input py inputs "RGB"
    black ← int_param py params "black" (pos 0)
    white ← int_param py params "white" (pos 255)
    gamma ← float_param py params "gamma" (py.literal "1.0")
    raise_if (not (leb_ℤ (pos 0) black && (ltb_ℤ black white && leb_ℤ white (pos 255))))
        (module_error "need 0 <= black < white <= 255")
    raise_if (py.at_most gamma (py.literal "0.0")) (module_error "gamma must be positive")
    table ← round_all (map (level_at black white gamma) (range_from 0 256))
    adjusted ← py.point image (table ++ (table ++ table))
    single "image" (encode py adjusted)

  -- `ThresholdModule.run`. Pillow calls the function of `point` at the 256 gray levels.
  unfoldable pub threshold_run : Dict String Bytes → Fields → Bool → Result RunError Results
  unfolding int_param flat_input encode range_from
  threshold_run inputs params draft = do
    image ← flat_input py inputs "L"
    level ← int_param py params "level" (pos 128)
    raise_if (not (leb_ℤ (pos 0) level && leb_ℤ level (pos 255)))
        (module_error "level must be in [0, 255]")
    binary ←
        py.point image
          (map (λ v. if ltb_ℤ level (pos v) then pos 255 else pos 0) (range_from 0 256))
    single "image" (encode py binary)

  -- `InvertModule.run`
  unfoldable pub invert_run : Dict String Bytes → Fields → Bool → Result RunError Results
  unfolding flat_input encode
  invert_run inputs params draft = do
    image ← flat_input py inputs "RGB"
    inverted ← py.invert image
    single "image" (encode py inverted)

  -- The bytes of the input, as the result.
  abbrev pub unchanged : Bytes → Results
  unchanged content = ("image", record { type = raster_png; content = content }) ∷ []

  -- `DownsampleModule.run`, with the decoded image and the greatest dimension asked for.
  unfoldable pub shrink : py.Image → Bytes → ℤ → Result RunError Results
  unfolding encode
  shrink image content max_dimension =
      if leb_ℤ (pos (max (py.width image) (py.height image))) max_dimension
      then ok (unchanged content)
      else (py.contain image max_dimension max_dimension >>= λ shrunk.
          single "image" (encode py shrunk))

  -- `DownsampleModule.run`
  unfoldable pub downsample_run : Dict String Bytes → Fields → Bool → Result RunError Results
  unfolding int_param decode shrink
  downsample_run inputs params false = do content ← input inputs "image"; ok (unchanged content)
  downsample_run inputs params true = do
    content ← input inputs "image"
    image ← decode py content
    max_dimension ← int_param py params "max_dimension" (pos 512)
    raise_if (leb_ℤ max_dimension (pos 0)) (module_error "max_dimension must be positive")
    shrink image content max_dimension

  -- The modules of the file.
  abbrev pub crop_module : Module
  crop_module = record {
    manifest = single_image_manifest "image.crop" "Crop to a pixel rectangle (x, y, width, height)";
    run = crop_run;
  }

  abbrev pub rotate_module : Module
  rotate_module = record {
    manifest = single_image_manifest "image.rotate" "Rotate counter-clockwise (degrees)";
    run = rotate_run;
  }

  abbrev pub levels_module : Module
  levels_module = record {
    manifest =
        single_image_manifest "image.levels" "Levels adjustment: black point, white point, gamma";
    run = levels_run;
  }

  abbrev pub threshold_module : Module
  threshold_module = record {
    manifest = single_image_manifest "image.threshold" "Binarize at a gray level (0-255)";
    run = threshold_run;
  }

  abbrev pub invert_module : Module
  invert_module = record {
    manifest = single_image_manifest "image.invert" "Invert colors (per-channel)";
    run = invert_run;
  }

  abbrev pub downsample_module : Module
  downsample_module = record {
    manifest =
        single_image_manifest "image.downsample"
          "Identity at full quality; downsample to max_dimension in draft";
    run = downsample_run;
  }

-- ===== src/Samples/Images.antt =====
-- The core modules on a small platform, at concrete images and documents. The documents are of some
-- groups under one root.
use formshift_server.Prelude.{
  ℕ, zero, suc, min, pos, String, true, false, Option, none, some, List, [], ◌∷◌, ◌≡◌, ◌⊎◌, refl,
  arith, ok, err, ok_injective, string_eq,
}
use formshift_server.Prelude.Dict
use formshift_server.Prelude.Dict.{Dict}
use formshift_server.Json.{Json, Items, Fields, Bytes, field?}
use formshift_server.Modules.{Registry, module_error, lookup_module}
use formshift_server.Core.{input, int_param, decode}
use formshift_server.Core.Raster.{rotate_module, rotate_run, crop_run, downsample_run, unchanged}
use formshift_server.Core.Raster.Bounds.{IsInside, encoded_part, crop_run-decides}
use formshift_server.Core.Raster.Draft.{IsContain, IsDraft, downsample_run-IsDraft}
use formshift_server.Core.Palette.{Rgb, validate_palette, nearest_index}
use formshift_server.Core.Palette.Accepted.{IsPalette, validate_palette-IsPalette}
use formshift_server.Core.Palette.Nearest.{IsNearest, nearest_index-IsNearest}
use formshift_server.Core.Color.{colormask_run}
use formshift_server.Core.Color.Masks.{Masked, Refused, colormask_run-decides}
use formshift_server.Core.Svg.{
  Element, element, Elements, no_elements, more, Xml, merge, svg_result,
}
use formshift_server.Core.Svg.Merging.{left_nested, right_nested, merge_run-nested}
use formshift_server.Core.Potrace.{Host, completed}
use formshift_server.Core.Registry.{default_registry}
use formshift_server.Core.Contract.Registered.{by_name, core_modules, default_registry-checks}
use formshift_server.Executor.{check_outputs}
use formshift_server.Samples.Platforms.{Picture, picture, sample, sample-IsArgmin}

-- The middle of an image of 8 by 8 pixels.
abbrev middle : Fields
middle = Fields.field "x" (Json.int false 2) (
    Fields.field "y" (Json.int false 3) (
      Fields.field "width" (Json.int false 4)
        (Fields.field "height" (Json.int false 4) Fields.end)))

abbrev square : Dict String Bytes
square = ("image", 8 ∷ 8 ∷ []) ∷ []

crop_run-decides_example :
    (IsInside sample (picture "RGB" 8 8) (pos 2) (pos 3) (pos 4) (pos 4)
      × (crop_run sample square middle false
          ≡ encoded_part sample (picture "RGB" 8 8) (pos 2) (pos 3) (pos 4) (pos 4)))
    ⊎ ((IsInside sample (picture "RGB" 8 8) (pos 2) (pos 3) (pos 4) (pos 4) → ⊥)
        × ((text : String) × (crop_run sample square middle false ≡ err (module_error text))))
unfolding decode int_param field? Dict.get
crop_run-decides_example =
    crop_run-decides sample (picture "RGB" 8 8) (pos 2) (pos 3) (pos 4) (pos 4) square middle false
      (8 ∷ 8 ∷ []) refl refl refl refl refl refl

sample-IsContain : IsContain sample
sample-IsContain image shrunk side h =
    let e : picture image.mode (min image.width side) (min image.height side) ≡ shrunk =
      ok_injective h in
    (ground (arith, e), ground (arith, e))

drafts : downsample_run sample square Fields.end true ≡ ok (unchanged sample (8 ∷ 8 ∷ []))
unfolding downsample_run field? Dict.get
drafts = refl

downsample_run-IsDraft_example :
    (downsample_run sample square Fields.end false ≡ ok (unchanged sample (8 ∷ 8 ∷ [])))
    × IsDraft sample Fields.end (8 ∷ 8 ∷ []) (unchanged sample (8 ∷ 8 ∷ []))
unfolding Dict.get
downsample_run-IsDraft_example =
    downsample_run-IsDraft sample square Fields.end (8 ∷ 8 ∷ []) (unchanged sample (8 ∷ 8 ∷ []))
      sample-IsContain refl drafts

abbrev colors : Json
colors = Json.arr (Items.cons (Json.str "#ff8000") (Items.cons (Json.str "#000000") Items.nil))

abbrev palette : List Rgb
palette = (255, (128, 0)) ∷ (0, (0, 0)) ∷ []

accepts : validate_palette colors ≡ ok palette
unfolding validate_palette
accepts = refl

validate_palette-IsPalette_example : IsPalette colors palette
validate_palette-IsPalette_example = validate_palette-IsPalette colors palette accepts

nearest_index-IsNearest_example :
    IsNearest sample palette (250, (100, 9)) (nearest_index sample palette (250, (100, 9)))
nearest_index-IsNearest_example =
    nearest_index-IsNearest sample colors palette (250, (100, 9)) accepts sample-IsArgmin

abbrev indexed : Dict String Bytes
indexed = ("image", 4 ∷ 5 ∷ 0 ∷ []) ∷ []

abbrev grown : Fields
grown = Fields.field "index" (Json.int false 7) (Fields.field "grow" (Json.int false 2) Fields.end)

-- The same image, as Pillow decodes it.
abbrev mask_image : Picture
mask_image = picture "P" 4 5

mask_index : int_param sample grown "index" (pos 0) ≡ ok (pos 7)
unfolding field? int_param
mask_index = refl

mask_given : input indexed "image" ≡ ok (4 ∷ 5 ∷ 0 ∷ [])
unfolding Dict.get
mask_given = refl

colormask_run-decides_example :
    Masked sample mask_image
      (pos 7)
      (field? "grow" grown)
      (colormask_run sample indexed grown false)
    ⊎ Refused sample mask_image
        (pos 7)
        (field? "grow" grown)
        (colormask_run sample indexed grown false)
unfolding decode
colormask_run-decides_example =
    colormask_run-decides sample indexed grown false (4 ∷ 5 ∷ 0 ∷ []) mask_image (pos 7) mask_index
      mask_given refl

abbrev group : Element
group = element "{http://www.w3.org/2000/svg}g" none none [] no_elements

abbrev groups : ℕ → Elements
groups zero = no_elements
groups (suc n) = more group (groups n)

-- A document of some groups.
abbrev drawing : ℕ → Element
drawing n = element "{http://www.w3.org/2000/svg}svg" none none [] (groups n)

abbrev count_elements : Elements → ℕ
count_elements no_elements = 0
count_elements (more child children) = suc (count_elements children)

abbrev write_drawing : Element → Bytes
write_drawing (element tag text tail attributes children) = count_elements children ∷ []

abbrev read_drawing : Bytes → Option Element
read_drawing (n ∷ []) = some (drawing n)
read_drawing _ = none

abbrev drawings : Xml
drawings = record { read = read_drawing; write = write_drawing; show = λ value. "" }

merge_run-nested_example :
    (left_nested drawings (1 ∷ []) (2 ∷ []) (1 ∷ [])
      ≡ ok (svg_result drawings (merge (drawing 1) (merge (drawing 2) (drawing 1)))))
    × (left_nested drawings (1 ∷ []) (2 ∷ []) (1 ∷ [])
        ≡ right_nested drawings (1 ∷ []) (2 ∷ []) (1 ∷ []))
unfolding merge
merge_run-nested_example =
    merge_run-nested drawings (1 ∷ []) (2 ∷ []) (1 ∷ []) (drawing 1) (drawing 2) (drawing 1) refl
      refl refl refl refl

abbrev host : Host sample
host = record {
  env = none;
  on_path = some "potrace";
  is_file = λ path. false;
  dev_path = "potrace.exe";
  show_float = λ x. "0.5";
  show_int = λ x. "2";
  run_process = λ command stdin. completed (pos 0) [];
}

-- The registry of the core modules on the sample platform.
abbrev core_registry : Registry
core_registry = by_name sample drawings host (core_modules sample drawings host)

rotates : (rotate_module sample).run square Fields.end false ≡ ok (unchanged sample (8 ∷ 8 ∷ []))
unfolding rotate_run field? Dict.get
rotates = refl

default_registry-checks_example :
    (default_registry sample drawings host ≡ ok core_registry)
    × (((rotate_module sample).manifest.name ≡ "image.rotate")
        × (check_outputs (rotate_module sample).manifest (unchanged sample (8 ∷ 8 ∷ [])) ≡ ok tt))
unfolding lookup_module Dict.get
default_registry-checks_example =
    default_registry-checks sample drawings host "image.rotate" (rotate_module sample) square
      Fields.end false (unchanged sample (8 ∷ 8 ∷ [])) refl rotates

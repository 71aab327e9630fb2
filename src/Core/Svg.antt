-- ===== src/Core/Svg.antt =====
-- `SvgColorizeModule` and `SvgMergeModule` of src/formshift_server/core/color.py. An element is the
-- one of `xml.etree.ElementTree`; reading and writing XML is the parameter `Xml`.
pub mod Merging
use formshift_server.Prelude.{
  ℕ, String, Bool, true, false, not, ◌&&◌, ◌||◌, Option, none, some, List, [], ◌∷◌, ◌==◌, nat_eq,
  string_eq, Result, ok, err, ◌>>=◌, ◌>>◌, raise_if, if◌then◌else◌,
}
use formshift_server.Prelude.Dict
use formshift_server.Prelude.Dict.{Dict}
use formshift_server.Text.{behind, text_length, all_hex}
use formshift_server.Json.{Json, str, Fields, field?, Bytes}
use formshift_server.Modules.{
  Module, ModuleManifest, PortSpec, ModuleResult, RunError, module_error,
}
use formshift_server.Core.{Results, input}

mutual
  -- An element holds its own text, and the text that follows it.
  pub data Element : Type 0 where
    element :
        (tag : String) (text tail : Option String) (attributes : Dict String String)
        → Elements
        → Element

  pub data Elements : Type 0 where
    no_elements : Elements
    more : Element → Elements → Elements

-- `read` is `none` where the bytes are not UTF-8 or not XML. `show` is `str` of a JSON value.
pub record Xml : Type 0 where
  pub read : Bytes → Option Element
  pub write : Element → Bytes
  pub show : Json → String

abbrev pub vector_svg : String
vector_svg = "vector/svg"

abbrev pub metadata_tag : String
metadata_tag = "{http://www.w3.org/2000/svg}metadata"

abbrev pub is_shape : String → Bool
is_shape tag =
    (tag == "{http://www.w3.org/2000/svg}g") || (tag == "{http://www.w3.org/2000/svg}path")

-- `#rgb` or `#rrggbb`
unfoldable pub is_fill : String → Bool
unfolding behind text_length all_hex
is_fill fill = elim (behind "#" fill) [
  | none ↦ false
  | some digits ↦ ((text_length fill == 4) || (text_length fill == 7)) && all_hex digits
]

-- `child.set("fill", fill)`, on a group or a path.
unfoldable pub fill_child : String → Element → Element
fill_child fill (element tag text tail attributes children) =
    element tag text tail (if is_shape tag then Dict.put "fill" fill attributes else attributes)
      children

unfoldable pub fill_children : String → Elements → Elements
unfolding fill_child
fill_children fill no_elements = no_elements
fill_children fill (more child children) =
    more (fill_child fill child) (fill_children fill children)

-- The tree after the loop of `SvgColorizeModule.run`.
unfoldable pub colorize : String → Element → Element
unfolding fill_children
colorize fill (element tag text tail attributes children) =
    element tag text tail attributes (fill_children fill children)

-- `under.append(child)`
unfoldable pub append_child : Elements → Element → Elements
append_child no_elements child = more child no_elements
append_child (more c children) child = more c (append_child children child)

abbrev pub tag_of : Element → String
tag_of (element tag text tail attributes children) = tag

-- The loop of `SvgMergeModule.run`.
unfoldable pub stack : Elements → Elements → Elements
unfolding append_child
stack under no_elements = under
stack under (more child over) =
    stack (if tag_of child == metadata_tag then under else append_child under child) over

unfoldable pub merge : Element → Element → Element
unfolding stack
merge (element tag text tail attributes under) (element _ _ _ _ over) =
    element tag text tail attributes (stack under over)

module _ (xml : Xml) where
  -- `_parse_svg`
  unfoldable pub parse_svg : Bytes → Result RunError Element
  parse_svg content = elim (xml.read content) [
    | none ↦ err (module_error "could not parse as SVG")
    | some root ↦ ok root
  ]

  -- `{"svg": ModuleResult(type=VECTOR_SVG, data=_serialize_svg(root))}`
  abbrev pub svg_result : Element → Results
  svg_result root = ("svg", record { type = vector_svg; content = xml.write root }) ∷ []

  -- `str(params.get("fill", "#000000"))`
  unfoldable pub fill_param : Fields → String
  fill_param params = elim (field? "fill" params) [
    | none ↦ "#000000"
    | some (str fill) ↦ fill
    | some value ↦ xml.show value
  ]

  -- `SvgColorizeModule.run`
  unfoldable pub colorize_run : Dict String Bytes → Fields → Bool → Result RunError Results
  unfolding fill_param is_fill parse_svg colorize
  colorize_run inputs params draft = do
    let fill = fill_param params
    raise_if (not (is_fill fill)) (module_error "fill must be a #rgb or #rrggbb hex color")
    content ← input inputs "svg"
    root ← parse_svg content
    ok (svg_result (colorize fill root))

  -- `SvgMergeModule.run`
  unfoldable pub merge_run : Dict String Bytes → Fields → Bool → Result RunError Results
  unfolding parse_svg merge
  merge_run inputs params draft = do
    under_content ← input inputs "under"
    under ← parse_svg under_content
    over_content ← input inputs "over"
    over ← parse_svg over_content
    ok (svg_result (merge under over))

  abbrev pub colorize_module : Module
  colorize_module = record {
    manifest = record {
      name = "svg.colorize";
      version = "1.0";
      description = "Set fill color (hex) on an SVG's top-level groups and paths";
      inputs = record { name = "svg"; type = vector_svg } ∷ [];
      outputs = record { name = "svg"; type = vector_svg } ∷ [];
      isolation = "core";
    };
    run = colorize_run;
  }

  abbrev pub merge_module : Module
  merge_module = record {
    manifest = record {
      name = "svg.merge";
      version = "1.0";
      description = "Stack two SVGs (under, over) on the under-canvas";
      inputs =
          record { name = "under"; type = vector_svg }
          ∷ record { name = "over"; type = vector_svg }
          ∷ [];
      outputs = record { name = "svg"; type = vector_svg } ∷ [];
      isolation = "core";
    };
    run = merge_run;
  }

-- ===== src/Extensions/Manifest.antt =====
-- `parse_extension_manifest` and `_ports` of src/formshift_server/extensions.py, from the parsed
-- document on.
pub mod Accepted
use Prim.Native.Char.{Char, code}
use formshift_server.Prelude.{
  ℕ, zero, suc, String, Bool, true, false, not, ◌&&◌, ◌||◌, Option, none, some, List, [], ◌∷◌, ◌==◌,
  leb, string_eq, nat_eq, if◌then◌else◌, elem, Result, ok, err, ◌>>=◌, ◌>>◌, raise_if,
}
use formshift_server.Json.{
  is_truthy, Json, null, bool, int, float, str, arr, obj, Items, nil, cons, Fields, field?,
}
use formshift_server.Modules.{PortSpec, ModuleManifest}

pub record ExtensionModuleSpec : Type 0 where
  pub manifest : ModuleManifest
  pub entry : String

pub record ExtensionManifest : Type 0 where
  pub name : String
  pub version : String
  pub description : String
  pub isolation : String
  pub requirements : List String
  pub modules : List ExtensionModuleSpec

-- `isolation_not_implemented` is the `NotImplementedError`, the others are `ExtensionError`s.
pub data ManifestError : Type 0 where
  no_header : ManifestError
  invalid_name no_version bad_requirements no_modules : (extension : String) → ManifestError
  isolation_not_implemented : (extension isolation : String) → ManifestError
  not_table no_module_name : (extension : String) → ManifestError
  duplicate_module : (extension name : String) → ManifestError
  bad_entry : (extension name entry : String) → ManifestError
  no_ports bad_port : (extension name direction : String) → ManifestError

abbrev between : ℕ → ℕ → Char → Bool
between low high c = leb low (code c) && leb (code c) high

-- `a-z`, `0-9` and `A-Za-z_`
abbrev is_lower : Char → Bool
is_lower c = between 97 122 c

abbrev is_digit : Char → Bool
is_digit c = between 48 57 c

abbrev is_word : Char → Bool
is_word c = is_lower c || (between 65 90 c || (code c == 95))

-- `a-z0-9._-`
abbrev is_name_char : Char → Bool
is_name_char c =
    is_lower c || (is_digit c || ((code c == 46) || ((code c == 95) || (code c == 45))))

-- `[class]*$`: all characters in the class, up to the end or a newline at the end.
unfoldable pub all_then_end : (Char → Bool) → String → Bool
all_then_end is_in String.[] = true
all_then_end is_in (String.◌∷◌ c s) =
    let rest = all_then_end is_in s in (is_in c && rest) || (String.◌∷◌ c s == "\n")

abbrev pub starts : (Char → Bool) → (String → Bool) → String → Bool
starts is_first follows String.[] = false
starts is_first follows (String.◌∷◌ c s) = is_first c && follows s

-- `_NAME_RE.match`: `^[a-z0-9][a-z0-9._-]*$`
unfoldable pub matches_name : String → Bool
unfolding all_then_end
matches_name name = starts (λ c. is_lower c || is_digit c) (all_then_end is_name_char) name

-- `[A-Za-z0-9_.]*:` and what follows the colon.
unfoldable pub up_to_colon : (String → Bool) → String → Bool
up_to_colon follows String.[] = false
up_to_colon follows (String.◌∷◌ c s) =
    let rest = up_to_colon follows s in
    if code c == 58 then follows s else (is_word c || (is_digit c || (code c == 46))) && rest

-- `_ENTRY_RE.match`: `^[A-Za-z_][A-Za-z0-9_.]*:[A-Za-z_][A-Za-z0-9_]*$`
unfoldable pub matches_entry : String → Bool
unfolding up_to_colon all_then_end
matches_entry entry =
    starts is_word (up_to_colon (starts is_word (all_then_end (λ c. is_word c || is_digit c))))
      entry

unfoldable pub requirements_of : ManifestError → Option Json → Result ManifestError (List String)
requirements_of e none = ok []
requirements_of e (some (arr nil)) = ok []
requirements_of e (some (arr (cons (str s) values))) = do
  rest ← requirements_of e (some (arr values))
  ok (s ∷ rest)
requirements_of e (some _) = err e

abbrev pub table_of : ManifestError → Option Json → Result ManifestError Fields
table_of e (some (obj fields)) = ok fields
table_of e _ = err e

-- A list with a member.
abbrev pub filled : ManifestError → Option Json → Result ManifestError Items
filled e (some (arr (cons x xs))) = ok (cons x xs)
filled e _ = err e

abbrev pub present : ManifestError → Option Json → Result ManifestError Json
present e none = err e
present e (some value) = if is_truthy value then ok value else err e

-- `show` is `str` on a value that is no text.
module _ (show : Json → String) where
  unfoldable pub text : Json → String
  text (str s) = s
  text value = show value

  -- `str(table.get(name, default))`
  unfoldable pub text_or : String → String → Fields → String
  unfolding text
  text_or default name table = elim (field? name table) [ none ↦ default | some value ↦ text value ]

  unfoldable pub port_of : ManifestError → Json → Result ManifestError PortSpec
  unfolding text
  port_of e value = do
    port ← table_of e (some value)
    name ← present e (field? "name" port)
    type ← present e (field? "type" port)
    ok (record { name = text name; type = text type })

  unfoldable pub port_list : ManifestError → Items → Result ManifestError (List PortSpec)
  unfolding port_of
  port_list e nil = ok []
  port_list e (cons value values) =
      let rest = port_list e values in do port ← port_of e value; ports ← rest; ok (port ∷ ports)

  -- `_ports`
  unfoldable pub ports :
      Option Json → String → String → String → Result ManifestError (List PortSpec)
  unfolding port_list
  ports raw extension name direction = do
    values ← filled (no_ports extension name direction) raw
    port_list (bad_port extension name direction) values

  module _ (extension version : String) where
    -- One table of `modules`, where `seen` are the names before it.
    unfoldable pub module_spec : List String → Json → Result ManifestError ExtensionModuleSpec
    unfolding text_or ports matches_entry
    module_spec seen value = do
      raw ← table_of (not_table extension) (some value)
      let name = text_or "" "name" raw
      let entry = text_or "" "entry" raw
      raise_if (name == "") (no_module_name extension)
      raise_if (elem name seen) (duplicate_module extension name)
      raise_if (not (matches_entry entry)) (bad_entry extension name entry)
      inputs ← ports (field? "inputs" raw) extension name "input"
      outputs ← ports (field? "outputs" raw) extension name "output"
      ok (record {
        manifest = record {
          name = name;
          version = version;
          description = text_or "" "description" raw;
          inputs = inputs;
          outputs = outputs;
          isolation = "isolated";
        };
        entry = entry;
      })

    unfoldable pub module_specs :
        List String → Items → Result ManifestError (List ExtensionModuleSpec)
    unfolding module_spec
    module_specs seen nil = ok []
    module_specs seen (cons value values) = do
      spec ← module_spec seen value
      specs ← module_specs (spec.manifest.name ∷ seen) values
      ok (spec ∷ specs)

  unfoldable pub parse_extension_manifest : Fields → Result ManifestError ExtensionManifest
  unfolding text_or matches_name module_specs requirements_of
  parse_extension_manifest data' = do
    header ← table_of no_header (field? "extension" data')
    let name = text_or "" "name" header
    let version = text_or "" "version" header
    raise_if (not (matches_name name)) (invalid_name name)
    raise_if (version == "") (no_version name)
    let isolation = text_or "isolated" "isolation" header
    raise_if (not (isolation == "isolated")) (isolation_not_implemented name isolation)
    requirements ← requirements_of (bad_requirements name) (field? "requirements" header)
    values ← filled (no_modules name) (field? "modules" data')
    modules ← module_specs name version [] values
    ok (record {
      name = name;
      version = version;
      description = text_or "" "description" header;
      isolation = isolation;
      requirements = requirements;
      modules = modules;
    })

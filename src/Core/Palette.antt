-- ===== src/Core/Palette.antt =====
-- `_validate_palette` and `_map_to_palette` of src/formshift_server/core/color.py. A colour is its
-- three channels.
pub mod Accepted
pub mod Nearest
use formshift_server.Prelude.{
  ℕ, ◌+◌, ◌%◌, ◌^◌, pos, String, Bool, true, false, not, ◌&&◌, Option, none, some, List, [], ◌∷◌,
  ◌++◌, map, length, ◌==◌, leb, elem, nat_eq, pair_eq, Result, ok, err, ◌>>=◌, ◌>>◌, raise_if,
  if◌then◌else◌,
}
use formshift_server.Text.{behind, text_length, drop_chars, take_chars, all_hex, int_hex}
use formshift_server.Json.{Json, null, bool, int, float, str, arr, obj, items}
use formshift_server.Modules.{RunError, module_error}
use formshift_server.Core.{Platform}

abbrev pub Rgb : Type 0
Rgb = ℕ × (ℕ × ℕ)

-- A `#` and six hexadecimal digits.
unfoldable pub is_hex_color : String → Bool
unfolding behind text_length all_hex
is_hex_color entry = elim (behind "#" entry) [
  | none ↦ false
  | some digits ↦ (text_length entry == 7) && all_hex digits
]

unfoldable pub rgb_of : String → Rgb
unfolding int_hex take_chars drop_chars
rgb_of entry = (
  int_hex (take_chars 2 (drop_chars 1 entry)),
  (int_hex (take_chars 2 (drop_chars 3 entry)), int_hex (take_chars 2 (drop_chars 5 entry))),
)

-- The loop of `_validate_palette`.
unfoldable pub palette_entries : List Json → List Rgb → Result RunError (List Rgb)
unfolding is_hex_color rgb_of
palette_entries [] entries = ok entries
palette_entries (str entry ∷ raw) entries =
    let rgb = rgb_of entry in
    let rest = palette_entries raw (entries ++ (rgb ∷ [])) in
    do
      raise_if (not (is_hex_color entry)) (module_error "palette must be a #rrggbb hex color")
      raise_if (elem rgb entries) (module_error "palette duplicates an earlier entry")
      rest
palette_entries (_ ∷ raw) entries = err (module_error "palette must be a #rrggbb hex color")

-- `_validate_palette`
unfoldable pub validate_palette : Json → Result RunError (List Rgb)
unfolding palette_entries
validate_palette (arr raw) = do
  raise_if (not (leb 2 (length (items raw)) && leb (length (items raw)) 256))
      (module_error "palette length must be in [2, 256]")
  palette_entries (items raw) []
validate_palette _ = err (module_error "palette must be a list of #rrggbb strings")

-- `[channel for entry in palette for channel in entry]`
unfoldable pub channels : List Rgb → List ℕ
channels [] = []
channels ((r, (g, b)) ∷ palette) = r ∷ g ∷ b ∷ channels palette

module _ (py : Platform) where
  -- A colour in CIELAB.
  unfoldable pub lab : Rgb → py.Float × py.Float × py.Float
  lab (r, (g, b)) = py.rgb_to_lab (
    py.divided (py.of_int (pos r)) (py.literal "255.0"),
    py.divided (py.of_int (pos g)) (py.literal "255.0"),
    py.divided (py.of_int (pos b)) (py.literal "255.0"),
  )

  abbrev pub squared : py.Float → py.Float → py.Float
  squared x y = let d = py.minus x y in py.times d d

  -- The squared distance of two colours.
  unfoldable pub distance : Rgb → Rgb → py.Float
  unfolding lab
  distance p q =
      let x = lab p in
      let y = lab q in py.plus (py.plus (squared x.0 y.0) (squared x.1 y.1)) (squared x.2 y.2)

  -- The index that a pixel gets: `argmin`, as an 8-bit number.
  unfoldable pub nearest_index : List Rgb → Rgb → ℕ
  nearest_index palette pixel = py.argmin (map (distance pixel) palette) % 2 ^ 8

  -- `_map_to_palette`
  unfoldable pub map_to_palette : py.Image → List Rgb → Result RunError py.Image
  unfolding nearest_index channels
  map_to_palette image palette = do
    let indices = map (nearest_index palette) (py.pixels image)
    output ← py.from_indices indices (py.height image) (py.width image)
    py.put_palette output (channels palette)

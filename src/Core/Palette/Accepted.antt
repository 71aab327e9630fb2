-- ===== src/Core/Palette/Accepted.antt =====
-- Palettes that `_validate_palette` (src/formshift_server/core/color.py) accepts.
use formshift_server.Prelude.{
  ℕ, zero, suc, ◌≤◌, ◌<◌, String, true, false, not, ◌&&◌, List, [], ◌∷◌, ◌++◌, map, length, ap, sym,
  ◌∙◌, All-append, pair_beq_iff, ok_injective, ◌≡◌, ◌≢◌, refl, leb, elem, nat_eq, pair_eq, arith,
  All, Distinct, passed, >>=-eq-ok, ok, raise_if,
}
use Prim.Native.String.{◌∷◌}
use formshift_server.Text.{
  behind, drop_chars, take_chars, all_hex, int_hex, hex_from, is_hex_digit, hex_digit,
}
use Prim.Native.Char.{Char}
use formshift_server.Json.{Json, Items, items}
use formshift_server.Core.Palette.{Rgb, is_hex_color, rgb_of, palette_entries, validate_palette}

hex_digit-lt : (c : Char) → is_hex_digit c ≡ true → hex_digit c < 16
hex_digit-lt c h = ground arith

-- Two hexadecimal digits are a number of 8 bits.
hex_pair-lt : (s : String) → all_hex s ≡ true → int_hex (take_chars 2 s) < 256
unfolding all_hex int_hex hex_from take_chars
hex_pair-lt String.[] h = ground arith
hex_pair-lt (c ∷ String.[]) h = ground (arith, hex_digit-lt c)
hex_pair-lt (c ∷ (d ∷ s)) h = ground (arith, hex_digit-lt c, hex_digit-lt d)

all_hex-drop : (n : ℕ) (s : String) → all_hex s ≡ true → all_hex (drop_chars n s) ≡ true
unfolding all_hex drop_chars
all_hex-drop zero s h = h
all_hex-drop (suc n) String.[] h = h
all_hex-drop (suc n) (c ∷ s) h = all_hex-drop n s (ground arith)

-- Three channels of 8 bits.
abbrev pub IsColor : Rgb → Type 0
IsColor (r, (g, b)) = (r < 256) × (g < 256) × (b < 256)

all_hex-later :
    (n : ℕ) (entry : String) → is_hex_color entry ≡ true → all_hex (drop_chars (suc n) entry) ≡ true
unfolding is_hex_color behind drop_chars
all_hex-later n String.[] h = absurd (ground arith)
all_hex-later n (c ∷ s) h = all_hex-drop n s (ground arith)

rgb_of-IsColor : (entry : String) → is_hex_color entry ≡ true → IsColor (rgb_of entry)
unfolding rgb_of
rgb_of-IsColor entry h = (
  hex_pair-lt (drop_chars 1 entry) (all_hex-later 0 entry h),
  hex_pair-lt (drop_chars 3 entry) (all_hex-later 2 entry h),
  hex_pair-lt (drop_chars 5 entry) (all_hex-later 4 entry h),
)

-- What the loop leaves: the colours of the texts, in their order, behind those it started from.
record Extends (raw : List Json) (entries palette : List Rgb) : Type 0 where
  texts : List String
  are_texts : raw ≡ map Json.str texts
  in_order : palette ≡ entries ++ map rgb_of texts
  colors : All IsColor (map rgb_of texts)
  distinct : Distinct palette

Distinct-snoc :
    (x : Rgb) (xs : List Rgb) → elem x xs ≡ false → Distinct xs → Distinct (xs ++ (x ∷ []))
Distinct-snoc x [] h d = (tt, tt)
Distinct-snoc x (y ∷ ys) h d = (
  All-append (λ z. y ≢ z) ys (x ∷ []) d.0 ((λ same. ground (arith, pair_beq_iff y x)), tt),
  Distinct-snoc x ys (ground arith) d.1,
)

append_assoc : (xs : List Rgb) (x : Rgb) (ys : List Rgb) → (xs ++ (x ∷ [])) ++ ys ≡ xs ++ (x ∷ ys)
append_assoc [] x ys = refl
append_assoc (y ∷ xs) x ys = ap (λ zs. y ∷ zs) (append_assoc xs x ys)

append_nil : (xs : List Rgb) → xs ++ [] ≡ xs
append_nil [] = refl
append_nil (x ∷ xs) = ap (λ zs. x ∷ zs) (append_nil xs)

palette_entries-Extends :
    (raw : List Json) (entries palette : List Rgb)
    → Distinct entries
    → palette_entries raw entries ≡ ok palette
    → Extends raw entries palette
unfolding palette_entries
palette_entries-Extends [] entries palette d h = record {
  texts = [];
  are_texts = refl;
  in_order = sym (ok_injective h) ∙ sym (append_nil entries);
  colors = tt;
  distinct = rw (← ok_injective h) d;
}
palette_entries-Extends (Json.str entry ∷ raw) entries palette d h =
    let (_, hex, h1) = >>=-eq-ok (raise_if (not (is_hex_color entry)) _) _ h in
    let (_, new, h2) = >>=-eq-ok (raise_if (elem (rgb_of entry) entries) _) _ h1 in
    let more =
      palette_entries-Extends raw (entries ++ (rgb_of entry ∷ [])) palette
        (Distinct-snoc (rgb_of entry) entries (passed _ _ new) d) h2 in
    record {
      texts = entry ∷ more.texts;
      are_texts = ap (λ zs. Json.str entry ∷ zs) more.are_texts;
      in_order = more.in_order ∙ append_assoc entries (rgb_of entry) (map rgb_of more.texts);
      colors = (rgb_of-IsColor entry (ground (arith, passed _ _ hex)), more.colors);
      distinct = more.distinct;
    }
palette_entries-Extends (_ ∷ raw) entries palette d h = absurd (ground arith)

length-map : (f : String → Json) (xs : List String) → length (map f xs) ≡ length xs
length-map f [] = refl
length-map f (x ∷ xs) = ap suc (length-map f xs)

-- From 2 to 256 different colours of three 8-bit channels, those of the texts in their order.
pub record IsPalette (raw : Json) (palette : List Rgb) : Type 0 where
  pub values : Items
  pub texts : List String
  pub is_list : raw ≡ Json.arr values
  pub are_texts : items values ≡ map Json.str texts
  pub in_order : palette ≡ map rgb_of texts
  pub colors : All IsColor palette
  pub distinct : Distinct palette
  pub at_least : 2 ≤ length palette
  pub at_most : length palette ≤ 256

length-texts : (xs : List String) → length (map rgb_of xs) ≡ length xs
length-texts [] = refl
length-texts (x ∷ xs) = ap suc (length-texts xs)

-- A palette that `_validate_palette` returns has from 2 to 256 different colours, each of three
-- channels below 256; they are those of the texts of the list it was given, in their order.
pub validate_palette-IsPalette :
    (raw : Json) (palette : List Rgb) → validate_palette raw ≡ ok palette → IsPalette raw palette
unfolding validate_palette
validate_palette-IsPalette (Json.arr values) palette h =
    let (_, sized, h1) =
      >>=-eq-ok
        (raise_if (not (leb 2 (length (items values)) && leb (length (items values)) 256)) _) _ h in
    let e = palette_entries-Extends (items values) [] palette tt h1 in
    let size = passed _ _ sized in
    let same : length palette ≡ length (items values) =
      ground (arith, e.in_order, e.are_texts, length-map Json.str e.texts, length-texts e.texts) in
    record {
      values = values;
      texts = e.texts;
      is_list = refl;
      are_texts = e.are_texts;
      in_order = e.in_order;
      colors = rw e.in_order e.colors;
      distinct = e.distinct;
      at_least = ground (arith, same);
      at_most = ground (arith, same);
    }
validate_palette-IsPalette _ palette h = absurd (ground arith)

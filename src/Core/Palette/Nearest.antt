-- ===== src/Core/Palette/Nearest.antt =====
-- The entries that `_map_to_palette` (src/formshift_server/core/color.py) picks for the pixels.
use formshift_server.Prelude.{
  ℕ, zero, suc, ◌+◌, ◌*◌, ◌<◌, false, some, List, [], ◌∷◌, map, length, get_elem?, ap, ◌≡◌, ◌≢◌,
  refl, arith, ok,
}
use formshift_server.Json.{Json}
use formshift_server.Core.{Platform}
use formshift_server.Core.Palette.{Rgb, channels, validate_palette, distance, nearest_index}
use formshift_server.Core.Palette.Accepted.{IsPalette, validate_palette-IsPalette}

-- `numpy.argmin` gives the position of a least value, the first of them.
pub record IsArgmin (py : Platform) : Type 0 where
  pub within : (xs : List py.Float) → xs ≢ [] → py.argmin xs < length xs
  pub least :
      (xs : List py.Float) (j : ℕ) (x y : py.Float)
      → get_elem? xs (py.argmin xs) ≡ some x
      → get_elem? xs j ≡ some y
      → py.less y x ≡ false
  pub first :
      (xs : List py.Float) (j : ℕ) (x y : py.Float)
      → get_elem? xs (py.argmin xs) ≡ some x
      → j < py.argmin xs
      → get_elem? xs j ≡ some y
      → py.at_most y x ≡ false

-- An index whose colour, in the palette as in the image's flat one, is as close to the pixel as
-- any, and closer than those before it.
pub record IsNearest (py : Platform) (palette : List Rgb) (pixel : Rgb) (index : ℕ) : Type 0 where
  pub entry : Rgb
  pub found : get_elem? palette index ≡ some entry
  pub red : get_elem? (channels palette) (index * 3) ≡ some entry.0
  pub green : get_elem? (channels palette) (index * 3 + 1) ≡ some entry.1.0
  pub blue : get_elem? (channels palette) (index * 3 + 2) ≡ some entry.1.1
  pub closest :
      (j : ℕ) (other : Rgb)
      → get_elem? palette j ≡ some other
      → py.less (distance py pixel other) (distance py pixel entry) ≡ false
  pub earliest :
      (j : ℕ) (other : Rgb)
      → j < index
      → get_elem? palette j ≡ some other
      → py.at_most (distance py pixel other) (distance py pixel entry) ≡ false

module _ {κ} {B : Type κ} (f : Rgb → B) where
  get-map :
      (xs : List Rgb) (i : ℕ) (x : Rgb)
      → get_elem? xs i ≡ some x
      → get_elem? (map f xs) i ≡ some (f x)
  get-map [] i x h = absurd (ground arith)
  get-map (y ∷ xs) zero x h = ap some (ap f (ground arith))
  get-map (y ∷ xs) (suc i) x h = get-map xs i x h

  length-map : (xs : List Rgb) → length (map f xs) ≡ length xs
  length-map [] = refl
  length-map (x ∷ xs) = ap suc (length-map xs)

get-some : (xs : List Rgb) (i : ℕ) → i < length xs → (x : Rgb) × (get_elem? xs i ≡ some x)
get-some [] i h = absurd (ground arith)
get-some (x ∷ xs) zero h = (x, refl)
get-some (x ∷ xs) (suc i) h = get-some xs i (ground arith)

channels-at :
    (palette : List Rgb) (i : ℕ) (x : Rgb)
    → get_elem? palette i ≡ some x
    → (get_elem? (channels palette) (i * 3) ≡ some x.0)
      × ((get_elem? (channels palette) (i * 3 + 1) ≡ some x.1.0)
          × (get_elem? (channels palette) (i * 3 + 2) ≡ some x.1.1))
unfolding channels
channels-at [] i x h = absurd (ground arith)
channels-at ((r, (g, b)) ∷ palette) zero x h =
    let e : (r, (g, b)) ≡ x = ground (arith, h) in rw (← e) (refl, (refl, refl))
channels-at ((r, (g, b)) ∷ palette) (suc i) x h =
    let e : suc i * 3 ≡ suc (suc (suc (i * 3))) = omega arith in
    let e1 : suc i * 3 + 1 ≡ suc (suc (suc (i * 3 + 1))) = omega arith in
    let e2 : suc i * 3 + 2 ≡ suc (suc (suc (i * 3 + 2))) = omega arith in
    let more = channels-at palette i x h in (rw e more.0, (rw e1 more.1.0, rw e2 more.1.1))

module _ (py : Platform) (raw : Json) (palette : List Rgb) (pixel : Rgb) where
  distances : List py.Float
  distances = map (distance py pixel) palette

  -- The cast to 8 bits keeps the index.
  index_lem :
      IsPalette raw palette
      → IsArgmin py
      → (nearest_index py palette pixel ≡ py.argmin distances)
        × (py.argmin distances < length palette)
  unfolding nearest_index distances
  index_lem is law =
      let size = length-map (distance py pixel) palette in
      let within : py.argmin distances < length distances =
        law.within distances (λ e. ground (arith, size, is.at_least, e)) in
      (ground (arith, within, size, is.at_most), ground (arith, within, size))

  -- With an accepted palette, every pixel gets an index whose colour, in the palette as in the
  -- flat one that the image is given, is as close to the pixel as any, and strictly closer than
  -- those before it; the cast of the index to 8 bits loses nothing.
  pub nearest_index-IsNearest :
      validate_palette raw ≡ ok palette
      → IsArgmin py
      → IsNearest py palette pixel (nearest_index py palette pixel)
  unfolding distances
  nearest_index-IsNearest h law =
      let (same, within) = index_lem (validate_palette-IsPalette raw palette h) law in
      let (entry, found) = get-some palette (py.argmin distances) within in
      let (red, (green, blue)) = channels-at palette (py.argmin distances) entry found in
      let least = get-map (distance py pixel) palette (py.argmin distances) entry found in
      rw same (record {
        entry = entry;
        found = found;
        red = red;
        green = green;
        blue = blue;
        closest = λ j other at.
            law.least distances j (distance py pixel entry) (distance py pixel other) least
              (get-map (distance py pixel) palette j other at);
        earliest = λ j other before at.
            law.first distances j (distance py pixel entry) (distance py pixel other) least before
              (get-map (distance py pixel) palette j other at);
      })

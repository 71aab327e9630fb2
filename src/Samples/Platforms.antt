-- ===== src/Samples/Platforms.antt =====
-- A small platform for the core modules: an image is its mode and its size, and a float a number.
use formshift_server.Prelude.{
  ℕ, zero, suc, ◌+◌, ◌-◌, ◌*◌, ◌<◌, min, ltb, leb, pos, pos_part, ◌-ℤ◌, String, false, Option, none,
  some, List, [], ◌∷◌, length, get_elem?, ◌≡◌, ◌≢◌, inl, inr, refl, arith, ok, err, Option-cases,
  Bool-cases, if◌then◌else◌, string_eq,
}
use formshift_server.Json.{Bytes}
use formshift_server.Core.{Platform, type_or_value}
use formshift_server.Core.Palette.Nearest.{IsArgmin}

pub record Picture : Type 0 where
  pub mode : String
  pub width : ℕ
  pub height : ℕ

abbrev pub picture : String → ℕ → ℕ → Picture
picture mode width height = record { mode = mode; width = width; height = height }

-- A width and a height, and a third number where the image has a palette.
abbrev pub read_picture : Bytes → Option Picture
read_picture (w ∷ h ∷ []) = some (picture "RGB" w h)
read_picture (w ∷ h ∷ p ∷ []) = some (picture "P" w h)
read_picture _ = none

abbrev pub first_least : List ℕ → ℕ
first_least [] = 0
first_least (x ∷ xs) =
    let rest = first_least xs in
    elim (get_elem? xs rest) [ none ↦ 0 | some y ↦ if ltb y x then suc rest else 0 ]

abbrev pub sample : Platform
sample = record {
  Float = ℕ;
  Image = Picture;
  literal = λ text. if string_eq.beq text "255.0" then 255 else 1;
  of_int = pos_part;
  minus = λ x y. (x - y) + (y - x);
  plus = λ x y. x + y;
  times = λ x y. x * y;
  divided = λ x y. x;
  power = λ x y. x;
  less = ltb;
  at_most = leb;
  round = λ x. ok (pos x);
  text_to_int = λ text. err type_or_value;
  float_to_int = λ text. err type_or_value;
  to_float = λ value. err type_or_value;
  open_image = read_picture;
  width = λ image. image.width;
  height = λ image. image.height;
  mode = λ image. image.mode;
  bands = λ image. [];
  has_transparency = λ image. false;
  new_white = picture;
  alpha_composite = λ under over. ok over;
  convert = λ image mode. ok (picture mode image.width image.height);
  save = λ image format. ok (image.width ∷ image.height ∷ []);
  crop = λ image left upper right lower.
      ok (picture image.mode (pos_part (right -ℤ left)) (pos_part (lower -ℤ upper)));
  rotate_on_white = λ image angle. ok image;
  point = λ image table. ok image;
  point_mode = λ image table mode. ok (picture mode image.width image.height);
  invert = λ image. ok image;
  contain = λ image width height.
      ok (
        picture image.mode (min image.width (pos_part width)) (min image.height (pos_part height)));
  quantize = λ image colors. ok (picture "P" image.width image.height);
  min_filter = λ image size. ok image;
  pixels = λ image. (0, (0, 0)) ∷ [];
  rgb_to_lab = λ color. color;
  argmin = first_least;
  from_indices = λ indices height width. ok (picture "P" width height);
  put_palette = λ image channels. ok image;
}

get-lt : (xs : List ℕ) (i x : ℕ) → get_elem? xs i ≡ some x → i < length xs
get-lt [] i x h = absurd (ground arith)
get-lt (y ∷ xs) zero x h = ground arith
get-lt (y ∷ xs) (suc i) x h = ground (arith, get-lt xs i x h)

no_least : (xs : List ℕ) → get_elem? xs (first_least xs) ≡ none → xs ≡ []
no_least [] h = refl
no_least (x ∷ xs) h = elim (Option-cases (get_elem? xs (first_least xs))) [
  | inl e ↦ absurd (ground (arith, e))
  | inr (y, e) ↦ elim (Bool-cases (ltb y x)) [
    | inl f ↦ absurd (ground (arith, e, f))
    | inr f ↦ absurd (ground (arith, e, f))
  ]
]

first_least-lt : (xs : List ℕ) → xs ≢ [] → first_least xs < length xs
first_least-lt xs ne = elim (Option-cases (get_elem? xs (first_least xs))) [
  | inl e ↦ absurd (ne (no_least xs e))
  | inr (y, e) ↦ get-lt xs (first_least xs) y e
]

first_least-least :
    (xs : List ℕ) (j x y : ℕ)
    → get_elem? xs (first_least xs) ≡ some x
    → get_elem? xs j ≡ some y
    → ltb y x ≡ false
first_least-least [] j x y h g = absurd (ground arith)
first_least-least (z ∷ []) zero x y h g = ground arith
first_least-least (z ∷ []) (suc j) x y h g = absurd (ground arith)
first_least-least (z ∷ v ∷ zs) zero x y h g =
    elim (Option-cases (get_elem? (v ∷ zs) (first_least (v ∷ zs)))) [
      | inl e ↦ absurd (ground (arith, no_least (v ∷ zs) e))
      | inr (w, e) ↦ elim (Bool-cases (ltb w z)) [
        | inl f ↦ ground (arith, e, f, h, g)
        | inr f ↦ ground (arith, e, f, h, g)
      ]
    ]
first_least-least (z ∷ v ∷ zs) (suc j) x y h g =
    elim (Option-cases (get_elem? (v ∷ zs) (first_least (v ∷ zs)))) [
      | inl e ↦ absurd (ground (arith, no_least (v ∷ zs) e))
      | inr (w, e) ↦
          let more : ltb y w ≡ false = first_least-least (v ∷ zs) j w y e g in
          elim (Bool-cases (ltb w z)) [
            | inl f ↦ ground (arith, e, f, h, more)
            | inr f ↦ ground (arith, e, f, h, more)
          ]
    ]

first_least-first :
    (xs : List ℕ) (j x y : ℕ)
    → get_elem? xs (first_least xs) ≡ some x
    → j < first_least xs
    → get_elem? xs j ≡ some y
    → leb y x ≡ false
first_least-first [] j x y h lt g = absurd (ground arith)
first_least-first (z ∷ zs) zero x y h lt g = elim (Option-cases (get_elem? zs (first_least zs))) [
  | inl e ↦ absurd (ground (arith, e, lt))
  | inr (w, e) ↦ elim (Bool-cases (ltb w z)) [
    | inl f ↦ ground (arith, e, f, h, g)
    | inr f ↦ absurd (ground (arith, e, f, lt))
  ]
]
first_least-first (z ∷ zs) (suc j) x y h lt g =
    elim (Option-cases (get_elem? zs (first_least zs))) [
      | inl e ↦ absurd (ground (arith, e, lt))
      | inr (w, e) ↦ elim (Bool-cases (ltb w z)) [
        | inl f ↦
            let before : j < first_least zs = ground (arith, e, f, lt) in
            let same : w ≡ x = ground (arith, e, f, h) in
            ground (arith, same, first_least-first zs j w y e before g)
        | inr f ↦ absurd (ground (arith, e, f, lt))
      ]
    ]

pub sample-IsArgmin : IsArgmin sample
sample-IsArgmin = record {
  within = first_least-lt;
  least = first_least-least;
  first = first_least-first;
}

-- ===== src/Core/Raster/Bounds.antt =====
-- What `CropModule` (src/formshift_server/core/raster.py) asks of Pillow.
use formshift_server.Prelude.{
  ℕ, ◌+◌, ◌≤◌, ◌<◌, ℤ, pos, negsuc, ltb_ℤ, leb_ℤ, ◌+ℤ◌, ◌-ℤ◌, String, Bool, false, ◌||◌, ◌≡◌, refl,
  arith, Result, ok, err, ◌>>=◌, Bool-cases, ◌⊎◌, inl, inr,
}
use formshift_server.Prelude.Dict.{Dict}
use formshift_server.Json.{Fields, Bytes}
use formshift_server.Modules.{RunError, module_error}
use formshift_server.Core.{Platform, Results, input, single, int_param, decode, encode}
use formshift_server.Core.Raster.{exceeds, crop_image, crop_run}

pub of_nonneg : (x : ℤ) → ltb_ℤ x (pos 0) ≡ false → (n : ℕ) × (x ≡ pos n)
of_nonneg (pos n) h = (n, refl)
of_nonneg (negsuc n) h = absurd (ground arith)

pub of_positive : (x : ℤ) → leb_ℤ x (pos 0) ≡ false → (n : ℕ) × (x ≡ pos n) × (0 < n)
of_positive (pos n) h = (n, refl, ground arith)
of_positive (negsuc n) h = absurd (ground arith)

pub pos-plus : (m n : ℕ) → pos m +ℤ pos n ≡ pos (m + n)
unfolding ◌+ℤ◌
pos-plus m n = ground arith

-- A rectangle of at least one pixel, inside the image.
pub record IsInside (py : Platform) (image : py.Image) (x y width height : ℤ) : Type 0 where
  pub left : ℕ
  pub upper : ℕ
  pub columns : ℕ
  pub rows : ℕ
  pub is_left : x ≡ pos left
  pub is_upper : y ≡ pos upper
  pub is_columns : width ≡ pos columns
  pub is_rows : height ≡ pos rows
  pub some_columns : 0 < columns
  pub some_rows : 0 < rows
  pub inside_columns : left + columns ≤ py.width image
  pub inside_rows : upper + rows ≤ py.height image

module _ (py : Platform) (image : py.Image) (x y width height : ℤ) where
  inside :
      leb_ℤ width (pos 0) || leb_ℤ height (pos 0) ≡ false
      → exceeds py image x y width height ≡ false
      → IsInside py image x y width height
  unfolding exceeds
  inside some_size within =
      let (a, is_a) = of_nonneg x (ground arith) in
      let (b, is_b) = of_nonneg y (ground arith) in
      let (w, is_w, w_pos) = of_positive width (ground arith) in
      let (v, is_v, v_pos) = of_positive height (ground arith) in
      record {
        left = a;
        upper = b;
        columns = w;
        rows = v;
        is_left = is_a;
        is_upper = is_b;
        is_columns = is_w;
        is_rows = is_v;
        some_columns = w_pos;
        some_rows = v_pos;
        inside_columns = ground (arith, within, is_a, is_w, pos-plus a w);
        inside_rows = ground (arith, within, is_b, is_v, pos-plus b v);
      }

  inside_back :
      IsInside py image x y width height
      → (leb_ℤ width (pos 0) || leb_ℤ height (pos 0) ≡ false)
        × (exceeds py image x y width height ≡ false)
  unfolding exceeds
  inside_back i = (
    ground (arith, i.is_columns, i.is_rows, i.some_columns, i.some_rows),
    ground (
      arith,
      i.is_left,
      i.is_upper,
      i.is_columns,
      i.is_rows,
      i.inside_columns,
      i.inside_rows,
      pos-plus i.left i.columns,
      pos-plus i.upper i.rows,
    ),
  )

  -- What `CropModule` returns for an image and a rectangle.
  abbrev pub encoded_part : Result RunError Results
  encoded_part =
      py.crop image x y (x +ℤ width) (y +ℤ height) >>= λ cropped. single "image" (encode py cropped)

  Decided : Result RunError Results → Type 0
  Decided result =
      (IsInside py image x y width height × (result ≡ encoded_part))
      ⊎ ((IsInside py image x y width height → ⊥)
          × ((text : String) × (result ≡ err (module_error text))))

  crop_image-Decided : Decided (crop_image py image x y width height)
  unfolding crop_image Decided
  crop_image-Decided = elim (Bool-cases (leb_ℤ width (pos 0) || leb_ℤ height (pos 0))) [
    | inl e ↦ inr (λ i. ground (arith, e, inside_back i), ("crop size must be positive", rw e refl))
    | inr e ↦ elim (Bool-cases (exceeds py image x y width height)) [
      | inl f ↦ inr (
        λ i. ground (arith, f, inside_back i),
        ("crop rectangle exceeds image bounds", rw (e, f) refl),
      )
      | inr f ↦ inl (inside e f, rw (e, f) refl)
    ]
  ]

  -- Where the input decodes and the four parameters are numbers, `CropModule` hands the rectangle
  -- to Pillow exactly where it has at least one pixel and lies inside the image: there the result
  -- is the encoded part of the image, and elsewhere a `ModuleError`.
  pub crop_run-decides :
      (inputs : Dict String Bytes) (params : Fields) (draft : Bool) (content : Bytes)
      → input inputs "image" ≡ ok content
      → decode py content ≡ ok image
      → int_param py params "x" (pos 0) ≡ ok x
      → int_param py params "y" (pos 0) ≡ ok y
      → int_param py params "width" (pos (py.width image) -ℤ x) ≡ ok width
      → int_param py params "height" (pos (py.height image) -ℤ y) ≡ ok height
      → (IsInside py image x y width height × (crop_run py inputs params draft ≡ encoded_part))
        ⊎ ((IsInside py image x y width height → ⊥)
            × ((text : String) × (crop_run py inputs params draft ≡ err (module_error text))))
  unfolding crop_run Decided
  crop_run-decides inputs params draft content given decoded is_x is_y is_width is_height =
      rw (given, decoded, is_x, is_y, is_width, is_height) crop_image-Decided

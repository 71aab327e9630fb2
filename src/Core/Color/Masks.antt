-- ===== src/Core/Color/Masks.antt =====
-- The tables of `ColorMaskModule` (src/formshift_server/core/color.py).
use formshift_server.Prelude.{
  ℕ, zero, suc, ◌+◌, ◌*◌, ◌<◌, ◌==◌, nat_eq, string_eq, eq_iff, ℤ, pos, negsuc, leb_ℤ, ltb_ℤ,
  Option, none, String, Bool, true, false, ◌&&◌, List, [], ◌∷◌, get_elem?, some, ◌≡◌, ◌≢◌, refl, ap,
  ◌∙◌, arith, ok, err, Result, ◌>>=◌, Result-cases, Bool-cases, ◌⊎◌, inl, inr, if◌then◌else◌,
}
use formshift_server.Prelude.Dict.{Dict}
use formshift_server.Json.{Json, null, bool, int, float, str, arr, obj, field?, Fields, Bytes}
use formshift_server.Modules.{RunError, module_error}
use formshift_server.Core.{Platform, Results, input, single, int_param, decode, encode}
use formshift_server.Core.Color.{replicate, set_at, mask_table, grow_of, grow_param, colormask_run}

get-replicate : (n : ℕ) (value : ℤ) (i : ℕ) → i < n → get_elem? (replicate n value) i ≡ some value
unfolding replicate
get-replicate zero value i h = absurd (ground arith)
get-replicate (suc n) value zero h = refl
get-replicate (suc n) value (suc i) h = get-replicate n value i (ground arith)

get-set_at :
    (k : ℕ) (value : ℤ) (xs : List ℤ) (i : ℕ) (x : ℤ)
    → get_elem? xs i ≡ some x
    → get_elem? (set_at k value xs) i ≡ some (if i == k then value else x)
unfolding set_at
get-set_at k value [] i x h = absurd (ground arith)
get-set_at zero value (y ∷ xs) zero x h = refl
get-set_at zero value (y ∷ xs) (suc i) x h = ground (arith, h)
get-set_at (suc k) value (y ∷ xs) zero x h = ground (arith, h)
get-set_at (suc k) value (y ∷ xs) (suc i) x h = ground (arith, get-set_at k value xs i x h)

-- A table of which the entries below `n` are white, but for a black one.
pub record Selects (n index : ℕ) (table : List ℤ) : Type 0 where
  pub black : get_elem? table index ≡ some (pos 0)
  pub white : (i : ℕ) → i < n → i ≢ index → get_elem? table i ≡ some (pos 255)

set_at-Selects : (n k : ℕ) → k < n → Selects n k (set_at k (pos 0) (replicate n (pos 255)))
set_at-Selects n k h = record {
  black = ground (
    arith,
    get-set_at k (pos 0) (replicate n (pos 255)) k (pos 255) (get-replicate n (pos 255) k h),
  );
  white = λ i lt ne. ground (
    arith,
    ne,
    get-set_at k (pos 0) (replicate n (pos 255)) i (pos 255) (get-replicate n (pos 255) i lt),
  );
}

-- The growth that a document asks for: none by default, and else a number that is not negative.
abbrev pub IsGrow : Option Json → ℕ → Type 0
IsGrow none n = n ≡ 0
IsGrow (some (int false m)) n = n ≡ m
IsGrow (some (int true zero)) n = n ≡ 0
IsGrow (some _) n = ⊥

abbrev DecidedGrow : Option Json → Type 0
DecidedGrow o =
    ((n : ℕ) × IsGrow o n × (grow_of o ≡ ok n))
    ⊎ (((n : ℕ) → IsGrow o n → ⊥) × ((e : RunError) × (grow_of o ≡ err e)))

grow_of-decides : (o : Option Json) → DecidedGrow o
unfolding grow_of
grow_of-decides none = inl (0, refl, refl)
grow_of-decides (some (int false n)) = inl (n, refl, refl)
grow_of-decides (some (int true zero)) = inl (0, refl, refl)
grow_of-decides (some (int true (suc n))) = inr (λ m g. g, (_, refl))
grow_of-decides (some null) = inr (λ m g. g, (_, refl))
grow_of-decides (some (bool b)) = inr (λ m g. g, (_, refl))
grow_of-decides (some (float text)) = inr (λ m g. g, (_, refl))
grow_of-decides (some (str text)) = inr (λ m g. g, (_, refl))
grow_of-decides (some (arr xs)) = inr (λ m g. g, (_, refl))
grow_of-decides (some (obj fs)) = inr (λ m g. g, (_, refl))

in_range-pos :
    (x : ℤ) → leb_ℤ (pos 0) x && ltb_ℤ x (pos 256) ≡ true → (n : ℕ) × (x ≡ pos n) × (n < 256)
in_range-pos (pos n) h = (n, refl, ground arith)
in_range-pos (negsuc n) h = absurd (ground arith)

-- The index that is asked for is an entry of the palette of a palette image, and the growth a number.
pub record CanMask (py : Platform) (image : py.Image) (index : ℤ) (asked : Option Json)
    (entry grow : ℕ) : Type 0 where
  pub is_index : index ≡ pos entry
  pub in_range : entry < 256
  pub has_palette : py.mode image ≡ "P"
  pub is_grow : IsGrow asked grow

module _ (py : Platform) where
  abbrev pub grown_by : ℕ → py.Image → Result RunError py.Image
  grown_by zero mask = ok mask
  grown_by (suc n) mask = py.min_filter mask (pos (2 * suc n + 1))

  -- What `ColorMaskModule` returns for an image, a table and a growth.
  abbrev pub encoded_mask : py.Image → List ℤ → ℕ → Result RunError Results
  encoded_mask image table grow = do
    mask ← py.point_mode image table "L"
    grown ← grown_by grow mask
    single "mask" (encode py grown)

  abbrev pub Masked : py.Image → ℤ → Option Json → Result RunError Results → Type 0
  Masked image index asked result =
      (entry : ℕ) × (grow : ℕ) × CanMask py image index asked entry grow
      × (table : List ℤ) × Selects 256 entry table
      × (result ≡ encoded_mask image table grow)

  abbrev pub Refused : py.Image → ℤ → Option Json → Result RunError Results → Type 0
  Refused image index asked result =
      ((entry grow : ℕ) → CanMask py image index asked entry grow → ⊥)
      × ((e : RunError) × (result ≡ err e))

  filtered-eq :
      (n : ℕ) (mask : py.Image)
      → (if n == 0 then ok mask else py.min_filter mask (pos (2 * n + 1))) ≡ grown_by n mask
  filtered-eq zero mask = refl
  filtered-eq (suc n) mask = ground arith

  -- The part of the run that follows the checks, by what the growth is.
  finish : py.Image → ℕ → Result RunError ℕ → Result RunError Results
  finish image entry asked = do
    mask ← py.point_mode image (mask_table entry) "L"
    grow ← asked
    grown ← if grow == 0 then ok mask else py.min_filter mask (pos (2 * grow + 1))
    single "mask" (encode py grown)

  finish-ok :
      (image : py.Image) (entry n : ℕ)
      → finish image entry (ok n) ≡ encoded_mask image (mask_table entry) n
  unfolding finish
  finish-ok image entry n = elim (Result-cases (py.point_mode image (mask_table entry) "L")) [
    | inl (mask, e) ↦ rw (e, filtered-eq n mask) refl
    | inr (e, h) ↦ rw h refl
  ]

  finish-err :
      (image : py.Image) (entry : ℕ) (error : RunError)
      → (e : RunError) × (finish image entry (err error) ≡ err e)
  unfolding finish
  finish-err image entry error = elim (Result-cases (py.point_mode image (mask_table entry) "L")) [
    | inl (mask, e) ↦ (error, rw e refl)
    | inr (e, h) ↦ (e, rw h refl)
  ]

  -- Where the input decodes and the index is a number, `ColorMaskModule` makes a mask exactly where
  -- the image has a palette, the index is below 256 and `grow` is a number that is not negative, or
  -- is not given: there the result is the encoded image that Pillow makes of a table in which that
  -- index is black and the 255 others white, grown by an odd filter, of one more than twice `grow`,
  -- unless that is 0 or not given; and elsewhere it is an exception.
  pub colormask_run-decides :
      (inputs : Dict String Bytes) (params : Fields) (draft : Bool) (content : Bytes)
      (image : py.Image) (index : ℤ)
      → int_param py params "index" (pos 0) ≡ ok index
      → input inputs "image" ≡ ok content
      → decode py content ≡ ok image
      → Masked image index (field? "grow" params) (colormask_run py inputs params draft)
        ⊎ Refused image index (field? "grow" params) (colormask_run py inputs params draft)
  unfolding colormask_run grow_param finish mask_table
  colormask_run-decides inputs params draft content image index asked given decoded =
      elim (Bool-cases (py.mode image == "P")) [
        | inr e ↦ inr (
          λ k n c. ground (arith, e, eq_iff (py.mode image) "P", c.has_palette),
          (
            module_error "colormask needs a palette-mode image (the output of image.posterize)",
            rw (asked, given, decoded, e) refl,
          ),
        )
        | inl e ↦ elim (Bool-cases (leb_ℤ (pos 0) index && ltb_ℤ index (pos 256))) [
          | inr f ↦ inr (
            λ k n c. ground (arith, f, c.is_index, c.in_range),
            (module_error "index must be in [0, 256)", rw (asked, given, decoded, e, f) refl),
          )
          | inl f ↦
              let (k, is_k, below) = in_range-pos index f in
              let runs : colormask_run py inputs params draft
                  ≡ finish image k (grow_of (field? "grow" params)) =
                rw (asked, given, decoded, e, f, is_k) refl in
              elim (grow_of-decides (field? "grow" params)) [
                | inl (n, is_n, g) ↦ inl (
                  k,
                  n,
                  record {
                    is_index = is_k;
                    in_range = below;
                    has_palette = (eq_iff (py.mode image) "P").0 e;
                    is_grow = is_n;
                  },
                  mask_table k,
                  set_at-Selects 256 k below,
                  runs ∙ ap (finish image k) g ∙ finish-ok image k n,
                )
                | inr (none_valid, (error, g)) ↦
                    let (last, h) = finish-err image k error in
                    inr (λ m n c. none_valid n c.is_grow, (last, runs ∙ ap (finish image k) g ∙ h))
              ]
        ]
      ]

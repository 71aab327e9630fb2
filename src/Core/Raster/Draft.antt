-- ===== src/Core/Raster/Draft.antt =====
-- What `DownsampleModule` (src/formshift_server/core/raster.py) returns, in draft and at full
-- quality.
use formshift_server.Prelude.{
  ℕ, ◌≤◌, ◌<◌, max, ℤ, pos, negsuc, leb_ℤ, String, true, false, ◌≡◌, inl, inr, refl, sym, ◌∙◌,
  arith, ok, >>=-eq-ok, ok_injective, passed, Bool-cases, raise_if,
}
use formshift_server.Prelude.Dict.{Dict}
use formshift_server.Json.{Fields, Bytes}
use formshift_server.Core.{Platform, Results, input, single, int_param, decode, encode}
use formshift_server.Core.Raster.{unchanged, shrink, downsample_run}

-- `ImageOps.contain` fits an image into a box.
abbrev pub IsContain : Platform → Type 0
IsContain py =
    (image shrunk : py.Image) (side : ℕ)
    → py.contain image (pos side) (pos side) ≡ ok shrunk
    → (py.width shrunk ≤ side) × (py.height shrunk ≤ side)

-- The longest side of an image.
abbrev pub longest : (py : Platform) → py.Image → ℕ
longest py image = max (py.width image) (py.height image)

-- What the draft returns: the input's bytes where no side is longer than was asked, and else an
-- image whose sides are not, and which is smaller than the input.
pub data IsDraft (py : Platform) (params : Fields) (content : Bytes) (results : Results)
    : Type 0 where
  kept :
      (image : py.Image) (side : ℕ)
      → decode py content ≡ ok image
      → int_param py params "max_dimension" (pos 512) ≡ ok (pos side)
      → longest py image ≤ side
      → results ≡ unchanged py content
      → IsDraft py params content results
  shrunk :
      (image smaller : py.Image) (side : ℕ)
      → decode py content ≡ ok image
      → int_param py params "max_dimension" (pos 512) ≡ ok (pos side)
      → longest py smaller ≤ side
      → longest py smaller < longest py image
      → single "image" (encode py smaller) ≡ ok results
      → IsDraft py params content results

module _ (py : Platform) (inputs : Dict String Bytes) (params : Fields) (content : Bytes)
    (results : Results) where
  shrink-IsDraft :
      (image : py.Image) (m : ℤ)
      → IsContain py
      → decode py content ≡ ok image
      → int_param py params "max_dimension" (pos 512) ≡ ok m
      → leb_ℤ m (pos 0) ≡ false
      → shrink py image content m ≡ ok results
      → IsDraft py params content results
  unfolding shrink
  shrink-IsDraft image (negsuc n) fits decoded asked positive h = absurd (ground arith)
  shrink-IsDraft image (pos side) fits decoded asked positive h =
      elim (Bool-cases (leb_ℤ (pos (longest py image)) (pos side))) [
        | inl e ↦ kept image side decoded asked (ground (arith, e)) (ground (arith, e, h))
        | inr e ↦
            let long : side < longest py image = ground (arith, e) in
            let contained = rw e at h in
            let (smaller, is_smaller, encoded) =
              >>=-eq-ok (py.contain image (pos side) (pos side)) _ contained in
            let (narrow, low) = fits image smaller side is_smaller in
            shrunk image smaller side decoded asked (omega (arith, narrow, low))
              (omega (arith, narrow, low, long)) encoded
      ]

  downsample_run-drafts :
      IsContain py
      → input inputs "image" ≡ ok content
      → downsample_run py inputs params true ≡ ok results
      → IsDraft py params content results
  unfolding downsample_run
  downsample_run-drafts fits given h =
      let (other, is_other, h1) = >>=-eq-ok (input inputs "image") _ h in
      let (image, decoded, h2) = >>=-eq-ok (decode py other) _ h1 in
      let (m, asked, h3) = >>=-eq-ok (int_param py params "max_dimension" (pos 512)) _ h2 in
      let (_, positive, h4) = >>=-eq-ok (raise_if (leb_ℤ m (pos 0)) _) _ h3 in
      let same : other ≡ content = ok_injective (sym is_other ∙ given) in
      shrink-IsDraft image m fits (rw (← same) decoded) asked (passed _ _ positive) (rw (← same) h4)

  -- Given that `contain` fits an image into a box: what `DownsampleModule` returns in draft is the
  -- input's bytes where no side is longer than `max_dimension`, and else an image whose sides are
  -- not longer than that, and whose longest side is shorter than the input's; at full quality, with
  -- the same input and parameters, it returns the input's bytes.
  pub downsample_run-IsDraft :
      IsContain py
      → input inputs "image" ≡ ok content
      → downsample_run py inputs params true ≡ ok results
      → (downsample_run py inputs params false ≡ ok (unchanged py content))
        × IsDraft py params content results
  unfolding downsample_run
  downsample_run-IsDraft fits given h = (rw given refl, downsample_run-drafts fits given h)

-- ===== src/Core/Contract/Images.antt =====
-- What the raster and colour modules of src/formshift_server/core return.
use formshift_server.Core.Palette.{validate_palette, map_to_palette}
use formshift_server.Prelude.{
  is_some, max, sym, Bool-cases, ℤ, pos, pos_part, leb_ℤ, ltb_ℤ, ◌+ℤ◌, ◌-ℤ◌, ◌+◌, ◌*◌, ◌==◌, nat_eq,
  ◌++◌, map, ◌||◌, ◌&&◌, String, Bool, true, false, not, Option, none, some, refl, ok, raise_if,
  ok_injective, string_eq, inl, inr, if◌then◌else◌,
}
use formshift_server.Prelude.Dict.{Dict}
use formshift_server.Json.{Json, field?, Fields, Bytes}
use formshift_server.Core.{Platform, raster_png, input, decode, flat_input, int_param, float_param}
use formshift_server.Core.Raster.{
  unchanged, shrink, exceeds, range_from, round_all, level_at, crop_image, crop_run, rotate_run,
  levels_run, threshold_run, invert_run, downsample_run,
}
use formshift_server.Core.Color.{
  posterize_image, mask_table, grow_param, posterize_run, colormask_run,
}
use formshift_server.Core.Contract.{Returns, Returns-bind, Returns-encode}

posterize_image-Returns :
    (py : Platform) (params : Fields) (image : py.Image) (raw : Option Json)
    → Returns "image" raster_png (posterize_image py image params raw)
unfolding posterize_image
posterize_image-Returns py params image (some raw) =
    Returns-bind (validate_palette raw) _ (λ palette.
      Returns-bind (map_to_palette py image palette) _ (λ mapped. Returns-encode py "image" mapped))
posterize_image-Returns py params image none =
    Returns-bind (int_param py params "colors" (pos 8)) _ (λ colors.
      Returns-bind (raise_if (not (leb_ℤ (pos 2) colors && leb_ℤ colors (pos 256))) _) _ (λ u.
        Returns-bind (py.quantize image colors) _
          (λ quantized. Returns-encode py "image" quantized)))

unchanged-Returns :
    (py : Platform) (content : Bytes) → Returns "image" raster_png (ok (unchanged py content))
unchanged-Returns py content results e = record {
  result = record { type = raster_png; content = content };
  is_single = sym (ok_injective e);
  typed = refl;
}

shrink-Returns :
    (py : Platform) (image : py.Image) (content : Bytes) (max_dimension : ℤ)
    → Returns "image" raster_png (shrink py image content max_dimension)
unfolding shrink
shrink-Returns py image content max_dimension =
    elim (Bool-cases (leb_ℤ (pos (max (py.width image) (py.height image))) max_dimension)) [
      | inl e ↦ rw e (unchanged-Returns py content)
      | inr e ↦ rw e (
          Returns-bind (py.contain image max_dimension max_dimension) _
            (λ shrunk. Returns-encode py "image" shrunk))
    ]

downsample_run-Returns :
    (py : Platform) (inputs : Dict String Bytes) (params : Fields) (draft : Bool)
    → Returns "image" raster_png (downsample_run py inputs params draft)
unfolding downsample_run
downsample_run-Returns py inputs params false =
    Returns-bind (input inputs "image") _ (λ content. unchanged-Returns py content)
downsample_run-Returns py inputs params true = Returns-bind (input inputs "image") _ (λ content.
    Returns-bind (decode py content) _ (λ image.
      Returns-bind (int_param py params "max_dimension" (pos 512)) _ (λ max_dimension.
        Returns-bind (raise_if (leb_ℤ max_dimension (pos 0)) _) _
          (λ u. shrink-Returns py image content max_dimension))))

module _ (py : Platform) (inputs : Dict String Bytes) (params : Fields) (draft : Bool) where
  pub crop_image-Returns :
      (image : py.Image) (x y width height : ℤ)
      → Returns "image" raster_png (crop_image py image x y width height)
  unfolding crop_image
  crop_image-Returns image x y width height =
      Returns-bind (raise_if (leb_ℤ width (pos 0) || leb_ℤ height (pos 0)) _) _ (λ u.
        Returns-bind (raise_if (exceeds py image x y width height) _) _ (λ v.
          Returns-bind (py.crop image x y (x +ℤ width) (y +ℤ height)) _
            (λ cropped. Returns-encode py "image" cropped)))

  pub crop-Returns : Returns "image" raster_png (crop_run py inputs params draft)
  unfolding crop_run
  crop-Returns = Returns-bind (input inputs "image") _ (λ content.
      Returns-bind (decode py content) _ (λ image.
        Returns-bind (int_param py params "x" (pos 0)) _ (λ x.
          Returns-bind (int_param py params "y" (pos 0)) _ (λ y.
            Returns-bind (int_param py params "width" (pos (py.width image) -ℤ x)) _ (λ width.
              Returns-bind (int_param py params "height" (pos (py.height image) -ℤ y)) _
                (λ height. crop_image-Returns image x y width height))))))

  pub rotate-Returns : Returns "image" raster_png (rotate_run py inputs params draft)
  unfolding rotate_run
  rotate-Returns = Returns-bind (flat_input py inputs "RGB") _ (λ image.
      Returns-bind (float_param py params "angle" (py.literal "0.0")) _ (λ angle.
        Returns-bind (py.rotate_on_white image angle) _
          (λ rotated. Returns-encode py "image" rotated)))

  pub invert-Returns : Returns "image" raster_png (invert_run py inputs params draft)
  unfolding invert_run
  invert-Returns =
      Returns-bind (flat_input py inputs "RGB") _
        (λ image. Returns-bind (py.invert image) _ (λ inverted. Returns-encode py "image" inverted))

  pub threshold-Returns : Returns "image" raster_png (threshold_run py inputs params draft)
  unfolding threshold_run
  threshold-Returns = Returns-bind (flat_input py inputs "L") _ (λ image.
      Returns-bind (int_param py params "level" (pos 128)) _ (λ level.
        Returns-bind (raise_if (not (leb_ℤ (pos 0) level && leb_ℤ level (pos 255))) _) _ (λ u.
          Returns-bind
            (py.point image
              (map (λ v. if ltb_ℤ level (pos v) then pos 255 else pos 0) (range_from 0 256)))
            _ (λ binary. Returns-encode py "image" binary))))

  pub levels-Returns : Returns "image" raster_png (levels_run py inputs params draft)
  unfolding levels_run
  levels-Returns = Returns-bind (flat_input py inputs "RGB") _ (λ image.
      Returns-bind (int_param py params "black" (pos 0)) _ (λ black.
        Returns-bind (int_param py params "white" (pos 255)) _ (λ white.
          Returns-bind (float_param py params "gamma" (py.literal "1.0")) _ (λ gamma.
            Returns-bind
              (raise_if (not (leb_ℤ (pos 0) black && (ltb_ℤ black white && leb_ℤ white (pos 255))))
                _)
              _
              (λ u. Returns-bind (raise_if (py.at_most gamma (py.literal "0.0")) _) _ (λ v.
                Returns-bind (round_all py (map (level_at py black white gamma) (range_from 0 256)))
                  _
                  (λ table.
                    Returns-bind (py.point image (table ++ (table ++ table))) _
                      (λ adjusted. Returns-encode py "image" adjusted))))))))

  pub colormask-Returns : Returns "mask" raster_png (colormask_run py inputs params draft)
  unfolding colormask_run
  colormask-Returns = Returns-bind (int_param py params "index" (pos 0)) _ (λ index.
      Returns-bind (input inputs "image") _ (λ content. Returns-bind (decode py content) _ (λ image.
        Returns-bind (raise_if (not (py.mode image == "P")) _) _ (λ u.
          Returns-bind (raise_if (not (leb_ℤ (pos 0) index && ltb_ℤ index (pos 256))) _) _ (λ v.
            Returns-bind (py.point_mode image (mask_table (pos_part index)) "L") _ (λ mask.
              Returns-bind (grow_param params) _ (λ grow.
                Returns-bind
                  (if grow == 0 then ok mask else py.min_filter mask (pos (2 * grow + 1))) _
                  (λ grown. Returns-encode py "mask" grown))))))))

  pub posterize-Returns : Returns "image" raster_png (posterize_run py inputs params draft)
  unfolding posterize_run
  posterize-Returns =
      Returns-bind
        (raise_if (is_some (field? "palette" params) && is_some (field? "colors" params)) _) _
        (λ u.
          Returns-bind (flat_input py inputs "RGB") _
            (λ image. posterize_image-Returns py params image (field? "palette" params)))

  pub downsample-Returns : Returns "image" raster_png (downsample_run py inputs params draft)
  downsample-Returns = downsample_run-Returns py inputs params draft

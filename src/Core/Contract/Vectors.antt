-- ===== src/Core/Contract/Vectors.antt =====
-- What the modules of src/formshift_server/core that return SVG return.
use formshift_server.Prelude.{
  zero, suc, negsuc, sym, pos, ltb_ℤ, nat_eq, String, Bool, not, refl, arith, raise_if,
  ok_injective, Option-cases, string_eq, inl, inr,
}
use formshift_server.Prelude.Dict.{Dict}
use formshift_server.Json.{Fields, Bytes}
use formshift_server.Core.{Platform, input, int_param, float_param}
use formshift_server.Core.Svg.{
  vector_svg, is_fill, fill_param, parse_svg, colorize, merge, Xml, colorize_run, merge_run,
}
use formshift_server.Core.Potrace.{
  in_unit, trace_with, Completed, timeout_expired, os_error, completed, png_to_pgm, command, Host,
  trace_run, traced, find_potrace,
}
use formshift_server.Core.Contract.{Returns, Returns-bind}

module _ (xml : Xml) (inputs : Dict String Bytes) (params : Fields) (draft : Bool) where
  pub colorize-Returns : Returns "svg" vector_svg (colorize_run xml inputs params draft)
  unfolding colorize_run
  colorize-Returns = Returns-bind (raise_if (not (is_fill (fill_param xml params))) _) _ (λ u.
      Returns-bind (input inputs "svg") _ (λ content.
        Returns-bind (parse_svg xml content) _ (λ root. λ results e. record {
          result = record {
            type = vector_svg;
            content = xml.write (colorize (fill_param xml params) root);
          };
          is_single = sym (ok_injective e);
          typed = refl;
        })))

  pub merge-Returns : Returns "svg" vector_svg (merge_run xml inputs params draft)
  unfolding merge_run
  merge-Returns = Returns-bind (input inputs "under") _ (λ under_content.
      Returns-bind (parse_svg xml under_content) _ (λ under.
        Returns-bind (input inputs "over") _ (λ over_content.
          Returns-bind (parse_svg xml over_content) _ (λ over. λ results e. record {
            result = record { type = vector_svg; content = xml.write (merge under over) };
            is_single = sym (ok_injective e);
            typed = refl;
          }))))

module _ (py : Platform) (host : Host py) where
  traced-Returns : (end : Completed) → Returns "svg" vector_svg (traced py host end)
  traced-Returns timeout_expired results e = absurd (ground arith)
  traced-Returns os_error results e = absurd (ground arith)
  traced-Returns (completed (pos zero) stdout) results e = record {
    result = record { type = vector_svg; content = stdout };
    is_single = sym (ok_injective e);
    typed = refl;
  }
  traced-Returns (completed (pos (suc code)) stdout) results e = absurd (ground arith)
  traced-Returns (completed (negsuc code) stdout) results e = absurd (ground arith)

  trace_with-Returns :
      (binary : String) (inputs : Dict String Bytes) (params : Fields)
      → Returns "svg" vector_svg (trace_with py host binary inputs params)
  unfolding trace_with
  trace_with-Returns binary inputs params =
      Returns-bind (float_param py params "blacklevel" (py.literal "0.5")) _ (λ blacklevel.
        Returns-bind (int_param py params "turdsize" (pos 2)) _ (λ turdsize.
          Returns-bind (raise_if (not (in_unit py host blacklevel)) _) _ (λ u.
            Returns-bind (raise_if (ltb_ℤ turdsize (pos 0)) _) _ (λ v.
              Returns-bind (input inputs "image") _ (λ content.
                Returns-bind (png_to_pgm py host content) _ (λ pgm.
                  traced-Returns
                    (host.run_process (command py host binary blacklevel turdsize) pgm)))))))

  pub trace-Returns :
      (inputs : Dict String Bytes) (params : Fields) (draft : Bool)
      → Returns "svg" vector_svg (trace_run py host inputs params draft)
  unfolding trace_run
  trace-Returns inputs params draft results h = elim (Option-cases (find_potrace py host)) [
    | inl e ↦ absurd (ground (arith, e))
    | inr (binary, e) ↦ trace_with-Returns binary inputs params results (ground (arith, h, e))
  ]

-- ===== src/Extensions/Manifest/Accepted.antt =====
-- What `parse_extension_manifest` (src/formshift_server/extensions.py) lets through.
use formshift_server.Prelude.{
  ok_injective, String, true, false, not, none, some, Option, List, [], ◌∷◌, ◌==◌, map, ◌≡◌, ◌≢◌,
  ok, >>=-eq-ok, passed, raise_if, elem, All, All-map_of, Distinct, string_eq, eq_iff, arith,
}
use formshift_server.Json.{Json, Items, nil, cons, Fields, field?}
use formshift_server.Modules.{PortSpec}
use formshift_server.Extensions.Manifest.{
  ExtensionModuleSpec, ExtensionManifest, no_header, not_table, no_module_name, duplicate_module,
  bad_entry, bad_port, invalid_name, no_version, isolation_not_implemented, bad_requirements,
  no_modules, matches_name, matches_entry, text_or, table_of, filled, requirements_of, port_list,
  port_of, ports, module_spec, module_specs, parse_extension_manifest,
}

abbrev pub spec_names : List ExtensionModuleSpec → List String
spec_names specs = map (λ (s : ExtensionModuleSpec). s.manifest.name) specs

-- A module that an accepted manifest declares.
pub record IsSpec (version : String) (spec : ExtensionModuleSpec) : Type 0 where
  pub named : spec.manifest.name ≢ ""
  pub entry : matches_entry spec.entry ≡ true
  pub released : spec.manifest.version ≡ version
  pub isolated : spec.manifest.isolation ≡ "isolated"
  pub inputs : spec.manifest.inputs ≢ []
  pub outputs : spec.manifest.outputs ≢ []

pub record IsAccepted (manifest : ExtensionManifest) : Type 0 where
  pub name : matches_name manifest.name ≡ true
  pub versioned : manifest.version ≢ ""
  pub isolated : manifest.isolation ≡ "isolated"
  pub some_module : manifest.modules ≢ []
  pub distinct : Distinct (spec_names manifest.modules)
  pub specs : All (IsSpec manifest.version) manifest.modules

module _ (show : Json → String) where
  ports-ne-nil :
      (raw : Option Json) (extension name direction : String) (ps : List PortSpec)
      → ports show raw extension name direction ≡ ok ps
      → ps ≢ []
  unfolding ports port_list
  ports-ne-nil none extension name direction ps h = absurd (ground arith)
  ports-ne-nil (some (Json.arr (cons value values))) extension name direction ps h =
      let (port, _, more) =
        >>=-eq-ok (port_of show (bad_port extension name direction) value) _ h in
      let (rest, _, done) =
        >>=-eq-ok (port_list show (bad_port extension name direction) values) _ more in
      λ e. ground arith
  ports-ne-nil (some _) extension name direction ps h = absurd (ground arith)

  module _ (extension version : String) where
    module_spec-IsSpec :
        (seen : List String) (value : Json) (spec : ExtensionModuleSpec)
        → module_spec show extension version seen value ≡ ok spec
        → IsSpec version spec × (elem spec.manifest.name seen ≡ false)
    unfolding module_spec
    module_spec-IsSpec seen value spec h =
        let (raw, _, h1) = >>=-eq-ok (table_of (not_table extension) (some value)) _ h in
        let name = text_or show "" "name" raw in
        let entry = text_or show "" "entry" raw in
        let (_, named, h2) = >>=-eq-ok (raise_if (name == "") (no_module_name extension)) _ h1 in
        let (_, new, h3) =
          >>=-eq-ok (raise_if (elem name seen) (duplicate_module extension name)) _ h2 in
        let (_, matches, h4) =
          >>=-eq-ok (raise_if (not (matches_entry entry)) (bad_entry extension name entry)) _ h3 in
        let (ins, found_ins, h5) =
          >>=-eq-ok (ports show (field? "inputs" raw) extension name "input") _ h4 in
        let (outs, found_outs, done) =
          >>=-eq-ok (ports show (field? "outputs" raw) extension name "output") _ h5 in
        let fresh = passed (elem name seen) _ new in
        let has_name = passed (name == "") _ named in
        let fits = passed (not (matches_entry entry)) _ matches in
        let some_ins = ports-ne-nil (field? "inputs" raw) extension name "input" ins found_ins in
        let some_outs =
          ports-ne-nil (field? "outputs" raw) extension name "output" outs found_outs in
        (
          record {
            named = λ e. ground (arith, eq_iff name "");
            entry = ground arith;
            released = ground arith;
            isolated = ground arith;
            inputs = λ e. some_ins (ground arith);
            outputs = λ e. some_outs (ground arith);
          },
          ground arith,
        )

    module_specs-Distinct :
        (seen : List String) (values : Items) (specs : List ExtensionModuleSpec)
        → module_specs show extension version seen values ≡ ok specs
        → Distinct (spec_names specs)
          × All (λ n. elem n seen ≡ false) (spec_names specs)
          × All (IsSpec version) specs
    unfolding module_specs
    module_specs-Distinct seen nil specs h =
        let e : [] ≡ specs = ground arith in rw (← e) (tt, tt, tt)
    module_specs-Distinct seen (cons value values) specs h =
        let (spec, one, more) = >>=-eq-ok (module_spec show extension version seen value) _ h in
        let (rest, others, done) =
          >>=-eq-ok (module_specs show extension version (spec.manifest.name ∷ seen) values) _
            more in
        let e : spec ∷ rest ≡ specs = ground arith in
        let (is_spec, new) = module_spec-IsSpec seen value spec one in
        let (distinct, fresh, all) =
          module_specs-Distinct (spec.manifest.name ∷ seen) values rest others in
        rw (← e) (
          (
            All-map_of (spec_names rest)
                (λ n not_seen same. ground (arith, eq_iff spec.manifest.name n)) fresh,
            distinct,
          ),
          (new, All-map_of (spec_names rest) (λ n not_seen. ground arith) fresh),
          (is_spec, all),
        )

  specs-ne-nil :
      (extension version : String) (raw : Option Json) (values : Items)
      (specs : List ExtensionModuleSpec)
      → filled (no_modules extension) raw ≡ ok values
      → module_specs show extension version [] values ≡ ok specs
      → specs ≢ []
  unfolding module_specs
  specs-ne-nil extension version none values specs f h = absurd (ground arith)
  specs-ne-nil extension version (some (Json.arr (cons x xs))) nil specs f h = absurd (ground arith)
  specs-ne-nil extension version (some (Json.arr (cons x xs))) (cons value values) specs f h =
      let (spec, _, more) = >>=-eq-ok (module_spec show extension version [] value) _ h in
      let (rest, _, done) =
        >>=-eq-ok (module_specs show extension version (spec.manifest.name ∷ []) values) _ more in
      λ e. ground arith
  specs-ne-nil extension version (some _) values specs f h = absurd (ground arith)

  -- A manifest that `parse_extension_manifest` returns has a name in the accepted form, a version,
  -- isolation "isolated" and some module; its module names are distinct and not empty, and each
  -- module has an entry in the accepted form, the version of the extension, isolation "isolated",
  -- and ports on both sides.
  pub parse_extension_manifest-IsAccepted :
      (data' : Fields) (manifest : ExtensionManifest)
      → parse_extension_manifest show data' ≡ ok manifest
      → IsAccepted manifest
  unfolding parse_extension_manifest
  parse_extension_manifest-IsAccepted data' manifest h =
      let (header, _, h1) = >>=-eq-ok (table_of no_header (field? "extension" data')) _ h in
      let name = text_or show "" "name" header in
      let version = text_or show "" "version" header in
      let isolation = text_or show "isolated" "isolation" header in
      let (_, named, h2) =
        >>=-eq-ok (raise_if (not (matches_name name)) (invalid_name name)) _ h1 in
      let (_, versioned, h3) = >>=-eq-ok (raise_if (version == "") (no_version name)) _ h2 in
      let (_, isolated, h4) =
        >>=-eq-ok
          (raise_if (not (isolation == "isolated")) (isolation_not_implemented name isolation)) _
          h3 in
      let (requirements, _, h5) =
        >>=-eq-ok (requirements_of (bad_requirements name) (field? "requirements" header)) _ h4 in
      let (values, some_value, h6) =
        >>=-eq-ok (filled (no_modules name) (field? "modules" data')) _ h5 in
      let (specs, found, done) = >>=-eq-ok (module_specs show name version [] values) _ h6 in
      let (distinct, _, all) = module_specs-Distinct name version [] values specs found in
      let fits = passed (not (matches_name name)) _ named in
      let has_version = passed (version == "") _ versioned in
      let is_isolated = passed (not (isolation == "isolated")) _ isolated in
      let is_manifest = ok_injective done in
      rw (← is_manifest) (record {
        name = ground arith;
        versioned = λ e. ground (arith, eq_iff version "");
        isolated = ground (arith, eq_iff isolation "isolated");
        some_module =
            specs-ne-nil name version (field? "modules" data') values specs some_value found;
        distinct = distinct;
        specs = all;
      })

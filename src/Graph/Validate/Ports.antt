-- ===== src/Graph/Validate/Ports.antt =====
-- The loops of `validate_graph` over the edges and over the bindings.
use formshift_server.Prelude.{
  String, Option, none, some, List, [], ◌∷◌, ◌++◌, ◌≡◌, refl, string_eq, eq_iff, is_none, All,
  Distinct, Option-cases, inl, inr, arith,
}
use formshift_server.Prelude.Dict
use formshift_server.Prelude.Dict.{Dict}
use formshift_server.Modules.{Registry, input_port, output_port}
use formshift_server.Sessions.{Session, Payload}
use formshift_server.Graph.{Node, Edge, Binding}
use formshift_server.Graph.Validate.{
  ValidationError, edge_from_unknown, edge_to_unknown, binding_to_unknown, PortKey, source_key,
  target_key, binding_key, error_if, index_nodes, module_of, port_type, output_type, input_type,
  mismatch, payload_errors, edge_errors, binding_errors,
}
use formshift_server.Graph.Validate.Spec.{Produces, Consumes}
use formshift_server.Graph.Validate.Nodes.{ids, module_of-HasModule, HasModule-module_of}

-- No error of an edge: both of its ports are known, at one type.
edge_sound :
    (e : Edge) (src dst : Option String) (rest : List ValidationError)
    → error_if (is_none src) (edge_from_unknown (source_key e))
        ++ (error_if (is_none dst) (edge_to_unknown (target_key e)) ++ (mismatch e src dst ++ rest))
      ≡ []
    → (t : String) × (src ≡ some t) × (dst ≡ some t) × (rest ≡ [])
unfolding mismatch
edge_sound e (some s) (some d) rest h = (s, refl, ground (arith, eq_iff s d), ground arith)
edge_sound e (some s) none rest h = absurd (ground arith)
edge_sound e none dst rest h = absurd (ground arith)

binding_sound :
    (b : Binding) (dst : Option String) (payload : Option Payload) (rest : List ValidationError)
    → error_if (is_none dst) (binding_to_unknown (binding_key b))
        ++ (payload_errors b dst payload ++ rest)
      ≡ []
    → (p : Payload) × (payload ≡ some p) × (dst ≡ some p.type) × (rest ≡ [])
unfolding payload_errors
binding_sound b (some d) (some p) rest h = (p, refl, ground (arith, eq_iff p.type d), ground arith)
binding_sound b (some d) none rest h = absurd (ground arith)
binding_sound b none payload rest h = absurd (ground arith)

module _ (registry : Registry) (ns : List Node) (key : PortKey) (t : String) where
  pub output_type-Produces :
      output_type registry (index_nodes [] ns) key.0 key.1 ≡ some t → Produces registry ns key t
  unfolding output_type port_type
  output_type-Produces h = elim (Option-cases (module_of registry (index_nodes [] ns) key.0)) [
    | inl e ↦ absurd (ground arith)
    | inr (m, e) ↦ elim (Option-cases (output_port m.manifest key.1)) [
      | inl f ↦ absurd (ground arith)
      | inr (spec, f) ↦ record {
        module' = m;
        spec = spec;
        runs = module_of-HasModule registry ns key.0 m e;
        declared = f;
        typed = ground arith;
      }
    ]
  ]

  pub input_type-Consumes :
      input_type registry (index_nodes [] ns) key.0 key.1 ≡ some t → Consumes registry ns key t
  unfolding input_type port_type
  input_type-Consumes h = elim (Option-cases (module_of registry (index_nodes [] ns) key.0)) [
    | inl e ↦ absurd (ground arith)
    | inr (m, e) ↦ elim (Option-cases (input_port m.manifest key.1)) [
      | inl f ↦ absurd (ground arith)
      | inr (spec, f) ↦ record {
        module' = m;
        spec = spec;
        runs = module_of-HasModule registry ns key.0 m e;
        declared = f;
        typed = ground arith;
      }
    ]
  ]

  pub Produces-output_type :
      Distinct (ids ns)
      → Produces registry ns key t
      → output_type registry (index_nodes [] ns) key.0 key.1 ≡ some t
  unfolding output_type port_type
  Produces-output_type d p =
      let e = HasModule-module_of registry ns key.0 p.module' d p.runs in
      ground (arith, e, p.declared, p.typed)

  pub Consumes-input_type :
      Distinct (ids ns)
      → Consumes registry ns key t
      → input_type registry (index_nodes [] ns) key.0 key.1 ≡ some t
  unfolding input_type port_type
  Consumes-input_type d p =
      let e = HasModule-module_of registry ns key.0 p.module' d p.runs in
      ground (arith, e, p.declared, p.typed)

module _ (registry : Registry) (ns : List Node) where
  abbrev pub EdgeFits : Edge → Type 0
  EdgeFits e =
      (t : String) × Produces registry ns (e.from_node, e.from_port) t
      × Consumes registry ns (e.to_node, e.to_port) t

  abbrev pub BindingFits : Session → Binding → Type 0
  BindingFits session b =
      (p : Payload) × (Dict.get b.payload session.payloads ≡ some p)
      × Consumes registry ns (b.node, b.port) p.type

  pub edge_errors_sound :
      (es : List Edge) → edge_errors registry (index_nodes [] ns) es ≡ [] → All EdgeFits es
  unfolding edge_errors
  edge_errors_sound [] h = tt
  edge_errors_sound (e ∷ es) h =
      let (t, src, dst, rest) = edge_sound e _ _ _ h in
      (
        (
          t,
          output_type-Produces registry ns (source_key e) t src,
          input_type-Consumes registry ns (target_key e) t dst,
        ),
        edge_errors_sound es rest,
      )

  pub edge_errors_complete :
      (es : List Edge)
      → Distinct (ids ns)
      → All EdgeFits es
      → edge_errors registry (index_nodes [] ns) es ≡ []
  unfolding edge_errors
  edge_errors_complete [] d h = ground arith
  edge_errors_complete (e ∷ es) d h =
      let (t, p, c) = h.0 in
      rw
        (
          Produces-output_type registry ns (source_key e) t d p,
          Consumes-input_type registry ns (target_key e) t d c,
        )
        (ground (arith, eq_iff t t, edge_errors_complete es d h.1))

  pub binding_errors_sound :
      (session : Session) (bs : List Binding)
      → binding_errors registry (index_nodes [] ns) session bs ≡ []
      → All (BindingFits session) bs
  unfolding binding_errors
  binding_errors_sound session [] h = tt
  binding_errors_sound session (b ∷ bs) h =
      let (p, found, dst, rest) = binding_sound b _ _ _ h in
      (
        (p, found, input_type-Consumes registry ns (binding_key b) p.type dst),
        binding_errors_sound session bs rest,
      )

  pub binding_errors_complete :
      (session : Session) (bs : List Binding)
      → Distinct (ids ns)
      → All (BindingFits session) bs
      → binding_errors registry (index_nodes [] ns) session bs ≡ []
  unfolding binding_errors
  binding_errors_complete session [] d h = ground arith
  binding_errors_complete session (b ∷ bs) d h =
      let (p, found, c) = h.0 in
      rw (found, Consumes-input_type registry ns (binding_key b) p.type d c)
        (ground (arith, eq_iff p.type p.type, binding_errors_complete session bs d h.1))

-- ===== src/Graph/Validate/Feeding.antt =====
-- The loop of `validate_graph` that counts how often each input port is fed.
use formshift_server.Prelude.{
  ℕ, zero, suc, ◌+◌, String, some, List, [], ◌∷◌, ◌++◌, map, ◌≡◌, refl, string_eq, pair_eq,
  pair_beq_iff, count, count-append, All, append-eq-nil, arith, if◌then◌else◌,
}
use formshift_server.Prelude.Dict
use formshift_server.Prelude.Dict.{Dict, get-put}
use formshift_server.Modules.{Module, PortSpec, Registry, lookup_module}
use formshift_server.Graph.{Node, Graph}
use formshift_server.Graph.Validate.{
  ValidationError, PortKey, target_key, binding_key, times_fed, feed, fed_ports, fed_error,
  port_errors, feeding_errors,
}
use formshift_server.Graph.Validate.Spec.{feeds}
use formshift_server.Graph.Validate.Nodes.{IsKnown}

times_fed-put :
    (k key : PortKey) (n : ℕ) (fed : Dict PortKey ℕ)
    → times_fed key (Dict.put k n fed)
      ≡ (if (pair_eq {A = String} {B = String}).beq k key then n else times_fed key fed)
unfolding times_fed
times_fed-put k key n fed = ground (arith, get-put k key n fed)

times_fed-feed :
    (key : PortKey) (fed : Dict PortKey ℕ) (keys : List PortKey)
    → times_fed key (feed fed keys) ≡ times_fed key fed + count key keys
unfolding feed
times_fed-feed key fed [] = omega arith
times_fed-feed key fed (k ∷ keys) = ground (
  arith,
  times_fed-feed key (Dict.put k (times_fed k fed + 1) fed) keys,
  times_fed-put k key (times_fed k fed + 1) fed,
  pair_beq_iff {A = String} {B = String} k key,
)

-- The dictionary `fed` counts the edges and the bindings that end at a port.
pub times_fed-fed_ports :
    (graph : Graph) (key : PortKey) → times_fed key (fed_ports graph) ≡ count key (feeds graph)
unfolding fed_ports
times_fed-fed_ports graph key =
    let edges = map target_key graph.edges in
    let bindings = map binding_key graph.bindings in
    let start : times_fed key [] ≡ 0 = unfold times_fed Dict.get in refl in
    omega (
      arith,
      times_fed-feed key (feed [] edges) bindings,
      times_fed-feed key [] edges,
      count-append key edges bindings,
      start,
    )

fed_error-nil :
    (key : PortKey) (n : ℕ) (rest : List ValidationError)
    → fed_error key n ++ rest ≡ []
    → (n ≡ 1) × (rest ≡ [])
unfolding fed_error
fed_error-nil key zero rest h = absurd (ground arith)
fed_error-nil key (suc zero) rest h = (refl, h)
fed_error-nil key (suc (suc n)) rest h = absurd (ground arith)

module _ (fed : Dict PortKey ℕ) (id : String) where
  abbrev pub FedOnce : PortSpec → Type 0
  FedOnce p = times_fed (id, p.name) fed ≡ 1

  port_errors_sound : (ports : List PortSpec) → port_errors fed id ports ≡ [] → All FedOnce ports
  unfolding port_errors
  port_errors_sound [] h = tt
  port_errors_sound (p ∷ ports) h =
      let (once, rest) = fed_error-nil _ _ _ h in (once, port_errors_sound ports rest)

  port_errors_complete : (ports : List PortSpec) → All FedOnce ports → port_errors fed id ports ≡ []
  unfolding port_errors
  port_errors_complete [] h = ground arith
  port_errors_complete (p ∷ ports) h = rw h.0 (port_errors_complete ports h.1)

module _ (registry : Registry) (fed : Dict PortKey ℕ) where
  abbrev pub IsFed : Node → Type 0
  IsFed n =
      (m : Module)
      → lookup_module registry n.module_name ≡ some m
      → All (FedOnce fed n.id) m.manifest.inputs

  pub feeding_errors_sound :
      (ns : List Node)
      → All (IsKnown registry) ns
      → feeding_errors registry fed ns ≡ []
      → All IsFed ns
  unfolding feeding_errors
  feeding_errors_sound [] k h = tt
  feeding_errors_sound (n ∷ ns) k h =
      let (known, found) = k.0 in
      let (here, rest) = append-eq-nil _ _ (rw (found, feeding_errors) at h) in
      (
        λ m e.
            let same : m ≡ known = cc in
            rw same (port_errors_sound fed n.id known.manifest.inputs here),
        feeding_errors_sound ns k.1 rest,
      )

  pub feeding_errors_complete :
      (ns : List Node)
      → All (IsKnown registry) ns
      → All IsFed ns
      → feeding_errors registry fed ns ≡ []
  unfolding feeding_errors
  feeding_errors_complete [] k h = ground arith
  feeding_errors_complete (n ∷ ns) k h =
      let (m, found) = k.0 in
      rw (found, feeding_errors)
        (rw (port_errors_complete fed n.id m.manifest.inputs (h.0 m found))
          (feeding_errors_complete ns k.1 h.1))

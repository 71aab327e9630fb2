-- ===== src/Graph/Validate/Decides.antt =====
-- `validate_graph` (src/formshift_server/graph.py) returns no error exactly for the valid graphs.
use mathlib.Core.List.{append-nil}
use formshift_server.Prelude.{
  String, false, Option, none, some, List, [], ◌∷◌, ◌≡◌, ◌≢◌, ◌↔◌, refl, sym, ◌∙◌, is_none,
  is_empty, string_eq, All, All-always, count, pair_eq, All-map_of, append-eq-nil, arith,
}
use formshift_server.Prelude.Dict
use formshift_server.Modules.{Module, PortSpec, Registry, lookup_module}
use formshift_server.Sessions.{Session}
use formshift_server.Graph.{Node, Graph}
use formshift_server.Graph.Topology.{topological_order}
use formshift_server.Graph.Topology.Order.{topological_order-some_iff}
use formshift_server.Graph.Validate.{
  no_nodes, no_outputs, cycle, fed_ports, validate_graph, node_errors, feeding_errors, group_errors,
}
use formshift_server.Graph.Validate.Spec.{IsValid, feeds}
use formshift_server.Graph.Validate.Nodes.{
  ids, error_if-nil, node_errors_sound, node_errors_complete,
}
use formshift_server.Graph.Validate.Ports.{
  edge_errors_sound, edge_errors_complete, binding_errors_sound, binding_errors_complete,
}
use formshift_server.Graph.Validate.Feeding.{
  times_fed-fed_ports, feeding_errors_sound, feeding_errors_complete,
}
use formshift_server.Graph.Validate.Outputs.{
  group_ids, keys_of, group_errors_sound, group_errors_complete, output_errors_sound,
  output_errors_complete,
}

nonempty_of {ℓ} : {A : Type ℓ} (xs : List A) → is_empty xs ≡ false → xs ≢ []
nonempty_of [] h = absurd (ground arith)
nonempty_of (x ∷ xs) h = λ e. ground arith

of_nonempty {ℓ} : {A : Type ℓ} (xs : List A) → xs ≢ [] → is_empty xs ≡ false
of_nonempty [] h = absurd (h refl)
of_nonempty (x ∷ xs) h = refl

order_of : (o : Option (List String)) → is_none o ≡ false → o ≢ none
order_of none h = absurd (ground arith)
order_of (some order) h = λ e. ground arith

of_order : (o : Option (List String)) → o ≢ none → is_none o ≡ false
of_order none h = absurd (h refl)
of_order (some order) h = refl

module _ (graph : Graph) (registry : Registry) (session : Session) where
  -- Each input port is fed once, by the dictionary and by the count of edges and bindings.
  abbrev FedExactlyOnce : Node → Type 0
  FedExactlyOnce n =
      (m : Module)
      → lookup_module registry n.module_name ≡ some m
      → All (λ (p : PortSpec). count (n.id, p.name) (feeds graph) ≡ 1) m.manifest.inputs

  validate_graph_sound : validate_graph graph registry session ≡ [] → IsValid graph registry session
  unfolding validate_graph
  validate_graph_sound h =
      let ns = graph.nodes in
      let (nodes, h1) = append-eq-nil _ _ h in
      let (some_node, h2) = error_if-nil (is_empty ns) no_nodes _ h1 in
      let (some_output, h3) = error_if-nil (is_empty graph.outputs) no_outputs _ h2 in
      let (edges, h4) = append-eq-nil _ _ h3 in
      let (bindings, h5) = append-eq-nil _ _ h4 in
      let (feeding, h6) = append-eq-nil _ _ h5 in
      let (groups, h7) = append-eq-nil _ _ h6 in
      let (outputs, h8) = append-eq-nil _ _ h7 in
      let (ordered, _) =
        error_if-nil (is_none (topological_order graph)) cycle [] (append-nil _ ∙ h8) in
      let (_, distinct, known) = node_errors_sound registry [] ns nodes in
      let (named, _, distinct_groups, orders) = group_errors_sound [] graph.groups groups in
      let (_, distinct_outputs, produced, declared) =
        output_errors_sound registry ns graph.groups [] graph.outputs outputs in
      record {
        distinct_ids = distinct;
        known_modules = known;
        some_node = nonempty_of ns some_node;
        some_output = nonempty_of graph.outputs some_output;
        edges_fit = edge_errors_sound registry ns graph.edges edges;
        bindings_fit = binding_errors_sound registry ns session graph.bindings bindings;
        fed_once =
            All-map_of {Q = FedExactlyOnce} ns
              (λ n fed m e.
                All-map_of m.manifest.inputs
                  (λ p once. sym (times_fed-fed_ports graph (n.id, p.name)) ∙ once) (fed m e))
              (feeding_errors_sound registry (fed_ports graph) ns known feeding);
        named_groups = named;
        distinct_groups = distinct_groups;
        known_orders = orders;
        distinct_outputs = distinct_outputs;
        outputs_exist = produced;
        declared_groups = declared;
        acyclic = (topological_order-some_iff graph).0 (order_of _ ordered);
      }

  validate_graph_complete :
      IsValid graph registry session → validate_graph graph registry session ≡ []
  unfolding validate_graph
  validate_graph_complete v =
      let ns = graph.nodes in
      let distinct = v.distinct_ids in
      let nodes : node_errors registry [] ns ≡ [] =
        node_errors_complete registry [] ns (All-always _ (ids ns) (unfold Dict.get in λ k. refl))
          distinct v.known_modules in
      let edges = edge_errors_complete registry ns graph.edges distinct v.edges_fit in
      let bindings =
        binding_errors_complete registry ns session graph.bindings distinct v.bindings_fit in
      let feeding : feeding_errors registry (fed_ports graph) ns ≡ [] =
        feeding_errors_complete registry (fed_ports graph) ns v.known_modules (
          All-map_of {P = FedExactlyOnce} ns
            (λ n fed m e.
              All-map_of m.manifest.inputs
                (λ p once. times_fed-fed_ports graph (n.id, p.name) ∙ once) (fed m e))
            v.fed_once) in
      let groups : group_errors [] graph.groups ≡ [] =
        group_errors_complete [] graph.groups v.named_groups
          (All-always _ (group_ids graph.groups) (unfold Dict.get in λ k. refl)) v.distinct_groups
          v.known_orders in
      let outputs =
        output_errors_complete registry ns graph.groups [] graph.outputs distinct
          (All-always _ (keys_of graph.outputs) (λ k. refl)) v.distinct_outputs v.outputs_exist
          v.declared_groups in
      rw (
        nodes,
        of_nonempty ns v.some_node,
        of_nonempty graph.outputs v.some_output,
        edges,
        bindings,
        feeding,
        groups,
        outputs,
        of_order _ ((topological_order-some_iff graph).1 v.acyclic),
      )

  -- `validate_graph` returns no error exactly where the graph is valid.
  pub validate_graph_iff :
      (validate_graph graph registry session ≡ []) ↔ IsValid graph registry session
  validate_graph_iff = (validate_graph_sound, validate_graph_complete)

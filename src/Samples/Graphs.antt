-- ===== src/Samples/Graphs.antt =====
-- Registration, graph validation and topological order at concrete modules and graphs.
use mathlib.Core.List.{Memᴰ}
use formshift_server.Prelude.{none, some, [], ◌∷◌, ◌≡◌, ◌≢◌, ◌↔◌, refl, ok, string_eq}
use formshift_server.Prelude.Dict
use formshift_server.Modules.{register, add, lookup_module, find_port, input_port, output_port}
use formshift_server.Modules.Registration.{Registers, register-Registers}
use formshift_server.Graph.Topology.{
  topological_order, static_order, rounds, sorter_of, add_edges, add_edge, ensure, add_nodes,
  add_node, ready, all_in, waiting, predecessors, IsAcyclic, Leads, along, then',
}
use formshift_server.Graph.Topology.Order.{
  IsOrder, topological_order-IsOrder, topological_order-some_iff,
  topological_order-eq-none_of_cycle,
}
use formshift_server.Graph.Validate.{
  validate_graph, node_errors, edge_errors, output_type, module_of, index_nodes, port_type,
  input_type, binding_errors, feeding_errors, port_errors, times_fed, fed_error, fed_ports, feed,
  group_errors, index_groups, membership_errors, mismatch, output_errors, payload_errors,
}
use formshift_server.Graph.Validate.Spec.{IsValid}
use formshift_server.Graph.Validate.Decides.{validate_graph_iff}
use formshift_server.Samples.{modules, tracer, session, chain, loop, link, back}

chain_order : topological_order chain ≡ some ("t" ∷ "c" ∷ [])
unfolding topological_order static_order rounds sorter_of add_edges add_edge ensure add_nodes
    add_node ready all_in waiting predecessors Dict.get Dict.put
chain_order = refl

loop_order : topological_order loop ≡ none
unfolding topological_order static_order rounds sorter_of add_edges add_edge ensure add_nodes
    add_node ready all_in waiting predecessors Dict.get Dict.put
loop_order = refl

pub chain_errors : validate_graph chain modules session ≡ []
unfolding topological_order static_order rounds sorter_of add_edges add_edge ensure add_nodes
    add_node ready all_in waiting predecessors Dict.get Dict.put validate_graph node_errors
    edge_errors output_type module_of index_nodes port_type input_type binding_errors feeding_errors
    port_errors times_fed fed_error fed_ports feed group_errors index_groups membership_errors
    mismatch output_errors payload_errors lookup_module find_port input_port output_port
chain_errors = refl

pub chain-IsValid : IsValid chain modules session
chain-IsValid = (validate_graph_iff chain modules session).0 chain_errors

validate_graph_iff_example :
    (validate_graph chain modules session ≡ []) ↔ IsValid chain modules session
validate_graph_iff_example = validate_graph_iff chain modules session

topological_order-IsOrder_example : IsOrder chain ("t" ∷ "c" ∷ [])
topological_order-IsOrder_example = topological_order-IsOrder chain ("t" ∷ "c" ∷ []) chain_order

topological_order-some_iff_example : (topological_order chain ≢ none) ↔ IsAcyclic chain.edges
topological_order-some_iff_example = topological_order-some_iff chain

loop_cycle : Leads loop.edges "t" "t"
loop_cycle = then' (along link (Memᴰ.head refl)) (along back (Memᴰ.tail (Memᴰ.head refl)))

topological_order-eq-none_of_cycle_example : topological_order loop ≡ none
topological_order-eq-none_of_cycle_example = topological_order-eq-none_of_cycle loop "t" loop_cycle

registered : register [] tracer ≡ ok (("trace", tracer) ∷ [])
unfolding register add Dict.get Dict.put
registered = refl

register-Registers_example :
    (tracer.manifest.isolation ≡ "core") × Registers [] tracer (("trace", tracer) ∷ [])
register-Registers_example = register-Registers [] tracer (("trace", tracer) ∷ []) registered

-- ===== src/Graph/Validate.antt =====
-- `validate_graph` of src/formshift_server/graph.py. Each loop of the source is a function that
-- returns the errors that it appends, in order; an error carries what its message shows.
pub mod Spec
mod Nodes
mod Ports
mod Feeding
mod Outputs
pub mod Decides
use formshift_server.Prelude.{
  ℕ, zero, suc, ◌+◌, String, Bool, true, false, not, Option, none, some, List, [], ◌∷◌, ◌++◌, map,
  ◌&&◌, ◌||◌, ◌==◌, string_eq, pair_eq, elem, is_none, is_empty, if◌then◌else◌,
}
use formshift_server.Prelude.Dict
use formshift_server.Prelude.Dict.{Dict}
use formshift_server.Modules.{Module, PortSpec, Registry, lookup_module, input_port, output_port}
use formshift_server.Sessions.{Session, Payload}
use formshift_server.Graph.{Node, Edge, Binding, OutputRef, OutputGroup, Graph}
use formshift_server.Graph.Topology.{topological_order}

-- A port of a node.
abbrev pub PortKey : Type 0
PortKey = String × String

pub data ValidationError : Type 0 where
  duplicate_node : String → ValidationError
  unknown_module : (node name : String) → ValidationError
  no_nodes no_outputs : ValidationError
  edge_from_unknown edge_to_unknown : PortKey → ValidationError
  type_mismatch : Edge → (from to : String) → ValidationError
  binding_to_unknown : PortKey → ValidationError
  unknown_payload : String → ValidationError
  payload_mismatch : Binding → (payload port : String) → ValidationError
  not_fed : PortKey → ValidationError
  fed_times : PortKey → ℕ → ValidationError
  group_without_id : ValidationError
  duplicate_group : String → ValidationError
  unknown_order : (group order : String) → ValidationError
  duplicate_output unknown_output : PortKey → ValidationError
  undeclared_group : PortKey → String → ValidationError
  cycle : ValidationError

-- `if test: errors.append(error)`
abbrev pub error_if : Bool → ValidationError → List ValidationError
error_if true e = e ∷ []
error_if false e = []

-- `nodes_by_id` after the first loop, which starts from `seen`: a later node replaces an earlier.
unfoldable pub index_nodes : Dict String Node → List Node → Dict String Node
index_nodes seen [] = seen
index_nodes seen (n ∷ ns) = index_nodes (Dict.put n.id n seen) ns

module _ (registry : Registry) where
  unfoldable pub node_errors : Dict String Node → List Node → List ValidationError
  node_errors seen [] = []
  node_errors seen (n ∷ ns) =
      error_if (Dict.has n.id seen) (duplicate_node n.id)
      ++ (error_if (is_none (lookup_module registry n.module_name))
            (unknown_module n.id n.module_name)
          ++ node_errors (Dict.put n.id n seen) ns)

  -- The module of a node, where both are known.
  unfoldable pub module_of : Dict String Node → String → Option Module
  module_of by_id node_id = elim (Dict.get node_id by_id) [
    | none ↦ none
    | some n ↦ lookup_module registry n.module_name
  ]

  unfoldable pub port_type : Option PortSpec → Option String
  port_type none = none
  port_type (some spec) = some spec.type

  unfoldable pub output_type : Dict String Node → String → String → Option String
  output_type by_id node_id port = elim (module_of by_id node_id) [
    | none ↦ none
    | some m ↦ port_type (output_port m.manifest port)
  ]

  unfoldable pub input_type : Dict String Node → String → String → Option String
  input_type by_id node_id port = elim (module_of by_id node_id) [
    | none ↦ none
    | some m ↦ port_type (input_port m.manifest port)
  ]

-- What is wrong with the types of an edge's two ports, where both are known.
unfoldable pub mismatch : Edge → Option String → Option String → List ValidationError
mismatch e (some src) (some dst) = error_if (not (src == dst)) (type_mismatch e src dst)
mismatch e _ _ = []

-- The two ports of an edge, and the port that a binding feeds.
abbrev pub source_key : Edge → PortKey
source_key e = (e.from_node, e.from_port)

abbrev pub target_key : Edge → PortKey
target_key e = (e.to_node, e.to_port)

abbrev pub binding_key : Binding → PortKey
binding_key b = (b.node, b.port)

abbrev pub output_key : OutputRef → PortKey
output_key out = (out.node, out.port)

unfoldable pub payload_errors : Binding → Option String → Option Payload → List ValidationError
payload_errors b dst none = unknown_payload b.payload ∷ []
payload_errors b (some dst) (some payload) =
    error_if (not (payload.type == dst)) (payload_mismatch b payload.type dst)
payload_errors b none (some payload) = []

module _ (registry : Registry) (by_id : Dict String Node) where
  unfoldable pub edge_errors : List Edge → List ValidationError
  unfolding mismatch
  edge_errors [] = []
  edge_errors (e ∷ es) =
      let src = output_type registry by_id e.from_node e.from_port in
      let dst = input_type registry by_id e.to_node e.to_port in
      error_if (is_none src) (edge_from_unknown (source_key e))
      ++ (error_if (is_none dst) (edge_to_unknown (target_key e))
          ++ (mismatch e src dst ++ edge_errors es))

  unfoldable pub binding_errors : Session → List Binding → List ValidationError
  unfolding payload_errors
  binding_errors session [] = []
  binding_errors session (b ∷ bs) =
      let dst = input_type registry by_id b.node b.port in
      error_if (is_none dst) (binding_to_unknown (binding_key b))
      ++ (payload_errors b dst (Dict.get b.payload session.payloads) ++ binding_errors session bs)

-- `fed.get(key, 0)`
unfoldable pub times_fed : PortKey → Dict PortKey ℕ → ℕ
times_fed key fed = elim (Dict.get key fed) [ none ↦ 0 | some n ↦ n ]

-- `fed[key] = fed.get(key, 0) + 1` for each key in turn.
unfoldable pub feed : Dict PortKey ℕ → List PortKey → Dict PortKey ℕ
feed fed [] = fed
feed fed (key ∷ keys) = feed (Dict.put key (times_fed key fed + 1) fed) keys

-- The loops over the edges and over the bindings feed one dictionary.
unfoldable pub fed_ports : Graph → Dict PortKey ℕ
fed_ports graph = feed (feed [] (map target_key graph.edges)) (map binding_key graph.bindings)

unfoldable pub fed_error : PortKey → ℕ → List ValidationError
fed_error key zero = not_fed key ∷ []
fed_error key (suc zero) = []
fed_error key (suc (suc n)) = fed_times key (suc (suc n)) ∷ []

unfoldable pub port_errors : Dict PortKey ℕ → String → List PortSpec → List ValidationError
unfolding fed_error
port_errors fed node_id [] = []
port_errors fed node_id (port ∷ ports) =
    fed_error (node_id, port.name) (times_fed (node_id, port.name) fed)
    ++ port_errors fed node_id ports

unfoldable pub feeding_errors : Registry → Dict PortKey ℕ → List Node → List ValidationError
feeding_errors registry fed [] = []
feeding_errors registry fed (n ∷ ns) =
    elim (lookup_module registry n.module_name) [
      | none ↦ []
      | some m ↦ port_errors fed n.id m.manifest.inputs
    ]
    ++ feeding_errors registry fed ns

-- `group.order not in OUTPUT_GROUP_ORDERS`
abbrev pub output_group_orders : List String
output_group_orders = "completion" ∷ "pinned" ∷ []

-- The loop over the groups starts from the dictionary `seen`.
unfoldable pub group_errors : Dict String OutputGroup → List OutputGroup → List ValidationError
group_errors seen [] = []
group_errors seen (g ∷ gs) =
    error_if (g.id == "") group_without_id
    ++ (error_if (Dict.has g.id seen) (duplicate_group g.id)
        ++ (error_if (not (elem g.order output_group_orders)) (unknown_order g.id g.order)
            ++ group_errors (Dict.put g.id g seen) gs))

-- `groups_by_id` after that loop.
unfoldable pub index_groups : Dict String OutputGroup → List OutputGroup → Dict String OutputGroup
index_groups seen [] = seen
index_groups seen (g ∷ gs) = index_groups (Dict.put g.id g seen) gs

unfoldable pub membership_errors :
    Dict String OutputGroup → PortKey → Option String → List ValidationError
membership_errors groups key none = []
membership_errors groups key (some group) =
    error_if (not (Dict.has group groups)) (undeclared_group key group)

module _ (registry : Registry) (by_id : Dict String Node) (groups : Dict String OutputGroup) where
  -- `output_refs` is the list `refs` of the keys met so far.
  unfoldable pub output_errors : List PortKey → List OutputRef → List ValidationError
  unfolding membership_errors
  output_errors refs [] = []
  output_errors refs (out ∷ outs) =
      error_if (elem (output_key out) refs) (duplicate_output (output_key out))
      ++ (error_if (is_none (output_type registry by_id out.node out.port))
            (unknown_output (output_key out))
          ++ (membership_errors groups (output_key out) out.group
              ++ output_errors (output_key out ∷ refs) outs))

unfoldable pub validate_graph : Graph → Registry → Session → List ValidationError
validate_graph graph registry session =
    let by_id = index_nodes [] graph.nodes in
    node_errors registry [] graph.nodes
    ++ (error_if (is_empty graph.nodes) no_nodes
        ++ (error_if (is_empty graph.outputs) no_outputs
            ++ (edge_errors registry by_id graph.edges
                ++ (binding_errors registry by_id session graph.bindings
                    ++ (feeding_errors registry (fed_ports graph) graph.nodes
                        ++ (group_errors [] graph.groups
                            ++ (output_errors registry by_id (index_groups [] graph.groups) []
                                  graph.outputs
                                ++ error_if (is_none (topological_order graph)) cycle)))))))

-- ===== src/Graph/Validate/Spec.antt =====
-- What a valid graph is, stated over the graph alone: the contract of `validate_graph`
-- (src/formshift_server/graph.py) as the module's head describes it.
use mathlib.Core.List.{Memᴰ}
use formshift_server.Prelude.{
  String, some, List, [], map, ◌++◌, ◌≡◌, ◌≢◌, ◌⊎◌, All, Distinct, count, pair_eq, string_eq,
}
use formshift_server.Prelude.Dict
use formshift_server.Modules.{Module, PortSpec, Registry, lookup_module, input_port, output_port}
use formshift_server.Sessions.{Session, Payload}
use formshift_server.Graph.{Node, Edge, Binding, OutputRef, OutputGroup, Graph}
use formshift_server.Graph.Topology.{IsAcyclic}
use formshift_server.Graph.Validate.{PortKey, target_key, binding_key, output_key}

-- Some node of the graph has that id and a registered module.
pub record HasModule (registry : Registry) (nodes : List Node) (id : String) (m : Module)
    : Type 0 where
  pub node : Node
  pub member : Memᴰ node nodes
  pub named : node.id ≡ id
  pub registered : lookup_module registry node.module_name ≡ some m

-- A port of type `t` that the module of a node declares, on the output or on the input side.
pub record Produces (registry : Registry) (nodes : List Node) (key : PortKey) (t : String)
    : Type 0 where
  pub module' : Module
  pub spec : PortSpec
  pub runs : HasModule registry nodes key.0 module'
  pub declared : output_port module'.manifest key.1 ≡ some spec
  pub typed : spec.type ≡ t

pub record Consumes (registry : Registry) (nodes : List Node) (key : PortKey) (t : String)
    : Type 0 where
  pub module' : Module
  pub spec : PortSpec
  pub runs : HasModule registry nodes key.0 module'
  pub declared : input_port module'.manifest key.1 ≡ some spec
  pub typed : spec.type ≡ t

-- The ports that the edges and the bindings of a graph feed, each as often as it is fed.
abbrev pub feeds : Graph → List PortKey
feeds graph = map target_key graph.edges ++ map binding_key graph.bindings

pub record IsValid (graph : Graph) (registry : Registry) (session : Session) : Type 0 where
  pub distinct_ids : Distinct (map (λ (n : Node). n.id) graph.nodes)
  pub known_modules :
      All (λ (n : Node). (m : Module) × (lookup_module registry n.module_name ≡ some m)) graph.nodes
  pub some_node : graph.nodes ≢ []
  pub some_output : graph.outputs ≢ []
  pub edges_fit :
      All
        (λ (e : Edge).
          (t : String) × Produces registry graph.nodes (e.from_node, e.from_port) t
          × Consumes registry graph.nodes (e.to_node, e.to_port) t)
        graph.edges
  pub bindings_fit :
      All
        (λ (b : Binding).
          (p : Payload) × (Dict.get b.payload session.payloads ≡ some p)
          × Consumes registry graph.nodes (b.node, b.port) p.type)
        graph.bindings
  pub fed_once :
      All
        (λ (n : Node).
          (m : Module)
          → lookup_module registry n.module_name ≡ some m
          → All (λ (p : PortSpec). count (n.id, p.name) (feeds graph) ≡ 1) m.manifest.inputs)
        graph.nodes
  pub named_groups : All (λ (g : OutputGroup). g.id ≢ "") graph.groups
  pub distinct_groups : Distinct (map (λ (g : OutputGroup). g.id) graph.groups)
  pub known_orders :
      All (λ (g : OutputGroup). (g.order ≡ "completion") ⊎ (g.order ≡ "pinned")) graph.groups
  pub distinct_outputs : Distinct (map output_key graph.outputs)
  pub outputs_exist :
      All
        (λ (o : OutputRef). (t : String) × Produces registry graph.nodes (o.node, o.port) t)
        graph.outputs
  pub declared_groups :
      All
        (λ (o : OutputRef).
          (id : String)
          → o.group ≡ some id
          → Memᴰ id (map (λ (g : OutputGroup). g.id) graph.groups))
        graph.outputs
  pub acyclic : IsAcyclic graph.edges

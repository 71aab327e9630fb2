-- ===== src/Graph.antt =====
-- src/formshift_server/graph.py: the graph that a client submits, parsed.
pub mod Parse
pub mod Topology
pub mod Validate
use formshift_server.Prelude.{String, Option, List}
use formshift_server.Json.{Fields}

pub record Node : Type 0 where
  pub id : String
  pub module_name : String
  pub params : Fields

pub record Edge : Type 0 where
  pub from_node : String
  pub from_port : String
  pub to_node : String
  pub to_port : String

pub record Binding : Type 0 where
  pub payload : String
  pub node : String
  pub port : String

pub record OutputRef : Type 0 where
  pub node : String
  pub port : String
  pub group : Option String

pub record OutputGroup : Type 0 where
  pub id : String
  pub order : String

pub record Graph : Type 0 where
  pub nodes : List Node
  pub edges : List Edge
  pub bindings : List Binding
  pub outputs : List OutputRef
  pub groups : List OutputGroup

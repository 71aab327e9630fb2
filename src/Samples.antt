-- ===== src/Samples.antt =====
-- Concrete modules, graphs and hashes, and the theorems at them.
mod Encoding
mod Graphs
mod Extensions
mod Jobs
mod Requests
mod Runs
mod Scheduling
mod Settings
mod Platforms
mod Images
mod Workers
use formshift_server.Prelude.{
  ℕ, String, Bool, Option, none, some, List, [], ◌∷◌, Result, ok, string_eq,
}
use formshift_server.Prelude.Dict
use formshift_server.Prelude.Dict.{Dict}
use formshift_server.Json.{Bytes, Fields, end}
use formshift_server.Modules.{PortSpec, ModuleManifest, ModuleResult, Module, RunError, Registry}
use formshift_server.Sessions.{Session, Payload}
use formshift_server.Graph.{Node, Edge, Binding, OutputRef, OutputGroup, Graph}

abbrev pub port : String → String → PortSpec
port name type = record { name = name; type = type }

abbrev pub sample_manifest : String → PortSpec → PortSpec → ModuleManifest
sample_manifest name input output = record {
  name = name;
  version = "1.0";
  description = "";
  inputs = input ∷ [];
  outputs = output ∷ [];
  isolation = "core";
}

-- A module that returns a constant on its output port.
abbrev pub sample_module : String → PortSpec → PortSpec → Bytes → Module
sample_module name input output content = record {
  manifest = sample_manifest name input output;
  run = λ inputs params draft.
      ok ((output.name, record { type = output.type; content = content }) ∷ []);
}

abbrev pub tracer : Module
tracer = sample_module "trace" (port "image" "raster/png") (port "svg" "vector/svg") (7 ∷ [])

abbrev pub painter : Module
painter = sample_module "colorize" (port "svg" "vector/svg") (port "svg" "vector/svg") (8 ∷ [])

abbrev pub modules : Registry
modules = ("trace", tracer) ∷ ("colorize", painter) ∷ []

abbrev pub photo : Payload
photo = record { id = "p"; type = "raster/png"; content = 1 ∷ 2 ∷ [] }

abbrev pub session : Session
session = record { id = "s"; payloads = ("p", photo) ∷ [] }

abbrev pub trace_node : Node
trace_node = record { id = "t"; module_name = "trace"; params = end }

abbrev pub paint_node : Node
paint_node = record { id = "c"; module_name = "colorize"; params = end }

abbrev pub layers : OutputGroup
layers = record { id = "layers"; order = "pinned" }

abbrev pub link : Edge
link = record { from_node = "t"; from_port = "svg"; to_node = "c"; to_port = "svg" }

abbrev pub back : Edge
back = record { from_node = "c"; from_port = "svg"; to_node = "t"; to_port = "image" }

abbrev pub out : String → OutputRef
out node = record { node = node; port = "svg"; group = some "layers" }

-- One payload traced and then painted. The painted result is pinned before the traced one.
abbrev pub chain : Graph
chain = record {
  nodes = trace_node ∷ paint_node ∷ [];
  edges = link ∷ [];
  bindings = record { payload = "p"; node = "t"; port = "image" } ∷ [];
  outputs = out "c" ∷ out "t" ∷ [];
  groups = layers ∷ [];
}

-- Two nodes that feed each other.
abbrev pub loop : Graph
loop = record chain { edges = link ∷ back ∷ [] }

-- A module with two output ports, and two nodes that take one of them each.
abbrev pub splitter : Module
splitter = record {
  manifest =
      record (sample_manifest "split" (port "image" "raster/png") (port "dark" "raster/png")) {
        outputs = port "dark" "raster/png" ∷ port "light" "raster/png" ∷ [];
      };
  run = λ inputs params draft. ok (
      ("dark", record { type = "raster/png"; content = 0 ∷ [] })
      ∷ ("light", record { type = "raster/png"; content = 9 ∷ [] })
      ∷ []);
}

abbrev pub split_modules : Registry
split_modules = ("split", splitter) ∷ ("trace", tracer) ∷ []

abbrev pub dark_node : Node
dark_node = record trace_node { id = "d" }

abbrev pub light_node : Node
light_node = record trace_node { id = "l" }

abbrev pub split_graph : Graph
split_graph = record {
  nodes = record { id = "s"; module_name = "split"; params = end } ∷ dark_node ∷ light_node ∷ [];
  edges =
      record { from_node = "s"; from_port = "dark"; to_node = "d"; to_port = "image" }
      ∷ record { from_node = "s"; from_port = "light"; to_node = "l"; to_port = "image" }
      ∷ [];
  bindings = record { payload = "p"; node = "s"; port = "image" } ∷ [];
  outputs = [];
  groups = [];
}

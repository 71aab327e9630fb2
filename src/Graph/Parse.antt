-- ===== src/Graph/Parse.antt =====
-- `parse_graph` of src/formshift_server/graph.py: the wire format of a graph. A document is what
-- `json.loads` returns; every exception inside becomes a `GraphValidationError`, which here
-- carries what its message shows.
pub mod Wire
use formshift_server.Prelude.{
  ℕ, suc, ◌+◌, String, Option, none, some, List, [], ◌∷◌, Result, ok, err, ◌>>=◌, ◌>>◌,
}
use formshift_server.Json.{Json, null, str, arr, obj, Items, nil, cons, Fields, end, field?}
use formshift_server.Graph.{Node, Edge, Binding, OutputRef, OutputGroup, Graph}

-- Where a member of one of the lists stands: `nodes[0]`.
abbrev pub Location : Type 0
Location = String × ℕ

pub data ParseError : Type 0 where
  no_get : ParseError
  not_array : (name : String) → ParseError
  not_object : Location → ParseError
  not_string : Location → (name : String) → ParseError
  key_error : (name : String) → ParseError
  params_not_object group_not_string order_not_string : Location → ParseError

-- `_array`
unfoldable pub array_of : Fields → String → Result ParseError Items
array_of data' name = elim (field? name data') [
  | none ↦ ok nil
  | some value ↦ elim value [ arr values ↦ ok values | _ ↦ err (not_array name) ]
]

-- `_object`
unfoldable pub object_of : Json → Location → Result ParseError Fields
object_of (obj fields) location = ok fields
object_of _ location = err (not_object location)

unfoldable pub text_of : Json → ParseError → Result ParseError String
text_of (str s) e = ok s
text_of _ e = err e

-- `_string`
unfoldable pub string_of : Fields → String → Location → Result ParseError String
string_of data' name location = elim (field? name data') [
  | none ↦ err (key_error name)
  | some value ↦ text_of value (not_string location name)
]

unfoldable pub params_of : Option Json → Location → Result ParseError Fields
params_of none location = ok end
params_of (some (obj fields)) location = ok fields
params_of (some _) location = err (params_not_object location)

unfoldable pub group_of : Option Json → Location → Result ParseError (Option String)
group_of none location = ok none
group_of (some null) location = ok none
group_of (some (str s)) location = ok (some s)
group_of (some _) location = err (group_not_string location)

unfoldable pub order_of : Option Json → Location → Result ParseError String
order_of none location = ok "completion"
order_of (some value) location = text_of value (order_not_string location)

unfoldable pub parse_node : Location → Json → Result ParseError Node
parse_node location value = do
  node ← object_of value location
  params ← params_of (field? "params" node) location
  id ← string_of node "id" location
  name ← string_of node "module" location
  ok (record { id = id; module_name = name; params = params })

unfoldable pub parse_edge : Location → Json → Result ParseError Edge
parse_edge location value = do
  edge ← object_of value location
  from_node ← string_of edge "from_node" location
  from_port ← string_of edge "from_port" location
  to_node ← string_of edge "to_node" location
  to_port ← string_of edge "to_port" location
  ok (record { from_node = from_node; from_port = from_port; to_node = to_node; to_port = to_port })

unfoldable pub parse_binding : Location → Json → Result ParseError Binding
parse_binding location value = do
  binding ← object_of value location
  payload ← string_of binding "payload" location
  node ← string_of binding "node" location
  port ← string_of binding "port" location
  ok (record { payload = payload; node = node; port = port })

unfoldable pub parse_output : Location → Json → Result ParseError OutputRef
parse_output location value = do
  output ← object_of value location
  group ← group_of (field? "group" output) location
  node ← string_of output "node" location
  port ← string_of output "port" location
  ok (record { node = node; port = port; group = group })

unfoldable pub parse_group : Location → Json → Result ParseError OutputGroup
parse_group location value = do
  group ← object_of value location
  order ← order_of (field? "order" group) location
  id ← string_of group "id" location
  ok (record { id = id; order = order })

-- A loop over one of the lists, from a position on.
unfoldable pub parse_items {ℓ} :
    {A : Type ℓ}
    → (Location → Json → Result ParseError A)
    → String
    → ℕ
    → Items
    → Result ParseError (List A)
parse_items parse name index nil = ok []
parse_items parse name index (cons value values) =
    let rest = parse_items parse name (suc index) values in
    do x ← parse (name, index) value; xs ← rest; ok (x ∷ xs)

unfoldable pub parse_list {ℓ} :
    {A : Type ℓ}
    → (Location → Json → Result ParseError A)
    → String
    → Fields
    → Result ParseError (List A)
unfolding parse_items
parse_list parse name data' = do values ← array_of data' name; parse_items parse name 0 values

unfoldable pub parse_graph : Fields → Result ParseError Graph
unfolding parse_list
parse_graph data' = do
  nodes ← parse_list parse_node "nodes" data'
  edges ← parse_list parse_edge "edges" data'
  bindings ← parse_list parse_binding "bindings" data'
  outputs ← parse_list parse_output "outputs" data'
  groups ← parse_list parse_group "groups" data'
  ok (record {
    nodes = nodes;
    edges = edges;
    bindings = bindings;
    outputs = outputs;
    groups = groups;
  })

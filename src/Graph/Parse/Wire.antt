-- ===== src/Graph/Parse/Wire.antt =====
-- The wire format that `parse_graph` (src/formshift_server/graph.py) reads, written.
use formshift_server.Prelude.{
  ℕ, suc, String, Option, none, some, List, [], ◌∷◌, ◌≡◌, refl, ok, Result,
}
use formshift_server.Json.{Json, null, str, arr, obj, Items, nil, cons, Fields, end, field, field?}
use formshift_server.Graph.{Node, Edge, Binding, OutputRef, OutputGroup, Graph}
use formshift_server.Graph.Parse.{
  Location, ParseError, array_of, object_of, text_of, string_of, params_of, group_of, order_of,
  parse_node, parse_edge, parse_binding, parse_output, parse_group, parse_items, parse_list,
  parse_graph,
}

abbrev pub write_node : Node → Json
write_node n =
    obj (
      field "id" (str n.id)
        (field "module" (str n.module_name) (field "params" (obj n.params) end)))

abbrev pub write_edge : Edge → Json
write_edge e = obj (
    field "from_node" (str e.from_node) (
      field "from_port" (str e.from_port)
        (field "to_node" (str e.to_node) (field "to_port" (str e.to_port) end))))

abbrev pub write_binding : Binding → Json
write_binding b =
    obj
      (field "payload" (str b.payload) (field "node" (str b.node) (field "port" (str b.port) end)))

abbrev pub write_member : Option String → Json
write_member none = null
write_member (some group) = str group

abbrev pub write_output : OutputRef → Json
write_output o = obj (
    field "node" (str o.node)
      (field "port" (str o.port) (field "group" (write_member o.group) end)))

abbrev pub write_group : OutputGroup → Json
write_group g = obj (field "id" (str g.id) (field "order" (str g.order) end))

abbrev pub write_items {ℓ} : {A : Type ℓ} → (A → Json) → List A → Items
write_items write [] = nil
write_items write (x ∷ xs) = cons (write x) (write_items write xs)

-- The document of a graph, with more fields behind those that the server knows.
abbrev pub write_graph : Graph → Fields → Fields
write_graph g more = field "nodes" (arr (write_items write_node g.nodes)) (
    field "edges" (arr (write_items write_edge g.edges)) (
      field "bindings" (arr (write_items write_binding g.bindings)) (
        field "outputs" (arr (write_items write_output g.outputs))
          (field "groups" (arr (write_items write_group g.groups)) more))))

parse_items-write {ℓ} :
    {A : Type ℓ} (parse : Location → Json → Result ParseError A) (write : A → Json) (name : String)
    → ((location : Location) (x : A) → parse location (write x) ≡ ok x)
    → (index : ℕ) (xs : List A) → parse_items parse name index (write_items write xs) ≡ ok xs
unfolding parse_items
parse_items-write parse write name back index [] = refl
parse_items-write parse write name back index (x ∷ xs) =
    rw (back (name, index) x, parse_items-write parse write name back (suc index) xs) refl

parse_node-write : (l : Location) (n : Node) → parse_node l (write_node n) ≡ ok n
unfolding parse_node object_of params_of string_of text_of field?
parse_node-write l n = refl

parse_edge-write : (l : Location) (e : Edge) → parse_edge l (write_edge e) ≡ ok e
unfolding parse_edge object_of string_of text_of field?
parse_edge-write l e = refl

parse_binding-write : (l : Location) (b : Binding) → parse_binding l (write_binding b) ≡ ok b
unfolding parse_binding object_of string_of text_of field?
parse_binding-write l b = refl

parse_group-write : (l : Location) (g : OutputGroup) → parse_group l (write_group g) ≡ ok g
unfolding parse_group object_of order_of string_of text_of field?
parse_group-write l g = refl

group_of-write : (l : Location) (g : Option String) → group_of (some (write_member g)) l ≡ ok g
unfolding group_of
group_of-write l none = refl
group_of-write l (some g) = refl

parse_output-write : (l : Location) (o : OutputRef) → parse_output l (write_output o) ≡ ok o
unfolding parse_output object_of string_of text_of field?
parse_output-write l o = rw (group_of-write l o.group) refl

-- Parsing the document of a graph gives the graph back, whatever unknown fields stand behind it.
pub parse_graph-write : (g : Graph) (more : Fields) → parse_graph (write_graph g more) ≡ ok g
unfolding parse_graph parse_list array_of field?
parse_graph-write g more =
    rw
      (
        parse_items-write parse_node write_node "nodes" parse_node-write 0 g.nodes,
        parse_items-write parse_edge write_edge "edges" parse_edge-write 0 g.edges,
        parse_items-write parse_binding write_binding "bindings" parse_binding-write 0 g.bindings,
        parse_items-write parse_output write_output "outputs" parse_output-write 0 g.outputs,
        parse_items-write parse_group write_group "groups" parse_group-write 0 g.groups,
      )
      refl

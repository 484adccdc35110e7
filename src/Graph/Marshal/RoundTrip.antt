-- ===== src/Graph/Marshal/RoundTrip.antt =====
-- Writing a node or an edge as JSON and reading it back (Go/internal/graph/node.go and edge.go).
use share_hound.Graph.Element.{Properties, Node, EdgeEndpoint, Edge}
use share_hound.Graph.Json.{
  Json, null, boolean, number, string, array, object, Members, no_members, member, field, string_in,
}
use share_hound.Graph.Marshal.{
  value_json, value_of, properties_json, properties_of, properties_in, with_properties, kinds_json,
  with_kinds, marshal_node, strings_of, kinds_of, kind_data, unmarshal_node, endpoint_json,
  marshal_edge, parse_endpoint, unmarshal_edge,
}
use share_hound.Prelude.{◌≡◌, refl, ap, List, [], ◌∷◌, some}
use share_hound.Prelude.Text.{Text, codes, eqb, to_lower}

-- A value after it was written and read: constants are strings and numbers are floats.
abbrev pub read_properties : Properties → Properties
read_properties [] = []
read_properties ((k, v) ∷ m) = (k, value_of (value_json v)) ∷ read_properties m

abbrev pub read_node : Node → Node
read_node n = record n { properties = read_properties n.properties }

abbrev pub read_edge : Edge → Edge
read_edge e = record e { properties = read_properties e.properties }

value_json-value_of : (j : Json) → value_json (value_of j) ≡ j
unfolding value_json value_of
value_json-value_of null = refl
value_json-value_of (boolean b) = refl
value_json-value_of (number z) = refl
value_json-value_of (string t) = refl
value_json-value_of (array xs) = refl
value_json-value_of (object ms) = refl

properties_json-read_properties :
    (m : Properties) → properties_json (read_properties m) ≡ properties_json m
unfolding properties_json
properties_json-read_properties [] = refl
properties_json-read_properties ((k, v) ∷ m) =
    rw (value_json-value_of (value_json v), properties_json-read_properties m) refl

properties_of-properties_json :
    (m : Properties) → properties_of (properties_json m) ≡ read_properties m
unfolding properties_json properties_of
properties_of-properties_json [] = refl
properties_of-properties_json ((k, v) ∷ m) =
    ap (λ (r : Properties). (k, value_of (value_json v)) ∷ r) (properties_of-properties_json m)

strings_of-kinds_json : (kinds : List Text) → strings_of (kinds_json kinds) ≡ kinds
unfolding strings_of kinds_json
strings_of-kinds_json [] = refl
strings_of-kinds_json (k ∷ kinds) = ap (λ (r : List Text). k ∷ r) (strings_of-kinds_json kinds)

with_properties-read : (m : Properties) → with_properties (read_properties m) ≡ with_properties m
with_properties-read [] = refl
with_properties-read ((k, v) ∷ m) =
    ap (λ (ms : Members). member (codes "properties") (object ms) no_members)
      (properties_json-read_properties ((k, v) ∷ m))

-- What was read is written as before.
pub marshal_node-read_node : (n : Node) → marshal_node (read_node n) ≡ marshal_node n
unfolding marshal_node
marshal_node-read_node n =
    ap (λ (ms : Members). object (member (codes "id") (string n.id) (with_kinds n.kinds ms)))
      (with_properties-read n.properties)

pub marshal_edge-read_edge : (e : Edge) → marshal_edge (read_edge e) ≡ marshal_edge e
unfolding marshal_edge
marshal_edge-read_edge e =
    ap
      (λ (ms : Members). object (
        member (codes "start") (endpoint_json e.start)
          (member (codes "end") (endpoint_json e.end) (member (codes "kind") (string e.kind) ms))))
      (with_properties-read e.properties)

read_fields :
    (id : Text) (kinds : List Text) (m : Properties)
    → unmarshal_node (marshal_node (record { id = id; kinds = kinds; properties = m }))
      ≡ some (record { id = id; kinds = kinds; properties = read_properties m })
unfolding marshal_node unmarshal_node field string_in properties_in kinds_of kind_data eqb to_lower
    kinds_json strings_of properties_json properties_of
read_fields id [] [] = refl
read_fields id [] ((k, v) ∷ m) = rw (properties_of-properties_json m) refl
read_fields id (k ∷ kinds) [] = rw (strings_of-kinds_json kinds) refl
read_fields id (k ∷ kinds) ((l, v) ∷ m) =
    rw (strings_of-kinds_json kinds, properties_of-properties_json m) refl

-- Reading a node that was written gives it back, but for constants and numbers.
pub unmarshal_node-marshal_node : (n : Node) → unmarshal_node (marshal_node n) ≡ some (read_node n)
unmarshal_node-marshal_node n = read_fields n.id n.kinds n.properties

read_endpoint :
    (value match_by kind : Text)
    → parse_endpoint
        (some (endpoint_json (record { value = value; match_by = match_by; kind = kind })))
      ≡ some (record { value = value; match_by = match_by; kind = kind })
unfolding parse_endpoint field string_in eqb to_lower
read_endpoint [] [] [] = refl
read_endpoint [] [] (c ∷ kind) = refl
read_endpoint [] (b ∷ match_by) [] = refl
read_endpoint [] (b ∷ match_by) (c ∷ kind) = refl
read_endpoint (a ∷ value) [] [] = refl
read_endpoint (a ∷ value) [] (c ∷ kind) = refl
read_endpoint (a ∷ value) (b ∷ match_by) [] = refl
read_endpoint (a ∷ value) (b ∷ match_by) (c ∷ kind) = refl

read_edge_fields :
    (start end : EdgeEndpoint) (kind : Text) (m : Properties)
    → unmarshal_edge
        (marshal_edge (record { start = start; end = end; kind = kind; properties = m }))
      ≡ some (record { start = start; end = end; kind = kind; properties = read_properties m })
unfolding marshal_edge unmarshal_edge field string_in properties_in eqb to_lower properties_json
    properties_of
read_edge_fields start end kind [] =
    rw
      (
        read_endpoint start.value start.match_by start.kind,
        read_endpoint end.value end.match_by end.kind,
      )
      refl
read_edge_fields start end kind ((k, v) ∷ m) =
    rw
      (
        read_endpoint start.value start.match_by start.kind,
        read_endpoint end.value end.match_by end.kind,
        properties_of-properties_json m,
      )
      refl

-- Reading an edge that was written gives it back, but for constants and numbers.
pub unmarshal_edge-marshal_edge : (e : Edge) → unmarshal_edge (marshal_edge e) ≡ some (read_edge e)
unmarshal_edge-marshal_edge e = read_edge_fields e.start e.end e.kind e.properties

-- ===== src/Graph/Marshal.antt =====
-- Go/internal/graph/node.go and edge.go: nodes and edges as JSON and back.
use share_hound.Graph.Element.{
  Value, text, constant, natural, negative, flag, decoded, Properties, Node, new_node, EdgeEndpoint,
  Edge,
}
use share_hound.Graph.Json.{
  Json, null, boolean, number, string, array, object, Items, no_items, item, Members, no_members,
  member, field, string_in,
}
use share_hound.Prelude.{Bool, List, [], ◌∷◌, Option, none, some}
use share_hound.Prelude.Int.{pos, negsuc}
use share_hound.Prelude.Text.{Text, codes}
pub mod RoundTrip
pub mod Plain

-- How encoding/json writes a value of `map[string]interface{}`, and what it reads there.
unfoldable pub value_json : Value → Json
value_json (text t) = string t
value_json (constant c) = string (codes c)
value_json (natural n) = number (pos n)
value_json (negative n) = number (negsuc n)
value_json (flag b) = boolean b
value_json (decoded j) = j

unfoldable pub value_of : Json → Value
value_of (string t) = text t
value_of (boolean b) = flag b
value_of j = decoded j

unfoldable pub properties_json : Properties → Members
unfolding value_json
properties_json [] = no_members
properties_json ((k, v) ∷ m) = member k (value_json v) (properties_json m)

unfoldable pub properties_of : Members → Properties
unfolding value_of
properties_of no_members = []
properties_of (member k x ms) = (k, value_of x) ∷ properties_of ms

-- A member into a field that is a map of properties: `none` is an error.
unfoldable pub properties_in : Option Json → Option Properties
unfolding properties_of
properties_in none = some []
properties_in (some null) = some []
properties_in (some (object ms)) = some (properties_of ms)
properties_in (some _) = none

-- A member that is left out if it is empty.
abbrev pub with_properties : Properties → Members
with_properties [] = no_members
with_properties (p ∷ m) = member (codes "properties") (object (properties_json (p ∷ m))) no_members

abbrev pub with_text : Text → Text → Members → Members
with_text name [] ms = ms
with_text name (c ∷ t) ms = member name (string (c ∷ t)) ms

unfoldable pub kinds_json : List Text → Items
kinds_json [] = no_items
kinds_json (k ∷ kinds) = item (string k) (kinds_json kinds)

abbrev pub with_kinds : List Text → Members → Members
with_kinds [] ms = ms
with_kinds (k ∷ kinds) ms = member (codes "kinds") (array (kinds_json (k ∷ kinds))) ms

-- `(*Node).MarshalJSON`
unfoldable pub marshal_node : Node → Json
unfolding kinds_json properties_json
marshal_node n =
    object (member (codes "id") (string n.id) (with_kinds n.kinds (with_properties n.properties)))

-- The strings of a list.
unfoldable pub strings_of : Items → List Text
strings_of no_items = []
strings_of (item (string t) xs) = t ∷ strings_of xs
strings_of (item _ xs) = strings_of xs

-- The switch on `kindData`.
unfoldable pub kinds_of : Option Json → List Text
unfolding strings_of
kinds_of (some (string t)) = t ∷ []
kinds_of (some (array xs)) = strings_of xs
kinds_of _ = []

-- `kindData`: `kinds`, or `kind` if that is nil
unfoldable pub kind_data : Option Json → Option Json → Option Json
kind_data none kind = kind
kind_data (some null) kind = kind
kind_data (some x) kind = some x

-- `(*Node).UnmarshalJSON` into a new node: `none` is an error.
unfoldable pub unmarshal_node : Json → Option Node
unfolding field string_in properties_in kinds_of kind_data
unmarshal_node null = some (new_node [] [])
unmarshal_node (object ms) = elim (string_in (field (codes "id") ms)) [
  | none ↦ none
  | some id ↦ elim (properties_in (field (codes "properties") ms)) [
    | none ↦ none
    | some properties ↦ some (record {
      id = id;
      kinds = kinds_of (kind_data (field (codes "kinds") ms) (field (codes "kind") ms));
      properties = properties;
    })
  ]
]
unmarshal_node _ = none

-- One endpoint in `(*Edge).MarshalJSON`
abbrev pub endpoint_json : EdgeEndpoint → Json
endpoint_json p = object (
    with_text (codes "value") p.value
      (with_text (codes "match_by") p.match_by (with_text (codes "kind") p.kind no_members)))

-- `(*Edge).MarshalJSON`
unfoldable pub marshal_edge : Edge → Json
unfolding properties_json
marshal_edge e = object (
    member (codes "start") (endpoint_json e.start) (
      member (codes "end") (endpoint_json e.end)
        (member (codes "kind") (string e.kind) (with_properties e.properties))))

-- The first of three strings that is not empty.
abbrev pub first_text : Text → Text → Text → Text
first_text (c ∷ value) id name = c ∷ value
first_text [] (c ∷ id) name = c ∷ id
first_text [] [] name = name

abbrev no_endpoint : EdgeEndpoint
no_endpoint = record { value = []; match_by = []; kind = [] }

-- The object in `parseEndpoint`, with its five fields.
abbrev endpoint_fields :
    Option Text → Option Text → Option Text → Option Text → Option Text → Option EdgeEndpoint
endpoint_fields (some value) (some id) (some name) (some match_by) (some kind) =
    some (record { value = first_text value id name; match_by = match_by; kind = kind })
endpoint_fields _ _ _ _ _ = none

-- `parseEndpoint` into a new endpoint: `none` is an error.
unfoldable pub parse_endpoint : Option Json → Option EdgeEndpoint
unfolding field string_in
parse_endpoint none = some no_endpoint
parse_endpoint (some null) = some no_endpoint
parse_endpoint (some (string t)) = some (record { value = t; match_by = []; kind = [] })
parse_endpoint (some (object ms)) =
    endpoint_fields (string_in (field (codes "value") ms)) (string_in (field (codes "id") ms))
      (string_in (field (codes "name") ms)) (string_in (field (codes "match_by") ms))
      (string_in (field (codes "kind") ms))
parse_endpoint (some _) = none

abbrev edge_fields :
    Option Text → Option Properties → Option EdgeEndpoint → Option EdgeEndpoint → Option Edge
edge_fields (some kind) (some properties) (some start) (some end) =
    some (record { start = start; end = end; kind = kind; properties = properties })
edge_fields _ _ _ _ = none

-- `(*Edge).UnmarshalJSON` into a new edge: `none` is an error.
unfoldable pub unmarshal_edge : Json → Option Edge
unfolding field string_in properties_in parse_endpoint
unmarshal_edge null =
    some (record { start = no_endpoint; end = no_endpoint; kind = []; properties = [] })
unmarshal_edge (object ms) =
    edge_fields (string_in (field (codes "kind") ms))
      (properties_in (field (codes "properties") ms)) (parse_endpoint (field (codes "start") ms))
      (parse_endpoint (field (codes "end") ms))
unmarshal_edge _ = none

-- ===== src/Graph/Element.antt =====
-- Go/internal/graph/node.go and edge.go: nodes and edges; their JSON form is in Marshal. A Go map of
-- properties is a list of pairs with different keys. The setters return their receiver, which they
-- change; here they return the changed value.
use Prim.Native.String.{String}
use share_hound.Graph.Json.{Json}
use share_hound.Prelude.{ℕ, Bool, List, [], ◌∷◌, Option, none, some, if◌then◌else◌}
use share_hound.Prelude.Text.{Text, codes, eqb}

-- What is stored under a property: a string, a string constant of the source, an `int` or `int64`
-- that is not negative, one below zero by its distance to -1, a `bool`, or another
-- value that was read from JSON, such as a float64.
pub data Value : Type 0 where
  text : Text → Value
  constant : String → Value
  natural : ℕ → Value
  negative : ℕ → Value
  flag : Bool → Value
  decoded : Json → Value

abbrev pub Properties : Type 0
Properties = List (Text × Value)

unfoldable pub set_value : Text → Value → Properties → Properties
set_value key v [] = (key, v) ∷ []
set_value key v ((k, w) ∷ m) = if eqb k key then (k, v) ∷ m else (k, w) ∷ set_value key v m

unfoldable pub get_value : Text → Properties → Option Value
get_value key [] = none
get_value key ((k, v) ∷ m) = if eqb k key then some v else get_value key m

pub record Node : Type 0 where
  pub id : Text
  pub kinds : List Text
  pub properties : Properties

-- `NewNode`
abbrev pub new_node : Text → List Text → Node
new_node id kinds = record { id = id; kinds = kinds; properties = [] }

-- `(*Node).SetProperty`
unfoldable pub set_property : Text → Value → Node → Node
set_property key v n = record n { properties = set_value key v n.properties }

-- `(*Node).GetProperty`
unfoldable pub get_property : Text → Node → Option Value
get_property key n = get_value key n.properties

abbrev string_value : Option Value → Text
string_value (some (text t)) = t
string_value (some (constant c)) = codes c
string_value _ = []

-- `(*Node).GetStringProperty`: the empty string if there is none or it is no string
unfoldable pub get_string_property : Text → Node → Text
unfolding get_property
get_string_property key n = string_value (get_property key n)

pub record EdgeEndpoint : Type 0 where
  pub value : Text
  pub match_by : Text
  pub kind : Text

pub record Edge : Type 0 where
  pub start : EdgeEndpoint
  pub end : EdgeEndpoint
  pub kind : Text
  pub properties : Properties

-- `NewEdge`
abbrev pub new_edge : Text → Text → Text → Edge
new_edge start_node_id end_node_id kind = record {
  start = record { value = start_node_id; match_by = []; kind = [] };
  end = record { value = end_node_id; match_by = []; kind = [] };
  kind = kind;
  properties = [];
}

-- `NewEdgeByName`
abbrev pub new_edge_by_name : Text → Text → Text → Edge
new_edge_by_name start_name end_name kind = record {
  start = record { value = start_name; match_by = codes "name"; kind = [] };
  end = record { value = end_name; match_by = codes "name"; kind = [] };
  kind = kind;
  properties = [];
}

-- `(*Edge).SetStartMatchBy`
abbrev pub set_start_match_by : Text → Edge → Edge
set_start_match_by m e = record e { start = record (e.start) { match_by = m } }

-- `(*Edge).SetEndMatchBy`
abbrev pub set_end_match_by : Text → Edge → Edge
set_end_match_by m e = record e { end = record (e.end) { match_by = m } }

-- `(*Edge).SetStartKind`
abbrev pub set_start_kind : Text → Edge → Edge
set_start_kind k e = record e { start = record (e.start) { kind = k } }

-- `(*Edge).SetEndKind`
abbrev pub set_end_kind : Text → Edge → Edge
set_end_kind k e = record e { end = record (e.end) { kind = k } }

-- `(*Edge).SetProperty`
abbrev pub set_edge_property : Text → Value → Edge → Edge
set_edge_property key v e = record e { properties = set_value key v e.properties }

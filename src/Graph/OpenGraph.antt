-- ===== src/Graph/OpenGraph.antt =====
-- Go/internal/graph/opengraph.go: the store. A temporary file of JSON lines is the list of the objects
-- that were written to it, whose lines are read by way of their JSON; the files themselves can be written
-- and opened. Each operation holds the
-- mutex from its start to its end, so operations of several goroutines happen one after the other.
use share_hound.Graph.Element.{Node, Edge}
use share_hound.Graph.Json.{Json, Encoding, reread}
use share_hound.Graph.Marshal.{marshal_node, marshal_edge, unmarshal_node, unmarshal_edge}
use share_hound.Prelude.{
  ℕ, ◌+◌, ◌/◌, Bool, true, false, ◌&&◌, List, [], ◌∷◌, ◌++◌, Option, none, some, if◌then◌else◌, ltb,
  leb, length, map,
}
use share_hound.Prelude.Text.{Text, eqb, elem}
pub mod Keys
pub mod Consistent
pub mod Restored
pub mod Restore

pub record EdgeKey : Type 0 where
  pub start_value : Text
  pub start_match_by : Text
  pub start_kind : Text
  pub end_value : Text
  pub end_match_by : Text
  pub end_kind : Text
  pub kind : Text

-- `newEdgeKey`
abbrev pub new_edge_key : Edge → EdgeKey
new_edge_key e = record {
  start_value = e.start.value;
  start_match_by = e.start.match_by;
  start_kind = e.start.kind;
  end_value = e.end.value;
  end_match_by = e.end.match_by;
  end_kind = e.end.kind;
  kind = e.kind;
}

-- `==` on the struct
unfoldable pub key_eqb : EdgeKey → EdgeKey → Bool
key_eqb a b =
    eqb a.start_value b.start_value
    && (eqb a.start_match_by b.start_match_by
        && (eqb a.start_kind b.start_kind
            && (eqb a.end_value b.end_value
                && (eqb a.end_match_by b.end_match_by
                    && (eqb a.end_kind b.end_kind && eqb a.kind b.kind)))))

-- `_, exists := g.edgeKeys[key]`
unfoldable pub has_key : EdgeKey → List EdgeKey → Bool
has_key k [] = false
has_key k (j ∷ js) = if key_eqb j k then true else has_key k js

pub record OpenGraph : Type 0 where
  pub source_kind : Text
  pub node_ids : List Text
  pub edge_keys : List EdgeKey
  pub edge_count : ℕ
  pub node_file : List Node
  pub edge_file : List Edge

-- `NewOpenGraph`, when both temporary files could be created
abbrev pub new_open_graph : Text → OpenGraph
new_open_graph source_kind = record {
  source_kind = source_kind;
  node_ids = [];
  edge_keys = [];
  edge_count = 0;
  node_file = [];
  edge_file = [];
}

-- `AddNode`
unfoldable pub add_node : Node → OpenGraph → OpenGraph
add_node n g =
    if elem n.id g.node_ids
    then g
    else record g { node_ids = g.node_ids ++ (n.id ∷ []); node_file = g.node_file ++ (n ∷ []) }

-- `AddNodeWithoutValidation`
abbrev pub add_node_without_validation : Node → OpenGraph → OpenGraph
add_node_without_validation = add_node

-- `addEdgeLocked`, the body of `AddEdge`
unfoldable pub add_edge : Edge → OpenGraph → OpenGraph × Bool
add_edge e g =
    let key = new_edge_key e in
    if has_key key g.edge_keys then (g, false) else (
      record g {
        edge_keys = g.edge_keys ++ (key ∷ []);
        edge_count = g.edge_count + 1;
        edge_file = g.edge_file ++ (e ∷ []);
      },
      true,
    )

-- `AddEdgeWithoutValidation`
abbrev pub add_edge_without_validation : Edge → OpenGraph → OpenGraph × Bool
add_edge_without_validation = add_edge

-- The lines of the two files as they are read.
abbrev pub node_lines : Encoding → OpenGraph → List Json
node_lines enc g = map (λ n. reread enc (marshal_node n)) g.node_file

abbrev pub edge_lines : Encoding → OpenGraph → List Json
edge_lines enc g = map (λ e. reread enc (marshal_edge e)) g.edge_file

-- The scan of `GetNode` over the lines of the file, up to the first that is no node.
unfoldable pub find_node : Text → List Json → Option Node
find_node id [] = none
find_node id (line ∷ lines) =
    let rest = find_node id lines in
    elim (unmarshal_node line) [ none ↦ none | some n ↦ if eqb n.id id then some n else rest ]

-- `GetNode`
unfoldable pub get_node : Encoding → Text → OpenGraph → Option Node
get_node enc id g = if elem id g.node_ids then find_node id (node_lines enc g) else none

-- `GetNodeCount`
abbrev pub get_node_count : OpenGraph → ℕ
get_node_count g = length g.node_ids

-- `GetEdgeCount`
abbrev pub get_edge_count : OpenGraph → ℕ
get_edge_count g = g.edge_count

-- One round of a loop of `GetNodesAndEdges`, given what the rounds behind it read: an error ends it.
abbrev pub decode_line : {A : Type 0} → Option A → List A → List A
decode_line none rest = []
decode_line (some a) rest = a ∷ rest

-- A loop of `GetNodesAndEdges` over the lines of a file.
unfoldable pub decode_lines : {A : Type 0} → (Json → Option A) → List Json → List A
decode_lines decode [] = []
decode_lines decode (line ∷ lines) = decode_line (decode line) (decode_lines decode lines)

-- `GetNodesAndEdges`
unfoldable pub get_nodes_and_edges : Encoding → OpenGraph → List Node × List Edge
unfolding decode_lines
get_nodes_and_edges enc g =
    (decode_lines unmarshal_node (node_lines enc g), decode_lines unmarshal_edge (edge_lines enc g))

-- `g.nodeIDs[node.ID] = struct{}{}`
abbrev insert_id : Text → List Text → List Text
insert_id id ids = if elem id ids then ids else ids ++ (id ∷ [])

-- The first loop of `RestoreNodesAndEdges`: every node is written, seen before or not.
unfoldable pub restore_nodes : List Node → OpenGraph → OpenGraph
restore_nodes [] g = g
restore_nodes (n ∷ ns) g =
    restore_nodes ns
      (record g { node_ids = insert_id n.id g.node_ids; node_file = g.node_file ++ (n ∷ []) })

-- The second loop.
unfoldable pub restore_edges : List Edge → OpenGraph → OpenGraph
restore_edges [] g = g
restore_edges (e ∷ es) g = restore_edges es (add_edge e g).0

-- `RestoreNodesAndEdges`
unfoldable pub restore_nodes_and_edges : List Node → List Edge → OpenGraph → OpenGraph
unfolding restore_nodes restore_edges
restore_nodes_and_edges nodes edges g =
    restore_edges edges (restore_nodes nodes (new_open_graph g.source_kind))

-- `progressInterval`; a count is not negative
unfoldable pub progress_interval : ℕ → ℕ
progress_interval total =
    if leb total 0 then 1 else let interval = total / 25 in if ltb interval 1 then 1 else interval

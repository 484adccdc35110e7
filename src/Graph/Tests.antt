-- ===== src/Graph/Tests.antt =====
-- A small graph, and the theorems of Go/internal/graph on it.
use share_hound.Collector.Rights.{ShareRights}
use share_hound.Graph.Context.{
  Context, new_open_graph_context, set_element, set_host, set_share, set_share_rights,
}
use share_hound.Graph.Element.{natural, flag, decoded, Node, Edge, new_node, new_edge}
use share_hound.Graph.Emission.Accounts.{
  IsSound, add_path_to_graph-IsSound, total_edges_created-add_path_to_graph,
}
use share_hound.Graph.Emission.Emit.{IsReady}
use share_hound.Graph.Emission.Total.{HasKind, add_path_to_graph-ok}
use share_hound.Graph.Emission.{add_path_to_graph}
use share_hound.Graph.Json.{Encoding, number, reread}
use share_hound.Graph.Marshal.{unmarshal_node, marshal_node}
use share_hound.Graph.Marshal.Plain.{PlainKeys}
use share_hound.Prelude.Int.{pos, negsuc}
use share_hound.Graph.OpenGraph.Consistent.{
  Consistent, new_open_graph-Consistent, add_node-Consistent, add_edge-Consistent, AddsEdge,
  add_edge_lem,
}
use share_hound.Graph.OpenGraph.Restore.{SameGraph, IsPlain, restore-get_nodes_and_edges}
use share_hound.Graph.OpenGraph.{
  OpenGraph, new_open_graph, add_node, add_edge, get_nodes_and_edges, restore_nodes_and_edges,
  has_key,
}
use share_hound.Kinds.{
  node_kind_directory, node_kind_network_share_host, node_kind_network_share_smb,
  edge_kind_can_share_read, edge_kind_can_ntfs_read_data,
}
use share_hound.Prelude.{ltb, map, if◌then◌else◌, ◌+◌, ◌≡◌, refl, true, [], ◌∷◌, some}
use share_hound.Prelude.Outcome.{ok}
use share_hound.Prelude.Text.{codes, elem, eqb, to_lower}

abbrev host : Node
host = new_node (codes "HOST:a") (node_kind_network_share_host ∷ [])

abbrev share : Node
share = new_node (codes "SHARE:a/b") (node_kind_network_share_smb ∷ [])

abbrev folder : Node
folder = new_node (codes "DIR:a/b/c") (node_kind_directory ∷ [])

abbrev empty : OpenGraph
empty = new_open_graph (codes "ShareHound")

abbrev with_host : OpenGraph
with_host = add_node host empty

with_host-Consistent : Consistent with_host
with_host-Consistent =
    add_node-Consistent host empty (new_open_graph-Consistent (codes "ShareHound"))

abbrev link : Edge
link = new_edge (codes "HOST:a") (codes "SHARE:a/b") (codes "HasNetworkShare")

add_edge_lem_example :
    AddsEdge link with_host (add_edge link with_host).0 (add_edge link with_host).1
add_edge_lem_example = add_edge_lem link with_host with_host-Consistent

link_written : (add_edge link with_host).1 ≡ true
unfolding add_edge has_key add_node elem
link_written = refl

-- Bytes outside of ASCII are replaced, and numbers are exact below 2^53.
abbrev ascii : Encoding
ascii = record {
  read_text = map (λ c. if ltb c 128 then c else 63);
  read_number = λ z. elim z [
    | pos n ↦ if ltb n 9007199254740992 then pos n else pos 9007199254740992
    | negsuc n ↦ negsuc n
  ];
}

ascii-PlainKeys : PlainKeys ascii
ascii-PlainKeys = record {
  id = refl;
  kinds = refl;
  properties = refl;
  start = refl;
  end_key = refl;
  kind = refl;
  value = refl;
  match_by = refl;
}

abbrev big_file : Node
big_file = record {
  id = codes "FILE:a";
  kinds = codes "File" ∷ [];
  properties = (codes "size", natural 3000000) ∷ (codes "hidden", flag true) ∷ [];
}

abbrev stored : OpenGraph
stored = (add_edge link (add_node big_file empty)).0

stored-Consistent : Consistent stored
stored-Consistent =
    add_edge-Consistent link (add_node big_file empty)
      (add_node-Consistent big_file empty (new_open_graph-Consistent (codes "ShareHound")))

stored-IsPlain : IsPlain ascii stored
unfolding add_edge add_node elem has_key
stored-IsPlain = record {
  keys = ascii-PlainKeys;
  nodes =
      (record { id = refl; kinds = (refl, tt); properties = ((refl, refl), ((refl, tt), tt)) }, tt);
  edges = (
    record {
      start = record { value = refl; match_by = refl; kind = refl };
      end_point = record { value = refl; match_by = refl; kind = refl };
      kind = refl;
      properties = tt;
    },
    tt,
  );
}

-- The size comes back as a float.
size_comes_back :
    (get_nodes_and_edges ascii stored).0
    ≡ record big_file {
      properties =
          (codes "size", decoded (number (pos 3000000))) ∷ (codes "hidden", flag true) ∷ [];
    }
      ∷ []
unfolding get_nodes_and_edges add_edge has_key add_node elem unmarshal_node reread marshal_node eqb
    to_lower
size_comes_back = refl

restore-get_nodes_and_edges_example :
    SameGraph
      (restore_nodes_and_edges
        (get_nodes_and_edges ascii stored).0
        (get_nodes_and_edges ascii stored).1
        (add_node share empty))
      stored
unfolding add_edge add_node has_key elem
restore-get_nodes_and_edges_example =
    restore-get_nodes_and_edges ascii stored (add_node share empty) stored-Consistent stored-IsPlain
      refl

-- A folder of the share, as the worker sets the context up.
abbrev inside : Context
inside = set_element folder (
    set_share_rights ((codes "S-1-1-0", edge_kind_can_share_read ∷ []) ∷ [])
      (set_share share (set_host host (new_open_graph_context empty))))

inside-IsReady : IsReady inside
inside-IsReady = (tt, λ s e f. cc)

inside-IsSound : IsSound inside
inside-IsSound = record {
  consistent = new_open_graph-Consistent (codes "ShareHound");
  anchored = tt;
  ready = inside-IsReady;
}

share-HasKind : HasKind (some share)
share-HasKind n e = λ f. cc

folder-HasKind : HasKind (some folder)
folder-HasKind n e = λ f. cc

abbrev after : (c' : Context) × (add_path_to_graph inside ≡ ok c')
after = add_path_to_graph-ok inside inside-IsReady share-HasKind folder-HasKind

add_path_to_graph-ok_example : (c' : Context) × (add_path_to_graph inside ≡ ok c')
add_path_to_graph-ok_example =
    add_path_to_graph-ok inside inside-IsReady share-HasKind folder-HasKind

add_path_to_graph-IsSound_example : IsSound after.0
add_path_to_graph-IsSound_example = add_path_to_graph-IsSound inside after.0 inside-IsSound after.1

total_edges_created-add_path_to_graph_example :
    after.0.total_edges_created + 0 ≡ 0 + after.0.graph.edge_count
total_edges_created-add_path_to_graph_example =
    total_edges_created-add_path_to_graph inside after.0 inside-IsSound after.1

abbrev readable : ShareRights
readable = (codes "S-1-1-0", edge_kind_can_ntfs_read_data ∷ []) ∷ []

-- ===== src/Checkpoint/Tests.antt =====
-- A small scan, saved and resumed, and the theorems of Go/internal/checkpoint on it.
use share_hound.Checkpoint.Resume.{
  restore_from-save_checkpoint, is_target_processed-mark_target_processed,
  mark_target_processed-ne-panic,
}
use share_hound.Checkpoint.{
  Manager, Checkpoint, CheckpointFile, load, new_manager, mark_target_processed,
  is_target_processed, save_checkpoint, restore_from, has_target,
}
use share_hound.Graph.Element.{Node, new_node}
use share_hound.Graph.Json.{Encoding, reread}
use share_hound.Graph.Marshal.{marshal_node, unmarshal_node}
use share_hound.Graph.OpenGraph.Restore.{SameGraph, IsPlain}
use share_hound.Graph.OpenGraph.Consistent.{
  Consistent, new_open_graph-Consistent, add_node-Consistent,
}
use share_hound.Graph.OpenGraph.{
  OpenGraph, new_open_graph, add_node, get_nodes_and_edges, restore_nodes_and_edges,
}
use share_hound.Prelude.{ltb, map, if◌then◌else◌, ◌≡◌, ◌≢◌, refl, true, [], ◌∷◌, some}
use share_hound.Prelude.Outcome.{ok, panic}
use share_hound.Prelude.Text.{codes, elem, eqb, to_lower}

abbrev host : Node
host = new_node (codes "HOST:a") (codes "NetworkShareHost" ∷ [])

abbrev scanned : OpenGraph
scanned = add_node host (new_open_graph (codes "ShareHound"))

scanned-Consistent : Consistent scanned
scanned-Consistent =
    add_node-Consistent host (new_open_graph (codes "ShareHound"))
      (new_open_graph-Consistent (codes "ShareHound"))

abbrev one_done : Manager
one_done = record {
  filepath = codes "scan.json";
  processed_targets = some (codes "a" ∷ []);
  enabled = true;
}

mark_one : mark_target_processed (codes "a") (new_manager (codes "scan.json")) ≡ ok one_done
unfolding mark_target_processed eqb elem
mark_one = refl

-- Bytes outside of ASCII are replaced; numbers are exact.
abbrev ascii : Encoding
ascii = record { read_text = map (λ c. if ltb c 128 then c else 63); read_number = λ z. z }

abbrev saved : CheckpointFile
saved = record {
  processed_targets = some (codes "a" ∷ []);
  total_targets = 2;
  nodes = marshal_node host ∷ [];
  edges = [];
}

save_one : save_checkpoint ascii one_done scanned 2 ≡ some saved
unfolding save_checkpoint get_nodes_and_edges add_node elem unmarshal_node reread marshal_node eqb
    to_lower
save_one = refl

scanned-IsPlain : IsPlain ascii scanned
unfolding add_node elem
scanned-IsPlain = record {
  keys = record {
    id = refl;
    kinds = refl;
    properties = refl;
    start = refl;
    end_key = refl;
    kind = refl;
    value = refl;
    match_by = refl;
  };
  nodes = (record { id = refl; kinds = (refl, tt); properties = tt }, tt);
  edges = tt;
}

restore_from-save_checkpoint_example :
    (cp : Checkpoint) × (load ascii saved ≡ some cp)
    × (is_target_processed (codes "a") (restore_from cp (new_manager (codes "scan.json"))) ≡ true)
    × SameGraph
        (restore_nodes_and_edges cp.graph_nodes cp.graph_edges
          (new_open_graph (codes "ShareHound")))
        scanned
unfolding add_node elem has_target eqb
restore_from-save_checkpoint_example =
    restore_from-save_checkpoint ascii one_done scanned 2 scanned-Consistent scanned-IsPlain
      (refl, tt) (new_manager (codes "scan.json")) (new_open_graph (codes "ShareHound")) saved
      (codes "a") save_one refl refl

is_target_processed-mark_target_processed_example : is_target_processed (codes "a") one_done ≡ true
unfolding eqb
is_target_processed-mark_target_processed_example =
    is_target_processed-mark_target_processed (codes "a") (codes "a")
      (new_manager (codes "scan.json")) one_done refl mark_one

abbrev loaded_one : Checkpoint
loaded_one = record {
  processed_targets = some (codes "a" ∷ []);
  total_targets = 2;
  graph_nodes = host ∷ [];
  graph_edges = [];
}

load_one : load ascii saved ≡ some loaded_one
unfolding load unmarshal_node reread marshal_node eqb to_lower
load_one = refl

mark_target_processed-ne-panic_example :
    mark_target_processed (codes "b") (restore_from loaded_one one_done) ≢ panic
mark_target_processed-ne-panic_example =
    mark_target_processed-ne-panic ascii one_done one_done scanned 2 saved loaded_one (codes "b")
      save_one load_one

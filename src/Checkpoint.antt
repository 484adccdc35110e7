-- ===== src/Checkpoint.antt =====
-- Go/internal/checkpoint/checkpoint.go: which targets are done, and what is saved of the scan. A map that
-- is nil is none, and writing to it panics. The file can be written and opened, and is read by way of
-- its JSON; its time and its counters, which nothing reads back, are left out, as are the goroutine that saves periodically and the
-- lines on the terminal. A target is its value.
use share_hound.Graph.Element.{Node, Edge}
use share_hound.Graph.Json.{Json, Encoding, reread}
use share_hound.Graph.Marshal.{marshal_node, marshal_edge, unmarshal_node, unmarshal_edge}
use share_hound.Graph.OpenGraph.{OpenGraph, get_nodes_and_edges, restore_nodes_and_edges}
use share_hound.Prelude.{
  ℕ, ◌≡◌, Bool, true, false, not, List, [], ◌∷◌, Option, none, some, if◌then◌else◌, length, map,
}
use share_hound.Prelude.Outcome.{Outcome, ok, panic, ◌>>=◌}
use share_hound.Prelude.Text.{Text, eqb, elem}
pub mod Resume
mod Tests

pub record Manager : Type 0 where
  pub filepath : Text
  pub processed_targets : Option (List Text)
  pub enabled : Bool

pub record Checkpoint : Type 0 where
  pub processed_targets : Option (List Text)
  pub total_targets : ℕ
  pub graph_nodes : List Node
  pub graph_edges : List Edge

-- `NewManager`
abbrev pub new_manager : Text → Manager
new_manager filepath = record {
  filepath = filepath;
  processed_targets = some [];
  enabled = not (eqb filepath []);
}

-- `m.processedTargets[target.Value] = true`
unfoldable pub put_target : Text → Option (List Text) → Outcome ⊥ (Option (List Text))
put_target target none = panic
put_target target (some done) = ok (some (if elem target done then done else target ∷ done))

-- `MarkTargetProcessed`
unfoldable pub mark_target_processed : Text → Manager → Outcome ⊥ Manager
unfolding put_target
mark_target_processed target m =
    if not m.enabled
    then ok m
    else do done ← put_target target m.processed_targets; ok (record m { processed_targets = done })

-- `m.processedTargets[target.Value]`; a nil map has no entries.
unfoldable pub has_target : Text → Option (List Text) → Bool
has_target target none = false
has_target target (some done) = elem target done

-- `IsTargetProcessed`
unfoldable pub is_target_processed : Text → Manager → Bool
unfolding has_target
is_target_processed target m =
    if not m.enabled then false else has_target target m.processed_targets

-- The copy that `saveCheckpoint` makes of the map.
abbrev pub copied : Option (List Text) → Option (List Text)
copied none = some []
copied (some done) = some done

-- The JSON that `saveCheckpoint` writes to the file, for the fields that are read back: the object of the
-- done targets by its keys, `null` being none, and the arrays of the nodes and the edges.
pub record CheckpointFile : Type 0 where
  pub processed_targets : Option (List Text)
  pub total_targets : ℕ
  pub nodes : List Json
  pub edges : List Json

-- `saveCheckpoint`: the file, or none if there is no file to write.
unfoldable pub save_checkpoint : Encoding → Manager → OpenGraph → ℕ → Option CheckpointFile
save_checkpoint enc m og total_targets =
    if not m.enabled
    then none
    else let r = get_nodes_and_edges enc og in
      some (record {
        processed_targets = copied m.processed_targets;
        total_targets = total_targets;
        nodes = map marshal_node r.0;
        edges = map marshal_edge r.1;
      })

abbrev pub decode_cons : {A : Type 0} → Option A → Option (List A) → Option (List A)
decode_cons (some a) (some read) = some (a ∷ read)
decode_cons _ _ = none

-- An array of nodes or of edges, each read from its JSON in the file, where none is `null`; `none` is an
-- error.
unfoldable pub decode_array :
    {A : Type 0} → Encoding → (Json → Option A) → List Json → Option (List A)
decode_array enc decode [] = some []
decode_array enc decode (x ∷ xs) = decode_cons (decode (reread enc x)) (decode_array enc decode xs)

-- The keys of a map.
abbrev pub read_targets : Encoding → Option (List Text) → Option (List Text)
read_targets enc none = none
read_targets enc (some done) = some (map enc.read_text done)

abbrev checkpoint :
    Option (List Text) → ℕ → Option (List Node) → Option (List Edge) → Option Checkpoint
checkpoint targets total (some nodes) (some edges) = some (record {
  processed_targets = targets;
  total_targets = total;
  graph_nodes = nodes;
  graph_edges = edges;
})
checkpoint targets total _ _ = none

-- `Load`; an error is none.
unfoldable pub load : Encoding → CheckpointFile → Option Checkpoint
unfolding decode_array
load enc file =
    checkpoint (read_targets enc file.processed_targets) file.total_targets
      (decode_array enc unmarshal_node file.nodes) (decode_array enc unmarshal_edge file.edges)

-- `RestoreFrom`
abbrev pub restore_from : Checkpoint → Manager → Manager
restore_from cp m = record m { processed_targets = cp.processed_targets }

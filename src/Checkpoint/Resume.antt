-- ===== src/Checkpoint/Resume.antt =====
-- Saving a checkpoint and restoring from it (Go/internal/checkpoint/checkpoint.go).
use share_hound.Checkpoint.{
  Manager, Checkpoint, CheckpointFile, put_target, mark_target_processed, has_target,
  is_target_processed, copied, save_checkpoint, decode_cons, decode_array, read_targets, checkpoint,
  load, restore_from,
}
use share_hound.Graph.Element.{Node, Edge}
use share_hound.Graph.Json.{Json, Encoding, reread}
use share_hound.Graph.Marshal.Plain.{PlainText, PlainKeys, PlainNode, PlainEdge}
use share_hound.Graph.Marshal.RoundTrip.{read_node, read_edge}
use share_hound.Graph.Marshal.{marshal_node, marshal_edge, unmarshal_node, unmarshal_edge}
use share_hound.Graph.OpenGraph.Consistent.{Consistent}
use share_hound.Graph.OpenGraph.Restore.{
  SameGraph, IsPlain, read_back_node, read_back_edge, lines-read_node, lines-read_edge, read_nodes,
  read_edges, restored-SameGraph,
}
use share_hound.Graph.OpenGraph.{OpenGraph, get_nodes_and_edges, restore_nodes_and_edges}
use share_hound.Prelude.{
  ℕ, ◌≡◌, ◌≢◌, refl, sym, ap, ◌∙◌, subst, true, ◌||◌, List, [], ◌∷◌, Option, none, some, All, map,
  arith, Bool-cases, inl, inr,
}
use share_hound.Prelude.Outcome.{ok, panic, >>=-ne-panic}
use share_hound.Prelude.Text.{Text, eqb, eqb_iff, elem}

same_targets :
    (target : Text) (done : Option (List Text))
    → has_target target (copied done) ≡ has_target target done
unfolding has_target elem
same_targets target none = refl
same_targets target (some done) = refl

-- Reading the array of the nodes of a graph, which were read once before.
decode_step :
    {A : Type 0} (enc : Encoding) (decode : Json → Option A) (x : Json) (xs : List Json) (a : A)
    (read : List A)
    → decode (reread enc x) ≡ some a
    → decode_array enc decode xs ≡ some read
    → decode_array enc decode (x ∷ xs) ≡ some (a ∷ read)
unfolding decode_array
decode_step enc decode x xs a read e k =
    ap (λ d. decode_cons d (decode_array enc decode xs)) e ∙ ap (decode_cons (some a)) k

read_node_array :
    (enc : Encoding) (ns : List Node)
    → PlainKeys enc
    → All (PlainNode enc) ns
    → decode_array enc unmarshal_node (map marshal_node ns) ≡ some (map read_node ns)
unfolding decode_array
read_node_array enc [] k p = refl
read_node_array enc (n ∷ ns) k (a, p) =
    decode_step enc unmarshal_node _ _ _ _ (read_back_node enc n k a) (read_node_array enc ns k p)

read_edge_array :
    (enc : Encoding) (es : List Edge)
    → PlainKeys enc
    → All (PlainEdge enc) es
    → decode_array enc unmarshal_edge (map marshal_edge es) ≡ some (map read_edge es)
unfolding decode_array
read_edge_array enc [] k p = refl
read_edge_array enc (e ∷ es) k (a, p) =
    decode_step enc unmarshal_edge _ _ _ _ (read_back_edge enc e k a) (read_edge_array enc es k p)

plain_targets :
    (enc : Encoding) (done : List Text) → All (PlainText enc) done → map enc.read_text done ≡ done
plain_targets enc [] p = refl
plain_targets enc (t ∷ done) (a, p) = rw (a, plain_targets enc done p) refl

-- The names of the done targets are read as they are written.
abbrev pub PlainTargets : Encoding → Option (List Text) → Type 0
PlainTargets enc none = Unit
PlainTargets enc (some done) = All (PlainText enc) done

plain_copied :
    (enc : Encoding) (done : Option (List Text))
    → PlainTargets enc done
    → read_targets enc (copied done) ≡ copied done
plain_copied enc none p = refl
plain_copied enc (some done) p = ap some (plain_targets enc done p)

module _ (enc : Encoding) (m : Manager) (og : OpenGraph) (total : ℕ) where
  saved_file :
      (file : CheckpointFile)
      → save_checkpoint enc m og total ≡ some file
      → (file.processed_targets ≡ copied m.processed_targets)
        × (file.nodes ≡ map marshal_node (get_nodes_and_edges enc og).0)
        × (file.edges ≡ map marshal_edge (get_nodes_and_edges enc og).1)
  unfolding save_checkpoint
  saved_file file e = (grind arith, grind arith, grind arith)

  module _ (c : Consistent og) (p : IsPlain enc og) (q : PlainTargets enc m.processed_targets) where
    loaded :
        (file : CheckpointFile)
        → save_checkpoint enc m og total ≡ some file
        → load enc file
          ≡ some (record {
            processed_targets = copied m.processed_targets;
            total_targets = file.total_targets;
            graph_nodes = map read_node og.node_file;
            graph_edges = map read_edge og.edge_file;
          })
    unfolding load
    loaded file e =
        let (targets, nodes, edges) = saved_file file e in
        let node_array : decode_array enc unmarshal_node file.nodes
            ≡ some (map read_node og.node_file) =
          ap (decode_array enc unmarshal_node)
            (nodes ∙ ap (map marshal_node) (read_nodes enc og p) ∙ lines-read_node og.node_file)
          ∙ read_node_array enc og.node_file p.keys p.nodes in
        let edge_array : decode_array enc unmarshal_edge file.edges
            ≡ some (map read_edge og.edge_file) =
          ap (decode_array enc unmarshal_edge)
            (edges ∙ ap (map marshal_edge) (read_edges enc og p) ∙ lines-read_edge og.edge_file)
          ∙ read_edge_array enc og.edge_file p.keys p.edges in
        let done = ap (read_targets enc) targets ∙ plain_copied enc m.processed_targets q in
        λ i. checkpoint (done i) file.total_targets (node_array i) (edge_array i)

    -- A checkpoint that was saved from a manager and a consistent graph, whose strings and numbers JSON keeps,
    -- is loaded without an error; a manager that is enabled and a graph with the same source kind that are
    -- restored from it know the same targets as done, and have the same source kind, indexes and count, and
    -- files with the same JSON.
    pub restore_from-save_checkpoint :
        (later : Manager) (other : OpenGraph) (file : CheckpointFile) (target : Text)
        → save_checkpoint enc m og total ≡ some file
        → other.source_kind ≡ og.source_kind
        → later.enabled ≡ true
        → (cp : Checkpoint) × (load enc file ≡ some cp)
          × (is_target_processed target (restore_from cp later)
              ≡ has_target target m.processed_targets)
          × SameGraph (restore_nodes_and_edges cp.graph_nodes cp.graph_edges other) og
    unfolding is_target_processed has_target
    restore_from-save_checkpoint later other file target e k on = (
      record {
        processed_targets = copied m.processed_targets;
        total_targets = file.total_targets;
        graph_nodes = map read_node og.node_file;
        graph_edges = map read_edge og.edge_file;
      },
      loaded file e,
      rw on (same_targets target m.processed_targets),
      restored-SameGraph og other c k,
    )

checkpoint_targets :
    (targets : Option (List Text)) (total : ℕ) (nodes : Option (List Node))
    (edges : Option (List Edge)) (cp : Checkpoint)
    → checkpoint targets total nodes edges ≡ some cp
    → cp.processed_targets ≡ targets
checkpoint_targets targets total none edges cp e = cc
checkpoint_targets targets total (some nodes) none cp e = cc
checkpoint_targets targets total (some nodes) (some edges) cp e = grind arith

-- After a target was marked in an enabled manager it counts as done, and the others as before.
pub is_target_processed-mark_target_processed :
    (target other : Text) (m m' : Manager)
    → m.enabled ≡ true
    → mark_target_processed target m ≡ ok m'
    → is_target_processed other m' ≡ (eqb target other || is_target_processed other m)
unfolding mark_target_processed is_target_processed put_target has_target elem
is_target_processed-mark_target_processed target other m m' on e =
    grind (arith, eqb_iff target other)

loaded_targets :
    (enc : Encoding) (file : CheckpointFile) (cp : Checkpoint)
    → load enc file ≡ some cp
    → cp.processed_targets ≡ read_targets enc file.processed_targets
unfolding load
loaded_targets enc file cp e =
    checkpoint_targets (read_targets enc file.processed_targets) file.total_targets
      (decode_array enc unmarshal_node file.nodes) (decode_array enc unmarshal_edge file.edges) cp e

put_target-ne-panic :
    (enc : Encoding) (target : Text) (done : Option (List Text))
    → put_target target (read_targets enc (copied done)) ≢ panic
unfolding put_target
put_target-ne-panic enc target none = λ e. cc
put_target-ne-panic enc target (some done) = λ e. cc

-- A manager that was restored from a saved checkpoint, which was loaded from its file, marks every target
-- without a panic.
pub mark_target_processed-ne-panic :
    (enc : Encoding) (m later : Manager) (og : OpenGraph) (total : ℕ) (file : CheckpointFile)
    (cp : Checkpoint) (target : Text)
    → save_checkpoint enc m og total ≡ some file
    → load enc file ≡ some cp
    → mark_target_processed target (restore_from cp later) ≢ panic
unfolding mark_target_processed
mark_target_processed-ne-panic enc m later og total file cp target e l =
    let targets =
      loaded_targets enc file cp l ∙ ap (read_targets enc) (saved_file enc m og total file e).0 in
    let safe =
      subst (λ (d : Option (List Text)). put_target target d ≢ panic) (sym targets)
        (put_target-ne-panic enc target m.processed_targets) in
    elim (Bool-cases later.enabled) [
      | inl on ↦ rw on (>>=-ne-panic (put_target target cp.processed_targets) _ safe (λ a h q. cc))
      | inr off ↦ rw off (λ q. cc)
    ]

-- ===== src/Graph/Emission/Emit.antt =====
-- `AddPathToGraph` as a whole (Go/internal/graph/context.go), told as a sequence of writes.
use share_hound.Graph.Emission.Steps.{
  MarkedPresent, contained-Writes, emit_directory-Writes, emit_host_share-Writes, if-elim,
}
use share_hound.Graph.Emission.Writes.{
  Present, Writes, start, node, edge, mark, flag, Present-emit_edge, Present-emit_node,
  Present-emit_node_self, Present-Writes,
}
use share_hound.Graph.Context.{Context, PathEntry}
use share_hound.Graph.Emission.{
  emit_node, emit_edge, mark_emitted, emit_host_share, emit_directory, emit_path, emit_element,
  emit_below, add_path_to_graph, first_kind, add_node_rights, contains_edge,
}
use share_hound.Graph.Element.{Node}
use share_hound.Kinds.{node_kind_directory}
use share_hound.Prelude.{◌≡◌, refl, subst, true, ◌&&◌, List, [], ◌∷◌, Option, none, some, All-map}
use share_hound.Prelude.Outcome.{Outcome, ok, >>=-eq-ok}
use share_hound.Prelude.Text.{Text, eqb, elem}

-- Marked directories stay in the graph.
pub MarkedPresent-Writes : {c d : Context} → Writes c d → MarkedPresent c → MarkedPresent d
unfolding emit_edge
MarkedPresent-Writes start m = m
MarkedPresent-Writes (node {d} n w) m =
    All-map (λ i. Present i d) (λ i. Present i (emit_node n d)) d.emitted_path_nodes
      (λ i. Present-emit_node i n d) (MarkedPresent-Writes w m)
MarkedPresent-Writes (edge {d} e a w) m =
    All-map (λ i. Present i d) (λ i. Present i (emit_edge e d)) d.emitted_path_nodes
      (λ i. Present-emit_edge i e d) (MarkedPresent-Writes w m)
MarkedPresent-Writes (mark i q w) m = (q, MarkedPresent-Writes w m)
MarkedPresent-Writes (flag w) m = MarkedPresent-Writes w m

pub Writes-trans : {c d e : Context} → Writes c d → Writes d e → Writes c e
Writes-trans w start = w
Writes-trans w (node n v) = node n (Writes-trans w v)
Writes-trans w (edge e a v) = edge e a (Writes-trans w v)
Writes-trans w (mark i p v) = mark i p (Writes-trans w v)
Writes-trans w (flag v) = flag (Writes-trans w v)

-- The path: its last directory is in the graph.
pub emit_path-Writes :
    (parent kind : Text) (es : List PathEntry) (d : Context)
    → Present parent d
    → MarkedPresent d
    → Writes d (emit_path parent kind es d).0
      × Present (emit_path parent kind es d).1.0 (emit_path parent kind es d).0
unfolding emit_path
emit_path-Writes parent kind [] d p m = (start, p)
emit_path-Writes parent kind (e ∷ es) d p m =
    let (w, there) = emit_directory-Writes parent kind e d p m start in
    let (v, last) =
      emit_path-Writes e.node.id node_kind_directory es (emit_directory parent kind e d) there
        (MarkedPresent-Writes w m) in
    (Writes-trans w v, last)

-- The element, if it is written at all.
emit_element-Writes :
    (parent parent_kind kind : Text) (n : Node) (d : Context)
    → Present parent d
    → Writes d (emit_element parent parent_kind n kind d)
unfolding emit_element
emit_element-Writes parent parent_kind kind n d p =
    let is_directory = eqb kind node_kind_directory in
    let d1 = emit_node n d in
    let there = Present-emit_node_self n d in
    let w =
      contained-Writes parent parent_kind kind n.id d.element_rights d1
        (Present-emit_node parent n d p) there (node n start) in
    let d2 =
      emit_edge (contains_edge parent parent_kind n.id kind)
        (add_node_rights n.id d.element_rights kind d1) in
    if-elim (Writes d) (is_directory && elem n.id d.emitted_path_nodes) d _ (λ e. start)
      λ e.
        if-elim (Writes d) is_directory (mark_emitted n.id d2) d2
          (λ e'.
            mark n.id
              (Present-Writes n.id
                (contained-Writes parent parent_kind kind n.id d.element_rights d1
                  (Present-emit_node parent n d p) there start)
                there)
              w)
          (λ e'. w)

-- A result that depends on an optional node.
pub node-elim :
    (P : Context → Type 0) (o : Option Node) (c d : Context) (f : Node → Outcome ⊥ Context)
    → elim o [ none ↦ ok c | some n ↦ f n ] ≡ ok d
    → P c
    → ((n : Node) → o ≡ some n → f n ≡ ok d → P d)
    → P d
node-elim P none c d f e p g = let same : c ≡ d = cc in subst P same p
node-elim P (some n) c d f e p g = g n refl e

pub emit_below-Writes :
    (s : Node) (kind : Text) (d d' : Context)
    → Present s.id d
    → MarkedPresent d
    → emit_below s kind d ≡ ok d'
    → Writes d d'
unfolding emit_below
emit_below-Writes s kind d d' p m e =
    let (w, last) = emit_path-Writes s.id kind d.path d p m in
    node-elim (Writes d) (emit_path s.id kind d.path d).0.element (emit_path s.id kind d.path d).0
      d' _ e w
      λ n _ e'.
        let (k, _, e'') = >>=-eq-ok (first_kind n) _ e' in
        let (c', (parent, parent_kind)) = emit_path s.id kind d.path d in
        let same : emit_element parent parent_kind n k c' ≡ d' = cc in
        subst (Writes d) same (Writes-trans w (emit_element-Writes parent parent_kind k n c' last))

-- What a context promises between two elements: its marked directories, and its share once the flag
-- is set, are in the graph.
abbrev pub IsReady : Context → Type 0
IsReady c =
    MarkedPresent c × ((s : Node) → c.share ≡ some s → c.host_share_emitted ≡ true → Present s.id c)

pub add_path_to_graph-Writes :
    (c c' : Context) → IsReady c → add_path_to_graph c ≡ ok c' → Writes c c'
unfolding add_path_to_graph
add_path_to_graph-Writes c c' (m, old) e = node-elim (Writes c) c.host c c' _ e start λ h _ e1.
    node-elim (Writes c) c.share c c' _ e1 start λ s there e2.
      let (kind, _, e3) = >>=-eq-ok (first_kind s) _ e2 in
      let (w, q) = emit_host_share-Writes h s kind (old s there) in
      Writes-trans w
        (emit_below-Writes s kind (emit_host_share h s kind c) c' q (MarkedPresent-Writes w m) e3)

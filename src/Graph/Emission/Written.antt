-- ===== src/Graph/Emission/Written.antt =====
-- That `AddPathToGraph` (Go/internal/graph/context.go) writes the element of the context.
use share_hound.Graph.Context.{Context}
use share_hound.Graph.Element.{Node}
use share_hound.Graph.Emission.Accounts.{element-Writes}
use share_hound.Graph.Emission.Emit.{IsReady, MarkedPresent-Writes, emit_path-Writes}
use share_hound.Graph.Emission.Steps.{
  All-elem, MarkedPresent, contained-Writes, emit_host_share-Writes, if-elim,
}
use share_hound.Graph.Emission.Writes.{
  Present, start, Present-emit_node, Present-emit_node_self, Present-Writes,
}
use share_hound.Graph.Emission.{
  emit_node, emit_edge, mark_emitted, emit_host_share, emit_path, emit_element, emit_below,
  add_path_to_graph, first_kind, add_node_rights, contains_edge,
}
use share_hound.Kinds.{node_kind_directory}
use share_hound.Prelude.{◌≡◌, ◌∙◌, subst, ◌&&◌, Option, none, some, arith}
use share_hound.Prelude.Outcome.{Outcome, ok, >>=-eq-ok}
use share_hound.Prelude.Text.{Text, eqb, elem}

emit_element-Present :
    (parent parent_kind kind : Text) (n : Node) (d : Context)
    → Present parent d
    → MarkedPresent d
    → Present n.id (emit_element parent parent_kind n kind d)
unfolding emit_element
emit_element-Present parent parent_kind kind n d p m =
    let is_directory = eqb kind node_kind_directory in
    let d1 = emit_node n d in
    let there = Present-emit_node_self n d in
    let d2 =
      emit_edge (contains_edge parent parent_kind n.id kind)
        (add_node_rights n.id d.element_rights kind d1) in
    let written : Present n.id d2 =
      Present-Writes n.id
        (contained-Writes parent parent_kind kind n.id d.element_rights d1
          (Present-emit_node parent n d p) there start)
        there in
    if-elim (Present n.id) (is_directory && elem n.id d.emitted_path_nodes) d _
      (λ e. All-elem (λ i. Present i d) d.emitted_path_nodes n.id m (ground arith))
      λ e.
        if-elim (Present n.id) is_directory (mark_emitted n.id d2) d2 (λ _. written) (λ _. written)

-- A case distinction on a node that is there.
node-some :
    (o : Option Node) (c d : Context) (f : Node → Outcome ⊥ Context) (n : Node)
    → o ≡ some n
    → elim o [ none ↦ ok c | some m ↦ f m ] ≡ ok d
    → f n ≡ ok d
node-some none c d f n h e = cc
node-some (some m) c d f n h e = let same : m ≡ n = cc in subst (λ (x : Node). f x ≡ ok d) same e

emit_below-Present :
    (s n : Node) (kind : Text) (d d' : Context)
    → Present s.id d
    → MarkedPresent d
    → d.element ≡ some n
    → emit_below s kind d ≡ ok d'
    → Present n.id d'
unfolding emit_below
emit_below-Present s n kind d d' p m there e =
    let (w, last) = emit_path-Writes s.id kind d.path d p m in
    let (c', (parent, parent_kind)) = emit_path s.id kind d.path d in
    let (k, _, q) =
      >>=-eq-ok (first_kind n) _ (node-some c'.element c' d' _ n (element-Writes w ∙ there) e) in
    let same : emit_element parent parent_kind n k c' ≡ d' = cc in
    subst (Present n.id) same
      (emit_element-Present parent parent_kind k n c' last (MarkedPresent-Writes w m))

-- Where a host, a share and an element are set and the marked directories are in the graph, a node
-- with the id of the element is in the graph after `AddPathToGraph`.
pub add_path_to_graph-Present :
    (c c' : Context) (h s n : Node)
    → IsReady c
    → c.host ≡ some h
    → c.share ≡ some s
    → c.element ≡ some n
    → add_path_to_graph c ≡ ok c'
    → Present n.id c'
unfolding add_path_to_graph
add_path_to_graph-Present c c' h s n (m, old) host share element e =
    let (kind, _, q) =
      >>=-eq-ok (first_kind s) _
        (node-some c.share c c' _ s share (node-some c.host c c' _ h host e)) in
    let (w, p) = emit_host_share-Writes h s kind (old s share) in
    emit_below-Present s n kind (emit_host_share h s kind c) c' p (MarkedPresent-Writes w m)
      (element-Writes w ∙ element) q

-- ===== src/Graph/Emission/Accounts.antt =====
-- What holds of the graph and of the context after `AddPathToGraph`
-- (Go/internal/graph/context.go).
use share_hound.Graph.Emission.Emit.{
  IsReady, MarkedPresent-Writes, add_path_to_graph-Writes, emit_below-Writes, node-elim,
}
use share_hound.Graph.Emission.Steps.{emit_host_share-Writes}
use share_hound.Graph.Emission.Writes.{
  Present, Anchored, Writes, start, node, edge, mark, flag, Present-Writes,
}
use share_hound.Graph.Context.{Context}
use share_hound.Graph.Emission.{
  emit_node, emit_edge, emit_host_share, add_path_to_graph, first_kind,
}
use share_hound.Graph.Element.{Node, Edge}
use share_hound.Graph.OpenGraph.Consistent.{Consistent, add_node-Consistent, add_edge-Consistent}
use share_hound.Graph.OpenGraph.{OpenGraph, add_node, add_edge, has_key, new_edge_key}
use share_hound.Prelude.{
  ◌+◌, ◌≡◌, refl, sym, subst, ◌∙◌, [], ◌∷◌, ◌++◌, some, All, All-map, All-snoc, arith, Bool-cases,
  inl, inr,
}
use share_hound.Prelude.Outcome.{ok, >>=-eq-ok}
use share_hound.Prelude.Text.{elem, elem-append}

Consistent-Writes : {c d : Context} → Writes c d → Consistent c.graph → Consistent d.graph
unfolding emit_edge
Consistent-Writes start h = h
Consistent-Writes (node {d} n w) h = add_node-Consistent n d.graph (Consistent-Writes w h)
Consistent-Writes (edge {d} e a w) h = add_edge-Consistent e d.graph (Consistent-Writes w h)
Consistent-Writes (mark i p w) h = Consistent-Writes w h
Consistent-Writes (flag w) h = Consistent-Writes w h

counted-emit_edge :
    (e : Edge) (d : Context)
    → (emit_edge e d).total_edges_created + d.graph.edge_count
      ≡ d.total_edges_created + (emit_edge e d).graph.edge_count
unfolding emit_edge add_edge
counted-emit_edge e d = ground arith

counted-emit_node : (n : Node) (d : Context) → (emit_node n d).graph.edge_count ≡ d.graph.edge_count
unfolding add_node
counted-emit_node n d = ground arith

counted-Writes :
    {c d : Context}
    → Writes c d
    → d.total_edges_created + c.graph.edge_count ≡ c.total_edges_created + d.graph.edge_count
counted-Writes start = omega arith
counted-Writes (node {d} n w) = omega (arith, counted-Writes w, counted-emit_node n d)
counted-Writes (edge {d} e a w) = omega (arith, counted-Writes w, counted-emit_edge e d)
counted-Writes (mark i p w) = counted-Writes w
counted-Writes (flag w) = counted-Writes w

-- Every edge of the file is anchored in the graph.
abbrev pub AllAnchored : OpenGraph → Type 0
AllAnchored g = All (Anchored g.node_ids) g.edge_file

add_node-AllAnchored : (n : Node) (g : OpenGraph) → AllAnchored g → AllAnchored (add_node n g)
unfolding add_node
add_node-AllAnchored n g a = elim (Bool-cases (elem n.id g.node_ids)) [
  | inl old ↦ rw old a
  | inr new ↦ rw new (
      All-map (Anchored g.node_ids) (Anchored (g.node_ids ++ (n.id ∷ []))) g.edge_file
        (λ e (h, k). (
          grind (arith, elem-append e.end.value g.node_ids (n.id ∷ [])),
          λ l. grind (arith, elem-append e.start.value g.node_ids (n.id ∷ []), k l),
        ))
        a)
]

add_edge-AllAnchored :
    (e : Edge) (g : OpenGraph)
    → Anchored g.node_ids e
    → AllAnchored g
    → AllAnchored (add_edge e g).0
unfolding add_edge
add_edge-AllAnchored e g h a = elim (Bool-cases (has_key (new_edge_key e) g.edge_keys)) [
  | inl old ↦ rw old a
  | inr new ↦ rw new (All-snoc (Anchored g.node_ids) g.edge_file e a h)
]

AllAnchored-Writes : {c d : Context} → Writes c d → AllAnchored c.graph → AllAnchored d.graph
unfolding emit_edge
AllAnchored-Writes start h = h
AllAnchored-Writes (node {d} n w) h = add_node-AllAnchored n d.graph (AllAnchored-Writes w h)
AllAnchored-Writes (edge {d} e a w) h = add_edge-AllAnchored e d.graph a (AllAnchored-Writes w h)
AllAnchored-Writes (mark i p w) h = AllAnchored-Writes w h
AllAnchored-Writes (flag w) h = AllAnchored-Writes w h

pub host-Writes : {c d : Context} → Writes c d → d.host ≡ c.host
unfolding emit_edge
host-Writes start = refl
host-Writes (node n w) = host-Writes w
host-Writes (edge e a w) = host-Writes w
host-Writes (mark i p w) = host-Writes w
host-Writes (flag w) = host-Writes w

pub share-Writes : {c d : Context} → Writes c d → d.share ≡ c.share
unfolding emit_edge
share-Writes start = refl
share-Writes (node n w) = share-Writes w
share-Writes (edge e a w) = share-Writes w
share-Writes (mark i p w) = share-Writes w
share-Writes (flag w) = share-Writes w

pub element-Writes : {c d : Context} → Writes c d → d.element ≡ c.element
unfolding emit_edge
element-Writes start = refl
element-Writes (node n w) = element-Writes w
element-Writes (edge e a w) = element-Writes w
element-Writes (mark i p w) = element-Writes w
element-Writes (flag w) = element-Writes w

add_path_to_graph-IsReady : (c c' : Context) → IsReady c → add_path_to_graph c ≡ ok c' → IsReady c'
unfolding add_path_to_graph
add_path_to_graph-IsReady c c' (m, old) e =
    node-elim IsReady c.host c c' _ e (m, old)
      λ h _ e1.
        node-elim IsReady c.share c c' _ e1 (m, old)
          λ s there e2.
            let (kind, _, e3) = >>=-eq-ok (first_kind s) _ e2 in
            let (w, q) = emit_host_share-Writes h s kind (old s there) in
            let d = emit_host_share h s kind c in
            let v = emit_below-Writes s kind d c' q (MarkedPresent-Writes w m) e3 in
            (
              MarkedPresent-Writes v (MarkedPresent-Writes w m),
              λ s' there' _.
                  let chain : some s ≡ some s' =
                    sym there ∙ sym (share-Writes w) ∙ sym (share-Writes v) ∙ there' in
                  let same : s ≡ s' = cc in
                  subst (λ x. Present x.id c') same (Present-Writes s.id v q),
            )

-- The state of a context between two elements.
pub record IsSound (c : Context) : Type 0 where
  pub consistent : Consistent c.graph
  pub anchored : AllAnchored c.graph
  pub ready : IsReady c

-- When `AddPathToGraph` starts in a context whose graph agrees with its index, whose edges end (and,
-- unless their start is a principal or a machine, start) at nodes of the graph, and whose marks name
-- nodes of the graph, it leaves such a context.
pub add_path_to_graph-IsSound :
    (c c' : Context) → IsSound c → add_path_to_graph c ≡ ok c' → IsSound c'
add_path_to_graph-IsSound c c' sound e =
    let w = add_path_to_graph-Writes c c' sound.ready e in
    record {
      consistent = Consistent-Writes w sound.consistent;
      anchored = AllAnchored-Writes w sound.anchored;
      ready = add_path_to_graph-IsReady c c' sound.ready e;
    }

-- In such a context, `AddPathToGraph` adds to `totalEdgesCreated` the number of edges by which the
-- graph grows.
pub total_edges_created-add_path_to_graph :
    (c c' : Context)
    → IsSound c
    → add_path_to_graph c ≡ ok c'
    → c'.total_edges_created + c.graph.edge_count ≡ c.total_edges_created + c'.graph.edge_count
total_edges_created-add_path_to_graph c c' sound e =
    counted-Writes (add_path_to_graph-Writes c c' sound.ready e)

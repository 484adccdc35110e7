-- ===== src/Graph/Emission/Steps.antt =====
-- The parts of `AddPathToGraph` (Go/internal/graph/context.go), told as sequences of writes.
use share_hound.Collector.Rights.{ShareRights, rights_of}
use share_hound.Graph.Emission.Writes.{
  Present, Writes, start, node, edge, mark, flag, describe-Anchored, Present-emit_edge,
  Present-emit_node, Present-emit_node_self, Present-Writes, add_kind_edges-Writes,
}
use share_hound.Graph.Context.{Context, PathEntry}
use share_hound.Graph.Emission.{
  emit_node, emit_edge, edge_sid, add_kind_edges, add_rights_to_graph,
  add_effective_rights_to_graph, add_node_rights, mark_emitted, contains_edge, host_edge,
  plain_host_edge, share_edge, emit_host_share, emit_directory,
}
use share_hound.Graph.Element.{Node}
use share_hound.Kinds.{node_kind_directory}
use share_hound.Prelude.{
  ◌≡◌, refl, subst, Bool, true, false, List, [], ◌∷◌, All, if◌then◌else◌, Bool-cases, inl, inr,
}
use share_hound.Prelude.Text.{Text, eqb, eqb_iff, elem}
use share_hound.Smb.AccessMask.{compute_effective_rights}

module _ {c : Context} where
  add_rights_to_graph-Writes :
      (id kind : Text) (rights : ShareRights) (d : Context)
      → Present id d
      → Writes c d
      → Writes c (add_rights_to_graph id rights kind d)
  unfolding add_rights_to_graph
  add_rights_to_graph-Writes id kind [] d p w = w
  add_rights_to_graph-Writes id kind ((sid, ks) ∷ rights) d p w =
      let sid' = edge_sid d.domain_suffix sid in
      add_rights_to_graph-Writes id kind rights (add_kind_edges sid' id kind ks d)
        (Present-Writes id (add_kind_edges-Writes sid' id kind ks d p start) p)
        (add_kind_edges-Writes sid' id kind ks d p w)

  add_effective_rights_to_graph-Writes :
      (id kind : Text) (rights : ShareRights) (d : Context)
      → Present id d
      → Writes c d
      → Writes c (add_effective_rights_to_graph id rights kind d)
  unfolding add_effective_rights_to_graph
  add_effective_rights_to_graph-Writes id kind [] d p w = w
  add_effective_rights_to_graph-Writes id kind ((sid, ks) ∷ rights) d p w =
      let sid' = edge_sid d.domain_suffix sid in
      let effective = compute_effective_rights (rights_of sid d.share_rights) ks in
      add_effective_rights_to_graph-Writes id kind rights (add_kind_edges sid' id kind effective d)
        (Present-Writes id (add_kind_edges-Writes sid' id kind effective d p start) p)
        (add_kind_edges-Writes sid' id kind effective d p w)

pub if-elim :
    (P : Context → Type 0) (b : Bool) (x y : Context)
    → (b ≡ true → P x)
    → (b ≡ false → P y)
    → P (if b then x else y)
if-elim P true x y h k = h refl
if-elim P false x y h k = k refl

module _ {c : Context} where
  add_node_rights-Writes :
      (id kind : Text) (rights : ShareRights) (d : Context)
      → Present id d
      → Writes c d
      → Writes c (add_node_rights id rights kind d)
  unfolding add_node_rights
  add_node_rights-Writes id kind rights d p w =
      let granular = add_rights_to_graph id rights kind d in
      add_effective_rights_to_graph-Writes id kind rights
        (if d.effective_access_only then d else granular)
        (if-elim (Present id) d.effective_access_only d granular (λ _. p)
          (λ _. Present-Writes id (add_rights_to_graph-Writes id kind rights d p start) p))
        (if-elim (Writes c) d.effective_access_only d granular (λ _. w)
          (λ _. add_rights_to_graph-Writes id kind rights d p w))

pub All-elem : (P : Text → Type 0) (xs : List Text) (x : Text) → All P xs → elem x xs ≡ true → P x
unfolding elem
All-elem P [] x h e = cc
All-elem P (y ∷ ys) x (h, hs) e = elim (Bool-cases (eqb y x)) [
  | inl same ↦ subst P ((eqb_iff y x).0 same) h
  | inr other ↦ All-elem P ys x hs (rw other at e)
]

-- The directories that are marked are in the graph.
abbrev pub MarkedPresent : Context → Type 0
MarkedPresent c = All (λ id. Present id c) c.emitted_path_nodes

module _ {c : Context} where
  -- A node that was written, with its rights and the edge from its parent.
  pub contained-Writes :
      (parent parent_kind kind id : Text) (rights : ShareRights) (d : Context)
      → Present parent d
      → Present id d
      → Writes c d
      → Writes c
          (emit_edge (contains_edge parent parent_kind id kind) (add_node_rights id rights kind d))
  contained-Writes parent parent_kind kind id rights d p q w =
      let after = add_node_rights-Writes id kind rights d q start in
      edge (contains_edge parent parent_kind id kind)
        (describe-Anchored _ _ _ (Present-Writes id after q, λ l. Present-Writes parent after p))
        (add_node_rights-Writes id kind rights d q w)

module _ {c : Context} where
  pub emit_host_share-Writes :
      (h s : Node) (kind : Text)
      → (c.host_share_emitted ≡ true → Present s.id c)
      → Writes c (emit_host_share h s kind c) × Present s.id (emit_host_share h s kind c)
  unfolding emit_host_share
  emit_host_share-Writes h s kind old =
      if-elim (λ d. Writes c d × Present s.id d) c.host_share_emitted c _ (λ e. (start, old e))
        λ e.
          let c1 = emit_node h (record c { host_share_emitted = true }) in
          let c1' = emit_edge (host_edge h) c1 in
          let c2 = emit_node s c1' in
          let h1 = Present-emit_node_self h (record c { host_share_emitted = true }) in
          let h2 = Present-emit_node h.id s c1' (Present-emit_edge h.id (host_edge h) c1 h1) in
          let s2 = Present-emit_node_self s c1' in
          let w1 : Writes c c1 = node h (flag start) in
          let anchored =
            describe-Anchored _ c1.graph.node_ids (plain_host_edge h) (h1, λ l. unfold eqb in cc) in
          let w2 : Writes c c2 = node s (edge (host_edge h) anchored w1) in
          let rights = add_rights_to_graph-Writes s.id kind c2.share_rights c2 s2 start in
          let h3 = Present-Writes h.id rights h2 in
          let s3 = Present-Writes s.id rights s2 in
          (
            edge (share_edge h s kind) (describe-Anchored _ _ _ (s3, λ l. h3))
                (add_rights_to_graph-Writes s.id kind c2.share_rights c2 s2 w2),
            Present-emit_edge s.id (share_edge h s kind) _ s3,
          )

  pub emit_directory-Writes :
      (parent parent_kind : Text) (e : PathEntry) (d : Context)
      → Present parent d
      → MarkedPresent d
      → Writes c d
      → Writes c (emit_directory parent parent_kind e d)
        × Present e.node.id (emit_directory parent parent_kind e d)
  unfolding emit_directory
  emit_directory-Writes parent parent_kind e d p m w =
      if-elim (λ x. Writes c x × Present e.node.id x) (elem e.node.id d.emitted_path_nodes) d _
        (λ old. (w, All-elem (λ id. Present id d) d.emitted_path_nodes e.node.id m old))
        (λ new.
          let d' = emit_node e.node d in
          let there = Present-emit_node_self e.node d in
          let parent_there = Present-emit_node parent e.node d p in
          let written = λ (x : Context) (v : Writes x (mark_emitted e.node.id d')).
            contained-Writes parent parent_kind node_kind_directory e.node.id e.rights
              (mark_emitted e.node.id d') parent_there there v in
          (
            written c (mark e.node.id there (node e.node w)),
            Present-Writes e.node.id (written (mark_emitted e.node.id d') start) there,
          ))

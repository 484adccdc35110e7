-- ===== src/Graph/Emission/Writes.antt =====
-- What `AddPathToGraph` (Go/internal/graph/context.go) does to a context, as a sequence of writes: nodes,
-- edges whose ends are in the graph, and marks. It is what the other modules use induction on.
use share_hound.Graph.Context.{Context}
use share_hound.Graph.Emission.{
  emit_node, emit_edge, describe, rights_edge, add_kind_edges, mark_emitted,
}
use share_hound.Graph.Element.{Node, Edge}
use share_hound.Graph.OpenGraph.{OpenGraph, add_node, add_edge}
use share_hound.Prelude.{◌≡◌, Bool, true, not, ◌&&◌, List, [], ◌∷◌, arith, Bool-cases, inl, inr}
use share_hound.Prelude.Text.{Text, codes, eqb, elem, elem-append}
use share_hound.Graph.OpenGraph.Keys.{elem_self}

-- A node with this id is in the graph.
abbrev pub Present : Text → Context → Type 0
Present id c = elem id c.graph.node_ids ≡ true

-- The start of the edge names a node of this graph: it has a kind, and is not matched by its name.
-- The starts of rights are principals of the domain, and the machine of a host is matched by name.
abbrev pub start_is_local : Edge → Bool
start_is_local e = not (eqb e.start.kind []) && not (eqb e.start.match_by (codes "name"))

abbrev pub Anchored : List Text → Edge → Type 0
Anchored ids e =
    (elem e.end.value ids ≡ true) × (start_is_local e ≡ true → elem e.start.value ids ≡ true)

pub data Writes (c : Context) : Context → Type 0 where
  start : Writes c c
  node : {d : Context} (n : Node) → Writes c d → Writes c (emit_node n d)
  edge :
      {d : Context} (e : Edge) → Anchored d.graph.node_ids e → Writes c d → Writes c (emit_edge e d)
  mark : {d : Context} (id : Text) → Present id d → Writes c d → Writes c (mark_emitted id d)
  flag : {d : Context} → Writes c d → Writes c (record d { host_share_emitted = true })

describe_ends :
    (kind : Text) (e : Edge) → ((describe kind e).start ≡ e.start) × ((describe kind e).end ≡ e.end)
unfolding describe
describe_ends kind e = ground arith

pub describe-Anchored :
    (kind : Text) (ids : List Text) (e : Edge) → Anchored ids e → Anchored ids (describe kind e)
describe-Anchored kind ids e a = rw (describe_ends kind e).0 (rw (describe_ends kind e).1 a)

pub node_ids-add_edge : (e : Edge) (g : OpenGraph) → (add_edge e g).0.node_ids ≡ g.node_ids
unfolding add_edge
node_ids-add_edge e g = ground arith

pub Present-emit_edge :
    (id : Text) (e : Edge) (c : Context) → Present id c → Present id (emit_edge e c)
unfolding emit_edge
Present-emit_edge id e c p = rw (node_ids-add_edge e c.graph) p

pub Present-emit_node :
    (id : Text) (n : Node) (c : Context) → Present id c → Present id (emit_node n c)
unfolding add_node
Present-emit_node id n c p = ground (arith, elem-append id c.graph.node_ids (n.id ∷ []))

pub Present-emit_node_self : (n : Node) (c : Context) → Present n.id (emit_node n c)
unfolding add_node
Present-emit_node_self n c = elim (Bool-cases (elem n.id c.graph.node_ids)) [
  | inl old ↦ rw old old
  | inr new ↦ rw new (elem_self n.id c.graph.node_ids)
]

-- A node stays.
pub Present-Writes : (id : Text) {c d : Context} → Writes c d → Present id c → Present id d
Present-Writes id start p = p
Present-Writes id (node {d} n w) p = Present-emit_node id n d (Present-Writes id w p)
Present-Writes id (edge {d} e a w) p = Present-emit_edge id e d (Present-Writes id w p)
Present-Writes id (mark i q w) p = Present-Writes id w p
Present-Writes id (flag w) p = Present-Writes id w p

module _ {c : Context} where
  pub add_kind_edges-Writes :
      (sid id kind : Text) (ks : List Text) (d : Context)
      → Present id d
      → Writes c d
      → Writes c (add_kind_edges sid id kind ks d)
  unfolding add_kind_edges
  add_kind_edges-Writes sid id kind [] d p w = w
  add_kind_edges-Writes sid id kind (k ∷ ks) d p w =
      let e = rights_edge sid id kind k in
      add_kind_edges-Writes sid id kind ks (emit_edge e d) (Present-emit_edge id e d p)
        (edge e (describe-Anchored k d.graph.node_ids _ (p, λ l. unfold eqb in cc)) w)

-- ===== src/Graph/Emission/Evolves.antt =====
-- What the walk over a share (Go/internal/collector/contents.go) does to the context
-- (Go/internal/graph/context.go): elements come and go, paths are added to the graph, and directories
-- are pushed and popped around the same for what is below them.
use share_hound.Collector.Rights.{ShareRights}
use share_hound.Graph.Context.{Context, push_path}
use share_hound.Graph.Element.{Node}
use share_hound.Graph.Emission.Accounts.{
  IsSound, add_path_to_graph-IsSound, element-Writes, host-Writes, share-Writes,
  total_edges_created-add_path_to_graph,
}
use share_hound.Graph.Emission.Emit.{add_path_to_graph-Writes}
use share_hound.Graph.Emission.Total.{HasKind}
use share_hound.Graph.Emission.Writes.{
  Present, Writes, start, node, edge, mark, flag, Present-Writes,
}
use share_hound.Graph.Emission.{emit_edge, add_path_to_graph}
use share_hound.Prelude.{◌+◌, ◌≡◌, refl, sym, ◌∙◌, Option, arith}
use share_hound.Prelude.Outcome.{ok}
use share_hound.Prelude.Text.{Text}

-- `nested` is the whole of what happens below one directory, with its popping.
pub data Evolves : Context → Context → Type 0 where
  here : {c : Context} → Evolves c c
  adds : {c d e : Context} → Evolves c d → add_path_to_graph d ≡ ok e → Evolves c e
  element :
      {c d : Context} (o : Option Node) (rights : ShareRights)
      → HasKind o
      → Evolves c d
      → Evolves c (record d { element = o; element_rights = rights })
  nested :
      {c d e : Context} (n : Node) (rights : ShareRights)
      → Evolves c d
      → Evolves (push_path n rights d) e
      → Evolves c (record e { path = d.path })

path-Writes : {c d : Context} → Writes c d → d.path ≡ c.path
unfolding emit_edge
path-Writes start = refl
path-Writes (node n w) = path-Writes w
path-Writes (edge e a w) = path-Writes w
path-Writes (mark i p w) = path-Writes w
path-Writes (flag w) = path-Writes w

-- Soundness says nothing of the path.
pub push_path-IsSound :
    (n : Node) (rights : ShareRights) {d : Context} → IsSound d → IsSound (push_path n rights d)
push_path-IsSound n rights s = record {
  consistent = s.consistent;
  anchored = s.anchored;
  ready = s.ready;
}

pub Evolves-IsSound : {c d : Context} → Evolves c d → IsSound c → IsSound d
Evolves-IsSound here s = s
Evolves-IsSound (adds {d = d} {e = e} v q) s = add_path_to_graph-IsSound d e (Evolves-IsSound v s) q
Evolves-IsSound (element o r k v) s =
    let t = Evolves-IsSound v s in
    record { consistent = t.consistent; anchored = t.anchored; ready = t.ready }
Evolves-IsSound (nested n r v w) s =
    let t = Evolves-IsSound v s in
    let u = Evolves-IsSound w (push_path-IsSound n r t) in
    record { consistent = u.consistent; anchored = u.anchored; ready = u.ready }

pub Evolves-path : {c d : Context} → Evolves c d → IsSound c → d.path ≡ c.path
Evolves-path here s = refl
Evolves-path (adds {d = d} {e = e} v q) s =
    path-Writes (add_path_to_graph-Writes d e (Evolves-IsSound v s).ready q) ∙ Evolves-path v s
Evolves-path (element o r k v) s = Evolves-path v s
Evolves-path (nested n r v w) s = Evolves-path v s

pub Evolves-share : {c d : Context} → Evolves c d → IsSound c → d.share ≡ c.share
Evolves-share here s = refl
Evolves-share (adds {d = d} {e = e} v q) s =
    share-Writes (add_path_to_graph-Writes d e (Evolves-IsSound v s).ready q) ∙ Evolves-share v s
Evolves-share (element o r k v) s = Evolves-share v s
Evolves-share (nested n r v w) s =
    let t = Evolves-IsSound v s in Evolves-share w (push_path-IsSound n r t) ∙ Evolves-share v s

pub Evolves-host : {c d : Context} → Evolves c d → IsSound c → d.host ≡ c.host
Evolves-host here s = refl
Evolves-host (adds {d = d} {e = e} v q) s =
    host-Writes (add_path_to_graph-Writes d e (Evolves-IsSound v s).ready q) ∙ Evolves-host v s
Evolves-host (element o r k v) s = Evolves-host v s
Evolves-host (nested n r v w) s =
    Evolves-host w (push_path-IsSound n r (Evolves-IsSound v s)) ∙ Evolves-host v s

pub Evolves-Present :
    (id : Text) {c d : Context} → Evolves c d → IsSound c → Present id c → Present id d
Evolves-Present id here s p = p
Evolves-Present id (adds {d = d} {e = e} v q) s p =
    Present-Writes id (add_path_to_graph-Writes d e (Evolves-IsSound v s).ready q)
      (Evolves-Present id v s p)
Evolves-Present id (element o r k v) s p = Evolves-Present id v s p
Evolves-Present id (nested n r v w) s p =
    let t = Evolves-IsSound v s in
    Evolves-Present id w (push_path-IsSound n r t) (Evolves-Present id v s p)

-- The element keeps having a kind.
pub Evolves-HasKind :
    {c d : Context} → Evolves c d → IsSound c → HasKind c.element → HasKind d.element
Evolves-HasKind here s k = k
Evolves-HasKind (adds {d = d} {e = e} v q) s k =
    let same = element-Writes (add_path_to_graph-Writes d e (Evolves-IsSound v s).ready q) in
    λ n h. Evolves-HasKind v s k n (sym same ∙ h)
Evolves-HasKind (element o r kind v) s k = kind
Evolves-HasKind (nested {d = d} n r v w) s k =
    let t = Evolves-IsSound v s in
    Evolves-HasKind w (push_path-IsSound n r t) (Evolves-HasKind v s k)

-- The edges of the graph are counted.
pub Evolves-counted :
    {c d : Context}
    → Evolves c d
    → IsSound c
    → d.total_edges_created + c.graph.edge_count ≡ c.total_edges_created + d.graph.edge_count
Evolves-counted here s = omega arith
Evolves-counted (adds {d = d} {e = e} v q) s =
    omega (
      arith,
      Evolves-counted v s,
      total_edges_created-add_path_to_graph d e (Evolves-IsSound v s) q,
    )
Evolves-counted (element o r k v) s = Evolves-counted v s
Evolves-counted (nested n r v w) s =
    let t = Evolves-IsSound v s in
    omega (arith, Evolves-counted v s, Evolves-counted w (push_path-IsSound n r t))

pub Evolves-trans : {c d e : Context} → Evolves c d → Evolves d e → Evolves c e
Evolves-trans v here = v
Evolves-trans v (adds w q) = adds (Evolves-trans v w) q
Evolves-trans v (element o r k w) = element o r k (Evolves-trans v w)
Evolves-trans v (nested n r w x) = nested n r (Evolves-trans v w) x

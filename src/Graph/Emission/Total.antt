-- ===== src/Graph/Emission/Total.antt =====
-- Whether `AddPathToGraph` (Go/internal/graph/context.go) returns: it reads `kinds[0]`.
use share_hound.Graph.Emission.Accounts.{element-Writes}
use share_hound.Graph.Emission.Emit.{IsReady, MarkedPresent-Writes, emit_path-Writes}
use share_hound.Graph.Emission.Steps.{emit_host_share-Writes}
use share_hound.Graph.Context.{Context}
use share_hound.Graph.Emission.{
  emit_host_share, emit_below, emit_path, emit_element, add_path_to_graph, first_kind,
}
use share_hound.Graph.Element.{Node}
use share_hound.Prelude.{◌≡◌, ◌≢◌, refl, sym, List, [], ◌∷◌, ◌∙◌, Option, none, some}
use share_hound.Prelude.Outcome.{Outcome, ok, ◌>>=◌}
use share_hound.Prelude.Text.{Text}

-- The node, if there is one, has a kind.
abbrev pub HasKind : Option Node → Type 0
HasKind o = (n : Node) → o ≡ some n → n.kinds ≢ []

nonempty-cases : (ks : List Text) → ks ≢ [] → (k : Text) × (ks' : List Text) × (ks ≡ k ∷ ks')
nonempty-cases [] h = absurd (h refl)
nonempty-cases (k ∷ ks) h = (k, ks, refl)

first_kind-ok : (n : Node) → n.kinds ≢ [] → (k : Text) × (first_kind n ≡ ok k)
unfolding first_kind
first_kind-ok n h = let (k, ks, e) = nonempty-cases n.kinds h in (k, rw e refl)

-- A chain that starts with the kind of a node.
kind-ok :
    (n : Node) (f : Text → Outcome ⊥ Context)
    → n.kinds ≢ []
    → ((k : Text) → (d : Context) × (f k ≡ ok d))
    → (d : Context) × ((first_kind n >>= f) ≡ ok d)
kind-ok n f h g = let (k, e) = first_kind-ok n h in let (d, e') = g k in (d, rw e e')

node-ok :
    (o : Option Node) (c : Context) (f : Node → Outcome ⊥ Context)
    → ((n : Node) → o ≡ some n → (d : Context) × (f n ≡ ok d))
    → (d : Context) × (elim o [ none ↦ ok c | some n ↦ f n ] ≡ ok d)
node-ok none c f g = (c, refl)
node-ok (some n) c f g = g n refl

emit_below-ok :
    (s : Node) (kind : Text) (c : Context)
    → ((n : Node) → (emit_path s.id kind c.path c).0.element ≡ some n → n.kinds ≢ [])
    → (d : Context) × (emit_below s kind c ≡ ok d)
unfolding emit_below
emit_below-ok s kind c h =
    let (c', (parent, parent_kind)) = emit_path s.id kind c.path c in
    node-ok c'.element c' _
      λ n there. kind-ok n _ (h n there) λ k. (emit_element parent parent_kind n k c', refl)

-- Where the marked directories are in the graph, and the share is if it was written, `AddPathToGraph`
-- returns a context, without a panic, when the share and the element have a kind if they are set.
pub add_path_to_graph-ok :
    (c : Context)
    → IsReady c
    → HasKind c.share
    → HasKind c.element
    → (c' : Context) × (add_path_to_graph c ≡ ok c')
unfolding add_path_to_graph
add_path_to_graph-ok c (m, old) share element = node-ok c.host c _ λ h _.
    node-ok c.share c _ λ s there. kind-ok s _ (share s there) λ kind.
      let (w, q) = emit_host_share-Writes h s kind (old s there) in
      let d = emit_host_share h s kind c in
      let (v, _) = emit_path-Writes s.id kind d.path d q (MarkedPresent-Writes w m) in
      emit_below-ok s kind d
        λ n there'. element n (sym (element-Writes w) ∙ sym (element-Writes v) ∙ there')

-- ===== src/Collector/Contents/Traverse/Sound.antt =====
-- The recursion of Go/internal/collector/contents.go over the directories: the context of the share and
-- the graph.
use share_hound.Collector.Contents.{Session, WalkError, Walk, Listing, set_context, set_evaluator}
use share_hound.Collector.Contents.Traverse.Ends.{
  Post, no_panic, Post->>=, Post-if, Post-map, Post-ok,
}
use share_hound.Collector.Contents.Traverse.Evolution.{
  IsClean, Evolves-IsClean, visit_entries-Grows,
}
use share_hound.Collector.Contents.Traverse.{
  after_read, leave_directory, visit_dirs, visit_listing, visit_share, visit_entries,
  collect_contents_at_depth, collect_contents_in_share, share_name,
}
use share_hound.Collector.Counts.{TraversalCounts, add}
use share_hound.Graph.Context.Stack.{pop_path_last}
use share_hound.Graph.Context.{Context, PathEntry, push_path, pop_path, get_string_path_from_root}
use share_hound.Graph.Emission.Accounts.{IsSound}
use share_hound.Graph.Emission.Evolves.{
  Evolves, here, nested, push_path-IsSound, Evolves-IsSound, Evolves-path, Evolves-trans,
  Evolves-counted, Evolves-Present,
}
use share_hound.Graph.Emission.Writes.{Present}
use share_hound.Prelude.{
  ℕ, zero, suc, ◌+◌, ◌≡◌, sym, subst, Bool, not, ◌&&◌, ◌||◌, List, [], ◌∷◌, Option, none, some, ltb,
  leb,
}
use share_hound.Prelude.Outcome.{Outcome, ok}
use share_hound.Prelude.Text.{Text, eqb}
use share_hound.Rules.Evaluator.{set_depth}
use share_hound.Rules.Value.{Runtime}

pub push_path-IsClean :
    (d : PathEntry) {c : Context} → IsClean c → IsClean (push_path d.node d.rights c)
push_path-IsClean d k = record {
  sound = push_path-IsSound d.node d.rights k.sound;
  share_kind = k.share_kind;
  element_kind = k.element_kind;
}

-- What happens below a directory, with its pushing and popping.
pub popped :
    (d : PathEntry) (c e : Context)
    → IsClean c
    → Evolves (push_path d.node d.rights c) e
    → Evolves c (pop_path e).0
popped d c e k v =
    let same = Evolves-path v (push_path-IsSound d.node d.rights k.sound) in
    subst (Evolves c) (sym (pop_path_last c.path d e same)) (nested d.node d.rights here v)

abbrev Below : Type 0 → Type 0
Below F = Walk F → Outcome WalkError (Walk F × TraversalCounts)

module _ {F : Type 0} where
  -- What a traversal does to the context.
  abbrev Grew : Walk F → Walk F × TraversalCounts → Type 0
  Grew w r = Evolves w.context r.0.context

  pub visit_dirs-Grows :
      (timeout : ℕ → Bool) (below : Below F) (dirs : List PathEntry) (w : Walk F)
      (counts : TraversalCounts)
      → ((v : Walk F) → IsClean v.context → Post no_panic (Grew v) (below v))
      → IsClean w.context
      → Post no_panic (Grew w) (visit_dirs timeout below dirs w counts)
  unfolding visit_dirs
  visit_dirs-Grows timeout below [] w counts h k = here
  visit_dirs-Grows timeout below (d ∷ dirs) w counts h k =
      let c = push_path d.node d.rights w.context in
      let v = set_context c (after_read w) in
      Post-if no_panic (Grew w) (timeout w.reads) _ _ (λ _. here)
        λ _. Post->>= no_panic (Grew v) (Grew w) (below v) _ (h v (push_path-IsClean d k)) λ r x.
          let y = popped d w.context r.0.context k x in
          let u = leave_directory r.1 r.0 in
          Post-map no_panic (Grew u) (Grew w) (visit_dirs timeout below dirs u (add counts r.1))
            (λ q z. Evolves-trans y z)
            (visit_dirs-Grows timeout below dirs u (add counts r.1) h (Evolves-IsClean y k))

  module _ (rt : Runtime F) (host : Session) (timeout : ℕ → Bool) where
    visit_listing-Grows :
        (below : Below F) (depth : ℕ) (share current : Text) (listing : Option Listing) (w : Walk F)
        → ((v : Walk F) → IsClean v.context → Post no_panic (Grew v) (below v))
        → IsClean w.context
        → Post no_panic (Grew w) (visit_listing rt host timeout below depth share current listing w)
    unfolding visit_listing
    visit_listing-Grows below depth share current none w h k = here
    visit_listing-Grows below depth share current (some entries) w h k =
        Post->>= no_panic (λ s. Evolves w.context s.walk.context) (Grew w)
          (visit_entries rt host timeout depth share current entries _) _
          (visit_entries-Grows rt host timeout depth share current entries _ k)
          λ s v.
            Post-map no_panic (Grew s.walk) (Grew w)
              (visit_dirs timeout below s.dirs s.walk s.counts) (λ q z. Evolves-trans v z)
              (visit_dirs-Grows timeout below s.dirs s.walk s.counts h (Evolves-IsClean v k))

    visit_share-Grows :
        (below : Below F) (depth : ℕ) (w : Walk F)
        → ((v : Walk F) → IsClean v.context → Post no_panic (Grew v) (below v))
        → IsClean w.context
        → Post no_panic (Grew w) (visit_share rt host timeout below depth w)
    unfolding visit_share
    visit_share-Grows below depth w h k =
        let share = share_name w.context.share in
        let current = get_string_path_from_root w.context in
        let v = set_evaluator (set_depth depth w.evaluator) w in
        Post-if no_panic (Grew w) (eqb share [] || not (host.set_share share)) _ _ (λ _. here)
          (λ _. visit_listing-Grows below depth share current (host.list_contents current) v h k)

    pub collect_contents_at_depth-Grows :
        (max_depth fuel depth : ℕ) (w : Walk F)
        → IsClean w.context
        → Post no_panic (Grew w) (collect_contents_at_depth rt host timeout max_depth fuel depth w)
    unfolding collect_contents_at_depth
    collect_contents_at_depth-Grows max_depth zero depth w k = tt
    collect_contents_at_depth-Grows max_depth (suc fuel) depth w k =
        Post-if no_panic (Grew w) (timeout w.reads || (ltb 0 max_depth && leb max_depth depth)) _ _
          (λ _. here)
          λ _.
            visit_share-Grows (collect_contents_at_depth rt host timeout max_depth fuel (depth + 1))
              depth (after_read w)
              (λ v. collect_contents_at_depth-Grows max_depth fuel (depth + 1) v) k

    -- A traversal of a share that starts where paths can be added to the graph, and returns, leaves
    -- the graph sound: its index is right and every edge ends at nodes of the graph. The directories
    -- of the path are those of before, every node of the graph is still there, and the edges that the
    -- graph has gained are counted.
    pub collect_contents_in_share-IsSound :
        (max_depth fuel : ℕ) (w w' : Walk F) (counts : TraversalCounts)
        → IsClean w.context
        → collect_contents_in_share rt host timeout max_depth fuel w ≡ ok (w', counts)
        → IsSound w'.context
          × (w'.context.path ≡ w.context.path)
          × ((id : Text) → Present id w.context → Present id w'.context)
          × (w'.context.total_edges_created + w.context.graph.edge_count
              ≡ w.context.total_edges_created + w'.context.graph.edge_count)
    unfolding collect_contents_in_share
    collect_contents_in_share-IsSound max_depth fuel w w' counts k e =
        let v =
          Post-ok no_panic (Grew w) (collect_contents_at_depth rt host timeout max_depth fuel 0 w)
            (collect_contents_at_depth-Grows max_depth fuel 0 w k) e in
        (
          Evolves-IsSound v k.sound,
          Evolves-path v k.sound,
          λ id p. Evolves-Present id v k.sound p,
          Evolves-counted v k.sound,
        )

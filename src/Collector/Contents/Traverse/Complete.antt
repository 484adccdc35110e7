-- ===== src/Collector/Contents/Traverse/Complete.antt =====
-- Where the rules allow all and the timeout does not come, the whole traversal of
-- Go/internal/collector/contents.go and what the listings show.
use share_hound.Collector.Contents.Traverse.Counted.{Summed}
use share_hound.Collector.Contents.Traverse.Ends.{no_panic, Post, Post-if, Post-map, Post-ok, both}
use share_hound.Collector.Contents.Traverse.Evolution.{IsClean}
use share_hound.Collector.Contents.Traverse.Below.{visit_listing-Has}
use share_hound.Collector.Contents.Traverse.Found.{Found, file, directory, below, Below, Went, Has}
use share_hound.Collector.Contents.Traverse.Returns.{collect_contents_at_depth-if_ok}
use share_hound.Collector.Contents.Traverse.Sound.{collect_contents_at_depth-Grows}
use share_hound.Collector.Contents.Traverse.Visits.{Allows, IsPlaced}
use share_hound.Collector.Contents.Traverse.{
  after_read, visit_listing, visit_share, share_name, collect_contents_at_depth,
  collect_contents_in_share,
}
use share_hound.Collector.Contents.{Session, WalkError, Walk, set_evaluator}
use share_hound.Collector.Counts.{TraversalCounts, no_counts}
use share_hound.Graph.Context.{PathEntry, get_string_path_from_root}
use share_hound.Graph.Element.{Node}
use share_hound.Graph.Emission.Evolves.{Evolves}
use share_hound.Graph.Emission.Writes.{Present}
use share_hound.Prelude.{
  ℕ, zero, suc, ◌+◌, ◌≡◌, ◌≢◌, refl, sym, subst, Bool, true, false, not, ◌&&◌, ◌||◌, List, [],
  Option, some, ltb, leb, if◌then◌else◌, arith,
}
use share_hound.Prelude.Outcome.{Outcome, ok}
use share_hound.Prelude.Text.{Text, eqb, eqb_iff}
use share_hound.Rules.Evaluator.{Rule, set_depth}
use share_hound.Rules.Value.{Runtime}

-- What is found was not cut off by the limit.
limit-Found :
    {host : Session} {share : Text} {max_depth depth : ℕ} {path : List PathEntry} {id : Text}
    → Found host share max_depth depth path id
    → (ltb 0 max_depth && leb max_depth depth) ≡ false
limit-Found (file name info front rest limit shows real plain same) = limit
limit-Found (directory name info front rest limit shows real plain same) = limit
limit-Found (below name info front rest limit shows real plain found) = limit

module _ {F : Type 0} (rt : Runtime F) (rules : List (Rule F)) (h s : Node)
    (allows : Allows rt rules) (host : Session) (timeout : ℕ → Bool)
    (quiet : (i : ℕ) → timeout i ≡ false) (max_depth : ℕ) (named : share_name (some s) ≢ [])
    (connected : host.set_share (share_name (some s)) ≡ true) where
  abbrev walk : ℕ → ℕ → Walk F → Outcome WalkError (Walk F × TraversalCounts)
  walk fuel depth = collect_contents_at_depth rt host timeout max_depth fuel depth

  went :
      (fuel depth : ℕ) (v : Walk F) → IsClean v.context → Post no_panic (Went v) (walk fuel depth v)
  went fuel depth v k =
      Post-map no_panic (λ r. Evolves v.context r.0.context × Summed timeout v r) (Went v)
        (walk fuel depth v) (λ r (e, a). (e, a.rules))
        (both (λ r. Evolves v.context r.0.context) (Summed timeout v) (walk fuel depth v)
          (collect_contents_at_depth-Grows rt host timeout max_depth fuel depth v k)
          (collect_contents_at_depth-if_ok rt host timeout max_depth fuel depth v))

  visit_share-Has :
      (under : Below F) (goes : (v : Walk F) → IsClean v.context → Post no_panic (Went v) (under v))
      (depth : ℕ) (id : Text) (w : Walk F)
      → ((v : Walk F)
          → Found host (share_name (some s)) max_depth (depth + 1) v.context.path id
          → v.evaluator.rules ≡ rules
          → IsPlaced h s v.context
          → Post no_panic (Has id) (under v))
      → Found host (share_name (some s)) max_depth depth w.context.path id
      → w.evaluator.rules ≡ rules
      → IsPlaced h s w.context
      → Post no_panic (Has id) (visit_share rt host timeout under depth w)
  unfolding visit_share get_string_path_from_root
  visit_share-Has under goes depth id w deeper found ruled k =
      let v = set_evaluator (set_depth depth w.evaluator) w in
      let current = get_string_path_from_root w.context in
      subst
        (λ (o : Option Node). Post no_panic (Has id) (
          if eqb (share_name o) [] || not (host.set_share (share_name o))
          then ok (w, no_counts)
          else visit_listing rt host timeout under depth (share_name o) current
              (host.list_contents current) v))
        (sym k.share)
        (Post-if no_panic (Has id)
          (eqb (share_name (some s)) [] || not (host.set_share (share_name (some s)))) _ _
          (λ empty. absurd (named (ground (arith, eqb_iff (share_name (some s)) []))))
          λ _.
            visit_listing-Has rt rules h s allows host timeout quiet under goes max_depth depth
              (share_name (some s)) w.context.path id v deeper found refl ruled k)

  collect_contents_at_depth-Has :
      (fuel depth : ℕ) (id : Text) (w : Walk F)
      → Found host (share_name (some s)) max_depth depth w.context.path id
      → w.evaluator.rules ≡ rules
      → IsPlaced h s w.context
      → Post no_panic (Has id) (walk fuel depth w)
  unfolding collect_contents_at_depth
  collect_contents_at_depth-Has zero depth id w found ruled k = tt
  collect_contents_at_depth-Has (suc fuel) depth id w found ruled k =
      Post-if no_panic (Has id) (timeout w.reads || (ltb 0 max_depth && leb max_depth depth)) _ _
        (λ stop. absurd (ground (arith, quiet w.reads, limit-Found found)))
        λ _.
          visit_share-Has (walk fuel (depth + 1)) (went fuel (depth + 1)) depth id (after_read w)
            (λ v. collect_contents_at_depth-Has fuel (depth + 1) id v) found ruled k

  -- When a traversal returns that starts below a host and a share where paths can be added to the
  -- graph, with a named share that the session finds, with rules that allow everything and with no
  -- timeout, the graph has a node for every file and every directory that the listings show above
  -- the limit on the depth, if there is one.
  pub collect_contents_in_share_complete :
      (fuel : ℕ) (id : Text) (w w' : Walk F) (counts : TraversalCounts)
      → w.evaluator.rules ≡ rules
      → IsPlaced h s w.context
      → Found host (share_name (some s)) max_depth 0 w.context.path id
      → collect_contents_in_share rt host timeout max_depth fuel w ≡ ok (w', counts)
      → Present id w'.context
  unfolding collect_contents_in_share
  collect_contents_in_share_complete fuel id w w' counts ruled k found e =
      Post-ok no_panic (Has id) (walk fuel 0 w)
        (collect_contents_at_depth-Has fuel 0 id w found ruled k) e

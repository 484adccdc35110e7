-- ===== src/Collector/Contents/Traverse/Returns.antt =====
-- Whether the recursion of Go/internal/collector/contents.go ends, and the counts of a whole traversal.
use share_hound.Collector.Contents.{Session, WalkError, Walk, set_evaluator}
use share_hound.Collector.Contents.Traverse.Counted.{Summed, Summed-none, visit_listing-Summed}
use share_hound.Collector.Contents.Traverse.Ends.{
  Mode, no_error as never_errs, if_ok, OnError, OnPanic, Post, Post-if, Post-map, Post-ok, returns,
}
use share_hound.Collector.Contents.Traverse.Evolution.{IsClean}
use share_hound.Collector.Contents.Traverse.Sound.{collect_contents_at_depth-Grows}
use share_hound.Collector.Contents.Traverse.{
  after_read, visit_listing, visit_share, collect_contents_at_depth, collect_contents_in_share,
  share_name,
}
use share_hound.Collector.Counts.{TraversalCounts}
use share_hound.Graph.Context.{get_string_path_from_root}
use share_hound.Graph.Emission.Evolves.{Evolves}
use share_hound.Prelude.{
  ℕ, zero, suc, ◌+◌, ◌≤◌, ◌<◌, ◌≡◌, refl, Bool, true, false, not, ◌&&◌, ◌||◌, [], ltb, leb, arith,
}
use share_hound.Prelude.Int.{pos, ◌+ℤ◌, int_laws}
use share_hound.Prelude.Outcome.{Outcome, ok}
use share_hound.Prelude.Text.{eqb}
use share_hound.Rules.Evaluator.{set_depth}
use share_hound.Rules.Value.{Runtime}
use native.Mathlib.Decide.{dec_le}

module _ {F : Type 0} (rt : Runtime F) (host : Session) (timeout : ℕ → Bool) (max_depth : ℕ) where
  -- Whether the traversal stops at this depth, by the flag or by the limit.
  abbrev pub stops : ℕ → ℕ → Bool
  stops depth reads = timeout reads || (ltb 0 max_depth && leb max_depth depth)

  module _ (mode : Mode) (lenient : OnPanic mode) (Enough : ℕ → ℕ → ℕ → Type 0)
      (spent : (depth reads : ℕ) → Enough 0 depth reads → OnError mode)
      (next : (fuel depth reads later : ℕ)
        → Enough (suc fuel) depth reads
        → stops depth reads ≡ false
        → reads < later
        → Enough fuel (depth + 1) later) where
    visit_share-Summed :
        (below : Walk F → Outcome WalkError (Walk F × TraversalCounts)) (depth : ℕ) (w : Walk F)
        → ((v : Walk F) → w.reads < v.reads → Post mode (Summed timeout v) (below v))
        → Post mode (Summed timeout w) (visit_share rt host timeout below depth w)
    unfolding visit_share
    visit_share-Summed below depth w h =
        let share = share_name w.context.share in
        let current = get_string_path_from_root w.context in
        let v = set_evaluator (set_depth depth w.evaluator) w in
        Post-if mode (Summed timeout w) (eqb share [] || not (host.set_share share)) _ _
          (λ _. Summed-none timeout w w refl refl (omega arith))
          λ _.
            Post-map mode (Summed timeout v) (Summed timeout w)
              (visit_listing rt host timeout below depth share current (host.list_contents current)
                v)
              (λ r a. record {
                reads = a.reads;
                others = a.others;
                rules = a.rules;
                files = a.files;
                files_pending = a.files_pending;
                written = a.written;
                pending = a.pending;
              })
              (visit_listing-Summed timeout mode lenient rt host below depth share current
                (host.list_contents current) v h)

    collect_contents_at_depth-Summed :
        (fuel depth : ℕ) (w : Walk F)
        → Enough fuel depth w.reads
        → Post mode
            (Summed timeout w)
            (collect_contents_at_depth rt host timeout max_depth fuel depth w)
    unfolding collect_contents_at_depth
    collect_contents_at_depth-Summed zero depth w h = spent depth w.reads h
    collect_contents_at_depth-Summed (suc fuel) depth w h =
        Post-if mode (Summed timeout w) (stops depth w.reads) _ _
          (λ _. Summed-none timeout w (after_read w) refl refl (omega arith))
          λ goes.
            let v = after_read w in
            let below = collect_contents_at_depth rt host timeout max_depth fuel (depth + 1) in
            Post-map mode (Summed timeout v) (Summed timeout w)
              (visit_share rt host timeout below depth v)
              (λ r a. record {
                reads = omega (arith, a.reads);
                others = a.others;
                rules = a.rules;
                files = a.files;
                files_pending = a.files_pending;
                written = a.written;
                pending = a.pending;
              })
              (visit_share-Summed below depth v λ x later.
                collect_contents_at_depth-Summed fuel (depth + 1) x
                  (next fuel depth w.reads x.reads h goes (omega arith)))

  pub collect_contents_at_depth-if_ok :
      (fuel depth : ℕ) (w : Walk F)
      → Post if_ok
          (Summed timeout w)
          (collect_contents_at_depth rt host timeout max_depth fuel depth w)
  collect_contents_at_depth-if_ok fuel depth w =
      collect_contents_at_depth-Summed if_ok tt (λ f d n. Unit {0}) (λ d n h. tt)
        (λ f d n m h q l. tt) fuel depth w tt

  pub collect_contents_in_share-Summed :
      (fuel : ℕ) (w : Walk F)
      → Post if_ok (Summed timeout w) (collect_contents_in_share rt host timeout max_depth fuel w)
  unfolding collect_contents_in_share
  collect_contents_in_share-Summed fuel w = collect_contents_at_depth-if_ok fuel 0 w

  summed :
      (fuel : ℕ) (w : Walk F) (r : Walk F × TraversalCounts)
      → collect_contents_in_share rt host timeout max_depth fuel w ≡ ok r
      → Summed timeout w r
  summed fuel w r e =
      Post-ok if_ok (Summed timeout w) (collect_contents_in_share rt host timeout max_depth fuel w)
        (collect_contents_in_share-Summed fuel w) e

  -- When a traversal returns, it has processed each file that it counts, and no more directories
  -- than it counts, and the counter of the files that are pending has its value of before.
  pub collect_contents_in_share-counts :
      (fuel : ℕ) (w w' : Walk F) (counts : TraversalCounts)
      → collect_contents_in_share rt host timeout max_depth fuel w ≡ ok (w', counts)
      → (counts.processed_files ≡ counts.total_files)
        × (counts.processed_directories ≤ counts.total_directories)
        × (w'.results.files_pending ≡ w.results.files_pending)
  collect_contents_in_share-counts fuel w w' counts e =
      let a = summed fuel w (w', counts) e in
      (omega (arith, a.files), omega (arith, a.written), omega (int_laws, a.files_pending))

  -- When a traversal whose timeout never comes returns, the counter of the directories that are
  -- pending has fallen by the number of directories that were processed.
  pub directories_pending_falls :
      (fuel : ℕ) (w w' : Walk F) (counts : TraversalCounts)
      → ((i : ℕ) → timeout i ≡ false)
      → collect_contents_in_share rt host timeout max_depth fuel w ≡ ok (w', counts)
      → w'.results.directories_pending +ℤ pos counts.processed_directories
        ≡ w.results.directories_pending
  directories_pending_falls fuel w w' counts quiet e =
      let a = summed fuel w (w', counts) e in omega (int_laws, a.pending quiet)

  total :
      (fuel : ℕ) (w : Walk F)
      → IsClean w.context
      → Post never_errs
          (Summed timeout w)
          (collect_contents_at_depth rt host timeout max_depth fuel 0 w)
      → (w' : Walk F) × (counts : TraversalCounts) × (collect_contents_in_share rt host timeout
            max_depth fuel w
          ≡ ok (w', counts))
  unfolding collect_contents_in_share
  total fuel w k h =
      let (r, e, _, _) =
        returns (λ (r : Walk F × TraversalCounts). Evolves w.context r.0.context) (Summed timeout w)
          (collect_contents_at_depth rt host timeout max_depth fuel 0 w)
          (collect_contents_at_depth-Grows rt host timeout max_depth fuel 0 w k) h in
      (r.0, r.1, e)

  pub Post-within_depth :
      (fuel : ℕ) (w : Walk F)
      → 0 < max_depth
      → max_depth < fuel
      → Post never_errs
          (Summed timeout w)
          (collect_contents_at_depth rt host timeout max_depth fuel 0 w)
  Post-within_depth fuel w some_limit enough =
      collect_contents_at_depth-Summed never_errs tt (λ f d n. (0 < f) × (max_depth < d + f))
        (λ d n h. omega arith) (λ f d n m h goes l. ground arith) fuel 0 w
        (omega arith, omega arith)

  pub Post-after_timeout :
      (fuel n : ℕ) (w : Walk F)
      → ((i : ℕ) → n ≤ i → timeout i ≡ true)
      → n < fuel
      → Post never_errs
          (Summed timeout w)
          (collect_contents_at_depth rt host timeout max_depth fuel 0 w)
  Post-after_timeout fuel n w set enough =
      collect_contents_at_depth-Summed never_errs tt (λ f d i. (0 < f) × (n < i + f))
        (λ d i h. omega arith)
        (λ f d i m h goes l. elim (dec_le n i) [
          | yes late ↦ cc (set i late)
          | no early ↦ (omega arith, omega arith)
        ])
        fuel 0 w (omega arith, omega arith)

  -- With a limit on the depth, a traversal that starts where paths can be added to the graph returns,
  -- whatever the host answers and whenever the timeout comes: it goes no deeper than the limit.
  pub collect_contents_in_share-within_depth :
      (fuel : ℕ) (w : Walk F)
      → IsClean w.context
      → 0 < max_depth
      → max_depth < fuel
      → (w' : Walk F) × (counts : TraversalCounts) × (collect_contents_in_share rt host timeout
            max_depth fuel w
          ≡ ok (w', counts))
  collect_contents_in_share-within_depth fuel w k some_limit enough =
      total fuel w k (Post-within_depth fuel w some_limit enough)

  -- Once the timeout has come, a traversal that starts where paths can be added to the graph returns,
  -- also where the directories of the host go on for ever: if the flag is set from read `n` on, it
  -- goes no deeper than `n` directories.
  pub collect_contents_in_share-after_timeout :
      (fuel n : ℕ) (w : Walk F)
      → IsClean w.context
      → ((i : ℕ) → n ≤ i → timeout i ≡ true)
      → n < fuel
      → (w' : Walk F) × (counts : TraversalCounts) × (collect_contents_in_share rt host timeout
            max_depth fuel w
          ≡ ok (w', counts))
  collect_contents_in_share-after_timeout fuel n w k set enough =
      total fuel w k (Post-after_timeout fuel n w set enough)

-- ===== src/Collector/Contents/Traverse/Counted.antt =====
-- The recursion of Go/internal/collector/contents.go over the directories: its counts and its end.
use share_hound.Collector.Contents.{Session, WalkError, Walk, Level, Listing, set_context}
use share_hound.Collector.Contents.Traverse.Ends.{
  Mode, OnPanic, Post, Post->>=, Post-if, Post-map, weaken,
}
use share_hound.Collector.Contents.Traverse.Tally.{Balanced, Tally}
use share_hound.Collector.Contents.Traverse.Tallied.{visit_entries-Tally}
use share_hound.Collector.Contents.Traverse.{
  after_read, leave_directory, visit_dirs, visit_listing, visit_entries,
}
use share_hound.Collector.Counts.{other_counters, TraversalCounts, no_counts, add, report}
use share_hound.Graph.Context.{Context, PathEntry, push_path}
use share_hound.Prelude.{
  ℕ, suc, ◌+◌, ◌≤◌, ◌<◌, ◌≡◌, ap, ◌∙◌, refl, Bool, true, false, List, [], ◌∷◌, Option, none, some,
  arith, length,
}
use share_hound.Prelude.Int.{int_laws}
use share_hound.Prelude.Outcome.{Outcome}
use share_hound.Prelude.Text.{Text}
use share_hound.Rules.Value.{Runtime}

module _ {F : Type 0} where
  -- From a walk and the counts so far to the result of the loop over `left` directories.
  pub record Sums (timeout : ℕ → Bool) (left : ℕ) (w : Walk F) (c : TraversalCounts)
      (r : Walk F × TraversalCounts) : Type 0 where
    pub reads : w.reads ≤ r.0.reads
    pub rules : r.0.evaluator.rules ≡ w.evaluator.rules
    pub others : other_counters r.0.results ≡ other_counters w.results
    pub files : r.1.processed_files + c.total_files ≡ c.processed_files + r.1.total_files
    pub files_pending : Balanced r.0.results.files_pending 0 w.results.files_pending 0
    pub written :
        r.1.processed_directories + c.total_directories
        ≤ c.processed_directories + r.1.total_directories
    pub pending :
        ((i : ℕ) → timeout i ≡ false)
        → Balanced r.0.results.directories_pending
            (r.1.processed_directories + left)
            w.results.directories_pending
            c.processed_directories

  -- A whole traversal.
  abbrev pub Summed : (ℕ → Bool) → Walk F → Walk F × TraversalCounts → Type 0
  Summed timeout w r = Sums timeout 0 w no_counts r

  -- One directory: what is below it, its report, and the rest of the loop.
  Sums-step :
      (timeout : ℕ → Bool) (left : ℕ) (w : Walk F) (below : Context) (c : TraversalCounts)
      (r q : Walk F × TraversalCounts)
      → Summed timeout (set_context below (after_read w)) r
      → Sums timeout left (leave_directory r.1 r.0) (add c r.1) q
      → Sums timeout (suc left) w c q
  unfolding add report
  Sums-step timeout left w below c r q a b = record {
    reads = omega (arith, a.reads, b.reads);
    others = b.others ∙ a.others;
    rules = b.rules ∙ a.rules;
    files = omega (arith, a.files, b.files);
    files_pending = omega (arith, a.files_pending, b.files_pending);
    written = omega (arith, a.written, b.written);
    pending = λ quiet. omega (int_laws, a.pending quiet, b.pending quiet);
  }

  Sums-stop :
      (timeout : ℕ → Bool) (left : ℕ) (w : Walk F) (c : TraversalCounts)
      → timeout w.reads ≡ true
      → Sums timeout left w c (after_read w, c)
  Sums-stop timeout left w c h = record {
    reads = omega arith;
    others = refl;
    rules = refl;
    files = omega arith;
    files_pending = omega arith;
    written = omega arith;
    pending = λ quiet. cc (quiet w.reads);
  }

  -- A traversal that stops before its listing.
  pub Summed-none :
      (timeout : ℕ → Bool) (w : Walk F) (v : Walk F)
      → v.results ≡ w.results
      → v.evaluator.rules ≡ w.evaluator.rules
      → w.reads ≤ v.reads
      → Summed timeout w (v, no_counts)
  Summed-none timeout w v same ruled h = record {
    reads = h;
    others = ap other_counters same;
    rules = ruled;
    files = refl;
    files_pending = rw same (omega arith);
    written = omega arith;
    pending = λ quiet. rw same (omega arith);
  }

  module _ (timeout : ℕ → Bool) (mode : Mode) (lenient : OnPanic mode) where
    visit_dirs-Sums :
        (below : Walk F → Outcome WalkError (Walk F × TraversalCounts)) (dirs : List PathEntry)
        (w : Walk F) (c : TraversalCounts)
        → ((v : Walk F) → w.reads < v.reads → Post mode (Summed timeout v) (below v))
        → Post mode (Sums timeout (length dirs) w c) (visit_dirs timeout below dirs w c)
    unfolding visit_dirs
    visit_dirs-Sums below [] w c h = record {
      reads = omega arith;
      others = refl;
      rules = refl;
      files = omega arith;
      files_pending = omega arith;
      written = omega arith;
      pending = λ quiet. omega arith;
    }
    visit_dirs-Sums below (d ∷ dirs) w c h =
        let pushed = push_path d.node d.rights w.context in
        let v = set_context pushed (after_read w) in
        Post-if mode (Sums timeout (suc (length dirs)) w c) (timeout w.reads) _ _
          (λ stop. Sums-stop timeout (suc (length dirs)) w c stop)
          λ _.
            Post->>= mode (Summed timeout v) (Sums timeout (suc (length dirs)) w c) (below v) _
              (h v (omega arith))
              λ r a.
                let u = leave_directory r.1 r.0 in
                Post-map mode (Sums timeout (length dirs) u (add c r.1))
                  (Sums timeout (suc (length dirs)) w c)
                  (visit_dirs timeout below dirs u (add c r.1))
                  (λ q b. Sums-step timeout (length dirs) w pushed c r q a b)
                  (visit_dirs-Sums below dirs u (add c r.1)
                    (λ x later. h x (omega (arith, a.reads))))

    module _ (rt : Runtime F) (host : Session) where
      listed :
          (w : Walk F) (s : Level F) (r : Walk F × TraversalCounts)
          → Tally (record { walk = w; counts = no_counts; dirs = [] }) s
          → Sums timeout (length s.dirs) s.walk s.counts r
          → Summed timeout w r
      listed w s r t a = record {
        reads = omega (arith, a.reads, t.reads);
        others = a.others ∙ t.others;
        rules = a.rules ∙ t.rules;
        files = omega (arith, a.files, t.files);
        files_pending = omega (arith, a.files_pending, t.files_pending);
        written = omega (arith, a.written, t.written);
        pending = λ quiet. omega (arith, a.pending quiet, t.pending);
      }

      pub visit_listing-Summed :
          (below : Walk F → Outcome WalkError (Walk F × TraversalCounts)) (depth : ℕ)
          (share current : Text) (listing : Option Listing) (w : Walk F)
          → ((v : Walk F) → w.reads < v.reads → Post mode (Summed timeout v) (below v))
          → Post mode
              (Summed timeout w)
              (visit_listing rt host timeout below depth share current listing w)
      unfolding visit_listing
      visit_listing-Summed below depth share current none w h =
          Summed-none timeout w w refl refl (omega arith)
      visit_listing-Summed below depth share current (some entries) w h =
          let first : Level F = record { walk = w; counts = no_counts; dirs = [] } in
          Post->>= mode (Tally first) (Summed timeout w)
            (visit_entries rt host timeout depth share current entries first) _
            (weaken mode (Tally first)
              (visit_entries rt host timeout depth share current entries first) lenient
              (visit_entries-Tally rt host timeout depth share current entries first))
            λ s t.
              Post-map mode (Sums timeout (length s.dirs) s.walk s.counts) (Summed timeout w)
                (visit_dirs timeout below s.dirs s.walk s.counts) (λ r a. listed w s r t a)
                (visit_dirs-Sums below s.dirs s.walk s.counts
                  (λ v later. h v (omega (arith, t.reads))))

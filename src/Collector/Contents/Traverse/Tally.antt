-- ===== src/Collector/Contents/Traverse/Tally.antt =====
-- What one entry that is explored (Go/internal/collector/contents.go) does to the counts and the counters.
use mathlib.Core.List.{List, append-nil, append_assoc}
use share_hound.Collector.Contents.{
  Walk, Level, set_context, emit, no_error, file_ends, directory_ends,
}
use share_hound.Collector.Contents.Traverse.Ends.{Post, no_error as never_errs, Post->>=}
use share_hound.Collector.Contents.Traverse.{
  write_directory, write_file, evaluated, enter_directory, enter_file, leave_entry, leave_file,
  clear, remember, after_read, with_rights,
}
use share_hound.Collector.Counts.{other_counters}
use share_hound.Collector.Rights.{ShareRights}
use share_hound.Graph.Context.{Context, PathEntry}
use share_hound.Graph.Element.{Node}
use share_hound.Graph.Emission.{add_path_to_graph}
use share_hound.Prelude.{
  ℕ, ◌+◌, ◌≤◌, ◌≡◌, refl, ap, ◌++◌, sym, ◌∙◌, subst, Bool, true, false, [], ◌∷◌, length,
  length-append, arith,
}
use share_hound.Prelude.Int.{ℤ, pos_part, neg_part, int_laws}
use share_hound.Prelude.Outcome.{Outcome, ok, err, panic, ◌>>=◌}
use share_hound.Rules.Evaluator.{Evaluator}

-- a + m = b + n, for integers a and b.
abbrev pub Balanced : ℤ → ℕ → ℤ → ℕ → Type 0
Balanced a m b n = pos_part a + m + neg_part b ≡ pos_part b + n + neg_part a

appended :
    (a b c : List PathEntry)
    → (more : List PathEntry) × (b ≡ a ++ more)
    → (more : List PathEntry) × (c ≡ b ++ more)
    → (more : List PathEntry) × (c ≡ a ++ more)
appended a b c (m, e) (n, f) =
    (m ++ n, f ∙ ap (λ (x : List PathEntry). x ++ n) e ∙ append_assoc a m n)

module _ {F : Type 0} where
  -- From one state of the loop to a later one.
  pub record Tally (s t : Level F) : Type 0 where
    pub reads : s.walk.reads ≤ t.walk.reads
    pub others : other_counters t.walk.results ≡ other_counters s.walk.results
    pub rules : t.walk.evaluator.rules ≡ s.walk.evaluator.rules
    pub later : (more : List PathEntry) × (t.dirs ≡ s.dirs ++ more)
    pub files :
        t.counts.processed_files + s.counts.total_files
        ≡ s.counts.processed_files + t.counts.total_files
    pub files_pending : Balanced t.walk.results.files_pending 0 s.walk.results.files_pending 0
    pub written :
        t.counts.processed_directories + s.counts.total_directories
        ≤ s.counts.processed_directories + t.counts.total_directories
    pub dirs :
        t.counts.total_directories + length s.dirs ≡ s.counts.total_directories + length t.dirs
    pub pending :
        Balanced t.walk.results.directories_pending
          (t.counts.processed_directories + length s.dirs)
          s.walk.results.directories_pending
          (s.counts.processed_directories + length t.dirs)

  pub Tally-trans : (s t u : Level F) → Tally s t → Tally t u → Tally s u
  Tally-trans s t u a b = record {
    reads = omega (arith, a.reads, b.reads);
    rules = b.rules ∙ a.rules;
    later = appended s.dirs t.dirs u.dirs a.later b.later;
    others = b.others ∙ a.others;
    files = omega (arith, a.files, b.files);
    files_pending = omega (arith, a.files_pending, b.files_pending);
    written = omega (arith, a.written, b.written);
    dirs = omega (arith, a.dirs, b.dirs);
    pending = omega (arith, a.pending, b.pending);
  }

  pub Tally-refl : (s : Level F) → Tally s s
  Tally-refl s = record {
    reads = omega arith;
    rules = refl;
    later = ([], sym (append-nil s.dirs));
    others = refl;
    files = refl;
    files_pending = omega arith;
    written = omega arith;
    dirs = refl;
    pending = omega arith;
  }

  -- One read of the flag.
  pub read-Tally : (s : Level F) → Tally s (record s { walk = after_read s.walk })
  read-Tally s = record {
    reads = omega arith;
    rules = refl;
    later = ([], sym (append-nil s.dirs));
    others = refl;
    files = refl;
    files_pending = omega arith;
    written = omega arith;
    dirs = refl;
    pending = omega arith;
  }

  pub rights-Tally : (rights : ShareRights) (s : Level F) → Tally s (with_rights rights s)
  rights-Tally rights s = record {
    reads = omega arith;
    rules = refl;
    later = ([], sym (append-nil s.dirs));
    others = refl;
    files = refl;
    files_pending = omega arith;
    written = omega arith;
    dirs = refl;
    pending = omega arith;
  }

  -- Only the context changes.
  abbrev Emitted : Walk F → Walk F → Type 0
  Emitted w w' = (c : Context) × (w' ≡ set_context c w)

  emitted :
      (w : Walk F) (r : Outcome ⊥ Context)
      → Post never_errs (Emitted w) (no_error r >>= λ c. ok (set_context c w))
  emitted w (ok c) = (c, refl)
  emitted w (err e) = elim e [ ]
  emitted w panic = tt

  emit-Emitted : (w : Walk F) → Post never_errs (Emitted w) (emit w)
  unfolding emit
  emit-Emitted w = emitted w (add_path_to_graph w.context)

  -- The directory, and the file, after it has been written.
  abbrev pub directory_written : Context → Level F → Level F
  directory_written c s = record s {
    walk = directory_ends (set_context c s.walk);
    counts = record (s.counts) { processed_directories = s.counts.processed_directories + 1 };
  }

  abbrev file_written : Context → Level F → Level F
  file_written c s = record s {
    walk = file_ends (set_context c s.walk);
    counts = record (s.counts) { processed_files = s.counts.processed_files + 1 };
  }

  pub write_directory_written :
      (s : Level F)
      → Post never_errs (λ t. (c : Context) × (t ≡ directory_written c s)) (write_directory true s)
  unfolding write_directory
  write_directory_written s =
      Post->>= never_errs (Emitted s.walk) _ (emit s.walk) _ (emit-Emitted s.walk)
        (λ w (c, e). (c, rw e refl))

  write_file_written :
      (s : Level F)
      → Post never_errs (λ t. (c : Context) × (t ≡ file_written c s)) (write_file true s)
  unfolding write_file
  write_file_written s =
      Post->>= never_errs (Emitted s.walk) _ (emit s.walk) _ (emit-Emitted s.walk)
        (λ w (c, e). (c, rw e refl))

  pub leave_entry-Tally :
      (d : PathEntry) (node : Node) (first e : Evaluator F) (b : Bool) (s : Level F)
      → e.rules ≡ s.walk.evaluator.rules
      → Post never_errs (Tally s) (leave_entry d (e, b) (enter_directory node (evaluated first s)))
  unfolding leave_entry write_directory
  leave_entry-Tally d node first e false s kept = record {
    reads = omega arith;
    rules = kept;
    later = (d ∷ [], refl);
    others = refl;
    files = refl;
    files_pending = omega arith;
    written = omega arith;
    dirs = omega (arith, length-append s.dirs (d ∷ []));
    pending = omega (int_laws, length-append s.dirs (d ∷ []));
  }
  leave_entry-Tally d node first e true s kept =
      let v = evaluated e (enter_directory node (evaluated first s)) in
      Post->>= never_errs (λ t. (c : Context) × (t ≡ directory_written c v)) (Tally s)
        (write_directory true v) _ (write_directory_written v)
        λ t (c, q).
          subst (λ (x : Level F). Tally s (clear (remember d x))) (sym q)
            record {
              reads = omega arith;
              rules = kept;
              later = (d ∷ [], refl);
              others = refl;
              files = refl;
              files_pending = omega arith;
              written = omega arith;
              dirs = omega (arith, length-append s.dirs (d ∷ []));
              pending = omega (int_laws, length-append s.dirs (d ∷ []));
            }

  pub leave_file-Tally :
      (node : Node) (rights : ShareRights) (first e : Evaluator F) (s : Level F)
      → e.rules ≡ s.walk.evaluator.rules
      → Post never_errs
          (Tally s)
          (leave_file (e, true) (enter_file node rights (evaluated first s)))
  unfolding leave_file
  leave_file-Tally node rights first e s kept =
      let v = evaluated e (enter_file node rights (evaluated first s)) in
      Post->>= never_errs (λ t. (c : Context) × (t ≡ file_written c v)) (Tally s)
        (write_file true v) _ (write_file_written v)
        λ t (c, q).
          subst (λ (x : Level F). Tally s (clear x)) (sym q)
            record {
              reads = omega arith;
              rules = kept;
              later = ([], sym (append-nil s.dirs));
              others = refl;
              files = omega arith;
              files_pending = omega int_laws;
              written = omega arith;
              dirs = refl;
              pending = omega arith;
            }

-- ===== src/Collector/Contents/Traverse.antt =====
-- Go/internal/collector/contents.go: the visit of one listing and the recursion over the directories,
-- which is given fuel.
use share_hound.Collector.Contents.{
  FileInfo, Listing, Session, WalkError, out_of_fuel, Walk, Level, unc_path, directory_node,
  file_node, inherit, set_context, set_evaluator, set_results, directory_begins, directory_ends,
  file_begins, file_ends, emit,
}
use share_hound.Collector.Counts.{TraversalCounts, no_counts, add, report}
use share_hound.Collector.Rights.{ShareRights, collect_ntfs_rights}
use share_hound.Graph.Context.{
  PathEntry, set_element, set_element_rights, clear_element, push_path, pop_path,
  get_string_path_from_root,
}
use share_hound.Graph.Element.{Node, get_string_property}
use share_hound.Prelude.{
  ℕ, zero, suc, ◌+◌, Bool, true, false, not, ◌&&◌, ◌||◌, List, [], ◌∷◌, ◌++◌, Option, none, some,
  ltb, leb, if◌then◌else◌,
}
use share_hound.Prelude.FilePath.{filepath_join, filepath_ext}
use share_hound.Prelude.Outcome.{Outcome, ok, err, panic, ◌>>=◌}
use share_hound.Prelude.Text.{Text, codes, eqb, to_lower}
use share_hound.Rules.Evaluator.{
  Evaluator, RuleObject, file_object, directory_object, set_depth, can_explore, can_process,
}
use share_hound.Rules.Value.{Runtime}
pub mod Ends
pub mod Evolution
pub mod Sound
pub mod Tally
pub mod Tallied
pub mod Counted
pub mod Returns
pub mod Visits
pub mod Listed
pub mod Found
pub mod Below
pub mod Complete

abbrev pub full_path_of : Text → Text → Text
full_path_of current name = if eqb current [] then name else filepath_join current name

-- `shareNode.GetStringProperty("displayName")`, empty if there is no share
unfoldable pub share_name : Option Node → Text
share_name none = []
share_name (some n) = get_string_property (codes "displayName") n

module _ {F : Type 0} where
  -- `timeoutFlag.Load()`; a flag that is nil reads as false.
  abbrev pub after_read : Walk F → Walk F
  after_read w = record w { reads = w.reads + 1 }

  -- The end of the second loop's body.
  abbrev pub leave_directory : TraversalCounts → Walk F → Walk F
  leave_directory sub w =
      let reported = directory_ends (set_results (report sub w.results) w) in
      set_context (pop_path w.context).0 reported

  -- The loop over the directories of the next level; `below` is the recursive call.
  unfoldable pub visit_dirs :
      (ℕ → Bool)
      → (Walk F → Outcome WalkError (Walk F × TraversalCounts))
      → List PathEntry
      → Walk F
      → TraversalCounts
      → Outcome WalkError (Walk F × TraversalCounts)
  visit_dirs timeout below [] w counts = ok (w, counts)
  visit_dirs timeout below (d ∷ dirs) w counts =
      let w1 = after_read w in
      if timeout w.reads then ok (w1, counts) else (do
        result ← below (set_context (push_path d.node d.rights w1.context) w1)
        visit_dirs timeout below dirs (leave_directory result.1 result.0) (add counts result.1))

  -- The rights of an entry become those of the element.
  abbrev pub with_rights : ShareRights → Level F → Level F
  with_rights rights s = record s {
    walk = set_context (set_element_rights rights s.walk.context) s.walk;
  }

  -- What is left of the loop's body for a directory, once the rules have said whether it is written.
  unfoldable pub write_directory : Bool → Level F → Outcome WalkError (Level F)
  write_directory false s = ok s
  write_directory true s = do
    w ← emit s.walk
    ok (record s {
      walk = directory_ends w;
      counts = record (s.counts) { processed_directories = s.counts.processed_directories + 1 };
    })

  unfoldable pub write_file : Bool → Level F → Outcome WalkError (Level F)
  write_file false s = ok s
  write_file true s = do
    w ← emit s.walk
    ok (record s {
      walk = file_ends w;
      counts = record (s.counts) { processed_files = s.counts.processed_files + 1 };
    })

  -- `ogc.ClearElement()`
  abbrev pub clear : Level F → Level F
  clear s = record s { walk = set_context (clear_element s.walk.context) s.walk }

  -- `dirsToExplore = append(dirsToExplore, …)`
  abbrev pub remember : PathEntry → Level F → Level F
  remember d s = record s { dirs = s.dirs ++ (d ∷ []) }

  abbrev pub skip_directory : Level F → Level F
  skip_directory s = record s {
    counts = record (s.counts) { skipped_directories = s.counts.skipped_directories + 1 };
  }

  abbrev pub skip_file : Level F → Level F
  skip_file s = record s {
    counts = record (s.counts) { skipped_files = s.counts.skipped_files + 1 };
  }

  -- The directory is counted and becomes the element.
  abbrev pub enter_directory : Node → Level F → Level F
  enter_directory node s = record s {
    walk = set_context (set_element node s.walk.context) (directory_begins s.walk);
    counts = record (s.counts) { total_directories = s.counts.total_directories + 1 };
  }

  abbrev pub enter_file : Node → ShareRights → Level F → Level F
  enter_file node rights s = record s {
    walk = set_context (inherit rights (set_element node s.walk.context)) (file_begins s.walk);
    counts = record (s.counts) { total_files = s.counts.total_files + 1 };
  }

  abbrev pub evaluated : Evaluator F → Level F → Level F
  evaluated e s = record s { walk = set_evaluator e s.walk }

  -- Behind the second question to the rules, with its answer.
  unfoldable pub leave_entry :
      PathEntry → Evaluator F × Bool → Level F → Outcome WalkError (Level F)
  unfolding write_directory
  leave_entry d (e, processed) s = do
    t ← write_directory processed (evaluated e s)
    ok (clear (remember d t))

  unfoldable pub leave_file : Evaluator F × Bool → Level F → Outcome WalkError (Level F)
  unfolding write_file
  leave_file (e, processed) s = do t ← write_file processed (evaluated e s); ok (clear t)

  module _ (rt : Runtime F) where
    -- Behind the first question to the rules, with its answer. A skipped directory or file is not
    -- cleared: its rights stay those of the element.
    unfoldable pub answer_directory :
        RuleObject → PathEntry → Evaluator F × Bool → Level F → Outcome WalkError (Level F)
    unfolding leave_entry
    answer_directory object d (e, false) s = ok (skip_directory (evaluated e s))
    answer_directory object d (e, true) s =
        let t = enter_directory d.node (evaluated e s) in
        leave_entry d (can_process rt object t.walk.evaluator) t

    unfoldable pub answer_file :
        RuleObject → Node → ShareRights → Evaluator F × Bool → Level F → Outcome WalkError (Level F)
    unfolding leave_file
    answer_file object node rights (e, false) s = ok (skip_file (evaluated e s))
    answer_file object node rights (e, true) s =
        let t = enter_file node rights (evaluated e s) in
        leave_file (can_process rt object t.walk.evaluator) t

    -- The body of the loop for a directory, and for a file.
    unfoldable pub visit_directory : RuleObject → PathEntry → Level F → Outcome WalkError (Level F)
    unfolding answer_directory
    visit_directory object d s =
        answer_directory object d (can_explore rt object s.walk.evaluator) s

    unfoldable pub visit_file :
        RuleObject → Node → ShareRights → Level F → Outcome WalkError (Level F)
    unfolding answer_file
    visit_file object node rights s =
        answer_file object node rights (can_process rt object s.walk.evaluator) s

    module _ (host : Session) where
      -- The body of the loop, from the skipping of `.` and `..` on.
      unfoldable pub visit_entry :
          ℕ → Text → Text → Text → FileInfo → Level F → Outcome WalkError (Level F)
      unfolding visit_directory visit_file eqb
      visit_entry depth share current name info s =
          let full_path = full_path_of current name in
          let unc = unc_path host.remote_name share full_path in
          let rights =
            collect_ntfs_rights (host.orders full_path) (host.file_descriptor full_path) in
          let ext = to_lower (filepath_ext name) in
          if eqb name (codes ".") || eqb name (codes "..")
          then ok s
          else if info.is_dir
          then visit_directory (directory_object (record { name = name; path = full_path }))
              (record { node = directory_node name full_path unc depth info; rights = rights })
              (with_rights rights s)
          else visit_file
              (file_object
                (record { name = name; path = full_path; size = info.size; extension = ext }))
              (file_node name full_path unc ext depth info) rights (with_rights rights s)

      module _ (timeout : ℕ → Bool) where
        -- The loop over the listing.
        unfoldable pub visit_entries :
            ℕ → Text → Text → Listing → Level F → Outcome WalkError (Level F)
        unfolding visit_entry
        visit_entries depth share current [] s = ok s
        visit_entries depth share current ((name, info) ∷ rest) s =
            let s1 = record s { walk = after_read s.walk } in
            if timeout s.walk.reads then ok s1 else (do
              s2 ← visit_entry depth share current name info s1
              visit_entries depth share current rest s2)

        -- One listing and what is below it.
        unfoldable pub visit_listing :
            (Walk F → Outcome WalkError (Walk F × TraversalCounts))
            → ℕ
            → Text
            → Text
            → Option Listing
            → Walk F
            → Outcome WalkError (Walk F × TraversalCounts)
        unfolding visit_entries visit_dirs
        visit_listing below depth share current none w = ok (w, no_counts)
        visit_listing below depth share current (some entries) w = do
          s ←
              visit_entries depth share current entries
                (record { walk = w; counts = no_counts; dirs = [] })
          visit_dirs timeout below s.dirs s.walk s.counts

        -- `collectContentsAtDepth` behind its two first guards.
        unfoldable pub visit_share :
            (Walk F → Outcome WalkError (Walk F × TraversalCounts))
            → ℕ
            → Walk F
            → Outcome WalkError (Walk F × TraversalCounts)
        unfolding visit_listing share_name eqb
        visit_share below depth w =
            let share = share_name w.context.share in
            let current = get_string_path_from_root w.context in
            let w1 = set_evaluator (set_depth depth w.evaluator) w in
            if eqb share [] || not (host.set_share share)
            then ok (w, no_counts)
            else visit_listing below depth share current (host.list_contents current) w1

        -- `collectContentsAtDepth`
        unfoldable pub collect_contents_at_depth :
            ℕ → ℕ → ℕ → Walk F → Outcome WalkError (Walk F × TraversalCounts)
        unfolding visit_share
        collect_contents_at_depth max_depth zero depth w = err out_of_fuel
        collect_contents_at_depth max_depth (suc fuel) depth w =
            let w1 = after_read w in
            let below = collect_contents_at_depth max_depth fuel (depth + 1) in
            if timeout w.reads || (ltb 0 max_depth && leb max_depth depth)
            then ok (w1, no_counts)
            else visit_share below depth w1

        -- `CollectContentsInShare`
        unfoldable pub collect_contents_in_share :
            ℕ → ℕ → Walk F → Outcome WalkError (Walk F × TraversalCounts)
        unfolding collect_contents_at_depth
        collect_contents_in_share max_depth fuel w = collect_contents_at_depth max_depth fuel 0 w

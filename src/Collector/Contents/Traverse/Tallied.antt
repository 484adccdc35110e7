-- ===== src/Collector/Contents/Traverse/Tallied.antt =====
-- What the loop over one listing (Go/internal/collector/contents.go) does to the counts and the counters.
use mathlib.Core.List.{append-nil}
use share_hound.Collector.Contents.{
  FileInfo, Listing, Session, Level, directory_node, file_node, unc_path,
}
use share_hound.Collector.Contents.Traverse.Ends.{
  Post, no_error as never_errs, Post->>=, Post-if, Post-map,
}
use share_hound.Collector.Contents.Traverse.{
  evaluated, enter_file, leave_file, answer_directory, answer_file, visit_directory, visit_file,
  visit_entry, visit_entries, after_read, full_path_of, with_rights,
}
use share_hound.Collector.Rights.{ShareRights, collect_ntfs_rights}
use share_hound.Graph.Context.{PathEntry}
use share_hound.Graph.Element.{Node}
use share_hound.Prelude.{ℕ, ◌≡◌, refl, sym, ◌∙◌, subst, Bool, true, false, ◌||◌, [], ◌∷◌, arith}
use share_hound.Prelude.FilePath.{filepath_ext}
use share_hound.Prelude.Text.{Text, codes, eqb, to_lower}
use share_hound.Rules.Evaluator.{
  Evaluator, RuleObject, share_object, file_object, directory_object, can_explore, can_process,
}
use share_hound.Rules.Value.{Runtime}
use share_hound.Collector.Contents.Traverse.Tally.{
  Tally, Tally-trans, Tally-refl, read-Tally, rights-Tally, leave_entry-Tally, leave_file-Tally,
}

module _ {F : Type 0} where
  module _ (rt : Runtime F) where
    -- The rules answer the same question twice in the same way.
    pub can_process_again :
        (f : RuleObject) (e : Evaluator F)
        → can_process rt f (can_process rt f e).0 ≡ can_process rt f e
    unfolding can_process
    can_process_again (share_object o) e = refl
    can_process_again (file_object o) e = refl
    can_process_again (directory_object o) e = refl

    pub can_process_rules :
        (f : RuleObject) (e : Evaluator F) → (can_process rt f e).0.rules ≡ e.rules
    unfolding can_process
    can_process_rules (share_object o) e = refl
    can_process_rules (file_object o) e = refl
    can_process_rules (directory_object o) e = refl

    pub can_explore_rules :
        (f : RuleObject) (e : Evaluator F) → (can_explore rt f e).0.rules ≡ e.rules
    unfolding can_explore
    can_explore_rules (share_object o) e = refl
    can_explore_rules (file_object o) e = refl
    can_explore_rules (directory_object o) e = refl

    answer_directory-Tally :
        (object : RuleObject) (d : PathEntry) (r : Evaluator F × Bool) (s : Level F)
        → r.0.rules ≡ s.walk.evaluator.rules
        → Post never_errs (Tally s) (answer_directory rt object d r s)
    unfolding answer_directory
    answer_directory-Tally object d (e, false) s kept = record {
      reads = omega arith;
      rules = kept;
      later = ([], sym (append-nil s.dirs));
      others = refl;
      files = refl;
      files_pending = omega arith;
      written = omega arith;
      dirs = refl;
      pending = omega arith;
    }
    answer_directory-Tally object d (e, true) s kept =
        let r = can_process rt object e in
        leave_entry-Tally d d.node e r.0 r.1 s (can_process_rules object e ∙ kept)

    answer_file-Tally :
        (object : RuleObject) (node : Node) (rights : ShareRights) (r : Evaluator F × Bool)
        (s : Level F)
        → can_process rt object r.0 ≡ r
        → r.0.rules ≡ s.walk.evaluator.rules
        → Post never_errs (Tally s) (answer_file rt object node rights r s)
    unfolding answer_file
    answer_file-Tally object node rights (e, false) s q kept = record {
      reads = omega arith;
      rules = kept;
      later = ([], sym (append-nil s.dirs));
      others = refl;
      files = refl;
      files_pending = omega arith;
      written = omega arith;
      dirs = refl;
      pending = omega arith;
    }
    answer_file-Tally object node rights (e, true) s q kept =
        subst
          (λ (r : Evaluator F × Bool).
            Post never_errs (Tally s) (leave_file r (enter_file node rights (evaluated e s))))
          (sym q) (leave_file-Tally node rights e e s kept)

    module _ (host : Session) where
      pub visit_entry-Tally :
          (depth : ℕ) (share current name : Text) (info : FileInfo) (s : Level F)
          → Post never_errs (Tally s) (visit_entry rt host depth share current name info s)
      unfolding visit_entry visit_directory visit_file
      visit_entry-Tally depth share current name info s =
          let path = full_path_of current name in
          let unc = unc_path host.remote_name share path in
          let rights = collect_ntfs_rights (host.orders path) (host.file_descriptor path) in
          let ext = to_lower (filepath_ext name) in
          let s1 = with_rights rights s in
          let dir = directory_object (record { name = name; path = path }) in
          let file =
            file_object (record { name = name; path = path; size = info.size; extension = ext }) in
          let d : PathEntry = record {
            node = directory_node name path unc depth info;
            rights = rights;
          } in
          Post-if never_errs (Tally s) (eqb name (codes ".") || eqb name (codes "..")) _ _
            (λ _. Tally-refl s)
            λ _.
              Post-if never_errs (Tally s) info.is_dir _ _
                (λ _.
                  Post-map never_errs (Tally s1) (Tally s) (visit_directory rt dir d s1)
                    (λ t v. Tally-trans s s1 t (rights-Tally rights s) v)
                    (answer_directory-Tally dir d (can_explore rt dir s1.walk.evaluator) s1
                      (can_explore_rules dir s1.walk.evaluator)))
                (λ _.
                  let n = file_node name path unc ext depth info in
                  Post-map never_errs (Tally s1) (Tally s) (visit_file rt file n rights s1)
                    (λ t v. Tally-trans s s1 t (rights-Tally rights s) v)
                    (answer_file-Tally file n rights (can_process rt file s1.walk.evaluator) s1
                      (can_process_again file s1.walk.evaluator)
                      (can_process_rules file s1.walk.evaluator)))

      module _ (timeout : ℕ → Bool) where
        pub visit_entries-Tally :
            (depth : ℕ) (share current : Text) (entries : Listing) (s : Level F)
            → Post never_errs
                (Tally s)
                (visit_entries rt host timeout depth share current entries s)
        unfolding visit_entries
        visit_entries-Tally depth share current [] s = Tally-refl s
        visit_entries-Tally depth share current ((name, info) ∷ rest) s =
            let s1 = record s { walk = after_read s.walk } in
            let later = read-Tally s in
            Post-if never_errs (Tally s) (timeout s.walk.reads) _ _ (λ _. later)
              λ _.
                Post->>= never_errs (Tally s1) (Tally s)
                  (visit_entry rt host depth share current name info s1) _
                  (visit_entry-Tally depth share current name info s1)
                  λ t v.
                    Post-map never_errs (Tally t) (Tally s)
                      (visit_entries rt host timeout depth share current rest t)
                      (λ u x. Tally-trans s t u (Tally-trans s s1 t later v) x)
                      (visit_entries-Tally depth share current rest t)

-- ===== src/Collector/Contents/Traverse/Listed.antt =====
-- Where the rules allow all and the timeout does not come, the loop over a listing
-- (Go/internal/collector/contents.go) visits each of its entries.
use share_hound.Collector.Contents.Traverse.Ends.{
  no_panic, if_ok, Post, Post->>=, Post-if, Post-map, both, weaken, lenient,
}
use share_hound.Collector.Contents.Traverse.Evolution.{
  Grows, directory_node-kinds, file_node-kinds, visit_entry-Grows,
}
use share_hound.Collector.Contents.Traverse.Tally.{Tally}
use share_hound.Collector.Contents.Traverse.Tallied.{
  can_process_rules, can_explore_rules, visit_entry-Tally, visit_entries-Tally,
}
use share_hound.Collector.Contents.Traverse.Evolution.{visit_entries-Grows}
use share_hound.Collector.Contents.Traverse.Visits.{
  Allows, IsPlaced, Evolves-IsPlaced, answer_file-Shows, answer_directory-Shows, can_process-true,
  can_explore-true,
}
use share_hound.Collector.Contents.Traverse.{
  visit_directory, visit_file, visit_entry, visit_entries, after_read, full_path_of, with_rights,
}
use share_hound.Collector.Contents.{
  FileInfo, Listing, Session, Level, set_time, directory_node, file_node, unc_path,
}
use share_hound.Collector.Rights.{collect_ntfs_rights}
use share_hound.Graph.Context.{PathEntry}
use share_hound.Graph.Element.{Node, set_property}
use share_hound.Graph.Emission.Evolves.{here, element}
use share_hound.Graph.Emission.Writes.{Present}
use share_hound.Prelude.{
  ℕ, ◌≡◌, refl, ◌∙◌, subst, Bool, true, false, ◌||◌, List, [], ◌∷◌, ◌++◌, Option, none, some,
}
use share_hound.Prelude.FilePath.{filepath_ext}
use share_hound.Prelude.Int.{ℤ}
use share_hound.Prelude.Text.{Text, codes, eqb, to_lower}
use share_hound.Rules.Evaluator.{Rule, file_object, directory_object, can_explore, can_process}
use share_hound.Rules.Value.{Runtime}

abbrev pub is_dots : Text → Bool
is_dots name = eqb name (codes ".") || eqb name (codes "..")

module _ (host : Session) (depth : ℕ) (share current name : Text) where
  -- The ids of a file and of a directory of a listing, and the entry of the path for a directory.
  abbrev pub file_id : Text
  file_id = codes "FILE:" ++ unc_path host.remote_name share (full_path_of current name)

  abbrev pub directory_id : Text
  directory_id = codes "DIR:" ++ unc_path host.remote_name share (full_path_of current name)

  abbrev pub path_entry : FileInfo → PathEntry
  path_entry info =
      let path = full_path_of current name in
      record {
        node = directory_node name path (unc_path host.remote_name share path) depth info;
        rights = collect_ntfs_rights (host.orders path) (host.file_descriptor path);
      }

set_time-id : (key : Text) (t : Option ℤ) (n : Node) → (set_time key t n).id ≡ n.id
unfolding set_time set_property
set_time-id key none n = refl
set_time-id key (some t) n = refl

directory_node-id :
    (name path unc : Text) (depth : ℕ) (info : FileInfo)
    → (directory_node name path unc depth info).id ≡ codes "DIR:" ++ unc
unfolding directory_node set_property
directory_node-id name path unc depth info =
    set_time-id _ info.modified_time _ ∙ set_time-id _ info.created_time _

file_node-id :
    (name path unc ext : Text) (depth : ℕ) (info : FileInfo)
    → (file_node name path unc ext depth info).id ≡ codes "FILE:" ++ unc
unfolding file_node set_property
file_node-id name path unc ext depth info =
    set_time-id _ info.modified_time _ ∙ set_time-id _ info.created_time _

module _ {F : Type 0} (rt : Runtime F) (rules : List (Rule F)) (h s : Node)
    (allows : Allows rt rules) (host : Session) where
  pub visit_entry-file :
      (depth : ℕ) (share current name : Text) (info : FileInfo) (t : Level F)
      → is_dots name ≡ false
      → info.is_dir ≡ false
      → t.walk.evaluator.rules ≡ rules
      → IsPlaced h s t.walk.context
      → Post no_panic
          (λ u. Present (file_id host depth share current name) u.walk.context)
          (visit_entry rt host depth share current name info t)
  unfolding visit_entry visit_file
  visit_entry-file depth share current name info t real plain ruled k =
      let path = full_path_of current name in
      let unc = unc_path host.remote_name share path in
      let rights = collect_ntfs_rights (host.orders path) (host.file_descriptor path) in
      let ext = to_lower (filepath_ext name) in
      let t1 = with_rights rights t in
      let w = element t.walk.context.element rights k.clean.element_kind here in
      let o =
        file_object (record { name = name; path = path; size = info.size; extension = ext }) in
      let n = file_node name path unc ext depth info in
      let Q = λ (u : Level F). Present (codes "FILE:" ++ unc) u.walk.context in
      Post-if no_panic Q (is_dots name) _ _ (λ dots. cc)
        λ _.
          Post-if no_panic Q info.is_dir _ _ (λ dir. cc)
            λ _.
              subst
                (λ (id : Text).
                  Post no_panic (λ (u : Level F). Present id u.walk.context)
                    (visit_file rt o n rights t1))
                (file_node-id name path unc ext depth info)
                (answer_file-Shows h s rt rules allows o n rights
                  (can_process rt o t1.walk.evaluator) t1
                  (file_node-kinds name path unc ext depth info)
                  (can_process-true h s rt rules allows o t1.walk.evaluator ruled)
                  (can_process_rules rt o t1.walk.evaluator ∙ ruled) (Evolves-IsPlaced h s w k))

  pub visit_entry-directory :
      (depth : ℕ) (share current name : Text) (info : FileInfo) (t : Level F)
      → is_dots name ≡ false
      → info.is_dir ≡ true
      → t.walk.evaluator.rules ≡ rules
      → IsPlaced h s t.walk.context
      → Post no_panic
          (λ u.
            Present (directory_id host depth share current name) u.walk.context
            × (u.dirs ≡ t.dirs ++ (path_entry host depth share current name info ∷ [])))
          (visit_entry rt host depth share current name info t)
  unfolding visit_entry visit_directory
  visit_entry-directory depth share current name info t real plain ruled k =
      let path = full_path_of current name in
      let unc = unc_path host.remote_name share path in
      let d = path_entry host depth share current name info in
      let t1 = with_rights d.rights t in
      let w = element t.walk.context.element d.rights k.clean.element_kind here in
      let o = directory_object (record { name = name; path = path }) in
      let Q = λ (u : Level F).
        Present (codes "DIR:" ++ unc) u.walk.context × (u.dirs ≡ t.dirs ++ (d ∷ [])) in
      Post-if no_panic Q (is_dots name) _ _ (λ dots. cc)
        λ _.
          Post-if no_panic Q info.is_dir _ _
            (λ _.
              subst
                (λ (id : Text).
                  Post no_panic
                    (λ (u : Level F). Present id u.walk.context × (u.dirs ≡ t.dirs ++ (d ∷ [])))
                    (visit_directory rt o d t1))
                (directory_node-id name path unc depth info)
                (answer_directory-Shows h s rt rules allows o d (can_explore rt o t1.walk.evaluator)
                  t1 (directory_node-kinds name path unc depth info)
                  (can_explore-true h s rt rules allows o t1.walk.evaluator ruled)
                  (can_explore_rules rt o t1.walk.evaluator ∙ ruled) (Evolves-IsPlaced h s w k)))
            (λ file. cc)

  -- One step of the loop, or more of them.
  abbrev pub Goes : Level F → Level F → Type 0
  Goes t u = Grows t u × Tally t u

  visit_entry-Goes :
      (depth : ℕ) (share current name : Text) (info : FileInfo) (t : Level F)
      → IsPlaced h s t.walk.context
      → Post no_panic (Goes t) (visit_entry rt host depth share current name info t)
  visit_entry-Goes depth share current name info t k =
      let m = visit_entry rt host depth share current name info t in
      both (Grows t) (Tally t) m (visit_entry-Grows rt host depth share current name info t k.clean)
        (weaken if_ok (Tally t) m tt (visit_entry-Tally rt host depth share current name info t))

  pub visit_entries-Goes :
      (timeout : ℕ → Bool) (depth : ℕ) (share current : Text) (entries : Listing) (t : Level F)
      → IsPlaced h s t.walk.context
      → Post no_panic (Goes t) (visit_entries rt host timeout depth share current entries t)
  visit_entries-Goes timeout depth share current entries t k =
      let m = visit_entries rt host timeout depth share current entries t in
      both (Grows t) (Tally t) m
        (visit_entries-Grows rt host timeout depth share current entries t k.clean)
        (weaken if_ok (Tally t) m tt
          (visit_entries-Tally rt host timeout depth share current entries t))

  -- What the visit of an entry gives, and what follows keeps, holds after the loop.
  pub visit_entries-at :
      (timeout : ℕ → Bool) (quiet : (i : ℕ) → timeout i ≡ false) (Q : Level F → Type 0)
      (keeps : (t u : Level F) → IsPlaced h s t.walk.context → Goes t u → Q t → Q u) (depth : ℕ)
      (share current name : Text) (info : FileInfo)
      (hits : (t : Level F)
        → t.walk.evaluator.rules ≡ rules
        → IsPlaced h s t.walk.context
        → Post no_panic Q (visit_entry rt host depth share current name info t))
      (front rest : Listing) (t : Level F)
      → t.walk.evaluator.rules ≡ rules
      → IsPlaced h s t.walk.context
      → Post no_panic Q
          (visit_entries rt host timeout depth share current (front ++ ((name, info) ∷ rest)) t)
  unfolding visit_entries
  visit_entries-at timeout quiet Q keeps depth share current name info hits [] rest t ruled k =
      let t1 = record t { walk = after_read t.walk } in
      let m = visit_entry rt host depth share current name info t1 in
      Post-if no_panic Q (timeout t.walk.reads) _ _ (λ set. cc (quiet t.walk.reads))
        λ _.
          Post->>= no_panic (λ u. Q u × Goes t1 u) Q m _
            (both Q (Goes t1) m (hits t1 ruled k)
              (lenient (Goes t1) m (visit_entry-Goes depth share current name info t1 k)))
            λ u (q, g).
              let l = Evolves-IsPlaced h s g.0 k in
              Post-map no_panic (Goes u) Q
                (visit_entries rt host timeout depth share current rest u) (λ v f. keeps u v l f q)
                (visit_entries-Goes timeout depth share current rest u l)
  visit_entries-at timeout quiet Q keeps depth share current name info hits ((x, y) ∷ front) rest t
        ruled k =
      let t1 = record t { walk = after_read t.walk } in
      Post-if no_panic Q (timeout t.walk.reads) _ _ (λ set. cc (quiet t.walk.reads))
        λ _.
          Post->>= no_panic (Goes t1) Q (visit_entry rt host depth share current x y t1) _
            (visit_entry-Goes depth share current x y t1 k)
            λ u g.
              visit_entries-at timeout quiet Q keeps depth share current name info hits front rest u
                (g.1.rules ∙ ruled) (Evolves-IsPlaced h s g.0 k)

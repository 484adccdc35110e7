-- ===== src/Collector/Contents/Traverse/Evolution.antt =====
-- What the walk over a share (Go/internal/collector/contents.go) does to the context of the share.
use share_hound.Collector.Contents.{
  FileInfo, Listing, Session, Walk, Level, inherit, inherited_rights, is_empty, emit,
  directory_node, file_node, set_time, unc_path,
}
use share_hound.Collector.Contents.Traverse.Ends.{Post, no_panic, Post->>=, Post-if, Post-map}
use share_hound.Collector.Contents.Traverse.{
  write_directory, write_file, evaluated, enter_directory, enter_file, leave_entry, leave_file,
  answer_directory, answer_file, visit_directory, visit_file, visit_entry, visit_entries,
  after_read, full_path_of, with_rights,
}
use share_hound.Collector.Rights.{ShareRights, collect_ntfs_rights}
use share_hound.Graph.Context.{Context, PathEntry, set_element, set_element_rights, clear_element}
use share_hound.Graph.Element.{Node, set_property}
use share_hound.Graph.Emission.Accounts.{IsSound}
use share_hound.Graph.Emission.Evolves.{
  Evolves, here, adds, element, Evolves-IsSound, Evolves-share, Evolves-HasKind, Evolves-trans,
}
use share_hound.Graph.Emission.Steps.{if-elim}
use share_hound.Graph.Emission.Total.{HasKind, add_path_to_graph-ok}
use share_hound.Prelude.{
  ℕ, ◌≡◌, ◌≢◌, refl, sym, ◌∙◌, subst, Bool, true, false, not, ◌&&◌, ◌||◌, [], ◌∷◌, Option, none,
  some,
}
use share_hound.Prelude.FilePath.{filepath_ext}
use share_hound.Prelude.Int.{ℤ}
use share_hound.Prelude.Text.{Text, codes, eqb, to_lower}
use share_hound.Rules.Evaluator.{
  Evaluator, RuleObject, file_object, directory_object, can_explore, can_process,
}
use share_hound.Rules.Value.{Runtime}

-- A context in which paths can be added to the graph.
pub record IsClean (c : Context) : Type 0 where
  pub sound : IsSound c
  pub share_kind : HasKind c.share
  pub element_kind : HasKind c.element

pub Evolves-IsClean : {c d : Context} → Evolves c d → IsClean c → IsClean d
Evolves-IsClean v k = record {
  sound = Evolves-IsSound v k.sound;
  share_kind = λ n h. k.share_kind n (sym (Evolves-share v k.sound) ∙ h);
  element_kind = Evolves-HasKind v k.sound k.element_kind;
}

set_time-kinds : (key : Text) (t : Option ℤ) (n : Node) → (set_time key t n).kinds ≡ n.kinds
unfolding set_time set_property
set_time-kinds key none n = refl
set_time-kinds key (some t) n = refl

pub directory_node-kinds :
    (name path unc : Text) (depth : ℕ) (info : FileInfo)
    → (directory_node name path unc depth info).kinds ≢ []
unfolding directory_node set_property
directory_node-kinds name path unc depth info h =
    cc (set_time-kinds _ info.modified_time _, set_time-kinds _ info.created_time _)

pub file_node-kinds :
    (name path unc ext : Text) (depth : ℕ) (info : FileInfo)
    → (file_node name path unc ext depth info).kinds ≢ []
unfolding file_node set_property
file_node-kinds name path unc ext depth info h =
    cc (set_time-kinds _ info.modified_time _, set_time-kinds _ info.created_time _)

pub some-HasKind : (n : Node) → n.kinds ≢ [] → HasKind (some n)
some-HasKind n k m e = let same : n ≡ m = cc in subst (λ x. x.kinds ≢ []) same k

pub inherit-Evolves : (own : ShareRights) (c : Context) → IsClean c → Evolves c (inherit own c)
unfolding inherit
inherit-Evolves own c k =
    let rights = inherited_rights c in
    if-elim (Evolves c) (is_empty own && not (is_empty rights)) (set_element_rights rights c) c
      (λ _. element c.element rights k.element_kind here) (λ _. here)

-- The element goes.
cleared : {c d : Context} → Evolves c d → Evolves c (clear_element d)
cleared v = element none [] (λ n e. absurd (cc)) v

module _ {F : Type 0} where
  -- What a step of the loop over a listing does to the context.
  abbrev pub Grows : Level F → Level F → Type 0
  Grows s t = Evolves s.walk.context t.walk.context

  emit-Grows :
      (w : Walk F) → IsClean w.context → Post no_panic (λ w'. Evolves w.context w'.context) (emit w)
  unfolding emit
  emit-Grows w k =
      let (c, e) = add_path_to_graph-ok w.context k.sound.ready k.share_kind k.element_kind in
      rw e (adds here e)

  write_directory-Grows :
      (b : Bool) (s : Level F)
      → IsClean s.walk.context
      → Post no_panic (Grows s) (write_directory b s)
  unfolding write_directory
  write_directory-Grows false s k = here
  write_directory-Grows true s k =
      Post->>= no_panic (λ w. Evolves s.walk.context w.context) (Grows s) (emit s.walk) _
        (emit-Grows s.walk k) (λ w v. v)

  write_file-Grows :
      (b : Bool) (s : Level F) → IsClean s.walk.context → Post no_panic (Grows s) (write_file b s)
  unfolding write_file
  write_file-Grows false s k = here
  write_file-Grows true s k =
      Post->>= no_panic (λ w. Evolves s.walk.context w.context) (Grows s) (emit s.walk) _
        (emit-Grows s.walk k) (λ w v. v)

  leave_entry-Grows :
      (d : PathEntry) (r : Evaluator F × Bool) (s : Level F)
      → IsClean s.walk.context
      → Post no_panic (Grows s) (leave_entry d r s)
  unfolding leave_entry
  leave_entry-Grows d (e, b) s k =
      Post->>= no_panic (Grows s) (Grows s) (write_directory b (evaluated e s)) _
        (write_directory-Grows b (evaluated e s) k) (λ t v. cleared v)

  leave_file-Grows :
      (r : Evaluator F × Bool) (s : Level F)
      → IsClean s.walk.context
      → Post no_panic (Grows s) (leave_file r s)
  unfolding leave_file
  leave_file-Grows (e, b) s k =
      Post->>= no_panic (Grows s) (Grows s) (write_file b (evaluated e s)) _
        (write_file-Grows b (evaluated e s) k) (λ t v. cleared v)

  module _ (rt : Runtime F) where
    answer_directory-Grows :
        (object : RuleObject) (d : PathEntry) (r : Evaluator F × Bool) (s : Level F)
        → d.node.kinds ≢ []
        → IsClean s.walk.context
        → Post no_panic (Grows s) (answer_directory rt object d r s)
    unfolding answer_directory
    answer_directory-Grows object d (e, false) s kind k = here
    answer_directory-Grows object d (e, true) s kind k =
        let entered =
          element (some d.node) s.walk.context.element_rights (some-HasKind d.node kind) here in
        let t = enter_directory d.node (evaluated e s) in
        let r = can_process rt object t.walk.evaluator in
        Post-map no_panic (Grows t) (Grows s) (leave_entry d r t) (λ u v. Evolves-trans entered v)
          (leave_entry-Grows d r t (Evolves-IsClean entered k))

    answer_file-Grows :
        (object : RuleObject) (node : Node) (rights : ShareRights) (r : Evaluator F × Bool)
        (s : Level F)
        → node.kinds ≢ []
        → IsClean s.walk.context
        → Post no_panic (Grows s) (answer_file rt object node rights r s)
    unfolding answer_file
    answer_file-Grows object node rights (e, false) s kind k = here
    answer_file-Grows object node rights (e, true) s kind k =
        let entered =
          element (some node) s.walk.context.element_rights (some-HasKind node kind) here in
        let c = set_element node s.walk.context in
        let inherits =
          Evolves-trans entered (inherit-Evolves rights c (Evolves-IsClean entered k)) in
        let t = enter_file node rights (evaluated e s) in
        let r = can_process rt object t.walk.evaluator in
        Post-map no_panic (Grows t) (Grows s) (leave_file r t) (λ u v. Evolves-trans inherits v)
          (leave_file-Grows r t (Evolves-IsClean inherits k))

    module _ (host : Session) where
      pub visit_entry-Grows :
          (depth : ℕ) (share current name : Text) (info : FileInfo) (s : Level F)
          → IsClean s.walk.context
          → Post no_panic (Grows s) (visit_entry rt host depth share current name info s)
      unfolding visit_entry visit_directory visit_file
      visit_entry-Grows depth share current name info s k =
          let path = full_path_of current name in
          let unc = unc_path host.remote_name share path in
          let rights = collect_ntfs_rights (host.orders path) (host.file_descriptor path) in
          let ext = to_lower (filepath_ext name) in
          let w = element s.walk.context.element rights k.element_kind here in
          let s1 = with_rights rights s in
          let k1 = Evolves-IsClean w k in
          let dir = directory_object (record { name = name; path = path }) in
          let file =
            file_object (record { name = name; path = path; size = info.size; extension = ext }) in
          let d : PathEntry = record {
            node = directory_node name path unc depth info;
            rights = rights;
          } in
          Post-if no_panic (Grows s) (eqb name (codes ".") || eqb name (codes "..")) _ _ (λ _. here)
            λ _.
              Post-if no_panic (Grows s) info.is_dir _ _
                (λ _.
                  Post-map no_panic (Grows s1) (Grows s) (visit_directory rt dir d s1)
                    (λ t v. Evolves-trans w v)
                    (answer_directory-Grows dir d (can_explore rt dir s1.walk.evaluator) s1
                      (directory_node-kinds name path unc depth info) k1))
                (λ _.
                  let n = file_node name path unc ext depth info in
                  Post-map no_panic (Grows s1) (Grows s) (visit_file rt file n rights s1)
                    (λ t v. Evolves-trans w v)
                    (answer_file-Grows file n rights (can_process rt file s1.walk.evaluator) s1
                      (file_node-kinds name path unc ext depth info) k1))

      module _ (timeout : ℕ → Bool) where
        pub visit_entries-Grows :
            (depth : ℕ) (share current : Text) (entries : Listing) (s : Level F)
            → IsClean s.walk.context
            → Post no_panic (Grows s) (visit_entries rt host timeout depth share current entries s)
        unfolding visit_entries
        visit_entries-Grows depth share current [] s k = here
        visit_entries-Grows depth share current ((name, info) ∷ rest) s k =
            let s1 = record s { walk = after_read s.walk } in
            Post-if no_panic (Grows s) (timeout s.walk.reads) _ _ (λ _. here)
              λ _.
                Post->>= no_panic (Grows s1) (Grows s)
                  (visit_entry rt host depth share current name info s1) _
                  (visit_entry-Grows depth share current name info s1 k)
                  λ t v.
                    Post-map no_panic (Grows t) (Grows s)
                      (visit_entries rt host timeout _ _ _ rest t) (λ u x. Evolves-trans v x)
                      (visit_entries-Grows depth share current rest t (Evolves-IsClean v k))

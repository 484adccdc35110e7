-- ===== src/Collector/Contents/Traverse/Found.antt =====
-- What the listings show (Go/internal/collector/contents.go), and the loop over the directories where the
-- timeout does not come.
use share_hound.Collector.Contents.Traverse.Ends.{
  no_panic, Post, Post->>=, Post-if, Post-map, both, lenient,
}
use share_hound.Collector.Contents.Traverse.Evolution.{IsClean}
use share_hound.Collector.Contents.Traverse.Listed.{is_dots, file_id, directory_id, path_entry}
use share_hound.Collector.Contents.Traverse.Sound.{popped, push_path-IsClean, visit_dirs-Grows}
use share_hound.Collector.Contents.Traverse.Visits.{IsPlaced, Evolves-IsPlaced}
use share_hound.Collector.Contents.Traverse.{after_read, leave_directory, visit_dirs}
use share_hound.Collector.Contents.{FileInfo, Listing, Session, WalkError, Walk, set_context}
use share_hound.Collector.Counts.{TraversalCounts, add}
use share_hound.Graph.Context.Stack.{pop_path_last}
use share_hound.Graph.Context.{Context, PathEntry, push_path, pop_path, path_names}
use share_hound.Graph.Element.{Node}
use share_hound.Graph.Emission.Evolves.{Evolves, Evolves-path, Evolves-Present}
use share_hound.Graph.Emission.Writes.{Present}
use share_hound.Prelude.{
  ℕ, ◌+◌, ◌≡◌, sym, ap, ◌∙◌, subst, Bool, true, false, ◌&&◌, List, [], ◌∷◌, ◌++◌, some, ltb, leb,
}
use share_hound.Prelude.Outcome.{Outcome}
use share_hound.Prelude.Text.{Text, codes, join}
use share_hound.Rules.Evaluator.{Rule}

-- The text of a path.
abbrev pub path_text : List PathEntry → Text
path_text path = join (codes "\\") (path_names path)

-- The ids of the files and directories that the listings show at a depth below a path, or deeper.
pub data Found (host : Session) (share : Text) (max_depth : ℕ)
    : ℕ → List PathEntry → Text → Type 0 where
  file :
      {depth : ℕ} {path : List PathEntry} {id : Text} (name : Text) (info : FileInfo)
      (front rest : Listing)
      → (ltb 0 max_depth && leb max_depth depth) ≡ false
      → host.list_contents (path_text path) ≡ some (front ++ ((name, info) ∷ rest))
      → is_dots name ≡ false
      → info.is_dir ≡ false
      → file_id host depth share (path_text path) name ≡ id
      → Found host share max_depth depth path id
  directory :
      {depth : ℕ} {path : List PathEntry} {id : Text} (name : Text) (info : FileInfo)
      (front rest : Listing)
      → (ltb 0 max_depth && leb max_depth depth) ≡ false
      → host.list_contents (path_text path) ≡ some (front ++ ((name, info) ∷ rest))
      → is_dots name ≡ false
      → info.is_dir ≡ true
      → directory_id host depth share (path_text path) name ≡ id
      → Found host share max_depth depth path id
  below :
      {depth : ℕ} {path : List PathEntry} {id : Text} (name : Text) (info : FileInfo)
      (front rest : Listing)
      → (ltb 0 max_depth && leb max_depth depth) ≡ false
      → host.list_contents (path_text path) ≡ some (front ++ ((name, info) ∷ rest))
      → is_dots name ≡ false
      → info.is_dir ≡ true
      → Found host share max_depth
          (depth + 1)
          (path ++ (path_entry host depth share (path_text path) name info ∷ []))
          id
      → Found host share max_depth depth path id

push_path-IsPlaced :
    (h s : Node) (d : PathEntry) {c : Context}
    → IsPlaced h s c
    → IsPlaced h s (push_path d.node d.rights c)
push_path-IsPlaced h s d k = record {
  clean = push_path-IsClean d k.clean;
  host = k.host;
  share = k.share;
}

-- Popping leaves the graph alone.
pop_path-Present :
    (id : Text) (path : List PathEntry) (d : PathEntry) (c : Context)
    → c.path ≡ path ++ (d ∷ [])
    → Present id c
    → Present id (pop_path c).0
pop_path-Present id path d c h p = subst (Present id) (sym (pop_path_last path d c h)) p

abbrev pub Below : Type 0 → Type 0
Below F = Walk F → Outcome WalkError (Walk F × TraversalCounts)

module _ {F : Type 0} where
  abbrev pub Went : Walk F → Walk F × TraversalCounts → Type 0
  Went v r = Evolves v.context r.0.context × (r.0.evaluator.rules ≡ v.evaluator.rules)

  abbrev pub Has : Text → Walk F × TraversalCounts → Type 0
  Has id r = Present id r.0.context

  -- Where the traversal below a directory finds an id, the loop over the directories does.
  pub visit_dirs-at :
      (h s : Node) (rules : List (Rule F)) (timeout : ℕ → Bool) (id : Text)
      (quiet : (i : ℕ) → timeout i ≡ false) (under : Below F)
      (went : (v : Walk F) → IsClean v.context → Post no_panic (Went v) (under v))
      (path : List PathEntry) (d : PathEntry)
      (hits : (v : Walk F)
        → v.evaluator.rules ≡ rules
        → IsPlaced h s v.context
        → v.context.path ≡ path ++ (d ∷ [])
        → Post no_panic (Has id) (under v))
      (front rest : List PathEntry) (w : Walk F) (counts : TraversalCounts)
      → w.evaluator.rules ≡ rules
      → IsPlaced h s w.context
      → w.context.path ≡ path
      → Post no_panic (Has id) (visit_dirs timeout under (front ++ (d ∷ rest)) w counts)
  unfolding visit_dirs
  visit_dirs-at h s rules timeout id quiet under went path d hits [] rest w counts ruled k place =
      let v = set_context (push_path d.node d.rights w.context) (after_read w) in
      let l = push_path-IsPlaced h s d k in
      Post-if no_panic (Has id) (timeout w.reads) _ _ (λ set. cc (quiet w.reads))
        λ _.
          Post->>= no_panic (λ r. Has id r × Went v r) (Has id) (under v) _
            (both (Has id) (Went v) (under v)
              (hits v ruled l (ap (λ (x : List PathEntry). x ++ (d ∷ [])) place))
              (lenient (Went v) (under v) (went v l.clean)))
            λ r (p, x).
              let u = leave_directory r.1 r.0 in
              let y = popped d w.context r.0.context k.clean x.0 in
              let there =
                pop_path-Present id w.context.path d r.0.context (Evolves-path x.0 l.clean.sound)
                  p in
              let l' = Evolves-IsPlaced h s y k in
              Post-map no_panic (λ q. Evolves u.context q.0.context) (Has id)
                (visit_dirs timeout under rest u (add counts r.1))
                (λ q z. Evolves-Present id z l'.clean.sound there)
                (visit_dirs-Grows timeout under rest u (add counts r.1)
                  (λ x' c. Post-map no_panic (Went x') _ (under x') (λ q g. g.0) (went x' c))
                  l'.clean)
  visit_dirs-at h s rules timeout id quiet under went path d hits (e ∷ front) rest w counts ruled k
        place =
      let v = set_context (push_path e.node e.rights w.context) (after_read w) in
      let l = push_path-IsPlaced h s e k in
      Post-if no_panic (Has id) (timeout w.reads) _ _ (λ set. cc (quiet w.reads))
        λ _. Post->>= no_panic (Went v) (Has id) (under v) _ (went v l.clean) λ r x.
          let y = popped e w.context r.0.context k.clean x.0 in
          visit_dirs-at h s rules timeout id quiet under went path d hits front rest
            (leave_directory r.1 r.0) (add counts r.1) (x.1 ∙ ruled) (Evolves-IsPlaced h s y k)
            (Evolves-path y k.clean.sound ∙ place)

-- ===== src/Collector/Contents/Traverse/Below.antt =====
-- Where the rules allow all and the timeout does not come, one listing
-- (Go/internal/collector/contents.go) and what is below it.
use share_hound.Collector.Contents.Traverse.Ends.{no_panic, Post, Post->>=, Post-map, both, lenient}
use share_hound.Collector.Contents.Traverse.Evolution.{IsClean}
use share_hound.Collector.Contents.Traverse.Found.{
  Found, file, directory, below, path_text, Below, Went, Has, visit_dirs-at,
}
use share_hound.Collector.Contents.Traverse.Listed.{
  is_dots, file_id, directory_id, path_entry, Goes, visit_entry-file, visit_entry-directory,
  visit_entries-Goes, visit_entries-at,
}
use share_hound.Collector.Contents.Traverse.Sound.{visit_dirs-Grows}
use share_hound.Collector.Contents.Traverse.Visits.{Allows, IsPlaced, Evolves-IsPlaced}
use share_hound.Collector.Contents.Traverse.{visit_entry, visit_entries, visit_dirs, visit_listing}
use share_hound.Collector.Contents.{FileInfo, Listing, Session, Walk, Level}
use share_hound.Collector.Counts.{no_counts}
use share_hound.Graph.Context.{PathEntry}
use share_hound.Graph.Element.{Node}
use share_hound.Graph.Emission.Evolves.{Evolves, Evolves-path, Evolves-Present}
use share_hound.Graph.Emission.Writes.{Present}
use mathlib.Core.List.{append_assoc}
use share_hound.Prelude.{
  ℕ, ◌+◌, ◌≡◌, sym, ap, ◌∙◌, subst, Bool, true, false, List, [], ◌∷◌, ◌++◌, some,
}
use share_hound.Prelude.Text.{Text}
use share_hound.Rules.Evaluator.{Rule}
use share_hound.Rules.Value.{Runtime}

module _ {F : Type 0} (rt : Runtime F) (rules : List (Rule F)) (h s : Node)
    (allows : Allows rt rules) (host : Session) (timeout : ℕ → Bool)
    (quiet : (i : ℕ) → timeout i ≡ false) where
  -- After the loop over a listing: a file of it is in the graph.
  pub listed_file :
      (depth : ℕ) (share current name : Text) (info : FileInfo) (front rest : Listing) (t : Level F)
      → is_dots name ≡ false
      → info.is_dir ≡ false
      → t.walk.evaluator.rules ≡ rules
      → IsPlaced h s t.walk.context
      → Post no_panic
          (λ u. Present (file_id host depth share current name) u.walk.context)
          (visit_entries rt host timeout depth share current (front ++ ((name, info) ∷ rest)) t)
  listed_file depth share current name info front rest t real plain ruled k =
      let id = file_id host depth share current name in
      visit_entries-at rt rules h s allows host timeout quiet
        (λ (u : Level F). Present id u.walk.context)
        (λ t u l g p. Evolves-Present id g.0 l.clean.sound p) depth share current name info
        (λ t known placed.
          visit_entry-file rt rules h s allows host depth share current name info t real plain known
            placed)
        front rest t ruled k

  -- A directory of it is in the graph too, and on the list for the next level.
  abbrev pub Kept : Text → PathEntry → Level F → Type 0
  Kept id d u =
      Present id u.walk.context
      × ((before : List PathEntry) × (after : List PathEntry) × (u.dirs ≡ before ++ (d ∷ after)))

  pub Kept-Goes :
      (id : Text) (d : PathEntry) (t u : Level F)
      → IsPlaced h s t.walk.context
      → Goes rt rules h s allows host t u
      → Kept id d t
      → Kept id d u
  Kept-Goes id d t u l g (p, (before, after, e)) =
      let (more, q) = g.1.later in
      (
        Evolves-Present id g.0 l.clean.sound p,
        (
          before,
          after ++ more,
          q ∙ ap (λ (x : List PathEntry). x ++ more) e ∙ append_assoc before (d ∷ after) more,
        ),
      )

  pub listed_directory :
      (depth : ℕ) (share current name : Text) (info : FileInfo) (front rest : Listing) (t : Level F)
      → is_dots name ≡ false
      → info.is_dir ≡ true
      → t.walk.evaluator.rules ≡ rules
      → IsPlaced h s t.walk.context
      → Post no_panic
          (Kept
            (directory_id host depth share current name)
            (path_entry host depth share current name info))
          (visit_entries rt host timeout depth share current (front ++ ((name, info) ∷ rest)) t)
  listed_directory depth share current name info front rest t real plain ruled k =
      let id = directory_id host depth share current name in
      let d = path_entry host depth share current name info in
      visit_entries-at rt rules h s allows host timeout quiet (Kept id d) (Kept-Goes id d) depth
        share current name info
        (λ t known placed.
          let m = visit_entry rt host depth share current name info t in
          Post-map no_panic (λ u. Present id u.walk.context × (u.dirs ≡ t.dirs ++ (d ∷ [])))
            (Kept id d) m (λ u (p, e). (p, (t.dirs, [], e)))
            (visit_entry-directory rt rules h s allows host depth share current name info t real
              plain known placed))
        front rest t ruled k

  -- The listing of a directory and what is below it, with `under` for the recursive call.
  module _ (under : Below F)
      (went : (v : Walk F) → IsClean v.context → Post no_panic (Went v) (under v)) where
    -- What was found in the listing is still there after the directories below.
    still_there :
        (id : Text) (u : Level F)
        → Present id u.walk.context
        → IsPlaced h s u.walk.context
        → Post no_panic (Has id) (visit_dirs timeout under u.dirs u.walk u.counts)
    still_there id u p l =
        Post-map no_panic (λ q. Evolves u.walk.context q.0.context) (Has id)
          (visit_dirs timeout under u.dirs u.walk u.counts)
          (λ q z. Evolves-Present id z l.clean.sound p)
          (visit_dirs-Grows timeout under u.dirs u.walk u.counts
            (λ x c. Post-map no_panic (Went x) _ (under x) (λ q g. g.0) (went x c)) l.clean)

    -- From what the loop over the listing gives to what the directories below give.
    after_listing :
        (depth : ℕ) (share current : Text) (entries : Listing) (id : Text) (w : Walk F)
        (Q : Level F → Type 0)
        → Post no_panic Q (
            visit_entries rt host timeout depth share current entries
              (record { walk = w; counts = no_counts; dirs = [] }))
        → ((u : Level F)
            → Q u
            → IsPlaced h s u.walk.context
            → u.walk.evaluator.rules ≡ rules
            → u.walk.context.path ≡ w.context.path
            → Post no_panic (Has id) (visit_dirs timeout under u.dirs u.walk u.counts))
        → w.evaluator.rules ≡ rules
        → IsPlaced h s w.context
        → Post no_panic
            (Has id)
            (visit_listing rt host timeout under depth share current (some entries) w)
    unfolding visit_listing
    after_listing depth share current entries id w Q gives next ruled k =
        let first : Level F = record { walk = w; counts = no_counts; dirs = [] } in
        let m = visit_entries rt host timeout depth share current entries first in
        let Next = Goes rt rules h s allows host first in
        Post->>= no_panic (λ u. Q u × Next u) (Has id) m _
          (both Q Next m gives (
            lenient Next m (
              visit_entries-Goes rt rules h s allows host timeout depth share current entries first
                k)))
          λ u (q, g).
            next u q (Evolves-IsPlaced h s g.0 k) (g.1.rules ∙ ruled)
              (Evolves-path g.0 k.clean.sound)

    pub visit_listing-Has :
        (max_depth depth : ℕ) (share : Text) (path : List PathEntry) (id : Text) (w : Walk F)
        → ((v : Walk F)
            → Found host share max_depth (depth + 1) v.context.path id
            → v.evaluator.rules ≡ rules
            → IsPlaced h s v.context
            → Post no_panic (Has id) (under v))
        → Found host share max_depth depth path id
        → w.context.path ≡ path
        → w.evaluator.rules ≡ rules
        → IsPlaced h s w.context
        → Post no_panic (Has id) (
            visit_listing rt host timeout under depth share
              (path_text path)
              (host.list_contents (path_text path))
              w)
    visit_listing-Has max_depth depth share path id w deeper
          (file name info front rest limit shows real plain same) place ruled k =
        let current = path_text path in
        let first : Level F = record { walk = w; counts = no_counts; dirs = [] } in
        rw shows (
          subst
            (λ (i : Text). Post no_panic (Has i) (
              visit_listing rt host timeout under depth share current
                (some (front ++ ((name, info) ∷ rest))) w))
            same
            (after_listing depth share current (front ++ ((name, info) ∷ rest))
              (file_id host depth share current name) w _
              (listed_file depth share current name info front rest first real plain ruled k)
              (λ u p l _ _. still_there (file_id host depth share current name) u p l) ruled k))
    visit_listing-Has max_depth depth share path id w deeper
          (directory name info front rest limit shows real plain same) place ruled k =
        let current = path_text path in
        let first : Level F = record { walk = w; counts = no_counts; dirs = [] } in
        rw shows (
          subst
            (λ (i : Text). Post no_panic (Has i) (
              visit_listing rt host timeout under depth share current
                (some (front ++ ((name, info) ∷ rest))) w))
            same
            (after_listing depth share current (front ++ ((name, info) ∷ rest))
              (directory_id host depth share current name) w _
              (listed_directory depth share current name info front rest first real plain ruled k)
              (λ u p l _ _. still_there (directory_id host depth share current name) u p.0 l) ruled
              k))
    visit_listing-Has max_depth depth share path id w deeper
          (below name info front rest limit shows real plain found) place ruled k =
        let current = path_text path in
        let first : Level F = record { walk = w; counts = no_counts; dirs = [] } in
        let d = path_entry host depth share current name info in
        rw shows (
          after_listing depth share current (front ++ ((name, info) ∷ rest)) id w _
            (listed_directory depth share current name info front rest first real plain ruled k)
            (λ u (_, (before, after, e)) l known same.
              subst
                (λ (x : List PathEntry).
                  Post no_panic (Has id) (visit_dirs timeout under x u.walk u.counts))
                (sym e)
                (visit_dirs-at h s rules timeout id quiet under went path d
                  (λ v sure placed there.
                    deeper v
                      (subst (λ (x : List PathEntry). Found host share max_depth (depth + 1) x id)
                        (sym there) found)
                      sure placed)
                  before after u.walk u.counts known l (same ∙ place)))
            ruled k)

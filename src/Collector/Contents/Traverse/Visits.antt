-- ===== src/Collector/Contents/Traverse/Visits.antt =====
-- Where the rules allow all, the visit of an entry (Go/internal/collector/contents.go) writes it to the
-- graph, and a directory is remembered for the next level.
use share_hound.Collector.Contents.Traverse.Ends.{
  no_panic, no_error as never_errs, if_ok, Post, Post->>=, both, weaken,
}
use share_hound.Collector.Contents.Traverse.Evolution.{
  IsClean, Evolves-IsClean, inherit-Evolves, some-HasKind,
}
use share_hound.Collector.Contents.Traverse.Tally.{directory_written, write_directory_written}
use share_hound.Collector.Contents.Traverse.{
  write_directory, write_file, evaluated, enter_directory, enter_file, leave_entry, leave_file,
  answer_directory, answer_file,
}
use share_hound.Collector.Contents.{Walk, Level, emit, inherit, inherited_rights, is_empty}
use share_hound.Collector.Rights.{ShareRights}
use share_hound.Graph.Context.{Context, PathEntry, set_element, set_element_rights}
use share_hound.Graph.Element.{Node}
use share_hound.Graph.Emission.Evolves.{
  Evolves, here, element, Evolves-host, Evolves-share, Evolves-trans,
}
use share_hound.Graph.Emission.Steps.{if-elim}
use share_hound.Graph.Emission.Total.{add_path_to_graph-ok}
use share_hound.Graph.Emission.Writes.{Present}
use share_hound.Graph.Emission.Written.{add_path_to_graph-Present}
use share_hound.Prelude.{
  ◌≡◌, ◌≢◌, refl, sym, ap, ◌∙◌, subst, Bool, true, false, not, ◌&&◌, List, [], ◌∷◌, ◌++◌, some,
}
use share_hound.Rules.Condition.{EvaluationContext}
use share_hound.Rules.Evaluator.{
  Evaluator, Rule, RuleScope, exploration, processing, RuleObject, share_object, file_object,
  directory_object, evaluate, can_explore, can_process,
}
use share_hound.Rules.Value.{Runtime}

-- The rules say yes to everything.
abbrev pub Allows : {F : Type 0} → Runtime F → List (Rule F) → Type 0
Allows rt rules =
    (ctx : EvaluationContext) (scope : RuleScope)
    → evaluate rt (record { rules = rules; context = ctx }) scope ≡ true

inherit-element : (own : ShareRights) (c : Context) → (inherit own c).element ≡ c.element
unfolding inherit
inherit-element own c =
    let rights = inherited_rights c in
    if-elim (λ d. d.element ≡ c.element) (is_empty own && not (is_empty rights))
      (set_element_rights rights c) c (λ _. refl) (λ _. refl)

module _ (h s : Node) where
  -- A context that can add paths, below a host and a share.
  pub record IsPlaced (c : Context) : Type 0 where
    pub clean : IsClean c
    pub host : c.host ≡ some h
    pub share : c.share ≡ some s

  pub Evolves-IsPlaced : {c d : Context} → Evolves c d → IsPlaced c → IsPlaced d
  Evolves-IsPlaced e k = record {
    clean = Evolves-IsClean e k.clean;
    host = Evolves-host e k.clean.sound ∙ k.host;
    share = Evolves-share e k.clean.sound ∙ k.share;
  }

  module _ {F : Type 0} where
    emit-Present :
        (n : Node) (w : Walk F)
        → IsPlaced w.context
        → w.context.element ≡ some n
        → Post no_panic (λ v. Present n.id v.context) (emit w)
    unfolding emit
    emit-Present n w k there =
        let c = w.context in
        let (c', e) =
          add_path_to_graph-ok c k.clean.sound.ready k.clean.share_kind k.clean.element_kind in
        rw e (add_path_to_graph-Present c c' h s n k.clean.sound.ready k.host k.share there e)

    abbrev pub Shows : Node → Level F → Type 0
    Shows n t = Present n.id t.walk.context

    leave_file-Shows :
        (n : Node) (r : Evaluator F × Bool) (t : Level F)
        → r.1 ≡ true
        → IsPlaced t.walk.context
        → t.walk.context.element ≡ some n
        → Post no_panic (Shows n) (leave_file r t)
    unfolding leave_file write_file
    leave_file-Shows n (e, false) t sure k there = cc
    leave_file-Shows n (e, true) t sure k there =
        Post->>= no_panic (Shows n) (Shows n) _ _
          (Post->>= no_panic (λ w. Present n.id w.context) (Shows n) (emit (evaluated e t).walk) _
            (emit-Present n (evaluated e t).walk k there) (λ w p. p))
          (λ u p. p)

    leave_entry-Shows :
        (d : PathEntry) (r : Evaluator F × Bool) (t : Level F)
        → r.1 ≡ true
        → IsPlaced t.walk.context
        → t.walk.context.element ≡ some d.node
        → Post no_panic (Shows d.node) (leave_entry d r t)
    unfolding leave_entry write_directory
    leave_entry-Shows d (e, false) t sure k there = cc
    leave_entry-Shows d (e, true) t sure k there =
        Post->>= no_panic (Shows d.node) (Shows d.node) _ _
          (Post->>= no_panic (λ w. Present d.node.id w.context) (Shows d.node)
            (emit (evaluated e t).walk) _ (emit-Present d.node (evaluated e t).walk k there)
            (λ w p. p))
          (λ u p. p)

    leave_entry-dirs :
        (d : PathEntry) (r : Evaluator F × Bool) (t : Level F)
        → Post never_errs (λ u. u.dirs ≡ t.dirs ++ (d ∷ [])) (leave_entry d r t)
    unfolding leave_entry write_directory
    leave_entry-dirs d (e, false) t = refl
    leave_entry-dirs d (e, true) t =
        Post->>= never_errs (λ u. (c : Context) × (u ≡ directory_written c (evaluated e t)))
          (λ u. u.dirs ≡ t.dirs ++ (d ∷ [])) (write_directory true (evaluated e t)) _
          (write_directory_written (evaluated e t))
          (λ u (c, q). ap (λ (x : Level F). x.dirs ++ (d ∷ [])) q)

    module _ (rt : Runtime F) (rules : List (Rule F)) (allows : Allows rt rules) where
      allowed :
          (e : Evaluator F) (ctx : EvaluationContext) (scope : RuleScope)
          → e.rules ≡ rules
          → evaluate rt (record { rules = e.rules; context = ctx }) scope ≡ true
      allowed e ctx scope k =
          subst
            (λ (r : List (Rule F)). evaluate rt (record { rules = r; context = ctx }) scope ≡ true)
            (sym k) (allows ctx scope)

      pub can_process-true :
          (o : RuleObject) (e : Evaluator F) → e.rules ≡ rules → (can_process rt o e).1 ≡ true
      unfolding can_process
      can_process-true (share_object o) e k = allowed e _ processing k
      can_process-true (file_object o) e k = allowed e _ processing k
      can_process-true (directory_object o) e k = allowed e _ processing k

      pub can_explore-true :
          (o : RuleObject) (e : Evaluator F) → e.rules ≡ rules → (can_explore rt o e).1 ≡ true
      unfolding can_explore
      can_explore-true (share_object o) e k = allowed e _ exploration k
      can_explore-true (file_object o) e k = allowed e _ exploration k
      can_explore-true (directory_object o) e k = allowed e _ exploration k

      pub answer_file-Shows :
          (o : RuleObject) (n : Node) (rights : ShareRights) (r : Evaluator F × Bool) (t : Level F)
          → n.kinds ≢ []
          → r.1 ≡ true
          → r.0.rules ≡ rules
          → IsPlaced t.walk.context
          → Post no_panic (Shows n) (answer_file rt o n rights r t)
      unfolding answer_file
      answer_file-Shows o n rights (e, false) t kind sure ruled k = cc
      answer_file-Shows o n rights (e, true) t kind sure ruled k =
          let c = set_element n t.walk.context in
          let entered = element (some n) t.walk.context.element_rights (some-HasKind n kind) here in
          let inherits =
            Evolves-trans entered (inherit-Evolves rights c (Evolves-IsClean entered k.clean)) in
          leave_file-Shows n (can_process rt o e) (enter_file n rights (evaluated e t))
            (can_process-true o e ruled) (Evolves-IsPlaced inherits k) (inherit-element rights c)

      pub answer_directory-Shows :
          (o : RuleObject) (d : PathEntry) (r : Evaluator F × Bool) (t : Level F)
          → d.node.kinds ≢ []
          → r.1 ≡ true
          → r.0.rules ≡ rules
          → IsPlaced t.walk.context
          → Post no_panic
              (λ u. Shows d.node u × (u.dirs ≡ t.dirs ++ (d ∷ [])))
              (answer_directory rt o d r t)
      unfolding answer_directory
      answer_directory-Shows o d (e, false) t kind sure ruled k = cc
      answer_directory-Shows o d (e, true) t kind sure ruled k =
          let entered =
            element (some d.node) t.walk.context.element_rights (some-HasKind d.node kind) here in
          let v = enter_directory d.node (evaluated e t) in
          let r = can_process rt o e in
          both (Shows d.node) (λ u. u.dirs ≡ t.dirs ++ (d ∷ [])) (leave_entry d r v)
            (leave_entry-Shows d r v (can_process-true o e ruled) (Evolves-IsPlaced entered k) refl)
            (weaken if_ok (λ u. u.dirs ≡ t.dirs ++ (d ∷ [])) (leave_entry d r v) tt
              (leave_entry-dirs d r v))

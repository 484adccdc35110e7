-- ===== src/Rules/Evaluator/Decision.antt =====
-- Which rule decides (Go/internal/rules/evaluator.go).
use mathlib.Core.List.{append-nil}
use share_hound.Prelude.{
  ◌≡◌, refl, sym, ap, ◌∙◌, Bool, true, false, not, ◌&&◌, ◌||◌, List, [], ◌∷◌, ◌++◌, All, arith,
}
use share_hound.Rules.Condition.{EvaluationContext}
use share_hound.Rules.Evaluator.{
  Rule, RuleScope, all, scope_eqb, is_allow, holds, default_allow, evaluate_rules, evaluate,
}
use share_hound.Rules.Value.{Runtime}

module _ {F : Type 0} (rt : Runtime F) (scope : RuleScope) (ctx : EvaluationContext) where
  -- The rule is no default, is for this scope or for all, and its condition holds.
  abbrev pub applies : Rule F → Bool
  applies r =
      not r.is_default
      && ((scope_eqb r.scope all || scope_eqb r.scope scope) && holds rt ctx r.condition)

  abbrev pub NoneApplies : List (Rule F) → Type 0
  NoneApplies = All (λ r. applies r ≡ false)

  evaluate_rules-skip :
      (d : Bool) (before after : List (Rule F))
      → NoneApplies before
      → evaluate_rules rt d scope ctx (before ++ after) ≡ evaluate_rules rt d scope ctx after
  unfolding evaluate_rules
  evaluate_rules-skip d [] after h = refl
  evaluate_rules-skip d (r ∷ before) after (h, hs) =
      ground (arith, evaluate_rules-skip d before after hs)

  evaluate_rules-first :
      (d : Bool) (r : Rule F) (after : List (Rule F))
      → applies r ≡ true
      → evaluate_rules rt d scope ctx (r ∷ after) ≡ is_allow r.action
  unfolding evaluate_rules
  evaluate_rules-first d r after h = ground arith

  evaluate_rules-none :
      (d : Bool) (rules : List (Rule F))
      → NoneApplies rules
      → evaluate_rules rt d scope ctx rules ≡ d
  unfolding evaluate_rules
  evaluate_rules-none d [] h = refl
  evaluate_rules-none d (r ∷ rules) (h, hs) = ground (arith, evaluate_rules-none d rules hs)

-- The first rule that applies decides, whatever follows it and whatever the default is: the answer of
-- `evaluate` is whether its action is ALLOW. A rule without a condition thus decides before the
-- conditional rules behind it: in the examples of Go/README.md that put DENY EXPLORATION before ALLOW
-- EXPLORATION IF, or DENY PROCESSING before ALLOW PROCESSING IF, the second rule decides nothing.
pub evaluate-first :
    {F : Type 0} (rt : Runtime F) (scope : RuleScope) (ctx : EvaluationContext)
    (before : List (Rule F)) (r : Rule F) (after : List (Rule F))
    → NoneApplies rt scope ctx before
    → applies rt scope ctx r ≡ true
    → evaluate rt (record { rules = before ++ (r ∷ after); context = ctx }) scope
      ≡ is_allow r.action
unfolding evaluate
evaluate-first rt scope ctx before r after h a =
    let d = default_allow (before ++ (r ∷ after)) in
    evaluate_rules-skip rt scope ctx d before (r ∷ after) h
    ∙ evaluate_rules-first rt scope ctx d r after a

no_default :
    {F : Type 0} (before after : List (Rule F))
    → All (λ r. r.is_default ≡ false) before
    → default_allow (before ++ after) ≡ default_allow after
unfolding default_allow
no_default [] after h = refl
no_default (r ∷ before) after (h, hs) = ground (arith, no_default before after hs)

-- If no rule applies, the first DEFAULT rule decides: the answer is whether its behavior is ALLOW.
pub evaluate-default :
    {F : Type 0} (rt : Runtime F) (scope : RuleScope) (ctx : EvaluationContext)
    (before : List (Rule F)) (d : Rule F) (after : List (Rule F))
    → All (λ r. r.is_default ≡ false) before
    → d.is_default ≡ true
    → NoneApplies rt scope ctx (before ++ (d ∷ after))
    → evaluate rt (record { rules = before ++ (d ∷ after); context = ctx }) scope
      ≡ is_allow d.default_behavior
unfolding evaluate default_allow
evaluate-default rt scope ctx before d after h def n =
    let rules = before ++ (d ∷ after) in
    evaluate_rules-none rt scope ctx (default_allow rules) rules n
    ∙ no_default before (d ∷ after) h
    ∙ rw def refl

-- If no rule applies and there is no DEFAULT rule, the answer is yes.
pub evaluate_without_default :
    {F : Type 0} (rt : Runtime F) (scope : RuleScope) (ctx : EvaluationContext)
    (rules : List (Rule F))
    → All (λ r. r.is_default ≡ false) rules
    → NoneApplies rt scope ctx rules
    → evaluate rt (record { rules = rules; context = ctx }) scope ≡ true
unfolding evaluate default_allow
evaluate_without_default rt scope ctx rules h n =
    evaluate_rules-none rt scope ctx (default_allow rules) rules n
    ∙ ap default_allow (sym (append-nil rules))
    ∙ no_default rules [] h

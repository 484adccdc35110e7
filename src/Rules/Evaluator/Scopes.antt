-- ===== src/Rules/Evaluator/Scopes.antt =====
-- The scopes of rules and the places of the defaults (Go/internal/rules/evaluator.go).
use share_hound.Prelude.{
  ◌≡◌, refl, ap, ◌∙◌, Bool, true, ◌||◌, List, [], ◌∷◌, ◌++◌, arith, if◌then◌else◌,
}
use share_hound.Rules.Condition.{EvaluationContext}
use share_hound.Rules.Evaluator.{
  Rule, RuleScope, all, scope_eqb, default_allow, evaluate_rules, evaluate,
}
use share_hound.Rules.Value.{Runtime}

module _ {F : Type 0} where
  -- The rules that can have a say in a scope: the defaults, and those for this scope or for all.
  abbrev pub relevant : RuleScope → List (Rule F) → List (Rule F)
  relevant scope [] = []
  relevant scope (r ∷ rules) =
      if r.is_default || (scope_eqb r.scope all || scope_eqb r.scope scope)
      then r ∷ relevant scope rules
      else relevant scope rules

  -- The DEFAULT rules, and the other rules.
  abbrev pub defaults : List (Rule F) → List (Rule F)
  defaults [] = []
  defaults (r ∷ rules) = if r.is_default then r ∷ defaults rules else defaults rules

  abbrev pub others : List (Rule F) → List (Rule F)
  others [] = []
  others (r ∷ rules) = if r.is_default then others rules else r ∷ others rules

  default_allow-relevant :
      (scope : RuleScope) (rules : List (Rule F))
      → default_allow (relevant scope rules) ≡ default_allow rules
  unfolding default_allow
  default_allow-relevant scope [] = refl
  default_allow-relevant scope (r ∷ rules) = ground (arith, default_allow-relevant scope rules)

  module _ (rt : Runtime F) (scope : RuleScope) (ctx : EvaluationContext) where
    evaluate_rules-relevant :
        (d : Bool) (rules : List (Rule F))
        → evaluate_rules rt d scope ctx (relevant scope rules) ≡ evaluate_rules rt d scope ctx rules
    unfolding evaluate_rules
    evaluate_rules-relevant d [] = refl
    evaluate_rules-relevant d (r ∷ rules) = ground (arith, evaluate_rules-relevant d rules)

    evaluate_rules-others :
        (d : Bool) (rules : List (Rule F))
        → evaluate_rules rt d scope ctx (others rules) ≡ evaluate_rules rt d scope ctx rules
    unfolding evaluate_rules
    evaluate_rules-others d [] = refl
    evaluate_rules-others d (r ∷ rules) = ground (arith, evaluate_rules-others d rules)

    evaluate_rules-defaults :
        (d : Bool) (rules : List (Rule F)) (more : List (Rule F))
        → evaluate_rules rt d scope ctx (defaults rules ++ more)
          ≡ evaluate_rules rt d scope ctx more
    unfolding evaluate_rules
    evaluate_rules-defaults d [] more = refl
    evaluate_rules-defaults d (r ∷ rules) more =
        ground (arith, evaluate_rules-defaults d rules more)

  default_allow-defaults :
      (rules more : List (Rule F))
      → default_allow more ≡ true
      → default_allow (defaults rules ++ more) ≡ default_allow rules
  unfolding default_allow
  default_allow-defaults [] more h = h
  default_allow-defaults (r ∷ rules) more h = ground (arith, default_allow-defaults rules more h)

  default_allow-others : (rules : List (Rule F)) → default_allow (others rules) ≡ true
  unfolding default_allow
  default_allow-others [] = refl
  default_allow-others (r ∷ rules) = ground (arith, default_allow-others rules)

-- What `evaluate` answers for a scope depends only on the DEFAULT rules and on the rules for this scope
-- or for all: taking the other rules away changes nothing. It does not depend on where the DEFAULT rules
-- stand among the others either: they may all be moved to the front.
pub evaluate-relevant :
    {F : Type 0} (rt : Runtime F) (scope : RuleScope) (ctx : EvaluationContext)
    (rules : List (Rule F))
    → (evaluate rt (record { rules = relevant scope rules; context = ctx }) scope
        ≡ evaluate rt (record { rules = rules; context = ctx }) scope)
      × (evaluate rt (record { rules = defaults rules ++ others rules; context = ctx }) scope
          ≡ evaluate rt (record { rules = rules; context = ctx }) scope)
unfolding evaluate
evaluate-relevant rt scope ctx rules = (
  ap (λ d. evaluate_rules rt d scope ctx (relevant scope rules))
        (default_allow-relevant scope rules)
      ∙ evaluate_rules-relevant rt scope ctx (default_allow rules) rules,
  ap (λ d. evaluate_rules rt d scope ctx (defaults rules ++ others rules))
        (default_allow-defaults rules (others rules) (default_allow-others rules))
      ∙ evaluate_rules-defaults rt scope ctx (default_allow rules) rules (others rules)
      ∙ evaluate_rules-others rt scope ctx (default_allow rules) rules,
)

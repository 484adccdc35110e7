-- ===== src/Rules/Condition/Laws.antt =====
-- How the conditions of a rule combine (Go/internal/rules/rule.go).
use share_hound.Prelude.{◌≡◌, refl, not, arith}
use share_hound.Rules.Condition.{
  Conditions, EvaluationContext, not_condition, and_condition, or_condition, none_left, condition,
  evaluate_condition, evaluate_all, evaluate_any,
}
use share_hound.Rules.Value.{Runtime}

module _ {F : Type 0} where
  -- Each condition negated.
  abbrev pub negated : Conditions F → Conditions F
  negated none_left = none_left
  negated (condition c cs) = condition (not_condition c) (negated cs)

  module _ (rt : Runtime F) (ctx : EvaluationContext) where
    not-all : (cs : Conditions F) → not (evaluate_all rt ctx cs) ≡ evaluate_any rt ctx (negated cs)
    unfolding evaluate_all evaluate_any evaluate_condition
    not-all none_left = refl
    not-all (condition c cs) = ground (arith, not-all cs)

    not-any : (cs : Conditions F) → not (evaluate_any rt ctx cs) ≡ evaluate_all rt ctx (negated cs)
    unfolding evaluate_all evaluate_any evaluate_condition
    not-any none_left = refl
    not-any (condition c cs) = ground (arith, not-any cs)

    -- The laws of De Morgan: NOT of AND is OR of the negated conditions, and NOT of OR is AND of them.
    pub not_condition-de_morgan :
        (cs : Conditions F)
        → (evaluate_condition rt ctx (not_condition (and_condition cs))
            ≡ evaluate_condition rt ctx (or_condition (negated cs)))
          × (evaluate_condition rt ctx (not_condition (or_condition cs))
              ≡ evaluate_condition rt ctx (and_condition (negated cs)))
    unfolding evaluate_condition
    not_condition-de_morgan cs = (not-all cs, not-any cs)

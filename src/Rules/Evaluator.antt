-- ===== src/Rules/Evaluator.antt =====
-- Go/internal/rules/rule.go and evaluator.go: rules, and their evaluation in a context.
use share_hound.Prelude.{
  ℕ, Bool, true, false, not, ◌&&◌, ◌||◌, List, [], ◌∷◌, Option, none, some, if◌then◌else◌,
}
use share_hound.Rules.Condition.{
  Condition, EvaluationContext, RuleObjectShare, RuleObjectFile, RuleObjectDirectory,
  evaluate_condition,
}
use share_hound.Rules.Value.{Runtime}
pub mod Decision
pub mod Scopes

-- `unset` is the empty string that the zero value has.
pub data RuleAction : Type 0 where
  allow deny unset : RuleAction

pub data RuleScope : Type 0 where
  exploration processing all : RuleScope

-- `a == ActionAllow`
abbrev pub is_allow : RuleAction → Bool
is_allow allow = true
is_allow _ = false

-- `a == b`
abbrev pub scope_eqb : RuleScope → RuleScope → Bool
scope_eqb exploration exploration = true
scope_eqb processing processing = true
scope_eqb all all = true
scope_eqb _ _ = false

pub record Rule (F : Type 0) : Type 0 where
  pub is_default : Bool
  pub default_behavior : RuleAction
  pub action : RuleAction
  pub scope : RuleScope
  pub condition : Option (Condition F)

-- An object behind `obj interface{}`.
pub data RuleObject : Type 0 where
  share_object : RuleObjectShare → RuleObject
  file_object : RuleObjectFile → RuleObject
  directory_object : RuleObjectDirectory → RuleObject

pub record Evaluator (F : Type 0) : Type 0 where
  pub rules : List (Rule F)
  pub context : EvaluationContext

module _ {F : Type 0} where
  -- `NewEvaluator`
  abbrev pub new_evaluator : List (Rule F) → Evaluator F
  new_evaluator rules = record {
    rules = rules;
    context = record { share = none; file = none; directory = none; depth = 0 };
  }

  -- `SetShare`
  abbrev pub set_share : RuleObjectShare → Evaluator F → Evaluator F
  set_share o e = record e { context = record (e.context) { share = some o } }

  -- `SetFile`
  abbrev pub set_file : RuleObjectFile → Evaluator F → Evaluator F
  set_file o e = record e { context = record (e.context) { file = some o } }

  -- `SetDirectory`
  abbrev pub set_directory : RuleObjectDirectory → Evaluator F → Evaluator F
  set_directory o e = record e { context = record (e.context) { directory = some o } }

  -- `SetDepth`
  abbrev pub set_depth : ℕ → Evaluator F → Evaluator F
  set_depth depth e = record e { context = record (e.context) { depth = depth } }

  -- The loop of `evaluate` that looks for the default.
  unfoldable pub default_allow : List (Rule F) → Bool
  default_allow [] = true
  default_allow (r ∷ rules) =
      if r.is_default then is_allow r.default_behavior else default_allow rules

  module _ (rt : Runtime F) where
    -- `rule.Condition == nil || rule.Condition.Evaluate(e.context)`
    abbrev pub holds : EvaluationContext → Option (Condition F) → Bool
    holds ctx none = true
    holds ctx (some c) = evaluate_condition rt ctx c

    -- The loop of `evaluate` over the rules, with the default behind it.
    unfoldable pub evaluate_rules : Bool → RuleScope → EvaluationContext → List (Rule F) → Bool
    evaluate_rules default' scope ctx [] = default'
    evaluate_rules default' scope ctx (r ∷ rules) =
        let rest = evaluate_rules default' scope ctx rules in
        if r.is_default
        then rest
        else if not (scope_eqb r.scope all) && not (scope_eqb r.scope scope)
        then rest
        else if holds ctx r.condition
        then is_allow r.action
        else rest

    -- `evaluate`
    unfoldable pub evaluate : Evaluator F → RuleScope → Bool
    unfolding default_allow evaluate_rules
    evaluate e scope = evaluate_rules (default_allow e.rules) scope e.context e.rules

    -- `CanExplore`; a file is no object that it knows.
    unfoldable pub can_explore : RuleObject → Evaluator F → Evaluator F × Bool
    unfolding evaluate
    can_explore (share_object o) e = let e' = set_share o e in (e', evaluate e' exploration)
    can_explore (file_object o) e = (e, evaluate e exploration)
    can_explore (directory_object o) e = let e' = set_directory o e in (e', evaluate e' exploration)

    -- `CanProcess`
    unfoldable pub can_process : RuleObject → Evaluator F → Evaluator F × Bool
    unfolding evaluate
    can_process (share_object o) e = let e' = set_share o e in (e', evaluate e' processing)
    can_process (file_object o) e = let e' = set_file o e in (e', evaluate e' processing)
    can_process (directory_object o) e = let e' = set_directory o e in (e', evaluate e' processing)

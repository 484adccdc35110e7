-- ===== src/Rules/Parser.antt =====
-- Go/internal/rules/parser.go: conditions, rules and lines, on ASCII text. `parse_condition` calls itself
-- on shorter text; the fuel bounds the depth of these calls.
use share_hound.Prelude.{
  ℕ, zero, suc, ◌+◌, ◌-◌, Bool, true, false, not, ◌&&◌, ◌||◌, List, [], ◌∷◌, ◌++◌, Option, none,
  some, ◌==◌, leb, if◌then◌else◌, length,
}
use share_hound.Prelude.Outcome.{Outcome, ok, err, panic, ◌>>=◌}
use share_hound.Prelude.Text.{Text, codes, eqb, elem, has_prefix, to_upper, join}
use share_hound.Rules.Condition.{
  Condition, Conditions, always_true, field_condition, not_condition, and_condition, or_condition,
  none_left, condition,
}
use share_hound.Rules.Evaluator.{
  Rule, RuleAction, allow, deny, unset, RuleScope, exploration, processing, all,
}
use share_hound.Rules.Scan.{
  trim_space, ends_with, index_of, after_colon, split_lines, split_at_keyword, split_list_items,
}
use share_hound.Rules.Value.{Runtime, Value, Values, string, float64, bool, list, empty, item}
use share_hound.Smb.Bytes.{index, slice, slice_from}
use share_hound.Rules.Comparison.{
  ParseError, bad_behavior, comparators, each, enclosed, find_comparator, invalid_default,
  is_number, no_action, no_comparison, out_of_fuel, parse_comparison, parse_comparison_from,
  parse_scalar, parse_value,
}
pub mod Fuel
pub mod Total
pub mod Panic
pub mod Lines
pub mod Defaults

module _ {F : Type 0} where
  abbrev pub to_conditions : List (Condition F) → Conditions F
  to_conditions [] = none_left
  to_conditions (c ∷ cs) = condition c (to_conditions cs)

  module _ (rt : Runtime F) where
    -- `parseCondition`
    unfoldable pub parse_condition : ℕ → Text → Outcome ParseError (Condition F)
    unfolding parse_comparison_from each
    parse_condition zero input = err out_of_fuel
    parse_condition (suc fuel) input' =
        let input = trim_space input' in
        elim (split_at_keyword input (codes " OR ")) [
          | p ∷ q ∷ parts ↦ do
            cs ← each (parse_condition fuel) (p ∷ q ∷ parts)
            ok (or_condition (to_conditions cs))
          | _ ↦ elim (split_at_keyword input (codes " AND ")) [
            | p ∷ q ∷ parts ↦ do
              cs ← each (parse_condition fuel) (p ∷ q ∷ parts)
              ok (and_condition (to_conditions cs))
            | _ ↦ elim (has_prefix (to_upper input) (codes "NOT ")) [
              | true ↦ do
                rest ← slice_from input 4
                inner ← parse_condition fuel rest
                ok (not_condition inner)
              | false ↦ elim (enclosed b'(' b')' input) [
                | true ↦ do inner ← slice input 1 (length input - 1); parse_condition fuel inner
                | false ↦ parse_comparison rt input
              ]
            ]
          ]
        ]

    -- A DEFAULT rule, from the part behind its colon.
    unfoldable pub parse_default : Option Text → Outcome ParseError (Rule F)
    parse_default none = err invalid_default
    parse_default (some part) =
        let behavior = trim_space (to_upper part) in
        let rule : RuleAction → Rule F = λ b. record {
          is_default = true;
          default_behavior = b;
          action = unset;
          scope = all;
          condition = none;
        } in
        if eqb behavior (codes "ALLOW")
        then ok (rule allow)
        else if eqb behavior (codes "DENY")
        then ok (rule deny)
        else err bad_behavior

    -- The condition behind the action and the scope, if there is one.
    unfoldable pub parse_rest : RuleAction → RuleScope → Text → Outcome ParseError (Rule F)
    unfolding parse_condition
    parse_rest action scope remaining =
        let rule : Condition F → Rule F = λ c. record {
          is_default = false;
          default_behavior = unset;
          action = action;
          scope = scope;
          condition = some c;
        } in
        elim (has_prefix (to_upper remaining) (codes "IF ")) [
          | true ↦ do
            rest ← slice_from remaining 3
            c ← parse_condition (suc (length remaining)) (trim_space rest)
            ok (rule c)
          | false ↦ ok (rule always_true)
        ]

    -- The scope behind the action.
    unfoldable pub parse_scope : RuleAction → Text → Outcome ParseError (Rule F)
    unfolding parse_rest
    parse_scope action remaining =
        let upper = to_upper remaining in
        elim (has_prefix upper (codes "EXPLORATION")) [
          | true ↦ do
            rest ← slice_from remaining 11
            parse_rest action exploration (trim_space rest)
          | false ↦ elim (has_prefix upper (codes "PROCESSING")) [
            | true ↦ do
              rest ← slice_from remaining 10
              parse_rest action processing (trim_space rest)
            | false ↦ parse_rest action all remaining
          ]
        ]

    -- `parseLine`
    unfoldable pub parse_line : Text → Outcome ParseError (Rule F)
    unfolding parse_default parse_scope
    parse_line line' =
        let line = trim_space line' in
        let upper = to_upper line in
        elim (has_prefix upper (codes "DEFAULT:") || has_prefix upper (codes "DEFAULT :")) [
          | true ↦ parse_default (after_colon line)
          | false ↦ elim (has_prefix upper (codes "ALLOW")) [
            | true ↦ do rest ← slice_from line 5; parse_scope allow (trim_space rest)
            | false ↦ elim (has_prefix upper (codes "DENY")) [
              | true ↦ do rest ← slice_from line 4; parse_scope deny (trim_space rest)
              | false ↦ err no_action
            ]
          ]
        ]

    -- A blank line or a comment.
    abbrev pub is_skipped : Text → Bool
    is_skipped line = eqb line [] || (has_prefix line (codes "#") || has_prefix line (codes "//"))

    -- The loop of `Parse` over the lines, from a line number.
    unfoldable pub parse_lines : ℕ → List Text → Outcome ⊥ (List (Rule F) × List (ℕ × ParseError))
    unfolding parse_line
    parse_lines i [] = ok ([], [])
    parse_lines i (line' ∷ lines) =
        let line = trim_space line' in
        elim (is_skipped line) [
          | true ↦ parse_lines (i + 1) lines
          | false ↦ elim (parse_line line) [
            | panic ↦ panic
            | ok rule ↦ do (rules, errors) ← parse_lines (i + 1) lines; ok (rule ∷ rules, errors)
            | err e ↦ do (rules, errors) ← parse_lines (i + 1) lines; ok (rules, (i, e) ∷ errors)
          ]
        ]

    -- `Parse`
    abbrev pub parse : Text → Outcome ⊥ (List (Rule F) × List (ℕ × ParseError))
    parse input = parse_lines 1 (split_lines [] input)

    -- `ParseStrings`
    abbrev pub parse_strings : List Text → Outcome ⊥ (List (Rule F) × List (ℕ × ParseError))
    parse_strings inputs = parse (join (10 ∷ []) inputs)

-- `DefaultRules`
abbrev pub default_rules : List Text
default_rules =
    codes "DEFAULT: ALLOW"
    ∷ codes "DENY EXPLORATION IF SHARE.NAME IN ['c$','print$','admin$','ipc$']"
    ∷ codes "ALLOW EXPLORATION"
    ∷ []

-- ===== src/Rules/Parser/Defaults.antt =====
-- What the default rules mean (Go/internal/rules/parser.go and evaluator.go).
use share_hound.Prelude.{
  ℕ, ◌≡◌, refl, Bool, true, false, not, ◌||◌, List, [], ◌∷◌, none, some, arith,
}
use share_hound.Prelude.Outcome.{ok, ◌>>=◌}
use share_hound.Prelude.Text.{Text, codes, eqb, elem, join, has_prefix, to_upper}
use share_hound.Rules.Condition.{
  RuleObjectShare, always_true, field_condition, EvaluationContext, evaluate_condition, compare_by,
  get_field_value,
}
use share_hound.Rules.Evaluator.{
  Rule, RuleObject, share_object, file_object, directory_object, allow, deny, unset, exploration,
  all, can_explore, can_process, evaluate_rules, default_allow, Evaluator,
}
use share_hound.Rules.Parser.{parse_strings, default_rules, parse_lines}
use share_hound.Rules.Comparison.{ParseError}
use share_hound.Rules.Scan.{
  split_lines, trim_space, after_colon, split_at_keyword_from, mark_of, index_of, ends_with,
  split_list_items_from,
}
use share_hound.Smb.Bytes.{index, slice, slice_from}
use share_hound.Rules.Value.{
  Runtime, string, list, empty, item, equal_fold, compare_in, compare_any, compare_equal, to_string,
}

-- The names of administrative shares, in either case.
abbrev pub is_administrative : Text → Bool
is_administrative name =
    equal_fold name (codes "c$")
    || (equal_fold name (codes "print$")
        || (equal_fold name (codes "admin$") || equal_fold name (codes "ipc$")))

abbrev pub parsed_defaults : {F : Type 0} → List (Rule F)
parsed_defaults =
    record {
      is_default = true;
      default_behavior = allow;
      action = unset;
      scope = all;
      condition = none;
    }
    ∷ record {
      is_default = false;
      default_behavior = unset;
      action = deny;
      scope = exploration;
      condition = some (
          field_condition (codes "SHARE.NAME") (codes "IN") (
            list (
              item (string (codes "c$")) (
                item (string (codes "print$"))
                  (item (string (codes "admin$")) (item (string (codes "ipc$")) empty))))));
    }
    ∷ record {
      is_default = false;
      default_behavior = unset;
      action = allow;
      scope = exploration;
      condition = some always_true;
    }
    ∷ []

parse_defaults :
    {F : Type 0} (rt : Runtime F) → parse_strings rt default_rules ≡ ok (parsed_defaults, [])
unfolding parse_lines split_lines join eqb trim_space has_prefix to_upper after_colon slice_from
    split_at_keyword_from mark_of index_of slice index ends_with split_list_items_from
parse_defaults rt = refl

module _ {F : Type 0} (rt : Runtime F) (ctx : EvaluationContext) where
  explore_by_defaults :
      (s : RuleObjectShare)
      → (can_explore rt (share_object s) (record { rules = parsed_defaults; context = ctx })).1
        ≡ not (is_administrative s.name)
  unfolding can_explore default_allow evaluate_rules evaluate_condition eqb elem compare_by
      get_field_value to_upper compare_in compare_any compare_equal to_string
  explore_by_defaults s = ground arith

  process_by_defaults :
      (o : RuleObject)
      → (can_process rt o (record { rules = parsed_defaults; context = ctx })).1 ≡ true
  unfolding can_process default_allow evaluate_rules
  process_by_defaults (share_object s) = refl
  process_by_defaults (file_object f) = refl
  process_by_defaults (directory_object d) = refl

  -- The default rules parse without an error; with them a share is explored unless its name is one of the
  -- four administrative names, in upper or lower case, and every object is written to the graph, whatever
  -- objects the evaluator saw before.
  pub default_rules_decide :
      (s : RuleObjectShare) (o : RuleObject)
      → (do
        (rules, errors) ← parse_strings rt default_rules
        let e : Evaluator F = record { rules = rules; context = ctx }
        let answer : List (ℕ × ParseError) × Bool × Bool =
            (errors, (can_explore rt (share_object s) e).1, (can_process rt o e).1)
        ok answer)
        ≡ ok ([], not (is_administrative s.name), true)
  default_rules_decide s o =
      rw (parse_defaults rt, explore_by_defaults s, process_by_defaults o) refl

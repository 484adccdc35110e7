-- ===== src/Rules/Tests.antt =====
-- A few rules, and the theorems of Go/internal/rules on them. Floats are whole numbers here, and a pattern
-- matches the text that is equal to it.
use share_hound.Smb.Bytes.{index, slice, slice_from}
use share_hound.Rules.Scan.{
  split_lines, split_list_items_from, ends_with, index_of, mark_of, split_at_keyword_from,
  trim_space,
}
use share_hound.Prelude.{
  ℕ, ◌+◌, ◌≡◌, ◌≢◌, ◌↔◌, ◌⊎◌, refl, Bool, true, false, List, [], ◌∷◌, ◌++◌, none, some, ltb, arith,
  if◌then◌else◌,
}
use share_hound.Prelude.Outcome.{ok, err, panic, ◌>>=◌}
use share_hound.Prelude.Text.{Text, codes, eqb, elem, join, has_prefix, to_lower, to_upper}
use share_hound.Rules.Condition.Sizes.{IsExact, file_size-ordered, file_size-large}
use share_hound.Rules.Condition.{
  RuleObjectFile, Condition, Conditions, EvaluationContext, RuleObjectShare, always_true,
  field_condition, none_left, condition, evaluate_condition, compare_by, get_field_value,
}
use share_hound.Rules.Evaluator.Decision.{NoneApplies, evaluate-first, evaluate-default}
use share_hound.Rules.Evaluator.Scopes.{evaluate-relevant}
use share_hound.Rules.Evaluator.{
  Evaluator, Rule, share_object, allow, deny, unset, exploration, processing, all, can_explore,
  can_process, evaluate,
}
use share_hound.Rules.Parser.Defaults.{default_rules_decide}
use share_hound.Rules.Parser.Lines.{parse_lines_account}
use share_hound.Rules.Parser.Panic.{parse_scalar-panic}
use share_hound.Rules.Parser.Total.{parse_line-ne-out_of_fuel}
use share_hound.Rules.Parser.{parse_strings, default_rules, parse_lines, parse_line}
use share_hound.Rules.Comparison.{ParseError, no_action, out_of_fuel, parse_scalar}
use share_hound.Rules.Value.{Runtime, float64, compare_greater, equal_fold}

abbrev whole : Runtime ℕ
whole = record {
  of_int = λ n. n;
  zero_float = 0;
  less = ltb;
  low_bits = λ n. n;
  scan = λ s. 0;
  compile = λ p. some (eqb p);
}

abbrev rule : Bool → Condition ℕ → Rule ℕ
rule allowed c = record {
  is_default = false;
  default_behavior = unset;
  action = if allowed then allow else deny;
  scope = exploration;
  condition = some c;
}

abbrev deep : Condition ℕ
deep = field_condition (codes "depth") (codes ">") (float64 3)

abbrev default_deny : Rule ℕ
default_deny = record {
  is_default = true;
  default_behavior = deny;
  action = unset;
  scope = all;
  condition = none;
}

abbrev at_depth_2 : EvaluationContext
at_depth_2 = record { share = none; file = none; directory = none; depth = 2 }

-- The depth is not above 3, so the first rule says nothing.
deep_says_nothing : NoneApplies whole exploration at_depth_2 (rule false deep ∷ [])
unfolding evaluate_condition compare_by elem eqb compare_greater get_field_value to_upper
deep_says_nothing = (refl, tt)

evaluate-first_example :
    evaluate whole
      (record {
        rules = (rule false deep ∷ []) ++ (rule true always_true ∷ default_deny ∷ []);
        context = at_depth_2;
      })
      exploration
    ≡ true
unfolding evaluate_condition
evaluate-first_example =
    evaluate-first whole exploration at_depth_2 (rule false deep ∷ []) (rule true always_true)
      (default_deny ∷ []) deep_says_nothing refl

evaluate-default_example :
    evaluate whole
      (record { rules = (rule false deep ∷ []) ++ (default_deny ∷ []); context = at_depth_2 })
      exploration
    ≡ false
unfolding evaluate_condition compare_by elem eqb compare_greater get_field_value to_upper
evaluate-default_example =
    evaluate-default whole exploration at_depth_2 (rule false deep ∷ []) default_deny [] (refl, tt)
      refl (refl, (refl, tt))

evaluate-relevant_example :
    (evaluate whole (record { rules = default_deny ∷ []; context = at_depth_2 }) processing
      ≡ evaluate whole
          (record { rules = rule true deep ∷ default_deny ∷ []; context = at_depth_2 })
          processing)
    × (evaluate whole
          (record { rules = default_deny ∷ rule true deep ∷ []; context = at_depth_2 })
          processing
        ≡ evaluate whole
            (record { rules = rule true deep ∷ default_deny ∷ []; context = at_depth_2 })
            processing)
evaluate-relevant_example =
    evaluate-relevant whole processing at_depth_2 (rule true deep ∷ default_deny ∷ [])

abbrev two : Conditions ℕ
two = condition deep (condition always_true none_left)

parse_line-ne-out_of_fuel_example :
    parse_line whole (codes "DENY IF NOT (DEPTH > 3 AND FILE.NAME IN ['a',['b']])")
    ≢ err out_of_fuel
parse_line-ne-out_of_fuel_example =
    parse_line-ne-out_of_fuel whole (codes "DENY IF NOT (DEPTH > 3 AND FILE.NAME IN ['a',['b']])")

parse_scalar-panic_example :
    (parse_scalar whole (codes "'") ≡ panic) ↔ ((codes "'" ≡ (39 ∷ [])) ⊎ (codes "'" ≡ (34 ∷ [])))
parse_scalar-panic_example = parse_scalar-panic whole (codes "'")

-- A rule that ends in an open quote stops the program.
parse_open_quote : parse_line whole (codes "DENY IF FILE.NAME = '") ≡ panic
unfolding parse_line has_prefix to_upper trim_space slice_from split_at_keyword_from mark_of
    index_of eqb slice index ends_with
parse_open_quote = refl

abbrev three_lines : List Text
three_lines = codes "# nothing" ∷ codes "ALLOW" ∷ codes "MAYBE" ∷ []

parse_three_lines :
    parse_lines whole 1 three_lines
    ≡ ok (
      record {
        is_default = false;
        default_behavior = unset;
        action = allow;
        scope = all;
        condition = some always_true;
      }
          ∷ [],
      (3, no_action) ∷ [],
    )
unfolding parse_lines eqb trim_space has_prefix to_upper slice_from
parse_three_lines = refl

parse_lines_account_example : 1 + 1 ≡ 2
unfolding eqb trim_space has_prefix
parse_lines_account_example = parse_lines_account whole 1 three_lines parse_three_lines

abbrev admin_share : RuleObjectShare
admin_share = record { name = codes "ADMIN$"; description = []; hidden = true }

default_rules_decide_example :
    (do
      (rules, errors) ← parse_strings whole default_rules
      let e : Evaluator ℕ = record { rules = rules; context = at_depth_2 }
      let answer : List (ℕ × ParseError) × Bool × Bool = (
        errors,
        (can_explore whole (share_object admin_share) e).1,
        (can_process whole (share_object admin_share) e).1,
      )
      ok answer)
    ≡ ok ([], false, true)
unfolding equal_fold eqb to_lower
default_rules_decide_example =
    default_rules_decide whole at_depth_2 admin_share (share_object admin_share)

-- The first two rules of the example in Go/README.md, `# Only explore specific shares`.
abbrev readme_rules : List Text
readme_rules =
    codes "DENY EXPLORATION"
    ∷ codes "ALLOW EXPLORATION IF SHARE.NAME IN ['data', 'shared', 'public']"
    ∷ []

-- They explore no share, not even one that the second rule names.
readme_rules_explore_nothing :
    (do
      (rules, errors) ← parse_strings whole readme_rules
      let e : Evaluator ℕ = record { rules = rules; context = at_depth_2 }
      let answer : List (ℕ × ParseError) × Bool = (
        errors,
        (can_explore whole (share_object (record admin_share { name = codes "data" })) e).1,
      )
      ok answer)
    ≡ ok ([], false)
unfolding equal_fold eqb to_lower parse_lines split_lines join trim_space has_prefix to_upper
    slice_from split_at_keyword_from mark_of index_of slice index ends_with split_list_items_from
    can_explore evaluate_condition
readme_rules_explore_nothing = refl

whole-IsExact : IsExact whole
whole-IsExact = record { less-of_int = λ a b h k. refl }

abbrev film : RuleObjectFile
film = record {
  name = codes "a.mp4";
  path = codes "x/a.mp4";
  size = 3000000;
  extension = codes "mp4";
}

abbrev at_film : EvaluationContext
at_film = record { share = none; file = some film; directory = none; depth = 2 }

file_size-ordered_example :
    (evaluate_condition whole at_film
        (field_condition (codes "FILE.SIZE") (codes ">") (float64 2000000))
      ≡ true)
    × (evaluate_condition whole at_film
          (field_condition (codes "FILE.SIZE") (codes "<") (float64 2000000))
        ≡ false)
file_size-ordered_example =
    file_size-ordered whole at_film film 2000000 whole-IsExact refl (omega arith) (omega arith)

-- Three million bytes are equal to two million.
file_size-large_example :
    (evaluate_condition whole at_film
        (field_condition (codes "FILE.SIZE") (codes "=") (float64 2000000))
      ≡ true)
    × (evaluate_condition whole at_film
          (field_condition (codes "FILE.SIZE") (codes "!=") (float64 2000000))
        ≡ false)
file_size-large_example =
    file_size-large whole at_film film 2000000 refl (omega arith) (omega arith)

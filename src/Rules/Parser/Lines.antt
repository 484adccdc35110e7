-- ===== src/Rules/Parser/Lines.antt =====
-- How `Parse` accounts for the lines (Go/internal/rules/parser.go).
use share_hound.Prelude.{ℕ, ◌+◌, ◌≡◌, true, false, List, [], ◌∷◌, arith, length}
use share_hound.Prelude.Outcome.{ok}
use share_hound.Prelude.Text.{Text}
use share_hound.Rules.Evaluator.{Rule}
use share_hound.Rules.Parser.{parse_lines, is_skipped}
use share_hound.Rules.Comparison.{ParseError}
use share_hound.Rules.Scan.{trim_space}
use share_hound.Rules.Value.{Runtime}

module _ {F : Type 0} (rt : Runtime F) where
  -- The lines that are neither blank nor comments.
  abbrev pub rule_lines : List Text → ℕ
  rule_lines [] = 0
  rule_lines (l ∷ ls) = elim (is_skipped rt (trim_space l)) [
    | true ↦ rule_lines ls
    | false ↦ 1 + rule_lines ls
  ]

  -- If the lines parse without a panic, each line that is neither blank nor a comment gives one rule or
  -- one error.
  pub parse_lines_account :
      (i : ℕ) (ls : List Text) {rules : List (Rule F)} {errors : List (ℕ × ParseError)}
      → parse_lines rt i ls ≡ ok (rules, errors)
      → length rules + length errors ≡ rule_lines ls
  unfolding parse_lines
  parse_lines_account i [] e = ground arith
  parse_lines_account i (l ∷ ls) {rules} {errors} e = grind (arith, parse_lines_account (i + 1) ls)

-- ===== src/Rules/Parser/Total.antt =====
-- The fuel of the parser (Go/internal/rules/parser.go), from values up to lines.
use share_hound.Prelude.{
  ℕ, zero, suc, ◌+◌, ◌-◌, ◌≤◌, ◌<◌, ◌≡◌, ◌≢◌, ◌||◌, List, [], ◌∷◌, Option, none, some, arith,
  length, All-map, if◌then◌else◌, ◌==◌,
}
use share_hound.Prelude.Outcome.{err}
use share_hound.Prelude.Text.{Text, codes, has_prefix, to_upper}
use share_hound.Rules.Evaluator.{RuleAction, allow, deny, RuleScope, exploration, processing, all}
use share_hound.Rules.Parser.{parse_condition, parse_default, parse_rest, parse_scope, parse_line}
use share_hound.Rules.Comparison.{
  out_of_fuel, each, find_comparator, comparators, enclosed, parse_scalar, parse_value,
  parse_comparison_from,
}
use share_hound.Rules.Parser.Fuel.{
  Fuelled, >>=-Fuelled, each-Fuelled, index-Fuelled, slice-Fuelled, slice_from-Fuelled,
  length-slice, length-slice_from, find_comparator-Fuelled, length-negated, length-enclosed,
  parts-Fuelled, test-Fuelled, option-Fuelled, several-Fuelled, length-split_at_keyword,
}
use share_hound.Rules.Scan.Length.{length-trim_space, weight-split_list_items_from, weight-All}
use share_hound.Rules.Scan.{trim_space, split_at_keyword, split_list_items, after_colon}
use share_hound.Rules.Value.{Runtime}
use share_hound.Smb.Bytes.{index, slice, slice_from}

module _ {F : Type 0} (rt : Runtime F) where
  parse_scalar-Fuelled : (input : Text) → Fuelled (parse_scalar rt input)
  unfolding parse_scalar
  parse_scalar-Fuelled input = grind (arith, slice-Fuelled input 1 (length input - 1))

  parse_value-Fuelled :
      (fuel : ℕ) (input : Text) → length input < fuel → Fuelled (parse_value rt fuel input)
  unfolding parse_value
  parse_value-Fuelled zero input h = elim h [ ]
  parse_value-Fuelled (suc fuel) input' h =
      let input = trim_space input' in
      let shorter = length-trim_space input' in
      test-Fuelled (enclosed b'[' b']' input) _ _
        (λ e.
          let nonempty = length-enclosed b'[' b']' input e in
          >>=-Fuelled (slice input 1 (length input - 1)) _
            (slice-Fuelled input 1 (length input - 1))
            λ inner e'.
              let inner_length = length-slice input 1 (length input - 1) e' in
              let parts = split_list_items inner in
              >>=-Fuelled (each (λ part. parse_value rt fuel (trim_space part)) parts) _
                (each-Fuelled _ parts (
                  All-map (λ p. length p ≤ length inner) _ parts
                    (λ p l.
                      parse_value-Fuelled fuel (trim_space p) (omega (arith, length-trim_space p)))
                    (weight-All (length inner) parts
                      (omega (arith, weight-split_list_items_from none [] inner)))))
                λ vs e'' q. cc)
        (λ e. parse_scalar-Fuelled input)

  parse_comparison-Fuelled :
      (comps : List Text) (input : Text) → Fuelled (parse_comparison_from rt comps input)
  unfolding parse_comparison_from
  parse_comparison-Fuelled [] input = λ q. cc
  parse_comparison-Fuelled (comp ∷ comps) input =
      >>=-Fuelled (find_comparator input comp) _ (find_comparator-Fuelled input comp) λ found _.
        option-Fuelled found _ _ (parse_comparison-Fuelled comps input) λ idx.
          >>=-Fuelled (slice input 0 idx) _ (slice-Fuelled input 0 idx) λ field _.
            >>=-Fuelled (index input idx) _ (index-Fuelled input idx) λ here _.
              let value_start = if here == b' ' then idx + length comp + 1 else idx + length comp in
              >>=-Fuelled (slice_from input value_start) _ (slice_from-Fuelled input value_start)
                λ value_str e.
                  let bound = length-slice_from input value_start e in
                  >>=-Fuelled (parse_value rt (suc (length input)) (trim_space value_str)) _
                    (parse_value-Fuelled (suc (length input)) (trim_space value_str)
                      (omega (arith, bound, length-trim_space value_str)))
                    λ v _ q. cc

  parse_condition-Fuelled :
      (fuel : ℕ) (input : Text) → length input < fuel → Fuelled (parse_condition rt fuel input)
  unfolding parse_condition
  parse_condition-Fuelled zero input h = elim h [ ]
  parse_condition-Fuelled (suc fuel) input' h =
      let input = trim_space input' in
      let shorter : length input ≤ fuel = omega (arith, length-trim_space input') in
      let again =
        λ (keyword p q : Text) (ps : List Text) (e : split_at_keyword input keyword ≡ (p ∷ q ∷ ps)).
          All-map (λ r. length r < fuel) (λ r. Fuelled (parse_condition rt fuel r)) (p ∷ q ∷ ps)
            (λ r l. parse_condition-Fuelled fuel r l)
            (length-split_at_keyword fuel input keyword p q ps e shorter) in
      parts-Fuelled (split_at_keyword input (codes " OR ")) _ _
        (λ p q ps e. several-Fuelled _ _ (p ∷ q ∷ ps) (again (codes " OR ") p q ps e))
        (parts-Fuelled (split_at_keyword input (codes " AND ")) _ _
          (λ p q ps e. several-Fuelled _ _ (p ∷ q ∷ ps) (again (codes " AND ") p q ps e))
          (test-Fuelled (has_prefix (to_upper input) (codes "NOT ")) _ _
            (λ e. >>=-Fuelled (slice_from input 4) _ (slice_from-Fuelled input 4) λ rest e'.
              >>=-Fuelled (parse_condition rt fuel rest) _
                (parse_condition-Fuelled fuel rest
                  (omega (arith, length-slice_from input 4 e', length-negated input e)))
                λ inner _ q. cc)
            (λ e.
              test-Fuelled (enclosed b'(' b')' input) _ _
                (λ e'.
                  >>=-Fuelled (slice input 1 (length input - 1)) _
                    (slice-Fuelled input 1 (length input - 1))
                    λ inner e''. parse_condition-Fuelled fuel inner (
                      omega (
                        arith,
                        length-enclosed b'(' b')' input e',
                        length-slice input 1 (length input - 1) e'',
                      )))
                (λ e'. parse_comparison-Fuelled comparators (trim_space input)))))

  parse_default-Fuelled : (part : Option Text) → Fuelled (parse_default {F = F} rt part)
  unfolding parse_default
  parse_default-Fuelled none = λ q. cc
  parse_default-Fuelled (some part) = ground arith

  parse_rest-Fuelled :
      (action : RuleAction) (scope : RuleScope) (remaining : Text)
      → Fuelled (parse_rest rt action scope remaining)
  unfolding parse_rest
  parse_rest-Fuelled action scope remaining =
      test-Fuelled (has_prefix (to_upper remaining) (codes "IF ")) _ _
        (λ e. >>=-Fuelled (slice_from remaining 3) _ (slice_from-Fuelled remaining 3) λ rest e'.
          let bound = length-slice_from remaining 3 e' in
          >>=-Fuelled (parse_condition rt (suc (length remaining)) (trim_space rest)) _
            (parse_condition-Fuelled (suc (length remaining)) (trim_space rest)
              (omega (arith, bound, length-trim_space rest)))
            λ c _ q. cc)
        (λ e q. cc)

  parse_scope-Fuelled :
      (action : RuleAction) (remaining : Text) → Fuelled (parse_scope rt action remaining)
  unfolding parse_scope
  parse_scope-Fuelled action remaining =
      test-Fuelled (has_prefix (to_upper remaining) (codes "EXPLORATION")) _ _
        (λ e.
          >>=-Fuelled (slice_from remaining 11) _ (slice_from-Fuelled remaining 11)
            λ rest _. parse_rest-Fuelled action exploration (trim_space rest))
        (λ e.
          test-Fuelled (has_prefix (to_upper remaining) (codes "PROCESSING")) _ _
            (λ e'.
              >>=-Fuelled (slice_from remaining 10) _ (slice_from-Fuelled remaining 10)
                λ rest _. parse_rest-Fuelled action processing (trim_space rest))
            (λ e'. parse_rest-Fuelled action all remaining))

-- `parseLine` never runs out of the fuel that the model gives to `parseCondition` and `parseValue`, on
-- any line: their recursion ends with a condition, with an error of the source or with a panic.
pub parse_line-ne-out_of_fuel :
    {F : Type 0} (rt : Runtime F) (line : Text) → parse_line rt line ≢ err out_of_fuel
unfolding parse_line
parse_line-ne-out_of_fuel rt line' =
    let line = trim_space line' in
    let upper = to_upper line in
    test-Fuelled (has_prefix upper (codes "DEFAULT:") || has_prefix upper (codes "DEFAULT :")) _ _
      (λ e. parse_default-Fuelled rt (after_colon line))
      (λ e.
        test-Fuelled (has_prefix upper (codes "ALLOW")) _ _
          (λ e'.
            >>=-Fuelled (slice_from line 5) _ (slice_from-Fuelled line 5)
              λ rest _. parse_scope-Fuelled rt allow (trim_space rest))
          (λ e'.
            test-Fuelled (has_prefix upper (codes "DENY")) _ _
              (λ e''.
                >>=-Fuelled (slice_from line 4) _ (slice_from-Fuelled line 4)
                  λ rest _. parse_scope-Fuelled rt deny (trim_space rest))
              (λ e'' q. cc)))

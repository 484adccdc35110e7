-- ===== src/Rules/Comparison.antt =====
-- Go/internal/rules/parser.go: values and comparisons, on ASCII text. `parse_value` calls itself on
-- shorter text; the fuel bounds the depth of these calls.
use share_hound.Prelude.{
  ℕ, zero, suc, ◌+◌, ◌-◌, Bool, true, false, ◌&&◌, ◌||◌, List, [], ◌∷◌, ◌++◌, Option, none, some,
  ◌==◌, leb, if◌then◌else◌, length,
}
use share_hound.Prelude.Outcome.{Outcome, ok, err, ◌>>=◌}
use share_hound.Prelude.Text.{Text, codes, eqb, has_prefix, to_upper}
use share_hound.Rules.Condition.{Condition, field_condition}
use share_hound.Rules.Scan.{trim_space, ends_with, index_of, split_list_items}
use share_hound.Rules.Value.{Runtime, Value, Values, string, float64, bool, list, empty, item}
use share_hound.Smb.Bytes.{index, slice, slice_from}

-- `out_of_fuel` is no error of the source.
pub data ParseError : Type 0 where
  invalid_default bad_behavior no_action no_comparison out_of_fuel : ParseError

-- One result per part, up to the first error.
unfoldable pub each :
    {A : Type 0} → (Text → Outcome ParseError A) → List Text → Outcome ParseError (List A)
each f [] = ok []
each f (p ∷ ps) = do a ← f p; rest ← each f ps; ok (a ∷ rest)

abbrev is_digit : ℕ → Bool
is_digit c = leb b'0' c && leb c b'9'

-- `^\d+$`
abbrev all_digits : Text → Bool
all_digits [] = false
all_digits (c ∷ []) = is_digit c
all_digits (c ∷ d ∷ s) = is_digit c && all_digits (d ∷ s)

-- `^\d*(\.\d+)?$`
abbrev digits_and_fraction : Text → Bool
digits_and_fraction [] = true
digits_and_fraction (c ∷ s) = (is_digit c && digits_and_fraction s) || (c == b'.' && all_digits s)

abbrev unsigned : Text → Bool
unsigned [] = false
unsigned (c ∷ s) = is_digit c && digits_and_fraction s

-- `^-?\d+(\.\d+)?$`
unfoldable pub is_number : Text → Bool
is_number [] = false
is_number (c ∷ s) = unsigned (c ∷ s) || (c == b'-' && unsigned s)

abbrev pub comparators : List Text
comparators =
    codes "NOT IN"
    ∷ codes "IN"
    ∷ codes "MATCHES"
    ∷ codes "!="
    ∷ codes "<="
    ∷ codes ">="
    ∷ codes "="
    ∷ codes "<"
    ∷ codes ">"
    ∷ []

-- Where a comparator stands; `Index` without the blanks is taken if it is first or behind a blank.
unfoldable pub find_comparator : Text → Text → Outcome ParseError (Option ℕ)
find_comparator input comp =
    let upper = to_upper input in
    elim (index_of (codes " " ++ (comp ++ codes " ")) upper) [
      | some i ↦ ok (some i)
      | none ↦ elim (index_of comp upper) [
        | none ↦ ok none
        | some zero ↦ ok (some zero)
        | some (suc i) ↦ do
          before ← index input i
          ok (if before == b' ' then some (suc i) else none)
      ]
    ]

-- `(HasPrefix(s, q) && HasSuffix(s, q))` for a single byte
abbrev pub enclosed : ℕ → ℕ → Text → Bool
enclosed first last s = has_prefix s (first ∷ []) && ends_with last s

module _ {F : Type 0} where
  abbrev to_values : List (Value F) → Values F
  to_values [] = empty
  to_values (v ∷ vs) = item v (to_values vs)

  module _ (rt : Runtime F) where
    -- The scalar cases of `parseValue`
    unfoldable pub parse_scalar : Text → Outcome ParseError (Value F)
    parse_scalar input =
        if enclosed 39 39 input || enclosed 34 34 input
        then (do inner ← slice input 1 (length input - 1); ok (string inner))
        else let upper = to_upper input in
          ok (
            if eqb upper (codes "TRUE")
            then bool true
            else if eqb upper (codes "FALSE")
            then bool false
            else if is_number input
            then float64 (rt.scan input)
            else string input)

    -- `parseValue`
    unfoldable pub parse_value : ℕ → Text → Outcome ParseError (Value F)
    unfolding parse_scalar each
    parse_value zero input = err out_of_fuel
    parse_value (suc fuel) input' =
        let input = trim_space input' in
        elim (enclosed b'[' b']' input) [
          | true ↦ do
            inner ← slice input 1 (length input - 1)
            vs ← each (λ part. parse_value fuel (trim_space part)) (split_list_items inner)
            ok (list (to_values vs))
          | false ↦ parse_scalar input
        ]

    -- The loop of `parseComparison`
    unfoldable pub parse_comparison_from : List Text → Text → Outcome ParseError (Condition F)
    unfolding parse_value find_comparator
    parse_comparison_from [] input = err no_comparison
    parse_comparison_from (comp ∷ comps) input = do
      found ← find_comparator input comp
      elim found [
        | none ↦ parse_comparison_from comps input
        | some idx ↦ do
          field ← slice input 0 idx
          here ← index input idx
          let value_start = if here == b' ' then idx + length comp + 1 else idx + length comp
          value_str ← slice_from input value_start
          v ← parse_value (suc (length input)) (trim_space value_str)
          ok (field_condition (trim_space field) comp v)
      ]

    -- `parseComparison`
    abbrev pub parse_comparison : Text → Outcome ParseError (Condition F)
    parse_comparison input = parse_comparison_from comparators (trim_space input)

-- ===== src/Rules/Value.antt =====
-- Go/internal/rules/rule.go: the values of fields and rules, and their comparisons. Floats and regular
-- expressions are parameters. Integers are not negative: depths count directories, sizes count bytes.
-- `strings.EqualFold` folds the ASCII letters.
use share_hound.Prelude.{
  ℕ, ◌+◌, ◌/◌, ◌%◌, ◌^◌, Bool, true, false, ◌&&◌, ◌||◌, [], ◌∷◌, Option, none, some, ltb,
  if◌then◌else◌,
}
use share_hound.Prelude.Text.{Text, codes, eqb, to_lower}

-- The floats and the regular expressions that the rules use: conversion from an integer, the order,
-- the low 32 bits of `int(f)`, `fmt.Sscanf` with "%f", and a compiled pattern or none if it does not compile.
pub record Runtime (F : Type 0) : Type 0 where
  pub of_int : ℕ → F
  pub zero_float : F
  pub less : F → F → Bool
  pub low_bits : F → ℕ
  pub scan : Text → F
  pub compile : Text → Option (Text → Bool)

-- The values of type `interface{}` that occur; `nothing` is nil.
mutual
  pub data Value (F : Type 0) : Type 0 where
    string : Text → Value F
    int : ℕ → Value F
    int64 : ℕ → Value F
    float64 : F → Value F
    bool : Bool → Value F
    list : Values F → Value F
    nothing : Value F

  pub data Values (F : Type 0) : Type 0 where
    empty : Values F
    item : Value F → Values F → Values F

-- U+FFFD
abbrev pub replacement : Text
replacement = 0xef ∷ 0xbf ∷ 0xbd ∷ []

-- `string(rune(n))`: UTF-8, with U+FFFD for what is no code point
unfoldable pub string_of_rune : ℕ → Text
string_of_rune n =
    let r = n % 2 ^ 32 in
    if ltb r 0x80
    then r ∷ []
    else if ltb r 0x800
    then (0xc0 + r / 2 ^ 6) ∷ (0x80 + r % 2 ^ 6) ∷ []
    else if ltb 0x10ffff r || (ltb 0xd7ff r && ltb r 0xe000)
    then replacement
    else if ltb r 0x10000
    then (0xe0 + r / 2 ^ 12) ∷ (0x80 + r / 2 ^ 6 % 2 ^ 6) ∷ (0x80 + r % 2 ^ 6) ∷ []
    else (0xf0 + r / 2 ^ 18)
      ∷ (0x80 + r / 2 ^ 12 % 2 ^ 6)
      ∷ (0x80 + r / 2 ^ 6 % 2 ^ 6)
      ∷ (0x80 + r % 2 ^ 6)
      ∷ []

-- `strings.EqualFold`
unfoldable pub equal_fold : Text → Text → Bool
equal_fold a b = eqb (to_lower a) (to_lower b)

module _ {F : Type 0} (rt : Runtime F) where
  -- `toString`
  unfoldable pub to_string : Value F → Text
  to_string (string s) = s
  to_string (int n) = string_of_rune n
  to_string (int64 n) = string_of_rune n
  to_string (float64 f) = string_of_rune (rt.low_bits f)
  to_string (bool b) = if b then codes "true" else codes "false"
  to_string (list vs) = []
  to_string nothing = []

  -- `toNumber`: reading no bytes succeeds on a string that is not empty, and the number stays 0.
  unfoldable pub to_number : Value F → Option F
  to_number (int n) = some (rt.of_int n)
  to_number (int64 n) = some (rt.of_int n)
  to_number (float64 f) = some f
  to_number (string []) = none
  to_number (string (c ∷ s)) = some rt.zero_float
  to_number _ = none

  -- `compareEqual`
  unfoldable pub compare_equal : Value F → Value F → Bool
  unfolding to_string
  compare_equal a b = equal_fold (to_string a) (to_string b)

  -- Two numbers in an order, or false if one is none.
  abbrev both_numbers : (F → F → Bool) → Option F → Option F → Bool
  both_numbers test (some a) (some b) = test a b
  both_numbers test _ _ = false

  -- `compareLess`
  unfoldable pub compare_less : Value F → Value F → Bool
  unfolding to_number
  compare_less a b = both_numbers rt.less (to_number a) (to_number b)

  -- `compareGreater`
  unfoldable pub compare_greater : Value F → Value F → Bool
  unfolding to_number
  compare_greater a b = both_numbers (λ x y. rt.less y x) (to_number a) (to_number b)

  -- The loop of `compareIn`
  unfoldable pub compare_any : Value F → Values F → Bool
  unfolding compare_equal
  compare_any v empty = false
  compare_any v (item w ws) = if compare_equal v w then true else compare_any v ws

  -- `compareIn`; the parser makes no list of type `[]string`
  unfoldable pub compare_in : Value F → Value F → Bool
  unfolding compare_any
  compare_in v (list ws) = compare_any v ws
  compare_in v _ = false

  -- `compareMatches`
  unfoldable pub compare_matches : Value F → Value F → Bool
  unfolding to_string
  compare_matches v pattern' = elim (rt.compile (to_string pattern')) [
    | none ↦ false
    | some matches ↦ matches (to_string v)
  ]

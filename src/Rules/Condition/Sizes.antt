-- ===== src/Rules/Condition/Sizes.antt =====
-- Conditions on the size of a file (Go/internal/rules/rule.go).
use share_hound.Prelude.{ℕ, ◌<◌, ◌%◌, ◌^◌, ◌≡◌, refl, true, false, some, arith, ltb}
use share_hound.Prelude.Text.{codes, eqb, elem, to_upper, to_lower}
use share_hound.Rules.Condition.{
  EvaluationContext, RuleObjectFile, field_condition, evaluate_condition, compare_by,
  get_field_value,
}
use share_hound.Rules.Value.{
  Runtime, float64, equal_fold, compare_equal, compare_less, compare_greater, to_string, to_number,
  string_of_rune, replacement,
}

-- Whole numbers below 2^53 have exact floats, in their order.
pub record IsExact {F : Type 0} (rt : Runtime F) : Type 0 where
  pub less-of_int :
      (a b : ℕ) → a < 2 ^ 53 → b < 2 ^ 53 → rt.less (rt.of_int a) (rt.of_int b) ≡ ltb a b

module _ {F : Type 0} (rt : Runtime F) where
  -- Where the floats of whole numbers below 2^53 are exact, FILE.SIZE > n and FILE.SIZE < n compare a
  -- file's size with n, if both are below 2^53.
  pub file_size-ordered :
      (ctx : EvaluationContext) (file : RuleObjectFile) (n : ℕ)
      → IsExact rt
      → ctx.file ≡ some file
      → file.size < 2 ^ 53
      → n < 2 ^ 53
      → (evaluate_condition rt ctx
            (field_condition (codes "FILE.SIZE") (codes ">") (float64 (rt.of_int n)))
          ≡ ltb n file.size)
        × (evaluate_condition rt ctx
              (field_condition (codes "FILE.SIZE") (codes "<") (float64 (rt.of_int n)))
            ≡ ltb file.size n)
  unfolding evaluate_condition compare_by get_field_value eqb elem to_upper compare_greater
      compare_less to_number
  file_size-ordered ctx file n exact here small bounded = (
    rw here (exact.less-of_int n file.size bounded small),
    rw here (exact.less-of_int file.size n small bounded),
  )

  string_of_large : (n : ℕ) → 0x10ffff < n % 2 ^ 32 → string_of_rune n ≡ replacement
  unfolding string_of_rune
  string_of_large n h = ground arith

  -- FILE.SIZE = n holds for every size and every n whose low 32 bits are above 0x10ffff, equal or not,
  -- and FILE.SIZE != n for none.
  pub file_size-large :
      (ctx : EvaluationContext) (file : RuleObjectFile) (f : F)
      → ctx.file ≡ some file
      → 0x10ffff < file.size % 2 ^ 32
      → 0x10ffff < rt.low_bits f % 2 ^ 32
      → (evaluate_condition rt ctx (field_condition (codes "FILE.SIZE") (codes "=") (float64 f))
          ≡ true)
        × (evaluate_condition rt ctx (field_condition (codes "FILE.SIZE") (codes "!=") (float64 f))
            ≡ false)
  unfolding evaluate_condition compare_by get_field_value eqb elem to_upper compare_equal to_string
      equal_fold to_lower
  file_size-large ctx file f here large large' = (
    rw (here, string_of_large file.size large, string_of_large (rt.low_bits f) large') refl,
    rw (here, string_of_large file.size large, string_of_large (rt.low_bits f) large') refl,
  )

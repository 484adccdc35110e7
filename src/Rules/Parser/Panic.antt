-- ===== src/Rules/Parser/Panic.antt =====
-- Where the parser panics (Go/internal/rules/parser.go).
use share_hound.Prelude.{ℕ, ◌-◌, ◌≡◌, ◌≢◌, ◌↔◌, ◌⊎◌, [], ◌∷◌, arith, length}
use share_hound.Prelude.Outcome.{panic}
use share_hound.Prelude.Text.{Text, has_prefix}
use share_hound.Rules.Comparison.{ParseError, parse_scalar}
use share_hound.Rules.Scan.{ends_with}
use share_hound.Rules.Value.{Runtime}
use share_hound.Smb.Bytes.{slice}

slice-inside :
    (a b : ℕ) (s : Text) → slice {E = ParseError} (a ∷ b ∷ s) 1 (length (a ∷ b ∷ s) - 1) ≢ panic
unfolding slice
slice-inside a b s = ground arith

-- A value that is no list makes the parser panic exactly when it is a single quote of either kind.
pub parse_scalar-panic :
    {F : Type 0} (rt : Runtime F) (input : Text)
    → (parse_scalar rt input ≡ panic) ↔ ((input ≡ (39 ∷ [])) ⊎ (input ≡ (34 ∷ [])))
unfolding parse_scalar has_prefix ends_with slice
parse_scalar-panic rt [] = ground arith
parse_scalar-panic rt (c ∷ []) = ground arith
parse_scalar-panic rt (c ∷ d ∷ s) = ground (arith, slice-inside c d s)

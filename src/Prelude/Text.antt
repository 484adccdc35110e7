-- ===== src/Prelude/Text.antt =====
-- Go strings as lists of bytes. Literals of the source are ASCII, so a byte is a code point.
use Prim.Native.Char.{code}
use Prim.Native.String.{String}
use Prim.Native.Nat.{ℕ, ◌+◌, ◌-◌}
use mathlib.Core.Path.{◌≡◌, refl}
use mathlib.Core.Logic.{◌↔◌}
use mathlib.Core.Bool.{Bool, true, false, ◌&&◌, ◌||◌}
use mathlib.Core.List.{List, [], ◌∷◌, ◌++◌}
use native.Mathlib.Omega.{arith}
use share_hound.Prelude.Tests.{◌==◌, leb, if◌then◌else◌}

abbrev pub Text : Type 0
Text = List ℕ

abbrev pub codes : String → Text
codes String.[] = []
codes (String.◌∷◌ c s) = code c ∷ codes s

-- `a == b` on strings.
unfoldable pub eqb : Text → Text → Bool
eqb [] [] = true
eqb (x ∷ a) (y ∷ b) = x == y && eqb a b
eqb _ _ = false

pub eqb_iff : (a b : Text) → (eqb a b ≡ true) ↔ (a ≡ b)
unfolding eqb
eqb_iff (x ∷ a) (y ∷ b) = ground (arith, eqb_iff a b)
eqb_iff _ _ = ground arith

pub eqb_refl : (a : Text) → eqb a a ≡ true
eqb_refl a = (eqb_iff a a).1 refl

-- `strings.HasPrefix(s, p)`
unfoldable pub has_prefix : Text → Text → Bool
has_prefix s [] = true
has_prefix [] (y ∷ p) = false
has_prefix (x ∷ s) (y ∷ p) = x == y && has_prefix s p

pub has_prefix-append : (p s : Text) → has_prefix (p ++ s) p ≡ true
unfolding has_prefix
has_prefix-append [] s = refl
has_prefix-append (x ∷ p) s = ground (arith, has_prefix-append p s)

-- Membership of a string in a slice of strings.
unfoldable pub elem : Text → List Text → Bool
elem t [] = false
elem t (x ∷ xs) = eqb x t || elem t xs

pub elem-append : (t : Text) (xs ys : List Text) → elem t (xs ++ ys) ≡ (elem t xs || elem t ys)
unfolding elem
elem-append t [] ys = refl
elem-append t (x ∷ xs) ys = ground (arith, elem-append t xs ys)

-- One byte of `strings.ToUpper` and of `strings.ToLower` on ASCII text.
abbrev pub upper_byte : ℕ → ℕ
upper_byte c = if leb b'a' c && leb c b'z' then c - 32 else c

abbrev pub lower_byte : ℕ → ℕ
lower_byte c = if leb b'A' c && leb c b'Z' then c + 32 else c

-- `strings.ToUpper` and `strings.ToLower` on ASCII text
unfoldable pub to_upper : Text → Text
to_upper [] = []
to_upper (c ∷ s) = upper_byte c ∷ to_upper s

unfoldable pub to_lower : Text → Text
to_lower [] = []
to_lower (c ∷ s) = lower_byte c ∷ to_lower s

-- `strings.Join(parts, sep)`
unfoldable pub join : Text → List Text → Text
join sep [] = []
join sep (p ∷ []) = p
join sep (p ∷ q ∷ ps) = p ++ (sep ++ join sep (q ∷ ps))

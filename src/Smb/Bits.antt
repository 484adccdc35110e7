-- ===== src/Smb/Bits.antt =====
-- `|` on machine words at variables: the step for the lowest digit, and a number put beside another.
use Prim.Native.Nat.{max, digits, bit_or-bitwise}
use native.Mathlib.Nat.{pow-suc, mul_assoc}
use share_hound.Prelude.{ℕ, zero, suc, ◌+◌, ◌*◌, ◌/◌, ◌%◌, ◌^◌, ◌≤◌, ◌<◌, ◌≡◌, refl, arith, bit_or}

abbrev or_digits : ℕ → ℕ → ℕ → ℕ
or_digits n a b = digits (λ b. b) max n a b

or_digits_fuel : (n m a b : ℕ) → a ≤ n → a ≤ m → or_digits n a b ≡ or_digits m a b
or_digits_fuel zero zero a b p q = refl
or_digits_fuel zero (suc m) (suc a) b p q = absurd (omega arith)
or_digits_fuel (suc n) zero (suc a) b p q = absurd (omega arith)
or_digits_fuel zero (suc m) zero b p q = refl
or_digits_fuel (suc n) zero zero b p q = refl
or_digits_fuel (suc n) (suc m) zero b p q = refl
or_digits_fuel (suc n) (suc m) (suc a) b p q =
    omega (arith, or_digits_fuel n m (suc a / 2) (b / 2) (omega arith) (omega arith))

pub zero-bit_or : (b : ℕ) → bit_or 0 b ≡ b
zero-bit_or b = bit_or-bitwise 0 b

bit_or_step : (a b : ℕ) → bit_or a b ≡ bit_or (a / 2) (b / 2) * 2 + max (a % 2) (b % 2)
bit_or_step zero b = omega (arith, zero-bit_or b, zero-bit_or (b / 2))
bit_or_step (suc a) b = omega (
  arith,
  bit_or-bitwise (suc a) b,
  bit_or-bitwise (suc a / 2) (b / 2),
  or_digits_fuel a (suc a / 2) (suc a / 2) (b / 2) (omega arith) (omega arith),
)

bit_or-zero_fuel : (n a : ℕ) → a ≤ n → bit_or a 0 ≡ a
bit_or-zero_fuel n zero h = refl
bit_or-zero_fuel zero (suc a) h = absurd (omega arith)
bit_or-zero_fuel (suc n) (suc a) h =
    omega (arith, bit_or_step (suc a) 0, bit_or-zero_fuel n (suc a / 2) (omega arith))

-- The digits of `b` fall where `a` has none.
pub bit_or-shifted : (k a b : ℕ) → b < 2 ^ k → bit_or (a * 2 ^ k) b ≡ a * 2 ^ k + b
bit_or-shifted zero a b h =
    let nothing : b ≡ 0 = omega arith in
    rw nothing (omega (arith, bit_or-zero_fuel (a * 1) (a * 1)))
bit_or-shifted (suc k) a b h =
    let double : 2 ^ suc k ≡ 2 ^ k * 2 = pow-suc 2 k in
    let even : a * 2 ^ suc k ≡ (a * 2 ^ k) * 2 = rw (double, ← mul_assoc) in
    let half : a * 2 ^ suc k / 2 ≡ a * 2 ^ k = omega arith in
    let rest : bit_or (a * 2 ^ suc k / 2) (b / 2) ≡ a * 2 ^ k + b / 2 =
      rw half (bit_or-shifted k a (b / 2) (omega arith)) in
    omega (arith, bit_or_step (a * 2 ^ suc k) b)

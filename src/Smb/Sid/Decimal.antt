-- ===== src/Smb/Sid/Decimal.antt =====
-- `%d` of the Go formatter on numbers that are not negative, and its digits.
use share_hound.Prelude.{
  ℕ, zero, suc, ◌+◌, ◌-◌, ◌*◌, ◌/◌, ◌%◌, ◌≤◌, ◌<◌, ◌≡◌, refl, sym, ap, ◌∙◌, List, [], ◌∷◌, ◌++◌,
  ltb, if◌then◌else◌, arith, All, Bool-cases, inl, inr, ltb→lt,
}
use share_hound.Prelude.Text.{Text}

-- The digits of `n`, the last one first to be cut off; the fuel is at least `n`.
decimal_fuel : ℕ → ℕ → Text
decimal_fuel zero n = (b'0' + n) ∷ []
decimal_fuel (suc fuel) n =
    let front = decimal_fuel fuel (n / 10) in
    if ltb n 10 then (b'0' + n) ∷ [] else front ++ ((b'0' + n % 10) ∷ [])

unfoldable pub decimal : ℕ → Text
unfolding decimal_fuel
decimal n = decimal_fuel n n

abbrev pub IsDigit : ℕ → Type 0
IsDigit c = (b'0' ≤ c) × (c < b'0' + 10)

-- The number that a text of digits stands for.
value_from : ℕ → Text → ℕ
value_from acc [] = acc
value_from acc (c ∷ cs) = value_from (acc * 10 + (c - b'0')) cs

value_from-append :
    (acc : ℕ) (a b : Text) → value_from acc (a ++ b) ≡ value_from (value_from acc a) b
unfolding value_from
value_from-append acc [] b = refl
value_from-append acc (c ∷ a) b = value_from-append (acc * 10 + (c - b'0')) a b

All-append {ℓ κ} : {A : Type ℓ} (P : A → Type κ) (a b : List A) → All P a → All P b → All P (a ++ b)
All-append P [] b h k = k
All-append P (x ∷ a) b h k = (h.0, All-append P a b h.1 k)

value-decimal_fuel : (fuel n : ℕ) → n ≤ fuel → value_from 0 (decimal_fuel fuel n) ≡ n
unfolding decimal_fuel value_from
value-decimal_fuel zero n h = omega arith
value-decimal_fuel (suc fuel) n h = elim (Bool-cases (ltb n 10)) [
  | inl small ↦ rw small (omega arith)
  | inr large ↦ rw large (
      value_from-append 0 (decimal_fuel fuel (n / 10)) ((b'0' + n % 10) ∷ [])
      ∙ rw (value-decimal_fuel fuel (n / 10) (omega arith)) (omega arith))
]

decimal_fuel-IsDigit : (fuel n : ℕ) → n ≤ fuel → All IsDigit (decimal_fuel fuel n)
unfolding decimal_fuel
decimal_fuel-IsDigit zero n h = omega arith
decimal_fuel-IsDigit (suc fuel) n h = elim (Bool-cases (ltb n 10)) [
  | inl small ↦ rw small (let l = ltb→lt n 10 small in omega arith)
  | inr large ↦ rw large (
      All-append IsDigit (decimal_fuel fuel (n / 10)) ((b'0' + n % 10) ∷ [])
        (decimal_fuel-IsDigit fuel (n / 10) (omega arith)) (omega arith))
]

pub decimal-IsDigit : (n : ℕ) → All IsDigit (decimal n)
unfolding decimal
decimal-IsDigit n = decimal_fuel-IsDigit n n (omega arith)

pub decimal_injective : (m n : ℕ) → decimal m ≡ decimal n → m ≡ n
unfolding decimal
decimal_injective m n e =
    sym (value-decimal_fuel m m (omega arith))
    ∙ ap (value_from 0) e
    ∙ value-decimal_fuel n n (omega arith)

decimal_lem : decimal 4294967295 ≡ 52 ∷ 50 ∷ 57 ∷ 52 ∷ 57 ∷ 54 ∷ 55 ∷ 50 ∷ 57 ∷ 53 ∷ []
unfolding decimal
decimal_lem = refl

-- ===== src/Rules/Parser/Fuel.antt =====
-- How a result of the parser (Go/internal/rules/parser.go) fails to want fuel: chains, slices and the
-- lengths of what is parsed next.
use share_hound.Prelude.{
  ℕ, zero, suc, ◌-◌, ◌≤◌, ◌<◌, ◌≡◌, ◌≢◌, refl, Bool, true, false, List, [], ◌∷◌, Option, none, some,
  arith, length, take, All, drop, length-drop,
}
use share_hound.Prelude.Outcome.{Outcome, ok, err, panic, ◌>>=◌}
use share_hound.Prelude.Text.{Text, codes, has_prefix, to_upper}
use share_hound.Rules.Comparison.{ParseError, out_of_fuel, each, find_comparator, enclosed}
use share_hound.Rules.Scan.Length.{weight-split_at_keyword_from, weight-All_lt}
use share_hound.Rules.Scan.{split_at_keyword}
use share_hound.Smb.Bytes.{index, slice, slice_from}

-- A result that is not for want of fuel.
abbrev pub Fuelled : {A : Type 0} → Outcome ParseError A → Type 0
Fuelled m = m ≢ err out_of_fuel

pub >>=-Fuelled :
    {A B : Type 0} (m : Outcome ParseError A) (f : A → Outcome ParseError B)
    → Fuelled m
    → ((a : A) → m ≡ ok a → Fuelled (f a))
    → Fuelled (m >>= f)
>>=-Fuelled (ok a) f h k = k a refl
>>=-Fuelled (err e) f h k = λ q. h cc
>>=-Fuelled panic f h k = λ q. cc

pub each-Fuelled :
    {A : Type 0} (f : Text → Outcome ParseError A) (ps : List Text)
    → All (λ p. Fuelled (f p)) ps
    → Fuelled (each f ps)
unfolding each
each-Fuelled f [] h = λ q. cc
each-Fuelled f (p ∷ ps) (h, hs) =
    >>=-Fuelled (f p) _ h λ a e. >>=-Fuelled (each f ps) _ (each-Fuelled f ps hs) λ rest e' q. cc

-- Slices do not fail by an error.
pub index-Fuelled : (b : Text) (i : ℕ) → Fuelled (index b i)
unfolding index
index-Fuelled b i = ground arith

pub slice-Fuelled : (b : Text) (lo hi : ℕ) → Fuelled (slice b lo hi)
unfolding slice
slice-Fuelled b lo hi = ground arith

pub slice_from-Fuelled : (b : Text) (lo : ℕ) → Fuelled (slice_from b lo)
unfolding slice_from
slice_from-Fuelled b lo = ground arith

pub length-take_le : (n : ℕ) (b : Text) → length (take n b) ≤ n
length-take_le zero b = omega arith
length-take_le (suc n) [] = omega arith
length-take_le (suc n) (x ∷ b) = omega (arith, length-take_le n b)

pub length-slice :
    (b : Text) (lo hi : ℕ) {s : Text} → slice {E = ParseError} b lo hi ≡ ok s → length s ≤ hi - lo
unfolding slice
length-slice b lo hi e = grind (arith, length-take_le (hi - lo) (drop lo b))

pub length-slice_from :
    (b : Text) (lo : ℕ) {s : Text}
    → slice_from {E = ParseError} b lo ≡ ok s
    → length s ≡ length b - lo
unfolding slice_from
length-slice_from b lo e = grind (arith, length-drop lo b)

pub find_comparator-Fuelled : (input comp : Text) → Fuelled (find_comparator input comp)
unfolding find_comparator
find_comparator-Fuelled input comp = grind (arith, λ (i : ℕ). index-Fuelled input i)

pub length-negated : (s : Text) → has_prefix (to_upper s) (codes "NOT ") ≡ true → 4 ≤ length s
unfolding has_prefix to_upper
length-negated (a ∷ b ∷ c ∷ d ∷ s) e = omega arith
length-negated [] e = cc
length-negated (a ∷ []) e = ground arith
length-negated (a ∷ b ∷ []) e = ground arith
length-negated (a ∷ b ∷ c ∷ []) e = ground arith

pub length-enclosed : (a b : ℕ) (s : Text) → enclosed a b s ≡ true → 1 ≤ length s
unfolding has_prefix
length-enclosed a b [] e = cc
length-enclosed a b (c ∷ s) e = omega arith

-- Whether there is more than one part.
pub parts-Fuelled :
    {A : Type 0} (parts : List Text) (many : Text → Text → List Text → Outcome ParseError A)
    (one : Outcome ParseError A)
    → ((p q : Text) (ps : List Text) → parts ≡ (p ∷ q ∷ ps) → Fuelled (many p q ps))
    → Fuelled one
    → Fuelled (elim parts [ p ∷ q ∷ ps ↦ many p q ps | _ ↦ one ])
parts-Fuelled [] many one h k = k
parts-Fuelled (p ∷ []) many one h k = k
parts-Fuelled (p ∷ q ∷ ps) many one h k = h p q ps refl

pub test-Fuelled :
    {A : Type 0} (b : Bool) (x y : Outcome ParseError A)
    → (b ≡ true → Fuelled x)
    → (b ≡ false → Fuelled y)
    → Fuelled (elim b [ true ↦ x | false ↦ y ])
test-Fuelled true x y h k = h refl
test-Fuelled false x y h k = k refl

pub option-Fuelled :
    {A : Type 0} (o : Option ℕ) (x : Outcome ParseError A) (f : ℕ → Outcome ParseError A)
    → Fuelled x
    → ((i : ℕ) → Fuelled (f i))
    → Fuelled (elim o [ none ↦ x | some i ↦ f i ])
option-Fuelled none x f h k = h
option-Fuelled (some i) x f h k = k i

-- Each part parsed, and the results joined.
pub several-Fuelled :
    {A B : Type 0} (f : Text → Outcome ParseError A) (g : List A → B) (ps : List Text)
    → All (λ p. Fuelled (f p)) ps
    → Fuelled (do rs ← each f ps; ok (g rs))
several-Fuelled f g ps h = >>=-Fuelled (each f ps) _ (each-Fuelled f ps h) λ rs _ q. cc

pub length-split_at_keyword :
    (n : ℕ) (input keyword p q : Text) (ps : List Text)
    → split_at_keyword input keyword ≡ (p ∷ q ∷ ps)
    → length input ≤ n
    → All (λ r. length r < n) (p ∷ q ∷ ps)
length-split_at_keyword n input keyword p q ps e h =
    let bound = rw e at (weight-split_at_keyword_from (to_upper keyword) 0 0 0 none [] input) in
    weight-All_lt n p q ps (omega (arith, bound))

-- ===== src/Rules/Scan/Length.antt =====
-- The lengths of what the functions of strings return, which bound the depth of the parser's calls.
use share_hound.Prelude.{
  ℕ, zero, suc, ◌+◌, ◌-◌, ◌≤◌, ◌<◌, List, [], ◌∷◌, ◌++◌, Option, arith, length, length-append, All,
}
use share_hound.Prelude.Text.{Text}
use share_hound.Rules.Scan.{
  trim_space, trim_left, trim_right, split_at_keyword_from, split_list_items_from,
}

length-trim_left : (s : Text) → length (trim_left s) ≤ length s
length-trim_left [] = omega arith
length-trim_left (c ∷ s) = ground (arith, length-trim_left s)

length-trim_right : (s : Text) → length (trim_right s) ≤ length s
length-trim_right [] = omega arith
length-trim_right (c ∷ s) = ground (arith, length-trim_right s)

pub length-trim_space : (s : Text) → length (trim_space s) ≤ length s
unfolding trim_space
length-trim_space s = omega (arith, length-trim_left s, length-trim_right (trim_left s))

-- The lengths of the parts, and at least one byte between two of them.
abbrev pub weight : List Text → ℕ
weight [] = 0
weight (p ∷ []) = length p
weight (p ∷ q ∷ ps) = length p + 1 + weight (q ∷ ps)

weight-cons : (p : Text) (ps : List Text) → weight (p ∷ ps) ≤ length p + 1 + weight ps
weight-cons p [] = omega arith
weight-cons p (q ∷ ps) = omega arith

pub weight-split_at_keyword_from :
    (keyword : Text) (skip opened closed : ℕ) (quoted : Option ℕ) (current rest : Text)
    → weight (split_at_keyword_from keyword skip opened closed quoted current rest)
      ≤ length current + length rest
unfolding split_at_keyword_from
weight-split_at_keyword_from keyword zero opened closed quoted current [] = omega arith
weight-split_at_keyword_from keyword (suc skip) opened closed quoted current [] = omega arith
weight-split_at_keyword_from keyword (suc skip) opened closed quoted current (c ∷ rest) =
    omega (arith, weight-split_at_keyword_from keyword skip opened closed quoted current rest)
weight-split_at_keyword_from keyword zero opened closed quoted current (c ∷ rest) = grind (
  arith,
  λ (o c' : ℕ) (q : Option ℕ).
      weight-split_at_keyword_from keyword zero o c' q (current ++ (c ∷ [])) rest,
  weight-split_at_keyword_from keyword (length keyword - 1) opened closed quoted [] rest,
  weight-cons current
      (split_at_keyword_from keyword (length keyword - 1) opened closed quoted [] rest),
  length-append current (c ∷ []),
)

pub weight-split_list_items_from :
    (quoted : Option ℕ) (current rest : Text)
    → weight (split_list_items_from quoted current rest) ≤ length current + length rest
unfolding split_list_items_from
weight-split_list_items_from quoted current [] = omega arith
weight-split_list_items_from quoted current (c ∷ rest) = grind (
  arith,
  λ (q : Option ℕ). weight-split_list_items_from q (current ++ (c ∷ [])) rest,
  weight-split_list_items_from quoted [] rest,
  weight-cons current (split_list_items_from quoted [] rest),
  length-append current (c ∷ []),
)

-- A part is no longer than the whole, and shorter if it is not the only one.
pub weight-All : (n : ℕ) (ps : List Text) → weight ps ≤ n → All (λ p. length p ≤ n) ps
weight-All n [] h = tt
weight-All n (p ∷ []) h = (omega arith, tt)
weight-All n (p ∷ q ∷ ps) h = (omega arith, weight-All n (q ∷ ps) (omega arith))

pub weight-All_lt :
    (n : ℕ) (p q : Text) (ps : List Text)
    → weight (p ∷ q ∷ ps) ≤ n
    → All (λ r. length r < n) (p ∷ q ∷ ps)
weight-All_lt n p q [] h = (omega arith, (omega arith, tt))
weight-All_lt n p q (r ∷ ps) h = (omega arith, weight-All_lt n q r ps (omega arith))

-- ===== src/Smb/AccessMask/Grants.antt =====
-- Which kinds the loops over the two maps of Go/internal/smb/access_mask.go collect.
use mathlib.Core.Logic.{∥∥₁_elim}
use mathlib.Core.Bool.{Bool-set}
use mathlib.Core.List.{Perm, Permᴰ}
use share_hound.Prelude.{ℕ, ◌≡◌, refl, sym, ◌∙◌, Bool, false, ◌&&◌, ◌||◌, List, [], ◌∷◌, arith}
use share_hound.Prelude.Text.{Text, eqb, eqb_iff, elem}
use share_hound.Smb.AccessMask.{flag_set, rights_for_mask, has_any}

-- A pair of the map with key `k` has its flag in `mask`.
abbrev pub grants : List (Text × ℕ) → ℕ → Text → Bool
grants [] mask k = false
grants ((j, flag) ∷ m) mask k = (eqb j k && flag_set mask flag) || grants m mask k

pub elem-rights_for_mask :
    (m : List (Text × ℕ)) (mask : ℕ) (k : Text) → elem k (rights_for_mask m mask) ≡ grants m mask k
unfolding rights_for_mask elem
elem-rights_for_mask [] mask k = refl
elem-rights_for_mask ((j, flag) ∷ m) mask k = ground (arith, elem-rights_for_mask m mask k)

grants-permᴰ :
    {m n : List (Text × ℕ)} → Permᴰ m n → (mask : ℕ) (k : Text) → grants m mask k ≡ grants n mask k
grants-permᴰ Permᴰ.nil mask k = refl
grants-permᴰ (Permᴰ.cons e p) mask k = rw (e, grants-permᴰ p mask k)
grants-permᴰ (Permᴰ.swap e f) mask k = rw (e, f) (ground arith)
grants-permᴰ (Permᴰ.trans p q) mask k = grants-permᴰ p mask k ∙ grants-permᴰ q mask k

-- The order of the map does not matter.
pub grants-perm :
    (m n : List (Text × ℕ)) (mask : ℕ) (k : Text) → Perm m n → grants m mask k ≡ grants n mask k
grants-perm m n mask k p = ∥∥₁_elim p (Bool-set _ _) (λ d. grants-permᴰ d mask k)

-- `hasAny` finds one of the targets among the kinds.
abbrev pub any_elem : List Text → List Text → Bool
any_elem kinds [] = false
any_elem kinds (t ∷ targets) = elem t kinds || any_elem kinds targets

eqb_comm : (a b : Text) → eqb a b ≡ eqb b a
eqb_comm a b = ground (arith, eqb_iff a b, eqb_iff b a)

any_elem-nil : (targets : List Text) → any_elem [] targets ≡ false
unfolding elem
any_elem-nil [] = refl
any_elem-nil (t ∷ targets) = any_elem-nil targets

any_elem-cons :
    (k : Text) (kinds targets : List Text)
    → any_elem (k ∷ kinds) targets ≡ (elem k targets || any_elem kinds targets)
unfolding elem
any_elem-cons k kinds [] = refl
any_elem-cons k kinds (t ∷ targets) = ground (arith, any_elem-cons k kinds targets, eqb_comm k t)

pub has_any_lem : (kinds targets : List Text) → has_any kinds targets ≡ any_elem kinds targets
unfolding has_any
has_any_lem [] targets = sym (any_elem-nil targets)
has_any_lem (k ∷ kinds) targets =
    ground (arith, any_elem-cons k kinds targets, has_any_lem kinds targets)

-- The two lemmas joined, for the kinds that a map in any order gives for a mask.
abbrev pub any_grants : List (Text × ℕ) → ℕ → List Text → Bool
any_grants m mask [] = false
any_grants m mask (t ∷ targets) = grants m mask t || any_grants m mask targets

pub has_any-rights_for_mask :
    (order m : List (Text × ℕ)) (mask : ℕ) (targets : List Text)
    → Perm order m
    → has_any (rights_for_mask order mask) targets ≡ any_grants m mask targets
has_any-rights_for_mask order m mask targets p =
    has_any_lem (rights_for_mask order mask) targets ∙ each targets
  where
    each : (ts : List Text) → any_elem (rights_for_mask order mask) ts ≡ any_grants m mask ts
    each [] = refl
    each (t ∷ ts) = rw (elem-rights_for_mask order mask t, grants-perm order m mask t p, each ts)

-- ===== src/Worker/Pool/Counts.antt =====
-- How often a session stands in the pool and among the sessions in use (Go/internal/worker/pool.go).
use share_hound.Prelude.{
  ℕ, ◌+◌, ◌≡◌, refl, List, [], ◌∷◌, ◌++◌, none, some, arith, ◌==◌, if◌then◌else◌, length,
  length-append, Option-cases, ap, inl, inr,
}
use share_hound.Prelude.Text.{Text, eqb, eqb_iff}
use share_hound.Worker.Pool.{pooled, set_pooled, without, last_session, all_pooled}

unfoldable pub count : ℕ → List ℕ → ℕ
count x [] = 0
count x (c ∷ cs) = let rest = count x cs in if c == x then rest + 1 else rest

pub count-append : (x : ℕ) (cs ds : List ℕ) → count x (cs ++ ds) ≡ count x cs + count x ds
unfolding count
count-append x [] ds = omega arith
count-append x (c ∷ cs) ds = ground (arith, count-append x cs ds)

last_session-none : (cs : List ℕ) → last_session cs ≡ none → cs ≡ []
unfolding last_session
last_session-none [] e = refl
last_session-none (c ∷ cs) e = ground arith

pub last_session-append :
    (cs before : List ℕ) (last : ℕ)
    → last_session cs ≡ some (before, last)
    → cs ≡ before ++ (last ∷ [])
unfolding last_session
last_session-append [] before last e = cc
last_session-append (c ∷ cs) before last e = elim (Option-cases (last_session cs)) [
  | inl n ↦ ground (arith, last_session-none cs n)
  | inr ((b, l), s) ↦
      let front = last_session-append cs b l s in
      let same : some (c ∷ b, l) ≡ some (before, last) = rw s at e in
      let heads : c ∷ b ≡ before = cc in
      let lasts : l ≡ last = cc in rw (← heads, ← lasts) (ap (◌∷◌ c) front)
]

pub count-last_session :
    (x : ℕ) (cs before : List ℕ) (last : ℕ)
    → last_session cs ≡ some (before, last)
    → (count x cs ≡ count x before + count x (last ∷ [])) × (length cs ≡ length before + 1)
count-last_session x cs before last e =
    let front = last_session-append cs before last e in
    (
      rw front (count-append x before (last ∷ [])),
      omega (arith, ap length front, length-append before (last ∷ [])),
    )

pub count-without :
    (x conn : ℕ) (cs : List ℕ) → count x (without conn cs) ≡ (if conn == x then 0 else count x cs)
unfolding count without
count-without x conn [] = ground arith
count-without x conn (c ∷ cs) = ground (arith, count-without x conn cs)

pub count_self : (x : ℕ) → count x (x ∷ []) ≡ 1
unfolding count
count_self x = ground arith

-- What is put in the place of a host's sessions counts instead of them.
pub count-set_pooled :
    (x : ℕ) (host : Text) (conns : List ℕ) (m : List (Text × List ℕ))
    → count x (all_pooled (set_pooled host conns m)) + count x (pooled host m)
      ≡ count x (all_pooled m) + count x conns
unfolding count all_pooled set_pooled pooled
count-set_pooled x host conns [] = ground (arith, count-append x conns [])
count-set_pooled x host conns ((h, old) ∷ m) = ground (
  arith,
  count-set_pooled x host conns m,
  count-append x conns (all_pooled m),
  count-append x old (all_pooled m),
  count-append x old (all_pooled (set_pooled host conns m)),
)

pub pooled-set_pooled :
    (host other : Text) (conns : List ℕ) (m : List (Text × List ℕ))
    → pooled other (set_pooled host conns m) ≡ (if eqb host other then conns else pooled other m)
unfolding set_pooled pooled
pooled-set_pooled host other conns [] = ground arith
pooled-set_pooled host other conns ((h, old) ∷ m) = ground (
  arith,
  eqb_iff h host,
  eqb_iff h other,
  eqb_iff host other,
  pooled-set_pooled host other conns m,
)

-- ===== src/Collector/Contents/Traverse/Ends.antt =====
-- Postconditions of the walk (Go/internal/collector/contents.go): what holds of the value of a step, and
-- whether it may run out of fuel and whether it may panic.
use share_hound.Collector.Contents.{WalkError}
use share_hound.Prelude.{◌≡◌, refl, Bool, true, false, if◌then◌else◌, arith}
use share_hound.Prelude.Outcome.{Outcome, ok, err, panic, ◌>>=◌}

-- What a postcondition allows besides a value.
pub data Mode : Type 0 where
  no_panic no_error if_ok : Mode

abbrev pub OnError : Mode → Type 0
OnError no_error = ⊥
OnError no_panic = Unit {0}
OnError if_ok = Unit {0}

abbrev pub OnPanic : Mode → Type 0
OnPanic no_panic = ⊥
OnPanic no_error = Unit {0}
OnPanic if_ok = Unit {0}

abbrev pub Post : Mode → {A : Type 0} → (A → Type 0) → Outcome WalkError A → Type 0
Post mode P (ok a) = P a
Post mode P (err e) = OnError mode
Post mode P panic = OnPanic mode

module _ (mode : Mode) where
  pub Post->>= :
      {A B : Type 0} (P : A → Type 0) (Q : B → Type 0) (m : Outcome WalkError A)
      (f : A → Outcome WalkError B)
      → Post mode P m
      → ((a : A) → P a → Post mode Q (f a))
      → Post mode Q (m >>= f)
  Post->>= P Q (ok a) f h k = k a h
  Post->>= P Q (err e) f h k = h
  Post->>= P Q panic f h k = h

  pub Post-if :
      {A : Type 0} (P : A → Type 0) (b : Bool) (x y : Outcome WalkError A)
      → (b ≡ true → Post mode P x)
      → (b ≡ false → Post mode P y)
      → Post mode P (if b then x else y)
  Post-if P true x y h k = h refl
  Post-if P false x y h k = k refl

  pub Post-map :
      {A : Type 0} (P Q : A → Type 0) (m : Outcome WalkError A)
      → ((a : A) → P a → Q a)
      → Post mode P m
      → Post mode Q m
  Post-map P Q (ok a) f h = f a h
  Post-map P Q (err e) f h = h
  Post-map P Q panic f h = h

  pub Post-ok :
      {A : Type 0} (P : A → Type 0) (m : Outcome WalkError A) {a : A}
      → Post mode P m
      → m ≡ ok a
      → P a
  Post-ok P (ok b) h e = ground arith
  Post-ok P (err b) h e = cc
  Post-ok P panic h e = cc

pub weaken :
    (mode : Mode) {A : Type 0} (P : A → Type 0) (m : Outcome WalkError A)
    → OnPanic mode
    → Post no_error P m
    → Post mode P m
weaken mode P (ok a) lenient h = h
weaken mode P (err e) lenient h = absurd h
weaken mode P panic lenient h = lenient

pub lenient :
    {A : Type 0} (P : A → Type 0) (m : Outcome WalkError A) → Post no_panic P m → Post if_ok P m
lenient P (ok a) h = h
lenient P (err e) h = tt
lenient P panic h = tt

-- Two postconditions of one step.
pub both :
    {A : Type 0} (P Q : A → Type 0) (m : Outcome WalkError A)
    → Post no_panic P m
    → Post if_ok Q m
    → Post no_panic (λ a. P a × Q a) m
both P Q (ok a) h k = (h, k)
both P Q (err e) h k = tt
both P Q panic h k = absurd h

-- A step that may neither run out of fuel nor panic returns a value.
pub returns :
    {A : Type 0} (P Q : A → Type 0) (m : Outcome WalkError A)
    → Post no_panic P m
    → Post no_error Q m
    → (a : A) × (m ≡ ok a) × P a × Q a
returns P Q (ok a) h k = (a, refl, h, k)
returns P Q (err e) h k = absurd k
returns P Q panic h k = absurd h

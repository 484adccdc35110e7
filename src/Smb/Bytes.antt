-- ===== src/Smb/Bytes.antt =====
-- Byte slices as the parsers of Go/internal/smb read them: indexing, slicing and
-- `binary.LittleEndian` panic out of range. Go checks the upper bound of `b[lo:hi]` against the
-- capacity; the length is taken here, so nothing panics in Go that does not panic here.
use share_hound.Prelude.{
  ℕ, zero, suc, ◌+◌, ◌-◌, ◌*◌, ◌/◌, ◌%◌, ◌^◌, ◌≤◌, ◌<◌, ◌≡◌, refl, sym, ap, ◌≢◌, ◌&&◌, List, [],
  ◌∷◌, ◌++◌, arith, leb, if◌then◌else◌, length, take, drop, length-append, length-drop, drop-append,
  take-append, none, some, get_elem?, All,
}
use native.Mathlib.Nat.{zero-add, add-zero, suc-add}
use share_hound.Prelude.Outcome.{Outcome, ok, panic, ◌>>=◌}

abbrev pub Bytes : Type 0
Bytes = List ℕ

abbrev pub IsByte : ℕ → Type 0
IsByte b = b < 256

module _ {E : Type 0} where
  -- `data[i]`
  unfoldable pub index : Bytes → ℕ → Outcome E ℕ
  index b i = elim (get_elem? b i) [ some v ↦ ok v | none ↦ panic ]

  -- `data[lo:hi]`
  unfoldable pub slice : Bytes → ℕ → ℕ → Outcome E Bytes
  slice b lo hi = if leb lo hi && leb hi (length b) then ok (take (hi - lo) (drop lo b)) else panic

  -- `data[lo:]`
  unfoldable pub slice_from : Bytes → ℕ → Outcome E Bytes
  slice_from b lo = if leb lo (length b) then ok (drop lo b) else panic

  -- `binary.LittleEndian.Uint16`
  unfoldable pub le_uint16 : Bytes → Outcome E ℕ
  le_uint16 (b0 ∷ b1 ∷ b) = ok (b0 + b1 * 2 ^ 8)
  le_uint16 _ = panic

  -- `binary.LittleEndian.Uint32`
  unfoldable pub le_uint32 : Bytes → Outcome E ℕ
  le_uint32 (b0 ∷ b1 ∷ b2 ∷ b3 ∷ b) = ok (b0 + b1 * 2 ^ 8 + b2 * 2 ^ 16 + b3 * 2 ^ 24)
  le_uint32 _ = panic

  -- `binary.LittleEndian.Uint16(data[lo:lo+2])`
  unfoldable pub uint16_at : Bytes → ℕ → Outcome E ℕ
  uint16_at b lo = do s ← slice b lo (lo + 2); le_uint16 s

  -- `binary.LittleEndian.Uint32(data[lo:lo+4])`
  unfoldable pub uint32_at : Bytes → ℕ → Outcome E ℕ
  uint32_at b lo = do s ← slice b lo (lo + 4); le_uint32 s

get_elem?-lt {ℓ} : {A : Type ℓ} (b : List A) (i : ℕ) → i < length b → get_elem? b i ≢ none
get_elem?-lt [] i h = elim h [ ]
get_elem?-lt (x ∷ b) zero h = λ e. cc
get_elem?-lt (x ∷ b) (suc i) h = get_elem?-lt b i (omega arith)

length-take {ℓ} : {A : Type ℓ} (n : ℕ) (b : List A) → n ≤ length b → length (take n b) ≡ n
length-take zero b h = refl
length-take (suc n) [] h = elim h [ ]
length-take (suc n) (x ∷ b) h = ap suc (length-take n b (omega arith))

module _ {E : Type 0} where
  pub index-ne-panic : (b : Bytes) (i : ℕ) → i < length b → index {E = E} b i ≢ panic
  unfolding index
  index-ne-panic b i h = ground (arith, get_elem?-lt b i)

  pub slice-ne-panic :
      (b : Bytes) (lo hi : ℕ) → lo ≤ hi → hi ≤ length b → slice {E = E} b lo hi ≢ panic
  unfolding slice
  slice-ne-panic b lo hi h k = ground arith

  pub slice_from-ne-panic : (b : Bytes) (lo : ℕ) → lo ≤ length b → slice_from {E = E} b lo ≢ panic
  unfolding slice_from
  slice_from-ne-panic b lo h = ground arith

  le_uint16-ne-panic : (b : Bytes) → length b ≡ 2 → le_uint16 {E = E} b ≢ panic
  unfolding le_uint16
  le_uint16-ne-panic [] h = cc
  le_uint16-ne-panic (x ∷ []) h = absurd (omega arith)
  le_uint16-ne-panic (x ∷ y ∷ b) h = λ e. cc

  le_uint32-ne-panic : (b : Bytes) → length b ≡ 4 → le_uint32 {E = E} b ≢ panic
  unfolding le_uint32
  le_uint32-ne-panic [] h = absurd (omega arith)
  le_uint32-ne-panic (x ∷ []) h = absurd (omega arith)
  le_uint32-ne-panic (x ∷ y ∷ []) h = absurd (omega arith)
  le_uint32-ne-panic (x ∷ y ∷ z ∷ []) h = absurd (omega arith)
  le_uint32-ne-panic (x ∷ y ∷ z ∷ w ∷ b) h = λ e. cc

  pub uint16_at-ne-panic : (b : Bytes) (lo : ℕ) → lo + 2 ≤ length b → uint16_at {E = E} b lo ≢ panic
  unfolding uint16_at slice
  uint16_at-ne-panic b lo h = ground (
    arith,
    le_uint16-ne-panic (take (lo + 2 - lo) (drop lo b)),
    length-take (lo + 2 - lo) (drop lo b),
    length-drop lo b,
  )

  pub uint32_at-ne-panic : (b : Bytes) (lo : ℕ) → lo + 4 ≤ length b → uint32_at {E = E} b lo ≢ panic
  unfolding uint32_at slice
  uint32_at-ne-panic b lo h = ground (
    arith,
    le_uint32-ne-panic (take (lo + 4 - lo) (drop lo b)),
    length-take (lo + 4 - lo) (drop lo b),
    length-drop lo b,
  )

-- What the format stores: the little-endian bytes of a number.
unfoldable pub put_uint16 : ℕ → Bytes
put_uint16 v = v % 256 ∷ v / 256 % 256 ∷ []

unfoldable pub put_uint32 : ℕ → Bytes
put_uint32 v = v % 256 ∷ v / 2 ^ 8 % 256 ∷ v / 2 ^ 16 % 256 ∷ v / 2 ^ 24 % 256 ∷ []

pub slice-append :
    {E : Type 0} (pre mid post : Bytes) {lo hi : ℕ}
    → lo ≡ length pre
    → hi ≡ length pre + length mid
    → slice {E = E} (pre ++ (mid ++ post)) lo hi ≡ ok mid
unfolding slice
slice-append {E} pre mid post {lo} {hi} h k = ground (
  arith,
  length-append pre (mid ++ post),
  length-append mid post,
  drop-append pre (mid ++ post),
  take-append mid post,
)

pub uint16_at-append :
    {E : Type 0} (pre post : Bytes) (v : ℕ) {lo : ℕ}
    → lo ≡ length pre
    → v < 2 ^ 16
    → uint16_at {E = E} (pre ++ (put_uint16 v ++ post)) lo ≡ ok v
unfolding uint16_at put_uint16 le_uint16
uint16_at-append {E} pre post v {lo} h k =
    rw (slice-append {E = E} pre (put_uint16 v) post {hi = lo + 2} h (omega arith)) (ground arith)

pub uint32_at-append :
    {E : Type 0} (pre post : Bytes) (v : ℕ) {lo : ℕ}
    → lo ≡ length pre
    → v < 2 ^ 32
    → uint32_at {E = E} (pre ++ (put_uint32 v ++ post)) lo ≡ ok v
unfolding uint32_at put_uint32 le_uint32
uint32_at-append {E} pre post v {lo} h k =
    rw (slice-append {E = E} pre (put_uint32 v) post {hi = lo + 4} h (omega arith)) (ground arith)

pub drop-drop {ℓ} : {A : Type ℓ} (m n : ℕ) (xs : List A) → drop n (drop m xs) ≡ drop (m + n) xs
drop-drop zero n xs = rw zero-add
drop-drop (suc m) zero [] = rw add-zero
drop-drop (suc m) (suc n) [] = rw suc-add
drop-drop (suc m) n (x ∷ xs) = rw suc-add (drop-drop m n xs)

pub All-drop {ℓ κ} :
    {A : Type ℓ} (P : A → Type κ) (n : ℕ) (xs : List A) → All P xs → All P (drop n xs)
All-drop P zero xs h = h
All-drop P (suc n) [] h = h
All-drop P (suc n) (x ∷ xs) h = All-drop P n xs h.1

le_uint32-take :
    {E : Type 0} (t : Bytes) (v : ℕ)
    → All IsByte t
    → le_uint32 {E = E} (take 4 t) ≡ ok v
    → (t ≡ put_uint32 v ++ drop 4 t) × (v < 2 ^ 32)
unfolding le_uint32 put_uint32
le_uint32-take [] v h e = ground arith
le_uint32-take (a ∷ []) v h e = ground arith
le_uint32-take (a ∷ b ∷ []) v h e = ground arith
le_uint32-take (a ∷ b ∷ c ∷ []) v h e = ground arith
le_uint32-take (a ∷ b ∷ c ∷ d ∷ t) v h e = ground arith

-- What was read is what stands there.
pub uint32_at-inverse :
    {E : Type 0} (b : Bytes) (lo v : ℕ)
    → All IsByte b
    → uint32_at {E = E} b lo ≡ ok v
    → (drop lo b ≡ put_uint32 v ++ drop (lo + 4) b) × (v < 2 ^ 32)
unfolding uint32_at slice
uint32_at-inverse {E} b lo v h e =
    let four : lo + 4 - lo ≡ 4 = omega arith in
    let read : le_uint32 {E = E} (take 4 (drop lo b)) ≡ ok v = ground arith in
    rw (sym (drop-drop lo 4 b)) (le_uint32-take {E = E} (drop lo b) v (All-drop IsByte lo b h) read)

pub slice_from-append :
    {E : Type 0} (pre post : Bytes) {lo : ℕ}
    → lo ≡ length pre
    → slice_from {E = E} (pre ++ post) lo ≡ ok post
unfolding slice_from
slice_from-append pre post h = ground (arith, length-append pre post, drop-append pre post)

-- ===== src/Utils/Network/Range.antt =====
-- The numbers of the addresses behind one prefix (Go/internal/utils/network.go).
use native.Mathlib.Nat.{
  mul-le-mul_right, div-lt_iff_lt-mul, div-mul-le_self, lt-div-mul-add, div-eq_of_lt-le,
}
use share_hound.Prelude.{
  ℕ, zero, suc, ◌+◌, ◌-◌, ◌*◌, ◌/◌, ◌^◌, ◌<◌, ◌≤◌, ◌≡◌, ◌⊎◌, inl, inr, refl, sym, ap, subst, [],
  ◌∷◌, arith,
}
use share_hound.Utils.Network.Increment.{IsBytes, empty, byte, count, value, value_bounded}
use share_hound.Utils.Network.{Ip, host_bits, mask_ip}

-- How many addresses of the length of this one have the same prefix.
unfoldable pub size : ℕ → Ip → ℕ
size ones [] = 1
size ones (b ∷ ip) = 2 ^ host_bits ones * size (ones - 8) ip

below_product : (p a b : ℕ) → a < b → a * p + p ≤ b * p
below_product p a b h = omega (arith, mul-le-mul_right {m = a + 1} {n = b} p (omega arith))

-- One byte without its host bits: `t` blocks of `s` bytes.
module _ (s t : ℕ) (pos : 0 < s) (blocks : t * s ≡ 256) where
  pub byte_above : (b : ℕ) → b < 256 → (b / s * s ≤ b) × (b < b / s * s + s) × (b / s * s + s ≤ 256)
  byte_above b h =
      let low : b / s < t =
        (div-lt_iff_lt-mul {k = s} {x = b} {y = t} pos).1 (subst (λ n. b < n) (sym blocks) h) in
      (
        div-mul-le_self b s,
        lt-div-mul-add {a = b} {b = s} pos,
        rw (sym blocks) (below_product s (b / s) t low),
      )

  pub byte_same : (b c : ℕ) → c / s * s ≤ b → b < c / s * s + s → b / s * s ≡ c / s * s
  byte_same b c h k = ap (λ n. n * s) (div-eq_of_lt-le {k = c / s} s {m = b} h (omega arith))

inside_byte :
    (p q s b v : ℕ) → q ≤ b → b < q + s → v < p → (q * p ≤ b * p + v) × (b * p + v < q * p + s * p)
inside_byte p q s b v h k l = (
  omega (arith, mul-le-mul_right {m = q} {n = b} p h),
  omega (arith, below_product p b (q + s) k),
)

at_least : (a b : ℕ) → (b < a → ⊥) → a ≤ b
at_least a b h = ground arith

at_byte :
    (p q s b v : ℕ) → v < p → q * p ≤ b * p + v → b * p + v < q * p + s * p → (q ≤ b) × (b < q + s)
at_byte p q s b v l h k = (
  at_least q b (λ m. omega (arith, below_product p b q m)),
  at_least (suc b) (q + s)
      (λ m. omega (arith, mul-le-mul_right {m = q + s} {n = b} p (omega arith))),
)

-- A byte and those behind it, whose prefix ends in the byte or behind it: `p` addresses have the
-- length of those behind it, `z` of them the prefix, from the number `m` on.
module _ (p q s m z : ℕ) (room : m + z ≤ p) (fits : q + s ≤ 256)
    (ends : ((m ≡ 0) × (z ≡ p)) ⊎ (s ≡ 1)) where
  bytes_room : q * p + m + s * z ≤ 256 * p
  bytes_room = elim ends [
    | inl (a, b) ↦ rw (a, b) (omega (arith, mul-le-mul_right {m = q + s} {n = 256} p fits))
    | inr e ↦ rw e (omega (arith, below_product p q 256 (omega arith)))
  ]

  bytes_above :
      (b v : ℕ)
      → q ≤ b
      → b < q + s
      → v < p
      → m ≤ v
      → v < m + z
      → (q * p + m ≤ b * p + v) × (b * p + v < q * p + m + s * z)
  bytes_above b v h k l n o = elim ends [
    | inl (a, c) ↦ rw (a, c) (let r = inside_byte p q s b v h k l in (omega arith, omega arith))
    | inr e ↦ let same : b ≡ q = omega arith in rw (e, same) (omega arith, omega arith)
  ]

  pub bytes_in :
      (b v : ℕ)
      → v < p
      → q * p + m ≤ b * p + v
      → b * p + v < q * p + m + s * z
      → (q ≤ b) × (b < q + s) × (m ≤ v) × (v < m + z)
  bytes_in b v l h k = elim ends [
    | inl (a, c) ↦
        let k' = subst (λ n. b * p + v < q * p + m + s * n) c k in
        let r = at_byte p q s b v l (omega arith) (omega arith) in
        (r.0, r.1, omega arith, omega arith)
    | inr e ↦
        let k' = subst (λ n. b * p + v < q * p + m + n * z) e k in
        let r = at_byte p q 1 b v l (omega arith) (omega arith) in
        let same : b ≡ q = omega arith in
        let h' = subst (λ n. q * p + m ≤ n * p + v) same h in
        let k'' = subst (λ n. n * p + v < q * p + m + 1 * z) same k' in
        (omega arith, omega arith, omega arith, omega arith)
  ]

-- The prefix ends in the first byte, or that has no host bits.
size_zero : (ip : Ip) → size 0 ip ≡ count ip
unfolding size count
size_zero [] = refl
size_zero (b ∷ ip) = ap (λ n. 256 * n) (size_zero ip)

value-mask_ip-zero : (ip : Ip) → IsBytes ip → value (mask_ip 0 ip) ≡ 0
unfolding value mask_ip count
value-mask_ip-zero [] empty = refl
value-mask_ip-zero (b ∷ ip) (byte h k) =
    let q : b / 256 * 256 ≡ 0 = omega arith in rw (q, value-mask_ip-zero ip k) (omega arith)

ends_here : (ones : ℕ) → (ones - 8 ≡ 0) ⊎ (8 - ones ≡ 0)
ends_here ones = ground arith

pub prefix_ends :
    (ones : ℕ) (ip : Ip)
    → IsBytes ip
    → ((value (mask_ip (ones - 8) ip) ≡ 0) × (size (ones - 8) ip ≡ count ip))
      ⊎ (2 ^ host_bits ones ≡ 1)
prefix_ends ones ip k = elim (ends_here ones) [
  | inl e ↦ rw e (inl (value-mask_ip-zero ip k, size_zero ip))
  | inr e ↦ rw e (inr refl)
]

pub count-mask_ip : (ones : ℕ) (ip : Ip) → count (mask_ip ones ip) ≡ count ip
unfolding count mask_ip
count-mask_ip ones [] = refl
count-mask_ip ones (b ∷ ip) = ap (λ n. 256 * n) (count-mask_ip (ones - 8) ip)

powers_of : (k : ℕ) → k ≤ 8 → (0 < 2 ^ k) × (2 ^ (8 - k) * 2 ^ k ≡ 256)
powers_of zero h = (omega arith, refl)
powers_of (suc zero) h = (omega arith, refl)
powers_of (suc (suc zero)) h = (omega arith, refl)
powers_of (suc (suc (suc zero))) h = (omega arith, refl)
powers_of (suc (suc (suc (suc zero)))) h = (omega arith, refl)
powers_of (suc (suc (suc (suc (suc zero))))) h = (omega arith, refl)
powers_of (suc (suc (suc (suc (suc (suc zero)))))) h = (omega arith, refl)
powers_of (suc (suc (suc (suc (suc (suc (suc zero))))))) h = (omega arith, refl)
powers_of (suc (suc (suc (suc (suc (suc (suc (suc zero)))))))) h = (omega arith, refl)
powers_of (suc (suc (suc (suc (suc (suc (suc (suc (suc k))))))))) h = absurd (omega arith)

pub powers :
    (ones : ℕ) → (0 < 2 ^ host_bits ones) × (2 ^ (8 - host_bits ones) * 2 ^ host_bits ones ≡ 256)
powers ones = powers_of (8 - ones) (omega arith)

-- The prefix of an address is the number at which its range starts.
pub mask_ip_range :
    (ones : ℕ) (ip : Ip)
    → IsBytes ip
    → (value (mask_ip ones ip) ≤ value ip)
      × (value ip < value (mask_ip ones ip) + size ones ip)
      × (value (mask_ip ones ip) + size ones ip ≤ count ip)
unfolding value mask_ip count size
mask_ip_range ones [] empty = (omega arith, omega arith, omega arith)
mask_ip_range ones (b ∷ ip) (byte h k) =
    let (pos, blocks) = powers ones in
    let s = 2 ^ host_bits ones in
    let (low, high, fits) = byte_above s (2 ^ (8 - host_bits ones)) pos blocks b h in
    let (below, above, room) = mask_ip_range (ones - 8) ip k in
    let m = value (mask_ip (ones - 8) ip) in
    let z = size (ones - 8) ip in
    let ends = prefix_ends ones ip k in
    let v = value ip in
    let r =
      bytes_above (count ip) (b / s * s) s m z room fits ends b v low high (value_bounded ip k)
        below above in
    rw (count-mask_ip (ones - 8) ip)
      (r.0, r.1, bytes_room (count ip) (b / s * s) s m z room fits ends)

pub mask_ip-IsBytes : (ones : ℕ) (ip : Ip) → IsBytes ip → IsBytes (mask_ip ones ip)
unfolding mask_ip
mask_ip-IsBytes ones [] empty = empty
mask_ip-IsBytes ones (b ∷ ip) (byte h k) =
    let (pos, blocks) = powers ones in
    let r = byte_above (2 ^ host_bits ones) (2 ^ (8 - host_bits ones)) pos blocks b h in
    byte (omega arith) (mask_ip-IsBytes (ones - 8) ip k)

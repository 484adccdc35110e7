-- ===== src/Utils/Network/Increment.antt =====
-- `incIP` (Go/internal/utils/network.go) as a sum of numbers.
use share_hound.Prelude.{
  ℕ, ◌+◌, ◌*◌, ◌%◌, ◌<◌, ◌≡◌, refl, sym, ◌∙◌, subst, ◌⊎◌, inl, inr, Bool, true, false, [], ◌∷◌,
  ◌==◌, if◌then◌else◌, arith,
}
use native.Mathlib.Nat.{mul-le-mul_right, mod-eq_of_lt, mod_self}
use share_hound.Utils.Network.{Ip, inc_byte, inc_bytes, inc_ip}

-- Each byte is below 256.
pub data IsBytes : Ip → Type 0 where
  empty : IsBytes []
  byte : {b : ℕ} {ip : Ip} → b < 256 → IsBytes ip → IsBytes (b ∷ ip)

-- How many addresses there are of a length, and the number of an address.
unfoldable pub count : Ip → ℕ
count [] = 1
count (b ∷ ip) = 256 * count ip

unfoldable pub value : Ip → ℕ
unfolding count
value [] = 0
value (b ∷ ip) = b * count ip + value ip

pub inc_byte-count : (b : ℕ) (r : Ip × Bool) → count (inc_byte b r).0 ≡ 256 * count r.0
unfolding count inc_byte
inc_byte-count b (ip, false) = refl
inc_byte-count b (ip, true) = refl

pub inc_bytes-count : (ip : Ip) → count (inc_bytes ip).0 ≡ count ip
unfolding count inc_bytes
inc_bytes-count [] = refl
inc_bytes-count (b ∷ ip) = rw (inc_byte-count b (inc_bytes ip), inc_bytes-count ip) refl

next_byte : (b : ℕ) → b < 256 → ((b + 1) % 256 ≡ b + 1) ⊎ (b ≡ 255)
next_byte b h = ground arith

carry_sum :
    (b p v v' : ℕ)
    → b < 256
    → v' + p ≡ v + 1
    → (b + 1) % 256 * p + v' + (if (b + 1) % 256 == 0 then 256 * p else 0) ≡ b * p + v + 1
carry_sum b p v v' h e = elim (next_byte b h) [
  | inl q ↦ rw q (ground arith)
  | inr q ↦ rw q (omega arith)
]

-- One byte more than the bytes behind it.
inc_byte-value :
    (b p v : ℕ) (r : Ip × Bool)
    → b < 256
    → count r.0 ≡ p
    → value r.0 + (if r.1 then p else 0) ≡ v + 1
    → value (inc_byte b r).0 + (if (inc_byte b r).1 then 256 * p else 0) ≡ b * p + v + 1
unfolding value inc_byte
inc_byte-value b p v (ip, false) h c e = rw c (omega arith)
inc_byte-value b p v (ip, true) h c e = rw c (carry_sum b p v (value ip) h e)

pub inc_bytes-value :
    (ip : Ip)
    → IsBytes ip
    → value (inc_bytes ip).0 + (if (inc_bytes ip).1 then count ip else 0) ≡ value ip + 1
unfolding value count inc_bytes
inc_bytes-value [] empty = refl
inc_bytes-value (b ∷ ip) (byte h k) =
    inc_byte-value b (count ip) (value ip) (inc_bytes ip) h (inc_bytes-count ip)
      (inc_bytes-value ip k)

pub value_bounded : (ip : Ip) → IsBytes ip → value ip < count ip
unfolding value count
value_bounded [] empty = omega arith
value_bounded (b ∷ ip) (byte h k) =
    omega
      (arith, value_bounded ip k, mul-le-mul_right {m = b + 1} {n = 256} (count ip) (omega arith))

-- A sum with a carry is the next number, from 0 on after the last one.
carry_wraps :
    (v v' p : ℕ) (carry : Bool)
    → v < p
    → v' + (if carry then p else 0) ≡ v + 1
    → v' < p
    → v' ≡ (v + 1) % p
carry_wraps v v' p false h e k =
    let q : v' ≡ v + 1 = omega arith in q ∙ sym (mod-eq_of_lt (subst (λ n. n < p) q k))
carry_wraps v v' p true h e k = let q : v + 1 ≡ p = omega arith in rw (q, mod_self p) (omega arith)

inc_byte-IsBytes : (b : ℕ) (r : Ip × Bool) → b < 256 → IsBytes r.0 → IsBytes (inc_byte b r).0
unfolding inc_byte
inc_byte-IsBytes b (ip, false) h k = byte h k
inc_byte-IsBytes b (ip, true) h k = byte (omega arith) k

inc_bytes-IsBytes : (ip : Ip) → IsBytes ip → IsBytes (inc_bytes ip).0
unfolding inc_bytes
inc_bytes-IsBytes [] empty = empty
inc_bytes-IsBytes (b ∷ ip) (byte h k) = inc_byte-IsBytes b (inc_bytes ip) h (inc_bytes-IsBytes ip k)

pub inc_ip-IsBytes : (ip : Ip) → IsBytes ip → IsBytes (inc_ip ip)
unfolding inc_ip
inc_ip-IsBytes ip k = inc_bytes-IsBytes ip k

-- Incrementing an address adds 1 to its number, and 0.0.0.0 comes after 255.255.255.255.
pub inc_ip-value :
    (ip : Ip)
    → IsBytes ip
    → (value (inc_ip ip) ≡ (value ip + 1) % count ip)
      × (count (inc_ip ip) ≡ count ip)
      × IsBytes (inc_ip ip)
unfolding inc_ip
inc_ip-value ip k =
    let same = inc_bytes-count ip in
    let fine = inc_bytes-IsBytes ip k in
    (
      carry_wraps (value ip) (value (inc_bytes ip).0) (count ip) (inc_bytes ip).1
          (value_bounded ip k) (inc_bytes-value ip k)
          (subst (λ n. value (inc_bytes ip).0 < n) same (value_bounded (inc_bytes ip).0 fine)),
      same,
      fine,
    )

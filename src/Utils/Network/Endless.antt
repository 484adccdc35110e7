-- ===== src/Utils/Network/Endless.antt =====
-- The network of all addresses (Go/internal/utils/network.go).
use share_hound.Prelude.{
  ℕ, zero, suc, ◌-◌, ◌*◌, ◌/◌, ◌≡◌, refl, ap, ◌∙◌, Bool, true, false, [], ◌∷◌, some, length,
  replicate, arith,
}
use share_hound.Prelude.Outcome.{ok, err, ◌>>=◌}
use share_hound.Prelude.Text.{Text, eqb_refl}
use share_hound.Utils.Network.Increment.{IsBytes, empty, byte, inc_ip-IsBytes}
use share_hound.Utils.Network.Range.{mask_ip-IsBytes}
use share_hound.Utils.Network.{
  Ip, out_of_fuel, Net, mask_ip, contains, inc_byte, inc_bytes, inc_ip, addresses, without_ends,
  strings, expand, expand_cidr,
}

-- Behind a prefix of length 0 nothing is left of an address.
mask_ip-zero : (ip : Ip) → IsBytes ip → mask_ip 0 ip ≡ replicate (length ip) 0
unfolding mask_ip
mask_ip-zero [] empty = refl
mask_ip-zero (b ∷ ip) (byte h k) =
    let q : b / 256 * 256 ≡ 0 = omega arith in rw (q, mask_ip-zero ip k) refl

length-inc_byte : (b : ℕ) (r : Ip × Bool) → length (inc_byte b r).0 ≡ suc (length r.0)
unfolding inc_byte
length-inc_byte b (ip, false) = refl
length-inc_byte b (ip, true) = refl

length-inc_bytes : (ip : Ip) → length (inc_bytes ip).0 ≡ length ip
unfolding inc_bytes
length-inc_bytes [] = refl
length-inc_bytes (b ∷ ip) = length-inc_byte b (inc_bytes ip) ∙ ap suc (length-inc_bytes ip)

pub length-inc_ip : (ip : Ip) → length (inc_ip ip) ≡ length ip
unfolding inc_ip
length-inc_ip ip = length-inc_bytes ip

pub length-mask_ip : (ones : ℕ) (ip : Ip) → length (mask_ip ones ip) ≡ length ip
unfolding mask_ip
length-mask_ip ones [] = refl
length-mask_ip ones (b ∷ ip) = ap suc (length-mask_ip (ones - 8) ip)

contains-zero :
    (net ip : Ip) → IsBytes net → IsBytes ip → length ip ≡ length net → contains 0 net ip ≡ true
unfolding contains
contains-zero net ip k k' e =
    rw (mask_ip-zero net k, mask_ip-zero ip k', e) (eqb_refl (replicate (length net) 0))

addresses_endless :
    (fuel : ℕ) (net ip : Ip)
    → IsBytes net
    → IsBytes ip
    → length ip ≡ length net
    → addresses 0 net fuel ip ≡ err out_of_fuel
unfolding addresses
addresses_endless zero net ip k k' e = refl
addresses_endless (suc fuel) net ip k k' e =
    rw
      (
        contains-zero net ip k k' e,
        addresses_endless fuel net (inc_ip ip) k (inc_ip-IsBytes ip k') (length-inc_ip ip ∙ e),
      )
      refl

expand_endless :
    (net : Net) (fuel : ℕ) (ip : Ip) → IsBytes ip → expand net fuel (some (ip, 0)) ≡ err out_of_fuel
unfolding expand
expand_endless net fuel ip k =
    let base = mask_ip 0 ip in
    let h = mask_ip-IsBytes 0 ip k in
    ap (λ m. m >>= λ ips. ok (without_ends (strings net ips)))
      (addresses_endless fuel base base h h refl)

-- The loop over a network whose prefix has length 0, such as 0.0.0.0/0, does not end, with any fuel.
pub expand_cidr_endless :
    (net : Net) (fuel : ℕ) (cidr : Text) (ip : Ip)
    → net.parse_cidr cidr ≡ some (ip, 0)
    → IsBytes ip
    → expand_cidr net fuel cidr ≡ err out_of_fuel
unfolding expand_cidr
expand_cidr_endless net fuel cidr ip e k = ap (expand net fuel) e ∙ expand_endless net fuel ip k

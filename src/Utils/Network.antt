-- ===== src/Utils/Network.antt =====
-- Go/internal/utils/network.go: the addresses of a network. An address is the list of its bytes, most
-- significant first. `net.ParseCIDR` and `String` are parameters; `Mask`, `CIDRMask` and `Contains`
-- are written out.
use share_hound.Prelude.{
  ℕ, zero, suc, ◌+◌, ◌-◌, ◌*◌, ◌/◌, ◌%◌, ◌^◌, ◌<◌, ◌≡◌, refl, ap, Bool, true, false, List, [], ◌∷◌,
  Option, none, some, ltb, ◌==◌, if◌then◌else◌, length, take, drop, arith,
}
use share_hound.Prelude.Outcome.{Outcome, ok, err, panic, ◌>>=◌}
use share_hound.Prelude.Text.{Text, eqb}
pub mod Increment
pub mod Endless
pub mod Range
pub mod Listing

abbrev pub Ip : Type 0
Ip = List ℕ

pub data CidrError : Type 0 where
  not_a_network : CidrError
  out_of_fuel : CidrError

-- What the package `net` answers: the address and the length of the prefix, and the printed address.
pub record Net : Type 0 where
  pub parse_cidr : Text → Option (Ip × ℕ)
  pub ip_string : Ip → Text

-- The bits of one byte behind a prefix.
abbrev pub host_bits : ℕ → ℕ
host_bits ones = 8 - ones

-- `ip.Mask(net.CIDRMask(ones, 8 * len(ip)))`: the bits behind the prefix are cleared.
unfoldable pub mask_ip : ℕ → Ip → Ip
mask_ip ones [] = []
mask_ip ones (b ∷ ip) = let size = 2 ^ host_bits ones in b / size * size ∷ mask_ip (ones - 8) ip

-- `ipnet.Contains(ip)`, for an address of the same length that is no IPv4 address in 16 bytes: the callers
-- pass networks of 4 bytes.
unfoldable pub contains : ℕ → Ip → Ip → Bool
unfolding mask_ip eqb
contains ones net ip = eqb (mask_ip ones net) (mask_ip ones ip)

-- The increment of one byte, given what has become of the bytes behind it: its carry is whether the
-- loop goes on to the byte before.
unfoldable pub inc_byte : ℕ → Ip × Bool → Ip × Bool
inc_byte b (ip, false) = (b ∷ ip, false)
inc_byte b (ip, true) = let b' = (b + 1) % 256 in (b' ∷ ip, b' == 0)

unfoldable pub inc_bytes : Ip → Ip × Bool
unfolding inc_byte
inc_bytes [] = ([], true)
inc_bytes (b ∷ ip) = inc_byte b (inc_bytes ip)

-- `incIP`
unfoldable pub inc_ip : Ip → Ip
unfolding inc_bytes
inc_ip ip = (inc_bytes ip).0

-- The loop over the addresses of the network, given fuel.
unfoldable pub addresses : ℕ → Ip → ℕ → Ip → Outcome CidrError (List Ip)
unfolding contains inc_ip
addresses ones net zero ip = err out_of_fuel
addresses ones net (suc fuel) ip =
    let rest = addresses ones net fuel (inc_ip ip) in
    if contains ones net ip then (do ips ← rest; ok (ip ∷ ips)) else ok []

-- `ips[1 : len(ips)-1]` if there are more than two.
unfoldable pub without_ends : {A : Type 0} → List A → List A
without_ends ips = if ltb 2 (length ips) then take (length ips - 2) (drop 1 ips) else ips

unfoldable pub strings : Net → List Ip → List Text
strings net [] = []
strings net (ip ∷ ips) = net.ip_string ip ∷ strings net ips

-- `ExpandCIDR` behind the parser.
unfoldable pub expand : Net → ℕ → Option (Ip × ℕ) → Outcome CidrError (List Text)
unfolding addresses mask_ip without_ends strings
expand net fuel none = err not_a_network
expand net fuel (some (ip, ones)) =
    let base = mask_ip ones ip in
    addresses ones base fuel base >>= λ ips. ok (without_ends (strings net ips))

-- `ExpandCIDR`
unfoldable pub expand_cidr : Net → ℕ → Text → Outcome CidrError (List Text)
unfolding expand
expand_cidr net fuel cidr = expand net fuel (net.parse_cidr cidr)

-- ===== src/Utils/Tests.antt =====
-- Runs of Go/internal/utils/network.go, and its theorems at concrete addresses.
use share_hound.Prelude.{ℕ, ◌+◌, ◌%◌, ◌≡◌, refl, [], ◌∷◌, Option, none, some, arith}
use share_hound.Prelude.Outcome.{ok, err}
use share_hound.Prelude.Text.{codes}
use share_hound.Utils.Network.Endless.{expand_cidr_endless}
use share_hound.Utils.Network.Increment.{IsBytes, empty, byte, count, value, inc_ip-value}
use share_hound.Utils.Network.{Ip, not_a_network, out_of_fuel, Net, inc_ip, expand, expand_cidr}

-- The parser answers so, and an address is printed as its bytes.
abbrev answers : Option (Ip × ℕ) → Net
answers parsed = record { parse_cidr = λ cidr. parsed; ip_string = λ ip. ip }

abbrev small : Net
small = answers (some (10 ∷ 0 ∷ 0 ∷ 9 ∷ [], 30))

abbrev everything : Net
everything = answers (some (0 ∷ 0 ∷ 0 ∷ 0 ∷ [], 0))

carries : inc_ip (10 ∷ 0 ∷ 255 ∷ 255 ∷ []) ≡ 10 ∷ 1 ∷ 0 ∷ 0 ∷ []
unfolding inc_ip
carries = refl

wraps : inc_ip (255 ∷ 255 ∷ 255 ∷ 255 ∷ []) ≡ 0 ∷ 0 ∷ 0 ∷ 0 ∷ []
unfolding inc_ip
wraps = refl

four_addresses :
    expand_cidr small 5 (codes "10.0.0.9/30")
    ≡ ok ((10 ∷ 0 ∷ 0 ∷ 9 ∷ []) ∷ (10 ∷ 0 ∷ 0 ∷ 10 ∷ []) ∷ [])
unfolding expand_cidr
four_addresses = refl

two_addresses :
    expand small 3 (some (10 ∷ 0 ∷ 0 ∷ 9 ∷ [], 31))
    ≡ ok ((10 ∷ 0 ∷ 0 ∷ 8 ∷ []) ∷ (10 ∷ 0 ∷ 0 ∷ 9 ∷ []) ∷ [])
unfolding expand
two_addresses = refl

no_network : expand_cidr (answers none) 3 (codes "host") ≡ err not_a_network
unfolding expand_cidr
no_network = refl

inc_ip-value_example :
    (value (inc_ip (10 ∷ 255 ∷ [])) ≡ (value (10 ∷ 255 ∷ []) + 1) % count (10 ∷ 255 ∷ []))
    × (count (inc_ip (10 ∷ 255 ∷ [])) ≡ count (10 ∷ 255 ∷ []))
    × IsBytes (inc_ip (10 ∷ 255 ∷ []))
inc_ip-value_example = inc_ip-value (10 ∷ 255 ∷ []) (byte (omega arith) (byte (omega arith) empty))

all_zeros : IsBytes (0 ∷ 0 ∷ 0 ∷ 0 ∷ [])
all_zeros = byte (omega arith) (byte (omega arith) (byte (omega arith) (byte (omega arith) empty)))

expand_cidr_endless_example : expand_cidr everything 1000 (codes "0.0.0.0/0") ≡ err out_of_fuel
expand_cidr_endless_example =
    expand_cidr_endless everything 1000 (codes "0.0.0.0/0") (0 ∷ 0 ∷ 0 ∷ 0 ∷ []) refl all_zeros

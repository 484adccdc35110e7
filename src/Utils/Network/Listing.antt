-- ===== src/Utils/Network/Listing.antt =====
-- Which addresses `ExpandCIDR` (Go/internal/utils/network.go) lists.
use share_hound.Prelude.{ℕ, zero, suc, ◌+◌, List, [], ◌∷◌}
use share_hound.Prelude.Text.{Text}
use share_hound.Utils.Network.Increment.{IsBytes, value}
use share_hound.Utils.Network.{Ip, mask_ip}

-- `n` numbers from `v` on.
unfoldable pub up_from : ℕ → ℕ → List ℕ
up_from v zero = []
up_from v (suc n) = v ∷ up_from (v + 1) n

unfoldable pub values : List Ip → List ℕ
values [] = []
values (ip ∷ ips) = value ip ∷ values ips

module _ (ones : ℕ) (net : Ip) (k : IsBytes net) where
  abbrev base : Ip
  base = mask_ip ones net

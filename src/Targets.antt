-- ===== src/Targets.antt =====
-- Go/internal/targets/loader.go: the targets of a scan.
use share_hound.Prelude.Text.{Text}

-- `type` is "ipv4", "ipv6" or "fqdn".
pub record Target : Type 0 where
  pub type : Text
  pub value : Text

-- ===== src/Smb/Descriptor/Safety.antt =====
-- The parsers of Go/internal/smb/security_descriptor.go on any bytes: panics, and the number of entries.
use share_hound.Prelude.{
  ℕ, zero, suc, ◌+◌, ◌≡◌, refl, ◌≢◌, ◌≤◌, ◌<◌, List, arith, length, drop, replicate,
}
use share_hound.Prelude.Outcome.{ok, panic}
use share_hound.Smb.Bytes.{
  Bytes, slice_from, index-ne-panic, slice_from-ne-panic, uint16_at-ne-panic, uint32_at-ne-panic,
}
use share_hound.Smb.Descriptor.{
  Ace, Acl, AceError, AclError, DescriptorError, parse_ace_sid, parse_ace, parse_aces, parse_acl,
  sid_at, acl_at, parse_security_descriptor,
}
use share_hound.Smb.Sid.Parse.{parse_sid-ne-panic}

parse_ace_sid-ne-panic : (b : Bytes) → parse_ace_sid b ≢ panic
unfolding parse_ace_sid
parse_ace_sid-ne-panic b = grind (arith, slice_from-ne-panic {E = AceError} b 8, parse_sid-ne-panic)

parse_ace-ne-panic : (b : Bytes) → parse_ace b ≢ panic
unfolding parse_ace
parse_ace-ne-panic b = ground (
  arith,
  index-ne-panic {E = AceError} b 0,
  index-ne-panic {E = AceError} b 1,
  uint16_at-ne-panic {E = AceError} b 2,
  uint32_at-ne-panic {E = AceError} b 4,
  parse_ace_sid-ne-panic b,
)

parse_aces-ne-panic : (b : Bytes) (rounds offset : ℕ) → parse_aces b rounds offset ≢ panic
unfolding parse_aces
parse_aces-ne-panic b zero offset = λ e. cc
parse_aces-ne-panic b (suc rounds) offset = grind (
  arith,
  slice_from-ne-panic {E = AclError} b offset,
  parse_ace-ne-panic,
  parse_aces-ne-panic b rounds,
)

parse_acl-ne-panic : (b : Bytes) → parse_acl b ≢ panic
unfolding parse_acl
parse_acl-ne-panic b = grind (
  arith,
  index-ne-panic {E = AclError} b 0,
  index-ne-panic {E = AclError} b 1,
  uint16_at-ne-panic {E = AclError} b 2,
  uint16_at-ne-panic {E = AclError} b 4,
  uint16_at-ne-panic {E = AclError} b 6,
  parse_aces-ne-panic,
)

sid_at-ne-panic : (b : Bytes) (offset : ℕ) → sid_at b offset ≢ panic
unfolding sid_at
sid_at-ne-panic b offset =
    grind (arith, slice_from-ne-panic {E = DescriptorError} b offset, parse_sid-ne-panic)

acl_at-ne-panic : (b : Bytes) (offset control flag : ℕ) → acl_at b offset control flag ≢ panic
unfolding acl_at
acl_at-ne-panic b offset control flag =
    grind (arith, slice_from-ne-panic {E = DescriptorError} b offset, parse_acl-ne-panic)

-- `ParseSecurityDescriptor` never panics, on any bytes.
pub parse_security_descriptor-ne-panic : (b : Bytes) → parse_security_descriptor b ≢ panic
unfolding parse_security_descriptor
parse_security_descriptor-ne-panic b = grind (
  arith,
  index-ne-panic {E = DescriptorError} b 0,
  index-ne-panic {E = DescriptorError} b 1,
  uint16_at-ne-panic {E = DescriptorError} b 2,
  uint32_at-ne-panic {E = DescriptorError} b 4,
  uint32_at-ne-panic {E = DescriptorError} b 8,
  uint32_at-ne-panic {E = DescriptorError} b 12,
  uint32_at-ne-panic {E = DescriptorError} b 16,
  sid_at-ne-panic,
  acl_at-ne-panic,
)

-- What the loop returned has at most one entry for each round.
parse_aces-length :
    (b : Bytes) (rounds offset : ℕ) {aces : List Ace}
    → parse_aces b rounds offset ≡ ok aces
    → length aces ≤ rounds
unfolding parse_aces
parse_aces-length b zero offset e = ground arith
parse_aces-length b (suc rounds) offset {aces} e = grind (arith, parse_aces-length b rounds)

-- A list holds at most as many entries as its header counts.
pub parse_acl-length : (b : Bytes) {a : Acl} → parse_acl b ≡ ok a → length a.aces ≤ a.ace_count
unfolding parse_acl
parse_acl-length b {a} e = grind (arith, parse_aces-length)

parse_aces_zero_size :
    (b : Bytes) (n offset : ℕ) {a : Ace}
    → offset < length b
    → parse_ace (drop offset b) ≡ ok (a, 0)
    → parse_aces b n offset ≡ ok (replicate n a)
unfolding parse_aces slice_from
parse_aces_zero_size b zero offset h e = refl
parse_aces_zero_size b (suc n) offset h e =
    let stay : offset + 0 ≡ offset = omega arith in
    ground (arith, parse_aces_zero_size b n offset h e)

-- An entry that announces the size 0 is taken again and again: if the first entry of a list parses
-- with size 0, the list that is returned holds it as often as the header counts.
pub parse_acl_zero_size :
    (b : Bytes) {a : Acl} {entry : Ace}
    → 8 < length b
    → parse_acl b ≡ ok a
    → parse_ace (drop 8 b) ≡ ok (entry, 0)
    → a.aces ≡ replicate a.ace_count entry
unfolding parse_acl slice_from
parse_acl_zero_size b h e z = grind (arith, λ (n : ℕ). parse_aces_zero_size b n 8 h z)

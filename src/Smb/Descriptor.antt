-- ===== src/Smb/Descriptor.antt =====
-- Go/internal/smb/security_descriptor.go: the parsers of a self-relative security descriptor, of
-- an access control list and of its entries. `int` has 64 bits, so an offset converts exactly.
use share_hound.Prelude.{
  ℕ, zero, suc, ◌+◌, Bool, true, false, not, ◌&&◌, ◌||◌, List, [], ◌∷◌, Option, none, some, ltb,
  leb, ◌==◌, if◌then◌else◌, length, bit_and,
}
use share_hound.Prelude.Outcome.{Outcome, ok, err, panic, ◌>>=◌}
use share_hound.Smb.Bytes.{Bytes, index, slice_from, uint16_at, uint32_at}
use share_hound.Smb.Sid.{Sid, SidError, parse_sid}
pub mod Safety
pub mod RoundTrip
pub mod Layout
pub mod Decode

abbrev pub se_dacl_present : ℕ
se_dacl_present = 0x0004

abbrev pub se_sacl_present : ℕ
se_sacl_present = 0x0010

abbrev pub access_allowed_ace_type : ℕ
access_allowed_ace_type = 0x00

abbrev pub access_denied_ace_type : ℕ
access_denied_ace_type = 0x01

abbrev pub system_audit_ace_type : ℕ
system_audit_ace_type = 0x02

abbrev pub system_alarm_ace_type : ℕ
system_alarm_ace_type = 0x03

pub record Ace : Type 0 where
  pub ace_type : ℕ  -- uint8
  pub ace_flags : ℕ  -- uint8
  pub ace_size : ℕ  -- uint16
  pub mask : ℕ  -- uint32
  pub sid : Option Sid

pub record Acl : Type 0 where
  pub acl_revision : ℕ  -- uint8
  pub sbz1 : ℕ  -- uint8
  pub acl_size : ℕ  -- uint16
  pub ace_count : ℕ  -- uint16
  pub sbz2 : ℕ  -- uint16
  pub aces : List Ace

pub record SecurityDescriptor : Type 0 where
  pub revision : ℕ  -- uint8
  pub sbz1 : ℕ  -- uint8
  pub control : ℕ  -- uint16
  pub owner_sid : Option Sid
  pub group_sid : Option Sid
  pub sacl : Option Acl
  pub dacl : Option Acl

pub data AceError : Type 0 where
  header_too_short data_too_short too_short_for_mask : AceError

pub data AclError : Type 0 where
  acl_too_short : ℕ → AclError

pub data DescriptorError : Type 0 where
  descriptor_too_short : ℕ → DescriptorError

-- `x, err := f(); if err == nil { field = x }`: an error leaves the field nil.
abbrev pub if_no_error : {D E A : Type 0} → Outcome D A → Outcome E (Option A)
if_no_error (ok a) = ok (some a)
if_no_error (err e) = ok none
if_no_error panic = panic

-- The identifier behind the mask, if there are bytes for one.
unfoldable pub parse_ace_sid : Bytes → Outcome AceError (Option Sid)
parse_ace_sid b =
    if ltb 8 (length b) then (do d ← slice_from b 8; if_no_error (parse_sid d)) else ok none

-- The case of the switch for the standard types of entries.
abbrev is_standard : ℕ → Bool
is_standard t =
    t == access_allowed_ace_type
    || (t == access_denied_ace_type || (t == system_audit_ace_type || t == system_alarm_ace_type))

-- `ParseACE`
unfoldable pub parse_ace : Bytes → Outcome AceError (Ace × ℕ)
unfolding parse_ace_sid
parse_ace b = if ltb (length b) 4 then err header_too_short else do
  t ← index b 0
  flags ← index b 1
  sz ← uint16_at b 2
  let ace : Ace = record { ace_type = t; ace_flags = flags; ace_size = sz; mask = 0; sid = none }
  if ltb (length b) sz
      then err data_too_short
      else if not (is_standard t)
      then ok (ace, sz)
      else if ltb (length b) 8
      then err too_short_for_mask
      else do m ← uint32_at b 4; s ← parse_ace_sid b; ok (record ace { mask = m; sid = s }, sz)

-- The loop of `ParseACL` at `offset`, with the rounds that `AceCount` leaves.
unfoldable pub parse_aces : Bytes → ℕ → ℕ → Outcome AclError (List Ace)
parse_aces b zero offset = ok []
parse_aces b (suc rounds) offset = elim (ltb offset (length b)) [
  | false ↦ ok []
  | true ↦ do
    d ← slice_from b offset
    elim (parse_ace d) [
      | ok (ace, sz) ↦ do rest ← parse_aces b rounds (offset + sz); ok (ace ∷ rest)
      | err e ↦ ok []
      | panic ↦ panic
    ]
]

-- `ParseACL`
unfoldable pub parse_acl : Bytes → Outcome AclError Acl
parse_acl b = if ltb (length b) 8 then err (acl_too_short (length b)) else do
  revision ← index b 0
  sbz1 ← index b 1
  acl_size ← uint16_at b 2
  ace_count ← uint16_at b 4
  sbz2 ← uint16_at b 6
  aces ← parse_aces b ace_count 8
  ok (record {
    acl_revision = revision;
    sbz1 = sbz1;
    acl_size = acl_size;
    ace_count = ace_count;
    sbz2 = sbz2;
    aces = aces;
  })

-- The owner or the group at an offset of the descriptor.
unfoldable pub sid_at : Bytes → ℕ → Outcome DescriptorError (Option Sid)
sid_at b offset =
    if ltb 0 offset && ltb offset (length b)
    then (do d ← slice_from b offset; if_no_error (parse_sid d))
    else ok none

-- A list at an offset of the descriptor, if its flag is set in the control word.
unfoldable pub acl_at : Bytes → ℕ → ℕ → ℕ → Outcome DescriptorError (Option Acl)
acl_at b offset control flag =
    if ltb 0 offset && (not (bit_and control flag == 0) && ltb offset (length b))
    then (do d ← slice_from b offset; if_no_error (parse_acl d))
    else ok none

-- `ParseSecurityDescriptor`
unfoldable pub parse_security_descriptor : Bytes → Outcome DescriptorError SecurityDescriptor
parse_security_descriptor b =
    if ltb (length b) 20 then err (descriptor_too_short (length b)) else do
      revision ← index b 0
      sbz1 ← index b 1
      control ← uint16_at b 2
      offset_owner ← uint32_at b 4
      offset_group ← uint32_at b 8
      offset_sacl ← uint32_at b 12
      offset_dacl ← uint32_at b 16
      owner ← sid_at b offset_owner
      group ← sid_at b offset_group
      sacl ← acl_at b offset_sacl control se_sacl_present
      dacl ← acl_at b offset_dacl control se_dacl_present
      ok (record {
        revision = revision;
        sbz1 = sbz1;
        control = control;
        owner_sid = owner;
        group_sid = group;
        sacl = sacl;
        dacl = dacl;
      })

-- `(*ACE).IsAccessAllowed`
unfoldable pub is_access_allowed : Ace → Bool
is_access_allowed a = a.ace_type == access_allowed_ace_type

-- `(*ACE).IsAccessDenied`
unfoldable pub is_access_denied : Ace → Bool
is_access_denied a = a.ace_type == access_denied_ace_type

-- `(*ACE).HasMask`
unfoldable pub has_mask : Ace → ℕ → Bool
has_mask a flag = not (bit_and a.mask flag == 0)

-- ===== src/Collector/Tests.antt =====
-- Rights from one small DACL, and the theorems of Go/internal/collector on it.
use share_hound.Smb.Sid.Decimal.{decimal}
use mathlib.Core.List.{reverse, reverse_perm}
use share_hound.Collector.Rights.Exact.{collect_ntfs_rights_exact, collect_share_rights_exact}
use share_hound.Collector.Rights.{rights_of, collect_ntfs_rights, collect_share_rights}
use share_hound.Kinds.{edge_kind_can_share_read, edge_kind_can_ntfs_read_data}
use share_hound.Prelude.{◌≡◌, true, [], ◌∷◌, none, some}
use share_hound.Prelude.Outcome.{ok, ◌>>=◌}
use share_hound.Prelude.Text.{codes, elem, eqb}
use share_hound.Smb.AccessMask.{share_rights_mapping, ntfs_rights_mapping}
use share_hound.Smb.Bytes.{
  Bytes, index, uint16_at, slice, le_uint16, uint32_at, le_uint32, slice_from,
}
use share_hound.Smb.Descriptor.{
  SecurityDescriptor, is_access_allowed, parse_security_descriptor, sid_at, acl_at, parse_acl,
  parse_aces, parse_ace, parse_ace_sid,
}
use share_hound.Smb.Sid.{
  Sid, ident_auth_from, string, sub_authority_strings, parse_sid, parse_sub_authorities,
}

abbrev everyone : Sid
everyone = record {
  revision = 1;
  sub_authority_count = 1;
  identifier_authority = 0 ∷ 0 ∷ 0 ∷ 0 ∷ 0 ∷ 1 ∷ [];
  sub_authorities = 0 ∷ [];
}

-- Everything denied and reading allowed: the denying entry counts for nothing.
abbrev denied_and_read : SecurityDescriptor
denied_and_read = record {
  revision = 1;
  sbz1 = 0;
  control = 0x8004;
  owner_sid = none;
  group_sid = none;
  sacl = none;
  dacl = some (record {
    acl_revision = 2;
    sbz1 = 0;
    acl_size = 48;
    ace_count = 2;
    sbz2 = 0;
    aces =
        record { ace_type = 1; ace_flags = 0; ace_size = 20; mask = 0x1f01ff; sid = some everyone }
        ∷ record { ace_type = 0; ace_flags = 0; ace_size = 20; mask = 1; sid = some everyone }
        ∷ [];
  });
}

abbrev denied_and_read_bytes : Bytes
denied_and_read_bytes =
    1 ∷ 0 ∷ 4 ∷ 128 ∷ 0 ∷ 0 ∷ 0 ∷ 0 ∷ 0 ∷ 0 ∷ 0 ∷ 0 ∷ 0 ∷ 0 ∷ 0 ∷ 0 ∷ 20 ∷ 0 ∷ 0 ∷ 0 ∷ 2 ∷ 0 ∷ 48
    ∷ 0 ∷ 2 ∷ 0 ∷ 0 ∷ 0 ∷ 1 ∷ 0 ∷ 20 ∷ 0 ∷ 255 ∷ 1 ∷ 31 ∷ 0 ∷ 1 ∷ 1 ∷ 0 ∷ 0 ∷ 0 ∷ 0 ∷ 0 ∷ 1 ∷ 0 ∷ 0
    ∷ 0 ∷ 0 ∷ 0 ∷ 0 ∷ 20 ∷ 0 ∷ 1 ∷ 0 ∷ 0 ∷ 0 ∷ 1 ∷ 1 ∷ 0 ∷ 0 ∷ 0 ∷ 0 ∷ 0 ∷ 1 ∷ 0 ∷ 0 ∷ 0 ∷ 0 ∷ []

collect_ntfs_rights_exact_example :
    elem edge_kind_can_ntfs_read_data (
      rights_of
        (codes "S-1-1-0")
        (collect_ntfs_rights (λ i. reverse ntfs_rights_mapping) (some denied_and_read)))
    ≡ true
unfolding is_access_allowed eqb string decimal ident_auth_from sub_authority_strings
collect_ntfs_rights_exact_example =
    collect_ntfs_rights_exact (λ i. reverse ntfs_rights_mapping) denied_and_read (codes "S-1-1-0")
      edge_kind_can_ntfs_read_data (λ i. reverse_perm ntfs_rights_mapping)

collect_share_rights_exact_example :
    (do
      rights ←
          collect_share_rights
            (λ i. reverse share_rights_mapping)
            (some [])
            (some denied_and_read_bytes)
      ok (elem edge_kind_can_share_read (rights_of (codes "S-1-1-0") rights)))
    ≡ ok true
unfolding parse_security_descriptor index uint16_at slice le_uint16 uint32_at le_uint32 sid_at
    acl_at slice_from parse_acl parse_aces parse_ace parse_ace_sid parse_sid parse_sub_authorities
    is_access_allowed eqb string decimal ident_auth_from sub_authority_strings
collect_share_rights_exact_example =
    collect_share_rights_exact (λ i. reverse share_rights_mapping) (some [])
      (some denied_and_read_bytes) (codes "S-1-1-0") edge_kind_can_share_read
      (λ i. reverse_perm share_rights_mapping)

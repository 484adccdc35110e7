-- ===== src/Smb/Tests.antt =====
-- Descriptors as a file server sends them, and the theorems of Go/internal/smb on them.
use share_hound.Smb.Sid.Decimal.{decimal}
use mathlib.Core.List.{reverse, reverse_perm}
use share_hound.Prelude.{◌≡◌, ◌≢◌, refl, List, [], ◌∷◌, ◌++◌, none, some, arith, All, replicate}
use share_hound.Kinds.{edge_kind_can_effective_read, edge_kind_can_effective_execute}
use share_hound.Prelude.Outcome.{ok, panic}
use share_hound.Prelude.Text.{Text, codes, elem-append}
use share_hound.Smb.AccessMask.Effective.{effective_rights_of_masks, Includes}
use share_hound.Smb.AccessMask.{
  share_rights_mapping, ntfs_rights_mapping, rights_for_mask, compute_effective_rights,
}
use share_hound.Smb.Bytes.{
  Bytes, IsByte, index, le_uint16, le_uint32, put_uint32, slice, slice_from, uint16_at, uint32_at,
}
use share_hound.Smb.Descriptor.Decode.{parse_security_descriptor-encode_descriptor}
use share_hound.Smb.Descriptor.Layout.{IsStored, IsLaidOut, encode_descriptor}
use share_hound.Smb.Descriptor.Safety.{parse_security_descriptor-ne-panic, parse_acl_zero_size}
use share_hound.Smb.Descriptor.{
  Ace, Acl, SecurityDescriptor, parse_ace, parse_acl, parse_security_descriptor, parse_aces,
}
use share_hound.Smb.Sid.Canonical.{string_injective}
use share_hound.Smb.Sid.Parse.{
  IsWellFormed, encode_sid, parse_sid-encode_sid, parse_sid-inverse, put_sub_authorities,
}
use share_hound.Smb.Sid.{
  Sid, parse_sid, string, size, ident_auth_from, parse_sub_authorities, sub_authority_strings,
}

abbrev everyone : Sid
everyone = record {
  revision = 1;
  sub_authority_count = 1;
  identifier_authority = 0 ∷ 0 ∷ 0 ∷ 0 ∷ 0 ∷ 1 ∷ [];
  sub_authorities = 0 ∷ [];
}

abbrev everyone_bytes : Bytes
everyone_bytes = 1 ∷ 1 ∷ 0 ∷ 0 ∷ 0 ∷ 0 ∷ 0 ∷ 1 ∷ 0 ∷ 0 ∷ 0 ∷ 0 ∷ []

everyone-IsWellFormed : IsWellFormed everyone
everyone-IsWellFormed = record {
  revision_byte = omega arith;
  count_byte = omega arith;
  authority_length = refl;
  authority_bytes =
      (omega arith, (omega arith, (omega arith, (omega arith, (omega arith, (omega arith, tt))))));
  count_exact = refl;
  sub_authority_words = (omega arith, tt);
}

string-everyone : string everyone ≡ codes "S-1-1-0"
unfolding string decimal ident_auth_from sub_authority_strings
string-everyone = refl

parse_sid-encode_sid_example : parse_sid (encode_sid everyone ++ (7 ∷ [])) ≡ ok everyone
parse_sid-encode_sid_example = parse_sid-encode_sid everyone (7 ∷ []) everyone-IsWellFormed

parse_everyone : parse_sid everyone_bytes ≡ ok everyone
unfolding parse_sid index slice parse_sub_authorities uint32_at le_uint32
parse_everyone = refl

everyone_bytes-IsByte : All IsByte everyone_bytes
everyone_bytes-IsByte = (
  omega arith,
  (
    omega arith,
    (
      omega arith,
      (
        omega arith,
        (
          omega arith,
          (
            omega arith,
            (
              omega arith,
              (omega arith, (omega arith, (omega arith, (omega arith, (omega arith, tt))))),
            ),
          ),
        ),
      ),
    ),
  ),
)

parse_sid-inverse_example : IsWellFormed everyone × (everyone_bytes ≡ encode_sid everyone ++ [])
unfolding size
parse_sid-inverse_example = parse_sid-inverse everyone_bytes everyone_bytes-IsByte parse_everyone

string_injective_example : everyone ≡ everyone
string_injective_example =
    string_injective everyone everyone everyone-IsWellFormed everyone-IsWellFormed refl

-- Full control for everyone.
abbrev full_control : Ace
full_control = record {
  ace_type = 0;
  ace_flags = 3;
  ace_size = 20;
  mask = 0x1f01ff;
  sid = some everyone;
}

abbrev full_control_list : Acl
full_control_list = record {
  acl_revision = 2;
  sbz1 = 0;
  acl_size = 28;
  ace_count = 1;
  sbz2 = 0;
  aces = full_control ∷ [];
}

abbrev stored : List (Ace × Sid)
stored = (full_control, everyone) ∷ []

full_control_list-IsStored : IsStored full_control_list stored
unfolding size
full_control_list-IsStored = record {
  same_aces = refl;
  counted = refl;
  standard = (
    record {
      standard = refl;
      carries = refl;
      well_formed = everyone-IsWellFormed;
      mask_word = omega arith;
      size_exact = refl;
      size_half = omega arith;
    },
    tt,
  );
  size_half = omega arith;
  count_half = omega arith;
  sbz2_half = omega arith;
}

abbrev shared : SecurityDescriptor
shared = record {
  revision = 1;
  sbz1 = 0;
  control = 0x8004;
  owner_sid = some everyone;
  group_sid = none;
  sacl = none;
  dacl = some full_control_list;
}

shared-IsLaidOut : IsLaidOut shared [] stored
unfolding encode_sid put_sub_authorities put_uint32
shared-IsLaidOut = record {
  control_half = omega arith;
  owner_fits = everyone-IsWellFormed;
  group_fits = tt;
  sacl_fits = tt;
  dacl_fits = (full_control_list-IsStored, refl);
  total_word = omega arith;
}

parse_security_descriptor-ne-panic_example :
    parse_security_descriptor (encode_descriptor shared [] stored) ≢ panic
parse_security_descriptor-ne-panic_example =
    parse_security_descriptor-ne-panic (encode_descriptor shared [] stored)

parse_security_descriptor-encode_descriptor_example :
    parse_security_descriptor (encode_descriptor shared [] stored ++ (0 ∷ [])) ≡ ok shared
parse_security_descriptor-encode_descriptor_example =
    parse_security_descriptor-encode_descriptor shared [] stored (0 ∷ []) shared-IsLaidOut

-- A list whose header counts three entries, and whose only entry announces the size 0.
abbrev stuck_bytes : Bytes
stuck_bytes = 2 ∷ 0 ∷ 16 ∷ 0 ∷ 3 ∷ 0 ∷ 0 ∷ 0 ∷ 9 ∷ 0 ∷ 0 ∷ 0 ∷ []

abbrev stuck_entry : Ace
stuck_entry = record { ace_type = 9; ace_flags = 0; ace_size = 0; mask = 0; sid = none }

abbrev stuck_list : Acl
stuck_list = record {
  acl_revision = 2;
  sbz1 = 0;
  acl_size = 16;
  ace_count = 3;
  sbz2 = 0;
  aces = stuck_entry ∷ stuck_entry ∷ stuck_entry ∷ [];
}

parse_stuck : parse_acl stuck_bytes ≡ ok stuck_list
unfolding parse_acl index uint16_at slice le_uint16 parse_aces slice_from parse_ace
parse_stuck = refl

parse_stuck_entry : parse_ace (9 ∷ 0 ∷ 0 ∷ 0 ∷ []) ≡ ok (stuck_entry, 0)
unfolding parse_ace index uint16_at slice le_uint16
parse_stuck_entry = refl

parse_acl_zero_size_example : stuck_list.aces ≡ replicate 3 stuck_entry
parse_acl_zero_size_example =
    parse_acl_zero_size stuck_bytes {a = stuck_list} {entry = stuck_entry} (omega arith) parse_stuck
      parse_stuck_entry

-- Read and execute on the share, everything on the file.
effective_rights_of_masks_example :
    compute_effective_rights
      (rights_for_mask (reverse share_rights_mapping) 0x1200a9)
      (rights_for_mask (reverse ntfs_rights_mapping) 0x1f01ff)
    ≡ edge_kind_can_effective_read ∷ edge_kind_can_effective_execute ∷ []
effective_rights_of_masks_example =
    effective_rights_of_masks (reverse share_rights_mapping) (reverse ntfs_rights_mapping) 0x1200a9
      0x1f01ff (reverse_perm share_rights_mapping) (reverse_perm ntfs_rights_mapping)

more-Includes : (ks more : List Text) → Includes ks (ks ++ more)
more-Includes ks more k e = ground (arith, elem-append k ks more)

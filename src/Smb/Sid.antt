-- ===== src/Smb/Sid.antt =====
-- Go/internal/smb/sid.go: security identifiers, their binary form and their string form.
use share_hound.Prelude.{
  ℕ, zero, suc, ◌+◌, ◌-◌, ◌*◌, ◌/◌, ◌%◌, ◌^◌, ◌≡◌, refl, Bool, true, false, ◌||◌, List, [], ◌∷◌,
  ◌++◌, ltb, if◌then◌else◌, length, bit_or,
}
use share_hound.Prelude.Outcome.{Outcome, ok, err, ◌>>=◌}
use share_hound.Prelude.Text.{Text, codes, eqb, has_prefix}
use share_hound.Smb.Bytes.{Bytes, index, slice, uint32_at}
pub mod Decimal
pub mod Parse
pub mod Canonical
use Decimal.{decimal}

pub record Sid : Type 0 where
  pub revision : ℕ  -- uint8
  pub sub_authority_count : ℕ  -- uint8
  pub identifier_authority : List ℕ  -- [6]byte
  pub sub_authorities : List ℕ  -- []uint32

pub data SidError : Type 0 where
  too_short : ℕ → SidError
  too_short_for_sub_authorities : ℕ → SidError

-- The loop of `ParseSID` from index `i`, with the rounds that are left.
unfoldable pub parse_sub_authorities : Bytes → ℕ → ℕ → Outcome SidError (List ℕ)
parse_sub_authorities data' zero i = ok []
parse_sub_authorities data' (suc rounds) i = do
  sa ← uint32_at data' (8 + i * 4)
  rest ← parse_sub_authorities data' rounds (i + 1)
  ok (sa ∷ rest)

unfoldable pub parse_sid : Bytes → Outcome SidError Sid
parse_sid data' = if ltb (length data') 8 then err (too_short (length data')) else do
  revision ← index data' 0
  count ← index data' 1
  authority ← slice data' 2 8
  if ltb (length data') (8 + count * 4) then err (too_short_for_sub_authorities count) else do
    subs ← parse_sub_authorities data' count 0
    ok (record {
      revision = revision;
      sub_authority_count = count;
      identifier_authority = authority;
      sub_authorities = subs;
    })

-- `identAuth = (identAuth << 8) | uint64(b)`, over the bytes of the authority
unfoldable pub ident_auth_from : ℕ → List ℕ → ℕ
ident_auth_from acc [] = acc
ident_auth_from acc (b ∷ bs) = ident_auth_from (bit_or (acc * 2 ^ 8 % 2 ^ 64) b) bs

-- `for _, sa := range s.SubAuthorities { sb.WriteString(fmt.Sprintf("-%d", sa)) }`
unfoldable pub sub_authority_strings : List ℕ → Text
sub_authority_strings [] = []
sub_authority_strings (sa ∷ sas) = b'-' ∷ (decimal sa ++ sub_authority_strings sas)

-- `(*SID).String`; the receiver is not nil.
unfoldable pub string : Sid → Text
string s =
    codes "S-"
    ++ (decimal s.revision
        ++ (b'-'
            ∷ (decimal (ident_auth_from 0 s.identifier_authority)
                ++ sub_authority_strings s.sub_authorities)))

-- `(*SID).Size`
unfoldable pub size : Sid → ℕ
size s = 8 + s.sub_authority_count * 4

-- `(*SID).IsWellKnown`
unfoldable pub is_well_known : Sid → Bool
is_well_known s =
    let str = string s in
    has_prefix str (codes "S-1-5-32-")
    || (eqb str (codes "S-1-5-18") || (eqb str (codes "S-1-5-19") || eqb str (codes "S-1-5-20")))

-- `IsDomainSID`
unfoldable pub is_domain_sid : Text → Bool
is_domain_sid sid = has_prefix sid (codes "S-1-5-21-")

-- `(*SID).IsEveryone`
unfoldable pub is_everyone : Sid → Bool
is_everyone s = eqb (string s) (codes "S-1-1-0")

-- `(*SID).IsBuiltinAdministrators`
unfoldable pub is_builtin_administrators : Sid → Bool
is_builtin_administrators s = eqb (string s) (codes "S-1-5-32-544")

-- `(*SID).IsLocalSystem`
unfoldable pub is_local_system : Sid → Bool
is_local_system s = eqb (string s) (codes "S-1-5-18")

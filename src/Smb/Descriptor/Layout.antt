-- ===== src/Smb/Descriptor/Layout.antt =====
-- `ParseSecurityDescriptor` on the bytes that the wire format prescribes: a header of 20 bytes, and
-- behind it the owner, the group, the SACL and the DACL, each of them optional.
use share_hound.Prelude.{
  ℕ, ◌+◌, ◌^◌, ◌≤◌, ◌<◌, ◌≡◌, refl, ap, false, List, [], ◌∷◌, ◌++◌, Option, none, some, arith, ◌==◌,
  length, length-append, bit_and,
}
use share_hound.Prelude.Outcome.{ok}
use share_hound.Smb.Bytes.{
  Bytes, index, slice_from, uint16_at, put_uint16, put_uint32, uint16_at-append, slice_from-append,
}
use share_hound.Smb.Descriptor.RoundTrip.{entries, AllStandard, encode_aces, parse_aces-encode_aces}
use share_hound.Smb.Descriptor.{
  Ace, Acl, SecurityDescriptor, AclError, DescriptorError, se_dacl_present, se_sacl_present,
  parse_aces, parse_acl, sid_at, acl_at,
}
use share_hound.Smb.Sid.Parse.{IsWellFormed, encode_sid, length-encode_sid, parse_sid-encode_sid}
use share_hound.Smb.Sid.{Sid, size}

-- A list as it is stored: its entries are standard, and its header counts them.
pub record IsStored (a : Acl) (es : List (Ace × Sid)) : Type 0 where
  pub same_aces : a.aces ≡ entries es
  pub counted : length es ≡ a.ace_count
  pub standard : AllStandard es
  pub size_half : a.acl_size < 2 ^ 16
  pub count_half : a.ace_count < 2 ^ 16
  pub sbz2_half : a.sbz2 < 2 ^ 16

unfoldable pub encode_acl : Acl → List (Ace × Sid) → Bytes
encode_acl a es =
    a.acl_revision
    ∷ a.sbz1
    ∷ (put_uint16 a.acl_size ++ (put_uint16 a.ace_count ++ (put_uint16 a.sbz2 ++ encode_aces es)))

length-encode_acl : (a : Acl) (es : List (Ace × Sid)) → 8 ≤ length (encode_acl a es)
unfolding encode_acl put_uint16
length-encode_acl a es = omega arith

-- `ParseACL` reads back a list of standard entries whose header counts them, whatever bytes follow it.
pub parse_acl-encode_acl :
    (a : Acl) (es : List (Ace × Sid)) (post : Bytes)
    → IsStored a es
    → parse_acl (encode_acl a es ++ post) ≡ ok a
unfolding parse_acl encode_acl index put_uint16
parse_acl-encode_acl a es post h =
    let body = encode_aces es ++ post in
    let h4 : Bytes = a.acl_revision ∷ a.sbz1 ∷ put_uint16 a.acl_size in
    let h6 : Bytes = h4 ++ put_uint16 a.ace_count in
    let h8 : Bytes = h6 ++ put_uint16 a.sbz2 in
    let d : Bytes = h8 ++ body in
    let long : 8 ≤ length d = omega arith in
    let size_read : uint16_at {E = AclError} d 2 ≡ ok a.acl_size =
      uint16_at-append (a.acl_revision ∷ a.sbz1 ∷ []) _ a.acl_size refl h.size_half in
    let count_read : uint16_at {E = AclError} d 4 ≡ ok a.ace_count =
      uint16_at-append h4 (put_uint16 a.sbz2 ++ body) a.ace_count refl h.count_half in
    let sbz2_read : uint16_at {E = AclError} d 6 ≡ ok a.sbz2 =
      uint16_at-append h6 body a.sbz2 refl h.sbz2_half in
    let aces_read : parse_aces d a.ace_count 8 ≡ ok (entries es) =
      rw h.counted at (parse_aces-encode_aces es d h8 post 8 refl refl h.standard) in
    ground (arith, h.same_aces)

-- A part of the descriptor, and the offset that the header gives for it.
abbrev pub part : {A : Type 0} → (A → Bytes) → Option A → Bytes
part f none = []
part f (some a) = f a

abbrev pub offset_of : {A : Type 0} → Option A → ℕ → ℕ
offset_of none position = 0
offset_of (some a) position = position

abbrev pub SidFits : Option Sid → Type 0
SidFits none = Unit
SidFits (some s) = IsWellFormed s

-- A list that is there has its flag set in the control word.
abbrev pub AclFits : Option Acl → List (Ace × Sid) → ℕ → ℕ → Type 0
AclFits none es control flag = Unit
AclFits (some a) es control flag = IsStored a es × ((bit_and control flag == 0) ≡ false)

module _ (d pre post : Bytes) (position : ℕ) (stands : position ≡ length pre)
    (positive : 0 < position) where
  pub sid_at-part :
      (o : Option Sid)
      → d ≡ pre ++ (part encode_sid o ++ post)
      → SidFits o
      → sid_at d (offset_of o position) ≡ ok o
  unfolding sid_at size
  sid_at-part none e h = refl
  sid_at-part (some s) e h =
      let body = encode_sid s ++ post in
      let here : slice_from {E = DescriptorError} d position ≡ ok body =
        rw e (slice_from-append pre body stands) in
      let inside : position < length d = omega (
        arith,
        ap length e,
        length-append pre body,
        length-append (encode_sid s) post,
        length-encode_sid s h,
      ) in
      let read = parse_sid-encode_sid s post h in ground arith

  pub acl_at-part :
      (o : Option Acl) (es : List (Ace × Sid)) (control flag : ℕ)
      → d ≡ pre ++ (part (λ a. encode_acl a es) o ++ post)
      → AclFits o es control flag
      → acl_at d (offset_of o position) control flag ≡ ok o
  unfolding acl_at
  acl_at-part none es control flag e h = refl
  acl_at-part (some a) es control flag e (stored, flagged) =
      let body = encode_acl a es ++ post in
      let here : slice_from {E = DescriptorError} d position ≡ ok body =
        rw e (slice_from-append pre body stands) in
      let inside : position < length d = omega (
        arith,
        ap length e,
        length-append pre body,
        length-append (encode_acl a es) post,
        length-encode_acl a es,
      ) in
      let read = parse_acl-encode_acl a es post stored in ground arith

-- The header: revision, padding, control word and the four offsets.
abbrev pub header : ℕ → ℕ → ℕ → ℕ → ℕ → ℕ → ℕ → Bytes
header revision sbz1 control owner group sacl dacl =
    revision
    ∷ sbz1
    ∷ (put_uint16 control
        ++ (put_uint32 owner ++ (put_uint32 group ++ (put_uint32 sacl ++ put_uint32 dacl))))

-- The bytes of a descriptor whose SACL holds the entries `ss` and whose DACL the entries `ds`.
module _ (sd : SecurityDescriptor) (ss ds : List (Ace × Sid)) where
  abbrev pub owner_part : Bytes
  owner_part = part encode_sid sd.owner_sid

  abbrev pub group_part : Bytes
  group_part = part encode_sid sd.group_sid

  abbrev pub sacl_part : Bytes
  sacl_part = part (λ a. encode_acl a ss) sd.sacl

  abbrev pub dacl_part : Bytes
  dacl_part = part (λ a. encode_acl a ds) sd.dacl

  abbrev pub sacl_position : ℕ
  sacl_position = 20 + length owner_part + length group_part

  abbrev pub dacl_position : ℕ
  dacl_position = sacl_position + length sacl_part

  abbrev pub full_header : Bytes
  full_header =
      header sd.revision sd.sbz1 sd.control (offset_of sd.owner_sid 20)
        (offset_of sd.group_sid (20 + length owner_part)) (offset_of sd.sacl sacl_position)
        (offset_of sd.dacl dacl_position)

  unfoldable pub encode_descriptor : Bytes
  encode_descriptor = full_header ++ (owner_part ++ (group_part ++ (sacl_part ++ dacl_part)))

  pub record IsLaidOut : Type 0 where
    pub control_half : sd.control < 2 ^ 16
    pub owner_fits : SidFits sd.owner_sid
    pub group_fits : SidFits sd.group_sid
    pub sacl_fits : AclFits sd.sacl ss sd.control se_sacl_present
    pub dacl_fits : AclFits sd.dacl ds sd.control se_dacl_present
    pub total_word : dacl_position < 2 ^ 32

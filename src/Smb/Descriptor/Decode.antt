-- ===== src/Smb/Descriptor/Decode.antt =====
-- `ParseSecurityDescriptor` (Go/internal/smb/security_descriptor.go) after the encoder of Layout.
use mathlib.Core.List.{append_assoc}
use share_hound.Prelude.{
  ℕ, ◌+◌, ◌^◌, ◌≤◌, ◌<◌, ◌≡◌, refl, sym, List, [], ◌∷◌, ◌++◌, Option, none, some, arith, length,
  length-append,
}
use share_hound.Prelude.Outcome.{ok}
use share_hound.Smb.Bytes.{
  Bytes, index, uint16_at, uint32_at, put_uint16, put_uint32, uint16_at-append, uint32_at-append,
}
use share_hound.Smb.Descriptor.Layout.{
  offset_of, header, owner_part, group_part, sacl_part, dacl_part, sacl_position, dacl_position,
  full_header, encode_descriptor, IsLaidOut, sid_at-part, acl_at-part,
}
use share_hound.Smb.Descriptor.{
  Ace, SecurityDescriptor, DescriptorError, se_dacl_present, se_sacl_present, sid_at, acl_at,
  parse_security_descriptor,
}
use share_hound.Smb.Sid.{Sid}

offset-le : {A : Type 0} (o : Option A) (n : ℕ) → offset_of o n ≤ n
offset-le none n = omega arith
offset-le (some a) n = omega arith

-- The fields of the header are read back from it.
module _ (r z c o g s t : ℕ) (body : Bytes) where
  abbrev headed : Bytes
  headed = header r z c o g s t ++ body

  read_header :
      c < 2 ^ 16
      → o < 2 ^ 32
      → g < 2 ^ 32
      → s < 2 ^ 32
      → t < 2 ^ 32
      → (uint16_at {E = DescriptorError} headed 2 ≡ ok c)
        × (uint32_at {E = DescriptorError} headed 4 ≡ ok o)
        × (uint32_at {E = DescriptorError} headed 8 ≡ ok g)
        × (uint32_at {E = DescriptorError} headed 12 ≡ ok s)
        × (uint32_at {E = DescriptorError} headed 16 ≡ ok t)
  unfolding put_uint16 put_uint32
  read_header hc ho hg hs ht =
      let h4 : Bytes = r ∷ z ∷ put_uint16 c in
      let h8 : Bytes = h4 ++ put_uint32 o in
      let h12 : Bytes = h8 ++ put_uint32 g in
      let h16 : Bytes = h12 ++ put_uint32 s in
      let tail = put_uint32 t ++ body in
      (
        uint16_at-append (r ∷ z ∷ []) _ c refl hc,
        uint32_at-append h4 (put_uint32 g ++ (put_uint32 s ++ tail)) o refl ho,
        uint32_at-append h8 (put_uint32 s ++ tail) g refl hg,
        uint32_at-append h12 tail s refl hs,
        uint32_at-append h16 body t refl ht,
      )

  length-headed : length headed ≡ 20 + length body
  unfolding put_uint16 put_uint32
  length-headed = omega arith

  parse_headed :
      (sd : SecurityDescriptor)
      → c < 2 ^ 16
      → o < 2 ^ 32
      → g < 2 ^ 32
      → s < 2 ^ 32
      → t < 2 ^ 32
      → sd.revision ≡ r
      → sd.sbz1 ≡ z
      → sd.control ≡ c
      → sid_at headed o ≡ ok sd.owner_sid
      → sid_at headed g ≡ ok sd.group_sid
      → acl_at headed s c se_sacl_present ≡ ok sd.sacl
      → acl_at headed t c se_dacl_present ≡ ok sd.dacl
      → parse_security_descriptor headed ≡ ok sd
  unfolding parse_security_descriptor index
  parse_headed sd hc ho hg hs ht er ez ec eo eg es et =
      let reads = read_header hc ho hg hs ht in ground (arith, reads, length-headed)

module _ (sd : SecurityDescriptor) (ss ds : List (Ace × Sid)) (post : Bytes) where
  -- `ParseSecurityDescriptor` reads back a laid-out descriptor, whatever bytes follow it.
  pub parse_security_descriptor-encode_descriptor :
      IsLaidOut sd ss ds → parse_security_descriptor (encode_descriptor sd ss ds ++ post) ≡ ok sd
  unfolding encode_descriptor put_uint16 put_uint32
  parse_security_descriptor-encode_descriptor h =
      let head = full_header sd ss ds in
      let o = owner_part sd ss ds in
      let g = group_part sd ss ds in
      let s = sacl_part sd ss ds in
      let t = dacl_part sd ss ds in
      let body : Bytes = o ++ (g ++ (s ++ (t ++ post))) in
      let d : Bytes = head ++ body in
      let regroup : encode_descriptor sd ss ds ++ post ≡ d = simp append_assoc in
      rw regroup (
        parse_headed sd.revision sd.sbz1 sd.control (offset_of sd.owner_sid 20)
          (offset_of sd.group_sid (20 + length o)) (offset_of sd.sacl (sacl_position sd ss ds))
          (offset_of sd.dacl (dacl_position sd ss ds)) body sd h.control_half
          (omega (arith, offset-le sd.owner_sid 20))
          (omega (arith, offset-le sd.group_sid (20 + length o), h.total_word))
          (omega (arith, offset-le sd.sacl (sacl_position sd ss ds), h.total_word))
          (omega (arith, offset-le sd.dacl (dacl_position sd ss ds), h.total_word)) refl refl refl
          (sid_at-part d head (g ++ (s ++ (t ++ post))) 20 refl (omega arith) sd.owner_sid refl
            h.owner_fits)
          (sid_at-part d (head ++ o) (s ++ (t ++ post)) (20 + length o)
            (omega (arith, length-append head o)) (omega arith) sd.group_sid
            (sym (append_assoc head o (g ++ (s ++ (t ++ post))))) h.group_fits)
          (acl_at-part d ((head ++ o) ++ g) (t ++ post) (sacl_position sd ss ds)
            (omega (arith, length-append head o, length-append (head ++ o) g)) (omega arith) sd.sacl
            ss sd.control se_sacl_present (simp append_assoc) h.sacl_fits)
          (acl_at-part d (((head ++ o) ++ g) ++ s) post (dacl_position sd ss ds)
            (omega (
              arith,
              length-append head o,
              length-append (head ++ o) g,
              length-append ((head ++ o) ++ g) s,
            ))
            (omega arith) sd.dacl ds sd.control se_dacl_present (simp append_assoc) h.dacl_fits))

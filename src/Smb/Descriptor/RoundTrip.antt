-- ===== src/Smb/Descriptor/RoundTrip.antt =====
-- `ParseACE` and the loop of `ParseACL` on the binary form of standard entries.
use mathlib.Core.List.{append_assoc}
use share_hound.Prelude.{
  ℕ, ◌+◌, ◌^◌, ◌≤◌, ◌<◌, ◌≡◌, refl, sym, ap, ◌∙◌, true, List, [], ◌∷◌, ◌++◌, map, some, arith,
  length, length-append, All,
}
use share_hound.Prelude.Outcome.{ok}
use share_hound.Smb.Bytes.{
  Bytes, index, slice_from, uint16_at, uint32_at, put_uint16, put_uint32, uint16_at-append,
  uint32_at-append, slice_from-append,
}
use share_hound.Smb.Descriptor.{Ace, AceError, AclError, is_standard, parse_ace, parse_aces}
use share_hound.Smb.Sid.Parse.{IsWellFormed, encode_sid, length-encode_sid, parse_sid-encode_sid}
use share_hound.Smb.Sid.{Sid, parse_sid, size}

-- An entry and the identifier that it carries.
pub record IsStandard (a : Ace) (s : Sid) : Type 0 where
  pub standard : is_standard a.ace_type ≡ true
  pub carries : a.sid ≡ some s
  pub well_formed : IsWellFormed s
  pub mask_word : a.mask < 2 ^ 32
  pub size_exact : a.ace_size ≡ 8 + size s
  pub size_half : a.ace_size < 2 ^ 16

unfoldable pub encode_ace : Ace → Sid → Bytes
encode_ace a s =
    a.ace_type ∷ a.ace_flags ∷ (put_uint16 a.ace_size ++ (put_uint32 a.mask ++ encode_sid s))

length-encode_ace : (a : Ace) (s : Sid) → IsStandard a s → length (encode_ace a s) ≡ a.ace_size
unfolding encode_ace put_uint16 put_uint32
length-encode_ace a s h = omega (arith, length-encode_sid s h.well_formed, h.size_exact)

size-bound : (s : Sid) → 8 ≤ size s
unfolding size
size-bound s = omega arith

parse_ace-encode_ace :
    (a : Ace) (s : Sid) (post : Bytes)
    → IsStandard a s
    → parse_ace (encode_ace a s ++ post) ≡ ok (a, a.ace_size)
unfolding parse_ace encode_ace index put_uint16 put_uint32
parse_ace-encode_ace a s post h =
    let body = encode_sid s ++ post in
    let head : Bytes = a.ace_type ∷ a.ace_flags ∷ put_uint16 a.ace_size in
    let d : Bytes = head ++ (put_uint32 a.mask ++ body) in
    let len : a.ace_size ≤ length d =
      omega (
        arith,
        length-append (encode_sid s) post,
        length-encode_sid s h.well_formed,
        h.size_exact,
      ) in
    let long : 8 < length d = omega (arith, h.size_exact, size-bound s) in
    let size_read : uint16_at {E = AceError} d 2 ≡ ok a.ace_size =
      uint16_at-append (a.ace_type ∷ a.ace_flags ∷ []) (put_uint32 a.mask ++ body) a.ace_size refl
        h.size_half in
    let mask_read : uint32_at {E = AceError} d 4 ≡ ok a.mask =
      uint32_at-append head body a.mask refl h.mask_word in
    let sid_bytes : slice_from {E = AceError} d 8 ≡ ok body =
      slice_from-append (head ++ put_uint32 a.mask) body refl in
    let sid_read : parse_sid body ≡ ok s = parse_sid-encode_sid s post h.well_formed in
    ground (arith, h.standard, h.carries)

-- The entries of a list, each with its identifier.
abbrev pub entries : List (Ace × Sid) → List Ace
entries = map (λ e. e.0)

abbrev pub AllStandard : List (Ace × Sid) → Type 0
AllStandard = All (λ e. IsStandard e.0 e.1)

unfoldable pub encode_aces : List (Ace × Sid) → Bytes
encode_aces [] = []
encode_aces ((a, s) ∷ es) = encode_ace a s ++ encode_aces es

pub parse_aces-encode_aces :
    (es : List (Ace × Sid)) (d pre post : Bytes) (offset : ℕ)
    → d ≡ pre ++ (encode_aces es ++ post)
    → offset ≡ length pre
    → AllStandard es
    → parse_aces d (length es) offset ≡ ok (entries es)
unfolding parse_aces encode_aces
parse_aces-encode_aces [] d pre post offset e o h = refl
parse_aces-encode_aces ((a, s) ∷ es) d pre post offset e o (h, hs) =
    let tail = encode_aces es ++ post in
    let split : d ≡ pre ++ (encode_ace a s ++ tail) =
      e ∙ ap (◌++◌ pre) (append_assoc (encode_ace a s) (encode_aces es) post) in
    let here : slice_from {E = AclError} d offset ≡ ok (encode_ace a s ++ tail) =
      rw split (slice_from-append pre (encode_ace a s ++ tail) o) in
    let inside : offset < length d = omega (
      arith,
      ap length split,
      length-append pre (encode_ace a s ++ tail),
      length-append (encode_ace a s) tail,
      length-encode_ace a s h,
      h.size_exact,
    ) in
    let rest =
      parse_aces-encode_aces es d (pre ++ encode_ace a s) post (offset + a.ace_size)
        (split ∙ sym (append_assoc pre (encode_ace a s) tail))
        (omega (arith, length-append pre (encode_ace a s), length-encode_ace a s h)) hs in
    let entry = parse_ace-encode_ace a s tail h in ground arith

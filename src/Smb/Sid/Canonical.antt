-- ===== src/Smb/Sid/Canonical.antt =====
-- `(*SID).String` (Go/internal/smb/sid.go) as a name: the 48-bit authority as a big-endian number, and the
-- decimals between dashes.
use share_hound.Prelude.{
  ℕ, ◌+◌, ◌*◌, ◌%◌, ◌^◌, ◌<◌, ◌≡◌, refl, sym, ap, ◌∙◌, List, [], ◌∷◌, ◌++◌, arith, length, All,
  bit_or,
}
use share_hound.Prelude.Text.{Text}
use share_hound.Smb.Bits.{zero-bit_or, bit_or-shifted}
use share_hound.Smb.Bytes.{IsByte}
use share_hound.Smb.Sid.Decimal.{decimal, IsDigit, decimal-IsDigit, decimal_injective}
use share_hound.Smb.Sid.Parse.{IsWellFormed}
use share_hound.Smb.Sid.{Sid, ident_auth_from, sub_authority_strings, string}

-- The value of the authority, with its first byte the most significant one.
abbrev big_endian : ℕ → List ℕ → ℕ
big_endian acc [] = acc
big_endian acc (b ∷ bs) = big_endian (acc * 2 ^ 8 + b) bs

shift_in :
    (acc b : ℕ) → acc < 2 ^ 56 → b < 2 ^ 8 → bit_or (acc * 2 ^ 8 % 2 ^ 64) b ≡ acc * 2 ^ 8 + b
shift_in acc b h k =
    let fits : acc * 2 ^ 8 % 2 ^ 64 ≡ acc * 2 ^ 8 = omega arith in
    rw fits (bit_or-shifted 8 acc b k)

-- `IdentifierAuthority` is a `[6]byte`; the shifts of `String` do not overflow.
ident_auth-big_endian :
    (bs : List ℕ) → length bs ≡ 6 → All IsByte bs → ident_auth_from 0 bs ≡ big_endian 0 bs
unfolding ident_auth_from
ident_auth-big_endian (a ∷ b ∷ c ∷ d ∷ e ∷ f ∷ []) l (ha, (hb, (hc, (hd, (he, (hf, _)))))) =
    let ab = a * 2 ^ 8 + b in
    let abc = ab * 2 ^ 8 + c in
    let abcd = abc * 2 ^ 8 + d in
    let abcde = abcd * 2 ^ 8 + e in
    rw (zero-bit_or a) (
      rw (shift_in a b (omega arith) hb) (
        rw (shift_in ab c (omega arith) hc) (
          rw (shift_in abc d (omega arith) hd) (
            rw (shift_in abcd e (omega arith) he)
              (rw (shift_in abcde f (omega arith) hf) (omega arith))))))
ident_auth-big_endian _ l h = absurd (omega arith)

big_endian_injective :
    (xs ys : List ℕ)
    → length xs ≡ 6
    → length ys ≡ 6
    → All IsByte xs
    → All IsByte ys
    → big_endian 0 xs ≡ big_endian 0 ys
    → xs ≡ ys
big_endian_injective (a ∷ b ∷ c ∷ d ∷ e ∷ f ∷ []) (a' ∷ b' ∷ c' ∷ d' ∷ e' ∷ f' ∷ []) l m h k q =
    ground arith
big_endian_injective _ _ l m h k q = absurd (omega arith)

-- The text is empty or goes on with a dash.
abbrev IsTail : Text → Type 0
IsTail [] = Unit
IsTail (c ∷ cs) = c ≡ b'-'

digits_end :
    (x y r r' : Text)
    → All IsDigit x
    → All IsDigit y
    → IsTail r
    → IsTail r'
    → x ++ r ≡ y ++ r'
    → (x ≡ y) × (r ≡ r')
digits_end [] [] r r' h k t t' e = (refl, e)
digits_end [] (y ∷ ys) [] r' h k t t' e = cc
digits_end [] (y ∷ ys) (c ∷ r) r' h k t t' e = ground arith
digits_end (x ∷ xs) [] r [] h k t t' e = cc
digits_end (x ∷ xs) [] r (c ∷ r') h k t t' e = ground arith
digits_end (x ∷ xs) (y ∷ ys) r r' h k t t' e =
    let ends = digits_end xs ys r r' h.1 k.1 t t' in ground (arith, ends)

sub_authority_strings-IsTail : (sas : List ℕ) → IsTail (sub_authority_strings sas)
unfolding sub_authority_strings
sub_authority_strings-IsTail [] = tt
sub_authority_strings-IsTail (sa ∷ sas) = refl

sub_authority_strings_injective :
    (xs ys : List ℕ) → sub_authority_strings xs ≡ sub_authority_strings ys → xs ≡ ys
unfolding sub_authority_strings
sub_authority_strings_injective [] [] e = refl
sub_authority_strings_injective [] (y ∷ ys) e = cc
sub_authority_strings_injective (x ∷ xs) [] e = cc
sub_authority_strings_injective (x ∷ xs) (y ∷ ys) e =
    let (head, tail) =
      digits_end (decimal x) (decimal y) (sub_authority_strings xs) (sub_authority_strings ys)
        (decimal-IsDigit x) (decimal-IsDigit y) (sub_authority_strings-IsTail xs)
        (sub_authority_strings-IsTail ys) cc in
    rw (decimal_injective x y head, sub_authority_strings_injective xs ys tail)

abbrev authority_text : Sid → Text
authority_text s =
    b'-'
    ∷ (decimal (ident_auth_from 0 s.identifier_authority)
        ++ sub_authority_strings s.sub_authorities)

-- Two well-formed identifiers with the same string are the same identifier.
pub string_injective : (s t : Sid) → IsWellFormed s → IsWellFormed t → string s ≡ string t → s ≡ t
unfolding string
string_injective s t v w e =
    let (revisions, rest) =
      digits_end (decimal s.revision) (decimal t.revision) (authority_text s) (authority_text t)
        (decimal-IsDigit s.revision) (decimal-IsDigit t.revision) refl refl cc in
    let (authorities, subs) =
      digits_end (decimal (ident_auth_from 0 s.identifier_authority))
        (decimal (ident_auth_from 0 t.identifier_authority))
        (sub_authority_strings s.sub_authorities) (sub_authority_strings t.sub_authorities)
        (decimal-IsDigit _) (decimal-IsDigit _) (sub_authority_strings-IsTail s.sub_authorities)
        (sub_authority_strings-IsTail t.sub_authorities) cc in
    let same_revision = decimal_injective s.revision t.revision revisions in
    let same_authority =
      big_endian_injective s.identifier_authority t.identifier_authority v.authority_length
        w.authority_length v.authority_bytes w.authority_bytes
        (sym (ident_auth-big_endian _ v.authority_length v.authority_bytes)
          ∙ decimal_injective _ _ authorities
          ∙ ident_auth-big_endian _ w.authority_length w.authority_bytes) in
    let same_subs = sub_authority_strings_injective s.sub_authorities t.sub_authorities subs in
    let same_count : s.sub_authority_count ≡ t.sub_authority_count =
      sym v.count_exact ∙ ap length same_subs ∙ w.count_exact in
    λ i. record {
      revision = same_revision i;
      sub_authority_count = same_count i;
      identifier_authority = same_authority i;
      sub_authorities = same_subs i;
    }

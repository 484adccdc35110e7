-- ===== src/Smb/Sid/Parse.antt =====
-- `ParseSID` (Go/internal/smb/sid.go) against the wire format.
use mathlib.Core.List.{append_assoc}
use share_hound.Prelude.{
  ℕ, zero, suc, ◌+◌, ◌*◌, ◌^◌, ◌≤◌, ◌<◌, ◌≡◌, refl, sym, ap, ◌∙◌, ◌≢◌, false, true, inl, inr, List,
  [], ◌∷◌, ◌++◌, arith, ltb, leb, length, length-append, drop, All, Bool-cases, le→ltb,
}
use share_hound.Prelude.Outcome.{ok, panic, >>=-eq-ok}
use share_hound.Smb.Bytes.{
  Bytes, IsByte, index, slice, uint32_at, put_uint32, slice-append, index-ne-panic, slice-ne-panic,
  uint32_at-ne-panic, uint32_at-inverse, uint32_at-append,
}
use share_hound.Smb.Sid.{Sid, SidError, parse_sub_authorities, parse_sid, size}

-- The binary form: revision, count, the six bytes of the authority, the sub-authorities.
unfoldable pub put_sub_authorities : List ℕ → Bytes
put_sub_authorities [] = []
put_sub_authorities (sa ∷ sas) = put_uint32 sa ++ put_sub_authorities sas

unfoldable pub encode_sid : Sid → Bytes
encode_sid s =
    s.revision
    ∷ s.sub_authority_count
    ∷ (s.identifier_authority ++ put_sub_authorities s.sub_authorities)

pub record IsWellFormed (s : Sid) : Type 0 where
  pub revision_byte : IsByte s.revision
  pub count_byte : IsByte s.sub_authority_count
  pub authority_length : length s.identifier_authority ≡ 6
  pub authority_bytes : All IsByte s.identifier_authority
  pub count_exact : length s.sub_authorities ≡ s.sub_authority_count
  pub sub_authority_words : All (λ v. v < 2 ^ 32) s.sub_authorities

parse_sub_authorities-ne-panic :
    (b : Bytes) (rounds i : ℕ)
    → 8 + i * 4 + rounds * 4 ≤ length b
    → parse_sub_authorities b rounds i ≢ panic
unfolding parse_sub_authorities
parse_sub_authorities-ne-panic b zero i h = λ e. cc
parse_sub_authorities-ne-panic b (suc rounds) i h = ground (
  arith,
  uint32_at-ne-panic {E = SidError} b (8 + i * 4),
  parse_sub_authorities-ne-panic b rounds (i + 1) (omega arith),
)

length-front :
    (pre : Bytes) (sa i : ℕ)
    → length pre ≡ 8 + i * 4
    → length (pre ++ put_uint32 sa) ≡ 8 + (i + 1) * 4
unfolding put_uint32
length-front pre sa i h = omega (arith, length-append pre (put_uint32 sa))

parse_sub_authorities-append :
    (sas : List ℕ) (d pre post : Bytes) (i : ℕ)
    → d ≡ pre ++ (put_sub_authorities sas ++ post)
    → length pre ≡ 8 + i * 4
    → All (λ v. v < 2 ^ 32) sas
    → parse_sub_authorities d (length sas) i ≡ ok sas
unfolding parse_sub_authorities put_sub_authorities
parse_sub_authorities-append [] d pre post i e h w = refl
parse_sub_authorities-append (sa ∷ sas) d pre post i e h w =
    let tail = put_sub_authorities sas ++ post in
    let e' : d ≡ pre ++ (put_uint32 sa ++ tail) = e ∙ ap (◌++◌ pre) (append_assoc _ _ post) in
    let read : uint32_at {E = SidError} d (8 + i * 4) ≡ ok sa =
      rw e' (uint32_at-append pre tail sa (sym h) w.0) in
    let rest =
      parse_sub_authorities-append sas d (pre ++ put_uint32 sa) post (i + 1)
        (e' ∙ sym (append_assoc pre (put_uint32 sa) tail)) (length-front pre sa i h) w.1 in
    rw (read, rest)

-- `ParseSID` never panics, on any bytes.
pub parse_sid-ne-panic : (b : Bytes) → parse_sid b ≢ panic
unfolding parse_sid
parse_sid-ne-panic b = grind (
  arith,
  index-ne-panic {E = SidError} b 0,
  index-ne-panic {E = SidError} b 1,
  slice-ne-panic {E = SidError} b 2 8,
  parse_sub_authorities-ne-panic,
)

length-put_sub_authorities : (sas : List ℕ) → length (put_sub_authorities sas) ≡ length sas * 4
unfolding put_sub_authorities put_uint32
length-put_sub_authorities [] = refl
length-put_sub_authorities (sa ∷ sas) =
    omega (
      arith,
      length-put_sub_authorities sas,
      length-append (put_uint32 sa) (put_sub_authorities sas),
    )

pub length-encode_sid : (s : Sid) → IsWellFormed s → length (encode_sid s) ≡ size s
unfolding encode_sid size
length-encode_sid s w = omega (
  arith,
  length-append s.identifier_authority (put_sub_authorities s.sub_authorities),
  length-put_sub_authorities s.sub_authorities,
)

-- `ParseSID` reads back a well-formed identifier from its binary form, whatever bytes follow it.
pub parse_sid-encode_sid :
    (s : Sid) (post : Bytes) → IsWellFormed s → parse_sid (encode_sid s ++ post) ≡ ok s
unfolding parse_sid encode_sid index
parse_sid-encode_sid s post w =
    let subs = put_sub_authorities s.sub_authorities in
    let d : Bytes =
      s.revision ∷ s.sub_authority_count ∷ (s.identifier_authority ++ (subs ++ post)) in
    let front : Bytes = s.revision ∷ s.sub_authority_count ∷ s.identifier_authority in
    let len : 8 + s.sub_authority_count * 4 ≤ length d = omega (
      arith,
      length-append s.identifier_authority (subs ++ post),
      length-append subs post,
      length-put_sub_authorities s.sub_authorities,
    ) in
    let auth : slice {E = SidError} d 2 8 ≡ ok s.identifier_authority =
      slice-append (s.revision ∷ s.sub_authority_count ∷ []) s.identifier_authority (subs ++ post)
        refl (omega arith) in
    let read : parse_sub_authorities d s.sub_authority_count 0 ≡ ok s.sub_authorities =
      rw w.count_exact at (
        parse_sub_authorities-append s.sub_authorities d front post 0 refl (omega arith)
          w.sub_authority_words) in
    rw append_assoc
      (rw (le→ltb (length d) 8 (omega arith)) (rw auth (rw (le→ltb (length d) _ len) (rw read))))

parse_sub_authorities-inverse :
    (b : Bytes) (rounds i : ℕ) (sas : List ℕ)
    → All IsByte b
    → parse_sub_authorities b rounds i ≡ ok sas
    → (drop (8 + i * 4) b ≡ put_sub_authorities sas ++ drop (8 + i * 4 + rounds * 4) b)
      × (length sas ≡ rounds)
      × All (λ v. v < 2 ^ 32) sas
unfolding parse_sub_authorities put_sub_authorities
parse_sub_authorities-inverse b zero i sas h e =
    let none_read : sas ≡ [] = cc in rw none_read (ap (λ n. drop n b) (omega arith), refl, tt)
parse_sub_authorities-inverse b (suc rounds) i sas h e =
    let (sa, read, e') = >>=-eq-ok (uint32_at b (8 + i * 4)) _ e in
    let (rest, reads, e'') = >>=-eq-ok (parse_sub_authorities b rounds (i + 1)) _ e' in
    let (later, count, words) = parse_sub_authorities-inverse b rounds (i + 1) rest h reads in
    let (here, word) = uint32_at-inverse b (8 + i * 4) sa h read in
    let all_read : sas ≡ sa ∷ rest = cc in
    let next : 8 + i * 4 + 4 ≡ 8 + (i + 1) * 4 = omega arith in
    let last : 8 + i * 4 + suc rounds * 4 ≡ 8 + (i + 1) * 4 + rounds * 4 = omega arith in
    rw all_read (
      here
          ∙ rw (next, last)
              (rw later (
                sym (
                  append_assoc (put_uint32 sa) (put_sub_authorities rest)
                    (drop (8 + (i + 1) * 4 + rounds * 4) b)))),
      ap suc count,
      (word, words),
    )

module _ (r c a0 a1 a2 a3 a4 a5 : ℕ) (b : Bytes) where
  abbrev at_least_eight : Bytes
  at_least_eight = r ∷ c ∷ a0 ∷ a1 ∷ a2 ∷ a3 ∷ a4 ∷ a5 ∷ b

  abbrev sid_of : List ℕ → Sid
  sid_of sas = record {
    revision = r;
    sub_authority_count = c;
    identifier_authority = a0 ∷ a1 ∷ a2 ∷ a3 ∷ a4 ∷ a5 ∷ [];
    sub_authorities = sas;
  }

  parse_sid_inversion :
      (s : Sid)
      → parse_sid at_least_eight ≡ ok s
      → (sas : List ℕ) × (parse_sub_authorities at_least_eight c 0 ≡ ok sas) × (s ≡ sid_of sas)
  unfolding parse_sid index slice
  parse_sid_inversion s e =
      let short : ltb (length at_least_eight) 8 ≡ false = le→ltb _ _ (omega arith) in
      let fits : leb 8 (length at_least_eight) ≡ true = ground arith in
      let e' = rw (short, fits) at e in
      elim (Bool-cases (ltb (length at_least_eight) (8 + c * 4))) [
        | inl cut ↦ cc (rw cut at e')
        | inr whole ↦
            let (sas, reads, done) =
              >>=-eq-ok (parse_sub_authorities at_least_eight c 0) _ (rw whole at e') in
            (sas, reads, cc)
      ]

-- An identifier that `ParseSID` returns is well formed, and its binary form stands at the front of
-- the bytes that were given.
pub parse_sid-inverse :
    (b : Bytes) {s : Sid}
    → All IsByte b
    → parse_sid b ≡ ok s
    → IsWellFormed s × (b ≡ encode_sid s ++ drop (size s) b)
unfolding parse_sid encode_sid size index slice
parse_sid-inverse (r ∷ c ∷ a0 ∷ a1 ∷ a2 ∷ a3 ∷ a4 ∷ a5 ∷ b) {s} h e =
    let (sas, reads, whole) = parse_sid_inversion r c a0 a1 a2 a3 a4 a5 b s e in
    let (stored, count, words) =
      parse_sub_authorities-inverse (at_least_eight r c a0 a1 a2 a3 a4 a5 b) c 0 sas h reads in
    rw whole (
      record {
        revision_byte = h.0;
        count_byte = h.1.0;
        authority_length = refl;
        authority_bytes = omega arith;
        count_exact = count;
        sub_authority_words = words;
      },
      ap (λ t. r ∷ c ∷ a0 ∷ a1 ∷ a2 ∷ a3 ∷ a4 ∷ a5 ∷ t) stored,
    )
parse_sid-inverse _ h e = cc

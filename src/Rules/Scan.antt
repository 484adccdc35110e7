-- ===== src/Rules/Scan.antt =====
-- The functions of Go's `strings` that Go/internal/rules/parser.go uses, and its two splitters, on ASCII
-- text.
use share_hound.Prelude.{
  ℕ, zero, suc, ◌+◌, ◌-◌, Bool, true, false, not, ◌&&◌, ◌||◌, List, [], ◌∷◌, ◌++◌, Option, none,
  some, leb, ◌==◌, if◌then◌else◌, length,
}
use share_hound.Prelude.Text.{Text, codes, eqb, has_prefix, to_upper}
pub mod Length

-- `unicode.IsSpace` on ASCII
abbrev pub is_space : ℕ → Bool
is_space c = c == b' ' || (leb 9 c && leb c 13)

abbrev trim_left : Text → Text
trim_left [] = []
trim_left (c ∷ s) = elim (is_space c) [ true ↦ trim_left s | false ↦ c ∷ s ]

abbrev trim_right : Text → Text
trim_right [] = []
trim_right (c ∷ s) = elim (trim_right s) [
  | [] ↦ (elim (is_space c) [ true ↦ [] | false ↦ c ∷ [] ])
  | d ∷ t ↦ c ∷ d ∷ t
]

-- `strings.TrimSpace`
unfoldable pub trim_space : Text → Text
trim_space s = trim_right (trim_left s)

-- `strings.HasSuffix(s, string(c))`
unfoldable pub ends_with : ℕ → Text → Bool
ends_with c [] = false
ends_with c (d ∷ []) = d == c
ends_with c (d ∷ e ∷ s) = ends_with c (e ∷ s)

-- `strings.Index`, with none for -1
unfoldable pub index_of : Text → Text → Option ℕ
index_of p [] = if eqb p [] then some 0 else none
index_of p (c ∷ s) = elim (has_prefix (c ∷ s) p) [
  | true ↦ some 0
  | false ↦ elim (index_of p s) [ none ↦ none | some i ↦ some (i + 1) ]
]

-- The part behind the first colon: the second part of `strings.SplitN(line, ":", 2)`, if there is one
unfoldable pub after_colon : Text → Option Text
after_colon [] = none
after_colon (c ∷ s) = elim (c == b':') [ true ↦ some s | false ↦ after_colon s ]

-- `strings.Split(input, "\n")`, with the line so far
unfoldable pub split_lines : Text → Text → List Text
split_lines current [] = current ∷ []
split_lines current (c ∷ s) = elim (c == 10) [
  | true ↦ current ∷ split_lines [] s
  | false ↦ split_lines (current ++ (c ∷ [])) s
]

abbrev pub is_quote : ℕ → Bool
is_quote c = c == 39 || c == 34

-- `inQuote` and `quoteChar` after a quote: none is outside of quotes.
abbrev pub after_quote : Option ℕ → ℕ → Option ℕ
after_quote none c = some c
after_quote (some q) c = if c == q then none else some q

abbrev outside : Option ℕ → Bool
outside none = true
outside (some q) = false

-- What the loop of `splitAtKeyword` does with a byte.
pub data Mark : Type 0 where
  at_quote at_open at_close at_keyword at_other : Mark

-- The tests of the loop; `depth == 0` is that as many brackets were closed as opened.
unfoldable pub mark_of : Text → ℕ → ℕ → Option ℕ → ℕ → Text → Mark
mark_of keyword opened closed quoted c rest =
    if is_quote c
    then at_quote
    else if c == b'(' || c == b'['
    then at_open
    else if c == b')' || c == b']'
    then at_close
    else if outside quoted && (opened == closed && has_prefix (to_upper (c ∷ rest)) keyword)
    then at_keyword
    else at_other

-- The loop of `splitAtKeyword` with an upper case keyword, with the bytes of a keyword that are still
-- to be skipped, the brackets opened and closed, the quote, and `current`.
unfoldable pub split_at_keyword_from : Text → ℕ → ℕ → ℕ → Option ℕ → Text → Text → List Text
split_at_keyword_from keyword skip opened closed quoted current [] = current ∷ []
split_at_keyword_from keyword (suc skip) opened closed quoted current (c ∷ rest) =
    split_at_keyword_from keyword skip opened closed quoted current rest
split_at_keyword_from keyword zero opened closed quoted current (c ∷ rest) =
    elim (mark_of keyword opened closed quoted c rest) [
      | at_quote ↦
          split_at_keyword_from keyword zero opened closed (after_quote quoted c)
            (current ++ (c ∷ [])) rest
      | at_open ↦
          split_at_keyword_from keyword zero (opened + 1) closed quoted (current ++ (c ∷ [])) rest
      | at_close ↦
          split_at_keyword_from keyword zero opened (closed + 1) quoted (current ++ (c ∷ [])) rest
      | at_keyword ↦
          current ∷ split_at_keyword_from keyword (length keyword - 1) opened closed quoted [] rest
      | at_other ↦
          split_at_keyword_from keyword zero opened closed quoted (current ++ (c ∷ [])) rest
    ]

-- `splitAtKeyword`
abbrev pub split_at_keyword : Text → Text → List Text
split_at_keyword input keyword = split_at_keyword_from (to_upper keyword) 0 0 0 none [] input

-- The loop of `splitListItems`, with the quote and `current`.
unfoldable pub split_list_items_from : Option ℕ → Text → Text → List Text
split_list_items_from quoted current [] = current ∷ []
split_list_items_from quoted current (c ∷ rest) = elim (is_quote c) [
  | true ↦ split_list_items_from (after_quote quoted c) (current ++ (c ∷ [])) rest
  | false ↦ elim (c == b',' && outside quoted) [
    | true ↦ current ∷ split_list_items_from quoted [] rest
    | false ↦ split_list_items_from quoted (current ++ (c ∷ [])) rest
  ]
]

-- `splitListItems`
abbrev pub split_list_items : Text → List Text
split_list_items input = split_list_items_from none [] input

-- ===== src/Graph/OpenGraph/Keys.antt =====
-- Equality of edge keys, and lists with no member twice.
use share_hound.Graph.OpenGraph.{EdgeKey, key_eqb, has_key}
use share_hound.Prelude.{◌≡◌, refl, ◌↔◌, true, false, ◌||◌, List, [], ◌∷◌, ◌++◌, arith}
use share_hound.Prelude.Text.{Text, eqb_iff, eqb_refl, elem, elem-append}

pub key_eqb_iff : (a b : EdgeKey) → (key_eqb a b ≡ true) ↔ (a ≡ b)
unfolding key_eqb
key_eqb_iff a b = ground (
  arith,
  eqb_iff a.start_value b.start_value,
  eqb_iff a.start_match_by b.start_match_by,
  eqb_iff a.start_kind b.start_kind,
  eqb_iff a.end_value b.end_value,
  eqb_iff a.end_match_by b.end_match_by,
  eqb_iff a.end_kind b.end_kind,
  eqb_iff a.kind b.kind,
)

pub has_key-append :
    (k : EdgeKey) (js ks : List EdgeKey) → has_key k (js ++ ks) ≡ (has_key k js || has_key k ks)
unfolding has_key
has_key-append k [] ks = refl
has_key-append k (j ∷ js) ks = ground (arith, has_key-append k js ks)

-- No member stands twice.
abbrev pub UniqueIds : List Text → Type 0
UniqueIds [] = Unit
UniqueIds (x ∷ xs) = (elem x xs ≡ false) × UniqueIds xs

abbrev pub UniqueKeys : List EdgeKey → Type 0
UniqueKeys [] = Unit
UniqueKeys (x ∷ xs) = (has_key x xs ≡ false) × UniqueKeys xs

pub UniqueIds-snoc :
    (xs : List Text) (x : Text) → UniqueIds xs → elem x xs ≡ false → UniqueIds (xs ++ (x ∷ []))
unfolding elem
UniqueIds-snoc [] x h n = (refl, tt)
UniqueIds-snoc (y ∷ ys) x (h, hs) n = (
  ground (arith, elem-append y ys (x ∷ []), eqb_iff x y, eqb_iff y x),
  UniqueIds-snoc ys x hs (ground arith),
)

pub UniqueKeys-snoc :
    (xs : List EdgeKey) (x : EdgeKey)
    → UniqueKeys xs
    → has_key x xs ≡ false
    → UniqueKeys (xs ++ (x ∷ []))
unfolding has_key
UniqueKeys-snoc [] x h n = (refl, tt)
UniqueKeys-snoc (y ∷ ys) x (h, hs) n = (
  ground (arith, has_key-append y ys (x ∷ []), key_eqb_iff x y, key_eqb_iff y x),
  UniqueKeys-snoc ys x hs (ground arith),
)

pub has_key_self : (k : EdgeKey) (ks : List EdgeKey) → has_key k (ks ++ (k ∷ [])) ≡ true
unfolding has_key
has_key_self k ks = ground (arith, has_key-append k ks (k ∷ []), key_eqb_iff k k)

pub elem_self : (x : Text) (xs : List Text) → elem x (xs ++ (x ∷ [])) ≡ true
unfolding elem
elem_self x xs = ground (arith, elem-append x xs (x ∷ []), eqb_refl x)

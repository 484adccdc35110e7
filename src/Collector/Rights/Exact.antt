-- ===== src/Collector/Rights/Exact.antt =====
-- The collected map held against the entries of the DACL (Go/internal/collector).
use mathlib.Core.List.{Perm}
use share_hound.Collector.Rights.{
  ShareRights, rights_of, append_rights, add_kinds, add_sid, add_ace, add_aces, dacl_rights,
  parsed_rights, collect_share_rights, collect_ntfs_rights,
}
use share_hound.Prelude.{
  ℕ, ◌+◌, ◌≡◌, refl, ap, Bool, false, ◌&&◌, ◌||◌, List, [], ◌∷◌, ◌++◌, Option, none, some,
  if◌then◌else◌, arith, inl, inr, Option-cases,
}
use share_hound.Prelude.Outcome.{Outcome, ok, err, panic, ◌>>=◌}
use share_hound.Prelude.Text.{Text, eqb, eqb_iff, elem, elem-append}
use share_hound.Smb.AccessMask.Grants.{grants, elem-rights_for_mask, grants-perm}
use share_hound.Smb.AccessMask.{rights_for_mask, ntfs_rights_mapping, share_rights_mapping}
use share_hound.Smb.Bytes.{Bytes}
use share_hound.Smb.Descriptor.{
  Ace, Acl, SecurityDescriptor, DescriptorError, is_access_allowed, parse_security_descriptor,
}
use share_hound.Smb.Sid.{Sid, string}

rights_of-append_rights :
    (sid s : Text) (kinds : List Text) (m : ShareRights)
    → rights_of s (append_rights sid kinds m)
      ≡ (if eqb sid s then rights_of s m ++ kinds else rights_of s m)
unfolding rights_of append_rights
rights_of-append_rights sid s kinds [] = ground arith
rights_of-append_rights sid s kinds ((j, old) ∷ m) =
    ground (arith, eqb_iff sid s, eqb_iff j sid, eqb_iff j s, rights_of-append_rights sid s kinds m)

rights_of-add_kinds :
    (sid s k : Text) (kinds : List Text) (m : ShareRights)
    → elem k (rights_of s (add_kinds sid kinds m))
      ≡ ((eqb sid s && elem k kinds) || elem k (rights_of s m))
unfolding add_kinds
rights_of-add_kinds sid s k [] m = unfold elem in ground arith
rights_of-add_kinds sid s k (j ∷ kinds) m =
    ground (
      arith,
      rights_of-append_rights sid s (j ∷ kinds) m,
      elem-append k (rights_of s m) (j ∷ kinds),
    )

-- The entry gives the kind to the SID.
abbrev sid_is : Option Sid → Text → Bool
sid_is none sid = false
sid_is (some s) sid = eqb (string s) sid

abbrev pub allows : List (Text × ℕ) → Ace → Text → Text → Bool
allows m ace sid k = is_access_allowed ace && (sid_is ace.sid sid && grants m ace.mask k)

abbrev pub some_ace_allows : List (Text × ℕ) → List Ace → Text → Text → Bool
some_ace_allows m [] sid k = false
some_ace_allows m (ace ∷ aces) sid k = allows m ace sid k || some_ace_allows m aces sid k

string-ne-nil : (s : Sid) → eqb (string s) [] ≡ false
unfolding string eqb
string-ne-nil s = refl

module _ (m : List (Text × ℕ)) (sid k : Text) where
  rights_of-add_ace :
      (order : List (Text × ℕ)) (ace : Ace) (rights : ShareRights)
      → Perm order m
      → elem k (rights_of sid (add_ace order ace rights))
        ≡ (allows m ace sid k || elem k (rights_of sid rights))
  unfolding add_ace add_sid
  rights_of-add_ace order ace rights p = elim (Option-cases ace.sid) [
    | inl e ↦ rw e (ground arith)
    | inr (s, e) ↦ rw e (
        ground (
          arith,
          string-ne-nil s,
          rights_of-add_kinds (string s) sid k (rights_for_mask order ace.mask) rights,
          elem-rights_for_mask order ace.mask k,
          grants-perm order m ace.mask k p,
        ))
  ]

  rights_of-add_aces :
      (orders : ℕ → List (Text × ℕ)) (i : ℕ) (aces : List Ace) (rights : ShareRights)
      → ((j : ℕ) → Perm (orders j) m)
      → elem k (rights_of sid (add_aces orders i aces rights))
        ≡ (some_ace_allows m aces sid k || elem k (rights_of sid rights))
  unfolding add_aces
  rights_of-add_aces orders i [] rights p = refl
  rights_of-add_aces orders i (ace ∷ aces) rights p = ground (
    arith,
    rights_of-add_ace (orders i) ace rights (p i),
    rights_of-add_aces orders (i + 1) aces (add_ace (orders i) ace rights) p,
  )

  -- What a DACL grants; nothing if it is nil.
  abbrev pub dacl_allows : Option Acl → Bool
  dacl_allows none = false
  dacl_allows (some dacl) = some_ace_allows m dacl.aces sid k

  dacl_rights_exact :
      (orders : ℕ → List (Text × ℕ)) (dacl : Option Acl)
      → ((j : ℕ) → Perm (orders j) m)
      → elem k (rights_of sid (dacl_rights orders dacl)) ≡ dacl_allows dacl
  unfolding dacl_rights
  dacl_rights_exact orders none p = unfold rights_of elem in refl
  dacl_rights_exact orders (some dacl) p =
      unfold rights_of elem in ground (arith, rights_of-add_aces orders 0 dacl.aces [] p)

-- A SID has a kind in the result of `CollectNTFSRights` exactly when an allowing entry of the DACL
-- for that SID has the flag of the kind, whatever orders the map of flags is iterated in.
pub collect_ntfs_rights_exact :
    (orders : ℕ → List (Text × ℕ)) (sd : SecurityDescriptor) (sid k : Text)
    → ((j : ℕ) → Perm (orders j) ntfs_rights_mapping)
    → elem k (rights_of sid (collect_ntfs_rights orders (some sd)))
      ≡ dacl_allows ntfs_rights_mapping sid k sd.dacl
unfolding collect_ntfs_rights
collect_ntfs_rights_exact orders sd sid k p =
    dacl_rights_exact ntfs_rights_mapping sid k orders sd.dacl p

-- The answer that the bytes of a descriptor justify.
abbrev answer : Text → Text → Option Bytes → Outcome DescriptorError Bool
answer sid k none = ok false
answer sid k (some bs) = do
  sd ← parse_security_descriptor bs
  ok (dacl_allows share_rights_mapping sid k sd.dacl)

-- The bytes of the share if it has any, or else those of its root folder if it has any.
abbrev chosen : Option Bytes → Option Bytes → Option Bytes
chosen (some (b ∷ bs)) root = some (b ∷ bs)
chosen _ (some (b ∷ bs)) = some (b ∷ bs)
chosen _ _ = none

-- Whether a SID has a kind in the result of `CollectShareRights` is decided by the first descriptor
-- that has bytes, that of the share and then that of its root folder: it has it exactly when an
-- allowing entry of the DACL for that SID has the flag of the kind. With no bytes nobody has any, and
-- an error is the parser's.
pub collect_share_rights_exact :
    (orders : ℕ → List (Text × ℕ)) (share_sd root_sd : Option Bytes) (sid k : Text)
    → ((j : ℕ) → Perm (orders j) share_rights_mapping)
    → (do rights ← collect_share_rights orders share_sd root_sd; ok (elem k (rights_of sid rights)))
      ≡ answer sid k (chosen share_sd root_sd)
unfolding collect_share_rights parsed_rights
collect_share_rights_exact orders share_sd root_sd sid k p = by_bytes share_sd root_sd
  where
    through :
        (o : Outcome DescriptorError SecurityDescriptor)
        → (do
          rights ← (do sd ← o; ok (dacl_rights orders sd.dacl))
          ok (elem k (rights_of sid rights)))
          ≡ (do sd ← o; ok (dacl_allows share_rights_mapping sid k sd.dacl))
    through (ok sd) = ap ok (dacl_rights_exact share_rights_mapping sid k orders sd.dacl p)
    through (err e) = refl
    through panic = refl

    parsed :
        (bs : Bytes)
        → (do rights ← parsed_rights orders (some bs); ok (elem k (rights_of sid rights)))
          ≡ answer sid k (some bs)
    parsed bs = through (parse_security_descriptor bs)

    by_bytes :
        (a b : Option Bytes)
        → (do rights ← collect_share_rights orders a b; ok (elem k (rights_of sid rights)))
          ≡ answer sid k (chosen a b)
    by_bytes (some (x ∷ xs)) b = parsed (x ∷ xs)
    by_bytes (some []) (some (y ∷ ys)) = parsed (y ∷ ys)
    by_bytes none (some (y ∷ ys)) = parsed (y ∷ ys)
    by_bytes (some []) none = unfold rights_of elem in refl
    by_bytes (some []) (some []) = unfold rights_of elem in refl
    by_bytes none none = unfold rights_of elem in refl
    by_bytes none (some []) = unfold rights_of elem in refl

-- ===== src/Collector/Rights.antt =====
-- Go/internal/collector/share_rights.go and ntfs_rights.go: the rights of each SID from a DACL.
-- `GetShareSecurityDescriptor` and its like talk to the host: their results are arguments, `none` for
-- an error. Log lines are left out.
use share_hound.Prelude.{
  ℕ, zero, suc, ◌+◌, Bool, true, false, not, List, [], ◌∷◌, ◌++◌, Option, none, some, if◌then◌else◌,
}
use share_hound.Prelude.Outcome.{Outcome, ok, err, panic, ◌>>=◌}
use share_hound.Prelude.Text.{Text, eqb}
use share_hound.Smb.AccessMask.{rights_for_mask}
use share_hound.Smb.Bytes.{Bytes}
use share_hound.Smb.Descriptor.{
  Ace, Acl, SecurityDescriptor, DescriptorError, is_access_allowed, parse_security_descriptor,
}
use share_hound.Smb.Sid.{Sid, string}
pub mod Exact

-- `graph.ShareRights`, a map from SIDs to kinds of edges; its keys differ.
abbrev pub ShareRights : Type 0
ShareRights = List (Text × List Text)

-- `rights[sid]`, the nil slice if there is none
unfoldable pub rights_of : Text → ShareRights → List Text
rights_of sid [] = []
rights_of sid ((s, kinds) ∷ m) = if eqb s sid then kinds else rights_of sid m

-- `rights[sid] = append(rights[sid], kinds...)`
unfoldable pub append_rights : Text → List Text → ShareRights → ShareRights
append_rights sid kinds [] = (sid, kinds) ∷ []
append_rights sid kinds ((s, old) ∷ m) =
    if eqb s sid then (s, old ++ kinds) ∷ m else (s, old) ∷ append_rights sid kinds m

-- The end of the loop's body: the kinds are appended if there is one.
unfoldable pub add_kinds : Text → List Text → ShareRights → ShareRights
add_kinds sid [] rights = rights
add_kinds sid (k ∷ kinds) rights = append_rights sid (k ∷ kinds) rights

-- The body of the loop on a SID that is not nil.
unfoldable pub add_sid : List (Text × ℕ) → ℕ → Option Sid → ShareRights → ShareRights
unfolding add_kinds
add_sid order mask none rights = rights
add_sid order mask (some s) rights =
    let sid = string s in
    if eqb sid [] then rights else add_kinds sid (rights_for_mask order mask) rights

-- The body of the loop over the entries.
unfoldable pub add_ace : List (Text × ℕ) → Ace → ShareRights → ShareRights
unfolding add_sid
add_ace order ace rights =
    if not (is_access_allowed ace) then rights else add_sid order ace.mask ace.sid rights

-- The loop over the entries. Each round may iterate the map of flags in an order of its own:
-- `orders i` is that of round `i`.
unfoldable pub add_aces : (ℕ → List (Text × ℕ)) → ℕ → List Ace → ShareRights → ShareRights
unfolding add_ace
add_aces orders i [] rights = rights
add_aces orders i (ace ∷ aces) rights = add_aces orders (i + 1) aces (add_ace (orders i) ace rights)

-- From `sd.Dacl` on.
unfoldable pub dacl_rights : (ℕ → List (Text × ℕ)) → Option Acl → ShareRights
unfolding add_aces
dacl_rights orders none = []
dacl_rights orders (some dacl) = add_aces orders 0 dacl.aces []

-- `err != nil || len(sdBytes) == 0` has no bytes left to parse.
abbrev pub usable : Option Bytes → Option Bytes
usable none = none
usable (some []) = none
usable (some (b ∷ bs)) = some (b ∷ bs)

-- The descriptor of the share, or that of its root folder, or neither.
abbrev pub first_usable : Option Bytes → Option Bytes → Option Bytes
first_usable none fallback = fallback
first_usable (some bs) fallback = some bs

-- `ParseSecurityDescriptor` and what follows; `err e` stands for the empty map and `e`.
unfoldable pub parsed_rights :
    (ℕ → List (Text × ℕ)) → Option Bytes → Outcome DescriptorError ShareRights
unfolding dacl_rights
parsed_rights orders none = ok []
parsed_rights orders (some bs) = do
  sd ← parse_security_descriptor bs
  ok (dacl_rights orders sd.dacl)

-- `CollectShareRights`, on the results of the two requests
unfoldable pub collect_share_rights :
    (ℕ → List (Text × ℕ)) → Option Bytes → Option Bytes → Outcome DescriptorError ShareRights
unfolding parsed_rights
collect_share_rights orders share_sd root_sd =
    parsed_rights orders (first_usable (usable share_sd) (usable root_sd))

-- `CollectNTFSRights`, on the descriptor of the file; `none` is an error or nil.
unfoldable pub collect_ntfs_rights : (ℕ → List (Text × ℕ)) → Option SecurityDescriptor → ShareRights
unfolding dacl_rights
collect_ntfs_rights orders none = []
collect_ntfs_rights orders (some sd) = dacl_rights orders sd.dacl

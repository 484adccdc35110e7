-- ===== src/Smb/AccessMask/Effective.antt =====
-- `ComputeEffectiveRights` (Go/internal/smb/access_mask.go) on what the two masks grant.
use mathlib.Core.List.{Perm}
use share_hound.Kinds.{
  edge_kind_can_effective_read, edge_kind_can_effective_write, edge_kind_can_effective_execute,
}
use share_hound.Prelude.{
  ℕ, ◌≡◌, refl, sym, ◌∙◌, Bool, true, false, ◌&&◌, ◌||◌, List, [], ◌∷◌, ◌++◌, arith,
}
use share_hound.Prelude.Text.{Text, eqb, elem, elem-append}
use share_hound.Smb.AccessMask.Grants.{has_any-rights_for_mask, has_any_lem, any_elem}
use share_hound.Smb.AccessMask.{
  share_rights_mapping, ntfs_rights_mapping, flag_set, rights_for_mask, has_any, kind_if,
  compute_effective_rights, share_read_kinds, share_write_kinds, share_execute_kinds,
  ntfs_read_kinds, ntfs_write_kinds, ntfs_execute_kinds,
}
use share_hound.Smb.Flags.{
  generic_read, generic_write, generic_execute, generic_all, share_file_read_data,
  share_file_write_data, share_file_execute, ntfs_generic_read, ntfs_generic_write,
  ntfs_generic_execute, ntfs_generic_all, ntfs_file_read_data, ntfs_file_write_data,
  ntfs_file_execute,
}

abbrev any_flag : ℕ → ℕ → ℕ → ℕ → Bool
any_flag mask a b c = flag_set mask a || (flag_set mask b || flag_set mask c)

or-false : (b : Bool) → (b || false) ≡ b
or-false b = ground arith

-- The effective rights that `ComputeEffectiveRights` finds from the masks of the two levels are read,
-- write and execute, each exactly when both masks have one of its three bits, whatever the order in
-- which the two maps are iterated.
pub effective_rights_of_masks :
    (share_order ntfs_order : List (Text × ℕ)) (share_mask ntfs_mask : ℕ)
    → Perm share_order share_rights_mapping
    → Perm ntfs_order ntfs_rights_mapping
    → compute_effective_rights
        (rights_for_mask share_order share_mask)
        (rights_for_mask ntfs_order ntfs_mask)
      ≡ kind_if
          (any_flag share_mask generic_read generic_all share_file_read_data
            && any_flag ntfs_mask ntfs_generic_read ntfs_generic_all ntfs_file_read_data)
          edge_kind_can_effective_read
        ++ (kind_if
              (any_flag share_mask generic_write generic_all share_file_write_data
                && any_flag ntfs_mask ntfs_generic_write ntfs_generic_all ntfs_file_write_data)
              edge_kind_can_effective_write
            ++ kind_if
                (any_flag share_mask generic_execute generic_all share_file_execute
                  && any_flag ntfs_mask ntfs_generic_execute ntfs_generic_all ntfs_file_execute)
                edge_kind_can_effective_execute)
unfolding compute_effective_rights eqb
effective_rights_of_masks so nto sm nm p q = simp (
  λ (ts : List Text). has_any-rights_for_mask so share_rights_mapping sm ts p,
  λ (ts : List Text). has_any-rights_for_mask nto ntfs_rights_mapping nm ts q,
  or-false,
)

abbrev pub Includes : List Text → List Text → Type 0
Includes small large = (k : Text) → elem k small ≡ true → elem k large ≡ true

any_elem-Includes :
    (a b targets : List Text) → Includes a b → any_elem a targets ≡ true → any_elem b targets ≡ true
any_elem-Includes a b [] h e = e
any_elem-Includes a b (t ∷ targets) h e = ground (arith, h t, any_elem-Includes a b targets h)

has_any-Includes :
    (a b targets : List Text) → Includes a b → has_any a targets ≡ true → has_any b targets ≡ true
has_any-Includes a b targets h e =
    has_any_lem b targets ∙ any_elem-Includes a b targets h (sym (has_any_lem a targets) ∙ e)

kind_if-Includes :
    (a b : Bool) (k : Text) → (a ≡ true → b ≡ true) → Includes (kind_if a k) (kind_if b k)
unfolding elem
kind_if-Includes true b k h t e = rw (h refl) e
kind_if-Includes false b k h t e = cc

append-Includes :
    (a a' b b' : List Text) → Includes a a' → Includes b b' → Includes (a ++ b) (a' ++ b')
append-Includes a a' b b' h k t e = ground (arith, elem-append t a b, elem-append t a' b', h t, k t)

both :
    (a a' b b' : Bool)
    → (a ≡ true → a' ≡ true)
    → (b ≡ true → b' ≡ true)
    → (a && b) ≡ true
    → (a' && b') ≡ true
both a a' b b' h k e = ground arith

-- More share rights and more NTFS rights never take an effective right away.
pub compute_effective_rights-Includes :
    (share share' ntfs ntfs' : List Text)
    → Includes share share'
    → Includes ntfs ntfs'
    → Includes (compute_effective_rights share ntfs) (compute_effective_rights share' ntfs')
unfolding compute_effective_rights
compute_effective_rights-Includes s s' n n' h k =
    append-Includes _ _ _ _ (grown share_read_kinds ntfs_read_kinds edge_kind_can_effective_read) (
      append-Includes _ _ _ _
        (grown share_write_kinds ntfs_write_kinds edge_kind_can_effective_write)
        (grown share_execute_kinds ntfs_execute_kinds edge_kind_can_effective_execute))
  where
    grown :
        (st nt : List Text) (kind : Text)
        → Includes
            (kind_if (has_any s st && has_any n nt) kind)
            (kind_if (has_any s' st && has_any n' nt) kind)
    grown st nt kind =
        kind_if-Includes _ _ kind
          (both _ _ _ _ (has_any-Includes s s' st h) (has_any-Includes n n' nt k))

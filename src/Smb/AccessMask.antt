-- ===== src/Smb/AccessMask.antt =====
-- Go/internal/smb/access_mask.go: which rights an access mask grants at the share and at the NTFS
-- level, and the effective rights that both levels grant. A Go map is iterated in any order: the
-- functions take the order of the pairs as an argument.
use share_hound.Kinds.{
  edge_kind_can_delete, edge_kind_can_ds_control_access, edge_kind_can_ds_create_child,
  edge_kind_can_ds_delete_child, edge_kind_can_ds_delete_tree, edge_kind_can_ds_list_contents,
  edge_kind_can_ds_list_object, edge_kind_can_ds_read_property,
  edge_kind_can_ds_write_extended_properties, edge_kind_can_ds_write_property,
  edge_kind_can_effective_execute, edge_kind_can_effective_read, edge_kind_can_effective_write,
  edge_kind_can_generic_all, edge_kind_can_generic_execute, edge_kind_can_generic_read,
  edge_kind_can_generic_write, edge_kind_can_ntfs_access_system_security,
  edge_kind_can_ntfs_append_data, edge_kind_can_ntfs_delete, edge_kind_can_ntfs_delete_child,
  edge_kind_can_ntfs_execute, edge_kind_can_ntfs_generic_all, edge_kind_can_ntfs_generic_execute,
  edge_kind_can_ntfs_generic_read, edge_kind_can_ntfs_generic_write,
  edge_kind_can_ntfs_read_attributes, edge_kind_can_ntfs_read_control, edge_kind_can_ntfs_read_data,
  edge_kind_can_ntfs_read_ea, edge_kind_can_ntfs_synchronize, edge_kind_can_ntfs_write_attributes,
  edge_kind_can_ntfs_write_dacl, edge_kind_can_ntfs_write_data, edge_kind_can_ntfs_write_ea,
  edge_kind_can_ntfs_write_owner, edge_kind_can_read_control, edge_kind_can_share_execute,
  edge_kind_can_share_read, edge_kind_can_share_write, edge_kind_can_write_dacl,
  edge_kind_can_write_owner,
}
use share_hound.Prelude.{
  ℕ, Bool, true, false, not, ◌&&◌, ◌||◌, List, [], ◌∷◌, ◌++◌, ◌==◌, if◌then◌else◌, bit_and,
}
use share_hound.Prelude.Text.{Text, elem}
use share_hound.Smb.Flags.{
  ds_create_child, ds_delete_child, ds_list_contents, ds_write_property_extended, ds_read_property,
  ds_write_property, ds_delete_tree, ds_list_object, ds_control_access, access_delete,
  access_read_control, access_write_dac, access_write_owner, generic_all, generic_execute,
  generic_write, generic_read, share_file_read_data, share_file_write_data, share_file_execute,
  ntfs_generic_read, ntfs_generic_write, ntfs_generic_execute, ntfs_generic_all,
  ntfs_access_system_security, ntfs_synchronize, ntfs_write_owner, ntfs_write_dacl,
  ntfs_read_control, ntfs_delete, ntfs_file_read_data, ntfs_file_write_data, ntfs_file_append_data,
  ntfs_file_read_ea, ntfs_file_write_ea, ntfs_file_execute, ntfs_file_delete_child,
  ntfs_file_read_attributes, ntfs_file_write_attributes,
}
pub mod Grants
pub mod Effective

abbrev pub share_rights_mapping : List (Text × ℕ)
share_rights_mapping =
    (edge_kind_can_ds_create_child, ds_create_child)
    ∷ (edge_kind_can_ds_delete_child, ds_delete_child)
    ∷ (edge_kind_can_ds_list_contents, ds_list_contents)
    ∷ (edge_kind_can_ds_write_extended_properties, ds_write_property_extended)
    ∷ (edge_kind_can_ds_read_property, ds_read_property)
    ∷ (edge_kind_can_ds_write_property, ds_write_property)
    ∷ (edge_kind_can_ds_delete_tree, ds_delete_tree)
    ∷ (edge_kind_can_ds_list_object, ds_list_object)
    ∷ (edge_kind_can_ds_control_access, ds_control_access)
    ∷ (edge_kind_can_delete, access_delete)
    ∷ (edge_kind_can_read_control, access_read_control)
    ∷ (edge_kind_can_write_dacl, access_write_dac)
    ∷ (edge_kind_can_write_owner, access_write_owner)
    ∷ (edge_kind_can_generic_all, generic_all)
    ∷ (edge_kind_can_generic_execute, generic_execute)
    ∷ (edge_kind_can_generic_write, generic_write)
    ∷ (edge_kind_can_generic_read, generic_read)
    ∷ (edge_kind_can_share_read, share_file_read_data)
    ∷ (edge_kind_can_share_write, share_file_write_data)
    ∷ (edge_kind_can_share_execute, share_file_execute)
    ∷ []

abbrev pub ntfs_rights_mapping : List (Text × ℕ)
ntfs_rights_mapping =
    (edge_kind_can_ntfs_generic_read, ntfs_generic_read)
    ∷ (edge_kind_can_ntfs_generic_write, ntfs_generic_write)
    ∷ (edge_kind_can_ntfs_generic_execute, ntfs_generic_execute)
    ∷ (edge_kind_can_ntfs_generic_all, ntfs_generic_all)
    ∷ (edge_kind_can_ntfs_access_system_security, ntfs_access_system_security)
    ∷ (edge_kind_can_ntfs_synchronize, ntfs_synchronize)
    ∷ (edge_kind_can_ntfs_write_owner, ntfs_write_owner)
    ∷ (edge_kind_can_ntfs_write_dacl, ntfs_write_dacl)
    ∷ (edge_kind_can_ntfs_read_control, ntfs_read_control)
    ∷ (edge_kind_can_ntfs_delete, ntfs_delete)
    ∷ (edge_kind_can_ntfs_read_data, ntfs_file_read_data)
    ∷ (edge_kind_can_ntfs_write_data, ntfs_file_write_data)
    ∷ (edge_kind_can_ntfs_append_data, ntfs_file_append_data)
    ∷ (edge_kind_can_ntfs_read_ea, ntfs_file_read_ea)
    ∷ (edge_kind_can_ntfs_write_ea, ntfs_file_write_ea)
    ∷ (edge_kind_can_ntfs_execute, ntfs_file_execute)
    ∷ (edge_kind_can_ntfs_delete_child, ntfs_file_delete_child)
    ∷ (edge_kind_can_ntfs_read_attributes, ntfs_file_read_attributes)
    ∷ (edge_kind_can_ntfs_write_attributes, ntfs_file_write_attributes)
    ∷ []

-- `mask&flag != 0`
abbrev pub flag_set : ℕ → ℕ → Bool
flag_set mask flag = not (bit_and mask flag == 0)

-- The loop of `GetShareRightsForMask` and of `GetNTFSRightsForMask`, over the pairs in their order.
unfoldable pub rights_for_mask : List (Text × ℕ) → ℕ → List Text
rights_for_mask [] mask = []
rights_for_mask ((edge_kind, flag) ∷ order) mask =
    let rest = rights_for_mask order mask in if flag_set mask flag then edge_kind ∷ rest else rest

-- `hasAny`
unfoldable pub has_any : List Text → List Text → Bool
has_any [] targets = false
has_any (k ∷ edge_kinds) targets = elem k targets || has_any edge_kinds targets

abbrev pub share_read_kinds : List Text
share_read_kinds =
    edge_kind_can_generic_read ∷ edge_kind_can_generic_all ∷ edge_kind_can_share_read ∷ []

abbrev pub share_write_kinds : List Text
share_write_kinds =
    edge_kind_can_generic_write ∷ edge_kind_can_generic_all ∷ edge_kind_can_share_write ∷ []

abbrev pub share_execute_kinds : List Text
share_execute_kinds =
    edge_kind_can_generic_execute ∷ edge_kind_can_generic_all ∷ edge_kind_can_share_execute ∷ []

abbrev pub ntfs_read_kinds : List Text
ntfs_read_kinds =
    edge_kind_can_ntfs_generic_read ∷ edge_kind_can_ntfs_generic_all ∷ edge_kind_can_ntfs_read_data
    ∷ []

abbrev pub ntfs_write_kinds : List Text
ntfs_write_kinds =
    edge_kind_can_ntfs_generic_write ∷ edge_kind_can_ntfs_generic_all
    ∷ edge_kind_can_ntfs_write_data ∷ []

abbrev pub ntfs_execute_kinds : List Text
ntfs_execute_kinds =
    edge_kind_can_ntfs_generic_execute ∷ edge_kind_can_ntfs_generic_all ∷ edge_kind_can_ntfs_execute
    ∷ []

-- One kind, if its condition holds.
abbrev pub kind_if : Bool → Text → List Text
kind_if b k = if b then k ∷ [] else []

-- `ComputeEffectiveRights`
unfoldable pub compute_effective_rights : List Text → List Text → List Text
compute_effective_rights share_kinds ntfs_kinds =
    let read_share = has_any share_kinds share_read_kinds in
    let write_share = has_any share_kinds share_write_kinds in
    let exec_share = has_any share_kinds share_execute_kinds in
    let read_ntfs = has_any ntfs_kinds ntfs_read_kinds in
    let write_ntfs = has_any ntfs_kinds ntfs_write_kinds in
    let exec_ntfs = has_any ntfs_kinds ntfs_execute_kinds in
    kind_if (read_share && read_ntfs) edge_kind_can_effective_read
    ++ (kind_if (write_share && write_ntfs) edge_kind_can_effective_write
        ++ kind_if (exec_share && exec_ntfs) edge_kind_can_effective_execute)

-- ===== src/Kinds/Descriptions.antt =====
-- `EdgeDescriptions` of Go/pkg/kinds/kinds.go.
use Prim.Native.String.{String}
use share_hound.Kinds.{
  edge_kind_can_delete, edge_kind_can_ds_control_access, edge_kind_can_ds_create_child,
  edge_kind_can_ds_delete_child, edge_kind_can_ds_delete_tree, edge_kind_can_ds_list_contents,
  edge_kind_can_ds_list_object, edge_kind_can_ds_read_property,
  edge_kind_can_ds_write_extended_properties, edge_kind_can_ds_write_property,
  edge_kind_can_effective_execute, edge_kind_can_effective_read, edge_kind_can_effective_write,
  edge_kind_can_generic_all, edge_kind_can_generic_execute, edge_kind_can_generic_read,
  edge_kind_can_generic_write, edge_kind_can_ntfs_access_system_security,
  edge_kind_can_ntfs_append_data, edge_kind_can_ntfs_delete, edge_kind_can_ntfs_delete_child,
  edge_kind_can_ntfs_execute, edge_kind_can_ntfs_generic_all, edge_kind_can_ntfs_generic_execute,
  edge_kind_can_ntfs_generic_read, edge_kind_can_ntfs_generic_write,
  edge_kind_can_ntfs_read_attributes, edge_kind_can_ntfs_read_control, edge_kind_can_ntfs_read_data,
  edge_kind_can_ntfs_read_ea, edge_kind_can_ntfs_synchronize, edge_kind_can_ntfs_write_attributes,
  edge_kind_can_ntfs_write_dacl, edge_kind_can_ntfs_write_data, edge_kind_can_ntfs_write_ea,
  edge_kind_can_ntfs_write_owner, edge_kind_can_read_control, edge_kind_can_share_execute,
  edge_kind_can_share_read, edge_kind_can_share_write, edge_kind_can_write_dacl,
  edge_kind_can_write_owner, edge_kind_contains, edge_kind_has_network_share,
  edge_kind_hosts_network_share,
}
use share_hound.Prelude.{List, [], ◌∷◌, Option, none, some, if◌then◌else◌}
use share_hound.Prelude.Text.{Text, eqb}

-- The map as a list of its pairs; the keys differ.
edge_descriptions : List (Text × String)
edge_descriptions =
    (edge_kind_has_network_share, "The base domain exposes this network share.")
    ∷ (edge_kind_hosts_network_share, "The host machine serves this network share.")
    ∷ (edge_kind_contains, "The parent share or directory contains this child item.")
    ∷ (
      edge_kind_can_generic_execute,
      "Share-level DACL grants GENERIC_EXECUTE, allowing the principal to traverse directories on the share.",
    )
    ∷ (
      edge_kind_can_generic_write,
      "Share-level DACL grants GENERIC_WRITE, allowing the principal to create and modify content on the share.",
    )
    ∷ (
      edge_kind_can_generic_read,
      "Share-level DACL grants GENERIC_READ, allowing the principal to list and read content on the share.",
    )
    ∷ (
      edge_kind_can_generic_all, "Share-level DACL grants GENERIC_ALL (full control) on the share.",
    )
    ∷ (
      edge_kind_can_ds_create_child,
      "Share-level DACL grants DS_CREATE_CHILD, allowing creation of child objects.",
    )
    ∷ (
      edge_kind_can_ds_delete_child,
      "Share-level DACL grants DS_DELETE_CHILD, allowing deletion of child objects.",
    )
    ∷ (
      edge_kind_can_ds_list_contents,
      "Share-level DACL grants DS_LIST_CONTENTS, allowing directory listing.",
    )
    ∷ (
      edge_kind_can_ds_write_extended_properties,
      "Share-level DACL grants DS_WRITE_PROPERTY_EXTENDED, allowing modification of extended properties.",
    )
    ∷ (
      edge_kind_can_ds_read_property,
      "Share-level DACL grants DS_READ_PROPERTY, allowing reading of object properties.",
    )
    ∷ (
      edge_kind_can_ds_write_property,
      "Share-level DACL grants DS_WRITE_PROPERTY, allowing modification of object properties.",
    )
    ∷ (
      edge_kind_can_ds_delete_tree,
      "Share-level DACL grants DS_DELETE_TREE, allowing deletion of entire subtrees.",
    )
    ∷ (
      edge_kind_can_ds_list_object,
      "Share-level DACL grants DS_LIST_OBJECT, allowing listing of this object.",
    )
    ∷ (
      edge_kind_can_ds_control_access,
      "Share-level DACL grants DS_CONTROL_ACCESS, allowing extended right or validated write operations.",
    )
    ∷ (
      edge_kind_can_delete,
      "Share-level DACL grants DELETE, allowing the principal to delete this object.",
    )
    ∷ (
      edge_kind_can_read_control,
      "Share-level DACL grants READ_CONTROL, allowing the principal to read the security descriptor.",
    )
    ∷ (
      edge_kind_can_write_dacl,
      "Share-level DACL grants WRITE_DAC, allowing the principal to modify the DACL (change permissions).",
    )
    ∷ (
      edge_kind_can_write_owner,
      "Share-level DACL grants WRITE_OWNER, allowing the principal to change the object owner.",
    )
    ∷ (
      edge_kind_can_share_read,
      "Share-level DACL grants FILE_READ_DATA (0x00000001). This is the specific read bit used by standard Windows share permissions (Read = 0x001200A9, Change, Full Control).",
    )
    ∷ (
      edge_kind_can_share_write,
      "Share-level DACL grants FILE_WRITE_DATA (0x00000002). This is the specific write bit used by standard Windows share permissions (Change = 0x001301BF, Full Control).",
    )
    ∷ (
      edge_kind_can_share_execute,
      "Share-level DACL grants FILE_EXECUTE (0x00000020). This is the specific execute/traverse bit used by standard Windows share permissions.",
    )
    ∷ (
      edge_kind_can_ntfs_generic_read,
      "NTFS DACL grants GENERIC_READ (0x80000000). Rarely stored in on-disk ACEs — Windows normally maps this to specific rights (FILE_READ_DATA | FILE_READ_ATTRIBUTES | FILE_READ_EA | READ_CONTROL | SYNCHRONIZE) before writing. Kept as a defensive fallback.",
    )
    ∷ (
      edge_kind_can_ntfs_generic_write,
      "NTFS DACL grants GENERIC_WRITE (0x40000000). Rarely stored in on-disk ACEs — Windows normally maps this to specific rights (FILE_WRITE_DATA | FILE_APPEND_DATA | FILE_WRITE_ATTRIBUTES | FILE_WRITE_EA | READ_CONTROL | SYNCHRONIZE) before writing. Kept as a defensive fallback.",
    )
    ∷ (
      edge_kind_can_ntfs_generic_execute,
      "NTFS DACL grants GENERIC_EXECUTE (0x20000000). Rarely stored in on-disk ACEs — Windows normally maps this to specific rights (FILE_EXECUTE | FILE_READ_ATTRIBUTES | READ_CONTROL | SYNCHRONIZE) before writing. Kept as a defensive fallback.",
    )
    ∷ (
      edge_kind_can_ntfs_generic_all,
      "NTFS DACL grants GENERIC_ALL (0x10000000). Rarely stored in on-disk ACEs — Windows normally maps this to FILE_ALL_ACCESS (0x001F01FF) before writing. Kept as a defensive fallback.",
    )
    ∷ (
      edge_kind_can_ntfs_access_system_security,
      "NTFS DACL grants ACCESS_SYSTEM_SECURITY, allowing the principal to read or modify the SACL (audit rules).",
    )
    ∷ (
      edge_kind_can_ntfs_synchronize,
      "NTFS DACL grants SYNCHRONIZE, allowing the principal to use the object for synchronization.",
    )
    ∷ (
      edge_kind_can_ntfs_write_owner,
      "NTFS DACL grants WRITE_OWNER, allowing the principal to change the file or directory owner.",
    )
    ∷ (
      edge_kind_can_ntfs_write_dacl,
      "NTFS DACL grants WRITE_DAC, allowing the principal to modify the NTFS DACL (change permissions).",
    )
    ∷ (
      edge_kind_can_ntfs_read_control,
      "NTFS DACL grants READ_CONTROL, allowing the principal to read the NTFS security descriptor.",
    )
    ∷ (
      edge_kind_can_ntfs_delete,
      "NTFS DACL grants DELETE, allowing the principal to delete the file or directory.",
    )
    ∷ (
      edge_kind_can_ntfs_read_data,
      "NTFS DACL grants FILE_READ_DATA (FILE_LIST_DIRECTORY), allowing the principal to read file contents or list directory entries.",
    )
    ∷ (
      edge_kind_can_ntfs_write_data,
      "NTFS DACL grants FILE_WRITE_DATA (FILE_ADD_FILE), allowing the principal to write data to a file or create files in a directory.",
    )
    ∷ (
      edge_kind_can_ntfs_append_data,
      "NTFS DACL grants FILE_APPEND_DATA (FILE_ADD_SUBDIRECTORY), allowing the principal to append data to a file or create subdirectories.",
    )
    ∷ (
      edge_kind_can_ntfs_read_ea,
      "NTFS DACL grants FILE_READ_EA, allowing the principal to read extended attributes of the file or directory.",
    )
    ∷ (
      edge_kind_can_ntfs_write_ea,
      "NTFS DACL grants FILE_WRITE_EA, allowing the principal to write extended attributes of the file or directory.",
    )
    ∷ (
      edge_kind_can_ntfs_execute,
      "NTFS DACL grants FILE_EXECUTE (FILE_TRAVERSE), allowing the principal to execute a file or traverse a directory.",
    )
    ∷ (
      edge_kind_can_ntfs_delete_child,
      "NTFS DACL grants FILE_DELETE_CHILD, allowing the principal to delete child objects within the directory.",
    )
    ∷ (
      edge_kind_can_ntfs_read_attributes,
      "NTFS DACL grants FILE_READ_ATTRIBUTES, allowing the principal to read basic attributes of the file or directory.",
    )
    ∷ (
      edge_kind_can_ntfs_write_attributes,
      "NTFS DACL grants FILE_WRITE_ATTRIBUTES, allowing the principal to modify basic attributes of the file or directory.",
    )
    ∷ (
      edge_kind_can_effective_read,
      "The principal can read this file or directory over SMB. Both the share-level and NTFS DACLs grant read access for this SID.",
    )
    ∷ (
      edge_kind_can_effective_write,
      "The principal can write to this file or directory over SMB. Both the share-level and NTFS DACLs grant write access for this SID.",
    )
    ∷ (
      edge_kind_can_effective_execute,
      "The principal can execute files or traverse this directory over SMB. Both the share-level and NTFS DACLs grant execute access for this SID.",
    )
    ∷ []

lookup_description : Text → List (Text × String) → Option String
lookup_description k [] = none
lookup_description k ((j, v) ∷ m) = if eqb j k then some v else lookup_description k m

-- `kinds.EdgeDescriptions[kind]`
unfoldable pub description : Text → Option String
unfolding edge_descriptions lookup_description
description k = lookup_description k edge_descriptions

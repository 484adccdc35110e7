-- ===== src/Kinds.antt =====
-- Go/pkg/kinds/kinds.go: the names of node and edge kinds, and the descriptions of edge kinds.
pub mod Descriptions
use share_hound.Prelude.Text.{Text, codes}

abbrev pub node_kind_network_share_base : Text
node_kind_network_share_base = codes "NetworkShareBase"

abbrev pub node_kind_network_share_host : Text
node_kind_network_share_host = codes "NetworkShareHost"

abbrev pub node_kind_network_share_dfs : Text
node_kind_network_share_dfs = codes "NetworkShareDFS"

abbrev pub node_kind_network_share_smb : Text
node_kind_network_share_smb = codes "NetworkShareSMB"

abbrev pub node_kind_file : Text
node_kind_file = codes "File"

abbrev pub node_kind_directory : Text
node_kind_directory = codes "Directory"

abbrev pub node_kind_principal : Text
node_kind_principal = codes "Principal"

abbrev pub node_kind_group : Text
node_kind_group = codes "Group"

abbrev pub edge_kind_has_network_share : Text
edge_kind_has_network_share = codes "HasNetworkShare"

abbrev pub edge_kind_hosts_network_share : Text
edge_kind_hosts_network_share = codes "HostsNetworkShare"

abbrev pub edge_kind_contains : Text
edge_kind_contains = codes "Contains"

abbrev pub edge_kind_can_generic_execute : Text
edge_kind_can_generic_execute = codes "CanGenericExecute"

abbrev pub edge_kind_can_generic_write : Text
edge_kind_can_generic_write = codes "CanGenericWrite"

abbrev pub edge_kind_can_generic_read : Text
edge_kind_can_generic_read = codes "CanGenericRead"

abbrev pub edge_kind_can_generic_all : Text
edge_kind_can_generic_all = codes "CanGenericAll"

abbrev pub edge_kind_can_ds_create_child : Text
edge_kind_can_ds_create_child = codes "CanDsCreateChild"

abbrev pub edge_kind_can_ds_delete_child : Text
edge_kind_can_ds_delete_child = codes "CanDsDeleteChild"

abbrev pub edge_kind_can_ds_list_contents : Text
edge_kind_can_ds_list_contents = codes "CanDsListContents"

abbrev pub edge_kind_can_ds_write_extended_properties : Text
edge_kind_can_ds_write_extended_properties = codes "CanDsWriteExtendedProperties"

abbrev pub edge_kind_can_ds_read_property : Text
edge_kind_can_ds_read_property = codes "CanDsReadProperty"

abbrev pub edge_kind_can_ds_write_property : Text
edge_kind_can_ds_write_property = codes "CanDsWriteProperty"

abbrev pub edge_kind_can_ds_delete_tree : Text
edge_kind_can_ds_delete_tree = codes "CanDsDeleteTree"

abbrev pub edge_kind_can_ds_list_object : Text
edge_kind_can_ds_list_object = codes "CanDsListObject"

abbrev pub edge_kind_can_ds_control_access : Text
edge_kind_can_ds_control_access = codes "CanDsControlAccess"

abbrev pub edge_kind_can_delete : Text
edge_kind_can_delete = codes "CanDelete"

abbrev pub edge_kind_can_read_control : Text
edge_kind_can_read_control = codes "CanReadControl"

abbrev pub edge_kind_can_write_dacl : Text
edge_kind_can_write_dacl = codes "CanWriteDacl"

abbrev pub edge_kind_can_write_owner : Text
edge_kind_can_write_owner = codes "CanWriteOwner"

abbrev pub edge_kind_can_share_read : Text
edge_kind_can_share_read = codes "CanShareRead"

abbrev pub edge_kind_can_share_write : Text
edge_kind_can_share_write = codes "CanShareWrite"

abbrev pub edge_kind_can_share_execute : Text
edge_kind_can_share_execute = codes "CanShareExecute"

abbrev pub edge_kind_can_ntfs_generic_read : Text
edge_kind_can_ntfs_generic_read = codes "CanNTFSGenericRead"

abbrev pub edge_kind_can_ntfs_generic_write : Text
edge_kind_can_ntfs_generic_write = codes "CanNTFSGenericWrite"

abbrev pub edge_kind_can_ntfs_generic_execute : Text
edge_kind_can_ntfs_generic_execute = codes "CanNTFSGenericExecute"

abbrev pub edge_kind_can_ntfs_generic_all : Text
edge_kind_can_ntfs_generic_all = codes "CanNTFSGenericAll"

abbrev pub edge_kind_can_ntfs_access_system_security : Text
edge_kind_can_ntfs_access_system_security = codes "CanNTFSAccessSystemSecurity"

abbrev pub edge_kind_can_ntfs_synchronize : Text
edge_kind_can_ntfs_synchronize = codes "CanNTFSSynchronize"

abbrev pub edge_kind_can_ntfs_write_owner : Text
edge_kind_can_ntfs_write_owner = codes "CanNTFSWriteOwner"

abbrev pub edge_kind_can_ntfs_write_dacl : Text
edge_kind_can_ntfs_write_dacl = codes "CanNTFSWriteDacl"

abbrev pub edge_kind_can_ntfs_read_control : Text
edge_kind_can_ntfs_read_control = codes "CanNTFSReadControl"

abbrev pub edge_kind_can_ntfs_delete : Text
edge_kind_can_ntfs_delete = codes "CanNTFSDelete"

abbrev pub edge_kind_can_ntfs_read_data : Text
edge_kind_can_ntfs_read_data = codes "CanNTFSReadData"

abbrev pub edge_kind_can_ntfs_write_data : Text
edge_kind_can_ntfs_write_data = codes "CanNTFSWriteData"

abbrev pub edge_kind_can_ntfs_append_data : Text
edge_kind_can_ntfs_append_data = codes "CanNTFSAppendData"

abbrev pub edge_kind_can_ntfs_read_ea : Text
edge_kind_can_ntfs_read_ea = codes "CanNTFSReadEA"

abbrev pub edge_kind_can_ntfs_write_ea : Text
edge_kind_can_ntfs_write_ea = codes "CanNTFSWriteEA"

abbrev pub edge_kind_can_ntfs_execute : Text
edge_kind_can_ntfs_execute = codes "CanNTFSExecute"

abbrev pub edge_kind_can_ntfs_delete_child : Text
edge_kind_can_ntfs_delete_child = codes "CanNTFSDeleteChild"

abbrev pub edge_kind_can_ntfs_read_attributes : Text
edge_kind_can_ntfs_read_attributes = codes "CanNTFSReadAttributes"

abbrev pub edge_kind_can_ntfs_write_attributes : Text
edge_kind_can_ntfs_write_attributes = codes "CanNTFSWriteAttributes"

abbrev pub edge_kind_can_effective_read : Text
edge_kind_can_effective_read = codes "CanEffectiveRead"

abbrev pub edge_kind_can_effective_write : Text
edge_kind_can_effective_write = codes "CanEffectiveWrite"

abbrev pub edge_kind_can_effective_execute : Text
edge_kind_can_effective_execute = codes "CanEffectiveExecute"

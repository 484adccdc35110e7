-- ===== src/Smb/Flags.antt =====
-- Go/internal/smb/access_mask.go: the flags of the access masks.
use share_hound.Prelude.{ℕ}

abbrev pub ds_create_child : ℕ
ds_create_child = 0x00000001

abbrev pub ds_delete_child : ℕ
ds_delete_child = 0x00000002

abbrev pub ds_list_contents : ℕ
ds_list_contents = 0x00000004

abbrev pub ds_write_property_extended : ℕ
ds_write_property_extended = 0x00000008

abbrev pub ds_read_property : ℕ
ds_read_property = 0x00000010

abbrev pub ds_write_property : ℕ
ds_write_property = 0x00000020

abbrev pub ds_delete_tree : ℕ
ds_delete_tree = 0x00000040

abbrev pub ds_list_object : ℕ
ds_list_object = 0x00000080

abbrev pub ds_control_access : ℕ
ds_control_access = 0x00000100

abbrev pub access_delete : ℕ
access_delete = 0x00010000

abbrev pub access_read_control : ℕ
access_read_control = 0x00020000

abbrev pub access_write_dac : ℕ
access_write_dac = 0x00040000

abbrev pub access_write_owner : ℕ
access_write_owner = 0x00080000

abbrev pub generic_all : ℕ
generic_all = 0x10000000

abbrev pub generic_execute : ℕ
generic_execute = 0x20000000

abbrev pub generic_write : ℕ
generic_write = 0x40000000

abbrev pub generic_read : ℕ
generic_read = 0x80000000

abbrev pub share_file_read_data : ℕ
share_file_read_data = 0x00000001

abbrev pub share_file_write_data : ℕ
share_file_write_data = 0x00000002

abbrev pub share_file_execute : ℕ
share_file_execute = 0x00000020

abbrev pub ntfs_generic_read : ℕ
ntfs_generic_read = 0x80000000

abbrev pub ntfs_generic_write : ℕ
ntfs_generic_write = 0x40000000

abbrev pub ntfs_generic_execute : ℕ
ntfs_generic_execute = 0x20000000

abbrev pub ntfs_generic_all : ℕ
ntfs_generic_all = 0x10000000

abbrev pub ntfs_access_system_security : ℕ
ntfs_access_system_security = 0x01000000

abbrev pub ntfs_synchronize : ℕ
ntfs_synchronize = 0x00100000

abbrev pub ntfs_write_owner : ℕ
ntfs_write_owner = 0x00080000

abbrev pub ntfs_write_dacl : ℕ
ntfs_write_dacl = 0x00040000

abbrev pub ntfs_read_control : ℕ
ntfs_read_control = 0x00020000

abbrev pub ntfs_delete : ℕ
ntfs_delete = 0x00010000

abbrev pub ntfs_file_read_data : ℕ
ntfs_file_read_data = 0x00000001

abbrev pub ntfs_file_write_data : ℕ
ntfs_file_write_data = 0x00000002

abbrev pub ntfs_file_append_data : ℕ
ntfs_file_append_data = 0x00000004

abbrev pub ntfs_file_read_ea : ℕ
ntfs_file_read_ea = 0x00000008

abbrev pub ntfs_file_write_ea : ℕ
ntfs_file_write_ea = 0x00000010

abbrev pub ntfs_file_execute : ℕ
ntfs_file_execute = 0x00000020

abbrev pub ntfs_file_delete_child : ℕ
ntfs_file_delete_child = 0x00000040

abbrev pub ntfs_file_read_attributes : ℕ
ntfs_file_read_attributes = 0x00000080

abbrev pub ntfs_file_write_attributes : ℕ
ntfs_file_write_attributes = 0x00000100

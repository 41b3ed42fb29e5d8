-- ===== src/Ext2.antt =====
-- kernel/src/ext2.rs: the ext2 file system. The structures on the disk, and what the file system
-- uses of the crate `packed_struct` and of the device below it. A field is a number; an array of
-- numbers is a list.
mod Monad
mod Device
mod Layout
pub mod Fs
pub mod Mount
pub mod Alloc
pub mod Pointer
pub mod Structure
pub mod Inode
mod Image
mod Tests
use ron.Base.{
  ℕ, ◌+◌, ◌/◌, ◌%◌, ◌^◌, ◌==◌, Bool, not, if◌then◌else◌, bit_and, Option, List, replicate,
}

pub record Ext2SuperBlock : Type 0 where
  pub max_no_of_inodes : ℕ
  pub max_no_of_blocks : ℕ
  pub superuser_reserved_blocks : ℕ
  pub unallocated_blocks : ℕ
  pub unallocated_inodes : ℕ
  pub superblock_block_number : ℕ
  pub block_size_log2_minus_10 : ℕ
  pub fragment_size_log2_minus_10 : ℕ
  pub blocks_per_block_group : ℕ
  pub fragments_per_block_group : ℕ
  pub inodes_per_block_group : ℕ
  pub last_mount_unix_timestamp : ℕ
  pub last_written_unix_timestamp : ℕ
  pub mounts_since_last_check : ℕ
  pub mounts_allowed_before_check : ℕ
  pub ext2_signature : ℕ
  pub fs_state : ℕ
  pub on_error : ℕ
  pub minor_version : ℕ
  pub last_check_unix_timestamp : ℕ
  pub max_interval_between_checks : ℕ
  pub os_id : ℕ
  pub major_version : ℕ
  pub uid_for_reserved_blocks : ℕ
  pub gid_for_reserved_blocks : ℕ

pub record Ext2ExtendedSuperblock : Type 0 where
  pub first_non_reserved_inode_in_fs : ℕ
  pub inode_size : ℕ
  pub block_group_of_this_superblock : ℕ
  pub optional_features : ℕ
  pub required_features : ℕ
  pub write_features : ℕ
  pub fs_id : List ℕ
  pub volume_name : List ℕ
  pub last_mounted : List ℕ
  pub compression_algorithm : ℕ
  pub blocks_to_preallocate_for_files : ℕ
  pub blocks_to_preallocate_for_directories : ℕ
  pub unused1 : ℕ
  pub journal_id : List ℕ
  pub journal_inode : ℕ
  pub journal_device : ℕ
  pub head_of_orphan_inode_list : ℕ

pub record Ext2BlockGroupDescriptor : Type 0 where
  pub block_addr_for_block_usage_bitmap : ℕ
  pub block_addr_for_inode_usage_bitmap : ℕ
  pub block_addr_for_inode_table : ℕ
  pub unallocated_blocks_in_group : ℕ
  pub unallocated_inodes_in_group : ℕ
  pub directories_in_group : ℕ

pub record Ext2RawInode : Type 0 where
  pub type_and_perm : ℕ
  pub user_id : ℕ
  pub low32_size : ℕ
  pub last_access_unix_timestamp : ℕ
  pub creation_unix_timestamp : ℕ
  pub last_modif_unix_timestamp : ℕ
  pub deletion_unix_timestamp : ℕ
  pub group_id : ℕ
  pub hard_links_to_inode : ℕ
  pub disk_sectors_used : ℕ
  pub flags : ℕ
  pub os_value_1 : ℕ
  pub direct_block_pointers : List ℕ
  pub singly_indirect_block_pointer : ℕ
  pub doubly_indirect_block_pointer : ℕ
  pub triply_indirect_block_pointer : ℕ
  pub generation_number : ℕ
  pub ext2_majorv1_extended_attribute_block : ℕ
  pub ext2_majorv1_upper32_size : ℕ
  pub block_addr_of_fragment : ℕ
  pub os_value_2 : List ℕ

-- `Ext2RawInode::default()`.
abbrev pub default_inode : Ext2RawInode
default_inode = record {
  type_and_perm = 0;
  user_id = 0;
  low32_size = 0;
  last_access_unix_timestamp = 0;
  creation_unix_timestamp = 0;
  last_modif_unix_timestamp = 0;
  deletion_unix_timestamp = 0;
  group_id = 0;
  hard_links_to_inode = 0;
  disk_sectors_used = 0;
  flags = 0;
  os_value_1 = 0;
  direct_block_pointers = replicate 12 0;
  singly_indirect_block_pointer = 0;
  doubly_indirect_block_pointer = 0;
  triply_indirect_block_pointer = 0;
  generation_number = 0;
  ext2_majorv1_extended_attribute_block = 0;
  ext2_majorv1_upper32_size = 0;
  block_addr_of_fragment = 0;
  os_value_2 = replicate 3 0;
}

module _ (esb : Ext2ExtendedSuperblock) where
  unfoldable pub has_unrecognised_required_features : Bool
  has_unrecognised_required_features =
      not (bit_and esb.required_features 0x000F == esb.required_features)

  unfoldable pub has_unrecognised_write_required_features : Bool
  has_unrecognised_write_required_features =
      not (bit_and esb.write_features 0x0007 == esb.write_features)

  unfoldable pub has_required_feature_compression : Bool
  has_required_feature_compression = not (bit_and esb.required_features 0x0001 == 0)

  unfoldable pub has_required_feature_replay_journal : Bool
  has_required_feature_replay_journal = not (bit_and esb.required_features 0x0004 == 0)

  unfoldable pub has_required_feature_journal_device : Bool
  has_required_feature_journal_device = not (bit_and esb.required_features 0x0008 == 0)

  unfoldable pub has_write_required_feature_directory_contents_binary_tree : Bool
  has_write_required_feature_directory_contents_binary_tree =
      not (bit_and esb.write_features 0x0004 == 0)

-- `get_size` and `set_size` of an inode.
abbrev pub get_size : Ext2RawInode → ℕ
get_size inode = inode.low32_size

unfoldable pub set_size : ℕ → Ext2RawInode → Ext2RawInode
set_size new_size inode =
    let size : ℕ = new_size % 2 ^ 32 in
    record inode {
      low32_size = size;
      disk_sectors_used = size / 512 + (if size % 512 == 0 then 0 else 1);
    }

-- What `packed_struct` derives for a structure: its bytes, and the structure of as many bytes as
-- `packed_bytes_size` says. Of any other number of bytes there is none: the conversion to an array
-- fails.
pub record Packed (A : Type 0) : Type 0 where
  pub pack : A → Option (List ℕ)
  pub unpack : List ℕ → Option A
  pub packed_bytes_size : Option ℕ

-- The device that holds the file system, an `IFile`.
pub record Disk : Type 1 where
  pub Device : Type 0
  pub read : Device → ℕ → ℕ → Option (List ℕ)
  pub write : Device → ℕ → List ℕ → Option ℕ × Device
  pub super_block : Packed Ext2SuperBlock
  pub extended_super_block : Packed Ext2ExtendedSuperblock
  pub block_group_descriptor : Packed Ext2BlockGroupDescriptor
  pub raw_inode : Packed Ext2RawInode

pub record Ext2Fs (D : Type 0) : Type 0 where
  pub backing_device : D
  pub sb : Ext2SuperBlock
  pub extended_sb : Option Ext2ExtendedSuperblock
  pub read_only : Bool

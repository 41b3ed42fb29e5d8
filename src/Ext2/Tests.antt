-- ===== src/Ext2/Tests.antt =====
-- A device of 8192 bytes with a small file system, and the theorems on it.
use ron.Base.{
  ℕ, zero, suc, ◌+◌, ◌*◌, ◌≤◌, ◌<◌, ◌==◌, ◌≡◌, ◌⊎◌, refl, false, if◌then◌else◌, none, some, List,
  [], ◌∷◌, length, get_elem?, replicate, arith,
}
use ron.Base.Run.{ran}
use ron.Ext2.{Ext2SuperBlock, Ext2BlockGroupDescriptor, Ext2RawInode}
use ron.Ext2.Fs.{Fs, read, read_block, get_block_size}
use ron.Ext2.Device.{slice, length-slice}
use ron.Ext2.Alloc.{alloc_block, find_free}
use ron.Ext2.Alloc.Bitmap.{entry_at, find_free_lem}
use ron.Ext2.Alloc.{first_success, alloc_block_close_to}
use ron.Ext2.Alloc.Search.{groups_of}
use ron.Ext2.Alloc.Steady.{alloc_block_close_to-ends}
use ron.Ext2.Inode.{read_bytes}
use ron.Ext2.Inode.Reads.{Readable, file_byte, read_bytes_lem}
use ron.Ext2.Pointer.{
  Place, doubly, locate, place_of, read_place, read_data_block_pointer, read_data_block,
}
use ron.Ext2.Pointer.Path.{number_at, IsWithin}
use ron.Ext2.Pointer.Tree.{capacity, place_of_lem}
use ron.Ext2.Image.{image_disk}

-- The super block, with one group of sixteen blocks of 1024 bytes.
abbrev small_super : Ext2SuperBlock
small_super = record {
  max_no_of_inodes = 16;
  max_no_of_blocks = 16;
  superuser_reserved_blocks = 0;
  unallocated_blocks = 5;
  unallocated_inodes = 0;
  superblock_block_number = 0;
  block_size_log2_minus_10 = 0;
  fragment_size_log2_minus_10 = 0;
  blocks_per_block_group = 16;
  fragments_per_block_group = 0;
  inodes_per_block_group = 16;
  last_mount_unix_timestamp = 0;
  last_written_unix_timestamp = 0;
  mounts_since_last_check = 0;
  mounts_allowed_before_check = 0;
  ext2_signature = 0;
  fs_state = 0;
  on_error = 0;
  minor_version = 0;
  last_check_unix_timestamp = 0;
  max_interval_between_checks = 0;
  os_id = 0;
  major_version = 0;
  uid_for_reserved_blocks = 0;
  gid_for_reserved_blocks = 0;
}

-- Block 2 holds the descriptor, and block 4 the bitmap, whose first two entries are in use.
abbrev cells : ℕ → ℕ
cells x = if x == 2048 then 4 else if x == 2060 then 5 else if x == 4096 then 3 else 0

abbrev small_fs : Fs image_disk
small_fs = record {
  backing_device = record { size = 8192; cells = cells };
  sb = small_super;
  extended_sb = none;
  read_only = false;
}

abbrev small_descriptor : Ext2BlockGroupDescriptor
small_descriptor = record {
  block_addr_for_block_usage_bitmap = 4;
  block_addr_for_inode_usage_bitmap = 0;
  block_addr_for_inode_table = 0;
  unallocated_blocks_in_group = 5;
  unallocated_inodes_in_group = 0;
  directories_in_group = 0;
}

-- A bitmap whose first byte is full.
abbrev byte_full : List ℕ
byte_full = 255 ∷ 3 ∷ []

find_free_example :
    ((i : ℕ) × ((bit : ℕ) × ((byte : ℕ) × (find_free byte_full small_fs
            ≡ ran (some (i, bit, byte), small_fs))
          × (get_elem? byte_full i ≡ some byte)
          × (bit < 8)
          × (entry_at byte_full (i * 8 + bit) ≡ 0)
          × ((n : ℕ) → n < i * 8 + bit → entry_at byte_full n ≡ 1))))
    ⊎ ((find_free byte_full small_fs ≡ ran (none, small_fs))
        × ((n : ℕ) → n < 8 * 2 → entry_at byte_full n ≡ 1))
find_free_example = find_free_lem small_fs byte_full (omega arith, (omega arith, tt))

place_of_example :
    ((300 < capacity 256)
      × ((place : Place) × IsWithin 256 place
          × (number_at 256 place ≡ 300)
          × (place_of image_disk 300 small_fs ≡ ran (some place, small_fs))))
    ⊎ ((capacity 256 ≤ 300) × (place_of image_disk 300 small_fs ≡ ran (none, small_fs)))
place_of_example = place_of_lem image_disk small_fs (omega arith) 300

-- Block 300 is the 33rd of the first block in the doubly indirect one.
place_of_runs : place_of image_disk 300 small_fs ≡ ran (some (doubly 0 32), small_fs)
unfolding place_of locate get_block_size
place_of_runs = refl

alloc_block_close_to-ends_example :
    first_success image_disk (groups_of small_fs + 2 + 5) (alloc_block image_disk) 0 small_fs
    ≡ alloc_block_close_to image_disk 0 small_fs
alloc_block_close_to-ends_example = alloc_block_close_to-ends image_disk 0 5 small_fs

-- A file of 3000 bytes in blocks 5, 6 and 7.
abbrev small_inode : Ext2RawInode
small_inode = record {
  type_and_perm = 0;
  user_id = 0;
  low32_size = 3000;
  last_access_unix_timestamp = 0;
  creation_unix_timestamp = 0;
  last_modif_unix_timestamp = 0;
  deletion_unix_timestamp = 0;
  group_id = 0;
  hard_links_to_inode = 0;
  disk_sectors_used = 0;
  flags = 0;
  os_value_1 = 0;
  direct_block_pointers = 5 ∷ 6 ∷ 7 ∷ replicate 9 0;
  singly_indirect_block_pointer = 0;
  doubly_indirect_block_pointer = 0;
  triply_indirect_block_pointer = 0;
  generation_number = 0;
  ext2_majorv1_extended_attribute_block = 0;
  ext2_majorv1_upper32_size = 0;
  block_addr_of_fragment = 0;
  os_value_2 = replicate 3 0;
}

abbrev small_block : ℕ → List ℕ
small_block i = slice cells (1024 * (5 + i)) 1024

small_sized : (i : ℕ) → length (small_block i) ≡ 1024
small_sized i = length-slice cells (1024 * (5 + i)) 1024

small_reads : Readable image_disk small_fs small_inode small_block 1 0
unfolding read_data_block read_data_block_pointer place_of read_place read_block read get_block_size
small_reads zero h = refl
small_reads (suc j) h = absurd (omega arith)

-- A hundred bytes from offset 1000 on: the first block has twenty-four of them.
read_bytes_example :
    (bytes : List ℕ) × (read_bytes image_disk small_inode 1000 100 small_fs
      ≡ ran (some bytes, small_fs))
    × (length bytes ≡ 24)
    × ((k : ℕ) → k < length bytes → get_elem? bytes k ≡ file_byte small_block 1024 (1000 + k))
read_bytes_example =
    read_bytes_lem image_disk small_fs small_inode small_block 1000 100 (omega arith) (omega arith)
      (omega arith) small_reads small_sized

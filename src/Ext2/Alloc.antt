-- ===== src/Ext2/Alloc.antt =====
-- kernel/src/ext2.rs: `Ext2FS` allocates blocks and inodes by a bitmap for each block group. In a
-- bitmap, a set bit is in use.
pub mod Bitmap
pub mod Marks
pub mod Ready
pub mod Allocated
pub mod Result
pub mod Search
pub mod Ends
pub mod Steady
pub mod Inodes
use ron.Base.{
  ℕ, zero, suc, ◌+◌, ◌-◌, ◌*◌, ◌/◌, ◌%◌, ◌^◌, ◌==◌, ltb, if◌then◌else◌, Option, none, some, List,
  [], ◌∷◌, set, replicate, get_elem?, bit_and, bit_or,
}
use ron.Base.Run.{Run, panic, ran}
use ron.Ext2.{Ext2BlockGroupDescriptor, Disk, default_inode}
use ron.Ext2.Monad.{
  M, ◌>>=◌, ◌>>◌, pure, fail, abort, lift, get, put, run, add, mul, ignore, attempt,
}
use ron.Ext2.Fs.{
  Fs, round_up, get_block_size, read_block, write_block, get_number_of_block_groups,
  get_number_of_special_blocks, get_descriptor_index_of_block_number,
  get_descriptor_subindex_of_block_number, get_descriptor_index_of_inode_addr,
  get_descriptor_subindex_of_inode_addr, read_block_group_descriptor, write_block_group_descriptor,
  flush_super_blocks, write_inode,
}

-- `bitmap.iter().enumerate().find(|(_, val)| *val != 0xff)`.
unfoldable pub find_byte : ℕ → List ℕ → Option (ℕ × ℕ)
find_byte i [] = none
find_byte i (b ∷ bs) = if b == 0xff then find_byte (suc i) bs else some (i, b)

-- The loop over the bits of the byte. The shift of a byte by eight panics.
unfoldable pub find_bit : ℕ → ℕ → ℕ → Run ℕ
find_bit zero bit byte = panic
find_bit (suc left) bit byte =
    let rest = find_bit left (suc bit) byte in if byte / 2 ^ bit % 2 == 0 then ran bit else rest

-- The byte and the bit in it of the first free entry.
unfoldable pub find_free : {S : Type 0} → List ℕ → M S (ℕ × ℕ × ℕ)
find_free bitmap = do
  (i, byte) ← lift (find_byte 0 bitmap)
  bit ← run (find_bit 8 0 byte)
  pure (i, bit, byte)

-- `bitmap[i]`.
abbrev pub byte_at : {S : Type 0} → Option ℕ → M S ℕ
byte_at none = abort
byte_at (some b) = pure b

module _ (disk : Disk) where
  unfoldable pub alloc_block : ℕ → M (Fs disk) ℕ
  alloc_block group = do
    fs ← get
    if fs.sb.unallocated_blocks == 0 then fail else do
      descriptor ← read_block_group_descriptor disk group
      if descriptor.unallocated_blocks_in_group == 0 then fail else do
        bitmap ← read_block disk descriptor.block_addr_for_block_usage_bitmap
        (i, bit, byte) ← find_free bitmap
        base ← mul 32 group fs.sb.blocks_per_block_group
        in_groups ← add 32 ((i * 8 + bit) % 2 ^ 32) base
        special ← get_number_of_special_blocks disk
        pointer ← add 32 in_groups (special % 2 ^ 32)
        write_block disk descriptor.block_addr_for_block_usage_bitmap
            (set bitmap i (bit_or byte (2 ^ bit)))
        write_block_group_descriptor disk group (record descriptor {
          unallocated_blocks_in_group = descriptor.unallocated_blocks_in_group - 1;
        })
        fs ← get
        put (record fs { sb = record fs.sb { unallocated_blocks = fs.sb.unallocated_blocks - 1 } })
        ignore (flush_super_blocks disk)
        block_size ← get_block_size disk
        write_block disk pointer (replicate block_size 0)
        pure pointer

  -- The new byte of a bitmap is written, whether that succeeds or not.
  unfoldable pub dealloc_block : ℕ → M (Fs disk) (Unit {0})
  dealloc_block number = do
    fs ← get
    if fs.sb.unallocated_blocks == fs.sb.max_no_of_blocks then fail else do
      group ← get_descriptor_index_of_block_number disk number
      offset ← get_descriptor_subindex_of_block_number disk number
      descriptor ← read_block_group_descriptor disk group
      if descriptor.unallocated_blocks_in_group == fs.sb.blocks_per_block_group then abort else do
        bitmap ← read_block disk descriptor.block_addr_for_block_usage_bitmap
        byte ← byte_at (get_elem? bitmap (offset / 8))
        if bit_and byte (2 ^ (offset % 8)) == 0 then fail else do
          ignore (
              write_block disk descriptor.block_addr_for_block_usage_bitmap
                (set bitmap (offset / 8) (bit_and byte (0xff - 2 ^ (offset % 8)))))
          free ← add 16 descriptor.unallocated_blocks_in_group 1
          write_block_group_descriptor disk group
              (record descriptor { unallocated_blocks_in_group = free })
          fs ← get
          free ← add 32 fs.sb.unallocated_blocks 1
          put (record fs { sb = record fs.sb { unallocated_blocks = free } })
          ignore (flush_super_blocks disk)

  -- An allocation is tried in the group, and in the groups that follow, until one succeeds. The
  -- fuel is more than the number of groups.
  abbrev pub try_next : Option ℕ → M (Fs disk) ℕ → M (Fs disk) ℕ
  try_next (some n) next = pure n
  try_next none next = next

  unfoldable pub first_success : ℕ → (ℕ → M (Fs disk) ℕ) → ℕ → M (Fs disk) ℕ
  first_success zero alloc group = fail
  first_success (suc fuel) alloc group = do
    r ← attempt (alloc group)
    try_next r (do
      next ← add 32 group 1
      groups ← get_number_of_block_groups disk
      if ltb groups next then fail else first_success fuel alloc next)

  unfoldable pub alloc_block_close_to : ℕ → M (Fs disk) ℕ
  alloc_block_close_to group = do
    fs ← get
    first_success (round_up fs.sb.max_no_of_blocks fs.sb.blocks_per_block_group + 2) alloc_block
        group

  unfoldable pub alloc_inode : ℕ → M (Fs disk) ℕ
  alloc_inode group = do
    fs ← get
    if fs.sb.unallocated_inodes == 0 then fail else do
      descriptor ← read_block_group_descriptor disk group
      if descriptor.unallocated_inodes_in_group == 0 then fail else do
        bitmap ← read_block disk descriptor.block_addr_for_inode_usage_bitmap
        (i, bit, byte) ← find_free bitmap
        base ← mul 32 fs.sb.inodes_per_block_group group
        index ← add 32 ((i * 8 + bit) % 2 ^ 32) base
        inode_addr ← add 32 index 1
        if inode_addr == 1 then fail else do
          write_block disk descriptor.block_addr_for_inode_usage_bitmap
              (set bitmap i (bit_or byte (2 ^ bit)))
          write_block_group_descriptor disk group (record descriptor {
            unallocated_inodes_in_group = descriptor.unallocated_inodes_in_group - 1;
          })
          fs ← get
          put (record fs {
            sb = record fs.sb { unallocated_inodes = fs.sb.unallocated_inodes - 1 };
          })
          ignore (flush_super_blocks disk)
          write_inode disk inode_addr default_inode
          pure inode_addr

  unfoldable pub dealloc_inode : ℕ → M (Fs disk) (Unit {0})
  dealloc_inode inode_addr = do
    fs ← get
    if fs.sb.unallocated_inodes == fs.sb.max_no_of_inodes then fail else do
      group ← get_descriptor_index_of_inode_addr disk inode_addr
      offset ← get_descriptor_subindex_of_inode_addr disk inode_addr
      descriptor ← read_block_group_descriptor disk group
      if descriptor.unallocated_inodes_in_group == fs.sb.inodes_per_block_group then fail else do
        bitmap ← read_block disk descriptor.block_addr_for_inode_usage_bitmap
        byte ← byte_at (get_elem? bitmap (offset / 8))
        if bit_and byte (2 ^ (offset % 8)) == 0 then fail else do
          write_block disk descriptor.block_addr_for_inode_usage_bitmap
              (set bitmap (offset / 8) (bit_and byte (0xff - 2 ^ (offset % 8))))
          free ← add 16 descriptor.unallocated_inodes_in_group 1
          write_block_group_descriptor disk group
              (record descriptor { unallocated_inodes_in_group = free })
          fs ← get
          free ← add 32 fs.sb.unallocated_inodes 1
          put (record fs { sb = record fs.sb { unallocated_inodes = free } })
          ignore (flush_super_blocks disk)

  unfoldable pub alloc_inode_close_to : ℕ → M (Fs disk) ℕ
  alloc_inode_close_to group = do
    fs ← get
    first_success (round_up fs.sb.max_no_of_blocks fs.sb.blocks_per_block_group + 2) alloc_inode
        group

-- ===== src/Ext2/Fs.antt =====
-- kernel/src/ext2.rs: the methods of `Ext2FS` on bytes, blocks, block group descriptors, super
-- blocks and inodes. The kernel is built with overflow checks and debug assertions.
use ron.Base.{
  ℕ, ◌+◌, ◌*◌, ◌/◌, ◌%◌, ◌^◌, ◌==◌, ltb, leb, Bool, true, false, if◌then◌else◌, Option, none, some,
  List, [], ◌∷◌, length,
}
use ron.Ext2.{Ext2ExtendedSuperblock, Ext2BlockGroupDescriptor, Ext2RawInode, Disk, Ext2Fs}
use ron.Ext2.Monad.{
  M, ◌>>=◌, ◌>>◌, pure, fail, abort, lift, get, put, assert, add, mul, sub, div, rem,
}

abbrev pub same_bytes : List ℕ → List ℕ → Bool
same_bytes [] rs = true
same_bytes (w ∷ ws) [] = false
same_bytes (w ∷ ws) (r ∷ rs) = if w == r then same_bytes ws rs else false

-- `n / d`, and one more if a remainder is left.
abbrev pub round_up : ℕ → ℕ → ℕ
round_up n d = n / d + (if n % d == 0 then 0 else 1)

abbrev pub get_ondisk_block_group_descriptor_size : ℕ
get_ondisk_block_group_descriptor_size = 32

abbrev pub get_ondisk_super_block_size : ℕ
get_ondisk_super_block_size = 84

module _ (disk : Disk) where
  abbrev pub Fs : Type 0
  Fs = Ext2Fs disk.Device

  unfoldable pub read : ℕ → ℕ → M Fs (List ℕ)
  read addr size = do fs ← get; lift (disk.read fs.backing_device addr size)

  unfoldable pub sanity_check_write : ℕ → List ℕ → M Fs (Unit {0})
  sanity_check_write addr written = do
    read_back ← read addr (length written)
    lift (if same_bytes written read_back then some tt else none)

  -- The device has changed also where the check fails.
  unfoldable pub write : ℕ → List ℕ → M Fs ℕ
  write addr bytes = do
    fs ← get
    if fs.read_only then fail else do
      let (res, device) = disk.write fs.backing_device addr bytes
      put (record fs { backing_device = device })
      sanity_check_write addr bytes
      lift res

  -- `2u32.pow(self.sb.block_size_log2_minus_10 + 10)`.
  unfoldable pub get_block_size : M Fs ℕ
  get_block_size = do
    fs ← get
    if ltb (fs.sb.block_size_log2_minus_10 + 10) 32
        then pure (2 ^ (fs.sb.block_size_log2_minus_10 + 10))
        else abort

  unfoldable pub read_block : ℕ → M Fs (List ℕ)
  read_block number =
      if number == 0
      then fail
      else do block_size ← get_block_size; addr ← mul 32 block_size number; read addr block_size

  unfoldable pub write_block : ℕ → List ℕ → M Fs (Unit {0})
  write_block number bytes = do
    block_size ← get_block_size
    assert (length bytes == block_size)
    if number == 0 then fail else do
      addr ← mul 32 block_size number
      bytes_written ← write addr bytes
      if ltb bytes_written block_size then fail else pure tt

  unfoldable pub get_number_of_block_groups : M Fs ℕ
  get_number_of_block_groups = do
    fs ← get
    _ ← div fs.sb.max_no_of_blocks fs.sb.blocks_per_block_group
    _ ← div fs.sb.max_no_of_inodes fs.sb.inodes_per_block_group
    assert (
        round_up fs.sb.max_no_of_blocks fs.sb.blocks_per_block_group
        == round_up fs.sb.max_no_of_inodes fs.sb.inodes_per_block_group)
    pure (round_up fs.sb.max_no_of_blocks fs.sb.blocks_per_block_group)

  unfoldable pub get_number_of_special_blocks : M Fs ℕ
  get_number_of_special_blocks = do
    block_size ← get_block_size
    groups ← get_number_of_block_groups
    pure (
        round_up (1024 + 1024) block_size
        + round_up (get_ondisk_block_group_descriptor_size * groups) block_size)

  -- The number of a block within the block groups, if it is not one of the special blocks.
  unfoldable pub block_in_groups : ℕ → M Fs ℕ
  block_in_groups block_number = do
    special ← get_number_of_special_blocks
    if ltb block_number (special % 2 ^ 32) then fail else sub block_number (special % 2 ^ 32)

  unfoldable pub get_descriptor_index_of_block_number : ℕ → M Fs ℕ
  get_descriptor_index_of_block_number block_number = do
    n ← block_in_groups block_number
    fs ← get
    div n fs.sb.blocks_per_block_group

  unfoldable pub get_descriptor_subindex_of_block_number : ℕ → M Fs ℕ
  get_descriptor_subindex_of_block_number block_number = do
    n ← block_in_groups block_number
    fs ← get
    rem n fs.sb.blocks_per_block_group

  unfoldable pub get_descriptor_index_of_inode_addr : ℕ → M Fs ℕ
  get_descriptor_index_of_inode_addr inode_addr = do
    n ← sub inode_addr 1
    fs ← get
    div n fs.sb.inodes_per_block_group

  unfoldable pub get_descriptor_subindex_of_inode_addr : ℕ → M Fs ℕ
  get_descriptor_subindex_of_inode_addr inode_addr = do
    n ← sub inode_addr 1
    fs ← get
    rem n fs.sb.inodes_per_block_group

  -- The address of a descriptor: the table follows the super block.
  unfoldable pub descriptor_addr : ℕ → M Fs ℕ
  descriptor_addr index = do
    offset ← mul 32 index get_ondisk_block_group_descriptor_size
    block_size ← get_block_size
    add 32 ((1024 + 1024) / block_size * block_size) offset

  unfoldable pub read_block_group_descriptor : ℕ → M Fs Ext2BlockGroupDescriptor
  read_block_group_descriptor index = do
    addr ← descriptor_addr index
    size ← lift disk.block_group_descriptor.packed_bytes_size
    raw ← read addr size
    lift (disk.block_group_descriptor.unpack raw)

  unfoldable pub write_block_group_descriptor : ℕ → Ext2BlockGroupDescriptor → M Fs (Unit {0})
  write_block_group_descriptor index descriptor = do
    addr ← descriptor_addr index
    raw ← lift (disk.block_group_descriptor.pack descriptor)
    _ ← write addr raw
    pure tt

  unfoldable pub flush_extended : Option Ext2ExtendedSuperblock → M Fs (Unit {0})
  flush_extended none = pure tt
  flush_extended (some esb) = do
    raw ← lift (disk.extended_super_block.pack esb)
    _ ← write (1024 + get_ondisk_super_block_size) raw
    pure tt

  unfoldable pub flush_super_blocks : M Fs (Unit {0})
  flush_super_blocks = do
    fs ← get
    raw ← lift (disk.super_block.pack fs.sb)
    _ ← write 1024 raw
    flush_extended fs.extended_sb

  abbrev expect_inode_size : Option Ext2ExtendedSuperblock → M Fs ℕ
  expect_inode_size none = abort
  expect_inode_size (some esb) = pure esb.inode_size

  unfoldable pub get_ondisk_inode_size : M Fs ℕ
  get_ondisk_inode_size = do
    fs ← get
    if leb 1 fs.sb.major_version then expect_inode_size fs.extended_sb else pure 128

  -- The address of an inode on the disk; the first inode is 1.
  unfoldable pub addr_of_inode : ℕ → M Fs ℕ
  addr_of_inode inode_addr = do
    index ← get_descriptor_index_of_inode_addr inode_addr
    descriptor ← read_block_group_descriptor index
    block_size ← get_block_size
    table ← mul 32 descriptor.block_addr_for_inode_table block_size
    subindex ← get_descriptor_subindex_of_inode_addr inode_addr
    inode_size ← get_ondisk_inode_size
    offset ← mul 32 subindex inode_size
    add 32 table offset

  unfoldable pub read_inode : ℕ → M Fs Ext2RawInode
  read_inode inode_addr = do
    addr ← addr_of_inode inode_addr
    size ← lift disk.raw_inode.packed_bytes_size
    raw ← read addr size
    lift (disk.raw_inode.unpack raw)

  unfoldable pub write_inode : ℕ → Ext2RawInode → M Fs (Unit {0})
  write_inode inode_addr inode = do
    addr ← addr_of_inode inode_addr
    raw ← lift (disk.raw_inode.pack inode)
    _ ← write addr raw
    pure tt

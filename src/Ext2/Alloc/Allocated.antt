-- ===== src/Ext2/Alloc/Allocated.antt =====
-- The steps of `alloc_block` of kernel/src/ext2.rs on a group with a free block.
use ron.Base.{
  ℕ, ◌+◌, ◌-◌, ◌*◌, ◌/◌, ◌%◌, ◌^◌, ◌≤◌, ◌<◌, ◌≡◌, ◌∙◌, refl, ==_neq, lt→ltb, some, List, length,
  length-set, replicate, length-replicate, arith,
}
use native.Mathlib.Nat.{one-le-pow, mod-eq_of_lt}
use ron.Base.Run.{ran}
use ron.Ext2.{Ext2BlockGroupDescriptor, Disk}
use ron.Ext2.Fs.{Fs, flush_super_blocks}
use ron.Ext2.Device.{
  length-slice, DiskLaws, written, block_size_of, get_block_size_lem, read_block_lem,
  write_block_lem,
}
use ron.Ext2.Layout.{
  Formats, Mounted, special_of, descriptor_at, get_number_of_special_blocks_lem,
  read_block_group_descriptor_lem, write_block_group_descriptor_lem, Mounted-device,
}
use ron.Ext2.Alloc.{alloc_block, find_free}
use ron.Ext2.Alloc.Marks.{mark}
use ron.Ext2.Alloc.Ready.{block_at, new_block, CanAllocate, one_less, OnDevice-moved}

le-mul : (a b : ℕ) → 1 ≤ a → b ≤ a * b
le-mul a b h = grind arith

module _ (disk : Disk) (laws : DiskLaws disk) (formats : Formats disk) where
  open laws use {bytes, size, write_size}

  module _ (fs : Fs disk) (g : ℕ) (d : Ext2BlockGroupDescriptor) (n : ℕ)
      (can : CanAllocate disk laws formats fs g d n) where
    abbrev pub b : ℕ
    b = d.block_addr_for_block_usage_bitmap

    abbrev pub bs : ℕ
    bs = block_size_of disk fs

    abbrev pub p : ℕ
    p = new_block disk laws formats fs can.mounted g n

    new_block_small : p < 2 ^ 32
    new_block_small =
        let one : 1 ≤ bs = one-le-pow (fs.sb.block_size_log2_minus_10 + 10) 2 (omega arith) in
        let le : p ≤ bs * p = le-mul bs p one in omega (arith, can.new_on.addressable)

    sum_1 : g * fs.sb.blocks_per_block_group < 2 ^ 32
    sum_1 = omega (arith, new_block_small)

    sum_2 : (n / 8 * 8 + n % 8) % 2 ^ 32 ≡ n
    sum_2 = omega (arith, new_block_small)

    -- The file system after the bitmap and the descriptor are written.
    abbrev pub counted : ℕ → List ℕ → Fs disk
    counted byte raw =
        let fs_1 : Fs disk =
          written disk laws fs (bs * b) (mark (block_at disk laws formats fs b) n byte) in
        record (written disk laws fs_1 (descriptor_at disk laws fs can.mounted g) raw) {
          sb = record fs.sb { unallocated_blocks = fs.sb.unallocated_blocks - 1 };
        }

    special_small :
        special_of disk laws fs can.mounted % 2 ^ 32 ≡ special_of disk laws fs can.mounted
    special_small = mod-eq_of_lt (omega (arith, new_block_small))

    pub length-mark : (byte : ℕ) → length (mark (block_at disk laws formats fs b) n byte) ≡ bs
    length-mark byte =
        length-set (block_at disk laws formats fs b) (n / 8) _
        ∙ length-slice (bytes fs.backing_device) (bs * b) bs

    abbrev pub first_written : ℕ → Fs disk
    first_written byte =
        written disk laws fs (bs * b) (mark (block_at disk laws formats fs b) n byte)

    pub size_1 : (byte : ℕ) → size (first_written byte).backing_device ≡ size fs.backing_device
    size_1 byte =
        write_size fs.backing_device (bs * b) (mark (block_at disk laws formats fs b) n byte)

    pub Mounted-write_block : (byte : ℕ) → Mounted disk laws (first_written byte)
    Mounted-write_block byte = Mounted-device disk laws fs _ (size_1 byte) can.mounted

    pub steps :
        (byte : ℕ) (raw : List ℕ) (d_3 : disk.Device)
        → find_free (block_at disk laws formats fs b) fs ≡ ran (some (n / 8, n % 8, byte), fs)
        → disk.block_group_descriptor.pack (one_less disk laws formats d) ≡ some raw
        → length raw ≡ 18
        → size d_3 ≡ size fs.backing_device
        → flush_super_blocks disk (counted byte raw)
          ≡ ran (some tt, record (counted byte raw) { backing_device = d_3 })
        → alloc_block disk g fs
          ≡ ran (
            some p,
            written disk laws
                (record (counted byte raw) { backing_device = d_3 })
                (bs * p)
                (replicate bs 0),
          )
    unfolding alloc_block
    steps byte raw d_3 found packed len same_size flushed =
        let fs_3 : Fs disk = record (counted byte raw) { backing_device = d_3 } in
        rw
          (
            ==_neq fs.sb.unallocated_blocks 0 can.block_free,
            read_block_group_descriptor_lem disk laws fs can.mounted formats g
                can.descriptor_addressable can.descriptor_inside can.stored,
            ==_neq d.unallocated_blocks_in_group 0 can.group_free,
            read_block_lem disk laws fs can.mounted.small b can.bitmap_on,
            found,
            lt→ltb (g * fs.sb.blocks_per_block_group) (2 ^ 32) sum_1,
            sum_2,
            lt→ltb (n + g * fs.sb.blocks_per_block_group) (2 ^ 32) (omega (arith, new_block_small)),
            get_number_of_special_blocks_lem disk laws fs can.mounted,
            special_small,
            lt→ltb p (2 ^ 32) new_block_small,
            write_block_lem disk laws fs can.mounted.small b can.bitmap_on
                (mark (block_at disk laws formats fs b) n byte) can.mounted.writable
                (length-mark byte),
            write_block_group_descriptor_lem disk laws (first_written byte)
                (Mounted-write_block byte) formats g (one_less disk laws formats d) raw
                can.descriptor_addressable (omega (arith, len, size_1 byte, can.descriptor_inside))
                packed,
            flushed,
            get_block_size_lem disk fs_3 can.mounted.small,
            write_block_lem disk laws fs_3 can.mounted.small p
                (OnDevice-moved disk laws formats fs fs_3 p refl same_size can.new_on)
                (replicate bs 0) can.mounted.writable (length-replicate bs 0),
          )
          refl

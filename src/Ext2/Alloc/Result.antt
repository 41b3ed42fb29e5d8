-- ===== src/Ext2/Alloc/Result.antt =====
-- `alloc_block` takes the first free block of a group, and records that everywhere.
use ron.Base.{ℕ, ◌-◌, ◌*◌, ◌==◌, ◌≡◌, if◌then◌else◌, some, List, length, replicate}
use ron.Base.Run.{ran}
use ron.Ext2.{Ext2BlockGroupDescriptor, Disk}
use ron.Ext2.Fs.{Fs, read_block, read_block_group_descriptor}
use ron.Ext2.Device.{DiskLaws, block_size_of}
use ron.Ext2.Layout.{Formats, SameOutside, descriptor_at}
use ron.Ext2.Alloc.Bitmap.{entry_at}
use ron.Ext2.Alloc.Marks.{mark}
use ron.Ext2.Alloc.Ready.{block_at, CanAllocate, new_block, one_less}
use ron.Ext2.Alloc.Allocated.{counted}

module _ (disk : Disk) (laws : DiskLaws disk) (formats : Formats disk) where
  open laws use {bytes, size, write_size, write_content}

  -- `p` is the new block of group `g`, `b` the block of its bitmap. In the bitmap the entry of the
  -- new block is in use and every other entry is as before, the new block is zeroed, and the
  -- descriptor and the super block count one free block less.
  pub record Allocated (fs : Fs disk) (g : ℕ) (d : Ext2BlockGroupDescriptor) (n p : ℕ)
      (fs' : Fs disk) : Type 0 where
    pub marked :
        (bitmap : List ℕ) × (read_block disk d.block_addr_for_block_usage_bitmap fs'
          ≡ ran (some bitmap, fs'))
        × ((m : ℕ)
            → entry_at bitmap m ≡ (
                if m == n
                then 1
                else entry_at
                    (block_at disk laws formats fs d.block_addr_for_block_usage_bitmap)
                    m))
    pub zeroed : read_block disk p fs' ≡ ran (some (replicate (block_size_of disk fs) 0), fs')
    pub descriptor :
        read_block_group_descriptor disk g fs' ≡ ran (some (one_less disk laws formats d), fs')
    pub super : fs'.sb.unallocated_blocks ≡ fs.sb.unallocated_blocks - 1

  module _ (fs : Fs disk) (g : ℕ) (d : Ext2BlockGroupDescriptor) (n : ℕ)
      (can : CanAllocate disk laws formats fs g d n) where
    abbrev b : ℕ
    b = d.block_addr_for_block_usage_bitmap

    abbrev bs : ℕ
    bs = block_size_of disk fs

    abbrev p : ℕ
    p = new_block disk laws formats fs can.mounted g n

    abbrev bitmap : List ℕ
    bitmap = block_at disk laws formats fs b

    abbrev at_d : ℕ
    at_d = descriptor_at disk laws fs can.mounted g

    -- The devices after the bitmap, the descriptor, the super blocks and the new block.
    module _ (byte : ℕ) (raw : List ℕ) (len : length raw ≡ 18) (d_3 : disk.Device)
        (same_3 : SameOutside disk laws 1024 2048
          (counted disk laws formats fs g d n can byte raw).backing_device
          d_3) where
      abbrev d_1 : disk.Device
      d_1 = (disk.write fs.backing_device (bs * b) (mark bitmap n byte)).1

      abbrev d_2 : disk.Device
      d_2 = (disk.write d_1 at_d raw).1

      abbrev d_4 : disk.Device
      d_4 = (disk.write d_3 (bs * p) (replicate bs 0)).1

      abbrev fs_4 : Fs disk
      fs_4 = record (counted disk laws formats fs g d n can byte raw) { backing_device = d_4 }

-- ===== src/Ext2/Alloc/Ready.antt =====
-- When `alloc_block` of kernel/src/ext2.rs succeeds on a group, and which block it finds.
use ron.Base.{
  ℕ, ◌+◌, ◌-◌, ◌*◌, ◌/◌, ◌%◌, ◌^◌, ◌≤◌, ◌<◌, ◌≡◌, ◌≢◌, ◌⊎◌, inl, inr, ap, ltb, some, List, length,
  get_elem?, All, Bool-cases, arith,
}
use ron.Base.Run.{ran}
use ron.Ext2.{Ext2BlockGroupDescriptor, Disk}
use ron.Ext2.Fs.{Fs}
use ron.Ext2.Device.{slice, DiskLaws, DescriptorFits, OnDevice, block_size_of}
use ron.Ext2.Layout.{Formats, Mounted, special_of, descriptor_at}
use ron.Ext2.Alloc.{find_free}
use ron.Ext2.Alloc.Bitmap.{entry_at, find_free_lem}

-- Two ranges of bytes, of `n` at `a` and of `m` at `b`, do not meet.
abbrev pub Apart : (a n b m : ℕ) → Type 0
Apart a n b m = (a + n ≤ b) ⊎ (b + m ≤ a)

module _ (disk : Disk) (laws : DiskLaws disk) (formats : Formats disk) where
  open laws use {bytes, size, write_size}

  -- The bytes of a block.
  abbrev pub block_at : Fs disk → ℕ → List ℕ
  block_at fs number =
      slice (bytes fs.backing_device) (block_size_of disk fs * number) (block_size_of disk fs)

  -- The number of the block that entry `n` of group `g` stands for.
  abbrev pub new_block : (fs : Fs disk) → Mounted disk laws fs → (g n : ℕ) → ℕ
  new_block fs ok g n = n + g * fs.sb.blocks_per_block_group + special_of disk laws fs ok

  -- Group `g` has descriptor `d`, and `n` is the first free entry of its bitmap.
  pub record CanAllocate (fs : Fs disk) (g : ℕ) (d : Ext2BlockGroupDescriptor) (n : ℕ)
      : Type 0 where
    pub mounted : Mounted disk laws fs
    pub block_free : fs.sb.unallocated_blocks ≢ 0
    pub group_free : d.unallocated_blocks_in_group ≢ 0
    pub descriptor_addressable : descriptor_at disk laws fs mounted g < 2 ^ 32
    pub descriptor_inside : descriptor_at disk laws fs mounted g + 18 ≤ size fs.backing_device
    pub stored :
        disk.block_group_descriptor.unpack
          (slice (bytes fs.backing_device) (descriptor_at disk laws fs mounted g) 18)
        ≡ some d
    pub fits : DescriptorFits d
    pub bitmap_on : OnDevice disk laws fs d.block_addr_for_block_usage_bitmap
    pub bitmap_bytes : All (λ b. b < 256) (block_at fs d.block_addr_for_block_usage_bitmap)
    pub in_bitmap : n < 8 * block_size_of disk fs
    pub entry_free : entry_at (block_at fs d.block_addr_for_block_usage_bitmap) n ≡ 0
    pub before : (m : ℕ) → m < n → entry_at (block_at fs d.block_addr_for_block_usage_bitmap) m ≡ 1
    pub new_on : OnDevice disk laws fs (new_block fs mounted g n)
    pub bitmap_descriptor :
        Apart
          (block_size_of disk fs * d.block_addr_for_block_usage_bitmap)
          (block_size_of disk fs)
          (descriptor_at disk laws fs mounted g)
          18
    pub bitmap_super :
        Apart
          (block_size_of disk fs * d.block_addr_for_block_usage_bitmap)
          (block_size_of disk fs)
          1024
          1024
    pub bitmap_new :
        Apart
          (block_size_of disk fs * d.block_addr_for_block_usage_bitmap)
          (block_size_of disk fs)
          (block_size_of disk fs * new_block fs mounted g n)
          (block_size_of disk fs)
    pub descriptor_super : Apart (descriptor_at disk laws fs mounted g) 18 1024 1024
    pub descriptor_new :
        Apart
          (descriptor_at disk laws fs mounted g)
          18
          (block_size_of disk fs * new_block fs mounted g n)
          (block_size_of disk fs)

  -- The group has one free block less, and the super block counts one less.
  abbrev pub one_less : Ext2BlockGroupDescriptor → Ext2BlockGroupDescriptor
  one_less d = record d { unallocated_blocks_in_group = d.unallocated_blocks_in_group - 1 }

  first_unique :
      (bitmap : List ℕ) (k n : ℕ)
      → entry_at bitmap k ≡ 0
      → entry_at bitmap n ≡ 0
      → ((m : ℕ) → m < k → entry_at bitmap m ≡ 1)
      → ((m : ℕ) → m < n → entry_at bitmap m ≡ 1)
      → k ≡ n
  first_unique bitmap k n free free' before before' = elim (Bool-cases (ltb k n)) [
    | inl h ↦ absurd (omega (arith, before' k (ground arith)))
    | inr h ↦ elim (Bool-cases (ltb n k)) [
      | inl h' ↦ absurd (omega (arith, before n (ground arith)))
      | inr h' ↦ ground arith
    ]
  ]

  pub find_first :
      {S : Type 0} (s : S) (bitmap : List ℕ) (n : ℕ)
      → All (λ b. b < 256) bitmap
      → n < 8 * length bitmap
      → entry_at bitmap n ≡ 0
      → ((m : ℕ) → m < n → entry_at bitmap m ≡ 1)
      → (byte : ℕ) × (find_free bitmap s ≡ ran (some (n / 8, n % 8, byte), s))
        × (get_elem? bitmap (n / 8) ≡ some byte)
  find_first s bitmap n bs inside free before = elim (find_free_lem s bitmap bs) [
    | inl (i, (bit, (byte, e, at, small, entry, prior))) ↦
        let same : i * 8 + bit ≡ n = first_unique bitmap (i * 8 + bit) n entry free prior before in
        let e_1 : n / 8 ≡ i = omega arith in
        let e_2 : n % 8 ≡ bit = omega arith in (byte, rw (e_1, e_2) e, rw e_1 at)
    | inr (e, all) ↦ absurd (omega (arith, all n inside))
  ]

  pub OnDevice-moved :
      (fs fs' : Fs disk) (number : ℕ)
      → fs'.sb.block_size_log2_minus_10 ≡ fs.sb.block_size_log2_minus_10
      → size fs'.backing_device ≡ size fs.backing_device
      → OnDevice disk laws fs number
      → OnDevice disk laws fs' number
  OnDevice-moved fs fs' number log same on =
      let e : block_size_of disk fs' ≡ block_size_of disk fs = ap (λ (t : ℕ). 2 ^ (t + 10)) log in
      record {
        nonzero = on.nonzero;
        addressable = rw e on.addressable;
        inside = rw e (rw same on.inside);
      }

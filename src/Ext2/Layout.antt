-- ===== src/Ext2/Layout.antt =====
-- Where the structures of kernel/src/ext2.rs lie on the device, and what the methods on block group
-- descriptors and super blocks do there.
use ron.Base.{
  ℕ, ◌+◌, ◌*◌, ◌/◌, ◌^◌, ◌≤◌, ◌<◌, ◌≡◌, ◌≢◌, ◌⊎◌, inl, inr, refl, ◌∙◌, false, ==_neq, ==_iff,
  lt→ltb, Option, none, some, List, length, arith,
}
use ron.Base.Run.{ran}
use ron.Ext2.{Ext2SuperBlock, Ext2ExtendedSuperblock, Ext2BlockGroupDescriptor, Disk}
use ron.Ext2.Fs.{
  Fs, round_up, get_number_of_block_groups, get_number_of_special_blocks, descriptor_addr,
  read_block_group_descriptor, write_block_group_descriptor, flush_super_blocks, flush_extended,
}
use ron.Ext2.Device.{
  slice, slice-ext, DiskLaws, PackedLaws, DescriptorFits, written, read_lem, write_lem,
  block_size_of, get_block_size_lem,
}

-- The sizes of the packed structures.
pub record Formats (disk : Disk) : Type 0 where
  pub descriptor : PackedLaws disk.block_group_descriptor 18 DescriptorFits
  pub super :
      (sb : Ext2SuperBlock)
      → (raw : List ℕ) × (disk.super_block.pack sb ≡ some raw) × (length raw ≡ 84)
  pub extended :
      (esb : Ext2ExtendedSuperblock)
      → (raw : List ℕ) × (disk.extended_super_block.pack esb ≡ some raw) × (length raw ≡ 152)

-- A file system that can be written, whose super block is consistent.
pub record Mounted (disk : Disk) (laws : DiskLaws disk) (fs : Fs disk) : Type 0 where
  pub small : fs.sb.block_size_log2_minus_10 < 22
  pub writable : fs.read_only ≡ false
  pub blocks_nonzero : fs.sb.blocks_per_block_group ≢ 0
  pub inodes_nonzero : fs.sb.inodes_per_block_group ≢ 0
  pub groups_agree :
      round_up fs.sb.max_no_of_blocks fs.sb.blocks_per_block_group
      ≡ round_up fs.sb.max_no_of_inodes fs.sb.inodes_per_block_group
  pub super_inside : 2048 ≤ DiskLaws.size laws fs.backing_device

-- Two devices of one size that differ at most from `lo` on and below `hi`.
abbrev pub SameOutside :
    (disk : Disk) → DiskLaws disk → (lo hi : ℕ) → disk.Device → disk.Device → Type 0
SameOutside disk laws lo hi d d' =
    (DiskLaws.size laws d' ≡ DiskLaws.size laws d)
    × ((x : ℕ) → (x < lo) ⊎ (hi ≤ x) → DiskLaws.bytes laws d' x ≡ DiskLaws.bytes laws d x)

module _ (disk : Disk) (laws : DiskLaws disk) where
  open laws use {bytes, size, write_apart, write_size}

  pub written_outside :
      (d : disk.Device) (a : ℕ) (bs : List ℕ)
      → SameOutside disk laws a (a + length bs) d (disk.write d a bs).1
  written_outside d a bs = (write_size d a bs, write_apart d a bs)

  around : (lo a b hi x : ℕ) → lo ≤ a → b ≤ hi → (x < lo) ⊎ (hi ≤ x) → (x < a) ⊎ (b ≤ x)
  around lo a b hi x p q (inl h) = inl (omega arith)
  around lo a b hi x p q (inr h) = inr (omega arith)

  pub widen :
      (lo a b hi : ℕ) (d d' : disk.Device)
      → lo ≤ a
      → b ≤ hi
      → SameOutside disk laws a b d d'
      → SameOutside disk laws lo hi d d'
  widen lo a b hi d d' p q same = (same.0, λ x h. same.1 x (around lo a b hi x p q h))

  pub SameOutside-trans :
      (lo hi : ℕ) (d d' d'' : disk.Device)
      → SameOutside disk laws lo hi d d'
      → SameOutside disk laws lo hi d' d''
      → SameOutside disk laws lo hi d d''
  SameOutside-trans lo hi d d' d'' p q = (q.0 ∙ p.0, λ x h. q.1 x h ∙ p.1 x h)

  -- What lies apart from the change reads the same.
  pub slice-SameOutside :
      (lo hi : ℕ) (d d' : disk.Device) (a n : ℕ)
      → SameOutside disk laws lo hi d d'
      → (a + n ≤ lo) ⊎ (hi ≤ a)
      → slice (bytes d') a n ≡ slice (bytes d) a n
  slice-SameOutside lo hi d d' a n same (inl h) =
      slice-ext (bytes d') (bytes d) a n (λ x p q. same.1 x (inl (omega arith)))
  slice-SameOutside lo hi d d' a n same (inr h) =
      slice-ext (bytes d') (bytes d) a n (λ x p q. same.1 x (inr (omega arith)))

module _ (disk : Disk) (laws : DiskLaws disk) (fs : Fs disk) (ok : Mounted disk laws fs) where
  open laws use {bytes, size, write_apart, write_size}

  abbrev pub special_of : ℕ
  special_of =
      round_up (1024 + 1024) (block_size_of disk fs)
      + round_up (32 * round_up fs.sb.max_no_of_blocks fs.sb.blocks_per_block_group)
          (block_size_of disk fs)

  pub get_number_of_special_blocks_lem :
      get_number_of_special_blocks disk fs ≡ ran (some special_of, fs)
  unfolding get_number_of_special_blocks get_number_of_block_groups
  get_number_of_special_blocks_lem = rw (get_block_size_lem disk fs ok.small) (
      rw (==_neq fs.sb.blocks_per_block_group 0 ok.blocks_nonzero) (
        rw (==_neq fs.sb.inodes_per_block_group 0 ok.inodes_nonzero)
          (rw ((==_iff _ _).1 ok.groups_agree) refl)))

  -- The place of descriptor `g`.
  abbrev pub descriptor_at : ℕ → ℕ
  descriptor_at g = (1024 + 1024) / block_size_of disk fs * block_size_of disk fs + g * 32

  pub descriptor_addr_lem :
      (g : ℕ)
      → descriptor_at g < 2 ^ 32
      → descriptor_addr disk g fs ≡ ran (some (descriptor_at g), fs)
  unfolding descriptor_addr
  descriptor_addr_lem g h =
      rw (lt→ltb (g * 32) (2 ^ 32) (omega arith))
        (rw (get_block_size_lem disk fs ok.small) (rw (lt→ltb (descriptor_at g) (2 ^ 32) h) refl))

  module _ (formats : Formats disk) where
    pub read_block_group_descriptor_lem :
        (g : ℕ) {d : Ext2BlockGroupDescriptor}
        → descriptor_at g < 2 ^ 32
        → descriptor_at g + 18 ≤ size fs.backing_device
        → disk.block_group_descriptor.unpack (slice (bytes fs.backing_device) (descriptor_at g) 18)
          ≡ some d
        → read_block_group_descriptor disk g fs ≡ ran (some d, fs)
    unfolding read_block_group_descriptor
    read_block_group_descriptor_lem g h inside stored =
        rw (descriptor_addr_lem g h) (
          simp
            (formats.descriptor.sized, read_lem disk laws fs (descriptor_at g) 18 inside, stored))

    pub write_block_group_descriptor_lem :
        (g : ℕ) (d : Ext2BlockGroupDescriptor) (raw : List ℕ)
        → descriptor_at g < 2 ^ 32
        → descriptor_at g + length raw ≤ size fs.backing_device
        → disk.block_group_descriptor.pack d ≡ some raw
        → write_block_group_descriptor disk g d fs
          ≡ ran (some tt, written disk laws fs (descriptor_at g) raw)
    unfolding write_block_group_descriptor
    write_block_group_descriptor_lem g d raw h inside packed =
        rw (descriptor_addr_lem g h)
          (rw packed (rw (write_lem disk laws fs (descriptor_at g) raw ok.writable inside) refl))

  module _ (formats : Formats disk) where
    flush_extended_lem :
        (e : Option Ext2ExtendedSuperblock)
        → (d' : disk.Device) × (flush_extended disk e fs
            ≡ ran (some tt, record fs { backing_device = d' }))
          × SameOutside disk laws 1024 2048 fs.backing_device d'
    unfolding flush_extended
    flush_extended_lem none = (fs.backing_device, refl, (refl, λ x h. refl))
    flush_extended_lem (some esb) =
        let (raw, packed, len) = formats.extended esb in
        let inside : 1108 + length raw ≤ size fs.backing_device = omega (arith, ok.super_inside) in
        (
          (disk.write fs.backing_device 1108 raw).1,
          rw packed (rw (write_lem disk laws fs 1108 raw ok.writable inside) refl),
          widen disk laws 1024 1108 (1108 + length raw) 2048 fs.backing_device _ (omega arith)
              (omega arith) (written_outside disk laws fs.backing_device 1108 raw),
        )

module _ (disk : Disk) (laws : DiskLaws disk) where
  open laws use {size, write_size}

  pub Mounted-device :
      (fs : Fs disk) (d' : disk.Device)
      → size d' ≡ size fs.backing_device
      → Mounted disk laws fs
      → Mounted disk laws (record fs { backing_device = d' })
  Mounted-device fs d' e ok = record {
    small = ok.small;
    writable = ok.writable;
    blocks_nonzero = ok.blocks_nonzero;
    inodes_nonzero = ok.inodes_nonzero;
    groups_agree = ok.groups_agree;
    super_inside = omega (arith, ok.super_inside);
  }

  -- The count of the free blocks does not matter.
  pub Mounted-count :
      (fs : Fs disk) (d' : disk.Device) (count : ℕ)
      → size d' ≡ size fs.backing_device
      → Mounted disk laws fs
      → Mounted disk laws
          (record fs { backing_device = d'; sb = record fs.sb { unallocated_blocks = count } })
  Mounted-count fs d' count e ok = record {
    small = ok.small;
    writable = ok.writable;
    blocks_nonzero = ok.blocks_nonzero;
    inodes_nonzero = ok.inodes_nonzero;
    groups_agree = ok.groups_agree;
    super_inside = omega (arith, ok.super_inside);
  }

  -- Flushing the super blocks changes nothing outside their place.
  pub flush_super_blocks_lem :
      (formats : Formats disk) (fs : Fs disk)
      → Mounted disk laws fs
      → (d' : disk.Device) × (flush_super_blocks disk fs
          ≡ ran (some tt, record fs { backing_device = d' }))
        × SameOutside disk laws 1024 2048 fs.backing_device d'
  unfolding flush_super_blocks
  flush_super_blocks_lem formats fs ok =
      let (raw, packed, len) = formats.super fs.sb in
      let inside : 1024 + length raw ≤ size fs.backing_device = omega (arith, ok.super_inside) in
      let d_1 : disk.Device = (disk.write fs.backing_device 1024 raw).1 in
      let (d', flushed, same) =
        flush_extended_lem disk laws (written disk laws fs 1024 raw)
          (Mounted-device fs d_1 (write_size fs.backing_device 1024 raw) ok) formats
          fs.extended_sb in
      (
        d',
        rw packed (rw (write_lem disk laws fs 1024 raw ok.writable inside) flushed),
        SameOutside-trans disk laws 1024 2048 fs.backing_device d_1 d'
            (widen disk laws 1024 1024 (1024 + length raw) 2048 fs.backing_device d_1 (omega arith)
              (omega arith) (written_outside disk laws fs.backing_device 1024 raw))
            same,
      )

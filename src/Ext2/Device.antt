-- ===== src/Ext2/Device.antt =====
-- What kernel/src/ext2.rs relies on in the device below it and in `packed_struct`, and what its
-- own reads and writes do on such a device.
use ron.Base.{
  ℕ, zero, suc, ◌+◌, ◌*◌, ◌^◌, ◌≤◌, ◌<◌, ◌≡◌, ◌≢◌, ◌⊎◌, refl, ap, true, false, ==_iff, ==_neq,
  lt→ltb, some, List, [], ◌∷◌, length, ◌==◌, ltb, arith,
}
use ron.Base.Run.{ran}
use ron.Ext2.{Ext2BlockGroupDescriptor, Packed, Disk}
use ron.Ext2.Fs.{
  Fs, same_bytes, read, write, read_block, write_block, get_block_size, sanity_check_write,
}

-- The bytes `a`, ..., `a + n - 1`.
abbrev pub slice : (ℕ → ℕ) → ℕ → ℕ → List ℕ
slice f a zero = []
slice f a (suc n) = f a ∷ slice f (suc a) n

pub slice-ext :
    (f g : ℕ → ℕ) (a n : ℕ) → ((x : ℕ) → a ≤ x → x < a + n → f x ≡ g x) → slice f a n ≡ slice g a n
slice-ext f g a zero h = refl
slice-ext f g a (suc n) h =
    rw (h a (omega arith) (omega arith))
      (rw (slice-ext f g (suc a) n (λ x p q. h x (omega arith) (omega arith))) refl)

pub length-slice : (f : ℕ → ℕ) (a n : ℕ) → length (slice f a n) ≡ n
length-slice f a zero = refl
length-slice f a (suc n) = ap suc (length-slice f (suc a) n)

-- A device is an array of bytes: within it, a read gives its bytes and a write stores bytes. A
-- write, also one that fails, changes no byte outside its range, nor the size.
pub record DiskLaws (disk : Disk) : Type 0 where
  pub bytes : disk.Device → ℕ → ℕ
  pub size : disk.Device → ℕ
  pub read_inside :
      (d : disk.Device) (a n : ℕ) → a + n ≤ size d → disk.read d a n ≡ some (slice (bytes d) a n)
  pub write_inside :
      (d : disk.Device) (a : ℕ) (bs : List ℕ)
      → a + length bs ≤ size d
      → (disk.write d a bs).0 ≡ some (length bs)
  pub write_content :
      (d : disk.Device) (a : ℕ) (bs : List ℕ)
      → a + length bs ≤ size d
      → slice (bytes (disk.write d a bs).1) a (length bs) ≡ bs
  pub write_apart :
      (d : disk.Device) (a : ℕ) (bs : List ℕ) (x : ℕ)
      → (x < a) ⊎ (a + length bs ≤ x)
      → bytes (disk.write d a bs).1 x ≡ bytes d x
  pub write_size : (d : disk.Device) (a : ℕ) (bs : List ℕ) → size (disk.write d a bs).1 ≡ size d

-- A structure packs into as many bytes as it has, and unpacks again where its fields fit.
pub record PackedLaws {A : Type 0} (p : Packed A) (n : ℕ) (Fits : A → Type 0) : Type 0 where
  pub sized : p.packed_bytes_size ≡ some n
  pub packs : (a : A) → (raw : List ℕ) × (p.pack a ≡ some raw) × (length raw ≡ n)
  pub unpacks : (a : A) (raw : List ℕ) → Fits a → p.pack a ≡ some raw → p.unpack raw ≡ some a

abbrev pub DescriptorFits : Ext2BlockGroupDescriptor → Type 0
DescriptorFits d =
    (d.block_addr_for_block_usage_bitmap < 2 ^ 32)
    × (d.block_addr_for_inode_usage_bitmap < 2 ^ 32)
    × (d.block_addr_for_inode_table < 2 ^ 32)
    × (d.unallocated_blocks_in_group < 2 ^ 16)
    × (d.unallocated_inodes_in_group < 2 ^ 16)
    × (d.directories_in_group < 2 ^ 16)

same_bytes_self : (bs : List ℕ) → same_bytes bs bs ≡ true
same_bytes_self [] = refl
same_bytes_self (b ∷ bs) = rw ((==_iff b b).1 refl) (same_bytes_self bs)

module _ (disk : Disk) (laws : DiskLaws disk) (fs : Fs disk) where
  open laws use {bytes, size, read_inside, write_inside, write_content, write_apart, write_size}

  -- The file system after a write.
  abbrev pub written : ℕ → List ℕ → Fs disk
  written a bs = record fs { backing_device = (disk.write fs.backing_device a bs).1 }

  pub read_lem :
      (a n : ℕ)
      → a + n ≤ size fs.backing_device
      → read disk a n fs ≡ ran (some (slice (bytes fs.backing_device) a n), fs)
  unfolding read
  read_lem a n h = rw (read_inside fs.backing_device a n h) refl

  pub write_lem :
      (a : ℕ) (bs : List ℕ)
      → fs.read_only ≡ false
      → a + length bs ≤ size fs.backing_device
      → write disk a bs fs ≡ ran (some (length bs), written a bs)
  unfolding write sanity_check_write read
  write_lem a bs writable h = rw writable (
      rw
        (read_inside (disk.write fs.backing_device a bs).1 a (length bs)
          (omega (arith, write_size fs.backing_device a bs)))
        (rw (write_content fs.backing_device a bs h)
          (rw (same_bytes_self bs) (rw (write_inside fs.backing_device a bs h) refl))))

module _ (disk : Disk) (fs : Fs disk) where
  abbrev pub block_size_of : ℕ
  block_size_of = 2 ^ (fs.sb.block_size_log2_minus_10 + 10)

  pub get_block_size_lem :
      fs.sb.block_size_log2_minus_10 < 22 → get_block_size disk fs ≡ ran (some block_size_of, fs)
  unfolding get_block_size
  get_block_size_lem small = rw (lt→ltb (fs.sb.block_size_log2_minus_10 + 10) 32 (omega arith)) refl

ltb_self : (n : ℕ) → ltb n n ≡ false
ltb_self n = ground arith

==_self : (n : ℕ) → (n == n) ≡ true
==_self n = (==_iff n n).1 refl

-- Block `number` lies on the device, and its address fits in 32 bits.
pub record OnDevice (disk : Disk) (laws : DiskLaws disk) (fs : Fs disk) (number : ℕ) : Type 0 where
  pub nonzero : number ≢ 0
  pub addressable : block_size_of disk fs * number < 2 ^ 32
  pub inside :
      block_size_of disk fs * number + block_size_of disk fs ≤ DiskLaws.size laws fs.backing_device

module _ (disk : Disk) (laws : DiskLaws disk) (fs : Fs disk)
    (small : fs.sb.block_size_log2_minus_10 < 22) (number : ℕ)
    (on : OnDevice disk laws fs number) where
  open laws use {bytes, size}

  pub read_block_lem :
      read_block disk number fs
      ≡ ran (
        some (
            slice
              (bytes fs.backing_device)
              (block_size_of disk fs * number)
              (block_size_of disk fs)),
        fs,
      )
  unfolding read_block
  read_block_lem = rw (==_neq number 0 on.nonzero) (
      rw (get_block_size_lem disk fs small) (
        rw (lt→ltb (block_size_of disk fs * number) (2 ^ 32) on.addressable) (
          read_lem disk laws fs (block_size_of disk fs * number) (block_size_of disk fs)
            on.inside)))

  pub write_block_lem :
      (bs : List ℕ)
      → fs.read_only ≡ false
      → length bs ≡ block_size_of disk fs
      → write_block disk number bs fs
        ≡ ran (some tt, written disk laws fs (block_size_of disk fs * number) bs)
  unfolding write_block
  write_block_lem bs writable len = rw (get_block_size_lem disk fs small) (
      rw len (
        rw (==_self (block_size_of disk fs)) (
          rw (==_neq number 0 on.nonzero) (
            rw (lt→ltb (block_size_of disk fs * number) (2 ^ 32) on.addressable) (
              rw
                (write_lem disk laws fs (block_size_of disk fs * number) bs writable
                  (rw len on.inside))
                (rw len (rw (ltb_self (block_size_of disk fs)) refl)))))))

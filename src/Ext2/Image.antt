-- ===== src/Ext2/Image.antt =====
-- A device in memory, which shows that what is asked of a device and of the packed structures can
-- hold.
use ron.Base.{
  ℕ, suc, ◌+◌, ◌*◌, ◌/◌, ◌%◌, ◌≤◌, ◌<◌, ◌==◌, ◌≡◌, ◌⊎◌, inl, inr, refl, true, false, leb,
  if◌then◌else◌, Option, none, some, List, [], ◌∷◌, length, replicate, arith, subst,
}
use ron.Ext2.{
  Ext2SuperBlock, Ext2ExtendedSuperblock, Ext2BlockGroupDescriptor, Ext2RawInode, Packed, Disk,
}
use ron.Ext2.Device.{slice, slice-ext, DiskLaws}
use ron.Ext2.Layout.{Formats}

-- The device.
pub record Image : Type 0 where
  pub size : ℕ
  pub cells : ℕ → ℕ

abbrev pub patch : (ℕ → ℕ) → ℕ → List ℕ → ℕ → ℕ
patch f a [] x = f x
patch f a (v ∷ vs) x = if x == a then v else patch f (suc a) vs x

abbrev pub image_read : Image → ℕ → ℕ → Option (List ℕ)
image_read d a n = if leb (a + n) d.size then some (slice d.cells a n) else none

abbrev pub image_write : Image → ℕ → List ℕ → Option ℕ × Image
image_write d a bs =
    if leb (a + length bs) d.size
    then (some (length bs), record d { cells = patch d.cells a bs })
    else (none, d)

abbrev pub zeros : (A : Type 0) → ℕ → Packed A
zeros A n = record {
  pack = λ _. some (replicate n 0);
  unpack = λ _. none;
  packed_bytes_size = some n;
}

abbrev pub u16 : ℕ → List ℕ → List ℕ
u16 x bs = x % 256 ∷ x / 256 ∷ bs

abbrev pub u32 : ℕ → List ℕ → List ℕ
u32 x bs = x % 256 ∷ x / 256 % 256 ∷ x / 65536 % 256 ∷ x / 16777216 ∷ bs

abbrev pub join : ℕ → ℕ → ℕ → ℕ → ℕ
join a b c d = a + 256 * b + 65536 * c + 16777216 * d

abbrev pub pack_descriptor : Ext2BlockGroupDescriptor → List ℕ
pack_descriptor d = u32 d.block_addr_for_block_usage_bitmap (
    u32 d.block_addr_for_inode_usage_bitmap (
      u32 d.block_addr_for_inode_table (
        u16 d.unallocated_blocks_in_group
          (u16 d.unallocated_inodes_in_group (u16 d.directories_in_group [])))))

abbrev pub unpack_descriptor : List ℕ → Option Ext2BlockGroupDescriptor
unpack_descriptor (a ∷ b ∷ c ∷ d ∷ e ∷ f ∷ g ∷ h ∷ i ∷ j ∷ k ∷ l ∷ m ∷ n ∷ o ∷ p ∷ q ∷ r ∷ []) =
    some (record {
      block_addr_for_block_usage_bitmap = join a b c d;
      block_addr_for_inode_usage_bitmap = join e f g h;
      block_addr_for_inode_table = join i j k l;
      unallocated_blocks_in_group = m + 256 * n;
      unallocated_inodes_in_group = o + 256 * p;
      directories_in_group = q + 256 * r;
    })
unpack_descriptor _ = none

abbrev pub image_disk : Disk
image_disk = record {
  Device = Image;
  read = image_read;
  write = image_write;
  super_block = zeros Ext2SuperBlock 84;
  extended_super_block = zeros Ext2ExtendedSuperblock 152;
  block_group_descriptor = record {
    pack = λ d. some (pack_descriptor d);
    unpack = unpack_descriptor;
    packed_bytes_size = some 18;
  };
  raw_inode = zeros Ext2RawInode 124;
}

patch-before : (f : ℕ → ℕ) (a : ℕ) (bs : List ℕ) (x : ℕ) → x < a → patch f a bs x ≡ f x
patch-before f a [] x h = refl
patch-before f a (v ∷ vs) x h = ground (arith, patch-before f (suc a) vs x)

patch-after : (f : ℕ → ℕ) (a : ℕ) (bs : List ℕ) (x : ℕ) → a + length bs ≤ x → patch f a bs x ≡ f x
patch-after f a [] x h = refl
patch-after f a (v ∷ vs) x h = ground (arith, patch-after f (suc a) vs x)

slice-patch : (f : ℕ → ℕ) (a : ℕ) (bs : List ℕ) → slice (patch f a bs) a (length bs) ≡ bs
slice-patch f a [] = refl
slice-patch f a (v ∷ vs) =
    let rest : slice (patch f a (v ∷ vs)) (suc a) (length vs)
        ≡ slice (patch f (suc a) vs) (suc a) (length vs) =
      slice-ext _ _ (suc a) (length vs)
        (λ x p q. let e : (x == a) ≡ false = ground arith in rw e refl) in
    let here : (if a == a then v else patch f (suc a) vs a) ≡ v = ground arith in
    rw here (rw rest (rw (slice-patch f (suc a) vs) refl))

pub inside :
    (d : Image) (a : ℕ) (bs : List ℕ) → a + length bs ≤ d.size → leb (a + length bs) d.size ≡ true
inside d a bs h = ground arith

pub image_content :
    (d : Image) (a : ℕ) (bs : List ℕ)
    → a + length bs ≤ d.size
    → slice (image_write d a bs).1.cells a (length bs) ≡ bs
image_content d a bs h = rw (inside d a bs h) (slice-patch d.cells a bs)

pub image_apart :
    (d : Image) (a : ℕ) (bs : List ℕ) (x : ℕ)
    → (x < a) ⊎ (a + length bs ≤ x)
    → (image_write d a bs).1.cells x ≡ d.cells x
image_apart d a bs x (inl h) = ground (arith, patch-before d.cells a bs x)
image_apart d a bs x (inr h) = ground (arith, patch-after d.cells a bs x)

pub image_reads :
    (d : Image) (a n : ℕ) → a + n ≤ d.size → image_read d a n ≡ some (slice d.cells a n)
image_reads d a n h = ground arith

pub image_writes :
    (d : Image) (a : ℕ) (bs : List ℕ)
    → a + length bs ≤ d.size
    → (image_write d a bs).0 ≡ some (length bs)
image_writes d a bs h = ground arith

pub image_size : (d : Image) (a : ℕ) (bs : List ℕ) → (image_write d a bs).1.size ≡ d.size
image_size d a bs = ground arith

abbrev pub image_laws : DiskLaws image_disk
image_laws = record {
  bytes = λ d. d.cells;
  size = λ d. d.size;
  read_inside = image_reads;
  write_inside = image_writes;
  write_content = λ d a bs h. image_content d a bs h;
  write_apart = image_apart;
  write_size = image_size;
}

join_u32 : (x : ℕ) → join (x % 256) (x / 256 % 256) (x / 65536 % 256) (x / 16777216) ≡ x
join_u32 x = omega arith

join_u16 : (x : ℕ) → x % 256 + 256 * (x / 256) ≡ x
join_u16 x = omega arith

pub unpack-pack_descriptor :
    (d : Ext2BlockGroupDescriptor) → unpack_descriptor (pack_descriptor d) ≡ some d
unpack-pack_descriptor d = simp (join_u32, join_u16) refl

pub unpack_packed :
    (d : Ext2BlockGroupDescriptor) (raw : List ℕ)
    → some (pack_descriptor d) ≡ some raw
    → unpack_descriptor raw ≡ some d
unpack_packed d raw e =
    let same : pack_descriptor d ≡ raw = cc in
    subst (λ (bs : List ℕ). unpack_descriptor bs ≡ some d) same (unpack-pack_descriptor d)

abbrev pub image_formats : Formats image_disk
image_formats = record {
  descriptor = record {
    sized = refl;
    packs = λ d. (pack_descriptor d, refl, refl);
    unpacks = λ d raw fits e. unpack_packed d raw e;
  };
  super = λ sb. (replicate 84 0, refl, refl);
  extended = λ esb. (replicate 152 0, refl, refl);
}

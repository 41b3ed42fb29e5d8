-- ===== src/Ext2/Pointer.antt =====
-- kernel/src/ext2.rs: `Ext2RawInode` finds the pointer to a data block in its tree of indirect
-- blocks.
pub mod Path
pub mod Tree
use ron.Base.{
  ℕ, zero, suc, ◌+◌, ◌-◌, ◌*◌, ◌/◌, ◌%◌, ◌^◌, ◌==◌, ltb, leb, Bool, if◌then◌else◌, Option, none,
  some, List, [], ◌∷◌, ◌++◌, set, get_elem?, length,
}
use ron.Ext2.{Ext2RawInode, Disk, get_size}
use ron.Ext2.Monad.{M, ◌>>=◌, ◌>>◌, pure, fail, abort, lift, get, mul, ignore}
use ron.Ext2.Fs.{Fs, get_block_size, read_block, write_block}
use ron.Ext2.Alloc.{dealloc_block, byte_at}

-- `u32::from_le_bytes`.
abbrev pub from_le_bytes : List ℕ → ℕ
from_le_bytes [] = 0
from_le_bytes (b ∷ bs) = b + 256 * from_le_bytes bs

-- `u32::to_le_bytes`.
abbrev pub to_le_bytes : ℕ → List ℕ
to_le_bytes val = val % 256 ∷ val / 256 % 256 ∷ val / 256 ^ 2 % 256 ∷ val / 256 ^ 3 % 256 ∷ []

-- The four bytes at a position, `none` if one is out of range.
unfoldable pub four_bytes : List ℕ → ℕ → Option (List ℕ)
four_bytes (a ∷ b ∷ c ∷ d ∷ bs) zero = some (a ∷ b ∷ c ∷ d ∷ [])
four_bytes (a ∷ bs) (suc i) = four_bytes bs i
four_bytes _ _ = none

abbrev word_of : {S : Type 0} → Option (List ℕ) → M S ℕ
word_of none = abort
word_of (some bs) = pure (from_le_bytes bs)

unfoldable pub read_value_from_u32_array_as_le_bytes : {S : Type 0} → List ℕ → ℕ → M S ℕ
read_value_from_u32_array_as_le_bytes bytes index = word_of (four_bytes bytes (index * 4))

-- Bytes written over those at a position.
abbrev pub overwrite : List ℕ → ℕ → List ℕ → List ℕ
overwrite bytes i [] = bytes
overwrite bytes i (v ∷ vs) = overwrite (set bytes i v) (suc i) vs

unfoldable pub write_value_to_u32_array_as_le_bytes : {S : Type 0} → List ℕ → ℕ → ℕ → M S (List ℕ)
write_value_to_u32_array_as_le_bytes bytes index val =
    if leb ((index + 1) * 4) (length bytes)
    then pure (overwrite bytes (index * 4) (to_le_bytes val))
    else abort

-- Where the pointer to a data block is: in the inode, or in the tree of a singly, doubly or triply
-- indirect block, at an index on each level.
pub data Place : Type 0 where
  direct : ℕ → Place
  singly : ℕ → Place
  doubly : ℕ → ℕ → Place
  triply : ℕ → ℕ → ℕ → Place

-- The place of a data block beyond the direct ones.
unfoldable pub locate : {S : Type 0} → (pointers_per_block n : ℕ) → M S Place
locate ppb n =
    let n_1 : ℕ = n - 12 in
    let n_2 : ℕ = n_1 - ppb in
    if ltb n_1 ppb then pure (singly n_1) else do
      ppb_2 ← mul 64 ppb ppb
      if ltb n_2 ppb_2 then pure (doubly (n_2 / ppb) (n_2 % ppb)) else do
        let n_3 = n_2 - ppb_2
        ppb_3 ← mul 64 ppb_2 ppb
        if ltb n_3 ppb_3
            then pure (triply (n_3 / ppb_2) (n_3 % ppb_2 / ppb) (n_3 % ppb_2 % ppb))
            else fail

-- The number of pointers in a block.
abbrev pub pointers_per_block : (disk : Disk) → M (Fs disk) ℕ
pointers_per_block disk = do block_size ← get_block_size disk; pure (block_size / 4)

module _ (disk : Disk) where
  unfoldable pub read_pointer : ℕ → ℕ → M (Fs disk) ℕ
  read_pointer block index = do
    bytes ← read_block disk block
    read_value_from_u32_array_as_le_bytes bytes index

  unfoldable pub read_place : Ext2RawInode → Place → M (Fs disk) ℕ
  read_place inode (direct i) = byte_at (get_elem? inode.direct_block_pointers i)
  read_place inode (singly i) = read_pointer inode.singly_indirect_block_pointer i
  read_place inode (doubly i j) = do
    block ← read_pointer inode.doubly_indirect_block_pointer i
    read_pointer block j
  read_place inode (triply i j k) = do
    doubly_block ← read_pointer inode.triply_indirect_block_pointer i
    block ← read_pointer doubly_block j
    read_pointer block k

  unfoldable pub place_of : ℕ → M (Fs disk) Place
  place_of n = if leb n 11 then pure (direct n) else do ppb ← pointers_per_block disk; locate ppb n

  unfoldable pub read_data_block_pointer : Ext2RawInode → ℕ → M (Fs disk) ℕ
  read_data_block_pointer inode n = do place ← place_of n; read_place inode place

  -- The block that a pointer led to is deallocated, whether that succeeds or not.
  unfoldable pub write_pointer : (block index pointer : ℕ) → M (Fs disk) (Unit {0})
  write_pointer block index pointer = do
    bytes ← read_block disk block
    old ← read_value_from_u32_array_as_le_bytes bytes index
    ignore (dealloc_block disk old)
    bytes ← write_value_to_u32_array_as_le_bytes bytes index pointer
    write_block disk block bytes

  unfoldable pub write_place : Ext2RawInode → Place → ℕ → M (Fs disk) Ext2RawInode
  write_place inode (direct i) pointer = do
    old ← byte_at (get_elem? inode.direct_block_pointers i)
    ignore (dealloc_block disk old)
    pure (record inode { direct_block_pointers = set inode.direct_block_pointers i pointer })
  write_place inode (singly i) pointer = do
    write_pointer inode.singly_indirect_block_pointer i pointer
    pure inode
  write_place inode (doubly i j) pointer = do
    block ← read_pointer inode.doubly_indirect_block_pointer i
    write_pointer block j pointer
    pure inode
  write_place inode (triply i j k) pointer = do
    doubly_block ← read_pointer inode.triply_indirect_block_pointer i
    block ← read_pointer doubly_block j
    write_pointer block k pointer
    pure inode

  -- The inode with the new pointer.
  unfoldable pub write_data_block_pointer : Ext2RawInode → ℕ → ℕ → M (Fs disk) Ext2RawInode
  write_data_block_pointer inode n pointer = do place ← place_of n; write_place inode place pointer

  unfoldable pub read_data_block : Ext2RawInode → ℕ → M (Fs disk) (List ℕ)
  read_data_block inode n = do pointer ← read_data_block_pointer inode n; read_block disk pointer

  unfoldable pub write_data_block : Ext2RawInode → ℕ → List ℕ → M (Fs disk) (Unit {0})
  write_data_block inode n bytes = do
    pointer ← read_data_block_pointer inode n
    write_block disk pointer bytes

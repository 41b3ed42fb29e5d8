-- ===== src/Ext2/Inode.antt =====
-- kernel/src/ext2.rs: `Ext2RawInode` reads, writes and resizes the bytes of a file, and `Ext2File`.
pub mod Reads
use ron.Base.{
  ℕ, zero, suc, ◌+◌, ◌-◌, ◌*◌, ◌/◌, ◌%◌, ◌^◌, ◌==◌, ltb, leb, Bool, true, false, not, ◌&&◌, ◌||◌,
  if◌then◌else◌, Option, none, some, List, [], ◌∷◌, ◌++◌, length, set, replicate, bit_and,
}
use ron.Ext2.{Ext2RawInode, Disk, Ext2Fs, get_size, set_size}
use ron.Ext2.Monad.{M, ◌>>=◌, ◌>>◌, pure, fail, abort, get, put, add, sub, rem, ignore, attempt}
use ron.Ext2.Fs.{Fs, get_block_size, get_ondisk_inode_size, round_up, write_inode}
use ron.Ext2.Pointer.{read_data_block, write_data_block}
use ron.Ext2.Structure.{
  Opened, on_fs, get_inode, put_inode, File, get_last_allocated_data_block_number, alloc_data_block,
  dealloc_data_block, shrink_data_structure_to_fit, grow_data_structure_by,
}

abbrev pub take {ℓ} : {A : Type ℓ} → ℕ → List A → List A
take zero xs = []
take (suc n) [] = []
take (suc n) (x ∷ xs) = x ∷ take n xs

abbrev pub drop {ℓ} : {A : Type ℓ} → ℕ → List A → List A
drop zero xs = xs
drop (suc n) [] = []
drop (suc n) (x ∷ xs) = drop n xs

module _ (disk : Disk) where
  -- The data blocks `i`, `i + 1`, ..., `left` of them, one after another.
  unfoldable pub read_blocks : (left i : ℕ) → Ext2RawInode → M (Fs disk) (List ℕ)
  read_blocks zero i inode = pure []
  read_blocks (suc left) i inode = do
    block ← read_data_block disk inode i
    rest ← read_blocks left (suc i) inode
    pure (block ++ rest)

  unfoldable pub read_bytes : Ext2RawInode → (offset len : ℕ) → M (Fs disk) (List ℕ)
  read_bytes inode offset len = do
    end ← add 64 offset len
    if ltb (get_size inode) end then fail else do
      block_size ← get_block_size disk
      first_block ← read_data_block disk inode (offset / block_size)
      if ltb (length first_block) (offset % block_size) then abort else do
        rest ← read_blocks (round_up len block_size - 1) (suc (offset / block_size)) inode
        pure (take len (drop (offset % block_size) first_block ++ rest))

  -- The loop over the bytes of a block, from `ind`: the block, the bytes that are left, and the
  -- number of those that were written.
  unfoldable pub store_bytes : List ℕ → ℕ → List ℕ → List ℕ × List ℕ × ℕ
  store_bytes v ind [] = (v, [], 0)
  store_bytes v ind (b ∷ bs) =
      let (v', rest, n) = store_bytes (set v ind b) (suc ind) bs in
      if leb (length v) ind then (v, b ∷ bs, 0) else (v', rest, n + 1)

  -- The loop over the blocks. Blocks that are overwritten whole are not read.
  unfoldable pub write_blocks :
      (left ind : ℕ) (extra first : Bool) (n : ℕ) → Ext2RawInode → List ℕ → M (Fs disk) ℕ
  write_blocks zero ind extra first n inode bytes = pure 0
  write_blocks (suc left) ind extra first n inode bytes = do
    block_size ← get_block_size disk
    v ←
        (if (left == 0 && extra) || (first && not (ind == 0))
          then read_data_block disk inode n
          else pure (replicate block_size 0))
    let (v, rest, written) = store_bytes v ind bytes
    write_data_block disk inode n v
    more ← write_blocks left 0 extra false (suc n) inode rest
    pure (written + more)

  -- The offset in the first block is taken modulo the size of an inode, not of a block.
  unfoldable pub write_bytes : Ext2RawInode → (offset : ℕ) → List ℕ → M (Fs disk) ℕ
  write_bytes inode offset bytes = do
    end ← add 64 offset (length bytes)
    if ltb (get_size inode) end then fail else do
      block_size ← get_block_size disk
      inode_size ← get_ondisk_inode_size disk
      ind ← rem offset inode_size
      write_blocks (round_up (length bytes) block_size) ind (not (length bytes % block_size == 0))
          true (offset / block_size) inode bytes

  -- The blocks that are removed with the last `nbytes` bytes of a file of `size` bytes.
  unfoldable pub blocks_to_remove : (nbytes size block_size : ℕ) → ℕ
  blocks_to_remove nbytes size block_size =
      let used : ℕ = if size % block_size == 0 then block_size else size % block_size in
      if leb used nbytes then 1 + (nbytes - used) / block_size else 0

  -- The loop that deallocates the blocks `last - i`, `left` of them.
  unfoldable pub dealloc_blocks : (left i last : ℕ) → M (File disk) (Unit {0})
  dealloc_blocks zero i last = pure tt
  dealloc_blocks (suc left) i last = do
    n ← sub last i
    dealloc_data_block disk n
    dealloc_blocks left (suc i) last

  unfoldable pub expect_last : Option ℕ → M (File disk) ℕ
  expect_last none = abort
  expect_last (some n) = pure n

  unfoldable pub shrink_by : ℕ → M (File disk) (Unit {0})
  shrink_by nbytes = do
    inode ← get_inode
    if ltb (get_size inode) nbytes then fail else if nbytes == 0 then pure tt else do
      block_size ← on_fs (get_block_size disk)
      r ← on_fs (get_last_allocated_data_block_number disk inode)
      last ← expect_last r
      dealloc_blocks (blocks_to_remove nbytes (get_size inode) block_size) 0 last
      shrink_data_structure_to_fit disk
      inode ← get_inode
      put_inode (set_size (get_size inode - nbytes) inode)

  -- The blocks that are needed beyond the last one, which has `available` bytes left.
  unfoldable pub blocks_to_add : (nbytes available block_size : ℕ) → ℕ
  blocks_to_add nbytes available block_size =
      if ltb available nbytes then round_up (nbytes - available) block_size else 0

  -- The loop that allocates the blocks `n`, `n + 1`, ..., `left` of them.
  unfoldable pub alloc_blocks : (left n : ℕ) → M (File disk) (Unit {0})
  alloc_blocks zero n = pure tt
  alloc_blocks (suc left) n = do alloc_data_block disk n; alloc_blocks left (suc n)

  abbrev after : Option ℕ → ℕ
  after none = 0
  after (some last) = last + 1

  abbrev or_zero : Option ℕ → ℕ
  or_zero none = 0
  or_zero (some last) = last

  -- Where the last block is full, or there is none, the next one is allocated first.
  unfoldable pub ensure_last_block : ℕ → M (File disk) (Unit {0})
  ensure_last_block used =
      if used == 0
      then (do
        grow_data_structure_by disk 1
        inode ← get_inode
        last ← on_fs (get_last_allocated_data_block_number disk inode)
        alloc_data_block disk (after last))
      else pure tt

  unfoldable pub grow_by : ℕ → M (File disk) (Unit {0})
  grow_by nbytes = if nbytes == 0 then pure tt else do
    inode ← get_inode
    block_size ← on_fs (get_block_size disk)
    let used = get_size inode % block_size
    ensure_last_block used
    let count = blocks_to_add nbytes (block_size - used) block_size
    grow_data_structure_by disk count
    inode ← get_inode
    last ← on_fs (get_last_allocated_data_block_number disk inode)
    alloc_blocks count (or_zero last + 1)
    inode ← get_inode
    put_inode (set_size (get_size inode + nbytes) inode)

  unfoldable pub resize : ℕ → M (File disk) (Unit {0})
  resize new_size = do
    inode ← get_inode
    if new_size == get_size inode
        then pure tt
        else if ltb new_size (get_size inode)
        then shrink_by (get_size inode - new_size)
        else grow_by (new_size - get_size inode)

  -- `Ext2File::resize`, which also writes the inode.
  unfoldable pub resize_file : (inode_addr new_size : ℕ) → M (File disk) (Unit {0})
  resize_file inode_addr new_size = do
    resize new_size
    inode ← get_inode
    on_fs (write_inode disk inode_addr inode)

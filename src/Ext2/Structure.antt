-- ===== src/Ext2/Structure.antt =====
-- kernel/src/ext2.rs: `Ext2RawInode` allocates its data blocks, and grows and shrinks the tree of
-- its indirect blocks. The methods that change the inode have it in their state, with the file
-- system: it keeps what changed before a failure.
use ron.Base.{
  ℕ, zero, suc, ◌-◌, ◌/◌, ◌^◌, ◌==◌, leb, Bool, true, false, ◌&&◌, if◌then◌else◌, Option, none,
  some, List, [], ◌∷◌,
}
use ron.Base.Run.{Run, panic, ran}
use ron.Ext2.{Ext2RawInode, Disk, Ext2Fs, get_size}
use ron.Ext2.Monad.{M, ◌>>=◌, ◌>>◌, pure, fail, add, ignore, attempt}
use ron.Ext2.Fs.{
  Fs, get_block_size, read_block, write_block, round_up, get_descriptor_index_of_block_number,
}
use ron.Ext2.Alloc.{dealloc_block, alloc_block_close_to}
use ron.Ext2.Pointer.{
  pointers_per_block, read_value_from_u32_array_as_le_bytes, write_value_to_u32_array_as_le_bytes,
  read_data_block_pointer, write_data_block_pointer,
}

pub record Opened (D : Type 0) : Type 0 where
  pub inode : Ext2RawInode
  pub fs : Ext2Fs D

abbrev reopened :
    {D A : Type 0} → Ext2RawInode → Run (Option A × Ext2Fs D) → Run (Option A × Opened D)
reopened inode panic = panic
reopened inode (ran (o, fs)) = ran (o, record { inode = inode; fs = fs })

abbrev pub on_fs : {D A : Type 0} → M (Ext2Fs D) A → M (Opened D) A
on_fs m s = reopened s.inode (m s.fs)

abbrev pub get_inode : {D : Type 0} → M (Opened D) Ext2RawInode
get_inode s = ran (some s.inode, s)

abbrev pub put_inode : {D : Type 0} → Ext2RawInode → M (Opened D) (Unit {0})
put_inode inode s = ran (some tt, record s { inode = inode })

-- `iter().all(|v| *v == 0)`.
abbrev pub all_zero : List ℕ → Bool
all_zero [] = true
all_zero (b ∷ bs) = b == 0 && all_zero bs

module _ (disk : Disk) where
  abbrev pub File : Type 0
  File = Opened disk.Device

  -- `None` for an inode without data.
  unfoldable pub get_last_allocated_data_block_number : Ext2RawInode → M (Fs disk) (Option ℕ)
  get_last_allocated_data_block_number inode =
      if get_size inode == 0
      then pure none
      else do block_size ← get_block_size disk; pure (some ((get_size inode - 1) / block_size))

  unfoldable pub group_of : Ext2RawInode → Option ℕ → M (Fs disk) ℕ
  group_of inode none = pure 0
  group_of inode (some last) = do
    pointer ← read_data_block_pointer disk inode last
    get_descriptor_index_of_block_number disk pointer

  unfoldable pub get_appropriate_descriptor_index : Ext2RawInode → M (Fs disk) ℕ
  get_appropriate_descriptor_index inode = do
    last ← get_last_allocated_data_block_number inode
    group_of inode last

  unfoldable pub alloc_data_block : ℕ → M File (Unit {0})
  alloc_data_block n = do
    inode ← get_inode
    group ← on_fs (get_appropriate_descriptor_index inode)
    pointer ← on_fs (alloc_block_close_to disk group)
    inode ← on_fs (write_data_block_pointer disk inode n pointer)
    put_inode inode

  unfoldable pub dealloc_data_block : ℕ → M File (Unit {0})
  dealloc_data_block n = do
    inode ← get_inode
    inode ← on_fs (write_data_block_pointer disk inode n 0)
    put_inode inode

  -- What is done with a block, if it can be read.
  abbrev if_read : {A : Type 0} → Option (List ℕ) → A → (List ℕ → A) → A
  if_read none otherwise f = otherwise
  if_read (some bytes) otherwise f = f bytes

  -- The loop over the pointers of a doubly indirect block, from the last one: empty blocks are
  -- deallocated, and one that is not ends it. The new bytes, and whether it ended so.
  unfoldable pub empty_singly : ℕ → List ℕ → M (Fs disk) (List ℕ × Bool)
  empty_singly zero bytes = pure (bytes, false)
  empty_singly (suc i) bytes = do
    pointer ← read_value_from_u32_array_as_le_bytes bytes i
    r ← attempt (read_block disk pointer)
    if_read r (empty_singly i bytes) (λ block.
        if all_zero block
        then (do
          ignore (dealloc_block disk pointer)
          bytes ← write_value_to_u32_array_as_le_bytes bytes i 0
          empty_singly i bytes)
        else pure (bytes, true))

  -- The loop over the pointers of a triply indirect block, from the first one.
  unfoldable pub empty_doubly : (left i : ℕ) → List ℕ → M (Fs disk) (List ℕ)
  empty_doubly zero i bytes = pure bytes
  empty_doubly (suc left) i bytes = do
    pointer ← read_value_from_u32_array_as_le_bytes bytes i
    r ← attempt (read_block disk pointer)
    if_read r (empty_doubly left (suc i) bytes) (λ block. do
      ppb ← pointers_per_block disk
      (block, ended) ← empty_singly ppb block
      if ended
          then pure bytes
          else if all_zero block
          then (do
            ignore (dealloc_block disk pointer)
            bytes ← write_value_to_u32_array_as_le_bytes bytes i 0
            empty_doubly left (suc i) bytes)
          else (do ignore (write_block disk pointer block); empty_doubly left (suc i) bytes))

  unfoldable pub shrink_singly : M File (Unit {0})
  shrink_singly = do
    inode ← get_inode
    r ← on_fs (attempt (read_block disk inode.singly_indirect_block_pointer))
    if_read r (pure tt) (λ block.
        if all_zero block
        then (do
          on_fs (ignore (dealloc_block disk inode.singly_indirect_block_pointer))
          put_inode (record inode { singly_indirect_block_pointer = 0 }))
        else pure tt)

  unfoldable pub shrink_doubly : M File (Unit {0})
  shrink_doubly = do
    inode ← get_inode
    r ← on_fs (attempt (read_block disk inode.doubly_indirect_block_pointer))
    if_read r (pure tt) (λ block. do
      ppb ← on_fs (pointers_per_block disk)
      (block, _) ← on_fs (empty_singly ppb block)
      if all_zero block
          then (do
            on_fs (ignore (dealloc_block disk inode.doubly_indirect_block_pointer))
            put_inode (record inode { doubly_indirect_block_pointer = 0 }))
          else on_fs (ignore (write_block disk inode.doubly_indirect_block_pointer block)))

  unfoldable pub shrink_triply : M File (Unit {0})
  shrink_triply = do
    inode ← get_inode
    r ← on_fs (attempt (read_block disk inode.triply_indirect_block_pointer))
    if_read r (pure tt) (λ block. do
      ppb ← on_fs (pointers_per_block disk)
      block ← on_fs (empty_doubly ppb 0 block)
      if all_zero block
          then (do
            on_fs (ignore (dealloc_block disk inode.triply_indirect_block_pointer))
            put_inode (record inode { triply_indirect_block_pointer = 0 }))
          else on_fs (ignore (write_block disk inode.triply_indirect_block_pointer block)))

  unfoldable pub shrink_data_structure_to_fit : M File (Unit {0})
  shrink_data_structure_to_fit = do shrink_singly; shrink_doubly; shrink_triply

  -- The loop that allocates the blocks of a doubly indirect block, from index `i`, for `blocks`
  -- data blocks. The new bytes, and the data blocks that are left.
  unfoldable pub fill : (left i blocks group ppb : ℕ) → List ℕ → M (Fs disk) (List ℕ × ℕ)
  fill zero i blocks group ppb bytes = pure (bytes, blocks)
  fill (suc left) i blocks group ppb bytes = if blocks == 0 then pure (bytes, blocks) else do
    pointer ← alloc_block_close_to disk group
    bytes ← write_value_to_u32_array_as_le_bytes bytes i pointer
    fill left (suc i) (blocks - ppb) group ppb bytes

  -- The loop over a triply indirect block. The pointers go into the doubly indirect block of the
  -- inode, `target`, and not into the one that was allocated.
  unfoldable pub fill_triply :
      (left i blocks group ppb target : ℕ) → List ℕ → M (Fs disk) (List ℕ × ℕ)
  fill_triply zero i blocks group ppb target bytes = pure (bytes, blocks)
  fill_triply (suc left) i blocks group ppb target bytes =
      if blocks == 0 then pure (bytes, blocks) else do
        pointer ← alloc_block_close_to disk group
        bytes ← write_value_to_u32_array_as_le_bytes bytes i pointer
        block ← read_block disk target
        (block, blocks) ← fill ppb 0 blocks group ppb block
        write_block disk target block
        fill_triply left (suc i) blocks group ppb target bytes

  -- A missing indirect block is allocated.
  unfoldable pub or_alloc : (pointer group : ℕ) → M (Fs disk) ℕ
  or_alloc pointer group = if pointer == 0 then alloc_block_close_to disk group else pure pointer

  unfoldable pub grow_triply : (blocks group ppb : ℕ) → M File (Unit {0})
  grow_triply blocks group ppb = do
    inode ← get_inode
    pointer ← on_fs (or_alloc inode.triply_indirect_block_pointer group)
    put_inode (record inode { triply_indirect_block_pointer = pointer })
    block ← on_fs (read_block disk pointer)
    (block, blocks) ←
        on_fs (fill_triply ppb 0 blocks group ppb inode.doubly_indirect_block_pointer block)
    on_fs (write_block disk pointer block)
    if blocks == 0 then pure tt else fail

  unfoldable pub grow_doubly : (blocks group ppb : ℕ) → M File (Unit {0})
  grow_doubly blocks group ppb = do
    inode ← get_inode
    pointer ← on_fs (or_alloc inode.doubly_indirect_block_pointer group)
    put_inode (record inode { doubly_indirect_block_pointer = pointer })
    block ← on_fs (read_block disk pointer)
    (block, blocks) ← on_fs (fill ppb 0 blocks group ppb block)
    on_fs (write_block disk pointer block)
    if blocks == 0 then pure tt else grow_triply blocks group ppb

  -- The number of blocks that are left is signed in the code; only whether it is positive counts.
  unfoldable pub grow_data_structure_by : ℕ → M File (Unit {0})
  grow_data_structure_by nblocks = do
    inode ← get_inode
    block_size ← on_fs (get_block_size disk)
    if leb (2 ^ 63) nblocks then fail else do
      new_block_size ← add 63 (round_up (get_size inode) block_size) nblocks
      if leb new_block_size 12 then pure tt else do
        group ← on_fs (get_appropriate_descriptor_index inode)
        pointer ← on_fs (or_alloc inode.singly_indirect_block_pointer group)
        put_inode (record inode { singly_indirect_block_pointer = pointer })
        let ppb = block_size / 4
        if leb (new_block_size - 12) ppb
            then pure tt
            else grow_doubly (new_block_size - 12 - ppb) group ppb

-- ===== src/Ext2/Alloc/Inodes.antt =====
-- The allocation of inodes in kernel/src/ext2.rs leaves the number of the block groups as it is; so
-- `alloc_inode_close_to` ends.
use ron.Base.{ℕ, suc, ◌+◌, ◌*◌, ◌%◌, ◌^◌, ◌≡◌, refl, ltb, ◌==◌, none, arith}
use ron.Ext2.{Disk, Ext2RawInode}
use ron.Ext2.Fs.{
  Fs, get_descriptor_index_of_inode_addr, get_descriptor_subindex_of_inode_addr,
  get_ondisk_inode_size, addr_of_inode, write_inode,
}
use ron.Ext2.Alloc.{alloc_inode, alloc_inode_close_to, first_success}
use ron.Ext2.Alloc.Search.{Static, EndsStatic, groups_of, enough}
use ron.Ext2.Alloc.Ends.{
  steady_ran, steady_lift, steady_then, steady_if, steady_ignored, steady_check, steady_unless,
}
use ron.Ext2.Alloc.Steady.{
  steady_write, steady_block_size, steady_read_block, steady_write_block, steady_read_descriptor,
  steady_write_descriptor, steady_flush, steady_find,
}

module _ (disk : Disk) (fs : Fs disk) where
  steady_index :
      (n : ℕ) (s : Fs disk)
      → Static fs s
      → EndsStatic fs (get_descriptor_index_of_inode_addr disk n s)
  unfolding get_descriptor_index_of_inode_addr
  steady_index n s h =
      steady_then fs _ _ (steady_unless fs (ltb n 1) _ s h)
        (λ m t h. steady_unless fs (t.sb.inodes_per_block_group == 0) _ t h)

  steady_subindex :
      (n : ℕ) (s : Fs disk)
      → Static fs s
      → EndsStatic fs (get_descriptor_subindex_of_inode_addr disk n s)
  unfolding get_descriptor_subindex_of_inode_addr
  steady_subindex n s h =
      steady_then fs _ _ (steady_unless fs (ltb n 1) _ s h)
        (λ m t h. steady_unless fs (t.sb.inodes_per_block_group == 0) _ t h)

  steady_inode_size : (s : Fs disk) → Static fs s → EndsStatic fs (get_ondisk_inode_size disk s)
  unfolding get_ondisk_inode_size EndsStatic
  steady_inode_size s h = ground arith

  steady_inode_addr : (n : ℕ) (s : Fs disk) → Static fs s → EndsStatic fs (addr_of_inode disk n s)
  unfolding addr_of_inode
  steady_inode_addr n s h = steady_then fs _ _ (steady_index n s h) (λ index t h.
      steady_then fs _ _ (steady_read_descriptor disk fs index t h) (λ d t h.
        steady_then fs _ _ (steady_block_size disk fs t h) (λ bs t h.
          steady_then fs _ _
            (steady_check fs (ltb (d.block_addr_for_inode_table * bs) (2 ^ 32)) _ t h)
            (λ table t h. steady_then fs _ _ (steady_subindex n t h) (λ i t h.
              steady_then fs _ _ (steady_inode_size t h) (λ size t h.
                steady_then fs _ _ (steady_check fs (ltb (i * size) (2 ^ 32)) _ t h)
                  (λ offset t h. steady_check fs (ltb (table + offset) (2 ^ 32)) _ t h)))))))

  steady_write_inode :
      (n : ℕ) (inode : Ext2RawInode) (s : Fs disk)
      → Static fs s
      → EndsStatic fs (write_inode disk n inode s)
  unfolding write_inode
  steady_write_inode n inode s h = steady_then fs _ _ (steady_inode_addr n s h) (λ a t h.
      steady_lift fs (disk.raw_inode.pack inode) t _ h
        (λ raw. steady_then fs _ _ (steady_write disk fs a raw t h) (λ m t h. steady_ran fs _ t h)))

  pub alloc_inode-Static :
      (g : ℕ) (s : Fs disk) → Static fs s → EndsStatic fs (alloc_inode disk g s)
  unfolding alloc_inode
  alloc_inode-Static g s h =
      steady_if fs (s.sb.unallocated_inodes == 0) _ _ s (steady_ran fs none s h) (
        steady_then fs _ _ (steady_read_descriptor disk fs g s h) (λ d t h.
          steady_if fs (d.unallocated_inodes_in_group == 0) _ _ t (steady_ran fs none t h) (
            steady_then fs _ _ (steady_read_block disk fs d.block_addr_for_inode_usage_bitmap t h)
              (λ bitmap t h. steady_then fs _ _ (steady_find disk fs bitmap t h) (λ x t h.
                steady_then fs _ _
                  (steady_check fs (ltb (s.sb.inodes_per_block_group * g) (2 ^ 32)) _ t h)
                  (λ base t h.
                    steady_then fs _ _
                      (steady_check fs (ltb ((x.0 * 8 + x.1) % 2 ^ 32 + base) (2 ^ 32)) _ t h)
                      (λ index t h.
                        steady_then fs _ _ (steady_check fs (ltb (index + 1) (2 ^ 32)) _ t h)
                          (λ n t h. steady_if fs (n == 1) _ _ t (steady_ran fs none t h) (
                            steady_then fs _ _ (steady_write_block disk fs _ _ t h) (λ _ t h.
                              steady_then fs _ _ (steady_write_descriptor disk fs g _ t h) (λ _ t h.
                                steady_then fs _ _ (steady_ignored fs _ (steady_flush disk fs _ h))
                                  (λ _ t h.
                                    steady_then fs _ _ (steady_write_inode n _ t h)
                                      (λ _ t h. steady_ran fs _ t h)))))))))))))

-- The loop of `alloc_inode_close_to` ends: any number of rounds beyond the number of groups plus
-- two gives the same result and the same file system.
pub alloc_inode_close_to-ends :
    (disk : Disk) (group more : ℕ) (fs : Fs disk)
    → first_success disk (groups_of fs + 2 + more) (alloc_inode disk) group fs
      ≡ alloc_inode_close_to disk group fs
unfolding alloc_inode_close_to
alloc_inode_close_to-ends disk group more fs =
    let e : groups_of fs + 2 + more ≡ suc (groups_of fs + 1 + more) = omega arith in
    let e' : groups_of fs + 2 ≡ suc (groups_of fs + 1) = omega arith in
    rw (e, e')
      (enough disk (alloc_inode disk) (λ g s. alloc_inode-Static disk s g s (refl, refl))
        (groups_of fs + 1 + more) (groups_of fs + 1) group fs (omega arith) (omega arith))

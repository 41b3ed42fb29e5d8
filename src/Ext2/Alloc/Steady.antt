-- ===== src/Ext2/Alloc/Steady.antt =====
-- An allocation leaves the number of the block groups as it is, whatever it gives; so
-- `alloc_block_close_to` ends.
use ron.Base.{
  ℕ, suc, ◌+◌, ◌*◌, ◌%◌, ◌^◌, ◌≡◌, inl, inr, refl, ltb, ◌==◌, Option, none, some, List, length,
  arith,
}
use ron.Ext2.{Disk, Ext2ExtendedSuperblock, Ext2BlockGroupDescriptor}
use ron.Ext2.Fs.{
  Fs, read, write, sanity_check_write, get_block_size, read_block, write_block,
  get_number_of_block_groups, get_number_of_special_blocks, descriptor_addr,
  read_block_group_descriptor, write_block_group_descriptor, flush_super_blocks, flush_extended,
}
use ron.Ext2.Alloc.{
  alloc_block, alloc_block_close_to, first_success, find_free, find_bit, find_byte,
}
use ron.Ext2.Alloc.Search.{Static, EndsStatic, groups_of, enough, get_number_of_block_groups-cases}
use ron.Ext2.Alloc.Ends.{
  steady_ran, steady_panic, steady_lift, steady_then, steady_if, steady_ignored, steady_check,
  steady_run,
}

module _ (disk : Disk) (fs : Fs disk) where
  steady_sanity :
      (a : ℕ) (bs : List ℕ) (s : Fs disk)
      → Static fs s
      → EndsStatic fs (sanity_check_write disk a bs s)
  unfolding sanity_check_write read
  steady_sanity a bs s h =
      steady_lift fs (disk.read s.backing_device a (length bs)) s _ h (λ r. steady_ran fs _ s h)

  pub steady_write :
      (a : ℕ) (bs : List ℕ) (s : Fs disk) → Static fs s → EndsStatic fs (write disk a bs s)
  unfolding write
  steady_write a bs s h =
      steady_if fs s.read_only _ _ s (steady_ran fs none s h)
        (steady_then fs _ _ (steady_sanity a bs _ h) (λ _ s h. steady_ran fs _ s h))

  pub steady_block_size : (s : Fs disk) → Static fs s → EndsStatic fs (get_block_size disk s)
  unfolding get_block_size
  steady_block_size s h =
      steady_if fs (ltb (s.sb.block_size_log2_minus_10 + 10) 32) _ _ s (steady_ran fs _ s h)
        (steady_panic ℕ fs)

  pub steady_read_block :
      (number : ℕ) (s : Fs disk) → Static fs s → EndsStatic fs (read_block disk number s)
  unfolding read_block read
  steady_read_block number s h = steady_if fs (number == 0) _ _ s (steady_ran fs none s h) (
      steady_then fs _ _ (steady_block_size s h) (λ bs s h.
        steady_then fs _ _ (steady_check fs (ltb (bs * number) (2 ^ 32)) _ s h)
          (λ _ s h. steady_ran fs _ s h)))

  pub steady_write_block :
      (number : ℕ) (bs : List ℕ) (s : Fs disk)
      → Static fs s
      → EndsStatic fs (write_block disk number bs s)
  unfolding write_block
  steady_write_block number bs s h = steady_then fs _ _ (steady_block_size s h) (λ size s h.
      steady_then fs _ _ (steady_check fs (length bs == size) _ s h) (λ _ s h.
        steady_if fs (number == 0) _ _ s (steady_ran fs none s h) (
          steady_then fs _ _ (steady_check fs (ltb (size * number) (2 ^ 32)) _ s h) (λ a s h.
            steady_then fs _ _ (steady_write a bs s h) (λ n s h.
              steady_if fs (ltb n size) _ _ s (steady_ran fs none s h) (steady_ran fs _ s h))))))

  steady_addr : (g : ℕ) (s : Fs disk) → Static fs s → EndsStatic fs (descriptor_addr disk g s)
  unfolding descriptor_addr
  steady_addr g s h =
      steady_then fs _ _ (steady_check fs (ltb (g * 32) (2 ^ 32)) _ s h)
        (λ o s h. steady_then fs _ _ (steady_block_size s h) (λ bs s h. steady_check fs _ _ s h))

  pub steady_read_descriptor :
      (g : ℕ) (s : Fs disk) → Static fs s → EndsStatic fs (read_block_group_descriptor disk g s)
  unfolding read_block_group_descriptor read
  steady_read_descriptor g s h = steady_then fs _ _ (steady_addr g s h) (λ a s h.
      steady_lift fs disk.block_group_descriptor.packed_bytes_size s _ h
        (λ n. steady_lift fs (disk.read s.backing_device a n) s _ h (λ raw. steady_ran fs _ s h)))

  pub steady_write_descriptor :
      (g : ℕ) (d : Ext2BlockGroupDescriptor) (s : Fs disk)
      → Static fs s
      → EndsStatic fs (write_block_group_descriptor disk g d s)
  unfolding write_block_group_descriptor
  steady_write_descriptor g d s h = steady_then fs _ _ (steady_addr g s h) (λ a s h.
      steady_lift fs (disk.block_group_descriptor.pack d) s _ h
        (λ raw. steady_then fs _ _ (steady_write a raw s h) (λ n s h. steady_ran fs _ s h)))

  steady_flush_extended :
      (e : Option Ext2ExtendedSuperblock) (s : Fs disk)
      → Static fs s
      → EndsStatic fs (flush_extended disk e s)
  unfolding flush_extended
  steady_flush_extended none s h = steady_ran fs _ s h
  steady_flush_extended (some esb) s h =
      steady_lift fs (disk.extended_super_block.pack esb) s _ h
        (λ raw. steady_then fs _ _ (steady_write _ raw s h) (λ n s h. steady_ran fs _ s h))

  pub steady_flush : (s : Fs disk) → Static fs s → EndsStatic fs (flush_super_blocks disk s)
  unfolding flush_super_blocks
  steady_flush s h = steady_lift fs (disk.super_block.pack s.sb) s _ h (λ raw.
      steady_then fs _ _ (steady_write 1024 raw s h)
        (λ n s' h. steady_flush_extended s.extended_sb s' h))

  steady_groups : (s : Fs disk) → Static fs s → EndsStatic fs (get_number_of_block_groups disk s)
  steady_groups s h = elim (get_number_of_block_groups-cases disk s) [
    | inl e ↦ rw e (steady_panic ℕ fs)
    | inr e ↦ rw e (steady_ran fs _ s h)
  ]

  steady_special : (s : Fs disk) → Static fs s → EndsStatic fs (get_number_of_special_blocks disk s)
  unfolding get_number_of_special_blocks
  steady_special s h =
      steady_then fs _ _ (steady_block_size s h)
        (λ bs s h. steady_then fs _ _ (steady_groups s h) (λ n s h. steady_ran fs _ s h))

  pub steady_find :
      (bitmap : List ℕ) (s : Fs disk) → Static fs s → EndsStatic fs (find_free bitmap s)
  unfolding find_free
  steady_find bitmap s h = steady_lift fs (find_byte 0 bitmap) s _ h (λ x.
      steady_then fs _ _ (steady_run fs (find_bit 8 0 x.1) s h) (λ bit s h. steady_ran fs _ s h))

  pub alloc_block-Static :
      (g : ℕ) (s : Fs disk) → Static fs s → EndsStatic fs (alloc_block disk g s)
  unfolding alloc_block
  alloc_block-Static g s h =
      steady_if fs (s.sb.unallocated_blocks == 0) _ _ s (steady_ran fs none s h) (
        steady_then fs _ _ (steady_read_descriptor g s h) (λ d t h.
          steady_if fs (d.unallocated_blocks_in_group == 0) _ _ t (steady_ran fs none t h) (
            steady_then fs _ _ (steady_read_block d.block_addr_for_block_usage_bitmap t h)
              (λ bitmap t h. steady_then fs _ _ (steady_find bitmap t h) (λ x t h.
                steady_then fs _ _
                  (steady_check fs (ltb (g * s.sb.blocks_per_block_group) (2 ^ 32)) _ t h)
                  (λ base t h.
                    steady_then fs _ _
                      (steady_check fs (ltb ((x.0 * 8 + x.1) % 2 ^ 32 + base) (2 ^ 32)) _ t h)
                      (λ n t h. steady_then fs _ _ (steady_special t h) (λ special t h.
                        steady_then fs _ _
                          (steady_check fs (ltb (n + special % 2 ^ 32) (2 ^ 32)) _ t h)
                          (λ p t h. steady_then fs _ _ (steady_write_block _ _ t h) (λ _ t h.
                            steady_then fs _ _ (steady_write_descriptor g _ t h) (λ _ t h.
                              steady_then fs _ _ (steady_ignored fs _ (steady_flush _ h)) (λ _ t h.
                                steady_then fs _ _ (steady_block_size t h) (λ bs t h.
                                  steady_then fs _ _ (steady_write_block p _ t h)
                                    (λ _ t h. steady_ran fs _ t h))))))))))))))

-- The loop of `alloc_block_close_to` ends: any number of rounds beyond the number of groups plus
-- two gives the same result and the same file system.
pub alloc_block_close_to-ends :
    (disk : Disk) (group more : ℕ) (fs : Fs disk)
    → first_success disk (groups_of fs + 2 + more) (alloc_block disk) group fs
      ≡ alloc_block_close_to disk group fs
unfolding alloc_block_close_to
alloc_block_close_to-ends disk group more fs =
    let e : groups_of fs + 2 + more ≡ suc (groups_of fs + 1 + more) = omega arith in
    let e' : groups_of fs + 2 ≡ suc (groups_of fs + 1) = omega arith in
    rw (e, e')
      (enough disk (alloc_block disk) (λ g s. alloc_block-Static disk s g s (refl, refl))
        (groups_of fs + 1 + more) (groups_of fs + 1) group fs (omega arith) (omega arith))

-- ===== src/Ext2/Pointer/Tree.antt =====
-- `read_data_block_pointer` finds the place of every data block that the trees have room for.
use native.Mathlib.Nat.{pow-le-pow_right}
use ron.Base.{
  ℕ, ◌+◌, ◌*◌, ◌/◌, ◌^◌, ◌≤◌, ◌<◌, ◌≡◌, ◌⊎◌, inl, inr, refl, none, some, ltb, leb, Bool-cases,
  arith, true, false,
}
use ron.Base.Run.{ran}
use ron.Ext2.{Disk}
use ron.Ext2.Fs.{Fs}
use ron.Ext2.Device.{block_size_of, get_block_size_lem}
use ron.Ext2.Pointer.{Place, direct, singly, doubly, triply, place_of}
use ron.Ext2.Pointer.Path.{number_at, IsWithin, locate-number_at, locate-none, number_at-onto}

-- The number of data blocks that an inode has room for.
abbrev pub capacity : ℕ → ℕ
capacity ppb = 12 + ppb + ppb * ppb + ppb * ppb * ppb

module _ (disk : Disk) (fs : Fs disk) (small : fs.sb.block_size_log2_minus_10 < 12) where
  abbrev ppb : ℕ
  ppb = block_size_of disk fs / 4

  ppb_bounds : (0 < ppb) × (ppb < 2 ^ 21)
  ppb_bounds =
      let low : 2 ^ 10 ≤ block_size_of disk fs =
        pow-le-pow_right {n = 2} (omega arith) {i = 10} (omega arith) in
      let high : block_size_of disk fs ≤ 2 ^ 21 =
        pow-le-pow_right {n = 2} (omega arith) {j = 21} (omega arith) in
      omega arith

  beyond :
      (place : Place)
      → IsWithin ppb place
      → 12 ≤ number_at ppb place
      → place_of disk (number_at ppb place) fs ≡ ran (some place, fs)
  unfolding place_of
  beyond place within le =
      let e : leb (number_at ppb place) 11 ≡ false = ground arith in
      rw e (
        rw (get_block_size_lem disk fs (omega arith))
          (locate-number_at ppb ppb_bounds.1 fs place within le))

  place_of-number_at :
      (place : Place)
      → IsWithin ppb place
      → place_of disk (number_at ppb place) fs ≡ ran (some place, fs)
  unfolding place_of
  place_of-number_at (direct i) within = let e : leb i 11 ≡ true = ground arith in rw e refl
  place_of-number_at (singly i) within = beyond (singly i) within (omega arith)
  place_of-number_at (doubly i j) within = beyond (doubly i j) within (omega arith)
  place_of-number_at (triply i j k) within = beyond (triply i j k) within (omega arith)

  past_end : (n : ℕ) → capacity ppb ≤ n → place_of disk n fs ≡ ran (none, fs)
  unfolding place_of
  past_end n h =
      let e : leb n 11 ≡ false = ground arith in
      rw e (rw (get_block_size_lem disk fs (omega arith)) (locate-none ppb ppb_bounds.1 fs n h))

  found :
      (n : ℕ) (place : Place)
      → IsWithin ppb place
      → number_at ppb place ≡ n
      → place_of disk n fs ≡ ran (some place, fs)
  found n place within e = rw (← e) (place_of-number_at place within)

  -- Let a block have 256 * 2 ^ k pointers, k < 12. A data block number below the capacity of an
  -- inode, 12 + p + p ^ 2 + p ^ 3 for p pointers, has a place in its tree: all indices of the place
  -- are in range, and the number counted from them is the data block number. Every other number
  -- gives `None`; the computation never panics.
  pub place_of_lem :
      (n : ℕ)
      → ((n < capacity ppb)
          × ((place : Place) × IsWithin ppb place
              × (number_at ppb place ≡ n)
              × (place_of disk n fs ≡ ran (some place, fs))))
        ⊎ ((capacity ppb ≤ n) × (place_of disk n fs ≡ ran (none, fs)))
  unfolding place_of
  place_of_lem n = elim (Bool-cases (ltb n (capacity ppb))) [
    | inl h ↦
        let (place, within, e) = number_at-onto ppb ppb_bounds.1 n ppb_bounds.0 (ground arith) in
        inl (ground arith, (place, within, e, found n place within e))
    | inr h ↦ inr (ground arith, past_end n (ground arith))
  ]

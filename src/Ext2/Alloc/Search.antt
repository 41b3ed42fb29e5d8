-- ===== src/Ext2/Alloc/Search.antt =====
-- `alloc_block_close_to` ends: its loop has a round for each group at most.
use ron.Base.{
  ℕ, zero, suc, ◌+◌, ◌^◌, ◌≤◌, ◌≡◌, ◌⊎◌, inl, inr, refl, false, ltb, ◌==◌, Option, none, some,
  Bool-cases, if◌then◌else◌, arith,
}
use ron.Base.Run.{Run, panic, ran, Keeps}
use ron.Ext2.{Disk, Ext2Fs}
use ron.Ext2.Monad.{M, follow, reified, fail, ◌>>=◌, add}
use ron.Ext2.Fs.{Fs, round_up, get_number_of_block_groups}
use ron.Ext2.Alloc.{first_success, try_next}

-- What the number of groups depends on is the same.
abbrev pub Static : {D : Type 0} → Ext2Fs D → Ext2Fs D → Type 0
Static fs fs' =
    (fs'.sb.max_no_of_blocks ≡ fs.sb.max_no_of_blocks)
    × (fs'.sb.blocks_per_block_group ≡ fs.sb.blocks_per_block_group)

unfoldable pub EndsStatic : {D A : Type 0} → Ext2Fs D → Run (Option A × Ext2Fs D) → Type 0
EndsStatic fs r = Keeps (λ x. Static fs x.1) r

abbrev pub groups_of : {D : Type 0} → Ext2Fs D → ℕ
groups_of fs = round_up fs.sb.max_no_of_blocks fs.sb.blocks_per_block_group

groups-Static : {D : Type 0} (s s' : Ext2Fs D) → Static s s' → groups_of s' ≡ groups_of s
groups-Static s s' same = rw (same.0) (rw (same.1) refl)

same_groups :
    {D : Type 0} (s s' : Ext2Fs D) (g : ℕ)
    → Static s s'
    → ltb (groups_of s') (g + 1) ≡ false
    → g + 1 ≤ groups_of s
same_groups s s' g same h = ground (arith, groups-Static s s' same)

module _ (disk : Disk) where
  pub get_number_of_block_groups-cases :
      (s : Fs disk)
      → (get_number_of_block_groups disk s ≡ panic)
        ⊎ (get_number_of_block_groups disk s ≡ ran (some (groups_of s), s))
  unfolding get_number_of_block_groups
  get_number_of_block_groups-cases s = elim (Bool-cases (s.sb.blocks_per_block_group == 0)) [
    | inl a ↦ inl (rw a refl)
    | inr a ↦ elim (Bool-cases (s.sb.inodes_per_block_group == 0)) [
      | inl b ↦ inl (rw a (rw b refl))
      | inr b ↦
          elim (Bool-cases
            (groups_of s == round_up s.sb.max_no_of_inodes s.sb.inodes_per_block_group)) [
              | inl c ↦ inr (rw a (rw b (rw c refl)))
              | inr c ↦ inl (rw a (rw b (rw c refl)))
            ]
    ]
  ]

  module _ (alloc : ℕ → M (Fs disk) ℕ)
      (static : (g : ℕ) (s : Fs disk) → EndsStatic s (alloc g s)) where
    -- What follows a failed attempt is all that counts.
    after_attempt :
        (fs : Fs disk) (r : Run (Option ℕ × Fs disk)) (a b : M (Fs disk) ℕ)
        → EndsStatic fs r
        → ((s : Fs disk) → Static fs s → a s ≡ b s)
        → follow (reified r) (λ o. try_next disk o a) ≡ follow (reified r) (λ o. try_next disk o b)
    unfolding EndsStatic
    after_attempt fs panic a b h same = refl
    after_attempt fs (ran (some n, s)) a b h same = refl
    after_attempt fs (ran (none, s)) a b h same = same s h

    abbrev next_round : (f g : ℕ) → M (Fs disk) ℕ
    next_round f g = do
      next ← add 32 g 1
      groups ← get_number_of_block_groups disk
      if ltb groups next then fail else first_success disk f alloc next

    -- Two fuels give the same if they do after one round.
    one_round :
        (f f' g : ℕ) (s : Fs disk)
        → ((s' : Fs disk)
            → Static s s'
            → g + 1 ≤ groups_of s
            → first_success disk f alloc (g + 1) s' ≡ first_success disk f' alloc (g + 1) s')
        → first_success disk (suc f) alloc g s ≡ first_success disk (suc f') alloc g s
    unfolding first_success
    one_round f f' g s rest =
        after_attempt s (alloc g s) (next_round f g) (next_round f' g) (static g s) (λ s' same.
          elim (Bool-cases (ltb (g + 1) (2 ^ 32))) [
            | inr over ↦ rw over refl
            | inl fits ↦ rw fits (elim (get_number_of_block_groups-cases s') [
              | inl stop ↦ rw stop refl
              | inr known ↦ rw known (elim (Bool-cases (ltb (groups_of s') (g + 1))) [
                | inl past ↦ rw past refl
                | inr within ↦ rw within (rest s' same (same_groups s s' g same within))
              ])
            ])
          ])

    pub enough :
        (f f' g : ℕ) (s : Fs disk)
        → groups_of s ≤ f + g
        → groups_of s ≤ f' + g
        → first_success disk (suc f) alloc g s ≡ first_success disk (suc f') alloc g s
    enough zero f' g s le le' = one_round zero f' g s (λ s' same more. absurd (omega arith))
    enough (suc f) zero g s le le' =
        one_round (suc f) zero g s (λ s' same more. absurd (omega arith))
    enough (suc f) (suc f') g s le le' = one_round (suc f) (suc f') g s (λ s' same more.
        let e = groups-Static s s' same in enough f f' (g + 1) s' (omega arith) (omega arith))

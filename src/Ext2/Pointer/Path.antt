-- ===== src/Ext2/Pointer/Path.antt =====
-- The places of the data blocks: the numbering of the leaves of the three trees.
use ron.Base.{
  ℕ, ◌+◌, ◌-◌, ◌*◌, ◌/◌, ◌%◌, ◌^◌, ◌≤◌, ◌<◌, ◌≡◌, refl, ltb, lt→ltb, some, none, arith, false, true,
  Bool-cases, inl, inr,
}
use ron.Base.Division.{two_digits}
use native.Mathlib.Nat.{div-add-mod', mod-lt, div-lt_iff_lt-mul}
use ron.Base.Run.{ran}
use ron.Ext2.Pointer.{Place, direct, singly, doubly, triply, locate}

-- The number of the data block at a place, where an indirect block holds `ppb` pointers.
abbrev pub number_at : ℕ → Place → ℕ
number_at ppb (direct i) = i
number_at ppb (singly i) = 12 + i
number_at ppb (doubly i j) = 12 + ppb + i * ppb + j
number_at ppb (triply i j k) = 12 + ppb + ppb * ppb + i * (ppb * ppb) + j * ppb + k

-- The indices are those of a block that holds `ppb` pointers.
abbrev pub IsWithin : ℕ → Place → Type 0
IsWithin ppb (direct i) = i < 12
IsWithin ppb (singly i) = i < ppb
IsWithin ppb (doubly i j) = (i < ppb) × (j < ppb)
IsWithin ppb (triply i j k) = (i < ppb) × (j < ppb) × (k < ppb)

module _ (ppb : ℕ) (fits : ppb < 2 ^ 21) where
  square : ppb * ppb < 2 ^ 42
  square = grind arith

  cube : ppb * ppb * ppb < 2 ^ 63
  cube = grind (arith, square)

  square_fits : ltb (ppb * ppb) (2 ^ 64) ≡ true
  square_fits = lt→ltb (ppb * ppb) (2 ^ 64) (omega (arith, square))

  cube_fits : ltb (ppb * ppb * ppb) (2 ^ 64) ≡ true
  cube_fits = lt→ltb (ppb * ppb * ppb) (2 ^ 64) (omega (arith, cube))

  below_square : (i j : ℕ) → i < ppb → j < ppb → i * ppb + j < ppb * ppb
  below_square i j p q = grind arith

  below_cube : (i r : ℕ) → i < ppb → r < ppb * ppb → i * (ppb * ppb) + r < ppb * ppb * ppb
  below_cube i r p q = grind arith

  module _ {S : Type 0} (s : S) where
    -- The place of a data block is found from its number.
    pub locate-number_at :
        (place : Place)
        → IsWithin ppb place
        → 12 ≤ number_at ppb place
        → locate ppb (number_at ppb place) s ≡ ran (some place, s)
    unfolding locate
    locate-number_at (direct i) within le = absurd (omega arith)
    locate-number_at (singly i) within le =
        let e : 12 + i - 12 ≡ i = omega arith in rw e (rw (lt→ltb i ppb within) refl)
    locate-number_at (doubly i j) within le =
        let e : 12 + ppb + i * ppb + j - 12 - ppb ≡ i * ppb + j = omega arith in
        let f : ltb (12 + ppb + i * ppb + j - 12) ppb ≡ false = ground arith in
        let d = two_digits i j ppb within.1 in
        rw f (
          rw square_fits (
            rw e (
              rw (lt→ltb (i * ppb + j) (ppb * ppb) (below_square i j within.0 within.1))
                (rw (d.0, d.1) refl))))
    locate-number_at (triply i j k) within le =
        let r : ℕ = j * ppb + k in
        let n : ℕ = 12 + ppb + ppb * ppb + i * (ppb * ppb) + j * ppb + k in
        let r_lt : r < ppb * ppb = below_square j k within.1 within.2 in
        let e : n - 12 - ppb - ppb * ppb ≡ i * (ppb * ppb) + r = omega arith in
        let f : ltb (n - 12) ppb ≡ false = ground arith in
        let g : ltb (n - 12 - ppb) (ppb * ppb) ≡ false = ground arith in
        let d = two_digits i r (ppb * ppb) r_lt in
        let d' = two_digits j k ppb within.2 in
        rw f (
          rw square_fits (
            rw g (
              rw cube_fits (
                rw e (
                  rw (lt→ltb (i * (ppb * ppb) + r) (ppb * ppb * ppb) (below_cube i r within.0 r_lt))
                    (rw (d.0, d.1) (rw (d'.0, d'.1) refl)))))))

  -- A number beyond the last place has none.
  pub locate-none :
      {S : Type 0} (s : S) (n : ℕ)
      → 12 + ppb + ppb * ppb + ppb * ppb * ppb ≤ n
      → locate ppb n s ≡ ran (none, s)
  unfolding locate
  locate-none s n h =
      let f : ltb (n - 12) ppb ≡ false = ground arith in
      let g : ltb (n - 12 - ppb) (ppb * ppb) ≡ false = ground arith in
      let k : ltb (n - 12 - ppb - ppb * ppb) (ppb * ppb * ppb) ≡ false = ground arith in
      rw f (rw square_fits (rw g (rw cube_fits (rw k refl))))

  -- Every number below the end is that of a place whose indices are in range.
  pub number_at-onto :
      (n : ℕ)
      → 0 < ppb
      → n < 12 + ppb + ppb * ppb + ppb * ppb * ppb
      → (place : Place) × IsWithin ppb place × (number_at ppb place ≡ n)
  number_at-onto n pos h =
      let square_pos : 0 < ppb * ppb = grind arith in
      elim (Bool-cases (ltb n 12)) [
        | inl a ↦ (direct n, ground arith, refl)
        | inr a ↦ elim (Bool-cases (ltb n (12 + ppb))) [
          | inl b ↦ (singly (n - 12), ground arith, ground arith)
          | inr b ↦ elim (Bool-cases (ltb n (12 + ppb + ppb * ppb))) [
            | inl c ↦ (
              doubly ((n - 12 - ppb) / ppb) ((n - 12 - ppb) % ppb),
              ((div-lt_iff_lt-mul pos).1 (ground arith), mod-lt _ pos),
              ground (arith, div-add-mod' (n - 12 - ppb) ppb),
            )
            | inr c ↦ (
              triply ((n - 12 - ppb - ppb * ppb) / (ppb * ppb))
                  ((n - 12 - ppb - ppb * ppb) % (ppb * ppb) / ppb)
                  ((n - 12 - ppb - ppb * ppb) % (ppb * ppb) % ppb),
              (
                (div-lt_iff_lt-mul square_pos).1 (ground arith),
                (div-lt_iff_lt-mul pos).1 (mod-lt _ square_pos),
                mod-lt _ pos,
              ),
              ground (
                arith,
                div-add-mod' (n - 12 - ppb - ppb * ppb) (ppb * ppb),
                div-add-mod' ((n - 12 - ppb - ppb * ppb) % (ppb * ppb)) ppb,
              ),
            )
          ]
        ]
      ]

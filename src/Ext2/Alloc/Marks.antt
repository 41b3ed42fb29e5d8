-- ===== src/Ext2/Alloc/Marks.antt =====
-- Marking an entry of a bitmap as in use changes that entry alone.
use ron.Base.{
  ℕ, ◌*◌, ◌/◌, ◌%◌, ◌^◌, ◌<◌, ◌==◌, ◌≡◌, refl, true, false, if◌then◌else◌, some, List, length,
  get_elem?, set, get_elem?-set_self, get_elem?-set_ne, Bool, Bool-cases, inl, inr, ==_iff, bit_or,
  arith,
}
use ron.Base.Finite.{all_below, all_below-holds}
use ron.Ext2.Alloc.Bitmap.{entry_at}

abbrev marks_bit : ℕ → ℕ → ℕ → Bool
marks_bit b k j = bit_or b (2 ^ k) / 2 ^ j % 2 == (if j == k then 1 else b / 2 ^ j % 2)

marks_table : all_below 256 (λ b. all_below 8 (λ k. all_below 8 (λ j. marks_bit b k j))) ≡ true
unfolding all_below
marks_table = refl

pub mark_bit :
    (b k j : ℕ)
    → b < 256
    → k < 8
    → j < 8
    → bit_or b (2 ^ k) / 2 ^ j % 2 ≡ (if j == k then 1 else b / 2 ^ j % 2)
mark_bit b k j lt p q =
    let row =
      all_below-holds 256 (λ b. all_below 8 (λ k. all_below 8 (λ j. marks_bit b k j))) b marks_table
        lt in
    let cell = all_below-holds 8 (λ k. all_below 8 (λ j. marks_bit b k j)) k row p in
    (==_iff _ _).0 (all_below-holds 8 (λ j. marks_bit b k j) j cell q)

-- The bitmap in which entry `n` is in use.
abbrev pub mark : List ℕ → ℕ → ℕ → List ℕ
mark bitmap n byte = set bitmap (n / 8) (bit_or byte (2 ^ (n % 8)))

pub entry_at-mark :
    (bitmap : List ℕ) (n byte m : ℕ)
    → n < 8 * length bitmap
    → get_elem? bitmap (n / 8) ≡ some byte
    → byte < 256
    → entry_at (mark bitmap n byte) m ≡ (if m == n then 1 else entry_at bitmap m)
entry_at-mark bitmap n byte m inside at lt = elim (Bool-cases (m / 8 == n / 8)) [
  | inl same ↦
      let e : m / 8 ≡ n / 8 = (==_iff _ _).0 same in
      rw e (
        rw (get_elem?-set_self bitmap (n / 8) (bit_or byte (2 ^ (n % 8))) (omega arith)) (
          rw at (rw (mark_bit byte (n % 8) (m % 8) lt (omega arith) (omega arith)) (ground arith))))
  | inr other ↦
      rw
        (get_elem?-set_ne bitmap {i = n / 8} {j = m / 8} (bit_or byte (2 ^ (n % 8)))
          (λ (e : n / 8 ≡ m / 8). ground arith))
        (let ne : (m == n) ≡ false = ground arith in rw ne refl)
]

-- ===== src/Ext2/Alloc/Bitmap.antt =====
-- The search of a bitmap finds its first free entry, and ends.
use ron.Base.{
  ℕ, zero, suc, ◌+◌, ◌*◌, ◌/◌, ◌%◌, ◌^◌, ◌<◌, ◌==◌, ◌≡◌, ◌≢◌, ◌⊎◌, inl, inr, refl, sym, ap, subst,
  Option, none, some, List, [], ◌∷◌, length, get_elem?, All, All-get_elem?, Bool-cases, ==_iff,
  arith,
}
use native.Mathlib.Nat.{zero-add}
use ron.Base.Run.{ran}
use ron.Ext2.Alloc.{find_byte, find_bit, find_free}

-- Entry `n` of a bitmap: 1 is in use. An entry beyond the bitmap is not.
abbrev pub bit_of : Option ℕ → ℕ → ℕ
bit_of none j = 0
bit_of (some b) j = b / 2 ^ j % 2

abbrev pub entry_at : List ℕ → ℕ → ℕ
entry_at bitmap n = bit_of (get_elem? bitmap (n / 8)) (n % 8)

abbrev BitsSet : ℕ → ℕ → Type 0
BitsSet k byte = (j : ℕ) → j < k → byte / 2 ^ j % 2 ≡ 1

-- A byte with all bits set is 0xff.
full_byte : (byte : ℕ) → byte < 256 → BitsSet 8 byte → byte ≡ 255
full_byte byte h set = omega (
  arith,
  set 0 (omega arith),
  set 1 (omega arith),
  set 2 (omega arith),
  set 3 (omega arith),
  set 4 (omega arith),
  set 5 (omega arith),
  set 6 (omega arith),
  set 7 (omega arith),
)

one_more : (k byte : ℕ) → BitsSet k byte → byte / 2 ^ k % 2 ≢ 0 → BitsSet (suc k) byte
one_more k byte set e j h = elim (Bool-cases (j == k)) [
  | inl same ↦ subst (λ (t : ℕ). byte / 2 ^ t % 2 ≡ 1) (sym ((==_iff j k).0 same)) (omega arith)
  | inr other ↦ set j (ground arith)
]

abbrev FirstBit : ℕ → ℕ → Type 0
FirstBit byte bit = (bit < 8) × (byte / 2 ^ bit % 2 ≡ 0) × BitsSet bit byte

find_bit_from :
    (left bit byte : ℕ)
    → byte < 256
    → byte ≢ 255
    → left + bit ≡ 8
    → BitsSet bit byte
    → (b : ℕ) × (find_bit left bit byte ≡ ran b) × FirstBit byte b
unfolding find_bit
find_bit_from zero bit byte lt ne sum set =
    absurd (ne (full_byte byte lt (λ j h. set j (omega arith))))
find_bit_from (suc left) bit byte lt ne sum set = elim (Bool-cases (byte / 2 ^ bit % 2 == 0)) [
  | inl free ↦ (bit, rw free refl, (omega arith, (==_iff _ 0).0 free, set))
  | inr used ↦
      let (b, e, first) =
        find_bit_from left (suc bit) byte lt ne (omega arith)
          (one_more bit byte set (ground arith)) in
      (b, rw used e, first)
]

full_before :
    (b : ℕ) (bs : List ℕ) (i : ℕ)
    → b ≡ 255
    → ((j : ℕ) → j < i → get_elem? bs j ≡ some 255)
    → (j : ℕ) → j < suc i
    → get_elem? (b ∷ bs) j ≡ some 255
full_before b bs i e before zero h = ap some e
full_before b bs i e before (suc j) h = before j (omega arith)

find_byte_lem :
    (bitmap : List ℕ) (k : ℕ)
    → ((i : ℕ) × ((b : ℕ) × (find_byte k bitmap ≡ some (k + i, b))
          × (get_elem? bitmap i ≡ some b)
          × (b ≢ 255)
          × ((j : ℕ) → j < i → get_elem? bitmap j ≡ some 255)))
      ⊎ ((find_byte k bitmap ≡ none)
          × ((j : ℕ) → j < length bitmap → get_elem? bitmap j ≡ some 255))
unfolding find_byte
find_byte_lem [] k = inr (refl, λ j h. elim h [ ])
find_byte_lem (b ∷ bs) k = elim (Bool-cases (b == 255)) [
  | inl full ↦ elim (find_byte_lem bs (suc k)) [
    | inl (i, (c, e, at, ne, before)) ↦ inl (
      suc i,
      (
        c,
        rw full (rw e (ap (λ (t : ℕ). some (t, c)) (omega arith))),
        at,
        ne,
        full_before b bs i (ground arith) before,
      ),
    )
    | inr (e, all) ↦ inr (rw full e, full_before b bs (length bs) (ground arith) all)
  ]
  | inr other ↦ inl (
    0,
    (
      b,
      rw other (ap (λ (t : ℕ). some (t, b)) (omega arith)),
      refl,
      ground arith,
      λ j h. elim h [ ],
    ),
  )
]

bit_of-full : (j : ℕ) → j < 8 → bit_of (some 255) j ≡ 1
bit_of-full zero h = refl
bit_of-full (suc zero) h = refl
bit_of-full (suc (suc zero)) h = refl
bit_of-full (suc (suc (suc zero))) h = refl
bit_of-full (suc (suc (suc (suc zero)))) h = refl
bit_of-full (suc (suc (suc (suc (suc zero))))) h = refl
bit_of-full (suc (suc (suc (suc (suc (suc zero)))))) h = refl
bit_of-full (suc (suc (suc (suc (suc (suc (suc zero))))))) h = refl
bit_of-full (suc (suc (suc (suc (suc (suc (suc (suc j)))))))) h = absurd (omega arith)

entry_at-full :
    (bitmap : List ℕ) (n : ℕ) → get_elem? bitmap (n / 8) ≡ some 255 → entry_at bitmap n ≡ 1
entry_at-full bitmap n e = rw e (bit_of-full (n % 8) (omega arith))

-- The entries before bit `bit` of byte `i`.
entries_before :
    (bitmap : List ℕ) (i b bit : ℕ)
    → get_elem? bitmap i ≡ some b
    → bit < 8
    → BitsSet bit b
    → ((j : ℕ) → j < i → get_elem? bitmap j ≡ some 255)
    → (n : ℕ) → n < i * 8 + bit
    → entry_at bitmap n ≡ 1
entries_before bitmap i b bit at small set before n h = elim (Bool-cases (n / 8 == i)) [
  | inl same ↦
      let e : get_elem? bitmap (n / 8) ≡ some b = rw ((==_iff _ i).0 same) at in
      rw e (set (n % 8) (ground arith))
  | inr other ↦ entry_at-full bitmap n (before (n / 8) (ground arith))
]

free_entry :
    (bitmap : List ℕ) (i b bit : ℕ)
    → get_elem? bitmap i ≡ some b
    → bit < 8
    → b / 2 ^ bit % 2 ≡ 0
    → entry_at bitmap (i * 8 + bit) ≡ 0
free_entry bitmap i b bit at small free =
    let q : (i * 8 + bit) / 8 ≡ i = omega arith in
    let r : (i * 8 + bit) % 8 ≡ bit = omega arith in rw (q, r) (rw at free)

-- Of a bitmap of bytes, the search of `alloc_block` and `alloc_inode` either gives the byte and the
-- bit of the first free entry, all entries before it being in use, or gives `None`, and then every
-- entry is in use. It never panics.
pub find_free_lem :
    {S : Type 0} (s : S) (bitmap : List ℕ)
    → All (λ b. b < 256) bitmap
    → ((i : ℕ) × ((bit : ℕ) × ((byte : ℕ) × (find_free bitmap s ≡ ran (some (i, bit, byte), s))
            × (get_elem? bitmap i ≡ some byte)
            × (bit < 8)
            × (entry_at bitmap (i * 8 + bit) ≡ 0)
            × ((n : ℕ) → n < i * 8 + bit → entry_at bitmap n ≡ 1))))
      ⊎ ((find_free bitmap s ≡ ran (none, s))
          × ((n : ℕ) → n < 8 * length bitmap → entry_at bitmap n ≡ 1))
unfolding find_free
find_free_lem s bitmap bytes = elim (find_byte_lem bitmap 0) [
  | inl (i, (b, e, at, ne, before)) ↦
      let (bit, f, (small, free, set)) =
        find_bit_from 8 0 b (All-get_elem? (λ b. b < 256) bitmap i bytes at) ne refl
          (λ j h. elim h [ ]) in
      inl (
        i,
        (
          bit,
          (
            b,
            rw e (rw f (rw (zero-add i) refl)),
            at,
            small,
            free_entry bitmap i b bit at small free,
            entries_before bitmap i b bit at small set before,
          ),
        ),
      )
  | inr (e, all) ↦ inr (rw e refl, λ n h. entry_at-full bitmap n (all (n / 8) (omega arith)))
]

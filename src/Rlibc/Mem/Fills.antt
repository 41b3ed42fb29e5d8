-- ===== src/Rlibc/Mem/Fills.antt =====
-- `memset` of rlibc/src/mem.rs.
use ron.Base.Finite.{all_below, all_below-holds}
use ron.Base.{
  ℕ, zero, suc, ◌+◌, ◌-◌, ◌*◌, ◌/◌, ◌%◌, ◌^◌, ◌≤◌, ◌<◌, ◌≡◌, ◌⊎◌, inl, inr, refl, subst, ◌∙◌, ◌==◌,
  ltb, leb, Bool, true, false, ◌&&◌, if◌then◌else◌, Bool-cases, arith,
}
use ron.Rlibc.{Memory, write_byte}
use ron.Rlibc.Mem.{size, fill_bytes, write_word, fill_words, repeat_char, memset}

-- The memory `m` with `k` bytes from offset `i` on set.
abbrev pub filled : (k i dest c : ℕ) → Memory → Memory
filled k i dest c m = λ a. if leb (dest + i) a && ltb a (dest + i + k) then c else m a

fill_bytes-filled :
    (k i dest c : ℕ) (m : Memory) (a : ℕ) → fill_bytes k i dest c m a ≡ filled k i dest c m a
unfolding fill_bytes
fill_bytes-filled zero i dest c m a = ground arith
fill_bytes-filled (suc k) i dest c m a =
    ground (arith, fill_bytes-filled k (suc i) dest c (write_byte m (dest + i) c) a)

-- A test that holds below a bound.

-- Every byte of the repeated char is the char, unless it is negative.
abbrev is_repeated : ℕ → Bool
is_repeated c = all_below size (λ j. repeat_char size 0 c 0 / 2 ^ (8 * j) % 256 == c)

chars_repeated : all_below 128 is_repeated ≡ true
unfolding all_below repeat_char
chars_repeated = refl

repeat_char-byte : (c j : ℕ) → c < 128 → j < size → repeat_char size 0 c 0 / 2 ^ (8 * j) % 256 ≡ c
repeat_char-byte c j h l =
    let holds : is_repeated c ≡ true = all_below-holds 128 is_repeated c chars_repeated h in
    let byte : (repeat_char size 0 c 0 / 2 ^ (8 * j) % 256 == c) ≡ true =
      all_below-holds size (λ i. repeat_char size 0 c 0 / 2 ^ (8 * i) % 256 == c) j holds l in
    ground arith

fill_words-filled :
    (k i dest v c : ℕ) (m : Memory)
    → ((j : ℕ) → j < size → v / 2 ^ (8 * j) % 256 ≡ c)
    → (a : ℕ) → fill_words k i dest v m a ≡ filled (k * size) (i * size) dest c m a
unfolding fill_words
fill_words-filled zero i dest v c m h a = ground arith
fill_words-filled (suc k) i dest v c m h a =
    let rest = fill_words-filled k (suc i) dest v c (write_word m (dest + i * size) v) h a in
    elim (Bool-cases (leb (dest + i * size) a && ltb a (dest + i * size + size))) [
      | inl t ↦
          let byte : v / 2 ^ (8 * (a - (dest + i * size))) % 256 ≡ c =
            h (a - (dest + i * size)) (ground arith) in
          ground (arith, rest)
      | inr t ↦ ground (arith, rest)
    ]

-- For a byte below 128, or a range of less than eight bytes, after `memset` every byte of the range
-- is that byte, and every other is unchanged.
pub memset-filled :
    (dest c n : ℕ) (m : Memory)
    → (c % 256 < 128) ⊎ (n < size)
    → (a : ℕ) → memset dest c n m a ≡ filled n 0 dest (c % 256) m a
unfolding memset
memset-filled dest c n m h a = elim (Bool-cases (ltb n size)) [
  | inl t ↦ rw t (fill_bytes-filled n 0 dest (c % 256) m a)
  | inr t ↦
      let words = fill_words (n / size) 0 dest (repeat_char size 0 (c % 256) 0) m in
      let low : c % 256 < 128 = ground arith in
      rw t (
        ground (
          arith,
          fill_bytes-filled (n - n / size * size) (n / size * size) dest (c % 256) words a,
          fill_words-filled (n / size) 0 dest (repeat_char size 0 (c % 256) 0) (c % 256) m
              (λ j. repeat_char-byte (c % 256) j low) a,
        ))
]

-- The second byte of a repeated negative char.
abbrev is_spread : ℕ → Bool
is_spread c = repeat_char size 0 (128 + c) 0 / 256 % 256 == 255

chars_spread : all_below 128 is_spread ≡ true
unfolding all_below repeat_char
chars_spread = refl

repeat_char-negative : (c : ℕ) → 128 ≤ c → c < 256 → repeat_char size 0 c 0 / 256 % 256 ≡ 255
repeat_char-negative c low high =
    let back : 128 + (c - 128) ≡ c = omega arith in
    let holds : is_spread (c - 128) ≡ true =
      all_below-holds 128 is_spread (c - 128) chars_spread (omega arith) in
    subst (λ (d : ℕ). repeat_char size 0 d 0 / 256 % 256 ≡ 255) back (ground arith)

fill_words-below :
    (k i dest v : ℕ) (m : Memory) (a : ℕ) → a < dest + i * size → fill_words k i dest v m a ≡ m a
unfolding fill_words
fill_words-below zero i dest v m a h = refl
fill_words-below (suc k) i dest v m a h =
    ground
      (arith, fill_words-below k (suc i) dest v (write_word m (dest + i * size) v) a (omega arith))

fill_words-second :
    (k dest v : ℕ) (m : Memory) → 1 ≤ k → fill_words k 0 dest v m (dest + 1) ≡ v / 256 % 256
unfolding fill_words
fill_words-second zero dest v m h = absurd (omega arith)
fill_words-second (suc k) dest v m h =
    let below : fill_words k 1 dest v (write_word m (dest + 0 * size) v) (dest + 1)
        ≡ write_word m (dest + 0 * size) v (dest + 1) =
      fill_words-below k 1 dest v (write_word m (dest + 0 * size) v) (dest + 1) (omega arith) in
    let one : dest + 1 - (dest + 0 * size) ≡ 1 = omega arith in below ∙ ground arith

-- For a byte of 128 or more and a range of at least eight bytes, `memset` writes 255 to the second
-- byte of the range.
pub memset-negative :
    (dest c n : ℕ) (m : Memory) → 128 ≤ c % 256 → size ≤ n → memset dest c n m (dest + 1) ≡ 255
unfolding memset
memset-negative dest c n m h l =
    let words = fill_words (n / size) 0 dest (repeat_char size 0 (c % 256) 0) m in
    let long : ltb n size ≡ false = ground arith in
    let second : words (dest + 1) ≡ 255 =
      fill_words-second (n / size) dest (repeat_char size 0 (c % 256) 0) m (omega arith)
      ∙ repeat_char-negative (c % 256) h (omega arith) in
    rw long (
      ground (
        arith,
        second,
        fill_bytes-filled (n - n / size * size) (n / size * size) dest (c % 256) words (dest + 1),
      ))

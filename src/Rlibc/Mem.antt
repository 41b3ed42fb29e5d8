-- ===== src/Rlibc/Mem.antt =====
-- rlibc/src/mem.rs.
pub mod Copies
pub mod Fills
pub mod Compare
use ron.Base.{
  ℕ, zero, suc, ◌+◌, ◌-◌, ◌*◌, ◌/◌, ◌%◌, ◌^◌, bit_or, ◌==◌, ltb, leb, Bool, true, false, ◌&&◌, ◌||◌,
  not, if◌then◌else◌, Option, none, some,
}
use ron.Base.Int.{ℤ, pos, to_signed, pos_part, neg_part, sub_ℕ}
use ron.Rlibc.{Memory, write_byte}

-- `core::mem::size_of::<usize>()`.
abbrev pub size : ℕ
size = 8

-- `*d = *s` on usizes: eight bytes are read, then written.
abbrev pub copy_word : Memory → (d s : ℕ) → Memory
copy_word m d s = λ a. if leb d a && ltb a (d + size) then m (s + (a - d)) else m a

-- The bytes from `i` on, of which `k` are left, in order.
unfoldable pub copy_bytes : (k i dest src : ℕ) → Memory → Memory
copy_bytes zero i dest src m = m
copy_bytes (suc k) i dest src m =
    copy_bytes k (suc i) dest src (write_byte m (dest + i) (m (src + i)))

-- The first `k` bytes, the last one first.
unfoldable pub copy_back : (k dest src : ℕ) → Memory → Memory
copy_back zero dest src m = m
copy_back (suc k) dest src m = copy_back k dest src (write_byte m (dest + k) (m (src + k)))

unfoldable pub copy_words : (k i dest src : ℕ) → Memory → Memory
copy_words zero i dest src m = m
copy_words (suc k) i dest src m =
    copy_words k (suc i) dest src (copy_word m (dest + i * size) (src + i * size))

unfoldable pub memcpy : (dest src n : ℕ) → Memory → Memory
unfolding copy_bytes copy_words
memcpy dest src n m =
    if dest == src
    then m
    else if ltb n size
    then copy_bytes n 0 dest src m
    else let n_size = n / size in
      copy_bytes (n - n_size * size) (n_size * size) dest src (copy_words n_size 0 dest src m)

-- `src_range.contains(p)`.
abbrev pub in_range : (src n p : ℕ) → Bool
in_range src n p = leb src p && leb p (src + (n - 1))

unfoldable pub memmove : (dest src n : ℕ) → Memory → Memory
unfolding memcpy copy_bytes copy_back
memmove dest src n m =
    if (dest == src) || (n == 0)
    then m
    else if not (in_range src n dest || in_range src n (dest + (n - 1)))
    then memcpy dest src n m
    else if ltb dest src
    then copy_bytes n 0 dest src m
    else if ltb src dest
    then copy_back n dest src m
    else m

unfoldable pub fill_bytes : (k i dest c : ℕ) → Memory → Memory
fill_bytes zero i dest c m = m
fill_bytes (suc k) i dest c m = fill_bytes k (suc i) dest c (write_byte m (dest + i) c)

-- `*d = v` on a usize, the lowest byte first.
abbrev pub write_word : Memory → (d v : ℕ) → Memory
write_word m d v = λ a. if leb d a && ltb a (d + size) then v / 2 ^ (8 * (a - d)) % 256 else m a

unfoldable pub fill_words : (k i dest c_size : ℕ) → Memory → Memory
fill_words zero i dest c_size m = m
fill_words (suc k) i dest c_size m =
    fill_words k (suc i) dest c_size (write_word m (dest + i * size) c_size)

-- `c as usize` of an i8, which keeps the sign.
abbrev pub extend_char : ℕ → ℕ
extend_char c = if ltb c 128 then c else c + (2 ^ 64 - 256)

-- `c_size`, where `k` rounds are left from `i` on.
unfoldable pub repeat_char : (k i c c_size : ℕ) → ℕ
repeat_char zero i c c_size = c_size
repeat_char (suc k) i c c_size =
    repeat_char k (suc i) c (bit_or c_size (extend_char c * 2 ^ (i * 8) % 2 ^ 64))

unfoldable pub memset : (dest c n : ℕ) → Memory → Memory
unfolding fill_bytes fill_words repeat_char
memset dest c n m =
    let char = c % 256 in
    if ltb n size
    then fill_bytes n 0 dest char m
    else let n_size = n / size in
      fill_bytes (n - n_size * size) (n_size * size) dest char
        (fill_words n_size 0 dest (repeat_char size 0 char 0) m)

-- `*p` on a usize.
abbrev pub read_word : Memory → ℕ → ℕ
read_word m p =
    m p
    + 2 ^ 8 * m (p + 1)
    + 2 ^ 16 * m (p + 2)
    + 2 ^ 24 * m (p + 3)
    + 2 ^ 32 * m (p + 4)
    + 2 ^ 40 * m (p + 5)
    + 2 ^ 48 * m (p + 6)
    + 2 ^ 56 * m (p + 7)

-- The first of `k` bytes from `i` on at which the two differ.
unfoldable pub find_byte : (k i ptr1 ptr2 : ℕ) → Memory → Option ℕ
find_byte zero i ptr1 ptr2 m = none
find_byte (suc k) i ptr1 ptr2 m = elim (m (ptr1 + i) == m (ptr2 + i)) [
  | false ↦ some i
  | true ↦ find_byte k (suc i) ptr1 ptr2 m
]

-- The first such byte of `k` words from `i` on.
unfoldable pub find_word : (k i ptr1 ptr2 : ℕ) → Memory → Option ℕ
unfolding find_byte
find_word zero i ptr1 ptr2 m = none
find_word (suc k) i ptr1 ptr2 m =
    elim (read_word m (ptr1 + i * size) == read_word m (ptr2 + i * size)) [
      | false ↦ find_byte size (i * size) ptr1 ptr2 m
      | true ↦ find_word k (suc i) ptr1 ptr2 m
    ]

-- `a as i32 - b as i32` of two chars, which are signed.
abbrev pub char_difference : ℕ → ℕ → ℤ
char_difference a b =
    sub_ℕ (pos_part (to_signed 8 a) + neg_part (to_signed 8 b))
      (neg_part (to_signed 8 a) + pos_part (to_signed 8 b))

abbrev pub difference_at : (ptr1 ptr2 : ℕ) → Memory → Option ℕ → ℤ
difference_at ptr1 ptr2 m none = pos 0
difference_at ptr1 ptr2 m (some i) = char_difference (m (ptr1 + i)) (m (ptr2 + i))

-- What the bytes behind the words add.
abbrev pub or_find : Option ℕ → Option ℕ → Option ℕ
or_find none later = later
or_find (some i) later = some i

unfoldable pub memcmp : (ptr1 ptr2 n : ℕ) → Memory → ℤ
unfolding find_byte find_word
memcmp ptr1 ptr2 n m =
    if ptr1 == ptr2
    then pos 0
    else let n_size = n / size in
      difference_at ptr1 ptr2 m (
        or_find (find_word n_size 0 ptr1 ptr2 m)
          (find_byte (n - n_size * size) (n_size * size) ptr1 ptr2 m))

-- The loop of `memchr`, where `k` bytes are left from `i` on.
unfoldable pub find_char : (k i ptr ch : ℕ) → Memory → Option ℕ
find_char zero i ptr ch m = none
find_char (suc k) i ptr ch m = elim (m (ptr + i) == ch) [
  | true ↦ some (ptr + i)
  | false ↦ find_char k (suc i) ptr ch m
]

-- `memchr`: a pointer, or `none` for the null pointer.
unfoldable pub memchr : (ptr ch count : ℕ) → Memory → Option ℕ
unfolding find_char
memchr ptr ch count m = find_char count 0 ptr (ch % 256) m

-- ===== src/Rlibc/Mem/Copies.antt =====
-- `memcpy` and `memmove` of rlibc/src/mem.rs.
use ron.Base.{
  ℕ, zero, suc, ◌+◌, ◌-◌, ◌*◌, ◌/◌, ◌≤◌, ◌≡◌, ◌⊎◌, inl, inr, ◌==◌, ltb, leb, true, false, ◌&&◌,
  ◌||◌, if◌then◌else◌, Bool-cases, arith,
}
use ron.Rlibc.{Memory, write_byte}
use ron.Rlibc.Mem.{size, copy_word, copy_bytes, copy_back, copy_words, memcpy, in_range, memmove}

-- The memory `m` with `k` bytes from offset `i` on copied.
abbrev pub copied : (k i dest src : ℕ) → Memory → Memory
copied k i dest src m =
    λ a. if leb (dest + i) a && ltb a (dest + i + k) then m (src + (a - dest)) else m a

copy_bytes-copied :
    (k i dest src : ℕ) (m : Memory)
    → (dest ≤ src) ⊎ (src + i + k ≤ dest)
    → (a : ℕ) → copy_bytes k i dest src m a ≡ copied k i dest src m a
unfolding copy_bytes
copy_bytes-copied zero i dest src m h a = ground arith
copy_bytes-copied (suc k) i dest src m h a = ground (
  arith,
  copy_bytes-copied k (suc i) dest src (write_byte m (dest + i) (m (src + i))) (ground arith) a,
)

copy_back-copied :
    (k dest src : ℕ) (m : Memory)
    → src ≤ dest
    → (a : ℕ) → copy_back k dest src m a ≡ copied k 0 dest src m a
unfolding copy_back
copy_back-copied zero dest src m h a = ground arith
copy_back-copied (suc k) dest src m h a =
    ground (arith, copy_back-copied k dest src (write_byte m (dest + k) (m (src + k))) h a)

copy_words-copied :
    (k i dest src : ℕ) (m : Memory)
    → (dest + i * size + k * size ≤ src + i * size) ⊎ (src + i * size + k * size ≤ dest)
    → (a : ℕ) → copy_words k i dest src m a ≡ copied (k * size) (i * size) dest src m a
unfolding copy_words
copy_words-copied zero i dest src m h a = ground arith
copy_words-copied (suc k) i dest src m h a = ground (
  arith,
  copy_words-copied k (suc i) dest src (copy_word m (dest + i * size) (src + i * size))
      (ground arith) a,
)

-- `n` bytes at `src` and at `dest` do not overlap.
abbrev pub IsApart : (dest src n : ℕ) → Type 0
IsApart dest src n = (dest + n ≤ src) ⊎ (src + n ≤ dest)

-- The words, then the bytes behind them.
word_copy :
    (dest src n : ℕ) (m : Memory)
    → IsApart dest src n
    → (a : ℕ)
    → copy_bytes
        (n - n / size * size)
        (n / size * size)
        dest
        src
        (copy_words (n / size) 0 dest src m)
        a
      ≡ copied n 0 dest src m a
word_copy dest src n m h a =
    let words = copy_words (n / size) 0 dest src m in
    let done = n / size * size in
    let within : done ≤ n = omega arith in
    let words_apart : (dest + 0 * size + done ≤ src + 0 * size) ⊎ (src + 0 * size + done ≤ dest) =
      ground arith in
    let bytes_apart : (dest ≤ src) ⊎ (src + done + (n - done) ≤ dest) = ground arith in
    ground (
      arith,
      copy_bytes-copied (n - done) done dest src words bytes_apart a,
      copy_words-copied (n / size) 0 dest src m words_apart a,
      copy_words-copied (n / size) 0 dest src m words_apart (src + (a - dest)),
    )

-- `memcpy` of ranges that do not overlap.
pub memcpy-copied :
    (dest src n : ℕ) (m : Memory)
    → IsApart dest src n
    → (a : ℕ) → memcpy dest src n m a ≡ copied n 0 dest src m a
unfolding memcpy
memcpy-copied dest src n m h a = elim (Bool-cases (dest == src)) [
  | inl t ↦ rw t (ground arith)
  | inr t ↦ rw t (elim (Bool-cases (ltb n size)) [
    | inl t' ↦ rw t' (copy_bytes-copied n 0 dest src m (ground arith) a)
    | inr t' ↦ rw t' (word_copy dest src n m h a)
  ])
]

-- An overlap is met from one end or from the other.
overlap-IsApart :
    (dest src n : ℕ)
    → (n == 0) ≡ false
    → (in_range src n dest || in_range src n (dest + (n - 1))) ≡ false
    → IsApart dest src n
overlap-IsApart dest src n z t = ground arith

-- After `memmove` every byte of the destination is what the byte of the source was before, however
-- the two overlap, and every other byte is unchanged.
pub memmove-copied :
    (dest src n : ℕ) (m : Memory) (a : ℕ) → memmove dest src n m a ≡ copied n 0 dest src m a
unfolding memmove
memmove-copied dest src n m a = elim (Bool-cases ((dest == src) || (n == 0))) [
  | inl t ↦ rw t (ground arith)
  | inr t ↦ rw t (elim (Bool-cases (in_range src n dest || in_range src n (dest + (n - 1)))) [
    | inr t' ↦ rw t' (memcpy-copied dest src n m (overlap-IsApart dest src n (ground arith) t') a)
    | inl t' ↦ rw t' (elim (Bool-cases (ltb dest src)) [
      | inl t'' ↦ rw t'' (copy_bytes-copied n 0 dest src m (ground arith) a)
      | inr t'' ↦
          let behind : ltb src dest ≡ true = ground arith in
          rw (t'', behind) (copy_back-copied n dest src m (ground arith) a)
    ])
  ])
]

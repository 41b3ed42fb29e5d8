-- ===== src/Rlibc/Mem/Compare.antt =====
-- `memcmp` and `memchr` of rlibc/src/mem.rs.
use ron.Base.{
  ℕ, zero, suc, ◌+◌, ◌-◌, ◌*◌, ◌/◌, ◌%◌, ◌<◌, ◌≡◌, ◌≢◌, inl, inr, refl, sym, subst, ◌∙◌, ◌==◌, true,
  false, Bool-cases, Option, none, some, Option-cases, arith,
}
use ron.Rlibc.{Memory}
use ron.Rlibc.Mem.{
  size, read_word, find_byte, find_word, or_find, difference_at, memcmp, find_char, memchr,
}

-- Every byte is below 256.
abbrev pub IsBytes : Memory → Type 0
IsBytes m = (a : ℕ) → m a < 256

equal_of : (a b : ℕ) → (a == b) ≡ true → a ≡ b
equal_of a b t = ground arith

unequal : (a b : ℕ) → (a == b) ≡ false → a ≢ b
unequal a b t = ground arith

zero_add : (a : ℕ) → 0 + a ≡ a
zero_add a = omega arith

find_byte-equal :
    (k i p q : ℕ) (m : Memory)
    → (m (p + i) == m (q + i)) ≡ true
    → find_byte (suc k) i p q m ≡ find_byte k (suc i) p q m
unfolding find_byte
find_byte-equal k i p q m t = rw (t, find_byte) refl

find_byte-differ :
    (k i p q : ℕ) (m : Memory)
    → (m (p + i) == m (q + i)) ≡ false
    → find_byte (suc k) i p q m ≡ some i
unfolding find_byte
find_byte-differ k i p q m t = rw (t, find_byte) refl

-- A range in two parts.
find_byte-append :
    (j k i p q : ℕ) (m : Memory)
    → find_byte (j + k) i p q m ≡ or_find (find_byte j i p q m) (find_byte k (i + j) p q m)
unfolding find_byte
find_byte-append zero k i p q m =
    let same : i + 0 ≡ i = omega arith in
    let first : 0 + k ≡ k = omega arith in rw (same, first) refl
find_byte-append (suc j) k i p q m =
    let first : suc j + k ≡ suc (j + k) = omega arith in
    let second : i + suc j ≡ suc i + j = omega arith in
    rw first (elim (Bool-cases (m (p + i) == m (q + i))) [
      | inl t ↦
          rw (find_byte-equal (j + k) i p q m t, find_byte-equal j i p q m t, second)
            (find_byte-append j k (suc i) p q m)
      | inr t ↦ rw (find_byte-differ (j + k) i p q m t, find_byte-differ j i p q m t) refl
    ])

pub find_byte-none :
    (k i p q : ℕ) (m : Memory)
    → ((j : ℕ) → j < k → m (p + i + j) ≡ m (q + i + j))
    → find_byte k i p q m ≡ none
unfolding find_byte
find_byte-none zero i p q m h = refl
find_byte-none (suc k) i p q m h =
    let here : (m (p + i) == m (q + i)) ≡ true = ground (arith, h 0 (omega arith)) in
    rw (find_byte-equal k i p q m here)
      (find_byte-none k (suc i) p q m (λ j l. ground (arith, h (suc j) (omega arith))))

some-none : (i : ℕ) → some i ≢ none
some-none i e = cc

find_byte-same :
    (k i p q : ℕ) (m : Memory)
    → find_byte k i p q m ≡ none
    → (j : ℕ) → j < k
    → m (p + i + j) ≡ m (q + i + j)
unfolding find_byte
find_byte-same zero i p q m h j l = absurd (omega arith)
find_byte-same (suc k) i p q m h j l = elim (Bool-cases (m (p + i) == m (q + i))) [
  | inl t ↦
      let rest : find_byte k (suc i) p q m ≡ none = sym (find_byte-equal k i p q m t) ∙ h in
      elim (Bool-cases (j == 0)) [
        | inl z ↦ ground arith
        | inr z ↦ ground (arith, find_byte-same k (suc i) p q m rest (j - 1) (ground arith))
      ]
  | inr t ↦ absurd (some-none i (sym (find_byte-differ k i p q m t) ∙ h))
]

module _ (p q : ℕ) (m : Memory) (bytes : IsBytes m) where
  -- Equal words have equal bytes.
  bytes_equal :
      (a b : ℕ) → read_word m a ≡ read_word m b → (j : ℕ) → j < size → m (a + j) ≡ m (b + j)
  bytes_equal a b e j l =
      let e0 : m a ≡ m b = omega (arith, e, bytes a, bytes b) in
      let e1 : m (a + 1) ≡ m (b + 1) = omega (arith, e, bytes (a + 1), bytes (b + 1)) in
      let e2 : m (a + 2) ≡ m (b + 2) = omega (arith, e, bytes (a + 2), bytes (b + 2)) in
      let e3 : m (a + 3) ≡ m (b + 3) = omega (arith, e, bytes (a + 3), bytes (b + 3)) in
      let e4 : m (a + 4) ≡ m (b + 4) = omega (arith, e, bytes (a + 4), bytes (b + 4)) in
      let e5 : m (a + 5) ≡ m (b + 5) = omega (arith, e, bytes (a + 5), bytes (b + 5)) in
      let e6 : m (a + 6) ≡ m (b + 6) = omega (arith, e, bytes (a + 6), bytes (b + 6)) in
      let e7 : m (a + 7) ≡ m (b + 7) = omega (arith, e, bytes (a + 7), bytes (b + 7)) in
      ground arith

  words_equal :
      (a b : ℕ) → ((j : ℕ) → j < size → m (a + j) ≡ m (b + j)) → read_word m a ≡ read_word m b
  words_equal a b h =
      let h0 : m a ≡ m b = ground (arith, h 0 (omega arith)) in
      rw
        (
          h0,
          h 1 (omega arith),
          h 2 (omega arith),
          h 3 (omega arith),
          h 4 (omega arith),
          h 5 (omega arith),
          h 6 (omega arith),
          h 7 (omega arith),
        )
        refl

  find_word-next :
      (k i : ℕ)
      → (read_word m (p + i * size) == read_word m (q + i * size)) ≡ true
      → find_word (suc k) i p q m ≡ find_word k (suc i) p q m
  unfolding find_word
  find_word-next k i t = rw (t, find_word) refl

  find_word-here :
      (k i : ℕ)
      → (read_word m (p + i * size) == read_word m (q + i * size)) ≡ false
      → find_word (suc k) i p q m ≡ find_byte size (i * size) p q m
  unfolding find_word
  find_word-here k i t = rw (t, find_word) refl

  -- The words are as good as their bytes.
  find_word-bytes : (k i : ℕ) → find_word k i p q m ≡ find_byte (k * size) (i * size) p q m
  unfolding find_word find_byte
  find_word-bytes zero i = refl
  find_word-bytes (suc k) i =
      let first : suc k * size ≡ size + k * size = omega arith in
      let after : i * size + size ≡ suc i * size = omega arith in
      let split : find_byte (suc k * size) (i * size) p q m
          ≡ or_find (find_byte size (i * size) p q m) (find_byte (k * size) (suc i * size) p q m) =
        rw (first) (rw (find_byte-append size (k * size) (i * size) p q m) (rw after refl)) in
      elim (Bool-cases (read_word m (p + i * size) == read_word m (q + i * size))) [
        | inl t ↦
            let none_ : find_byte size (i * size) p q m ≡ none =
              find_byte-none size (i * size) p q m (
                bytes_equal (p + i * size) (q + i * size)
                  (equal_of (read_word m (p + i * size)) (read_word m (q + i * size)) t)) in
            rw (find_word-next k i t, split, none_) (find_word-bytes k (suc i))
        | inr t ↦ elim (Option-cases (find_byte size (i * size) p q m)) [
          | inl none_ ↦
              let same : read_word m (p + i * size) ≡ read_word m (q + i * size) =
                words_equal (p + i * size) (q + i * size)
                  (find_byte-same size (i * size) p q m none_) in
              absurd (unequal (read_word m (p + i * size)) (read_word m (q + i * size)) t same)
          | inr (j, found) ↦ rw (find_word-here k i t, split, found) refl
        ]
      ]

  -- Over a memory of bytes, `memcmp` gives 0 if the ranges agree, and else the difference, as
  -- signed chars, of the first two bytes that differ: the search by words finds the same byte as a
  -- search of all bytes.
  pub memcmp_lem : (n : ℕ) → memcmp p q n m ≡ difference_at p q m (find_byte n 0 p q m)
  unfolding memcmp
  memcmp_lem n = elim (Bool-cases (p == q)) [
    | inl t ↦
        let same : p ≡ q = ground arith in
        rw t (rw (find_byte-none n 0 p q m (λ j l. rw same refl)) refl)
    | inr t ↦
        let done = n / size * size in
        let parts : done + (n - done) ≡ n = omega arith in
        let split : find_byte n 0 p q m
            ≡ or_find (find_byte done 0 p q m) (find_byte (n - done) done p q m) =
          subst
            (λ (l : ℕ).
              find_byte l 0 p q m
              ≡ or_find (find_byte done 0 p q m) (find_byte (n - done) done p q m))
            parts (rw (zero_add done) at (find_byte-append done (n - done) 0 p q m)) in
        rw (t, find_word-bytes (n / size) 0, split) refl
  ]

-- What a search for a byte finds: the first one, or that there is none.
abbrev pub IsFirst : (ptr ch count : ℕ) → Memory → Option ℕ → Type 0
IsFirst ptr ch count m none = (j : ℕ) → j < count → m (ptr + j) ≢ ch
IsFirst ptr ch count m (some r) =
    (j : ℕ) × (j < count) × (r ≡ ptr + j) × (m r ≡ ch) × ((k : ℕ) → k < j → m (ptr + k) ≢ ch)

pub find_char-IsFirst :
    (k i ptr ch : ℕ) (m : Memory)
    → ((j : ℕ) → j < i → m (ptr + j) ≢ ch)
    → IsFirst ptr ch (i + k) m (find_char k i ptr ch m)
unfolding find_char
find_char-IsFirst zero i ptr ch m h = λ j l. h j (omega arith)
find_char-IsFirst (suc k) i ptr ch m h =
    elim (m (ptr + i) == ch)
        as (λ b.
          (m (ptr + i) == ch) ≡ b
          → IsFirst ptr ch (i + suc k) m
              (elim b [ true ↦ some (ptr + i) | false ↦ find_char k (suc i) ptr ch m ])) [
                | true ↦ λ t. (i, omega arith, refl, ground arith, h)
                | false ↦ λ t.
                    let count : suc i + k ≡ i + suc k = omega arith in
                    subst (λ (n : ℕ). IsFirst ptr ch n m (find_char k (suc i) ptr ch m)) count
                      (find_char-IsFirst k (suc i) ptr ch m (λ j l e. elim (Bool-cases (j == i)) [
                        | inl s ↦
                            unequal (m (ptr + i)) ch t
                              (subst (λ (n : ℕ). m (ptr + n) ≡ ch) (equal_of j i s) e)
                        | inr s ↦ h j (ground arith) e
                      ]))
              ]
      refl

-- `memchr` gives the address of the first byte of the range that is the low byte of the character,
-- or the null pointer if there is none.
pub memchr-IsFirst :
    (ptr ch count : ℕ) (m : Memory) → IsFirst ptr (ch % 256) count m (memchr ptr ch count m)
unfolding memchr
memchr-IsFirst ptr ch count m =
    subst (λ (n : ℕ). IsFirst ptr (ch % 256) n m (find_char count 0 ptr (ch % 256) m)) (omega arith)
      (find_char-IsFirst count 0 ptr (ch % 256) m (λ j l. absurd (omega arith)))

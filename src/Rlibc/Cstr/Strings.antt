-- ===== src/Rlibc/Cstr/Strings.antt =====
-- The functions of rlibc/src/cstr.rs on strings.
use ron.Base.{
  ℕ, zero, suc, ◌+◌, ◌-◌, ◌%◌, ◌≤◌, ◌<◌, ◌≡◌, ◌≢◌, ◌⊎◌, inl, inr, refl, subst, ◌==◌, ltb, leb, min,
  true, false, ◌&&◌, if◌then◌else◌, Bool-cases, Option, none, some, arith,
}
use ron.Base.Int.{pos}
use ron.Rlibc.{Memory}
use ron.Rlibc.Mem.{memcpy, memset, find_byte, find_char}
use ron.Rlibc.Mem.Copies.{IsApart, copied, memcpy-copied}
use ron.Rlibc.Mem.Fills.{memset-filled}
use ron.Rlibc.Mem.Compare.{IsBytes, memcmp_lem, find_byte-none, IsFirst, find_char-IsFirst}
use ron.Base.Run.{panic}
use ron.Rlibc.Cstr.{
  strlen_from, strlen, strcmp, strncpy, strcpy, strcat, strchr, strstr, strstr_from,
}

-- A string of `n` bytes at `str`, and its terminator.
pub record IsString (m : Memory) (str n : ℕ) : Type 0 where
  pub terminated : m (str + n) ≡ 0
  pub nonzero : (j : ℕ) → j < n → m (str + j) ≢ 0

strlen_from-IsString :
    (k fuel size str : ℕ) (m : Memory)
    → IsString m str (size + k)
    → k < fuel
    → strlen_from fuel size str m ≡ some (size + k)
unfolding strlen_from
strlen_from-IsString k zero size str m s h = absurd (omega arith)
strlen_from-IsString zero (suc fuel) size str m s h =
    let none_left : size + 0 ≡ size = omega arith in
    let end : (m (str + size) == 0) ≡ true = ground (arith, s.terminated) in
    rw (end, strlen_from) (rw none_left refl)
strlen_from-IsString (suc k) (suc fuel) size str m s h =
    let goes : (m (str + size) == 0) ≡ false = ground (arith, s.nonzero size (omega arith)) in
    let next : suc size + k ≡ size + suc k = omega arith in
    rw (goes, strlen_from)
      (subst (λ (n : ℕ). strlen_from fuel (suc size) str m ≡ some n) next
        (strlen_from-IsString k fuel (suc size) str m (subst (IsString m str) (omega arith) s)
          (omega arith)))

-- Fuel above the length is enough.
pub strlen-IsString :
    (fuel str n : ℕ) (m : Memory) → IsString m str n → n < fuel → strlen fuel str m ≡ some n
unfolding strlen
strlen-IsString fuel str n m s h =
    let all : 0 + n ≡ n = omega arith in
    subst (λ (k : ℕ). strlen_from fuel 0 str m ≡ some k) all
      (strlen_from-IsString n fuel 0 str m (subst (IsString m str) (omega arith) s) h)

-- Over a memory of bytes, for two strings of lengths below the fuel, where the first is a proper
-- prefix of the second and is not empty, `strcmp` gives 0.
pub strcmp-prefix :
    (fuel str1 str2 n1 n2 : ℕ) (m : Memory)
    → IsBytes m
    → IsString m str1 n1
    → IsString m str2 n2
    → n2 < fuel
    → 0 < n1
    → n1 < n2
    → ((j : ℕ) → j < n1 → m (str1 + j) ≡ m (str2 + j))
    → strcmp fuel str1 str2 m ≡ some (pos 0)
unfolding strcmp
strcmp-prefix fuel str1 str2 n1 n2 m bytes s1 s2 h lo hi same =
    let len1 : strlen fuel str1 m ≡ some n1 = strlen-IsString fuel str1 n1 m s1 (omega arith) in
    let len2 : strlen fuel str2 m ≡ some n2 = strlen-IsString fuel str2 n2 m s2 (omega arith) in
    let full1 : (n1 == 0) ≡ false = ground arith in
    let full2 : (n2 == 0) ≡ false = ground arith in
    let shorter : min n1 n2 ≡ n1 = omega arith in
    let found : find_byte n1 0 str1 str2 m ≡ none =
      find_byte-none n1 0 str1 str2 m (λ j l. ground (arith, same j l)) in
    rw (len1, len2, full1, full2) (rw (shorter, memcmp_lem str1 str2 m bytes n1, found) refl)

-- For a string of a length below the fuel, where the `count` bytes of the destination lie apart
-- from the string and its terminator, `strncpy` ends and returns its destination, which holds the
-- bytes of the string, cut off or followed by zeros, and every other byte is unchanged.
pub strncpy-copied :
    (fuel dest src n count : ℕ) (m : Memory)
    → IsString m src n
    → n < fuel
    → (dest + count ≤ src) ⊎ (src + (n + 1) ≤ dest)
    → (m' : Memory) × (strncpy fuel dest src count m ≡ some (dest, m'))
      × ((a : ℕ)
          → m' a ≡ (
              if leb dest a && ltb a (dest + count)
              then (if leb a (dest + n) then m (src + (a - dest)) else 0)
              else m a))
unfolding strncpy
strncpy-copied fuel dest src n count m s h apart =
    let len : strlen fuel src m ≡ some n = strlen-IsString fuel src n m s h in
    elim (Bool-cases (leb count (n + 1))) [
      | inl t ↦ (
        memcpy dest src count m,
        rw len (rw t refl),
        λ a. ground (arith, memcpy-copied dest src count m (ground arith) a),
      )
      | inr t ↦
          let copy = memcpy dest src (n + 1) m in
          (
            memset (dest + (n + 1)) 0 (count - (n + 1)) copy,
            rw len (rw t refl),
            λ a. ground (
              arith,
              memset-filled (dest + (n + 1)) 0 (count - (n + 1)) copy (inl (omega arith)) a,
              memcpy-copied dest src (n + 1) m (ground arith) a,
              s.terminated,
            ),
          )
    ]

-- For two strings of lengths below the fuel, where the second with its terminator lies apart from
-- the bytes that it is copied to, `strcat` ends, and returns the address where the first string
-- ended: the destination is then a string of the sum of the lengths, the second string and its
-- terminator are where the first one ended, and every other byte is unchanged.
pub strcat-copied :
    (fuel dest src n1 n2 : ℕ) (m : Memory)
    → IsString m dest n1
    → IsString m src n2
    → n1 < fuel
    → n2 < fuel
    → IsApart (dest + n1) src (n2 + 1)
    → (m' : Memory) × (strcat fuel dest src m ≡ some (dest + n1, m'))
      × IsString m' dest (n1 + n2)
      × ((a : ℕ) → m' a ≡ copied (n2 + 1) 0 (dest + n1) src m a)
unfolding strcat strcpy
strcat-copied fuel dest src n1 n2 m s1 s2 h1 h2 apart =
    let len1 : strlen fuel dest m ≡ some n1 = strlen-IsString fuel dest n1 m s1 h1 in
    let len2 : strlen fuel src m ≡ some n2 = strlen-IsString fuel src n2 m s2 h2 in
    let m' = memcpy (dest + n1) src (n2 + 1) m in
    let all : (a : ℕ) → m' a ≡ copied (n2 + 1) 0 (dest + n1) src m a =
      memcpy-copied (dest + n1) src (n2 + 1) m apart in
    (
      m',
      rw (len1, len2) refl,
      record {
        terminated = ground (arith, all (dest + (n1 + n2)), s2.terminated);
        nonzero = λ j l. ground (arith, all (dest + j), s1.nonzero j, s2.nonzero (j - n1));
      },
      all,
    )

-- The empty string is not found at the start of another: the search panics.
pub strstr-empty :
    (fuel str substr n : ℕ) (m : Memory)
    → IsString m str (suc n)
    → IsString m substr 0
    → suc n < fuel
    → strstr fuel str substr m ≡ some panic
unfolding strstr strstr_from
strstr-empty fuel str substr n m s e h =
    let len : strlen fuel str m ≡ some (suc n) = strlen-IsString fuel str (suc n) m s h in
    let empty : strlen fuel substr m ≡ some 0 = strlen-IsString fuel substr 0 m e (omega arith) in
    rw (len, empty) refl

-- `strchr` gives the first byte of the string and its terminator that is the character.
pub strchr-IsFirst :
    (fuel str ch n : ℕ) (m : Memory)
    → IsString m str n
    → n < fuel
    → (r : Option ℕ) × (strchr fuel str ch m ≡ some r) × IsFirst str (ch % 256) (n + 1) m r
unfolding strchr
strchr-IsFirst fuel str ch n m s h =
    let len : strlen fuel str m ≡ some n = strlen-IsString fuel str n m s h in
    (
      find_char (n + 1) 0 str (ch % 256) m,
      rw len refl,
      subst (λ (k : ℕ). IsFirst str (ch % 256) k m (find_char (n + 1) 0 str (ch % 256) m))
          (omega arith)
          (find_char-IsFirst (n + 1) 0 str (ch % 256) m (λ j l. absurd (omega arith))),
    )

-- ===== src/Rlibc/Cstr.antt =====
-- rlibc/src/cstr.rs: strings that end with a zero. The loop of `strlen` has fuel: without a zero it
-- does not end.
pub mod Strings
mod Tests
use ron.Base.{
  ℕ, zero, suc, ◌+◌, ◌-◌, ◌%◌, ◌==◌, ltb, leb, min, Bool, true, false, ◌&&◌, ◌||◌, not,
  if◌then◌else◌, Option, none, some,
}
use ron.Base.Int.{ℤ, pos, negsuc}
use ron.Base.Options.{◌>>=◌}
use ron.Base.Run.{Run, panic, ran}
use ron.Rlibc.{Memory}
use ron.Rlibc.Mem.{memcpy, memset, memcmp, find_char}

unfoldable pub strlen_from : (fuel size str : ℕ) → Memory → Option ℕ
strlen_from zero size str m = none
strlen_from (suc fuel) size str m = elim (m (str + size) == 0) [
  | true ↦ some size
  | false ↦ strlen_from fuel (suc size) str m
]

unfoldable pub strlen : (fuel str : ℕ) → Memory → Option ℕ
unfolding strlen_from
strlen fuel str m = strlen_from fuel 0 str m

-- The loop runs over the terminator too.
unfoldable pub strchr : (fuel str ch : ℕ) → Memory → Option (Option ℕ)
unfolding strlen
strchr fuel str ch m = do len ← strlen fuel str m; some (find_char (len + 1) 0 str (ch % 256) m)

unfoldable pub strcmp : (fuel str1 str2 : ℕ) → Memory → Option ℤ
unfolding strlen
strcmp fuel str1 str2 m = do
  len_1 ← strlen fuel str1 m
  len_2 ← strlen fuel str2 m
  some (
      if (len_1 == 0) && not (len_2 == 0)
      then negsuc 0
      else if not (len_1 == 0) && (len_2 == 0)
      then negsuc 0
      else memcmp str1 str2 (min len_1 len_2) m)

-- What `strncpy`, `strcpy` and `strcat` return stands before the memory that they leave.
unfoldable pub strncpy : (fuel dest src count : ℕ) → Memory → Option (ℕ × Memory)
unfolding strlen
strncpy fuel dest src count m = do
  len ← strlen fuel src m
  let src_len = len + 1
  some (
    dest,
    if leb count src_len
        then memcpy dest src count m
        else memset (dest + src_len) 0 (count - src_len) (memcpy dest src src_len m),
  )

-- The pointer is the one that `memcpy` returns, its destination.
unfoldable pub strcpy : (fuel dest src : ℕ) → Memory → Option (ℕ × Memory)
unfolding strlen
strcpy fuel dest src m = do len ← strlen fuel src m; some (dest, memcpy dest src (len + 1) m)

unfoldable pub strcat : (fuel dest src : ℕ) → Memory → Option (ℕ × Memory)
unfolding strlen strcpy
strcat fuel dest src m = do len ← strlen fuel dest m; strcpy fuel (dest + len) src m

unfoldable pub isspace : ℕ → ℕ
isspace ch =
    if (ch == 0x20) || (ch == 0x0c) || (ch == 0x0a) || (ch == 0x0d) || (ch == 0x09) || (ch == 0x0b)
    then 1
    else 0

unfoldable pub isdigit : ℕ → ℕ
isdigit ch = if leb 0x30 (ch % 256) && leb (ch % 256) 0x39 then 1 else 0

abbrev pub is_zero : ℤ → Bool
is_zero (pos n) = n == 0
is_zero (negsuc n) = false

-- The loop of `strstr`, where `k` offsets are left from `i` on. `i + substr_len - 1` is checked.
unfoldable pub strstr_from : (k i str_len substr_len str substr : ℕ) → Memory → Run (Option ℕ)
strstr_from zero i str_len substr_len str substr m = ran none
strstr_from (suc k) i str_len substr_len str substr m =
    let rest = strstr_from k (suc i) str_len substr_len str substr m in
    elim (i + substr_len) [
      | zero ↦ panic
      | suc last ↦
          if leb str_len last
          then ran none
          else if is_zero (memcmp (str + i) substr substr_len m)
          then ran (some (str + i))
          else rest
    ]

unfoldable pub strstr : (fuel str substr : ℕ) → Memory → Option (Run (Option ℕ))
unfolding strlen strstr_from
strstr fuel str substr m = do
  str_len ← strlen fuel str m
  substr_len ← strlen fuel substr m
  some (strstr_from str_len 0 str_len substr_len str substr m)

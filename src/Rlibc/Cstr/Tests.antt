-- ===== src/Rlibc/Cstr/Tests.antt =====
-- Examples of strings.
use ron.Base.{ℕ, ◌+◌, ◌-◌, ◌≡◌, refl, inr, some, ltb, leb, ◌&&◌, if◌then◌else◌, arith}
use ron.Rlibc.{Memory}
use ron.Rlibc.Mem.Copies.{copied}
use ron.Rlibc.Cstr.{strncpy, strcat}
use ron.Rlibc.Cstr.Strings.{IsString, strncpy-copied, strcat-copied}

-- Two bytes of 7 at 10, three at 20, and zeros elsewhere.
abbrev two_strings : Memory
two_strings = λ a. if leb 10 a && ltb a 12 then 7 else if leb 20 a && ltb a 23 then 7 else 0

at_10 : IsString two_strings 10 2
at_10 = record { terminated = refl; nonzero = λ j h e. ground arith }

at_20 : IsString two_strings 20 3
at_20 = record { terminated = refl; nonzero = λ j h e. ground arith }

strncpy-copied_example :
    (m' : Memory) × (strncpy 9 40 10 5 two_strings ≡ some (40, m'))
    × ((a : ℕ)
        → m' a ≡ (
            if leb 40 a && ltb a (40 + 5)
            then (if leb a (40 + 2) then two_strings (10 + (a - 40)) else 0)
            else two_strings a))
strncpy-copied_example =
    strncpy-copied 9 40 10 2 5 two_strings at_10 (omega arith) (inr (omega arith))

strcat-copied_example :
    (m' : Memory) × (strcat 9 20 10 two_strings ≡ some (20 + 3, m'))
    × IsString m' 20 (3 + 2)
    × ((a : ℕ) → m' a ≡ copied (2 + 1) 0 (20 + 3) 10 two_strings a)
strcat-copied_example =
    strcat-copied 9 20 10 3 2 two_strings at_20 at_10 (omega arith) (omega arith)
      (inr (omega arith))

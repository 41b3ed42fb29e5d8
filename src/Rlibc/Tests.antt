-- ===== src/Rlibc/Tests.antt =====
-- Examples of rlibc.
use ron.Base.{ℕ, ◌<◌, ◌≡◌, inl, if◌then◌else◌, ltb, arith}
use ron.Rlibc.{Memory}
use ron.Rlibc.Mem.{memmove, memset, memcmp, difference_at, find_byte}
use ron.Rlibc.Mem.Copies.{copied, memmove-copied}
use ron.Rlibc.Mem.Fills.{filled, memset-filled}
use ron.Rlibc.Mem.Compare.{memcmp_lem}

-- Each byte below 100 is its address, and the others are 1.
abbrev ramp : Memory
ramp = λ a. if ltb a 100 then a else 1

ramp-IsBytes : (a : ℕ) → ramp a < 256
ramp-IsBytes a = ground arith

memmove_example : memmove 15 10 20 ramp 17 ≡ copied 20 0 15 10 ramp 17
memmove_example = memmove-copied 15 10 20 ramp 17

memset_example : memset 30 7 20 ramp 45 ≡ filled 20 0 30 7 ramp 45
memset_example = memset-filled 30 7 20 ramp (inl (omega arith)) 45

memcmp_example : memcmp 3 4 20 ramp ≡ difference_at 3 4 ramp (find_byte 20 0 3 4 ramp)
memcmp_example = memcmp_lem 3 4 ramp ramp-IsBytes 20

-- ===== src/Rlibc.antt =====
-- rlibc, the C library of the repository. Memory is a function from addresses to bytes; a pointer
-- is an address, and its additions do not wrap around.
pub mod Mem
pub mod Cstr
pub mod Specifier
mod Tests
use ron.Base.{ℕ, zero, suc, ◌+◌, ◌-◌, ◌==◌, ltb, leb, Bool, ◌&&◌, if◌then◌else◌}

abbrev pub Memory : Type 0
Memory = ℕ → ℕ

-- `*p = v`.
abbrev pub write_byte : Memory → ℕ → ℕ → Memory
write_byte m p v = λ a. if a == p then v else m a

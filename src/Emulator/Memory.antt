-- ===== src/Emulator/Memory.antt =====
-- `trait EmulatorMemory` of kernel/src/emulator.rs. A read or a write of an address that is not
-- mapped panics.
use ron.Base.{ℕ}
use ron.Base.Run.{Run}

pub record EmulatorMemory (M : Type 0) : Type 0 where
  pub read_u8_ne : M → ℕ → Run ℕ
  pub write_u8_ne : M → ℕ → ℕ → Run M
  pub read_u16_ne : M → ℕ → Run ℕ
  pub write_u16_ne : M → ℕ → ℕ → Run M
  pub read_u32_ne : M → ℕ → Run ℕ
  pub write_u32_ne : M → ℕ → ℕ → Run M
  pub read_u64_ne : M → ℕ → Run ℕ
  pub write_u64_ne : M → ℕ → ℕ → Run M
  pub read_u32_le : M → ℕ → Run ℕ

-- ===== src/Emulator/Cpu.antt =====
-- `struct Riscv64Cpu` of kernel/src/emulator.rs, its registers and the outcome of an instruction.
-- The function pointer `syscall` is an argument of the functions that use it.
pub mod Registers
use ron.Base.{
  ℕ, suc, ◌+◌, ◌-◌, ◌^◌, ◌<◌, Option, none, some, List, ltb, ◌==◌, if◌then◌else◌, get_elem?, set,
  length, replicate,
}
use ron.Base.Run.{Run, panic, ran}

pub data CpuAction : Type 0 where
  no_action repeat_instruction raise_exception : CpuAction

pub record Riscv64Cpu (M : Type 0) : Type 0 where
  pub program_counter : ℕ
  pub registers : List ℕ
  pub memory : M

-- An index into an array, which panics out of range.
abbrev pub index {ℓ} : {A : Type ℓ} → List A → ℕ → Run A
index xs i = elim (get_elem? xs i) [ none ↦ panic | some a ↦ ran a ]

-- `+` on a u64, with the overflow check of the debug build that `make_iso.sh` puts on the image.
abbrev pub add64 : ℕ → ℕ → Run ℕ
add64 a b = if ltb (a + b) (2 ^ 64) then ran (a + b) else panic

module _ {M : Type 0} where
  unfoldable pub new_cpu : M → ℕ → Riscv64Cpu M
  new_cpu mem start_address = record {
    program_counter = start_address;
    registers = replicate 31 0;
    memory = mem;
  }

  unfoldable pub reset_registers : Riscv64Cpu M → ℕ → Riscv64Cpu M
  reset_registers cpu start_address = record cpu {
    program_counter = start_address;
    registers = replicate 31 0;
  }

  -- The registers x1 to x31 stand at the indices 0 to 30.
  unfoldable pub write_reg : Riscv64Cpu M → ℕ → ℕ → Run (Riscv64Cpu M)
  write_reg cpu reg_n val =
      if reg_n == 0
      then ran cpu
      else if ltb (reg_n - 1) (length cpu.registers)
      then ran (record cpu { registers = set cpu.registers (reg_n - 1) val })
      else panic

  unfoldable pub read_reg : Riscv64Cpu M → ℕ → Run ℕ
  read_reg cpu reg_n = if reg_n == 0 then ran 0 else index cpu.registers (reg_n - 1)

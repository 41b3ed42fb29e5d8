-- ===== src/Emulator/Execute/RType.antt =====
-- `execute_rtype_inst` of kernel/src/emulator.rs ends with a valid CPU, or panics.
use ron.Base.{ℕ, ◌≡◌, Bool, true, false, refl, inl, inr, Bool-cases, Option-cases}
use mathlib.Core.Path.{subst}
use ron.Base.Run.{Run, panic, ran, ◌>>=◌}
use ron.Emulator.Format.{RiscvRTypeInstruction}
use ron.Emulator.Format.RoundTrip.{FitsRType}
use ron.Emulator.Cpu.{Riscv64Cpu, read_reg, write_reg}
use ron.Emulator.Cpu.Registers.{IsWord, IsValid, read_reg-IsWord, write_reg-IsValid}
use ron.Emulator.Alu.{rtype_operation}
use ron.Emulator.Alu.Words.{by_zero, Outcome, rtype_operation-Behaves, division-some}
use ron.Emulator.Execute.{execute_rtype_inst}

module _ {M : Type 0} where
  -- The run panics if there is a fault, and else ends with a valid CPU.
  abbrev pub Executes : Bool → Run (Riscv64Cpu M) → Type 0
  Executes true m = m ≡ panic
  Executes false m = (c : Riscv64Cpu M) × (m ≡ ran c) × IsValid c

module _ {M : Type 0} (cpu : Riscv64Cpu M) (inst : RiscvRTypeInstruction) (valid : IsValid cpu)
    (fits : FitsRType inst) where
  finish_operation :
      (fault : Bool) (m : Run ℕ) → Outcome fault m → Executes fault (m >>= write_reg cpu inst.rd)
  finish_operation true m h = rw h
  finish_operation false panic h = absurd h
  finish_operation false (ran v) h =
      let (c, e, v', mem, pc) = write_reg-IsValid cpu inst.rd v valid fits.rd h in (c, e, v')

  -- On a valid CPU, an R-type instruction whose fields fit panics if it is a division (DIV, DIVU,
  -- REM, REMU or a 32-bit one) and the divisor is zero, and else ends with a valid CPU.
  pub execute_rtype_inst-Executes :
      (b : ℕ)
      → read_reg cpu inst.rs2 ≡ ran b
      → Executes (by_zero inst.opcode inst.funct3 inst.funct7 b) (execute_rtype_inst cpu inst)
  unfolding execute_rtype_inst
  execute_rtype_inst-Executes b eb =
      let (a, ea, wa) = read_reg-IsWord cpu inst.rs1 valid fits.rs1 in
      let (b', eb', wb') = read_reg-IsWord cpu inst.rs2 valid fits.rs2 in
      let wb : IsWord b = subst IsWord (cc (eb, eb')) wb' in
      elim (Option-cases (rtype_operation inst.opcode inst.funct3 inst.funct7)) [
        | inl e ↦ elim (Bool-cases (by_zero inst.opcode inst.funct3 inst.funct7 b)) [
          | inl z ↦ absurd (division-some inst.opcode inst.funct3 inst.funct7 b fits.funct3 z e)
          | inr nz ↦ rw nz (cpu, simp (execute_rtype_inst, e) refl, valid)
        ]
        | inr (f, e) ↦
            let runs : execute_rtype_inst cpu inst ≡ (f a b >>= write_reg cpu inst.rd) =
              simp (execute_rtype_inst, e, ea, eb) refl in
            rw runs (
              finish_operation (by_zero inst.opcode inst.funct3 inst.funct7 b) (f a b)
                (rtype_operation-Behaves inst.opcode inst.funct3 inst.funct7 e a b wa wb))
      ]

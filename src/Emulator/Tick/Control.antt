-- ===== src/Emulator/Tick/Control.antt =====
-- Where the branches and the jumps of kernel/src/emulator.rs lead, the increment at the end of
-- `tick` included.
use ron.Base.{
  ℕ, ◌+◌, ◌%◌, ◌^◌, ◌≤◌, ◌<◌, ◌≡◌, refl, Bool, true, none, some, arith, ltb, ◌==◌, if◌then◌else◌,
  Bool-cases, inl, inr,
}
use ron.Base.Run.{Run, panic, ran, ◌>>=◌}
use ron.Emulator.Sign.{sign_extend, sign_extend_to_u64}
use ron.Emulator.Opcode.{branch}
use ron.Emulator.Format.{RiscvBTypeInstruction, parse_btype_imm}
use ron.Emulator.Cpu.{no_action, Riscv64Cpu, read_reg, write_reg}
use ron.Emulator.Cpu.Registers.{IsWord}
use ron.Emulator.Execute.{branch_test, jump_to, execute_btype_inst, link_and_jump}
use ron.Emulator.Tick.{Ticked, finish}

branch_lem :
    {M : Type 0} (cpu : Riscv64Cpu M) (inst : RiscvBTypeInstruction) (size a b : ℕ)
    {test : ℕ → ℕ → Bool}
    → inst.opcode ≡ branch
    → branch_test inst.funct3 ≡ some test
    → read_reg cpu inst.rs1 ≡ ran a
    → read_reg cpu inst.rs2 ≡ ran b
    → execute_btype_inst cpu inst size
      ≡ ran (
          if test a b
          then jump_to cpu
              ((cpu.program_counter + sign_extend 32 64 (parse_btype_imm inst)) % 2 ^ 64)
              size
          else cpu)
unfolding execute_btype_inst sign_extend_to_u64
branch_lem cpu inst size a b is_branch has_test ra rb =
    simp (execute_btype_inst, is_branch, has_test, ra, rb) refl

module _ {M P : Type 0} where
  -- The program counter becomes `target`; below the size of the instruction there is no counter
  -- that the increment could turn into it.
  abbrev pub lands_at : Riscv64Cpu M → ℕ → ℕ → P → Run (Ticked M P)
  lands_at cpu target size prog =
      if ltb target size
      then panic
      else ran (some tt, record cpu { program_counter = target }, prog)

  finish-jump_to :
      (cpu : Riscv64Cpu M) (target size : ℕ) (prog : P)
      → IsWord target
      → 0 < size
      → size ≤ 4
      → finish size (no_action, jump_to cpu target size, prog) ≡ lands_at cpu target size prog
  unfolding finish
  finish-jump_to cpu target size prog w pos h = ground arith

  -- A branch of a known test on known register values, of an instruction of one to four bytes, with
  -- the increment after it: if the test holds it lands at the counter plus the offset, modulo 2 ^
  -- 64, or panics if that is below the size of the instruction; if not, the counter moves to the
  -- next instruction, or the addition panics.
  pub branch-finish :
      (cpu : Riscv64Cpu M) (inst : RiscvBTypeInstruction) (size a b : ℕ) (prog : P)
      {test : ℕ → ℕ → Bool}
      → inst.opcode ≡ branch
      → branch_test inst.funct3 ≡ some test
      → read_reg cpu inst.rs1 ≡ ran a
      → read_reg cpu inst.rs2 ≡ ran b
      → 0 < size
      → size ≤ 4
      → (execute_btype_inst cpu inst size >>= λ c. finish size (no_action, c, prog)) ≡ (
          if test a b
          then lands_at cpu
              ((cpu.program_counter + sign_extend 32 64 (parse_btype_imm inst)) % 2 ^ 64)
              size
              prog
          else if ltb (cpu.program_counter + size) (2 ^ 64)
          then ran (some tt, record cpu { program_counter = cpu.program_counter + size }, prog)
          else panic)
  unfolding finish
  branch-finish cpu inst size a b prog {test} is_branch has_test ra rb pos small =
      rw (branch_lem cpu inst size a b is_branch has_test ra rb) (elim (Bool-cases (test a b)) [
        | inl yes_taken ↦ rw (
          yes_taken,
          finish-jump_to cpu
              ((cpu.program_counter + sign_extend 32 64 (parse_btype_imm inst)) % 2 ^ 64) size prog
              (omega arith) pos small,
        )
        | inr not_taken ↦ rw not_taken (ground arith)
      ])

  -- A jump to a 64-bit target, of an instruction of one to four bytes whose successor has a 64-bit
  -- address and whose link register can be written, with the increment after it: a jump to itself
  -- makes `tick` fail after the increment; every other jump writes the address of the next
  -- instruction to `rd` and lands at the target, or panics if that is below the size of the
  -- instruction.
  pub jump-finish :
      (cpu : Riscv64Cpu M) (rd target size : ℕ) (prog : P) {linked : Riscv64Cpu M}
      → IsWord target
      → cpu.program_counter + size < 2 ^ 64
      → 0 < size
      → size ≤ 4
      → write_reg cpu rd (cpu.program_counter + size) ≡ ran linked
      → (link_and_jump cpu rd target size >>= λ (action, c). finish size (action, c, prog)) ≡ (
          if target == cpu.program_counter
          then ran (none, record cpu { program_counter = cpu.program_counter + size }, prog)
          else lands_at linked target size prog)
  unfolding link_and_jump finish
  jump-finish cpu rd target size prog {linked} w next pos small written =
      elim (Bool-cases (target == cpu.program_counter)) [
        | inl same ↦ rw same (ground arith)
        | inr other ↦
            let in_range : ltb (cpu.program_counter + size) (2 ^ 64) ≡ true = ground arith in
            rw (other, in_range, written, finish-jump_to linked target size prog w pos small)
      ]

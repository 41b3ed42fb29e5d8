-- ===== src/Emulator/Execute.antt =====
-- `execute_rtype_inst` to `execute_jtype_inst` of kernel/src/emulator.rs.
pub mod RType
use ron.Base.{
  ℕ, ◌-◌, ◌%◌, ◌^◌, bit_and, Bool, not, Option, none, some, List, [], ◌∷◌, ltb, leb, ◌==◌,
  if◌then◌else◌,
}
use ron.Base.Int.{to_signed, ltb_ℤ}
use ron.Base.Options.{entry}
use ron.Base.Run.{Run, ran, ◌>>=◌}
use ron.Emulator.Sign.{sign_extend, sign_extend_to_u64}
use ron.Emulator.Opcode.{opimm, opimm32, lui, auipc, jal, jalr, branch, load, store, system}
use ron.Emulator.Format.{
  RiscvRTypeInstruction, RiscvITypeInstruction, RiscvSTypeInstruction, RiscvBTypeInstruction,
  RiscvUTypeInstruction, RiscvJTypeInstruction, parse_itype_imm, parse_stype_imm, parse_btype_imm,
  parse_utype_imm, parse_jtype_imm,
}
use ron.Emulator.Memory.{EmulatorMemory}
use ron.Emulator.Cpu.{CpuAction, no_action, raise_exception, Riscv64Cpu, add64, write_reg, read_reg}
use ron.Emulator.Alu.{wrapping_add, wrapping_sub, rtype_operation, itype_operation}

-- The tests of BEQ, BNE, BLT, BGE, BLTU and BGEU, by funct3.
unfoldable pub branch_test : ℕ → Option (ℕ → ℕ → Bool)
branch_test funct3 =
    entry
      (some (λ a b. a == b)
        ∷ some (λ a b. not (a == b))
        ∷ none
        ∷ none
        ∷ some (λ a b. ltb_ℤ (to_signed 64 a) (to_signed 64 b))
        ∷ some (λ a b. not (ltb_ℤ (to_signed 64 a) (to_signed 64 b)))
        ∷ some (λ a b. ltb a b)
        ∷ some (λ a b. leb b a)
        ∷ [])
      funct3

module _ {M : Type 0} where
  -- The program counter that the increment at the end of `tick` turns into the target.
  abbrev pub jump_to : Riscv64Cpu M → (target inst_size : ℕ) → Riscv64Cpu M
  jump_to cpu target inst_size = record cpu { program_counter = wrapping_sub 64 target inst_size }

  unfoldable pub execute_rtype_inst : Riscv64Cpu M → RiscvRTypeInstruction → Run (Riscv64Cpu M)
  unfolding rtype_operation
  execute_rtype_inst cpu inst = elim (rtype_operation inst.opcode inst.funct3 inst.funct7) [
    | none ↦ ran cpu
    | some operation ↦ do
      a ← read_reg cpu inst.rs1
      b ← read_reg cpu inst.rs2
      value ← operation a b
      write_reg cpu inst.rd value
  ]

  unfoldable pub execute_btype_inst : Riscv64Cpu M → RiscvBTypeInstruction → ℕ → Run (Riscv64Cpu M)
  unfolding branch_test sign_extend_to_u64
  execute_btype_inst cpu inst inst_size = elim inst.opcode [
    | branch ↦ elim (branch_test inst.funct3) [
      | none ↦ ran cpu
      | some test ↦ do
        a ← read_reg cpu inst.rs1
        b ← read_reg cpu inst.rs2
        let offset = sign_extend_to_u64 32 (parse_btype_imm inst)
        ran (
            if test a b
            then jump_to cpu (wrapping_add 64 cpu.program_counter offset) inst_size
            else cpu)
    ]
    | _ ↦ ran cpu
  ]

  unfoldable pub execute_utype_inst : Riscv64Cpu M → RiscvUTypeInstruction → Run (Riscv64Cpu M)
  unfolding sign_extend_to_u64
  execute_utype_inst cpu inst =
      let value = sign_extend_to_u64 32 (parse_utype_imm inst) in
      elim inst.opcode [
        | lui ↦ write_reg cpu inst.rd value
        | auipc ↦ write_reg cpu inst.rd (wrapping_add 64 value cpu.program_counter)
        | _ ↦ ran cpu
      ]

  -- A jump to the instruction itself raises an exception; else `rd` is linked, and only then does
  -- the program counter change.
  unfoldable pub link_and_jump :
      Riscv64Cpu M → (rd target inst_size : ℕ) → Run (CpuAction × Riscv64Cpu M)
  link_and_jump cpu rd target inst_size =
      if target == cpu.program_counter then ran (raise_exception, cpu) else do
        link ← add64 cpu.program_counter inst_size
        linked ← write_reg cpu rd link
        ran (no_action, jump_to linked target inst_size)

  unfoldable pub execute_jtype_inst :
      Riscv64Cpu M → RiscvJTypeInstruction → ℕ → Run (CpuAction × Riscv64Cpu M)
  unfolding sign_extend_to_u64 link_and_jump
  execute_jtype_inst cpu inst inst_size = elim inst.opcode [
    | jal ↦
        let offset = sign_extend_to_u64 32 (parse_jtype_imm inst) in
        link_and_jump cpu inst.rd (wrapping_add 64 offset cpu.program_counter) inst_size
    | _ ↦ ran (no_action, cpu)
  ]

  module _ ⦃mem : EmulatorMemory M⦄ where
    -- The loads LB, LH, LW, LD, LBU, LHU and LWU, by funct3.
    unfoldable pub loads : List (Option (M → ℕ → Run ℕ))
    unfolding sign_extend
    loads =
        some (λ m addr. do v ← mem.read_u8_ne m addr; ran (sign_extend 8 64 v))
        ∷ some (λ m addr. do v ← mem.read_u16_ne m addr; ran (sign_extend 16 64 v))
        ∷ some (λ m addr. do v ← mem.read_u32_ne m addr; ran (sign_extend 32 64 v))
        ∷ some mem.read_u64_ne
        ∷ some mem.read_u8_ne
        ∷ some mem.read_u16_ne
        ∷ some mem.read_u32_ne
        ∷ []

    unfoldable pub load_value : ℕ → Option (M → ℕ → Run ℕ)
    unfolding loads
    load_value funct3 = entry loads funct3

    -- The stores SB, SH, SW and SD, by funct3.
    unfoldable pub stores : List (Option (M → ℕ → ℕ → Run M))
    stores =
        some (λ m addr v. mem.write_u8_ne m addr (v % 2 ^ 8))
        ∷ some (λ m addr v. mem.write_u16_ne m addr (v % 2 ^ 16))
        ∷ some (λ m addr v. mem.write_u32_ne m addr (v % 2 ^ 32))
        ∷ some mem.write_u64_ne
        ∷ []

    unfoldable pub store_value : ℕ → Option (M → ℕ → ℕ → Run M)
    unfolding stores
    store_value funct3 = entry stores funct3

    unfoldable pub execute_stype_inst : Riscv64Cpu M → RiscvSTypeInstruction → Run (Riscv64Cpu M)
    unfolding store_value sign_extend
    execute_stype_inst cpu inst = elim inst.opcode [
      | store ↦ elim (store_value inst.funct3) [
        | none ↦ ran cpu
        | some write ↦ do
          base ← read_reg cpu inst.rs1
          value ← read_reg cpu inst.rs2
          let addr = wrapping_add 64 base (sign_extend 32 64 (parse_stype_imm inst))
          memory ← write cpu.memory addr value
          ran (record cpu { memory = memory })
      ]
      | _ ↦ ran cpu
    ]

    unfoldable pub execute_load : Riscv64Cpu M → RiscvITypeInstruction → Run (Riscv64Cpu M)
    unfolding load_value sign_extend
    execute_load cpu inst = elim (load_value inst.funct3) [
      | none ↦ ran cpu
      | some read ↦ do
        base ← read_reg cpu inst.rs1
        value ← read cpu.memory (wrapping_add 64 base (sign_extend 32 64 (parse_itype_imm inst)))
        write_reg cpu inst.rd value
    ]

    unfoldable pub execute_jalr :
        Riscv64Cpu M → RiscvITypeInstruction → ℕ → Run (CpuAction × Riscv64Cpu M)
    unfolding sign_extend_to_u64 link_and_jump
    execute_jalr cpu inst inst_size = do
      base ← read_reg cpu inst.rs1
      let target = wrapping_add 64 (sign_extend_to_u64 32 (parse_itype_imm inst)) base
      link_and_jump cpu inst.rd (bit_and target (2 ^ 64 - 1 - 0b1)) inst_size

    -- The arms of `execute_itype_inst` for OPIMM and OPIMM32.
    unfoldable pub execute_op_imm : Riscv64Cpu M → RiscvITypeInstruction → Run (Riscv64Cpu M)
    unfolding itype_operation
    execute_op_imm cpu inst = elim (itype_operation inst.opcode inst.funct3) [
      | none ↦ ran cpu
      | some operation ↦ do
        a ← read_reg cpu inst.rs1
        write_reg cpu inst.rd (operation a (parse_itype_imm inst))
    ]

    module _ {P : Type 0} (syscall : Riscv64Cpu M → P → Run (CpuAction × Riscv64Cpu M × P)) where
      -- The process data goes through unchanged, but for ECALL.
      abbrev with_data : P → Run (Riscv64Cpu M) → Run (CpuAction × Riscv64Cpu M × P)
      with_data prog m = do cpu ← m; ran (no_action, cpu, prog)

      unfoldable pub execute_itype_inst :
          Riscv64Cpu M → RiscvITypeInstruction → ℕ → P → Run (CpuAction × Riscv64Cpu M × P)
      unfolding execute_op_imm execute_load execute_jalr
      execute_itype_inst cpu inst inst_size prog = elim inst.opcode [
        | opimm ↦ with_data prog (execute_op_imm cpu inst)
        | opimm32 ↦ with_data prog (execute_op_imm cpu inst)
        | jalr ↦
            if inst.funct3 == 0b000
            then (do (action, cpu') ← execute_jalr cpu inst inst_size; ran (action, cpu', prog))
            else ran (no_action, cpu, prog)
        | load ↦ with_data prog (execute_load cpu inst)
        | system ↦
            if parse_itype_imm inst == 0 then syscall cpu prog else ran (no_action, cpu, prog)
        | _ ↦ ran (no_action, cpu, prog)
      ]

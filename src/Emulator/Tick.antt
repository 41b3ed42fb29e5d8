-- ===== src/Emulator/Tick.antt =====
-- `tick` of kernel/src/emulator.rs.
pub mod Control
pub mod Decode
pub mod Faults
pub mod Compressed
use ron.Base.{ℕ, bit_and, Option, none, some, if◌then◌else◌}
use ron.Base.Run.{Run, ran, ◌>>=◌}
use ron.Emulator.PackedStruct.{PackedStruct}
use ron.Emulator.Opcode.{
  RiscvInstType, rtype, itype, stype, btype, utype, jtype, from_primitive, get_type,
}
use ron.Emulator.Format.{
  unpack_rtype, unpack_itype, unpack_stype, unpack_btype, unpack_utype, unpack_jtype,
}
use ron.Emulator.Expand.{is_compressed, expand}
use ron.Emulator.Memory.{EmulatorMemory}
use ron.Emulator.Cpu.{CpuAction, no_action, repeat_instruction, raise_exception, Riscv64Cpu, add64}
use ron.Emulator.Execute.{
  execute_rtype_inst, execute_itype_inst, execute_stype_inst, execute_btype_inst,
  execute_utype_inst, execute_jtype_inst,
}

-- What `tick` returns, beside the state: `some tt`, or `none` if it fails.
abbrev pub Ticked : Type 0 → Type 0 → Type 0
Ticked M P = Option (Unit {0}) × Riscv64Cpu M × P

abbrev pub inst_size : ℕ → ℕ
inst_size instruction = if is_compressed instruction then 2 else 4

module _ {M P : Type 0} where
  -- The end of `tick`: the program counter moves on, unless the instruction is to be repeated.
  unfoldable pub finish : ℕ → CpuAction × Riscv64Cpu M × P → Run (Ticked M P)
  finish size (no_action, cpu, prog) = do
    next ← add64 cpu.program_counter size
    ran (some tt, record cpu { program_counter = next }, prog)
  finish size (repeat_instruction, cpu, prog) = ran (some tt, cpu, prog)
  finish size (raise_exception, cpu, prog) = do
    next ← add64 cpu.program_counter size
    ran (none, record cpu { program_counter = next }, prog)

  -- The instruction is executed once its fields are unpacked; else `tick` fails.
  abbrev pub unpacked :
      {I : Type 0} → Riscv64Cpu M → P → Option I → (I → Run (Ticked M P)) → Run (Ticked M P)
  unpacked cpu prog none execute = ran (none, cpu, prog)
  unpacked cpu prog (some inst) execute = execute inst

  module _ ⦃ps : PackedStruct⦄ ⦃mem : EmulatorMemory M⦄
      (syscall : Riscv64Cpu M → P → Run (CpuAction × Riscv64Cpu M × P)) where
    -- The second half of `tick`, on a 32-bit instruction of the given type.
    unfoldable pub execute : RiscvInstType → ℕ → ℕ → Riscv64Cpu M → P → Run (Ticked M P)
    unfolding finish
    execute rtype word size cpu prog =
        unpacked cpu prog (unpack_rtype word)
          λ inst. do cpu' ← execute_rtype_inst cpu inst; finish size (no_action, cpu', prog)
    execute itype word size cpu prog =
        unpacked cpu prog (unpack_itype word)
          λ inst. do outcome ← execute_itype_inst syscall cpu inst size prog; finish size outcome
    execute stype word size cpu prog =
        unpacked cpu prog (unpack_stype word)
          λ inst. do cpu' ← execute_stype_inst cpu inst; finish size (no_action, cpu', prog)
    execute btype word size cpu prog =
        unpacked cpu prog (unpack_btype word)
          λ inst. do cpu' ← execute_btype_inst cpu inst size; finish size (no_action, cpu', prog)
    execute utype word size cpu prog =
        unpacked cpu prog (unpack_utype word)
          λ inst. do cpu' ← execute_utype_inst cpu inst; finish size (no_action, cpu', prog)
    execute jtype word size cpu prog = unpacked cpu prog (unpack_jtype word) λ inst. do
      (action, cpu') ← execute_jtype_inst cpu inst size
      finish size (action, cpu', prog)

    -- A word whose opcode is unknown makes `tick` fail.
    unfoldable pub dispatch : ℕ → ℕ → Riscv64Cpu M → P → Run (Ticked M P)
    unfolding execute
    dispatch word size cpu prog =
        unpacked cpu prog (from_primitive (bit_and word 0b111_1111))
          λ opcode. execute (get_type opcode) word size cpu prog

    unfoldable pub tick : Riscv64Cpu M → P → Run (Ticked M P)
    unfolding dispatch
    tick cpu prog = do
      instruction ← mem.read_u32_le cpu.memory cpu.program_counter
      unpacked cpu prog (expand instruction) λ word. dispatch word (inst_size instruction) cpu prog

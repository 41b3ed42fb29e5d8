-- ===== src/Emulator/Tick/Decode.antt =====
-- What `tick` of kernel/src/emulator.rs does with an instruction of each format, and with a compressed one.
use ron.Base.{ℕ, ◌%◌, ◌^◌, ◌≡◌, refl, arith}
use ron.Base.Bits.{bit_and_mask}
use ron.Base.Run.{Run, ran, ◌>>=◌}
use ron.Emulator.PackedStruct.{PackedStruct}
use ron.Emulator.Opcode.{
  rtype, itype, stype, btype, utype, jtype, RiscvOpcode, to_primitive, get_type, opimm, opimm32,
  lui, auipc, op, op32, jal, jalr, branch, load, store, miscmem, system,
}
use ron.Emulator.Format.{
  RiscvRTypeInstruction, RiscvITypeInstruction, RiscvSTypeInstruction, RiscvBTypeInstruction,
  RiscvUTypeInstruction, RiscvJTypeInstruction, pack_rtype, pack_itype, pack_stype, pack_btype,
  pack_utype, pack_jtype,
}
use ron.Emulator.Format.RoundTrip.{
  from-to_primitive, to_primitive-lt, FitsRType, FitsIType, FitsSType, FitsBType, FitsUType,
  FitsJType, unpack-pack_rtype, unpack-pack_itype, unpack-pack_stype, unpack-pack_btype,
  unpack-pack_utype, unpack-pack_jtype, Instruction, Fits, pack, r_instruction, i_instruction,
  s_instruction, b_instruction, u_instruction, j_instruction,
}
use ron.Emulator.Expand.{is_compressed, expand}
use ron.Emulator.Memory.{EmulatorMemory}
use ron.Emulator.Cpu.{CpuAction, no_action, Riscv64Cpu}
use ron.Emulator.Execute.{
  execute_rtype_inst, execute_itype_inst, execute_stype_inst, execute_btype_inst,
  execute_utype_inst, execute_jtype_inst,
}
use ron.Emulator.Tick.{Ticked, finish, execute, dispatch, tick}

-- The two low bits of every opcode say that the instruction is not compressed.
to_primitive-full : (o : RiscvOpcode) → to_primitive o % 4 ≡ 3
unfolding to_primitive
to_primitive-full opimm = refl
to_primitive-full opimm32 = refl
to_primitive-full lui = refl
to_primitive-full auipc = refl
to_primitive-full op = refl
to_primitive-full op32 = refl
to_primitive-full jal = refl
to_primitive-full jalr = refl
to_primitive-full branch = refl
to_primitive-full load = refl
to_primitive-full store = refl
to_primitive-full miscmem = refl
to_primitive-full system = refl

module _ ⦃ps : PackedStruct⦄ where
  open ps use {put_bits}

  pack_rtype-opcode : (i : RiscvRTypeInstruction) → pack_rtype i % 2 ^ 7 ≡ to_primitive i.opcode
  unfolding pack_rtype
  pack_rtype-opcode i = simp put_bits (ground (arith, to_primitive-lt i.opcode))

  pack_itype-opcode : (i : RiscvITypeInstruction) → pack_itype i % 2 ^ 7 ≡ to_primitive i.opcode
  unfolding pack_itype
  pack_itype-opcode i = simp put_bits (ground (arith, to_primitive-lt i.opcode))

  pack_stype-opcode : (i : RiscvSTypeInstruction) → pack_stype i % 2 ^ 7 ≡ to_primitive i.opcode
  unfolding pack_stype
  pack_stype-opcode i = simp put_bits (ground (arith, to_primitive-lt i.opcode))

  pack_btype-opcode : (i : RiscvBTypeInstruction) → pack_btype i % 2 ^ 7 ≡ to_primitive i.opcode
  unfolding pack_btype
  pack_btype-opcode i = simp put_bits (ground (arith, to_primitive-lt i.opcode))

  pack_utype-opcode : (i : RiscvUTypeInstruction) → pack_utype i % 2 ^ 7 ≡ to_primitive i.opcode
  unfolding pack_utype
  pack_utype-opcode i = simp put_bits (ground (arith, to_primitive-lt i.opcode))

  pack_jtype-opcode : (i : RiscvJTypeInstruction) → pack_jtype i % 2 ^ 7 ≡ to_primitive i.opcode
  unfolding pack_jtype
  pack_jtype-opcode i = simp put_bits (ground (arith, to_primitive-lt i.opcode))

module _ {M P : Type 0} ⦃ps : PackedStruct⦄ ⦃mem : EmulatorMemory M⦄
    (syscall : Riscv64Cpu M → P → Run (CpuAction × Riscv64Cpu M × P)) (cpu : Riscv64Cpu M)
    (prog : P) where
  -- A word with the low bits of an opcode is executed by that opcode's format.
  tick-opcode :
      (o : RiscvOpcode) (w : ℕ)
      → mem.read_u32_le cpu.memory cpu.program_counter ≡ ran w
      → w % 2 ^ 7 ≡ to_primitive o
      → tick syscall cpu prog ≡ execute syscall (get_type o) w 4 cpu prog
  unfolding tick dispatch expand is_compressed
  tick-opcode o w fetched low =
      rw fetched (
        ground
          (arith, bit_and_mask 2 w, bit_and_mask 7 w, to_primitive-full o, from-to_primitive o))

  pub tick-rtype :
      (inst : RiscvRTypeInstruction)
      → mem.read_u32_le cpu.memory cpu.program_counter ≡ ran (pack_rtype inst)
      → FitsRType inst
      → get_type inst.opcode ≡ rtype
      → tick syscall cpu prog
        ≡ (do cpu' ← execute_rtype_inst cpu inst; finish 4 (no_action, cpu', prog))
  unfolding execute
  tick-rtype inst fetched fits typ = rw (
    tick-opcode inst.opcode (pack_rtype inst) fetched (pack_rtype-opcode inst),
    typ,
    unpack-pack_rtype inst fits,
  )

  pub tick-itype :
      (inst : RiscvITypeInstruction)
      → mem.read_u32_le cpu.memory cpu.program_counter ≡ ran (pack_itype inst)
      → FitsIType inst
      → get_type inst.opcode ≡ itype
      → tick syscall cpu prog
        ≡ (do outcome ← execute_itype_inst syscall cpu inst 4 prog; finish 4 outcome)
  unfolding execute
  tick-itype inst fetched fits typ = rw (
    tick-opcode inst.opcode (pack_itype inst) fetched (pack_itype-opcode inst),
    typ,
    unpack-pack_itype inst fits,
  )

  pub tick-stype :
      (inst : RiscvSTypeInstruction)
      → mem.read_u32_le cpu.memory cpu.program_counter ≡ ran (pack_stype inst)
      → FitsSType inst
      → get_type inst.opcode ≡ stype
      → tick syscall cpu prog
        ≡ (do cpu' ← execute_stype_inst cpu inst; finish 4 (no_action, cpu', prog))
  unfolding execute
  tick-stype inst fetched fits typ = rw (
    tick-opcode inst.opcode (pack_stype inst) fetched (pack_stype-opcode inst),
    typ,
    unpack-pack_stype inst fits,
  )

  pub tick-btype :
      (inst : RiscvBTypeInstruction)
      → mem.read_u32_le cpu.memory cpu.program_counter ≡ ran (pack_btype inst)
      → FitsBType inst
      → get_type inst.opcode ≡ btype
      → tick syscall cpu prog
        ≡ (do cpu' ← execute_btype_inst cpu inst 4; finish 4 (no_action, cpu', prog))
  unfolding execute
  tick-btype inst fetched fits typ = rw (
    tick-opcode inst.opcode (pack_btype inst) fetched (pack_btype-opcode inst),
    typ,
    unpack-pack_btype inst fits,
  )

  pub tick-utype :
      (inst : RiscvUTypeInstruction)
      → mem.read_u32_le cpu.memory cpu.program_counter ≡ ran (pack_utype inst)
      → FitsUType inst
      → get_type inst.opcode ≡ utype
      → tick syscall cpu prog
        ≡ (do cpu' ← execute_utype_inst cpu inst; finish 4 (no_action, cpu', prog))
  unfolding execute
  tick-utype inst fetched fits typ = rw (
    tick-opcode inst.opcode (pack_utype inst) fetched (pack_utype-opcode inst),
    typ,
    unpack-pack_utype inst fits,
  )

  pub tick-jtype :
      (inst : RiscvJTypeInstruction)
      → mem.read_u32_le cpu.memory cpu.program_counter ≡ ran (pack_jtype inst)
      → FitsJType inst
      → get_type inst.opcode ≡ jtype
      → tick syscall cpu prog
        ≡ (do (action, cpu') ← execute_jtype_inst cpu inst 4; finish 4 (action, cpu', prog))
  unfolding execute
  tick-jtype inst fetched fits typ = rw (
    tick-opcode inst.opcode (pack_jtype inst) fetched (pack_jtype-opcode inst),
    typ,
    unpack-pack_jtype inst fits,
  )

  -- What `tick` does with the instruction, once it is decoded.
  abbrev pub executed : Instruction → Run (Ticked M P)
  executed (r_instruction i) = do cpu' ← execute_rtype_inst cpu i; finish 4 (no_action, cpu', prog)
  executed (i_instruction i) = do
    outcome ← execute_itype_inst syscall cpu i 4 prog
    finish 4 outcome
  executed (s_instruction i) = do cpu' ← execute_stype_inst cpu i; finish 4 (no_action, cpu', prog)
  executed (b_instruction i) = do
    cpu' ← execute_btype_inst cpu i 4
    finish 4 (no_action, cpu', prog)
  executed (u_instruction i) = do cpu' ← execute_utype_inst cpu i; finish 4 (no_action, cpu', prog)
  executed (j_instruction i) = do
    (action, cpu') ← execute_jtype_inst cpu i 4
    finish 4 (action, cpu', prog)

  abbrev pub IsTyped : Instruction → Type 0
  IsTyped (r_instruction i) = get_type i.opcode ≡ rtype
  IsTyped (i_instruction i) = get_type i.opcode ≡ itype
  IsTyped (s_instruction i) = get_type i.opcode ≡ stype
  IsTyped (b_instruction i) = get_type i.opcode ≡ btype
  IsTyped (u_instruction i) = get_type i.opcode ≡ utype
  IsTyped (j_instruction i) = get_type i.opcode ≡ jtype

  -- Where the word at the program counter packs an instruction of one of the six formats, whose
  -- fields fit and whose opcode is of that format, `tick` executes that instruction with a size of
  -- four bytes, and then does the end of `tick`.
  pub tick-instruction :
      (i : Instruction)
      → mem.read_u32_le cpu.memory cpu.program_counter ≡ ran (pack i)
      → Fits i
      → IsTyped i
      → tick syscall cpu prog ≡ executed i
  tick-instruction (r_instruction i) fetched fits typ = tick-rtype i fetched fits typ
  tick-instruction (i_instruction i) fetched fits typ = tick-itype i fetched fits typ
  tick-instruction (s_instruction i) fetched fits typ = tick-stype i fetched fits typ
  tick-instruction (b_instruction i) fetched fits typ = tick-btype i fetched fits typ
  tick-instruction (u_instruction i) fetched fits typ = tick-utype i fetched fits typ
  tick-instruction (j_instruction i) fetched fits typ = tick-jtype i fetched fits typ

-- ===== src/Emulator/Expand.antt =====
-- The first half of `tick` in kernel/src/emulator.rs: a compressed instruction is rewritten to the
-- 32-bit instruction that it abbreviates. `none` is the early return of `tick`; a compressed
-- instruction that no arm matches stays as it is.
pub mod Classes
pub mod Fields
pub mod Decode
pub mod Tables
pub mod Manual
pub mod Correct
use ron.Base.{ℕ, ◌%◌, ◌^◌, bit_and, bit_or, Bool, not, Option, some, ◌==◌, if◌then◌else◌}
use ron.Base.Options.{◌>>=◌}
use ron.Emulator.PackedStruct.{PackedStruct}
use ron.Emulator.Opcode.{
  RiscvOpcode, opimm, opimm32, lui, op, op32, jal, jalr, branch, load, store, system,
  RiscvCompressedOpcode, c0, c1, c2, RiscvCompressedInstType, crtype, citype, csstype, ciwtype,
  cltype, cstype, catype, cbtype, cjtype, get_compressed_instruction_type,
}
use ron.Emulator.Format.{
  RiscvRTypeInstruction, new_itype, new_stype, new_btype, new_utype, new_jtype, pack_rtype,
  pack_itype, pack_stype, pack_btype, pack_utype, pack_jtype,
}
use ron.Emulator.Compressed.Fields.{
  RiscvCrTypeInstruction, RiscvCiTypeInstruction, RiscvCssTypeInstruction, RiscvCiwTypeInstruction,
  RiscvClTypeInstruction, RiscvCsTypeInstruction, RiscvCaTypeInstruction, RiscvCbTypeInstruction,
  RiscvCjTypeInstruction, unpack_cr, unpack_ci, unpack_css, unpack_ciw, unpack_cl, unpack_cs,
  unpack_ca, unpack_cb, unpack_cj, parse_short_reg,
}
use ron.Emulator.Compressed.Immediates.{
  parse_ci_imm, parse_css_imm, parse_ciw_imm, parse_cl_imm, parse_cs_imm, parse_cb_imm,
  parse_cb_funct2, parse_cj_imm,
}

abbrev pub new_rtype : RiscvOpcode → (rd funct3 rs1 rs2 funct7 : ℕ) → RiscvRTypeInstruction
new_rtype opcode rd funct3 rs1 rs2 funct7 = record {
  opcode = opcode;
  rd = rd;
  funct3 = funct3;
  rs1 = rs1;
  rs2 = rs2;
  funct7 = funct7;
}

-- `instruction & 0b11 != 0b11`.
unfoldable pub is_compressed : ℕ → Bool
is_compressed instruction = not (bit_and instruction 0b11 == 0b11)

module _ ⦃ps : PackedStruct⦄ where
  -- C.JR, C.MV, C.JALR, C.EBREAK and C.ADD.
  unfoldable pub expand_cr : RiscvCompressedOpcode → RiscvCrTypeInstruction → ℕ → Option ℕ
  expand_cr c0 i instruction = some instruction
  expand_cr c1 i instruction = some instruction
  expand_cr c2 i instruction =
      if i.funct4 == 0b1000
      then some (
          if i.rs2 == 0
          then pack_itype (new_itype jalr 0 0b000 i.rd_rs1 0)
          else pack_rtype (new_rtype op i.rd_rs1 0b000 i.rs2 0 0b0000000))
      else if i.funct4 == 0b1001
      then some (
          if i.rs2 == 0
          then (if i.rd_rs1 == 0
              then pack_itype (new_itype system 0 0b000 0 1)
              else pack_itype (new_itype jalr 1 0b000 i.rd_rs1 0))
          else pack_rtype (new_rtype op i.rd_rs1 0b000 i.rd_rs1 i.rs2 0b0000000))
      else some instruction

  -- C.SLLI, C.LWSP, C.LDSP; C.LI, C.LUI, C.ADDI16SP, C.ADDI, C.ADDIW.
  unfoldable pub expand_ci : RiscvCompressedOpcode → RiscvCiTypeInstruction → ℕ → Option ℕ
  expand_ci c0 i instruction = some instruction
  expand_ci c1 i instruction =
      if i.funct3 == 0b010
      then (do imm ← parse_ci_imm i; some (pack_itype (new_itype opimm i.rd_rs1 0b000 0 imm)))
      else if i.funct3 == 0b011
      then (if i.rd_rs1 == 2
          then (do imm ← parse_ci_imm i; some (pack_itype (new_itype opimm 2 0b000 2 imm)))
          else (do imm ← parse_ci_imm i; some (pack_utype (new_utype lui i.rd_rs1 imm))))
      else if i.funct3 == 0b000
      then (do
        imm ← parse_ci_imm i
        some (pack_itype (new_itype opimm i.rd_rs1 0b000 i.rd_rs1 imm)))
      else if i.funct3 == 0b001
      then (do
        imm ← parse_ci_imm i
        some (pack_itype (new_itype opimm32 i.rd_rs1 0b000 i.rd_rs1 imm)))
      else some instruction
  expand_ci c2 i instruction =
      if i.funct3 == 0b000
      then (do
        imm ← parse_ci_imm i
        some (pack_itype (new_itype opimm i.rd_rs1 0b001 i.rd_rs1 imm)))
      else if i.funct3 == 0b010
      then (do imm ← parse_ci_imm i; some (pack_itype (new_itype load i.rd_rs1 0b010 2 imm)))
      else if i.funct3 == 0b011
      then (do imm ← parse_ci_imm i; some (pack_itype (new_itype load i.rd_rs1 0b011 2 imm)))
      else some instruction

  -- C.SWSP and C.SDSP.
  unfoldable pub expand_css : RiscvCompressedOpcode → RiscvCssTypeInstruction → ℕ → Option ℕ
  expand_css c0 i instruction = some instruction
  expand_css c1 i instruction = some instruction
  expand_css c2 i instruction =
      if i.funct3 == 0b110
      then (do imm ← parse_css_imm i; some (pack_stype (new_stype store 0b010 2 i.rs2 imm)))
      else if i.funct3 == 0b111
      then (do imm ← parse_css_imm i; some (pack_stype (new_stype store 0b011 2 i.rs2 imm)))
      else some instruction

  -- C.ADDI4SPN.
  unfoldable pub expand_ciw : RiscvCompressedOpcode → RiscvCiwTypeInstruction → ℕ → Option ℕ
  expand_ciw c0 i instruction =
      if i.funct3 == 0b000
      then (do
        imm ← parse_ciw_imm i
        some (pack_itype (new_itype opimm (parse_short_reg i.compressed_rd) 0b000 2 imm)))
      else some instruction
  expand_ciw c1 i instruction = some instruction
  expand_ciw c2 i instruction = some instruction

  abbrev load_from : RiscvClTypeInstruction → ℕ → ℕ → ℕ
  load_from i funct3 imm = pack_itype (
      new_itype load (parse_short_reg i.compressed_rd) funct3 (parse_short_reg i.compressed_rs1)
        imm)

  -- C.LW and C.LD.
  unfoldable pub expand_cl : RiscvCompressedOpcode → RiscvClTypeInstruction → ℕ → Option ℕ
  expand_cl c0 i instruction =
      if i.funct3 == 0b010
      then (do imm ← parse_cl_imm i; some (load_from i 0b010 imm))
      else if i.funct3 == 0b011
      then (do imm ← parse_cl_imm i; some (load_from i 0b011 imm))
      else some instruction
  expand_cl c1 i instruction = some instruction
  expand_cl c2 i instruction = some instruction

  abbrev store_to : RiscvCsTypeInstruction → ℕ → ℕ → ℕ
  store_to i funct3 imm = pack_stype (
      new_stype store funct3 (parse_short_reg i.compressed_rs1) (parse_short_reg i.compressed_rs2)
        imm)

  -- C.SW and C.SD.
  unfoldable pub expand_cs : RiscvCompressedOpcode → RiscvCsTypeInstruction → ℕ → Option ℕ
  expand_cs c0 i instruction =
      if i.funct3 == 0b110
      then (do imm ← parse_cs_imm i; some (store_to i 0b010 imm))
      else if i.funct3 == 0b111
      then (do imm ← parse_cs_imm i; some (store_to i 0b011 imm))
      else some instruction
  expand_cs c1 i instruction = some instruction
  expand_cs c2 i instruction = some instruction

  abbrev arithmetic : RiscvCaTypeInstruction → RiscvOpcode → (funct3 funct7 : ℕ) → ℕ
  arithmetic i opcode funct3 funct7 =
      let rd = parse_short_reg i.compressed_rd_rs1 in
      pack_rtype (new_rtype opcode rd funct3 rd (parse_short_reg i.compressed_rs2) funct7)

  -- C.AND, C.OR, C.XOR, C.SUB, C.ADDW and C.SUBW.
  unfoldable pub expand_ca : RiscvCompressedOpcode → RiscvCaTypeInstruction → ℕ → Option ℕ
  expand_ca c0 i instruction = some instruction
  expand_ca c1 i instruction =
      if i.funct6 == 0b100011
      then some (
          if i.funct2 == 0b11
          then arithmetic i op 0b111 0b0000000
          else if i.funct2 == 0b10
          then arithmetic i op 0b110 0b0000000
          else if i.funct2 == 0b01
          then arithmetic i op 0b100 0b0000000
          else if i.funct2 == 0b00
          then arithmetic i op 0b000 0b0100000
          else instruction)
      else if i.funct6 == 0b100111
      then some (
          if i.funct2 == 0b01
          then arithmetic i op32 0b000 0b0000000
          else if i.funct2 == 0b00
          then arithmetic i op32 0b000 0b0100000
          else instruction)
      else some instruction
  expand_ca c2 i instruction = some instruction

  abbrev shift_or_and : RiscvCbTypeInstruction → (funct3 imm : ℕ) → ℕ
  shift_or_and i funct3 imm =
      let rd = parse_short_reg i.compressed_rd_rs1 in pack_itype (new_itype opimm rd funct3 rd imm)

  -- C.BEQZ, C.BNEZ, C.SRLI, C.SRAI and C.ANDI.
  unfoldable pub expand_cb : RiscvCompressedOpcode → RiscvCbTypeInstruction → ℕ → Option ℕ
  expand_cb c0 i instruction = some instruction
  expand_cb c1 i instruction =
      let rs1 = parse_short_reg i.compressed_rd_rs1 in
      if i.funct3 == 0b110
      then (do imm ← parse_cb_imm i; some (pack_btype (new_btype branch 0b000 rs1 0 imm)))
      else if i.funct3 == 0b111
      then (do imm ← parse_cb_imm i; some (pack_btype (new_btype branch 0b001 rs1 0 imm)))
      else if i.funct3 == 0b100
      then (if parse_cb_funct2 i == 0b00
          then (do imm ← parse_cb_imm i; some (shift_or_and i 0b101 imm))
          else if parse_cb_funct2 i == 0b01
          then (do imm ← parse_cb_imm i; some (shift_or_and i 0b101 (bit_or imm 0b0100000_00000)))
          else if parse_cb_funct2 i == 0b10
          then (do imm ← parse_cb_imm i; some (shift_or_and i 0b111 imm))
          else some instruction)
      else some instruction
  expand_cb c2 i instruction = some instruction

  -- C.J.
  unfoldable pub expand_cj : RiscvCompressedOpcode → RiscvCjTypeInstruction → ℕ → Option ℕ
  expand_cj c0 i instruction = some instruction
  expand_cj c1 i instruction =
      if i.funct3 == 0b101
      then (do imm ← parse_cj_imm i; some (pack_jtype (new_jtype jal 0 imm)))
      else some instruction
  expand_cj c2 i instruction = some instruction

  unfoldable pub expand_as : RiscvCompressedInstType → ℕ → Option ℕ
  expand_as crtype w = do i ← unpack_cr (w % 2 ^ 16); expand_cr i.opcode i w
  expand_as citype w = do i ← unpack_ci (w % 2 ^ 16); expand_ci i.opcode i w
  expand_as csstype w = do i ← unpack_css (w % 2 ^ 16); expand_css i.opcode i w
  expand_as ciwtype w = do i ← unpack_ciw (w % 2 ^ 16); expand_ciw i.opcode i w
  expand_as cltype w = do i ← unpack_cl (w % 2 ^ 16); expand_cl i.opcode i w
  expand_as cstype w = do i ← unpack_cs (w % 2 ^ 16); expand_cs i.opcode i w
  expand_as catype w = do i ← unpack_ca (w % 2 ^ 16); expand_ca i.opcode i w
  expand_as cbtype w = do i ← unpack_cb (w % 2 ^ 16); expand_cb i.opcode i w
  expand_as cjtype w = do i ← unpack_cj (w % 2 ^ 16); expand_cj i.opcode i w

  -- The word that `tick` goes on with.
  unfoldable pub expand : ℕ → Option ℕ
  unfolding is_compressed
  expand instruction =
      if is_compressed instruction
      then (do
        typ ← get_compressed_instruction_type (instruction % 2 ^ 16)
        expand_as typ instruction)
      else some instruction

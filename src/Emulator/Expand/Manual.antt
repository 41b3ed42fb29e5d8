-- ===== src/Emulator/Expand/Manual.antt =====
-- The compressed instructions as the RISC-V manual (Volume I, chapter 16) gives them: the operands
-- of each, the halfword that encodes it, and the full instruction that it stands for. It is what
-- the first half of `tick` in kernel/src/emulator.rs is held to.
use ron.Base.{ℕ, ◌+◌, ◌*◌, ◌/◌, ◌%◌, ◌^◌, ◌<◌, ◌≢◌}
use ron.Emulator.Sign.{widened}
use ron.Emulator.PackedStruct.{PackedStruct}
use ron.Emulator.Opcode.{
  opimm, opimm32, lui, op, op32, jal, jalr, branch, load, store, system, RiscvCompressedOpcode, c0,
  c1, c2,
}
use ron.Emulator.Format.{
  new_itype, new_stype, new_btype, new_utype, new_jtype, pack_rtype, pack_itype, pack_stype,
  pack_btype, pack_utype, pack_jtype,
}
use ron.Emulator.Compressed.Fields.{
  RiscvCrTypeInstruction, RiscvCiTypeInstruction, RiscvCssTypeInstruction, RiscvCiwTypeInstruction,
  RiscvClTypeInstruction, RiscvCsTypeInstruction, RiscvCaTypeInstruction, RiscvCbTypeInstruction,
  RiscvCjTypeInstruction,
}
use ron.Emulator.Expand.{new_rtype}
use ron.Emulator.Expand.Fields.{
  cr_body, ci_body, css_body, ciw_body, cl_body, cs_body, ca_body, cb_body, cj_body,
}

-- The six register-to-register operations of the CA format.
pub data CaOperation : Type 0 where
  c_and c_or c_xor c_sub c_addw c_subw : CaOperation

-- Registers are numbers below 32; the short ones (rd', rs1', rs2') are numbers below 8, which stand
-- for x8 to x15. A scaled offset `u` is the offset divided by the size of the access, and a signed
-- one the bit pattern of its field.
pub data CompressedInstruction : Type 0 where
  c_addi4spn : (rd' u : ℕ) → CompressedInstruction
  c_lw c_ld : (rd' rs1' u : ℕ) → CompressedInstruction
  c_sw c_sd : (rs1' rs2' u : ℕ) → CompressedInstruction
  c_addi c_addiw c_li c_lui c_slli : (rd i : ℕ) → CompressedInstruction
  c_addi16sp : (i : ℕ) → CompressedInstruction
  c_lwsp c_ldsp : (rd u : ℕ) → CompressedInstruction
  c_swsp c_sdsp : (rs2 u : ℕ) → CompressedInstruction
  c_srli c_srai c_andi : (rd' i : ℕ) → CompressedInstruction
  c_arithmetic : CaOperation → (rd' rs2' : ℕ) → CompressedInstruction
  c_beqz c_bnez : (rs1' u : ℕ) → CompressedInstruction
  c_j : (u : ℕ) → CompressedInstruction
  c_jr c_jalr : (rs1 : ℕ) → CompressedInstruction
  c_mv c_add : (rd rs2 : ℕ) → CompressedInstruction
  c_ebreak : CompressedInstruction

-- The operands that the encoding has room for. Where the manual gives a code point to another
-- instruction (rd = 2 of C.LUI, rs2 = 0 of C.MV and C.ADD, rs1 = 0 of C.JALR) it is excluded.
abbrev pub Encodable : CompressedInstruction → Type 0
Encodable (c_addi4spn rd u) = (rd < 8) × (u < 256)
Encodable (c_lw rd rs1 u) = (rd < 8) × (rs1 < 8) × (u < 32)
Encodable (c_ld rd rs1 u) = (rd < 8) × (rs1 < 8) × (u < 32)
Encodable (c_sw rs1 rs2 u) = (rs1 < 8) × (rs2 < 8) × (u < 32)
Encodable (c_sd rs1 rs2 u) = (rs1 < 8) × (rs2 < 8) × (u < 32)
Encodable (c_addi rd i) = (rd < 32) × (i < 64)
Encodable (c_addiw rd i) = (rd < 32) × (i < 64)
Encodable (c_li rd i) = (rd < 32) × (i < 64)
Encodable (c_lui rd i) = (rd < 32) × (i < 64) × (rd ≢ 2)
Encodable (c_slli rd i) = (rd < 32) × (i < 64)
Encodable (c_addi16sp i) = i < 64
Encodable (c_lwsp rd u) = (rd < 32) × (u < 64)
Encodable (c_ldsp rd u) = (rd < 32) × (u < 64)
Encodable (c_swsp rs2 u) = (rs2 < 32) × (u < 64)
Encodable (c_sdsp rs2 u) = (rs2 < 32) × (u < 64)
Encodable (c_srli rd i) = (rd < 8) × (i < 64)
Encodable (c_srai rd i) = (rd < 8) × (i < 64)
Encodable (c_andi rd i) = (rd < 8) × (i < 64)
Encodable (c_arithmetic o rd rs2) = (rd < 8) × (rs2 < 8)
Encodable (c_beqz rs1 u) = (rs1 < 8) × (u < 256)
Encodable (c_bnez rs1 u) = (rs1 < 8) × (u < 256)
Encodable (c_j u) = u < 2048
Encodable (c_jr rs1) = rs1 < 32
Encodable (c_jalr rs1) = (rs1 < 32) × (rs1 ≢ 0)
Encodable (c_mv rd rs2) = (rd < 32) × (rs2 < 32) × (rs2 ≢ 0)
Encodable (c_add rd rs2) = (rd < 32) × (rs2 < 32) × (rs2 ≢ 0)
Encodable c_ebreak = Unit

abbrev pub cr : (funct4 rd_rs1 rs2 : ℕ) → RiscvCrTypeInstruction
cr funct4 rd_rs1 rs2 = record { opcode = c2; rs2 = rs2; rd_rs1 = rd_rs1; funct4 = funct4 }

abbrev pub ci : RiscvCompressedOpcode → (funct3 rd hi lo : ℕ) → RiscvCiTypeInstruction
ci o funct3 rd hi lo = record {
  opcode = o;
  imm_part1 = lo;
  rd_rs1 = rd;
  imm_part2 = hi;
  funct3 = funct3;
}

abbrev pub css : (funct3 rs2 imm : ℕ) → RiscvCssTypeInstruction
css funct3 rs2 imm = record { opcode = c2; rs2 = rs2; imm = imm; funct3 = funct3 }

abbrev pub ciw : (rd' imm : ℕ) → RiscvCiwTypeInstruction
ciw rd' imm = record { opcode = c0; compressed_rd = rd'; imm = imm; funct3 = 0 }

abbrev pub cl : (funct3 rd' rs1' hi lo : ℕ) → RiscvClTypeInstruction
cl funct3 rd' rs1' hi lo = record {
  opcode = c0;
  compressed_rd = rd';
  imm_part1 = lo;
  compressed_rs1 = rs1';
  imm_part2 = hi;
  funct3 = funct3;
}

abbrev pub cs : (funct3 rs1' rs2' hi lo : ℕ) → RiscvCsTypeInstruction
cs funct3 rs1' rs2' hi lo = record {
  opcode = c0;
  compressed_rs2 = rs2';
  imm_part1 = lo;
  compressed_rs1 = rs1';
  imm_part2 = hi;
  funct3 = funct3;
}

abbrev pub ca : (funct6 funct2 rd' rs2' : ℕ) → RiscvCaTypeInstruction
ca funct6 funct2 rd' rs2' = record {
  opcode = c1;
  compressed_rs2 = rs2';
  funct2 = funct2;
  compressed_rd_rs1 = rd';
  funct6 = funct6;
}

abbrev pub cb : (funct3 rd' hi lo : ℕ) → RiscvCbTypeInstruction
cb funct3 rd' hi lo = record {
  opcode = c1;
  imm_part1 = lo;
  compressed_rd_rs1 = rd';
  imm_part2 = hi;
  funct3 = funct3;
}

-- offset[11|4|9:8|10|6|7|3:1|5], of a jump by 2 * u.
abbrev pub cj : (u : ℕ) → RiscvCjTypeInstruction
cj u = record {
  opcode = c1;
  imm_bit5 = u / 16 % 2;
  imm_3_1 = u % 8;
  imm_bit7 = u / 64 % 2;
  imm_bit6 = u / 32 % 2;
  imm_bit10 = u / 512 % 2;
  imm_9_8 = u / 128 % 4;
  imm_bit4 = u / 8 % 2;
  imm_bit11 = u / 1024;
  funct3 = 0b101;
}

abbrev pub ca_fields : CaOperation → (rd' rs2' : ℕ) → RiscvCaTypeInstruction
ca_fields c_and = ca 0b100011 0b11
ca_fields c_or = ca 0b100011 0b10
ca_fields c_xor = ca 0b100011 0b01
ca_fields c_sub = ca 0b100011 0b00
ca_fields c_addw = ca 0b100111 0b01
ca_fields c_subw = ca 0b100111 0b00

-- The branch offset[8|4:3] and offset[7:6|2:1|5], of a branch by 2 * u.
abbrev pub branch_hi : ℕ → ℕ
branch_hi u = u / 128 * 4 + u / 4 % 4

abbrev pub branch_lo : ℕ → ℕ
branch_lo u = u / 32 % 4 * 8 + u % 4 * 2 + u / 16 % 2

-- nzuimm[5:4|9:6|2|3] of C.ADDI4SPN, offset[2|6] of C.LW and C.SW, nzimm[4|6|8:7|5] of C.ADDI16SP,
-- offset[4:2|7:6] and offset[4:3|8:6] of C.LWSP and C.LDSP, offset[5:2|7:6] and offset[5:3|8:6] of
-- C.SWSP and C.SDSP, each of its scaled offset.
abbrev pub spn_imm : ℕ → ℕ
spn_imm u = u / 4 % 4 * 64 + u / 16 * 4 + u % 2 * 2 + u / 2 % 2

abbrev pub word_lo : ℕ → ℕ
word_lo u = u % 2 * 2 + u / 16

abbrev pub addi16sp_lo : ℕ → ℕ
addi16sp_lo i = i % 2 * 16 + i / 4 % 2 * 8 + i / 8 % 4 * 2 + i / 2 % 2

abbrev pub lwsp_lo : ℕ → ℕ
lwsp_lo u = u % 8 * 4 + u / 16

abbrev pub ldsp_lo : ℕ → ℕ
ldsp_lo u = u % 4 * 8 + u / 8

abbrev pub swsp_imm : ℕ → ℕ
swsp_imm u = u % 16 * 4 + u / 16

abbrev pub sdsp_imm : ℕ → ℕ
sdsp_imm u = u % 8 * 8 + u / 8

-- The halfword.
unfoldable pub encode : CompressedInstruction → ℕ
encode (c_addi4spn rd u) = 0 + 4 * ciw_body (ciw rd (spn_imm u))
encode (c_lw rd rs1 u) = 0 + 4 * cl_body (cl 0b010 rd rs1 (u / 2 % 8) (word_lo u))
encode (c_ld rd rs1 u) = 0 + 4 * cl_body (cl 0b011 rd rs1 (u % 8) (u / 8))
encode (c_sw rs1 rs2 u) = 0 + 4 * cs_body (cs 0b110 rs1 rs2 (u / 2 % 8) (word_lo u))
encode (c_sd rs1 rs2 u) = 0 + 4 * cs_body (cs 0b111 rs1 rs2 (u % 8) (u / 8))
encode (c_addi rd i) = 1 + 4 * ci_body (ci c1 0b000 rd (i / 32) (i % 32))
encode (c_addiw rd i) = 1 + 4 * ci_body (ci c1 0b001 rd (i / 32) (i % 32))
encode (c_li rd i) = 1 + 4 * ci_body (ci c1 0b010 rd (i / 32) (i % 32))
encode (c_lui rd i) = 1 + 4 * ci_body (ci c1 0b011 rd (i / 32) (i % 32))
encode (c_addi16sp i) = 1 + 4 * ci_body (ci c1 0b011 2 (i / 32) (addi16sp_lo i))
encode (c_slli rd i) = 2 + 4 * ci_body (ci c2 0b000 rd (i / 32) (i % 32))
encode (c_lwsp rd u) = 2 + 4 * ci_body (ci c2 0b010 rd (u / 8 % 2) (lwsp_lo u))
encode (c_ldsp rd u) = 2 + 4 * ci_body (ci c2 0b011 rd (u / 4 % 2) (ldsp_lo u))
encode (c_swsp rs2 u) = 2 + 4 * css_body (css 0b110 rs2 (swsp_imm u))
encode (c_sdsp rs2 u) = 2 + 4 * css_body (css 0b111 rs2 (sdsp_imm u))
encode (c_srli rd i) = 1 + 4 * cb_body (cb 0b100 rd (i / 32 * 4 + 0b00) (i % 32))
encode (c_srai rd i) = 1 + 4 * cb_body (cb 0b100 rd (i / 32 * 4 + 0b01) (i % 32))
encode (c_andi rd i) = 1 + 4 * cb_body (cb 0b100 rd (i / 32 * 4 + 0b10) (i % 32))
encode (c_arithmetic o rd rs2) = 1 + 4 * ca_body (ca_fields o rd rs2)
encode (c_beqz rs1 u) = 1 + 4 * cb_body (cb 0b110 rs1 (branch_hi u) (branch_lo u))
encode (c_bnez rs1 u) = 1 + 4 * cb_body (cb 0b111 rs1 (branch_hi u) (branch_lo u))
encode (c_j u) = 1 + 4 * cj_body (cj u)
encode (c_jr rs1) = 2 + 4 * cr_body (cr 0b1000 rs1 0)
encode (c_jalr rs1) = 2 + 4 * cr_body (cr 0b1001 rs1 0)
encode (c_mv rd rs2) = 2 + 4 * cr_body (cr 0b1000 rd rs2)
encode (c_add rd rs2) = 2 + 4 * cr_body (cr 0b1001 rd rs2)
encode c_ebreak = 2 + 4 * cr_body (cr 0b1001 0 0)

module _ ⦃ps : PackedStruct⦄ where
  abbrev addi : (rd rs1 imm : ℕ) → ℕ
  addi rd rs1 imm = pack_itype (new_itype opimm rd 0b000 rs1 imm)

  abbrev pub ca_expansion : CaOperation → (rd rs2 : ℕ) → ℕ
  ca_expansion c_and rd rs2 = pack_rtype (new_rtype op rd 0b111 rd rs2 0b0000000)
  ca_expansion c_or rd rs2 = pack_rtype (new_rtype op rd 0b110 rd rs2 0b0000000)
  ca_expansion c_xor rd rs2 = pack_rtype (new_rtype op rd 0b100 rd rs2 0b0000000)
  ca_expansion c_sub rd rs2 = pack_rtype (new_rtype op rd 0b000 rd rs2 0b0100000)
  ca_expansion c_addw rd rs2 = pack_rtype (new_rtype op32 rd 0b000 rd rs2 0b0000000)
  ca_expansion c_subw rd rs2 = pack_rtype (new_rtype op32 rd 0b000 rd rs2 0b0100000)

  -- The 32-bit instruction, with its immediate as a signed 32-bit word.
  unfoldable pub expansion : CompressedInstruction → ℕ
  expansion (c_addi4spn rd u) = addi (rd + 8) 2 (4 * u)
  expansion (c_lw rd rs1 u) = pack_itype (new_itype load (rd + 8) 0b010 (rs1 + 8) (4 * u))
  expansion (c_ld rd rs1 u) = pack_itype (new_itype load (rd + 8) 0b011 (rs1 + 8) (8 * u))
  expansion (c_sw rs1 rs2 u) = pack_stype (new_stype store 0b010 (rs1 + 8) (rs2 + 8) (4 * u))
  expansion (c_sd rs1 rs2 u) = pack_stype (new_stype store 0b011 (rs1 + 8) (rs2 + 8) (8 * u))
  expansion (c_addi rd i) = addi rd rd (widened 6 32 i)
  expansion (c_addiw rd i) = pack_itype (new_itype opimm32 rd 0b000 rd (widened 6 32 i))
  expansion (c_li rd i) = addi rd 0 (widened 6 32 i)
  expansion (c_lui rd i) = pack_utype (new_utype lui rd (widened 6 32 i * 2 ^ 12 % 2 ^ 32))
  expansion (c_addi16sp i) = addi 2 2 (widened 10 32 (16 * i))
  expansion (c_slli rd i) = pack_itype (new_itype opimm rd 0b001 rd i)
  expansion (c_lwsp rd u) = pack_itype (new_itype load rd 0b010 2 (4 * u))
  expansion (c_ldsp rd u) = pack_itype (new_itype load rd 0b011 2 (8 * u))
  expansion (c_swsp rs2 u) = pack_stype (new_stype store 0b010 2 rs2 (4 * u))
  expansion (c_sdsp rs2 u) = pack_stype (new_stype store 0b011 2 rs2 (8 * u))
  expansion (c_srli rd i) = pack_itype (new_itype opimm (rd + 8) 0b101 (rd + 8) i)
  expansion (c_srai rd i) = pack_itype (new_itype opimm (rd + 8) 0b101 (rd + 8) (2 ^ 10 + i))
  expansion (c_andi rd i) = pack_itype (new_itype opimm (rd + 8) 0b111 (rd + 8) (widened 6 32 i))
  expansion (c_arithmetic o rd rs2) = ca_expansion o (rd + 8) (rs2 + 8)
  expansion (c_beqz rs1 u) = pack_btype (new_btype branch 0b000 (rs1 + 8) 0 (widened 9 32 (2 * u)))
  expansion (c_bnez rs1 u) = pack_btype (new_btype branch 0b001 (rs1 + 8) 0 (widened 9 32 (2 * u)))
  expansion (c_j u) = pack_jtype (new_jtype jal 0 (widened 12 32 (2 * u)))
  expansion (c_jr rs1) = pack_itype (new_itype jalr 0 0b000 rs1 0)
  expansion (c_jalr rs1) = pack_itype (new_itype jalr 1 0b000 rs1 0)
  expansion (c_mv rd rs2) = pack_rtype (new_rtype op rd 0b000 rs2 0 0b0000000)
  expansion (c_add rd rs2) = pack_rtype (new_rtype op rd 0b000 rd rs2 0b0000000)
  expansion c_ebreak = pack_itype (new_itype system 0 0b000 0 1)

-- ===== src/Emulator/Expand/Fields.antt =====
-- The fields that `unpack` reads from the digits of a compressed instruction, in
-- kernel/src/emulator.rs.
use ron.Base.{ℕ, ◌+◌, ◌*◌, ◌%◌, ◌^◌, ◌<◌, ◌≡◌, some, arith}
use ron.Emulator.PackedStruct.{PackedStruct}
use ron.Emulator.Opcode.{RiscvCompressedOpcode, c0, c1, c2, compressed_from_primitive}
use ron.Emulator.Compressed.Fields.{
  RiscvCiTypeInstruction, RiscvCrTypeInstruction, RiscvCssTypeInstruction, RiscvCiwTypeInstruction,
  RiscvClTypeInstruction, RiscvCsTypeInstruction, RiscvCaTypeInstruction, RiscvCbTypeInstruction,
  RiscvCjTypeInstruction, unpack_ci, unpack_cr, unpack_css, unpack_ciw, unpack_cl, unpack_cs,
  unpack_ca, unpack_cb, unpack_cj,
}
use ron.Emulator.Expand.Classes.{quadrant}

-- Every field of the instruction fits its width.
pub record FitsCiType (i : RiscvCiTypeInstruction) : Type 0 where
  pub imm_part1 : i.imm_part1 < 2 ^ 5
  pub rd_rs1 : i.rd_rs1 < 2 ^ 5
  pub imm_part2 : i.imm_part2 < 2 ^ 1
  pub funct3 : i.funct3 < 2 ^ 3

pub record FitsCrType (i : RiscvCrTypeInstruction) : Type 0 where
  pub rs2 : i.rs2 < 2 ^ 5
  pub rd_rs1 : i.rd_rs1 < 2 ^ 5
  pub funct4 : i.funct4 < 2 ^ 4

pub record FitsCssType (i : RiscvCssTypeInstruction) : Type 0 where
  pub rs2 : i.rs2 < 2 ^ 5
  pub imm : i.imm < 2 ^ 6
  pub funct3 : i.funct3 < 2 ^ 3

pub record FitsCiwType (i : RiscvCiwTypeInstruction) : Type 0 where
  pub compressed_rd : i.compressed_rd < 2 ^ 3
  pub imm : i.imm < 2 ^ 8
  pub funct3 : i.funct3 < 2 ^ 3

pub record FitsClType (i : RiscvClTypeInstruction) : Type 0 where
  pub compressed_rd : i.compressed_rd < 2 ^ 3
  pub imm_part1 : i.imm_part1 < 2 ^ 2
  pub compressed_rs1 : i.compressed_rs1 < 2 ^ 3
  pub imm_part2 : i.imm_part2 < 2 ^ 3
  pub funct3 : i.funct3 < 2 ^ 3

pub record FitsCsType (i : RiscvCsTypeInstruction) : Type 0 where
  pub compressed_rs2 : i.compressed_rs2 < 2 ^ 3
  pub imm_part1 : i.imm_part1 < 2 ^ 2
  pub compressed_rs1 : i.compressed_rs1 < 2 ^ 3
  pub imm_part2 : i.imm_part2 < 2 ^ 3
  pub funct3 : i.funct3 < 2 ^ 3

pub record FitsCaType (i : RiscvCaTypeInstruction) : Type 0 where
  pub compressed_rs2 : i.compressed_rs2 < 2 ^ 3
  pub funct2 : i.funct2 < 2 ^ 2
  pub compressed_rd_rs1 : i.compressed_rd_rs1 < 2 ^ 3
  pub funct6 : i.funct6 < 2 ^ 6

pub record FitsCbType (i : RiscvCbTypeInstruction) : Type 0 where
  pub imm_part1 : i.imm_part1 < 2 ^ 5
  pub compressed_rd_rs1 : i.compressed_rd_rs1 < 2 ^ 3
  pub imm_part2 : i.imm_part2 < 2 ^ 3
  pub funct3 : i.funct3 < 2 ^ 3

pub record FitsCjType (i : RiscvCjTypeInstruction) : Type 0 where
  pub imm_bit5 : i.imm_bit5 < 2 ^ 1
  pub imm_3_1 : i.imm_3_1 < 2 ^ 3
  pub imm_bit7 : i.imm_bit7 < 2 ^ 1
  pub imm_bit6 : i.imm_bit6 < 2 ^ 1
  pub imm_bit10 : i.imm_bit10 < 2 ^ 1
  pub imm_9_8 : i.imm_9_8 < 2 ^ 2
  pub imm_bit4 : i.imm_bit4 < 2 ^ 1
  pub imm_bit11 : i.imm_bit11 < 2 ^ 1
  pub funct3 : i.funct3 < 2 ^ 3

abbrev pub ci_body : RiscvCiTypeInstruction → ℕ
ci_body i = i.imm_part1 + 2 ^ 5 * i.rd_rs1 + 2 ^ 10 * i.imm_part2 + 2 ^ 11 * i.funct3

abbrev pub cr_body : RiscvCrTypeInstruction → ℕ
cr_body i = i.rs2 + 2 ^ 5 * i.rd_rs1 + 2 ^ 10 * i.funct4

abbrev pub css_body : RiscvCssTypeInstruction → ℕ
css_body i = i.rs2 + 2 ^ 5 * i.imm + 2 ^ 11 * i.funct3

abbrev pub ciw_body : RiscvCiwTypeInstruction → ℕ
ciw_body i = i.compressed_rd + 2 ^ 3 * i.imm + 2 ^ 11 * i.funct3

abbrev pub cl_body : RiscvClTypeInstruction → ℕ
cl_body i =
    i.compressed_rd
    + 2 ^ 3 * i.imm_part1
    + 2 ^ 5 * i.compressed_rs1
    + 2 ^ 8 * i.imm_part2
    + 2 ^ 11 * i.funct3

abbrev pub cs_body : RiscvCsTypeInstruction → ℕ
cs_body i =
    i.compressed_rs2
    + 2 ^ 3 * i.imm_part1
    + 2 ^ 5 * i.compressed_rs1
    + 2 ^ 8 * i.imm_part2
    + 2 ^ 11 * i.funct3

abbrev pub ca_body : RiscvCaTypeInstruction → ℕ
ca_body i = i.compressed_rs2 + 2 ^ 3 * i.funct2 + 2 ^ 5 * i.compressed_rd_rs1 + 2 ^ 8 * i.funct6

abbrev pub cb_body : RiscvCbTypeInstruction → ℕ
cb_body i = i.imm_part1 + 2 ^ 5 * i.compressed_rd_rs1 + 2 ^ 8 * i.imm_part2 + 2 ^ 11 * i.funct3

abbrev pub cj_body : RiscvCjTypeInstruction → ℕ
cj_body i =
    i.imm_bit5
    + 2 ^ 1 * i.imm_3_1
    + 2 ^ 4 * i.imm_bit7
    + 2 ^ 5 * i.imm_bit6
    + 2 ^ 6 * i.imm_bit10
    + 2 ^ 7 * i.imm_9_8
    + 2 ^ 9 * i.imm_bit4
    + 2 ^ 10 * i.imm_bit11
    + 2 ^ 11 * i.funct3

module _ ⦃ps : PackedStruct⦄ where
  open ps use {get_bits}

  pub unpack_ci_lem :
      (w : ℕ) (o : RiscvCompressedOpcode) (i : RiscvCiTypeInstruction)
      → w % 2 ^ 16 ≡ quadrant o + 4 * ci_body i
      → FitsCiType i
      → i.opcode ≡ o
      → unpack_ci (w % 2 ^ 16) ≡ some i
  unfolding unpack_ci compressed_from_primitive
  unpack_ci_lem w c0 i e fits q = simp get_bits (ground arith)
  unpack_ci_lem w c1 i e fits q = simp get_bits (ground arith)
  unpack_ci_lem w c2 i e fits q = simp get_bits (ground arith)

  pub unpack_cr_lem :
      (w : ℕ) (o : RiscvCompressedOpcode) (i : RiscvCrTypeInstruction)
      → w % 2 ^ 16 ≡ quadrant o + 4 * cr_body i
      → FitsCrType i
      → i.opcode ≡ o
      → unpack_cr (w % 2 ^ 16) ≡ some i
  unfolding unpack_cr compressed_from_primitive
  unpack_cr_lem w c0 i e fits q = simp get_bits (ground arith)
  unpack_cr_lem w c1 i e fits q = simp get_bits (ground arith)
  unpack_cr_lem w c2 i e fits q = simp get_bits (ground arith)

  pub unpack_css_lem :
      (w : ℕ) (o : RiscvCompressedOpcode) (i : RiscvCssTypeInstruction)
      → w % 2 ^ 16 ≡ quadrant o + 4 * css_body i
      → FitsCssType i
      → i.opcode ≡ o
      → unpack_css (w % 2 ^ 16) ≡ some i
  unfolding unpack_css compressed_from_primitive
  unpack_css_lem w c0 i e fits q = simp get_bits (ground arith)
  unpack_css_lem w c1 i e fits q = simp get_bits (ground arith)
  unpack_css_lem w c2 i e fits q = simp get_bits (ground arith)

  pub unpack_ciw_lem :
      (w : ℕ) (o : RiscvCompressedOpcode) (i : RiscvCiwTypeInstruction)
      → w % 2 ^ 16 ≡ quadrant o + 4 * ciw_body i
      → FitsCiwType i
      → i.opcode ≡ o
      → unpack_ciw (w % 2 ^ 16) ≡ some i
  unfolding unpack_ciw compressed_from_primitive
  unpack_ciw_lem w c0 i e fits q = simp get_bits (ground arith)
  unpack_ciw_lem w c1 i e fits q = simp get_bits (ground arith)
  unpack_ciw_lem w c2 i e fits q = simp get_bits (ground arith)

  pub unpack_cl_lem :
      (w : ℕ) (o : RiscvCompressedOpcode) (i : RiscvClTypeInstruction)
      → w % 2 ^ 16 ≡ quadrant o + 4 * cl_body i
      → FitsClType i
      → i.opcode ≡ o
      → unpack_cl (w % 2 ^ 16) ≡ some i
  unfolding unpack_cl compressed_from_primitive
  unpack_cl_lem w c0 i e fits q = simp get_bits (ground arith)
  unpack_cl_lem w c1 i e fits q = simp get_bits (ground arith)
  unpack_cl_lem w c2 i e fits q = simp get_bits (ground arith)

  pub unpack_cs_lem :
      (w : ℕ) (o : RiscvCompressedOpcode) (i : RiscvCsTypeInstruction)
      → w % 2 ^ 16 ≡ quadrant o + 4 * cs_body i
      → FitsCsType i
      → i.opcode ≡ o
      → unpack_cs (w % 2 ^ 16) ≡ some i
  unfolding unpack_cs compressed_from_primitive
  unpack_cs_lem w c0 i e fits q = simp get_bits (ground arith)
  unpack_cs_lem w c1 i e fits q = simp get_bits (ground arith)
  unpack_cs_lem w c2 i e fits q = simp get_bits (ground arith)

  pub unpack_ca_lem :
      (w : ℕ) (o : RiscvCompressedOpcode) (i : RiscvCaTypeInstruction)
      → w % 2 ^ 16 ≡ quadrant o + 4 * ca_body i
      → FitsCaType i
      → i.opcode ≡ o
      → unpack_ca (w % 2 ^ 16) ≡ some i
  unfolding unpack_ca compressed_from_primitive
  unpack_ca_lem w c0 i e fits q = simp get_bits (ground arith)
  unpack_ca_lem w c1 i e fits q = simp get_bits (ground arith)
  unpack_ca_lem w c2 i e fits q = simp get_bits (ground arith)

  pub unpack_cb_lem :
      (w : ℕ) (o : RiscvCompressedOpcode) (i : RiscvCbTypeInstruction)
      → w % 2 ^ 16 ≡ quadrant o + 4 * cb_body i
      → FitsCbType i
      → i.opcode ≡ o
      → unpack_cb (w % 2 ^ 16) ≡ some i
  unfolding unpack_cb compressed_from_primitive
  unpack_cb_lem w c0 i e fits q = simp get_bits (ground arith)
  unpack_cb_lem w c1 i e fits q = simp get_bits (ground arith)
  unpack_cb_lem w c2 i e fits q = simp get_bits (ground arith)

  pub unpack_cj_lem :
      (w : ℕ) (o : RiscvCompressedOpcode) (i : RiscvCjTypeInstruction)
      → w % 2 ^ 16 ≡ quadrant o + 4 * cj_body i
      → FitsCjType i
      → i.opcode ≡ o
      → unpack_cj (w % 2 ^ 16) ≡ some i
  unfolding unpack_cj compressed_from_primitive
  unpack_cj_lem w c0 i e fits q = simp get_bits (ground arith)
  unpack_cj_lem w c1 i e fits q = simp get_bits (ground arith)
  unpack_cj_lem w c2 i e fits q = simp get_bits (ground arith)

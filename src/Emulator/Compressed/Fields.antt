-- ===== src/Emulator/Compressed/Fields.antt =====
-- The compressed instruction formats of kernel/src/emulator.rs: their fields, `unpack`, and the
-- `parse_` methods of the short register fields.
use ron.Base.{ℕ, ◌+◌, Option, some}
use ron.Base.Options.{◌>>=◌}
use ron.Emulator.PackedStruct.{PackedStruct}
use ron.Emulator.Opcode.{RiscvCompressedOpcode, compressed_from_primitive}

pub record RiscvCrTypeInstruction : Type 0 where
  pub opcode : RiscvCompressedOpcode
  pub rs2 : ℕ
  pub rd_rs1 : ℕ
  pub funct4 : ℕ

pub record RiscvCiTypeInstruction : Type 0 where
  pub opcode : RiscvCompressedOpcode
  pub imm_part1 : ℕ
  pub rd_rs1 : ℕ
  pub imm_part2 : ℕ
  pub funct3 : ℕ

pub record RiscvCssTypeInstruction : Type 0 where
  pub opcode : RiscvCompressedOpcode
  pub rs2 : ℕ
  pub imm : ℕ
  pub funct3 : ℕ

pub record RiscvCiwTypeInstruction : Type 0 where
  pub opcode : RiscvCompressedOpcode
  pub compressed_rd : ℕ
  pub imm : ℕ
  pub funct3 : ℕ

pub record RiscvClTypeInstruction : Type 0 where
  pub opcode : RiscvCompressedOpcode
  pub compressed_rd : ℕ
  pub imm_part1 : ℕ
  pub compressed_rs1 : ℕ
  pub imm_part2 : ℕ
  pub funct3 : ℕ

pub record RiscvCsTypeInstruction : Type 0 where
  pub opcode : RiscvCompressedOpcode
  pub compressed_rs2 : ℕ
  pub imm_part1 : ℕ
  pub compressed_rs1 : ℕ
  pub imm_part2 : ℕ
  pub funct3 : ℕ

pub record RiscvCaTypeInstruction : Type 0 where
  pub opcode : RiscvCompressedOpcode
  pub compressed_rs2 : ℕ
  pub funct2 : ℕ
  pub compressed_rd_rs1 : ℕ
  pub funct6 : ℕ

pub record RiscvCbTypeInstruction : Type 0 where
  pub opcode : RiscvCompressedOpcode
  pub imm_part1 : ℕ
  pub compressed_rd_rs1 : ℕ
  pub imm_part2 : ℕ
  pub funct3 : ℕ

pub record RiscvCjTypeInstruction : Type 0 where
  pub opcode : RiscvCompressedOpcode
  pub imm_bit5 : ℕ
  pub imm_3_1 : ℕ
  pub imm_bit7 : ℕ
  pub imm_bit6 : ℕ
  pub imm_bit10 : ℕ
  pub imm_9_8 : ℕ
  pub imm_bit4 : ℕ
  pub imm_bit11 : ℕ
  pub funct3 : ℕ

-- `parse_rd`, `parse_rs1`, `parse_rs2` and `parse_rd_rs1` of the three-bit register fields.
abbrev pub parse_short_reg : ℕ → ℕ
parse_short_reg n = n + 8

module _ ⦃ps : PackedStruct⦄ where
  open ps use {get}

  unfoldable pub unpack_cr : ℕ → Option RiscvCrTypeInstruction
  unpack_cr word = do
    opcode ← compressed_from_primitive (get 0 2 word)
    some (record {
      opcode = opcode;
      rs2 = get 2 5 word;
      rd_rs1 = get 7 5 word;
      funct4 = get 12 4 word;
    })

  unfoldable pub unpack_ci : ℕ → Option RiscvCiTypeInstruction
  unpack_ci word = do
    opcode ← compressed_from_primitive (get 0 2 word)
    some (record {
      opcode = opcode;
      imm_part1 = get 2 5 word;
      rd_rs1 = get 7 5 word;
      imm_part2 = get 12 1 word;
      funct3 = get 13 3 word;
    })

  unfoldable pub unpack_css : ℕ → Option RiscvCssTypeInstruction
  unpack_css word = do
    opcode ← compressed_from_primitive (get 0 2 word)
    some
        (record { opcode = opcode; rs2 = get 2 5 word; imm = get 7 6 word; funct3 = get 13 3 word })

  unfoldable pub unpack_ciw : ℕ → Option RiscvCiwTypeInstruction
  unpack_ciw word = do
    opcode ← compressed_from_primitive (get 0 2 word)
    some (record {
      opcode = opcode;
      compressed_rd = get 2 3 word;
      imm = get 5 8 word;
      funct3 = get 13 3 word;
    })

  unfoldable pub unpack_cl : ℕ → Option RiscvClTypeInstruction
  unpack_cl word = do
    opcode ← compressed_from_primitive (get 0 2 word)
    some (record {
      opcode = opcode;
      compressed_rd = get 2 3 word;
      imm_part1 = get 5 2 word;
      compressed_rs1 = get 7 3 word;
      imm_part2 = get 10 3 word;
      funct3 = get 13 3 word;
    })

  unfoldable pub unpack_cs : ℕ → Option RiscvCsTypeInstruction
  unpack_cs word = do
    opcode ← compressed_from_primitive (get 0 2 word)
    some (record {
      opcode = opcode;
      compressed_rs2 = get 2 3 word;
      imm_part1 = get 5 2 word;
      compressed_rs1 = get 7 3 word;
      imm_part2 = get 10 3 word;
      funct3 = get 13 3 word;
    })

  unfoldable pub unpack_ca : ℕ → Option RiscvCaTypeInstruction
  unpack_ca word = do
    opcode ← compressed_from_primitive (get 0 2 word)
    some (record {
      opcode = opcode;
      compressed_rs2 = get 2 3 word;
      funct2 = get 5 2 word;
      compressed_rd_rs1 = get 7 3 word;
      funct6 = get 10 6 word;
    })

  unfoldable pub unpack_cb : ℕ → Option RiscvCbTypeInstruction
  unpack_cb word = do
    opcode ← compressed_from_primitive (get 0 2 word)
    some (record {
      opcode = opcode;
      imm_part1 = get 2 5 word;
      compressed_rd_rs1 = get 7 3 word;
      imm_part2 = get 10 3 word;
      funct3 = get 13 3 word;
    })

  unfoldable pub unpack_cj : ℕ → Option RiscvCjTypeInstruction
  unpack_cj word = do
    opcode ← compressed_from_primitive (get 0 2 word)
    some (record {
      opcode = opcode;
      imm_bit5 = get 2 1 word;
      imm_3_1 = get 3 3 word;
      imm_bit7 = get 6 1 word;
      imm_bit6 = get 7 1 word;
      imm_bit10 = get 8 1 word;
      imm_9_8 = get 9 2 word;
      imm_bit4 = get 11 1 word;
      imm_bit11 = get 12 1 word;
      funct3 = get 13 3 word;
    })

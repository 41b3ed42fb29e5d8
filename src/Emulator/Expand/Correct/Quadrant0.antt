-- ===== src/Emulator/Expand/Correct/Quadrant0.antt =====
-- The compressed instructions of quadrant 0, through `tick` of kernel/src/emulator.rs.
use ron.Base.{ℕ, ◌/◌, ◌%◌, ◌^◌, ◌≡◌, some, arith, refl}
use ron.Emulator.PackedStruct.{PackedStruct}
use ron.Emulator.Opcode.{compressed_type}
use ron.Emulator.Compressed.Immediates.{
  parse_ciw_imm, parse_ciw_imm_of, parse_cl_imm, parse_cl_imm_of, parse_cs_imm, parse_cs_imm_of,
}
use ron.Emulator.Expand.{expand, expand_ciw, expand_cl, expand_cs}
use ron.Emulator.Expand.Decode.{expand-ciw, expand-cl, expand-cs}
use ron.Emulator.Expand.Tables
use ron.Emulator.Expand.Manual.{
  CompressedInstruction, Encodable, encode, expansion, c_addi4spn, c_ld, c_lw, c_sd, c_sw, ciw, cl,
  cs, spn_imm, word_lo,
}

module _ ⦃ps : PackedStruct⦄ (w : ℕ) where
  abbrev Expands : CompressedInstruction → Type 0
  Expands i = Encodable i → w % 2 ^ 16 ≡ encode i → expand w ≡ some (expansion i)

  pub spn : (rd u : ℕ) → Expands (c_addi4spn rd u)
  unfolding encode expansion compressed_type expand_ciw parse_ciw_imm parse_ciw_imm_of
  spn rd u (hd, hu) e = rw (
    expand-ciw w (ciw rd (spn_imm u)) e
        (record { compressed_rd = hd; imm = ground arith; funct3 = omega arith }) refl,
    Tables.spn u hu,
  )

  pub lw : (rd rs1 u : ℕ) → Expands (c_lw rd rs1 u)
  unfolding encode expansion compressed_type expand_cl parse_cl_imm parse_cl_imm_of
  lw rd rs1 u (hd, hs, hu) e = rw (
    expand-cl w (cl 0b010 rd rs1 (u / 2 % 8) (word_lo u)) e
        (record {
          compressed_rd = hd;
          compressed_rs1 = hs;
          imm_part1 = ground arith;
          imm_part2 = ground arith;
          funct3 = omega arith;
        })
        refl,
    Tables.word_offset_lem u hu,
  )

  pub ld : (rd rs1 u : ℕ) → Expands (c_ld rd rs1 u)
  unfolding encode expansion compressed_type expand_cl parse_cl_imm parse_cl_imm_of
  ld rd rs1 u (hd, hs, hu) e = rw (
    expand-cl w (cl 0b011 rd rs1 (u % 8) (u / 8)) e
        (record {
          compressed_rd = hd;
          compressed_rs1 = hs;
          imm_part1 = ground arith;
          imm_part2 = ground arith;
          funct3 = omega arith;
        })
        refl,
    Tables.double_offset_lem u hu,
  )

  pub sw : (rs1 rs2 u : ℕ) → Expands (c_sw rs1 rs2 u)
  unfolding encode expansion compressed_type expand_cs parse_cs_imm parse_cs_imm_of
  sw rs1 rs2 u (hs, ht, hu) e = rw (
    expand-cs w (cs 0b110 rs1 rs2 (u / 2 % 8) (word_lo u)) e
        (record {
          compressed_rs2 = ht;
          compressed_rs1 = hs;
          imm_part1 = ground arith;
          imm_part2 = ground arith;
          funct3 = omega arith;
        })
        refl,
    Tables.word_offset_lem u hu,
  )

  pub sd : (rs1 rs2 u : ℕ) → Expands (c_sd rs1 rs2 u)
  unfolding encode expansion compressed_type expand_cs parse_cs_imm parse_cs_imm_of
  sd rs1 rs2 u (hs, ht, hu) e = rw (
    expand-cs w (cs 0b111 rs1 rs2 (u % 8) (u / 8)) e
        (record {
          compressed_rs2 = ht;
          compressed_rs1 = hs;
          imm_part1 = ground arith;
          imm_part2 = ground arith;
          funct3 = omega arith;
        })
        refl,
    Tables.double_offset_lem u hu,
  )

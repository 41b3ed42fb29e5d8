-- ===== src/Emulator/Expand/Correct/Quadrant1.antt =====
-- The compressed instructions of quadrant 1, through `tick` of kernel/src/emulator.rs.
use ron.Base.{ℕ, ◌+◌, ◌*◌, ◌/◌, ◌%◌, ◌^◌, ◌≡◌, some, arith, refl, ==_neq}
use ron.Emulator.PackedStruct.{PackedStruct}
use ron.Emulator.Opcode.{compressed_type, c1}
use ron.Emulator.Compressed.Immediates.{
  parse_cb_imm, parse_cb_imm_of, parse_cb_funct2, parse_ci_imm, parse_ci_imm_of, parse_cj_imm,
  parse_cj_imm_of,
}
use ron.Emulator.Expand.{expand, expand_cb, expand_ci, expand_cj, expand_ca}
use ron.Emulator.Expand.Decode.{expand-cb, expand-ci, expand-cj, expand-ca}
use ron.Emulator.Expand.Tables
use ron.Emulator.Expand.Manual.{
  CompressedInstruction, Encodable, encode, expansion, CaOperation, addi16sp_lo, branch_hi,
  branch_lo, c_addi, c_addi16sp, c_addiw, c_addw, c_and, c_andi, c_arithmetic, c_beqz, c_bnez, c_j,
  c_li, c_lui, c_or, c_srai, c_srli, c_sub, c_subw, c_xor, ca_fields, cb, ci, cj,
}

module _ ⦃ps : PackedStruct⦄ (w : ℕ) where
  abbrev Expands : CompressedInstruction → Type 0
  Expands i = Encodable i → w % 2 ^ 16 ≡ encode i → expand w ≡ some (expansion i)

  pub addi : (rd i : ℕ) → Expands (c_addi rd i)
  unfolding encode expansion compressed_type expand_ci parse_ci_imm parse_ci_imm_of
  addi rd i (hd, hi) e = rw (
    expand-ci w (ci c1 0b000 rd (i / 32) (i % 32)) e
        (record {
          rd_rs1 = hd;
          imm_part1 = ground arith;
          imm_part2 = ground arith;
          funct3 = omega arith;
        })
        refl,
    Tables.signed6 i hi,
  )

  pub addiw : (rd i : ℕ) → Expands (c_addiw rd i)
  unfolding encode expansion compressed_type expand_ci parse_ci_imm parse_ci_imm_of
  addiw rd i (hd, hi) e = rw (
    expand-ci w (ci c1 0b001 rd (i / 32) (i % 32)) e
        (record {
          rd_rs1 = hd;
          imm_part1 = ground arith;
          imm_part2 = ground arith;
          funct3 = omega arith;
        })
        refl,
    Tables.signed6 i hi,
  )

  pub li : (rd i : ℕ) → Expands (c_li rd i)
  unfolding encode expansion compressed_type expand_ci parse_ci_imm parse_ci_imm_of
  li rd i (hd, hi) e = rw (
    expand-ci w (ci c1 0b010 rd (i / 32) (i % 32)) e
        (record {
          rd_rs1 = hd;
          imm_part1 = ground arith;
          imm_part2 = ground arith;
          funct3 = omega arith;
        })
        refl,
    Tables.signed6 i hi,
  )

  pub lui : (rd i : ℕ) → Expands (c_lui rd i)
  unfolding encode expansion compressed_type expand_ci parse_ci_imm parse_ci_imm_of
  lui rd i (hd, hi, n) e = rw (
    expand-ci w (ci c1 0b011 rd (i / 32) (i % 32)) e
        (record {
          rd_rs1 = hd;
          imm_part1 = ground arith;
          imm_part2 = ground arith;
          funct3 = omega arith;
        })
        refl,
    ==_neq rd 2 n,
    Tables.signed6 i hi,
    Tables.upper6 i hi,
  )

  pub addi16sp : (i : ℕ) → Expands (c_addi16sp i)
  unfolding encode expansion compressed_type expand_ci parse_ci_imm parse_ci_imm_of
  addi16sp i hi e = rw (
    expand-ci w (ci c1 0b011 2 (i / 32) (addi16sp_lo i)) e
        (record {
          rd_rs1 = omega arith;
          imm_part1 = ground arith;
          imm_part2 = ground arith;
          funct3 = omega arith;
        })
        refl,
    Tables.addi16sp i hi,
  )

  pub srli : (rd i : ℕ) → Expands (c_srli rd i)
  unfolding encode expansion compressed_type expand_cb parse_cb_imm parse_cb_imm_of parse_cb_funct2
  srli rd i (hd, hi) e = rw (
    expand-cb w (cb 0b100 rd (i / 32 * 4 + 0b00) (i % 32)) e
        (record {
          compressed_rd_rs1 = hd;
          imm_part1 = ground arith;
          imm_part2 = ground arith;
          funct3 = omega arith;
        })
        (rw (Tables.low2 (i / 32) 0 (omega arith))),
    Tables.funct2_lem (i / 32) 0 (omega arith),
    Tables.srli6 i hi,
  )

  pub srai : (rd i : ℕ) → Expands (c_srai rd i)
  unfolding encode expansion compressed_type expand_cb parse_cb_imm parse_cb_imm_of parse_cb_funct2
  srai rd i (hd, hi) e = rw (
    expand-cb w (cb 0b100 rd (i / 32 * 4 + 0b01) (i % 32)) e
        (record {
          compressed_rd_rs1 = hd;
          imm_part1 = ground arith;
          imm_part2 = ground arith;
          funct3 = omega arith;
        })
        (rw (Tables.low2 (i / 32) 1 (omega arith))),
    Tables.funct2_lem (i / 32) 1 (omega arith),
    Tables.srai6 i hi,
  )

  pub andi : (rd i : ℕ) → Expands (c_andi rd i)
  unfolding encode expansion compressed_type expand_cb parse_cb_imm parse_cb_imm_of parse_cb_funct2
  andi rd i (hd, hi) e = rw (
    expand-cb w (cb 0b100 rd (i / 32 * 4 + 0b10) (i % 32)) e
        (record {
          compressed_rd_rs1 = hd;
          imm_part1 = ground arith;
          imm_part2 = ground arith;
          funct3 = omega arith;
        })
        (rw (Tables.low2 (i / 32) 2 (omega arith))),
    Tables.funct2_lem (i / 32) 2 (omega arith),
    Tables.andi6 i hi,
  )

  pub beqz : (rs1 u : ℕ) → Expands (c_beqz rs1 u)
  unfolding encode expansion compressed_type expand_cb parse_cb_imm parse_cb_imm_of parse_cb_funct2
  beqz rs1 u (hs, hu) e = rw (
    expand-cb w (cb 0b110 rs1 (branch_hi u) (branch_lo u)) e
        (record {
          compressed_rd_rs1 = hs;
          imm_part1 = ground arith;
          imm_part2 = ground arith;
          funct3 = omega arith;
        })
        refl,
    Tables.branch_offset u hu,
  )

  pub bnez : (rs1 u : ℕ) → Expands (c_bnez rs1 u)
  unfolding encode expansion compressed_type expand_cb parse_cb_imm parse_cb_imm_of parse_cb_funct2
  bnez rs1 u (hs, hu) e = rw (
    expand-cb w (cb 0b111 rs1 (branch_hi u) (branch_lo u)) e
        (record {
          compressed_rd_rs1 = hs;
          imm_part1 = ground arith;
          imm_part2 = ground arith;
          funct3 = omega arith;
        })
        refl,
    Tables.branch_offset u hu,
  )

  pub j : (u : ℕ) → Expands (c_j u)
  unfolding encode expansion compressed_type expand_cj parse_cj_imm parse_cj_imm_of
  j u hu e = rw (
    expand-cj w (cj u) e
        (record {
          imm_bit5 = ground arith;
          imm_3_1 = ground arith;
          imm_bit7 = ground arith;
          imm_bit6 = ground arith;
          imm_bit10 = ground arith;
          imm_9_8 = ground arith;
          imm_bit4 = ground arith;
          imm_bit11 = ground arith;
          funct3 = ground arith;
        })
        refl,
    Tables.jump_offset u hu,
  )

  pub arithmetic : (o : CaOperation) (rd rs2 : ℕ) → Expands (c_arithmetic o rd rs2)
  unfolding encode expansion compressed_type expand_ca
  arithmetic c_and rd rs2 (hd, ht) e = rw (
      expand-ca w (ca_fields c_and rd rs2) e
        (record {
          compressed_rd_rs1 = hd;
          compressed_rs2 = ht;
          funct2 = omega arith;
          funct6 = omega arith;
        })
        refl)
  arithmetic c_or rd rs2 (hd, ht) e = rw (
      expand-ca w (ca_fields c_or rd rs2) e
        (record {
          compressed_rd_rs1 = hd;
          compressed_rs2 = ht;
          funct2 = omega arith;
          funct6 = omega arith;
        })
        refl)
  arithmetic c_xor rd rs2 (hd, ht) e = rw (
      expand-ca w (ca_fields c_xor rd rs2) e
        (record {
          compressed_rd_rs1 = hd;
          compressed_rs2 = ht;
          funct2 = omega arith;
          funct6 = omega arith;
        })
        refl)
  arithmetic c_sub rd rs2 (hd, ht) e = rw (
      expand-ca w (ca_fields c_sub rd rs2) e
        (record {
          compressed_rd_rs1 = hd;
          compressed_rs2 = ht;
          funct2 = omega arith;
          funct6 = omega arith;
        })
        refl)
  arithmetic c_addw rd rs2 (hd, ht) e = rw (
      expand-ca w (ca_fields c_addw rd rs2) e
        (record {
          compressed_rd_rs1 = hd;
          compressed_rs2 = ht;
          funct2 = omega arith;
          funct6 = omega arith;
        })
        refl)
  arithmetic c_subw rd rs2 (hd, ht) e = rw (
      expand-ca w (ca_fields c_subw rd rs2) e
        (record {
          compressed_rd_rs1 = hd;
          compressed_rs2 = ht;
          funct2 = omega arith;
          funct6 = omega arith;
        })
        refl)

-- ===== src/Emulator/Expand/Correct/Quadrant2.antt =====
-- The compressed instructions of quadrant 2, through `tick` of kernel/src/emulator.rs.
use ron.Base.{ℕ, ◌/◌, ◌%◌, ◌^◌, ◌≡◌, some, arith, refl, ==_neq}
use ron.Emulator.PackedStruct.{PackedStruct}
use ron.Emulator.Opcode.{compressed_type, c2}
use ron.Emulator.Compressed.Immediates.{
  parse_ci_imm, parse_ci_imm_of, parse_css_imm, parse_css_imm_of,
}
use ron.Emulator.Expand.{expand, expand_ci, expand_cr, expand_css}
use ron.Emulator.Expand.Decode.{expand-ci, expand-cr, expand-css}
use ron.Emulator.Expand.Tables
use ron.Emulator.Expand.Manual.{
  CompressedInstruction, Encodable, encode, expansion, c_add, c_ebreak, c_jalr, c_jr, c_ldsp,
  c_lwsp, c_mv, c_sdsp, c_slli, c_swsp, ci, cr, css, ldsp_lo, lwsp_lo, sdsp_imm, swsp_imm,
}

module _ ⦃ps : PackedStruct⦄ (w : ℕ) where
  abbrev Expands : CompressedInstruction → Type 0
  Expands i = Encodable i → w % 2 ^ 16 ≡ encode i → expand w ≡ some (expansion i)

  pub slli : (rd i : ℕ) → Expands (c_slli rd i)
  unfolding encode expansion compressed_type expand_ci parse_ci_imm parse_ci_imm_of
  slli rd i (hd, hi) e = rw (
    expand-ci w (ci c2 0b000 rd (i / 32) (i % 32)) e
        (record {
          rd_rs1 = hd;
          imm_part1 = ground arith;
          imm_part2 = ground arith;
          funct3 = omega arith;
        })
        refl,
    Tables.shift6 i hi,
  )

  pub lwsp : (rd u : ℕ) → Expands (c_lwsp rd u)
  unfolding encode expansion compressed_type expand_ci parse_ci_imm parse_ci_imm_of
  lwsp rd u (hd, hu) e = rw (
    expand-ci w (ci c2 0b010 rd (u / 8 % 2) (lwsp_lo u)) e
        (record {
          rd_rs1 = hd;
          imm_part1 = ground arith;
          imm_part2 = ground arith;
          funct3 = omega arith;
        })
        refl,
    Tables.lwsp u hu,
  )

  pub ldsp : (rd u : ℕ) → Expands (c_ldsp rd u)
  unfolding encode expansion compressed_type expand_ci parse_ci_imm parse_ci_imm_of
  ldsp rd u (hd, hu) e = rw (
    expand-ci w (ci c2 0b011 rd (u / 4 % 2) (ldsp_lo u)) e
        (record {
          rd_rs1 = hd;
          imm_part1 = ground arith;
          imm_part2 = ground arith;
          funct3 = omega arith;
        })
        refl,
    Tables.ldsp u hu,
  )

  pub swsp : (rs2 u : ℕ) → Expands (c_swsp rs2 u)
  unfolding encode expansion compressed_type expand_css parse_css_imm parse_css_imm_of
  swsp rs2 u (ht, hu) e = rw (
    expand-css w (css 0b110 rs2 (swsp_imm u)) e
        (record { rs2 = ht; imm = ground arith; funct3 = omega arith }) refl,
    Tables.swsp u hu,
  )

  pub sdsp : (rs2 u : ℕ) → Expands (c_sdsp rs2 u)
  unfolding encode expansion compressed_type expand_css parse_css_imm parse_css_imm_of
  sdsp rs2 u (ht, hu) e = rw (
    expand-css w (css 0b111 rs2 (sdsp_imm u)) e
        (record { rs2 = ht; imm = ground arith; funct3 = omega arith }) refl,
    Tables.sdsp u hu,
  )

  pub jr : (rs1 : ℕ) → Expands (c_jr rs1)
  unfolding encode expansion compressed_type expand_cr
  jr rs1 hs e = rw (
      expand-cr w (cr 0b1000 rs1 0) e
        (record { rs2 = omega arith; rd_rs1 = hs; funct4 = omega arith }) refl)

  pub jalr : (rs1 : ℕ) → Expands (c_jalr rs1)
  unfolding encode expansion compressed_type expand_cr
  jalr rs1 (hs, n) e = rw (
    expand-cr w (cr 0b1001 rs1 0) e
        (record { rs2 = omega arith; rd_rs1 = hs; funct4 = omega arith }) refl,
    ==_neq rs1 0 n,
  )

  pub mv : (rd rs2 : ℕ) → Expands (c_mv rd rs2)
  unfolding encode expansion compressed_type expand_cr
  mv rd rs2 (hd, ht, n) e = rw (
    expand-cr w (cr 0b1000 rd rs2) e (record { rs2 = ht; rd_rs1 = hd; funct4 = omega arith }) refl,
    ==_neq rs2 0 n,
  )

  pub add : (rd rs2 : ℕ) → Expands (c_add rd rs2)
  unfolding encode expansion compressed_type expand_cr
  add rd rs2 (hd, ht, n) e = rw (
    expand-cr w (cr 0b1001 rd rs2) e (record { rs2 = ht; rd_rs1 = hd; funct4 = omega arith }) refl,
    ==_neq rs2 0 n,
  )

  pub ebreak : Expands c_ebreak
  unfolding encode expansion compressed_type expand_cr
  ebreak h e = rw (
      expand-cr w (cr 0b1001 0 0) e
        (record { rs2 = omega arith; rd_rs1 = omega arith; funct4 = omega arith }) refl)

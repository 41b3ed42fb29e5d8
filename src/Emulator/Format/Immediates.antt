-- ===== src/Emulator/Format/Immediates.antt =====
-- The immediates that `from` takes apart and `parse_imm` puts together in kernel/src/emulator.rs.
use ron.Base.{ℕ, ◌*◌, ◌/◌, ◌%◌, ◌^◌, ◌<◌, ◌≡◌, arith}
use ron.Base.Bits.{bit_and_mask, bit_or_fields}
use ron.Emulator.Sign.{widened, sign_fill-12, sign_fill-13, sign_fill-21}
use ron.Emulator.Opcode.{RiscvOpcode}
use ron.Emulator.Format.{
  new_stype, new_btype, new_jtype, new_utype, parse_stype_imm, parse_btype_imm, parse_jtype_imm,
  parse_utype_imm,
}

module _ (o : RiscvOpcode) (imm : ℕ) where
  pub parse-new_stype :
      (funct3 rs1 rs2 : ℕ)
      → parse_stype_imm (new_stype o funct3 rs1 rs2 imm) ≡ widened 12 32 (imm % 2 ^ 12)
  unfolding parse_stype_imm new_stype
  parse-new_stype funct3 rs1 rs2 = ground (
    arith,
    bit_and_mask 5 (imm / 1),
    bit_and_mask 7 (imm / 32),
    bit_or_fields 5 (imm / 32 % 128) (imm % 32) (omega arith),
    sign_fill-12 (imm % 4096) (omega arith),
  )

  pub parse-new_btype :
      (funct3 rs1 rs2 : ℕ)
      → parse_btype_imm (new_btype o funct3 rs1 rs2 imm) ≡ widened 13 32 (imm / 2 % 2 ^ 12 * 2)
  unfolding parse_btype_imm new_btype
  parse-new_btype funct3 rs1 rs2 = ground (
    arith,
    bit_and_mask 1 (imm / 2048),
    bit_and_mask 4 (imm / 2),
    bit_and_mask 6 (imm / 32),
    bit_and_mask 1 (imm / 4096),
    bit_or_fields 5 (imm / 32 % 64) (imm / 2 % 16 * 2) (omega arith),
    bit_or_fields 11 (imm / 2048 % 2) (imm / 2 % 1024 * 2) (omega arith),
    bit_or_fields 12 (imm / 4096 % 2) (imm / 2 % 2048 * 2) (omega arith),
    sign_fill-13 (imm / 2 % 4096 * 2) (omega arith),
  )

  pub parse-new_jtype :
      (rd : ℕ) → parse_jtype_imm (new_jtype o rd imm) ≡ widened 21 32 (imm / 2 % 2 ^ 20 * 2)
  unfolding parse_jtype_imm new_jtype
  parse-new_jtype rd = ground (
    arith,
    bit_and_mask 8 (imm / 4096),
    bit_and_mask 1 (imm / 2048),
    bit_and_mask 10 (imm / 2),
    bit_and_mask 1 (imm / 1048576),
    bit_or_fields 11 (imm / 2048 % 2) (imm / 2 % 1024 * 2) (omega arith),
    bit_or_fields 12 (imm / 4096 % 256) (imm / 2 % 2048 * 2) (omega arith),
    bit_or_fields 20 (imm / 1048576 % 2) (imm / 2 % 524288 * 2) (omega arith),
    sign_fill-21 (imm / 2 % 1048576 * 2) (omega arith),
  )

  pub parse-new_utype :
      (rd : ℕ) → imm < 2 ^ 32 → parse_utype_imm (new_utype o rd imm) ≡ imm / 2 ^ 12 * 2 ^ 12
  unfolding parse_utype_imm new_utype
  parse-new_utype rd h = omega arith

  -- For an immediate of 32 bits, the immediate of an S-type instruction made from it is its low 12
  -- bits, sign-extended, that of a B-type one its low 13 bits without the lowest, sign-extended,
  -- that of a J-type one its low 21 bits without the lowest, sign-extended, and that of a U-type
  -- one the immediate with its low 12 bits cleared.
  pub parse-new :
      (funct3 rs1 rs2 rd : ℕ)
      → imm < 2 ^ 32
      → (parse_stype_imm (new_stype o funct3 rs1 rs2 imm) ≡ widened 12 32 (imm % 2 ^ 12))
        × (parse_btype_imm (new_btype o funct3 rs1 rs2 imm) ≡ widened 13 32 (imm / 2 % 2 ^ 12 * 2))
        × (parse_jtype_imm (new_jtype o rd imm) ≡ widened 21 32 (imm / 2 % 2 ^ 20 * 2))
        × (parse_utype_imm (new_utype o rd imm) ≡ imm / 2 ^ 12 * 2 ^ 12)
  parse-new funct3 rs1 rs2 rd h = (
    parse-new_stype funct3 rs1 rs2,
    parse-new_btype funct3 rs1 rs2,
    parse-new_jtype rd,
    parse-new_utype rd h,
  )

-- ===== src/Emulator/Compressed/Immediates.antt =====
-- The `parse_imm` methods of the compressed formats in kernel/src/emulator.rs, by quadrant.
use ron.Base.{ℕ, ◌-◌, ◌*◌, ◌/◌, ◌%◌, ◌^◌, bit_and, bit_or, Option, none, some, ◌==◌, if◌then◌else◌}
use ron.Emulator.Sign.{sign_extend}
use ron.Emulator.Opcode.{RiscvCompressedOpcode, c0, c1, c2}
use ron.Emulator.Format.{shl32}
use ron.Emulator.Compressed.Fields.{
  RiscvCiTypeInstruction, RiscvCssTypeInstruction, RiscvCiwTypeInstruction, RiscvClTypeInstruction,
  RiscvCsTypeInstruction, RiscvCbTypeInstruction, RiscvCjTypeInstruction,
}

-- `x << k` on a u8 and on a u16.
abbrev pub shl8 : ℕ → ℕ → ℕ
shl8 x k = x * 2 ^ k % 2 ^ 8

abbrev pub shl16 : ℕ → ℕ → ℕ
shl16 x k = x * 2 ^ k % 2 ^ 16

-- The six bits of a CI-type immediate, the sign three times on top, as a u8.
abbrev pub ci_signed6 : RiscvCiTypeInstruction → ℕ
ci_signed6 i =
    bit_or (bit_or (bit_or (shl8 i.imm_part2 7) (shl8 i.imm_part2 6)) (shl8 i.imm_part2 5))
      i.imm_part1

-- The immediate of C.ADDI16SP.
abbrev pub ci_addi16sp_imm : RiscvCiTypeInstruction → ℕ
ci_addi16sp_imm i =
    let non_sign_extended_imm =
      bit_or
        (bit_or
          (bit_or
            (bit_or (shl32 (bit_and i.imm_part2 1) 9)
              (shl32 (bit_and (i.imm_part1 / 2 ^ 1) 0b11) 7))
            (shl32 (bit_and (i.imm_part1 / 2 ^ 3) 1) 6))
          (shl32 (bit_and i.imm_part1 0b1) 5))
        (bit_and i.imm_part1 0b10000) in
    let all_ones : ℕ = 0b11_1111_1111 in
    if bit_and i.imm_part2 1 == 0
    then bit_and non_sign_extended_imm all_ones
    else bit_or non_sign_extended_imm (2 ^ 32 - 1 - all_ones)

-- `RiscvCiTypeInstruction::parse_imm`, by quadrant.
unfoldable pub parse_ci_imm_of : RiscvCompressedOpcode → RiscvCiTypeInstruction → Option ℕ
parse_ci_imm_of c0 i = none
parse_ci_imm_of c1 i =
    if i.funct3 == 0b010
    then some (sign_extend 8 32 (ci_signed6 i))
    else if i.funct3 == 0b000
    then some (sign_extend 8 32 (ci_signed6 i))
    else if i.funct3 == 0b001
    then some (sign_extend 8 32 (ci_signed6 i))
    else if i.funct3 == 0b011
    then (if i.rd_rs1 == 2
        then some (ci_addi16sp_imm i)
        else some (shl32 (sign_extend 8 32 (ci_signed6 i)) 12))
    else none
parse_ci_imm_of c2 i =
    if i.funct3 == 0b000
    then some (bit_or (shl32 (bit_and i.imm_part2 1) 5) i.imm_part1)
    else if i.funct3 == 0b010
    then some (
        bit_or (bit_or (shl32 (bit_and i.imm_part1 0b11) 6) (shl32 i.imm_part2 5))
          (bit_and i.imm_part1 0b11100))
    else if i.funct3 == 0b011
    then some (
        bit_or (bit_or (shl32 (bit_and i.imm_part1 0b111) 6) (shl32 i.imm_part2 5))
          (bit_and i.imm_part1 0b11000))
    else none

unfoldable pub parse_ci_imm : RiscvCiTypeInstruction → Option ℕ
unfolding parse_ci_imm_of
parse_ci_imm i = parse_ci_imm_of i.opcode i

unfoldable pub parse_css_imm_of : RiscvCompressedOpcode → RiscvCssTypeInstruction → Option ℕ
parse_css_imm_of c0 i = none
parse_css_imm_of c1 i = none
parse_css_imm_of c2 i =
    if i.funct3 == 0b110
    then some (bit_or (bit_and i.imm 0b111100) (shl32 (bit_and i.imm 0b11) 6))
    else if i.funct3 == 0b111
    then some (bit_or (bit_and i.imm 0b111000) (shl32 (bit_and i.imm 0b111) 6))
    else none

unfoldable pub parse_css_imm : RiscvCssTypeInstruction → Option ℕ
unfolding parse_css_imm_of
parse_css_imm i = parse_css_imm_of i.opcode i

unfoldable pub parse_ciw_imm_of : RiscvCompressedOpcode → RiscvCiwTypeInstruction → Option ℕ
parse_ciw_imm_of c0 i =
    if i.funct3 == 0b000
    then some (
        bit_or
          (bit_or
            (bit_or (shl32 (bit_and (i.imm / 2 ^ 2) 0b1111) 6)
              (shl32 (bit_and (i.imm / 2 ^ 6) 0b11) 4))
            (shl32 (bit_and (i.imm / 2 ^ 0) 1) 3))
          (shl32 (bit_and (i.imm / 2 ^ 1) 1) 2))
    else none
parse_ciw_imm_of c1 i = none
parse_ciw_imm_of c2 i = none

unfoldable pub parse_ciw_imm : RiscvCiwTypeInstruction → Option ℕ
unfolding parse_ciw_imm_of
parse_ciw_imm i = parse_ciw_imm_of i.opcode i

-- The scaled offsets of C.LW and C.SW, and of C.LD and C.SD, from the two parts of the field.
abbrev pub word_offset : (imm_part1 imm_part2 : ℕ) → ℕ
word_offset imm_part1 imm_part2 =
    bit_or (bit_or (shl32 (bit_and (imm_part1 / 2 ^ 0) 1) 6) (shl32 imm_part2 3))
      (shl32 (bit_and (imm_part1 / 2 ^ 1) 1) 2)

abbrev pub double_offset : (imm_part1 imm_part2 : ℕ) → ℕ
double_offset imm_part1 imm_part2 =
    bit_or
      (bit_or (shl32 (bit_and (imm_part1 / 2 ^ 1) 1) 7) (shl32 (bit_and (imm_part1 / 2 ^ 0) 1) 6))
      (shl32 imm_part2 3)

unfoldable pub parse_cl_imm_of : RiscvCompressedOpcode → RiscvClTypeInstruction → Option ℕ
parse_cl_imm_of c0 i =
    if i.funct3 == 0b010
    then some (word_offset i.imm_part1 i.imm_part2)
    else if i.funct3 == 0b011
    then some (double_offset i.imm_part1 i.imm_part2)
    else none
parse_cl_imm_of c1 i = none
parse_cl_imm_of c2 i = none

unfoldable pub parse_cl_imm : RiscvClTypeInstruction → Option ℕ
unfolding parse_cl_imm_of
parse_cl_imm i = parse_cl_imm_of i.opcode i

unfoldable pub parse_cs_imm_of : RiscvCompressedOpcode → RiscvCsTypeInstruction → Option ℕ
parse_cs_imm_of c0 i =
    if i.funct3 == 0b110
    then some (word_offset i.imm_part1 i.imm_part2)
    else if i.funct3 == 0b111
    then some (double_offset i.imm_part1 i.imm_part2)
    else none
parse_cs_imm_of c1 i = none
parse_cs_imm_of c2 i = none

unfoldable pub parse_cs_imm : RiscvCsTypeInstruction → Option ℕ
unfolding parse_cs_imm_of
parse_cs_imm i = parse_cs_imm_of i.opcode i

unfoldable pub parse_cb_funct2 : RiscvCbTypeInstruction → ℕ
parse_cb_funct2 i = bit_and i.imm_part2 0b11

-- The offset of C.BEQZ and C.BNEZ.
abbrev pub cb_branch_imm : RiscvCbTypeInstruction → ℕ
cb_branch_imm i =
    let non_sign_extended_imm =
      bit_or
        (bit_or
          (bit_or
            (bit_or (shl32 (bit_and (i.imm_part2 / 2 ^ 2) 1) 8)
              (shl32 (bit_and (i.imm_part1 / 2 ^ 3) 0b11) 6))
            (shl32 (bit_and i.imm_part1 1) 5))
          (shl32 (bit_and i.imm_part2 0b11) 3))
        (bit_and i.imm_part1 0b110) in
    let all_ones : ℕ = 0b1_1111_1111 in
    if bit_and (i.imm_part2 / 2 ^ 2) 1 == 1
    then bit_or non_sign_extended_imm (2 ^ 32 - 1 - all_ones)
    else bit_and non_sign_extended_imm all_ones

unfoldable pub parse_cb_imm_of : RiscvCompressedOpcode → RiscvCbTypeInstruction → Option ℕ
unfolding parse_cb_funct2
parse_cb_imm_of c0 i = none
parse_cb_imm_of c1 i =
    if i.funct3 == 0b110
    then some (cb_branch_imm i)
    else if i.funct3 == 0b111
    then some (cb_branch_imm i)
    else if i.funct3 == 0b100
    then (if parse_cb_funct2 i == 0b10
        then some (
            sign_extend 8 32 (
              bit_or
                (bit_or (bit_or (shl8 (i.imm_part2 / 2 ^ 2) 7) (shl8 (i.imm_part2 / 2 ^ 2) 6))
                  (shl8 (i.imm_part2 / 2 ^ 2) 5))
                i.imm_part1))
        else some (bit_or (shl32 (i.imm_part2 / 2 ^ 2) 5) i.imm_part1))
    else none
parse_cb_imm_of c2 i = none

unfoldable pub parse_cb_imm : RiscvCbTypeInstruction → Option ℕ
unfolding parse_cb_imm_of
parse_cb_imm i = parse_cb_imm_of i.opcode i

-- The twelve bits of a CJ-type offset, the sign five times on top, as a u16.
abbrev pub cj_offset : RiscvCjTypeInstruction → ℕ
cj_offset i =
    let sign =
      bit_or
        (bit_or
          (bit_or (bit_or (shl16 i.imm_bit11 15) (shl16 i.imm_bit11 14)) (shl16 i.imm_bit11 13))
          (shl16 i.imm_bit11 12))
        (shl16 i.imm_bit11 11) in
    bit_or
      (bit_or
        (bit_or
          (bit_or
            (bit_or (bit_or (bit_or sign (shl16 i.imm_bit10 10)) (shl16 i.imm_9_8 8))
              (shl16 i.imm_bit7 7))
            (shl16 i.imm_bit6 6))
          (shl16 i.imm_bit5 5))
        (shl16 i.imm_bit4 4))
      (shl16 i.imm_3_1 1)

unfoldable pub parse_cj_imm_of : RiscvCompressedOpcode → RiscvCjTypeInstruction → Option ℕ
parse_cj_imm_of c0 i = none
parse_cj_imm_of c1 i = if i.funct3 == 0b101 then some (sign_extend 16 32 (cj_offset i)) else none
parse_cj_imm_of c2 i = none

unfoldable pub parse_cj_imm : RiscvCjTypeInstruction → Option ℕ
unfolding parse_cj_imm_of
parse_cj_imm i = parse_cj_imm_of i.opcode i

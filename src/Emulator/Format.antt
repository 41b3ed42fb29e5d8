-- ===== src/Emulator/Format.antt =====
-- The 32-bit instruction formats of kernel/src/emulator.rs: their fields, `unpack`, `pack`, `from`
-- and `parse_imm`.
pub mod RoundTrip
pub mod Immediates
use ron.Base.{ℕ, ◌+◌, ◌*◌, ◌/◌, ◌%◌, ◌^◌, bit_and, bit_or, Option, some}
use ron.Base.Options.{◌>>=◌}
use ron.Emulator.Sign.{sign_fill}
use ron.Emulator.PackedStruct.{PackedStruct}
use ron.Emulator.Opcode.{RiscvOpcode, from_primitive, to_primitive}

-- `x << k` on a u32.
abbrev pub shl32 : ℕ → ℕ → ℕ
shl32 x k = x * 2 ^ k % 2 ^ 32

pub record RiscvRTypeInstruction : Type 0 where
  pub opcode : RiscvOpcode
  pub rd : ℕ
  pub funct3 : ℕ
  pub rs1 : ℕ
  pub rs2 : ℕ
  pub funct7 : ℕ

pub record RiscvITypeInstruction : Type 0 where
  pub opcode : RiscvOpcode
  pub rd : ℕ
  pub funct3 : ℕ
  pub rs1 : ℕ
  pub imm : ℕ

pub record RiscvSTypeInstruction : Type 0 where
  pub opcode : RiscvOpcode
  pub imm_low5 : ℕ
  pub funct3 : ℕ
  pub rs1 : ℕ
  pub rs2 : ℕ
  pub imm_hi7 : ℕ

pub record RiscvBTypeInstruction : Type 0 where
  pub opcode : RiscvOpcode
  pub imm_bit11 : ℕ
  pub imm_bits_4_1 : ℕ
  pub funct3 : ℕ
  pub rs1 : ℕ
  pub rs2 : ℕ
  pub imm_bits_10_5 : ℕ
  pub imm_bit12 : ℕ

pub record RiscvUTypeInstruction : Type 0 where
  pub opcode : RiscvOpcode
  pub rd : ℕ
  pub imm : ℕ

pub record RiscvJTypeInstruction : Type 0 where
  pub opcode : RiscvOpcode
  pub rd : ℕ
  pub imm_bits_19_12 : ℕ
  pub imm_bit11 : ℕ
  pub imm_bits_10_1 : ℕ
  pub imm_bit20 : ℕ

-- `from`: the `imm` of an I-type instruction keeps the low 16 bits, and `pack` 12 of them.
unfoldable pub new_itype : RiscvOpcode → ℕ → ℕ → ℕ → ℕ → RiscvITypeInstruction
new_itype opcode rd funct3 rs1 imm = record {
  opcode = opcode;
  rd = rd;
  funct3 = funct3;
  rs1 = rs1;
  imm = imm % 2 ^ 16;
}

unfoldable pub new_stype : RiscvOpcode → ℕ → ℕ → ℕ → ℕ → RiscvSTypeInstruction
new_stype opcode funct3 rs1 rs2 imm = record {
  opcode = opcode;
  imm_low5 = bit_and (imm / 2 ^ 0) 0b1_1111;
  funct3 = funct3;
  rs1 = rs1;
  rs2 = rs2;
  imm_hi7 = bit_and (imm / 2 ^ 5) 0b111_1111;
}

unfoldable pub new_btype : RiscvOpcode → ℕ → ℕ → ℕ → ℕ → RiscvBTypeInstruction
new_btype opcode funct3 rs1 rs2 imm = record {
  opcode = opcode;
  imm_bit11 = bit_and (imm / 2 ^ 11) 1;
  imm_bits_4_1 = bit_and (imm / 2 ^ 1) 0b1111;
  funct3 = funct3;
  rs1 = rs1;
  rs2 = rs2;
  imm_bits_10_5 = bit_and (imm / 2 ^ 5) 0b1111_11;
  imm_bit12 = bit_and (imm / 2 ^ 12) 1;
}

unfoldable pub new_utype : RiscvOpcode → ℕ → ℕ → RiscvUTypeInstruction
new_utype opcode rd imm = record { opcode = opcode; rd = rd; imm = imm / 2 ^ 12 }

unfoldable pub new_jtype : RiscvOpcode → ℕ → ℕ → RiscvJTypeInstruction
new_jtype opcode rd imm = record {
  opcode = opcode;
  rd = rd;
  imm_bits_19_12 = bit_and (imm / 2 ^ 12) 0b1111_1111;
  imm_bit11 = bit_and (imm / 2 ^ 11) 0b1;
  imm_bits_10_1 = bit_and (imm / 2 ^ 1) 0b1111_1111_11;
  imm_bit20 = bit_and (imm / 2 ^ 20) 0b1;
}

unfoldable pub parse_itype_imm : RiscvITypeInstruction → ℕ
parse_itype_imm inst = sign_fill 12 inst.imm

unfoldable pub parse_stype_imm : RiscvSTypeInstruction → ℕ
parse_stype_imm inst = sign_fill 12 (bit_or inst.imm_low5 (shl32 inst.imm_hi7 5))

unfoldable pub parse_btype_imm : RiscvBTypeInstruction → ℕ
parse_btype_imm inst = sign_fill 13 (
    bit_or
      (bit_or (bit_or (shl32 inst.imm_bits_4_1 1) (shl32 inst.imm_bits_10_5 5))
        (shl32 inst.imm_bit11 11))
      (shl32 inst.imm_bit12 12))

unfoldable pub parse_utype_imm : RiscvUTypeInstruction → ℕ
parse_utype_imm inst = shl32 inst.imm 12

unfoldable pub parse_jtype_imm : RiscvJTypeInstruction → ℕ
parse_jtype_imm inst = sign_fill 21 (
    bit_or
      (bit_or (bit_or (shl32 inst.imm_bits_10_1 1) (shl32 inst.imm_bit11 11))
        (shl32 inst.imm_bits_19_12 12))
      (shl32 inst.imm_bit20 20))

module _ ⦃ps : PackedStruct⦄ where
  open ps use {get, put}

  unfoldable pub unpack_rtype : ℕ → Option RiscvRTypeInstruction
  unpack_rtype word = do
    opcode ← from_primitive (get 0 7 word)
    some (record {
      opcode = opcode;
      rd = get 7 5 word;
      funct3 = get 12 3 word;
      rs1 = get 15 5 word;
      rs2 = get 20 5 word;
      funct7 = get 25 7 word;
    })

  unfoldable pub unpack_itype : ℕ → Option RiscvITypeInstruction
  unpack_itype word = do
    opcode ← from_primitive (get 0 7 word)
    some (record {
      opcode = opcode;
      rd = get 7 5 word;
      funct3 = get 12 3 word;
      rs1 = get 15 5 word;
      imm = get 20 12 word;
    })

  unfoldable pub unpack_stype : ℕ → Option RiscvSTypeInstruction
  unpack_stype word = do
    opcode ← from_primitive (get 0 7 word)
    some (record {
      opcode = opcode;
      imm_low5 = get 7 5 word;
      funct3 = get 12 3 word;
      rs1 = get 15 5 word;
      rs2 = get 20 5 word;
      imm_hi7 = get 25 7 word;
    })

  unfoldable pub unpack_btype : ℕ → Option RiscvBTypeInstruction
  unpack_btype word = do
    opcode ← from_primitive (get 0 7 word)
    some (record {
      opcode = opcode;
      imm_bit11 = get 7 1 word;
      imm_bits_4_1 = get 8 4 word;
      funct3 = get 12 3 word;
      rs1 = get 15 5 word;
      rs2 = get 20 5 word;
      imm_bits_10_5 = get 25 6 word;
      imm_bit12 = get 31 1 word;
    })

  unfoldable pub unpack_utype : ℕ → Option RiscvUTypeInstruction
  unpack_utype word = do
    opcode ← from_primitive (get 0 7 word)
    some (record { opcode = opcode; rd = get 7 5 word; imm = get 12 20 word })

  unfoldable pub unpack_jtype : ℕ → Option RiscvJTypeInstruction
  unpack_jtype word = do
    opcode ← from_primitive (get 0 7 word)
    some (record {
      opcode = opcode;
      rd = get 7 5 word;
      imm_bits_19_12 = get 12 8 word;
      imm_bit11 = get 20 1 word;
      imm_bits_10_1 = get 21 10 word;
      imm_bit20 = get 31 1 word;
    })

  -- `pack` and `u32::from_msb_bytes`.
  unfoldable pub pack_rtype : RiscvRTypeInstruction → ℕ
  pack_rtype i =
      put 0 7 (to_primitive i.opcode)
      + put 7 5 i.rd
      + put 12 3 i.funct3
      + put 15 5 i.rs1
      + put 20 5 i.rs2
      + put 25 7 i.funct7

  unfoldable pub pack_itype : RiscvITypeInstruction → ℕ
  pack_itype i =
      put 0 7 (to_primitive i.opcode)
      + put 7 5 i.rd
      + put 12 3 i.funct3
      + put 15 5 i.rs1
      + put 20 12 i.imm

  unfoldable pub pack_stype : RiscvSTypeInstruction → ℕ
  pack_stype i =
      put 0 7 (to_primitive i.opcode)
      + put 7 5 i.imm_low5
      + put 12 3 i.funct3
      + put 15 5 i.rs1
      + put 20 5 i.rs2
      + put 25 7 i.imm_hi7

  unfoldable pub pack_btype : RiscvBTypeInstruction → ℕ
  pack_btype i =
      put 0 7 (to_primitive i.opcode)
      + put 7 1 i.imm_bit11
      + put 8 4 i.imm_bits_4_1
      + put 12 3 i.funct3
      + put 15 5 i.rs1
      + put 20 5 i.rs2
      + put 25 6 i.imm_bits_10_5
      + put 31 1 i.imm_bit12

  unfoldable pub pack_utype : RiscvUTypeInstruction → ℕ
  pack_utype i = put 0 7 (to_primitive i.opcode) + put 7 5 i.rd + put 12 20 i.imm

  unfoldable pub pack_jtype : RiscvJTypeInstruction → ℕ
  pack_jtype i =
      put 0 7 (to_primitive i.opcode)
      + put 7 5 i.rd
      + put 12 8 i.imm_bits_19_12
      + put 20 1 i.imm_bit11
      + put 21 10 i.imm_bits_10_1
      + put 31 1 i.imm_bit20

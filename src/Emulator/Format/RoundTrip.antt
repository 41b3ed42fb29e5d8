-- ===== src/Emulator/Format/RoundTrip.antt =====
-- `pack` and `unpack` of the 32-bit formats in kernel/src/emulator.rs undo each other.
use ron.Base.{ℕ, ◌^◌, ◌<◌, ◌≡◌, refl, some, arith}
use ron.Emulator.PackedStruct.{PackedStruct}
use ron.Emulator.Opcode.{
  RiscvOpcode, opimm, opimm32, lui, auipc, op, op32, jal, jalr, branch, load, store, miscmem,
  system, from_primitive, to_primitive,
}
use ron.Emulator.Format.{
  RiscvRTypeInstruction, RiscvITypeInstruction, RiscvSTypeInstruction, RiscvBTypeInstruction,
  RiscvUTypeInstruction, RiscvJTypeInstruction, unpack_rtype, unpack_itype, unpack_stype,
  unpack_btype, unpack_utype, unpack_jtype, pack_rtype, pack_itype, pack_stype, pack_btype,
  pack_utype, pack_jtype,
}

pub from-to_primitive : (o : RiscvOpcode) → from_primitive (to_primitive o) ≡ some o
unfolding from_primitive to_primitive
from-to_primitive opimm = refl
from-to_primitive opimm32 = refl
from-to_primitive lui = refl
from-to_primitive auipc = refl
from-to_primitive op = refl
from-to_primitive op32 = refl
from-to_primitive jal = refl
from-to_primitive jalr = refl
from-to_primitive branch = refl
from-to_primitive load = refl
from-to_primitive store = refl
from-to_primitive miscmem = refl
from-to_primitive system = refl

-- An opcode fits its seven bits.
pub to_primitive-lt : (o : RiscvOpcode) → to_primitive o < 2 ^ 7
unfolding to_primitive
to_primitive-lt opimm = omega arith
to_primitive-lt opimm32 = omega arith
to_primitive-lt lui = omega arith
to_primitive-lt auipc = omega arith
to_primitive-lt op = omega arith
to_primitive-lt op32 = omega arith
to_primitive-lt jal = omega arith
to_primitive-lt jalr = omega arith
to_primitive-lt branch = omega arith
to_primitive-lt load = omega arith
to_primitive-lt store = omega arith
to_primitive-lt miscmem = omega arith
to_primitive-lt system = omega arith

-- The fields of an instruction fit their widths.
pub record FitsIType (i : RiscvITypeInstruction) : Type 0 where
  pub rd : i.rd < 2 ^ 5
  pub funct3 : i.funct3 < 2 ^ 3
  pub rs1 : i.rs1 < 2 ^ 5
  pub imm : i.imm < 2 ^ 12

pub record FitsRType (i : RiscvRTypeInstruction) : Type 0 where
  pub rd : i.rd < 2 ^ 5
  pub funct3 : i.funct3 < 2 ^ 3
  pub rs1 : i.rs1 < 2 ^ 5
  pub rs2 : i.rs2 < 2 ^ 5
  pub funct7 : i.funct7 < 2 ^ 7

pub record FitsSType (i : RiscvSTypeInstruction) : Type 0 where
  pub imm_low5 : i.imm_low5 < 2 ^ 5
  pub funct3 : i.funct3 < 2 ^ 3
  pub rs1 : i.rs1 < 2 ^ 5
  pub rs2 : i.rs2 < 2 ^ 5
  pub imm_hi7 : i.imm_hi7 < 2 ^ 7

pub record FitsBType (i : RiscvBTypeInstruction) : Type 0 where
  pub imm_bit11 : i.imm_bit11 < 2 ^ 1
  pub imm_bits_4_1 : i.imm_bits_4_1 < 2 ^ 4
  pub funct3 : i.funct3 < 2 ^ 3
  pub rs1 : i.rs1 < 2 ^ 5
  pub rs2 : i.rs2 < 2 ^ 5
  pub imm_bits_10_5 : i.imm_bits_10_5 < 2 ^ 6
  pub imm_bit12 : i.imm_bit12 < 2 ^ 1

pub record FitsUType (i : RiscvUTypeInstruction) : Type 0 where
  pub rd : i.rd < 2 ^ 5
  pub imm : i.imm < 2 ^ 20

pub record FitsJType (i : RiscvJTypeInstruction) : Type 0 where
  pub rd : i.rd < 2 ^ 5
  pub imm_bits_19_12 : i.imm_bits_19_12 < 2 ^ 8
  pub imm_bit11 : i.imm_bit11 < 2 ^ 1
  pub imm_bits_10_1 : i.imm_bits_10_1 < 2 ^ 10
  pub imm_bit20 : i.imm_bit20 < 2 ^ 1

-- An instruction of any of the formats, and what holds of it.
pub data Instruction : Type 0 where
  r_instruction : RiscvRTypeInstruction → Instruction
  i_instruction : RiscvITypeInstruction → Instruction
  s_instruction : RiscvSTypeInstruction → Instruction
  b_instruction : RiscvBTypeInstruction → Instruction
  u_instruction : RiscvUTypeInstruction → Instruction
  j_instruction : RiscvJTypeInstruction → Instruction

abbrev pub Fits : Instruction → Type 0
Fits (r_instruction i) = FitsRType i
Fits (i_instruction i) = FitsIType i
Fits (s_instruction i) = FitsSType i
Fits (b_instruction i) = FitsBType i
Fits (u_instruction i) = FitsUType i
Fits (j_instruction i) = FitsJType i

module _ ⦃ps : PackedStruct⦄ where
  open ps use {get, get_bits, put_bits}

  pub unpack-pack_itype :
      (i : RiscvITypeInstruction) → FitsIType i → unpack_itype (pack_itype i) ≡ some i
  unfolding unpack_itype pack_itype
  unpack-pack_itype i fits =
      simp (get_bits, put_bits)
        (ground (arith, from-to_primitive i.opcode, to_primitive-lt i.opcode))

  pub unpack-pack_rtype :
      (i : RiscvRTypeInstruction) → FitsRType i → unpack_rtype (pack_rtype i) ≡ some i
  unfolding unpack_rtype pack_rtype
  unpack-pack_rtype i fits =
      simp (get_bits, put_bits)
        (ground (arith, from-to_primitive i.opcode, to_primitive-lt i.opcode))

  pub unpack-pack_stype :
      (i : RiscvSTypeInstruction) → FitsSType i → unpack_stype (pack_stype i) ≡ some i
  unfolding unpack_stype pack_stype
  unpack-pack_stype i fits =
      simp (get_bits, put_bits)
        (ground (arith, from-to_primitive i.opcode, to_primitive-lt i.opcode))

  pub unpack-pack_btype :
      (i : RiscvBTypeInstruction) → FitsBType i → unpack_btype (pack_btype i) ≡ some i
  unfolding unpack_btype pack_btype
  unpack-pack_btype i fits =
      simp (get_bits, put_bits)
        (ground (arith, from-to_primitive i.opcode, to_primitive-lt i.opcode))

  pub unpack-pack_utype :
      (i : RiscvUTypeInstruction) → FitsUType i → unpack_utype (pack_utype i) ≡ some i
  unfolding unpack_utype pack_utype
  unpack-pack_utype i fits =
      simp (get_bits, put_bits)
        (ground (arith, from-to_primitive i.opcode, to_primitive-lt i.opcode))

  pub unpack-pack_jtype :
      (i : RiscvJTypeInstruction) → FitsJType i → unpack_jtype (pack_jtype i) ≡ some i
  unfolding unpack_jtype pack_jtype
  unpack-pack_jtype i fits =
      simp (get_bits, put_bits)
        (ground (arith, from-to_primitive i.opcode, to_primitive-lt i.opcode))

  abbrev pub pack : Instruction → ℕ
  pack (r_instruction i) = pack_rtype i
  pack (i_instruction i) = pack_itype i
  pack (s_instruction i) = pack_stype i
  pack (b_instruction i) = pack_btype i
  pack (u_instruction i) = pack_utype i
  pack (j_instruction i) = pack_jtype i

  abbrev pub IsReadBack : Instruction → Type 0
  IsReadBack (r_instruction i) = unpack_rtype (pack_rtype i) ≡ some i
  IsReadBack (i_instruction i) = unpack_itype (pack_itype i) ≡ some i
  IsReadBack (s_instruction i) = unpack_stype (pack_stype i) ≡ some i
  IsReadBack (b_instruction i) = unpack_btype (pack_btype i) ≡ some i
  IsReadBack (u_instruction i) = unpack_utype (pack_utype i) ≡ some i
  IsReadBack (j_instruction i) = unpack_jtype (pack_jtype i) ≡ some i

  -- An instruction of any of the six formats whose fields fit their widths is read back from its
  -- packed word.
  pub unpack-pack : (i : Instruction) → Fits i → IsReadBack i
  unpack-pack (r_instruction i) fits = unpack-pack_rtype i fits
  unpack-pack (i_instruction i) fits = unpack-pack_itype i fits
  unpack-pack (s_instruction i) fits = unpack-pack_stype i fits
  unpack-pack (b_instruction i) fits = unpack-pack_btype i fits
  unpack-pack (u_instruction i) fits = unpack-pack_utype i fits
  unpack-pack (j_instruction i) fits = unpack-pack_jtype i fits

-- ===== src/Emulator/Opcode.antt =====
-- The opcodes and instruction types of kernel/src/emulator.rs.
use ron.Base.{ℕ, ◌/◌, ◌^◌, bit_and, Option, none, some, [], ◌∷◌, ◌==◌, if◌then◌else◌}
use ron.Base.Options.{◌>>=◌, entry}

pub data RiscvInstType : Type 0 where
  rtype itype stype btype utype jtype : RiscvInstType

pub data RiscvCompressedInstType : Type 0 where
  crtype citype csstype ciwtype cltype cstype catype cbtype cjtype : RiscvCompressedInstType

pub data RiscvOpcode : Type 0 where
  opimm opimm32 lui auipc op op32 jal jalr branch load store miscmem system : RiscvOpcode

unfoldable pub to_primitive : RiscvOpcode → ℕ
to_primitive opimm = 0b0010011
to_primitive opimm32 = 0b0011011
to_primitive lui = 0b0110111
to_primitive auipc = 0b0010111
to_primitive op = 0b0110011
to_primitive op32 = 0b0111011
to_primitive jal = 0b1101111
to_primitive jalr = 0b1100111
to_primitive branch = 0b1100011
to_primitive load = 0b0000011
to_primitive store = 0b0100011
to_primitive miscmem = 0b0001111
to_primitive system = 0b1110011

unfoldable pub from_primitive : ℕ → Option RiscvOpcode
from_primitive n =
    if n == 0b0010011
    then some opimm
    else if n == 0b0011011
    then some opimm32
    else if n == 0b0110111
    then some lui
    else if n == 0b0010111
    then some auipc
    else if n == 0b0110011
    then some op
    else if n == 0b0111011
    then some op32
    else if n == 0b1101111
    then some jal
    else if n == 0b1100111
    then some jalr
    else if n == 0b1100011
    then some branch
    else if n == 0b0000011
    then some load
    else if n == 0b0100011
    then some store
    else if n == 0b0001111
    then some miscmem
    else if n == 0b1110011
    then some system
    else none

unfoldable pub get_type : RiscvOpcode → RiscvInstType
get_type opimm = itype
get_type opimm32 = itype
get_type lui = utype
get_type auipc = utype
get_type op = rtype
get_type op32 = rtype
get_type jal = jtype
get_type jalr = itype
get_type branch = btype
get_type load = itype
get_type store = stype
get_type miscmem = itype
get_type system = itype

pub data RiscvCompressedOpcode : Type 0 where
  c0 c1 c2 : RiscvCompressedOpcode

unfoldable pub compressed_from_primitive : ℕ → Option RiscvCompressedOpcode
compressed_from_primitive n =
    if n == 0b00
    then some c0
    else if n == 0b01
    then some c1
    else if n == 0b10
    then some c2
    else none

-- The table by quadrant, funct3 and, in one row, bits 10 and 11.
unfoldable pub compressed_type : RiscvCompressedOpcode → ℕ → ℕ → Option RiscvCompressedInstType
compressed_type c0 funct3 funct2 =
    entry
      (some ciwtype
        ∷ some cltype
        ∷ some cltype
        ∷ some cltype
        ∷ none
        ∷ some cstype
        ∷ some cstype
        ∷ some cstype
        ∷ [])
      funct3
compressed_type c1 funct3 funct2 =
    entry
      (some citype
        ∷ some citype
        ∷ some citype
        ∷ some citype
        ∷ entry (some cbtype ∷ some cbtype ∷ some cbtype ∷ some catype ∷ []) funct2
        ∷ some cjtype
        ∷ some cbtype
        ∷ some cbtype
        ∷ [])
      funct3
compressed_type c2 funct3 funct2 =
    entry
      (some citype
        ∷ some citype
        ∷ some citype
        ∷ some citype
        ∷ some crtype
        ∷ some csstype
        ∷ some csstype
        ∷ some csstype
        ∷ [])
      funct3

unfoldable pub get_compressed_instruction_type : ℕ → Option RiscvCompressedInstType
unfolding compressed_from_primitive compressed_type
get_compressed_instruction_type inst = do
  opcode ← compressed_from_primitive (bit_and inst 0b11)
  compressed_type opcode (bit_and (inst / 2 ^ 13) 0b111) (bit_and (inst / 2 ^ 10) 0b11)

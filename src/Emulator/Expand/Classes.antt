-- ===== src/Emulator/Expand/Classes.antt =====
-- How `tick` of kernel/src/emulator.rs recognises a compressed instruction: its class, and the
-- fields that `unpack` reads, from the digits of the word.
use ron.Base.{ℕ, ◌+◌, ◌*◌, ◌/◌, ◌%◌, ◌^◌, ◌≡◌, some, arith}
use ron.Base.Bits.{bit_and_mask}
use ron.Emulator.PackedStruct.{PackedStruct}
use ron.Emulator.Opcode.{
  RiscvCompressedOpcode, RiscvCompressedInstType, compressed_from_primitive, compressed_type,
  get_compressed_instruction_type, c0, c1, c2,
}
use ron.Emulator.Expand.{is_compressed, expand, expand_as}

-- The quadrant's number.
abbrev pub quadrant : RiscvCompressedOpcode → ℕ
quadrant c0 = 0
quadrant c1 = 1
quadrant c2 = 2

module _ ⦃ps : PackedStruct⦄ where
  pub expand-class :
      (w : ℕ) (o : RiscvCompressedOpcode) (body funct3 funct2 : ℕ) {t : RiscvCompressedInstType}
      → w % 2 ^ 16 ≡ quadrant o + 4 * body
      → body / 2 ^ 11 ≡ funct3
      → body / 2 ^ 8 % 4 ≡ funct2
      → compressed_type o funct3 funct2 ≡ some t
      → expand w ≡ expand_as t w
  unfolding expand is_compressed get_compressed_instruction_type compressed_from_primitive
  expand-class w c0 body funct3 funct2 e e3 e2 h = ground (
    arith,
    bit_and_mask 2 w,
    bit_and_mask 2 (w % 65536),
    bit_and_mask 3 (w % 65536 / 8192),
    bit_and_mask 2 (w % 65536 / 1024),
  )
  expand-class w c1 body funct3 funct2 e e3 e2 h = ground (
    arith,
    bit_and_mask 2 w,
    bit_and_mask 2 (w % 65536),
    bit_and_mask 3 (w % 65536 / 8192),
    bit_and_mask 2 (w % 65536 / 1024),
  )
  expand-class w c2 body funct3 funct2 e e3 e2 h = ground (
    arith,
    bit_and_mask 2 w,
    bit_and_mask 2 (w % 65536),
    bit_and_mask 3 (w % 65536 / 8192),
    bit_and_mask 2 (w % 65536 / 1024),
  )

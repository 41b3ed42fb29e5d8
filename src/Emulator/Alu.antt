-- ===== src/Emulator/Alu.antt =====
-- The values that the arms of `execute_rtype_inst` and `execute_itype_inst` in
-- kernel/src/emulator.rs write to `rd`, as functions of the registers and the immediate.
pub mod Words
pub mod Immediates
use ron.Base.{
  ℕ, ◌+◌, ◌-◌, ◌*◌, ◌/◌, ◌%◌, ◌^◌, bit_and, bit_or, bit_xor, Option, none, some, List, [], ◌∷◌, ltb,
  ◌==◌, if◌then◌else◌,
}
use ron.Base.Int.{to_signed, of_signed, shr_ℤ, ltb_ℤ, div_ℤ, rem_ℤ}
use ron.Base.Options.{entry}
use ron.Base.Run.{Run, panic, ran}
use ron.Emulator.Sign.{sign_extend, sign_extend_to_u64}
use ron.Emulator.Opcode.{RiscvOpcode, opimm, opimm32, op, op32}

-- `wrapping_add`, `wrapping_sub` and `wrapping_mul` of words of `w` bits.
abbrev pub wrapping_add : ℕ → ℕ → ℕ → ℕ
wrapping_add w a b = (a + b) % 2 ^ w

abbrev pub wrapping_sub : ℕ → ℕ → ℕ → ℕ
wrapping_sub w a b = (a + 2 ^ w - b) % 2 ^ w

abbrev pub wrapping_mul : ℕ → ℕ → ℕ → ℕ
wrapping_mul w a b = a * b % 2 ^ w

-- `x as u32`.
abbrev pub low32 : ℕ → ℕ
low32 x = x % 2 ^ 32

abbrev pub less_signed : ℕ → ℕ → ℕ
less_signed a b = if ltb_ℤ (to_signed 64 a) (to_signed 64 b) then 1 else 0

abbrev pub less_unsigned : ℕ → ℕ → ℕ
less_unsigned a b = if ltb a b then 1 else 0

-- `a << n`, `a >> n` and `(a as i64) >> n`, for words of `w` bits.
abbrev pub shift_left : ℕ → ℕ → ℕ → ℕ
shift_left w a n = a * 2 ^ n % 2 ^ w

abbrev pub shift_right : ℕ → ℕ → ℕ
shift_right a n = a / 2 ^ n

abbrev pub shift_right_signed : ℕ → ℕ → ℕ → ℕ
shift_right_signed w a n = of_signed w (shr_ℤ (to_signed w a) n)

-- `wrapping_div` and `wrapping_rem` panic at a divisor of zero.
abbrev pub div_signed : ℕ → ℕ → ℕ → Run ℕ
div_signed w a b =
    if b == 0 then panic else ran (of_signed w (div_ℤ (to_signed w a) (to_signed w b)))

abbrev pub rem_signed : ℕ → ℕ → ℕ → Run ℕ
rem_signed w a b =
    if b == 0 then panic else ran (of_signed w (rem_ℤ (to_signed w a) (to_signed w b)))

abbrev pub div_unsigned : ℕ → ℕ → Run ℕ
div_unsigned a b = if b == 0 then panic else ran (a / b)

abbrev pub rem_unsigned : ℕ → ℕ → Run ℕ
rem_unsigned a b = if b == 0 then panic else ran (a % b)

-- A 32-bit result is sign-extended before it is written.
abbrev pub extended : Run ℕ → Run ℕ
extended panic = panic
extended (ran v) = ran (sign_extend 32 64 v)

-- A pure operation as one that may panic.
abbrev pub pure₂ : (ℕ → ℕ → ℕ) → ℕ → ℕ → Run ℕ
pure₂ f a b = ran (f a b)

-- The arms of `execute_rtype_inst` are tables by funct3, one for each opcode and funct7; a gap is
-- where no arm matches.
abbrev pub Operations : Type 0
Operations = List (Option (ℕ → ℕ → Run ℕ))

-- ADD, SLL, SLT, SLTU, XOR, SRL, OR and AND.
unfoldable pub op_base : Operations
op_base =
    some (pure₂ (wrapping_add 64))
    ∷ some (pure₂ (λ a b. shift_left 64 a (bit_and b 0b11_1111)))
    ∷ some (pure₂ less_signed)
    ∷ some (pure₂ less_unsigned)
    ∷ some (pure₂ bit_xor)
    ∷ some (pure₂ (λ a b. shift_right a (bit_and b 0b11_1111)))
    ∷ some (pure₂ bit_or)
    ∷ some (pure₂ bit_and)
    ∷ []

-- SUB and SRA.
unfoldable pub op_alternative : Operations
op_alternative =
    some (pure₂ (wrapping_sub 64))
    ∷ none
    ∷ none
    ∷ none
    ∷ none
    ∷ some (pure₂ (λ a b. shift_right_signed 64 a (bit_and b 0b11_1111)))
    ∷ []

-- MUL, MULH, MULHSU, MULHU, DIV, DIVU, REM and REMU.
unfoldable pub op_multiply : Operations
unfolding sign_extend
op_multiply =
    some (pure₂ (wrapping_mul 64))
    ∷ some (
        pure₂
          (λ a b. wrapping_mul 128 (sign_extend 64 128 a) (sign_extend 64 128 b) / 2 ^ 64 % 2 ^ 64))
    ∷ some (pure₂ (λ a b. wrapping_mul 128 (sign_extend 64 128 a) b / 2 ^ 64 % 2 ^ 64))
    ∷ some (pure₂ (λ a b. wrapping_mul 128 a b / 2 ^ 64 % 2 ^ 64))
    ∷ some (div_signed 64)
    ∷ some div_unsigned
    ∷ some (rem_signed 64)
    ∷ some rem_unsigned
    ∷ []

-- ADDW, SLLW and SRLW.
unfoldable pub op32_base : Operations
op32_base =
    some (λ a b. extended (ran (wrapping_add 32 (low32 a) (low32 b))))
    ∷ some (λ a b. extended (ran (shift_left 32 (low32 a) (bit_and (low32 b) 0b1_1111))))
    ∷ none
    ∷ none
    ∷ none
    ∷ some (λ a b. extended (ran (shift_right (low32 a) (bit_and (low32 b) 0b1_1111))))
    ∷ []

-- SUBW and SRAW.
unfoldable pub op32_alternative : Operations
op32_alternative =
    some (λ a b. extended (ran (wrapping_sub 32 (low32 a) (low32 b))))
    ∷ none
    ∷ none
    ∷ none
    ∷ none
    ∷ some (λ a b. extended (ran (shift_right_signed 32 (low32 a) (bit_and (low32 b) 0b1_1111))))
    ∷ []

-- MULW, DIVW, DIVUW, REMW and REMUW.
unfoldable pub op32_multiply : Operations
op32_multiply =
    some (λ a b. extended (ran (wrapping_mul 32 (low32 a) (low32 b))))
    ∷ none
    ∷ none
    ∷ none
    ∷ some (λ a b. extended (div_signed 32 (low32 a) (low32 b)))
    ∷ some (λ a b. extended (div_unsigned (low32 a) (low32 b)))
    ∷ some (λ a b. extended (rem_signed 32 (low32 a) (low32 b)))
    ∷ some (λ a b. extended (rem_unsigned (low32 a) (low32 b)))
    ∷ []

abbrev pub by_funct7 : (base alternative multiply : Operations) → ℕ → Operations
by_funct7 base alternative multiply funct7 =
    if funct7 == 0b0000000
    then base
    else if funct7 == 0b0100000
    then alternative
    else if funct7 == 0b0000001
    then multiply
    else []

-- The operation on the two source registers.
unfoldable pub rtype_operation : RiscvOpcode → ℕ → ℕ → Option (ℕ → ℕ → Run ℕ)
unfolding op_base op_alternative op_multiply op32_base op32_alternative op32_multiply
rtype_operation op funct3 funct7 =
    entry (by_funct7 op_base op_alternative op_multiply funct7) funct3
rtype_operation op32 funct3 funct7 =
    entry (by_funct7 op32_base op32_alternative op32_multiply funct7) funct3
rtype_operation _ funct3 funct7 = none

-- SRLI or SRAI, and SRLIW or SRAIW, by the bits of the immediate above the shift amount.
abbrev pub shift_right_imm : ℕ → ℕ → ℕ
shift_right_imm a imm =
    if bit_and imm (2 ^ 64 - 1 - 0b11_1111) == 0
    then shift_right a (bit_and imm 0b11_1111)
    else shift_right_signed 64 a (bit_and imm 0b11_1111)

abbrev pub shift_right_imm32 : ℕ → ℕ → ℕ
shift_right_imm32 a imm =
    if bit_and imm (2 ^ 32 - 1 - 0b1_1111) == 0
    then shift_right a (bit_and imm 0b1_1111)
    else shift_right_signed 32 a (bit_and imm 0b1_1111)

-- The arms of `execute_itype_inst` for OPIMM and OPIMM32 are tables by funct3: the operation on the
-- source register and the immediate that `parse_imm` returns. ADDI, SLLI, SLTI, SLTIU, XORI, SRLI and
-- SRAI, ORI and ANDI:
unfoldable pub opimm_operations : List (Option (ℕ → ℕ → ℕ))
unfolding sign_extend_to_u64
opimm_operations =
    some (λ a imm. wrapping_add 64 a (sign_extend_to_u64 32 imm))
    ∷ some (λ a imm. shift_left 64 a (bit_and (sign_extend_to_u64 32 imm) 0b11_1111))
    ∷ some (λ a imm. less_signed a (sign_extend_to_u64 32 imm))
    ∷ some (λ a imm. less_unsigned a (sign_extend_to_u64 32 imm))
    ∷ some (λ a imm. bit_xor a (sign_extend_to_u64 32 imm))
    ∷ some (λ a imm. shift_right_imm a (sign_extend_to_u64 32 imm))
    ∷ some (λ a imm. bit_or a (sign_extend_to_u64 32 imm))
    ∷ some (λ a imm. bit_and a (sign_extend_to_u64 32 imm))
    ∷ []

-- ADDIW, SLLIW, SRLIW and SRAIW.
unfoldable pub opimm32_operations : List (Option (ℕ → ℕ → ℕ))
unfolding sign_extend_to_u64
opimm32_operations =
    some (λ a imm. sign_extend_to_u64 32 (wrapping_add 32 (low32 a) imm))
    ∷ some (λ a imm. sign_extend_to_u64 32 (shift_left 32 (low32 a) (bit_and imm 0b1_1111)))
    ∷ none
    ∷ none
    ∷ none
    ∷ some (λ a imm. sign_extend_to_u64 32 (shift_right_imm32 (low32 a) imm))
    ∷ []

unfoldable pub itype_operation : RiscvOpcode → ℕ → Option (ℕ → ℕ → ℕ)
unfolding opimm_operations opimm32_operations
itype_operation opimm funct3 = entry opimm_operations funct3
itype_operation opimm32 funct3 = entry opimm32_operations funct3
itype_operation _ funct3 = none

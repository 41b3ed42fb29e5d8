-- ===== src/Emulator/Alu/Immediates.antt =====
-- The operations of the immediates, OPIMM and OPIMM32, in kernel/src/emulator.rs return machine words.
use ron.Base.{ℕ, ◌-◌, ◌%◌, ◌^◌, ◌<◌, ◌≡◌, some, arith, bit_and, ◌==◌, Bool-cases, inl, inr}
use ron.Base.Bits.{bit_and-lt, bit_or-lt, bit_xor-lt}
use ron.Base.Int.{to_signed, shr_ℤ}
use ron.Base.Options.{AllFrom-entry}
use native.Mathlib.Nat.{div-le_self}
use ron.Emulator.Sign.{sign_extend_to_u64}
use ron.Emulator.Opcode.{
  RiscvOpcode, opimm, opimm32, lui, auipc, op, op32, jal, jalr, branch, load, store, miscmem,
  system,
}
use ron.Emulator.Cpu.Registers.{IsWord}
use ron.Emulator.Alu.{
  itype_operation, opimm_operations, opimm32_operations, shift_right_imm, shift_right_imm32,
}
use ron.Emulator.Alu.Words.{extended-word, of_signed-word, of_signed-32}

shift_right_imm-IsWord : (a imm : ℕ) → IsWord a → IsWord (shift_right_imm a imm)
shift_right_imm-IsWord a imm h = elim (Bool-cases (bit_and imm (2 ^ 64 - 1 - 0b11_1111) == 0)) [
  | inl e ↦ rw e (omega (arith, div-le_self a (2 ^ bit_and imm 0b11_1111)))
  | inr e ↦ rw e (of_signed-word (shr_ℤ (to_signed 64 a) (bit_and imm 0b11_1111)))
]

shift_right_imm32-word : (a imm : ℕ) → a < 2 ^ 32 → shift_right_imm32 a imm < 2 ^ 32
shift_right_imm32-word a imm h = elim (Bool-cases (bit_and imm (2 ^ 32 - 1 - 0b1_1111) == 0)) [
  | inl e ↦ rw e (omega (arith, div-le_self a (2 ^ bit_and imm 0b1_1111)))
  | inr e ↦ rw e (of_signed-32 (shr_ℤ (to_signed 32 a) (bit_and imm 0b1_1111)))
]

-- What the operation on an immediate returns, for an immediate of 32 bits.
abbrev Immediate : ℕ → (ℕ → ℕ → ℕ) → Type 0
Immediate i f = (a imm : ℕ) → IsWord a → imm < 2 ^ 32 → IsWord (f a imm)

pub itype_operation-word :
    (o : RiscvOpcode) (funct3 : ℕ) {f : ℕ → ℕ → ℕ}
    → itype_operation o funct3 ≡ some f
    → Immediate funct3 f
unfolding itype_operation opimm_operations opimm32_operations sign_extend_to_u64
itype_operation-word opimm funct3 e =
    AllFrom-entry 0 Immediate opimm_operations funct3
      (
        λ a imm ha hi. omega arith,
        (
          λ a imm ha hi. omega arith,
          (
            λ a imm ha hi. ground arith,
            (
              λ a imm ha hi. ground arith,
              (
                λ a imm ha hi. bit_xor-lt 64 a _ ha (extended-word imm hi),
                (
                  λ a imm ha hi. shift_right_imm-IsWord a _ ha,
                  (
                    λ a imm ha hi. bit_or-lt 64 a _ ha (extended-word imm hi),
                    (λ a imm ha hi. bit_and-lt 64 a _ ha (extended-word imm hi), tt),
                  ),
                ),
              ),
            ),
          ),
        ),
      )
      e
itype_operation-word opimm32 funct3 e =
    AllFrom-entry 0 Immediate opimm32_operations funct3
      (
        λ a imm ha hi. extended-word _ (omega arith),
        (
          λ a imm ha hi. extended-word _ (omega arith),
          (
            λ a imm ha hi. extended-word _ (shift_right_imm32-word (a % 2 ^ 32) imm (omega arith)),
            tt,
          ),
        ),
      )
      e
itype_operation-word lui funct3 e = absurd cc
itype_operation-word auipc funct3 e = absurd cc
itype_operation-word op funct3 e = absurd cc
itype_operation-word op32 funct3 e = absurd cc
itype_operation-word jal funct3 e = absurd cc
itype_operation-word jalr funct3 e = absurd cc
itype_operation-word branch funct3 e = absurd cc
itype_operation-word load funct3 e = absurd cc
itype_operation-word store funct3 e = absurd cc
itype_operation-word miscmem funct3 e = absurd cc
itype_operation-word system funct3 e = absurd cc

-- ===== src/Emulator/Alu/Words.antt =====
-- The operations of kernel/src/emulator.rs return machine words, and panic exactly on a division by
-- zero.
use ron.Base.{
  ℕ, zero, suc, ◌%◌, ◌^◌, ◌≤◌, ◌<◌, ◌≡◌, ◌≢◌, bit_and, Bool, true, false, ◌&&◌, leb, ◌==◌, none,
  some, arith, sym, if◌then◌else◌, Bool-cases, ==_neq, inl, inr,
}
use native.Mathlib.Decide.{ℕ_discrete}
use mathlib.Core.Path.{subst}
use native.Mathlib.Nat.{div-le_self, mod-le}
use ron.Base.Bits.{bit_and-lt, bit_or-lt, bit_xor-lt}
use ron.Base.Int.{ℤ, pos, negsuc, of_signed, to_signed, shr_ℤ, div_ℤ, rem_ℤ}
use ron.Base.Options.{AllFrom, AllFrom-entry, entry}
use ron.Base.Run.{Run, panic, ran, Ends}
use ron.Emulator.Sign.{sign_extend, sign_extend_32_64}
use ron.Emulator.Opcode.{
  RiscvOpcode, opimm, opimm32, lui, auipc, op, op32, jal, jalr, branch, load, store, miscmem,
  system,
}
use ron.Emulator.Cpu.Registers.{IsWord}
use ron.Emulator.Alu.{
  Operations, by_funct7, op_base, op_alternative, op_multiply, op32_base, op32_alternative,
  op32_multiply, rtype_operation, extended,
}

pub of_signed-word : (z : ℤ) → of_signed 64 z < 2 ^ 64
of_signed-word (pos n) = omega arith
of_signed-word (negsuc n) = omega arith

pub of_signed-32 : (z : ℤ) → of_signed 32 z < 2 ^ 32
of_signed-32 (pos n) = omega arith
of_signed-32 (negsuc n) = omega arith

pub extended-word : (v : ℕ) → v < 2 ^ 32 → sign_extend 32 64 v < 2 ^ 64
extended-word v h = rw (sign_extend_32_64 v h) (ground arith)

-- DIV, DIVU, REM and REMU, and DIVW, DIVUW, REMW and REMUW, by a divisor of zero. The latter look at
-- the low half of the register only.
abbrev pub by_zero : RiscvOpcode → ℕ → ℕ → ℕ → Bool
by_zero op funct3 funct7 b = (funct7 == 1) && (leb 4 funct3 && (b == 0))
by_zero op32 funct3 funct7 b = (funct7 == 1) && (leb 4 funct3 && (b % 2 ^ 32 == 0))
by_zero _ funct3 funct7 b = false

-- The operation panics if `zero`, and else returns a word.
abbrev pub Outcome : Bool → Run ℕ → Type 0
Outcome true m = m ≡ panic
Outcome false m = Ends IsWord m

abbrev pub Behaves : RiscvOpcode → ℕ → ℕ → (ℕ → ℕ → Run ℕ) → Type 0
Behaves o funct7 funct3 f =
    (a b : ℕ) → IsWord a → IsWord b → Outcome (by_zero o funct3 funct7 b) (f a b)

op_base-Behaves : AllFrom 0 (Behaves op 0) op_base
unfolding op_base
op_base-Behaves = (
  λ a b ha hb. omega arith,
  (
    λ a b ha hb. omega arith,
    (
      λ a b ha hb. ground arith,
      (
        λ a b ha hb. ground arith,
        (
          λ a b ha hb. bit_xor-lt 64 a b ha hb,
          (
            λ a b ha hb. omega (arith, div-le_self a (2 ^ bit_and b 0b11_1111)),
            (λ a b ha hb. bit_or-lt 64 a b ha hb, (λ a b ha hb. bit_and-lt 64 a b ha hb, tt)),
          ),
        ),
      ),
    ),
  ),
)

op_alternative-Behaves : AllFrom 0 (Behaves op 0b0100000) op_alternative
unfolding op_alternative
op_alternative-Behaves = (
  λ a b ha hb. omega arith,
  (λ a b ha hb. of_signed-word (shr_ℤ (to_signed 64 a) (bit_and b 0b11_1111)), tt),
)

-- A division with its test of the divisor.
guarded : (b v : ℕ) → IsWord v → Outcome (b == 0) (if b == 0 then panic else ran v)
guarded b v h = elim (Bool-cases (b == 0)) [ inl is_zero ↦ rw is_zero | inr nonzero ↦ rw nonzero h ]

op_multiply-Behaves : AllFrom 0 (Behaves op 0b0000001) op_multiply
unfolding op_multiply
op_multiply-Behaves = (
  λ a b ha hb. omega arith,
  (
    λ a b ha hb. omega arith,
    (
      λ a b ha hb. omega arith,
      (
        λ a b ha hb. omega arith,
        (
          λ a b ha hb. guarded b _ (of_signed-word (div_ℤ (to_signed 64 a) (to_signed 64 b))),
          (
            λ a b ha hb. guarded b _ (omega (arith, div-le_self a b)),
            (
              λ a b ha hb. guarded b _ (of_signed-word (rem_ℤ (to_signed 64 a) (to_signed 64 b))),
              (λ a b ha hb. guarded b _ (omega (arith, mod-le a b)), tt),
            ),
          ),
        ),
      ),
    ),
  ),
)

-- The same for a 32-bit result.
guarded32 : (b v : ℕ) → v < 2 ^ 32 → Outcome (b == 0) (extended (if b == 0 then panic else ran v))
guarded32 b v h = elim (Bool-cases (b == 0)) [
  | inl is_zero ↦ rw is_zero
  | inr nonzero ↦ rw nonzero (extended-word v h)
]

op32_base-Behaves : AllFrom 0 (Behaves op32 0) op32_base
unfolding op32_base
op32_base-Behaves = (
  λ a b ha hb. extended-word _ (omega arith),
  (
    λ a b ha hb. extended-word _ (omega arith),
    (
      λ a b ha hb.
          extended-word _
            (omega (arith, div-le_self (a % 2 ^ 32) (2 ^ bit_and (b % 2 ^ 32) 0b1_1111))),
      tt,
    ),
  ),
)

op32_alternative-Behaves : AllFrom 0 (Behaves op32 0b0100000) op32_alternative
unfolding op32_alternative
op32_alternative-Behaves = (
  λ a b ha hb. extended-word _ (omega arith),
  (
    λ a b ha hb.
        extended-word _
          (of_signed-32 (shr_ℤ (to_signed 32 (a % 2 ^ 32)) (bit_and (b % 2 ^ 32) 0b1_1111))),
    tt,
  ),
)

op32_multiply-Behaves : AllFrom 0 (Behaves op32 0b0000001) op32_multiply
unfolding op32_multiply
op32_multiply-Behaves = (
  λ a b ha hb. extended-word _ (omega arith),
  (
    λ a b ha hb.
        guarded32 (b % 2 ^ 32) _
          (of_signed-32 (div_ℤ (to_signed 32 (a % 2 ^ 32)) (to_signed 32 (b % 2 ^ 32)))),
    (
      λ a b ha hb. guarded32 (b % 2 ^ 32) _ (omega (arith, div-le_self (a % 2 ^ 32) (b % 2 ^ 32))),
      (
        λ a b ha hb.
            guarded32 (b % 2 ^ 32) _
              (of_signed-32 (rem_ℤ (to_signed 32 (a % 2 ^ 32)) (to_signed 32 (b % 2 ^ 32)))),
        (
          λ a b ha hb. guarded32 (b % 2 ^ 32) _ (omega (arith, mod-le (a % 2 ^ 32) (b % 2 ^ 32))),
          tt,
        ),
      ),
    ),
  ),
)

table-Behaves :
    (o : RiscvOpcode) (table : Operations) (funct3 funct7 : ℕ) {f : ℕ → ℕ → Run ℕ}
    → AllFrom 0 (Behaves o funct7) table
    → entry table funct3 ≡ some f
    → Behaves o funct7 funct3 f
table-Behaves o table funct3 funct7 {f} h e =
    subst (λ (n : ℕ). Behaves o funct7 n f) (omega arith)
      (AllFrom-entry 0 (Behaves o funct7) table funct3 h e)

by_funct7-Behaves :
    (o : RiscvOpcode) (base alternative multiply : Operations) (funct3 funct7 : ℕ)
    {f : ℕ → ℕ → Run ℕ}
    → AllFrom 0 (Behaves o 0) base
    → AllFrom 0 (Behaves o 0b0100000) alternative
    → AllFrom 0 (Behaves o 0b0000001) multiply
    → entry (by_funct7 base alternative multiply funct7) funct3 ≡ some f
    → Behaves o funct7 funct3 f
by_funct7-Behaves o base alternative multiply funct3 funct7 {f} hb ha hm =
    let Goal : ℕ → Type 0 =
      λ n. entry (by_funct7 base alternative multiply n) funct3 ≡ some f → Behaves o n funct3 f in
    elim (ℕ_discrete funct7 0) [
      | yes q ↦ subst Goal (sym q) (table-Behaves o base funct3 0 hb)
      | no n0 ↦ elim (ℕ_discrete funct7 0b0100000) [
        | yes q ↦ subst Goal (sym q) (table-Behaves o alternative funct3 0b0100000 ha)
        | no n32 ↦ elim (ℕ_discrete funct7 0b0000001) [
          | yes q ↦ subst Goal (sym q) (table-Behaves o multiply funct3 0b0000001 hm)
          | no n1 ↦ λ e.
              let e' = rw (==_neq funct7 0 n0, ==_neq funct7 32 n32, ==_neq funct7 1 n1) at e in
              absurd cc
        ]
      ]
    ]

-- An operation that an arm of `execute_rtype_inst` finds panics if it is a division and the divisor
-- is zero, and else returns a 64-bit word.
pub rtype_operation-Behaves :
    (o : RiscvOpcode) (funct3 funct7 : ℕ) {f : ℕ → ℕ → Run ℕ}
    → rtype_operation o funct3 funct7 ≡ some f
    → Behaves o funct7 funct3 f
unfolding rtype_operation
rtype_operation-Behaves op funct3 funct7 e =
    by_funct7-Behaves op op_base op_alternative op_multiply funct3 funct7 op_base-Behaves
      op_alternative-Behaves op_multiply-Behaves e
rtype_operation-Behaves op32 funct3 funct7 e =
    by_funct7-Behaves op32 op32_base op32_alternative op32_multiply funct3 funct7 op32_base-Behaves
      op32_alternative-Behaves op32_multiply-Behaves e
rtype_operation-Behaves opimm funct3 funct7 e = absurd cc
rtype_operation-Behaves opimm32 funct3 funct7 e = absurd cc
rtype_operation-Behaves lui funct3 funct7 e = absurd cc
rtype_operation-Behaves auipc funct3 funct7 e = absurd cc
rtype_operation-Behaves jal funct3 funct7 e = absurd cc
rtype_operation-Behaves jalr funct3 funct7 e = absurd cc
rtype_operation-Behaves branch funct3 funct7 e = absurd cc
rtype_operation-Behaves load funct3 funct7 e = absurd cc
rtype_operation-Behaves store funct3 funct7 e = absurd cc
rtype_operation-Behaves miscmem funct3 funct7 e = absurd cc
rtype_operation-Behaves system funct3 funct7 e = absurd cc

op_divides : (funct3 : ℕ) → 4 ≤ funct3 → funct3 < 8 → rtype_operation op funct3 1 ≢ none
unfolding rtype_operation op_multiply op32_multiply
op_divides (suc (suc (suc (suc zero)))) low high e = absurd cc
op_divides (suc (suc (suc (suc (suc zero))))) low high e = absurd cc
op_divides (suc (suc (suc (suc (suc (suc zero)))))) low high e = absurd cc
op_divides (suc (suc (suc (suc (suc (suc (suc zero))))))) low high e = absurd cc
op_divides (suc (suc (suc (suc (suc (suc (suc (suc n)))))))) low high e = absurd (omega arith)
op_divides zero low high e = absurd (omega arith)
op_divides (suc zero) low high e = absurd (omega arith)
op_divides (suc (suc zero)) low high e = absurd (omega arith)
op_divides (suc (suc (suc zero))) low high e = absurd (omega arith)

op32_divides : (funct3 : ℕ) → 4 ≤ funct3 → funct3 < 8 → rtype_operation op32 funct3 1 ≢ none
unfolding rtype_operation op_multiply op32_multiply
op32_divides (suc (suc (suc (suc zero)))) low high e = absurd cc
op32_divides (suc (suc (suc (suc (suc zero))))) low high e = absurd cc
op32_divides (suc (suc (suc (suc (suc (suc zero)))))) low high e = absurd cc
op32_divides (suc (suc (suc (suc (suc (suc (suc zero))))))) low high e = absurd cc
op32_divides (suc (suc (suc (suc (suc (suc (suc (suc n)))))))) low high e = absurd (omega arith)
op32_divides zero low high e = absurd (omega arith)
op32_divides (suc zero) low high e = absurd (omega arith)
op32_divides (suc (suc zero)) low high e = absurd (omega arith)
op32_divides (suc (suc (suc zero))) low high e = absurd (omega arith)

-- An arm matches every division.
pub division-some :
    (o : RiscvOpcode) (funct3 funct7 b : ℕ)
    → funct3 < 2 ^ 3
    → by_zero o funct3 funct7 b ≡ true
    → rtype_operation o funct3 funct7 ≢ none
division-some op funct3 funct7 b h z e =
    op_divides funct3 (ground arith) h
      (subst (λ (n : ℕ). rtype_operation op funct3 n ≡ none) (ground arith) e)
division-some op32 funct3 funct7 b h z e =
    op32_divides funct3 (ground arith) h
      (subst (λ (n : ℕ). rtype_operation op32 funct3 n ≡ none) (ground arith) e)
division-some opimm funct3 funct7 b h z e = ground arith
division-some opimm32 funct3 funct7 b h z e = ground arith
division-some lui funct3 funct7 b h z e = ground arith
division-some auipc funct3 funct7 b h z e = ground arith
division-some jal funct3 funct7 b h z e = ground arith
division-some jalr funct3 funct7 b h z e = ground arith
division-some branch funct3 funct7 b h z e = ground arith
division-some load funct3 funct7 b h z e = ground arith
division-some store funct3 funct7 b h z e = ground arith
division-some miscmem funct3 funct7 b h z e = ground arith
division-some system funct3 funct7 b h z e = ground arith

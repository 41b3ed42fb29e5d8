-- ===== src/Emulator/Expand/Tables.antt =====
-- The immediates of the compressed instructions, against the bit layouts of the RISC-V manual
-- (Volume I, chapter 16). The fields are short, so every value is checked.
use ron.Base.{
  ℕ, zero, suc, ◌+◌, ◌*◌, ◌/◌, ◌%◌, ◌^◌, ◌<◌, ◌≡◌, refl, Bool, true, ◌&&◌, arith, bit_and, bit_or,
  ◌==◌, ==_iff,
}
use ron.Base.Bits.{bit_and_mask}
use ron.Emulator.Format.{shl32}
use ron.Emulator.Sign.{sign_extend, widened}
use ron.Emulator.Opcode.{c1}
use ron.Emulator.Compressed.Immediates.{
  shl8, ci_addi16sp_imm, cb_branch_imm, cj_offset, word_offset, double_offset,
}
use ron.Emulator.Expand.Manual.{
  ci, cb, cj, branch_hi, branch_lo, spn_imm, word_lo, addi16sp_lo, lwsp_lo, ldsp_lo, swsp_imm,
  sdsp_imm,
}

agrees_below : (f g : ℕ → ℕ) → ℕ → Bool
agrees_below f g zero = true
agrees_below f g (suc bound) = f bound == g bound && agrees_below f g bound

agrees_below-lt :
    (f g : ℕ → ℕ) (bound v : ℕ) → agrees_below f g bound ≡ true → v < bound → (f v == g v) ≡ true
unfolding agrees_below
agrees_below-lt f g zero v ok h = absurd (omega arith)
agrees_below-lt f g (suc bound) v ok h = ground (arith, agrees_below-lt f g bound v)

-- Two functions that agree below `n`, by evaluation.
agree-lt : (n : ℕ) (f g : ℕ → ℕ) (x : ℕ) → agrees_below f g n ≡ true → x < n → f x ≡ g x
agree-lt n f g x h l = (==_iff (f x) (g x)).0 (agrees_below-lt f g n x h l)

pub signed6 :
    (i : ℕ)
    → i < 64
    → sign_extend 8 32
        (bit_or (bit_or (bit_or (shl8 (i / 32) 7) (shl8 (i / 32) 6)) (shl8 (i / 32) 5)) (i % 32))
      ≡ widened 6 32 i
unfolding agrees_below sign_extend
signed6 i h =
    agree-lt 64
      (λ i.
        sign_extend 8 32
          (bit_or (bit_or (bit_or (shl8 (i / 32) 7) (shl8 (i / 32) 6)) (shl8 (i / 32) 5)) (i % 32)))
      (λ i. widened 6 32 i) i refl h

pub upper6 : (i : ℕ) → i < 64 → shl32 (widened 6 32 i) 12 ≡ widened 6 32 i * 2 ^ 12 % 2 ^ 32
unfolding agrees_below
upper6 i h =
    agree-lt 64 (λ i. shl32 (widened 6 32 i) 12) (λ i. widened 6 32 i * 2 ^ 12 % 2 ^ 32) i refl h

pub addi16sp :
    (i : ℕ)
    → i < 64
    → ci_addi16sp_imm (ci c1 0b011 2 (i / 32) (addi16sp_lo i)) ≡ widened 10 32 (16 * i)
unfolding agrees_below
addi16sp i h =
    agree-lt 64 (λ i. ci_addi16sp_imm (ci c1 0b011 2 (i / 32) (addi16sp_lo i)))
      (λ i. widened 10 32 (16 * i)) i refl h

pub shift6 : (i : ℕ) → i < 64 → bit_or (shl32 (bit_and (i / 32) 1) 5) (i % 32) ≡ i
unfolding agrees_below
shift6 i h = agree-lt 64 (λ i. bit_or (shl32 (bit_and (i / 32) 1) 5) (i % 32)) (λ i. i) i refl h

pub lwsp :
    (u : ℕ)
    → u < 64
    → bit_or
        (bit_or (shl32 (bit_and (lwsp_lo u) 0b11) 6) (shl32 (u / 8 % 2) 5))
        (bit_and (lwsp_lo u) 0b11100)
      ≡ 4 * u
unfolding agrees_below
lwsp u h =
    agree-lt 64
      (λ u.
        bit_or (bit_or (shl32 (bit_and (lwsp_lo u) 0b11) 6) (shl32 (u / 8 % 2) 5))
          (bit_and (lwsp_lo u) 0b11100))
      (λ u. 4 * u) u refl h

pub ldsp :
    (u : ℕ)
    → u < 64
    → bit_or
        (bit_or (shl32 (bit_and (ldsp_lo u) 0b111) 6) (shl32 (u / 4 % 2) 5))
        (bit_and (ldsp_lo u) 0b11000)
      ≡ 8 * u
unfolding agrees_below
ldsp u h =
    agree-lt 64
      (λ u.
        bit_or (bit_or (shl32 (bit_and (ldsp_lo u) 0b111) 6) (shl32 (u / 4 % 2) 5))
          (bit_and (ldsp_lo u) 0b11000))
      (λ u. 8 * u) u refl h

pub swsp :
    (u : ℕ)
    → u < 64
    → bit_or (bit_and (swsp_imm u) 0b111100) (shl32 (bit_and (swsp_imm u) 0b11) 6) ≡ 4 * u
unfolding agrees_below
swsp u h =
    agree-lt 64 (λ u. bit_or (bit_and (swsp_imm u) 0b111100) (shl32 (bit_and (swsp_imm u) 0b11) 6))
      (λ u. 4 * u) u refl h

pub sdsp :
    (u : ℕ)
    → u < 64
    → bit_or (bit_and (sdsp_imm u) 0b111000) (shl32 (bit_and (sdsp_imm u) 0b111) 6) ≡ 8 * u
unfolding agrees_below
sdsp u h =
    agree-lt 64 (λ u. bit_or (bit_and (sdsp_imm u) 0b111000) (shl32 (bit_and (sdsp_imm u) 0b111) 6))
      (λ u. 8 * u) u refl h

pub spn :
    (u : ℕ)
    → u < 256
    → bit_or
        (bit_or
          (bit_or
            (shl32 (bit_and (spn_imm u / 2 ^ 2) 0b1111) 6)
            (shl32 (bit_and (spn_imm u / 2 ^ 6) 0b11) 4))
          (shl32 (bit_and (spn_imm u / 2 ^ 0) 1) 3))
        (shl32 (bit_and (spn_imm u / 2 ^ 1) 1) 2)
      ≡ 4 * u
unfolding agrees_below
spn u h =
    agree-lt 256
      (λ u.
        bit_or
          (bit_or
            (bit_or (shl32 (bit_and (spn_imm u / 2 ^ 2) 0b1111) 6)
              (shl32 (bit_and (spn_imm u / 2 ^ 6) 0b11) 4))
            (shl32 (bit_and (spn_imm u / 2 ^ 0) 1) 3))
          (shl32 (bit_and (spn_imm u / 2 ^ 1) 1) 2))
      (λ u. 4 * u) u refl h

pub word_offset_lem : (u : ℕ) → u < 32 → word_offset (word_lo u) (u / 2 % 8) ≡ 4 * u
unfolding agrees_below
word_offset_lem u h = agree-lt 32 (λ u. word_offset (word_lo u) (u / 2 % 8)) (λ u. 4 * u) u refl h

pub double_offset_lem : (u : ℕ) → u < 32 → double_offset (u / 8) (u % 8) ≡ 8 * u
unfolding agrees_below
double_offset_lem u h = agree-lt 32 (λ u. double_offset (u / 8) (u % 8)) (λ u. 8 * u) u refl h

pub branch_offset :
    (u : ℕ)
    → u < 256
    → cb_branch_imm (cb 0b110 0 (branch_hi u) (branch_lo u)) ≡ widened 9 32 (2 * u)
unfolding agrees_below
branch_offset u h =
    agree-lt 256 (λ u. cb_branch_imm (cb 0b110 0 (branch_hi u) (branch_lo u)))
      (λ u. widened 9 32 (2 * u)) u refl h

pub jump_offset : (u : ℕ) → u < 2048 → sign_extend 16 32 (cj_offset (cj u)) ≡ widened 12 32 (2 * u)
unfolding agrees_below sign_extend
jump_offset u h =
    agree-lt 2048 (λ u. sign_extend 16 32 (cj_offset (cj u))) (λ u. widened 12 32 (2 * u)) u refl h

pub andi6 :
    (i : ℕ)
    → i < 64
    → sign_extend 8 32 (
        bit_or
          (bit_or
            (bit_or (shl8 ((i / 32 * 4 + 0b10) / 2 ^ 2) 7) (shl8 ((i / 32 * 4 + 0b10) / 2 ^ 2) 6))
            (shl8 ((i / 32 * 4 + 0b10) / 2 ^ 2) 5))
          (i % 32))
      ≡ widened 6 32 i
unfolding agrees_below sign_extend
andi6 i h =
    agree-lt 64
      (λ i. sign_extend 8 32 (
        bit_or
          (bit_or
            (bit_or (shl8 ((i / 32 * 4 + 0b10) / 2 ^ 2) 7) (shl8 ((i / 32 * 4 + 0b10) / 2 ^ 2) 6))
            (shl8 ((i / 32 * 4 + 0b10) / 2 ^ 2) 5))
          (i % 32)))
      (λ i. widened 6 32 i) i refl h

pub srli6 : (i : ℕ) → i < 64 → bit_or (shl32 ((i / 32 * 4 + 0b00) / 2 ^ 2) 5) (i % 32) ≡ i
unfolding agrees_below
srli6 i h =
    agree-lt 64 (λ i. bit_or (shl32 ((i / 32 * 4 + 0b00) / 2 ^ 2) 5) (i % 32)) (λ i. i) i refl h

pub srai6 :
    (i : ℕ)
    → i < 64
    → bit_or (bit_or (shl32 ((i / 32 * 4 + 0b01) / 2 ^ 2) 5) (i % 32)) 0b0100000_00000 ≡ 2 ^ 10 + i
unfolding agrees_below
srai6 i h =
    agree-lt 64
      (λ i. bit_or (bit_or (shl32 ((i / 32 * 4 + 0b01) / 2 ^ 2) 5) (i % 32)) 0b0100000_00000)
      (λ i. 2 ^ 10 + i) i refl h

pub funct2_lem : (i k : ℕ) → k < 4 → bit_and (i * 4 + k) 0b11 ≡ k
funct2_lem i k h = ground (arith, bit_and_mask 2 (i * 4 + k))

pub low2 : (i k : ℕ) → k < 4 → (i * 4 + k) % 4 ≡ k
low2 i k h = omega arith

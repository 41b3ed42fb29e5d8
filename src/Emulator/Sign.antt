-- ===== src/Emulator/Sign.antt =====
-- Sign extension in kernel/src/emulator.rs: `sign_extend`, `sign_extend_to_u64`, and the last step
-- of the `parse_imm` methods. A width is a number of bits.
pub mod Signed
use ron.Base.{
  ℕ, suc, ◌+◌, ◌-◌, ◌*◌, ◌^◌, ◌<◌, ◌≡◌, bit_and, bit_or, arith, ltb, ◌==◌, if◌then◌else◌,
}
use ron.Base.Bits.{bit_and_mask, bit_and_top, bit_or_fields}
use native.Mathlib.Nat.{one-le-pow, mod-eq_of_lt}

-- The end of each `parse_imm`: an immediate of `bits` bits as a u32.
unfoldable pub sign_fill : ℕ → ℕ → ℕ
sign_fill bits imm =
    let top_bit = 2 ^ (bits - 1) in
    let all_ones = 2 ^ bits - 1 in
    if bit_and imm top_bit == 0 then bit_and imm all_ones else bit_or imm (2 ^ 32 - 1 - all_ones)

-- `sign_extend::<T, U>`, from `t` bits to `u` bits.
unfoldable pub sign_extend : ℕ → ℕ → ℕ → ℕ
sign_extend t u val =
    let top_bit = 2 ^ (t - 1) in
    let all_ones = bit_or (2 ^ (t - 1) - 1) top_bit in
    if bit_and val top_bit == 0 then bit_and val all_ones else bit_or val (2 ^ u - 1 - all_ones)

unfoldable pub sign_extend_to_u64 : ℕ → ℕ → ℕ
unfolding sign_extend
sign_extend_to_u64 t val = sign_extend t 64 val

-- The word of `u` bits that stands for the same number as the word `v` of `t` bits.
abbrev pub widened : ℕ → ℕ → ℕ → ℕ
widened t u v = if ltb v (2 ^ (t - 1)) then v else v + (2 ^ u - 2 ^ t)

-- Both functions, at any width `k + 1`, where `q` ones stand above.
filled :
    (k q v : ℕ)
    → v < 2 ^ suc k
    → (if bit_and v (2 ^ k) == 0 then bit_and v (2 ^ suc k - 1) else bit_or v (q * 2 ^ suc k))
      ≡ (if ltb v (2 ^ k) then v else v + q * 2 ^ suc k)
filled k q v h = ground (
  arith,
  bit_and_top k v h,
  bit_and_mask (suc k) v,
  bit_or_fields (suc k) q v h,
  one-le-pow k 2,
  mod-eq_of_lt h,
)

pub sign_fill-12 : (v : ℕ) → v < 2 ^ 12 → sign_fill 12 v ≡ widened 12 32 v
unfolding sign_fill
sign_fill-12 v h = filled 11 (2 ^ 20 - 1) v h

pub sign_fill-13 : (v : ℕ) → v < 2 ^ 13 → sign_fill 13 v ≡ widened 13 32 v
unfolding sign_fill
sign_fill-13 v h = filled 12 (2 ^ 19 - 1) v h

pub sign_fill-21 : (v : ℕ) → v < 2 ^ 21 → sign_fill 21 v ≡ widened 21 32 v
unfolding sign_fill
sign_fill-21 v h = filled 20 (2 ^ 11 - 1) v h

pub sign_extend_8_32 : (v : ℕ) → v < 2 ^ 8 → sign_extend 8 32 v ≡ widened 8 32 v
unfolding sign_extend
sign_extend_8_32 v h = filled 7 (2 ^ 24 - 1) v h

pub sign_extend_16_32 : (v : ℕ) → v < 2 ^ 16 → sign_extend 16 32 v ≡ widened 16 32 v
unfolding sign_extend
sign_extend_16_32 v h = filled 15 (2 ^ 16 - 1) v h

pub sign_extend_8_64 : (v : ℕ) → v < 2 ^ 8 → sign_extend 8 64 v ≡ widened 8 64 v
unfolding sign_extend
sign_extend_8_64 v h = filled 7 (2 ^ 56 - 1) v h

pub sign_extend_16_64 : (v : ℕ) → v < 2 ^ 16 → sign_extend 16 64 v ≡ widened 16 64 v
unfolding sign_extend
sign_extend_16_64 v h = filled 15 (2 ^ 48 - 1) v h

pub sign_extend_32_64 : (v : ℕ) → v < 2 ^ 32 → sign_extend 32 64 v ≡ widened 32 64 v
unfolding sign_extend
sign_extend_32_64 v h = filled 31 (2 ^ 32 - 1) v h

pub sign_extend_64_128 : (v : ℕ) → v < 2 ^ 64 → sign_extend 64 128 v ≡ widened 64 128 v
unfolding sign_extend
sign_extend_64_128 v h = filled 63 (2 ^ 64 - 1) v h

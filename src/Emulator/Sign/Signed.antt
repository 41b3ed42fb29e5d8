-- ===== src/Emulator/Sign/Signed.antt =====
-- Sign extension keeps the signed value, for the widths that kernel/src/emulator.rs uses.
use ron.Base.{ℕ, ◌^◌, ◌<◌, ◌≡◌, arith}
use ron.Base.Int.{to_signed}
use ron.Emulator.Sign.{
  sign_extend, sign_extend_8_32, sign_extend_16_32, sign_extend_8_64, sign_extend_16_64,
  sign_extend_32_64, sign_extend_64_128,
}

-- The pairs of types at which `sign_extend` is called.
pub data Widening : Type 0 where
  u8_u32 u16_u32 u8_u64 u16_u64 u32_u64 u64_u128 : Widening

abbrev pub narrow : Widening → ℕ
narrow u8_u32 = 8
narrow u16_u32 = 16
narrow u8_u64 = 8
narrow u16_u64 = 16
narrow u32_u64 = 32
narrow u64_u128 = 64

abbrev pub wide : Widening → ℕ
wide u8_u32 = 32
wide u16_u32 = 32
wide u8_u64 = 64
wide u16_u64 = 64
wide u32_u64 = 64
wide u64_u128 = 128

-- For each pair of widths at which it is called, `sign_extend` of a word of the narrow width stands
-- for the same signed number, and fits the wide one.
pub sign_extend-signed :
    (p : Widening) (v : ℕ)
    → v < 2 ^ narrow p
    → (to_signed (wide p) (sign_extend (narrow p) (wide p) v) ≡ to_signed (narrow p) v)
      × (sign_extend (narrow p) (wide p) v < 2 ^ wide p)
sign_extend-signed u8_u32 v h = ground (arith, sign_extend_8_32 v h)
sign_extend-signed u16_u32 v h = ground (arith, sign_extend_16_32 v h)
sign_extend-signed u8_u64 v h = ground (arith, sign_extend_8_64 v h)
sign_extend-signed u16_u64 v h = ground (arith, sign_extend_16_64 v h)
sign_extend-signed u32_u64 v h = ground (arith, sign_extend_32_64 v h)
sign_extend-signed u64_u128 v h = ground (arith, sign_extend_64_128 v h)

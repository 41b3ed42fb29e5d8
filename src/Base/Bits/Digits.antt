-- ===== src/Base/Bits/Digits.antt =====
-- The native bit operations mean `bitwise`, a recursion on binary digits whose fuel is its first
-- argument. Here the fuel is dropped, and the results are bounded.
use Prim.Native.Nat.{
  ℕ, zero, suc, ◌+◌, ◌*◌, ◌/◌, ◌%◌, ◌^◌, ◌≤◌, ◌<◌, min, max, bit_and, bit_or, bit_xor, differ,
  digits, bitwise, bit_and-bitwise, bit_or-bitwise, bit_xor-bitwise,
}
use mathlib.Core.Path.{◌≡◌, refl, ◌∙◌}
use native.Mathlib.Nat.{pow-suc}
use native.Mathlib.Decide.{dec_le}
use native.Mathlib.Omega.{arith}

module _ (z : ℕ → ℕ) (f : ℕ → ℕ → ℕ) where
  digits-suc : (n a b : ℕ) → a ≤ n → digits z f (suc n) a b ≡ digits z f n a b
  digits-suc zero zero b h = refl
  digits-suc zero (suc a) b h = absurd (omega arith)
  digits-suc (suc n) zero b h = refl
  digits-suc (suc n) (suc a) b h = rw (digits-suc n (suc a / 2) (b / 2) (omega arith))

  -- Any fuel from `a` on is enough.
  digits-bitwise : (n a b : ℕ) → a ≤ n → digits z f n a b ≡ bitwise z f a b
  digits-bitwise zero zero b h = refl
  digits-bitwise zero (suc a) b h = absurd (omega arith)
  digits-bitwise (suc n) a b h = elim (dec_le a n) [
    | yes p ↦ digits-suc n a b p ∙ digits-bitwise n a b p
    | no p ↦ let e : a ≡ suc n = omega arith in rw e
  ]

  bitwise_step :
      (x y : ℕ)
      → bitwise z f (suc x) y ≡ f (suc x % 2) (y % 2) + 2 * bitwise z f (suc x / 2) (y / 2)
  bitwise_step x y = omega (arith, digits-bitwise x (suc x / 2) (y / 2) (omega arith))

  -- An operation on digits keeps words within their width.
  bitwise-lt :
      ((b : ℕ) → z b ≤ b)
      → ((x y : ℕ) → x < 2 → y < 2 → f x y < 2)
      → (k a b : ℕ) → a < 2 ^ k
      → b < 2 ^ k
      → bitwise z f a b < 2 ^ k
  bitwise-lt hz hf k zero b ha hb = omega (arith, hz b)
  bitwise-lt hz hf zero (suc a) b ha hb = absurd (omega arith)
  bitwise-lt hz hf (suc k) (suc a) b ha hb = omega (
    arith,
    bitwise_step a b,
    pow-suc 2 k,
    hf (suc a % 2) (b % 2) (omega arith) (omega arith),
    bitwise-lt hz hf k (suc a / 2) (b / 2) (omega (arith, pow-suc 2 k))
        (omega (arith, pow-suc 2 k)),
  )

-- The lowest digit of `&` and of `|`, and the others.
pub bit_and_step : (x y : ℕ) → bit_and x y ≡ min (x % 2) (y % 2) + 2 * bit_and (x / 2) (y / 2)
bit_and_step zero y = simp bit_and-bitwise (omega arith)
bit_and_step (suc x) y = simp bit_and-bitwise (bitwise_step (λ t. 0) min x y)

pub bit_or_step : (x y : ℕ) → bit_or x y ≡ max (x % 2) (y % 2) + 2 * bit_or (x / 2) (y / 2)
bit_or_step zero y = simp bit_or-bitwise (omega arith)
bit_or_step (suc x) y = simp bit_or-bitwise (bitwise_step (λ t. t) max x y)

pub bit_and-lt : (k a b : ℕ) → a < 2 ^ k → b < 2 ^ k → bit_and a b < 2 ^ k
bit_and-lt k a b ha hb =
    rw (bit_and-bitwise a b)
      (bitwise-lt (λ y. 0) min (λ y. omega arith) (λ x y hx hy. omega arith) k a b ha hb)

pub bit_or-lt : (k a b : ℕ) → a < 2 ^ k → b < 2 ^ k → bit_or a b < 2 ^ k
bit_or-lt k a b ha hb =
    rw (bit_or-bitwise a b)
      (bitwise-lt (λ y. y) max (λ y. omega arith) (λ x y hx hy. omega arith) k a b ha hb)

differ-lt : (x y : ℕ) → x < 2 → y < 2 → differ x y < 2
differ-lt zero zero hx hy = omega arith
differ-lt zero (suc zero) hx hy = omega arith
differ-lt zero (suc (suc y)) hx hy = absurd (omega arith)
differ-lt (suc zero) zero hx hy = omega arith
differ-lt (suc zero) (suc zero) hx hy = omega arith
differ-lt (suc zero) (suc (suc y)) hx hy = absurd (omega arith)
differ-lt (suc (suc x)) y hx hy = absurd (omega arith)

pub bit_xor-lt : (k a b : ℕ) → a < 2 ^ k → b < 2 ^ k → bit_xor a b < 2 ^ k
bit_xor-lt k a b ha hb =
    rw (bit_xor-bitwise a b) (bitwise-lt (λ y. y) differ (λ y. omega arith) differ-lt k a b ha hb)

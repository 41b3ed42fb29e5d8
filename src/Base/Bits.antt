-- ===== src/Base/Bits.antt =====
-- Laws of `&` and `|` on machine words, at every width.
mod Digits
use Prim.Native.Nat.{ℕ, zero, suc, ◌+◌, ◌-◌, ◌*◌, ◌/◌, ◌%◌, ◌^◌, ◌<◌, bit_and, bit_or}
use mathlib.Core.Path.{◌≡◌, ap}
use native.Mathlib.Nat.{pow-suc, one-le-pow}
use native.Mathlib.Omega.{arith}
use ron.Base.Tests.{ltb, if◌then◌else◌}
use Digits.{bit_or_step, bit_and_step}
pub use Digits.{bit_and-lt, bit_or-lt, bit_xor-lt}

scaled : (q k : ℕ) → q * 2 ^ suc k ≡ 2 * (q * 2 ^ k)
scaled q k = omega (arith, ap (λ (t : ℕ). q * t) (pow-suc 2 k))

bit_or-zero_both : (n a : ℕ) → a < n → (bit_or a 0 ≡ a) × (bit_or 0 a ≡ a)
bit_or-zero_both zero a h = absurd (omega arith)
bit_or-zero_both (suc n) zero h = omega (arith, bit_or_step 0 0)
bit_or-zero_both (suc n) (suc a) h = omega (
  arith,
  bit_or_step (suc a) 0,
  bit_or_step 0 (suc a),
  bit_or-zero_both n (suc a / 2) (omega arith),
)

bit_and-zero_both : (n a : ℕ) → a < n → (bit_and a 0 ≡ 0) × (bit_and 0 a ≡ 0)
bit_and-zero_both zero a h = absurd (omega arith)
bit_and-zero_both (suc n) zero h = omega (arith, bit_and_step 0 0)
bit_and-zero_both (suc n) (suc a) h = omega (
  arith,
  bit_and_step (suc a) 0,
  bit_and_step 0 (suc a),
  bit_and-zero_both n (suc a / 2) (omega arith),
)

pub bit_and-zero : (a : ℕ) → bit_and a 0 ≡ 0
bit_and-zero a = (bit_and-zero_both (suc a) a (omega arith)).0

-- A field above `k` bits and one within them do not meet: `|` is their sum, in either order.
pub bit_or_fields :
    (k q r : ℕ)
    → r < 2 ^ k
    → (bit_or (q * 2 ^ k) r ≡ q * 2 ^ k + r) × (bit_or r (q * 2 ^ k) ≡ q * 2 ^ k + r)
bit_or_fields zero q r h =
    ground (arith, bit_or-zero_both (suc (q * 1)) (q * 1), (let e : r ≡ 0 = omega arith in e))
bit_or_fields (suc k) q r h = ground (
  arith,
  bit_or_step (q * 2 ^ suc k) r,
  bit_or_step r (q * 2 ^ suc k),
  scaled q k,
  pow-suc 2 k,
  bit_or_fields k q (r / 2),
)

bit_and_low : (k a q r : ℕ) → a ≡ q * 2 ^ k + r → r < 2 ^ k → bit_and a (2 ^ k - 1) ≡ r
bit_and_low zero a q r e h = omega (arith, bit_and-zero a)
bit_and_low (suc k) a q r e h = ground (
  arith,
  bit_and_step a (2 ^ suc k - 1),
  scaled q k,
  pow-suc 2 k,
  one-le-pow k 2,
  bit_and_low k (a / 2) q (r / 2),
)

-- A mask of `k` low ones is the remainder by `2 ^ k`.
pub bit_and_mask : (k a : ℕ) → bit_and a (2 ^ k - 1) ≡ a % 2 ^ k
bit_and_mask k a =
    bit_and_low k a (a / 2 ^ k) (a % 2 ^ k) (ground (arith, one-le-pow k 2))
      (ground (arith, one-le-pow k 2))

-- A test of the top bit of a word of `k + 1` bits.
pub bit_and_top :
    (k a : ℕ) → a < 2 ^ suc k → bit_and a (2 ^ k) ≡ (if ltb a (2 ^ k) then 0 else 2 ^ k)
bit_and_top zero zero h = omega (arith, bit_and_step 0 1)
bit_and_top zero (suc zero) h = omega (arith, bit_and_step 1 1)
bit_and_top zero (suc (suc a)) h = absurd (omega arith)
bit_and_top (suc k) a h = ground (
  arith,
  bit_and_step a (2 ^ suc k),
  pow-suc 2 k,
  pow-suc 2 (suc k),
  bit_and_top k (a / 2) (omega (arith, pow-suc 2 k, pow-suc 2 (suc k))),
)

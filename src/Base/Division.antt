-- ===== src/Base/Division.antt =====
-- A number written with two digits in a base.
use Prim.Native.Nat.{ℕ, ◌+◌, ◌*◌, ◌/◌, ◌%◌, ◌<◌}
use mathlib.Core.Path.{◌≡◌, ap}
use native.Mathlib.Nat.{mul-add-div_right, div-eq_of_lt, div-add-mod'}
use native.Mathlib.Omega.{arith}

pub two_digits : (i j p : ℕ) → j < p → ((i * p + j) / p ≡ i) × ((i * p + j) % p ≡ j)
two_digits i j p h =
    let q : (i * p + j) / p ≡ i + j / p = mul-add-div_right (omega arith) i j in
    let z : j / p ≡ 0 = div-eq_of_lt h in
    let e : (i * p + j) / p ≡ i = omega (arith, q, z) in
    (e, omega (arith, div-add-mod' (i * p + j) p, ap (λ (t : ℕ). t * p) e))

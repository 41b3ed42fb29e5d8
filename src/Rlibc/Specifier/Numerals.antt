-- ===== src/Rlibc/Specifier/Numerals.antt =====
-- The decimal numerals in a specification: what a run of digits stands for, and that pushing its
-- digits one by one computes it.
use ron.Base.{ℕ, ◌+◌, ◌*◌, ◌-◌, ◌^◌, ◌≤◌, ◌<◌, ◌≡◌, true, lt→ltb, List, [], ◌∷◌, All, arith}
use ron.Base.Run.{ran}
use ron.Rlibc.Specifier.{is_digit, push_digit}

-- The number that digits stand for, after digits that stand for `n`.
abbrev pub decimal : ℕ → List ℕ → ℕ
decimal n [] = n
decimal n (d ∷ ds) = decimal (n * 10 + (d - b'0')) ds

abbrev pub AllDigits : List ℕ → Type 0
AllDigits ds = All (λ d. is_digit d ≡ true) ds

le-decimal : (ds : List ℕ) (n : ℕ) → n ≤ decimal n ds
le-decimal [] n = omega arith
le-decimal (d ∷ ds) n = omega (arith, le-decimal ds (n * 10 + (d - b'0')))

-- No digit of a numeral that fits in 64 bits overflows.
pub push_digit-fits :
    (d : ℕ) (ds : List ℕ) (n : ℕ)
    → decimal n (d ∷ ds) < 2 ^ 64
    → push_digit n d ≡ ran (n * 10 + (d - b'0'))
unfolding push_digit
push_digit-fits d ds n h =
    rw (lt→ltb (n * 10 + (d - b'0')) (2 ^ 64) (omega (arith, le-decimal ds (n * 10 + (d - b'0')))))

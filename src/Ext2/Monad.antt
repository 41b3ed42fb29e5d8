-- ===== src/Ext2/Monad.antt =====
-- Code that may panic, may return `None`, and changes a state in every case.
use ron.Base.{ℕ, ◌+◌, ◌-◌, ◌*◌, ◌/◌, ◌%◌, ◌^◌, ◌==◌, ltb, Bool, if◌then◌else◌, Option, none, some}
use ron.Base.Run.{Run, panic, ran}

abbrev pub M : Type 0 → Type 0 → Type 0
M S A = S → Run (Option A × S)

-- What follows a value, if there is one.
abbrev pub follow : {S A B : Type 0} → Run (Option A × S) → (A → M S B) → Run (Option B × S)
follow panic f = panic
follow (ran (none, s)) f = ran (none, s)
follow (ran (some a, s)) f = f a s

infixl 5 ◌>>=◌ ◌>>◌
abbrev pub ◌>>=◌ : {S A B : Type 0} → M S A → (A → M S B) → M S B
◌>>=◌ m f s = follow (m s) f

abbrev pub ◌>>◌ : {S B : Type 0} → M S (Unit {0}) → M S B → M S B
◌>>◌ m k s = follow (m s) (λ _. k)

abbrev pub pure : {S A : Type 0} → A → M S A
pure a s = ran (some a, s)

-- `return None`.
abbrev pub fail : {S A : Type 0} → M S A
fail s = ran (none, s)

abbrev pub abort : {S A : Type 0} → M S A
abort s = panic

-- `e?`.
abbrev pub lift : {S A : Type 0} → Option A → M S A
lift o s = ran (o, s)

-- The result as a value, `None` too.
abbrev pub reified : {S A : Type 0} → Run (Option A × S) → Run (Option (Option A) × S)
reified panic = panic
reified (ran (o, s)) = ran (some o, s)

abbrev pub attempt : {S A : Type 0} → M S A → M S (Option A)
attempt m s = reified (m s)

abbrev pub ignored : {S A : Type 0} → Run (Option A × S) → Run (Option (Unit {0}) × S)
ignored panic = panic
ignored (ran (o, s)) = ran (some tt, s)

-- A call whose result is dropped.
abbrev pub ignore : {S A : Type 0} → M S A → M S (Unit {0})
ignore m s = ignored (m s)

abbrev pub get : {S : Type 0} → M S S
get s = ran (some s, s)

abbrev pub put : {S : Type 0} → S → M S (Unit {0})
put s' s = ran (some tt, s')

abbrev pub assert : {S : Type 0} → Bool → M S (Unit {0})
assert b s = if b then ran (some tt, s) else panic

abbrev pub run : {S A : Type 0} → Run A → M S A
run panic s = panic
run (ran a) s = ran (some a, s)

-- Checked arithmetic on words of `w` bits.
abbrev pub add : {S : Type 0} → ℕ → ℕ → ℕ → M S ℕ
add w a b s = if ltb (a + b) (2 ^ w) then ran (some (a + b), s) else panic

abbrev pub mul : {S : Type 0} → ℕ → ℕ → ℕ → M S ℕ
mul w a b s = if ltb (a * b) (2 ^ w) then ran (some (a * b), s) else panic

abbrev pub sub : {S : Type 0} → ℕ → ℕ → M S ℕ
sub a b s = if ltb a b then panic else ran (some (a - b), s)

abbrev pub div : {S : Type 0} → ℕ → ℕ → M S ℕ
div a b s = if b == 0 then panic else ran (some (a / b), s)

abbrev pub rem : {S : Type 0} → ℕ → ℕ → M S ℕ
rem a b s = if b == 0 then panic else ran (some (a % b), s)

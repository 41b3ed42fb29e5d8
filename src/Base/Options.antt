-- ===== src/Base/Options.antt =====
-- The `?` operator on options, and tables with gaps.
use Prim.Native.Nat.{ℕ, zero, suc, ◌+◌}
use mathlib.Core.Path.{◌≡◌, subst}
use native.Mathlib.Omega.{arith}
use mathlib.Core.Option.{Option, none, some}
use mathlib.Core.List.{List, [], ◌∷◌}
use ron.Base.Lists.{get_elem?}

infixl 5 ◌>>=◌
abbrev pub ◌>>=◌ {ℓ κ} : {A : Type ℓ} {B : Type κ} → Option A → (A → Option B) → Option B
none >>= f = none
some a >>= f = f a

-- The entry of a table at an index, if there is one.
abbrev pub entry {ℓ} : {A : Type ℓ} → List (Option A) → ℕ → Option A
entry table i = get_elem? table i >>= λ e. e

-- Every entry of a table has a property of its index and its value, the first one at `i`.
abbrev pub AllFrom {ℓ} : {A : Type ℓ} → ℕ → (ℕ → A → Type 0) → List (Option A) → Type 0
AllFrom i P [] = Unit
AllFrom i P (none ∷ xs) = AllFrom (suc i) P xs
AllFrom i P (some a ∷ xs) = P i a × AllFrom (suc i) P xs

pub AllFrom-entry {ℓ} :
    {A : Type ℓ} (i : ℕ) (P : ℕ → A → Type 0) (xs : List (Option A)) (k : ℕ) {a : A}
    → AllFrom i P xs
    → entry xs k ≡ some a
    → P (i + k) a
AllFrom-entry i P [] k all e = absurd cc
AllFrom-entry i P (none ∷ xs) zero all e = absurd cc
AllFrom-entry i P (some x ∷ xs) zero {a} all e =
    let same : x ≡ a = cc in subst (λ (n : ℕ). P n a) (omega arith) (subst (P i) same all.0)
AllFrom-entry i P (none ∷ xs) (suc k) {a} all e =
    subst (λ (n : ℕ). P n a) (omega arith) (AllFrom-entry (suc i) P xs k all e)
AllFrom-entry i P (some x ∷ xs) (suc k) {a} all e =
    subst (λ (n : ℕ). P n a) (omega arith) (AllFrom-entry (suc i) P xs k all.1 e)

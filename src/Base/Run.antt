-- ===== src/Base/Run.antt =====
-- A computation that may panic: an index out of range, an unmapped address, a checked overflow
-- or a division by zero ends the kernel.

use mathlib.Core.Path.{◌≡◌, refl}

pub data Run {ℓ} (A : Type ℓ) : Type ℓ where
  panic : Run A
  ran : A → Run A

infixl 5 ◌>>=◌
abbrev pub ◌>>=◌ {ℓ κ} : {A : Type ℓ} {B : Type κ} → Run A → (A → Run B) → Run B
panic >>= f = panic
ran a >>= f = f a

-- The run ends, with a value of the given property.
abbrev pub Ends {ℓ} : {A : Type ℓ} → (A → Type 0) → Run A → Type 0
Ends P panic = ⊥
Ends P (ran a) = P a

-- If the run ends, its value has the property.
abbrev pub Keeps {ℓ κ} : {A : Type ℓ} → (A → Type κ) → Run A → Type κ
Keeps P panic = Unit
Keeps P (ran a) = P a

pub Keeps-bind {ℓ κ μ ν} :
    {A : Type ℓ} {B : Type κ} (P : A → Type μ) (Q : B → Type ν) (m : Run A) (f : A → Run B)
    → Keeps P m
    → ((a : A) → P a → Keeps Q (f a))
    → Keeps Q (m >>= f)
Keeps-bind P Q panic f h k = tt
Keeps-bind P Q (ran a) f h k = k a h

pub Keeps-any {ℓ} : {A : Type ℓ} (m : Run A) → Keeps (λ a. Unit {0}) m
Keeps-any panic = tt
Keeps-any (ran a) = tt

pub Ends-bind {ℓ κ} :
    {A : Type ℓ} {B : Type κ} (P : A → Type 0) (Q : B → Type 0) (m : Run A) (f : A → Run B)
    → Ends P m
    → ((a : A) → P a → Ends Q (f a))
    → Ends Q (m >>= f)
Ends-bind P Q panic f h k = absurd h
Ends-bind P Q (ran a) f h k = k a h

pub Ends-map {ℓ} :
    {A : Type ℓ} (P Q : A → Type 0) (m : Run A) → Ends P m → ((a : A) → P a → Q a) → Ends Q m
Ends-map P Q panic h k = h
Ends-map P Q (ran a) h k = k a h

pub Ends-value {ℓ} :
    {A : Type ℓ} (P : A → Type 0) (m : Run A) → Ends P m → (a : A) × (m ≡ ran a) × P a
Ends-value P panic h = absurd h
Ends-value P (ran a) h = (a, refl, h)

-- Whatever runs before a panic, the whole panics.
pub bind-panic {ℓ κ} :
    {A : Type ℓ} {B : Type κ} (m : Run A) (f : A → Run B)
    → ((a : A) → f a ≡ panic)
    → (m >>= f) ≡ panic
bind-panic panic f h = refl
bind-panic (ran a) f h = h a

pub Ends-Keeps {ℓ} :
    {A : Type ℓ} (P Q : A → Type 0) (m : Run A) → Ends P m → ((a : A) → P a → Q a) → Keeps Q m
Ends-Keeps P Q panic h k = tt
Ends-Keeps P Q (ran a) h k = k a h

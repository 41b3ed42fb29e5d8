-- ===== src/Base/Slots.antt =====
-- A vector of optional elements, where an element keeps its index: free slots are filled from the
-- front, and free slots at the end are dropped.
use Prim.Native.Nat.{ℕ, zero, suc, ◌+◌, ◌<◌, ◌≤◌}
use mathlib.Core.Path.{◌≡◌, refl}
use mathlib.Core.Bool.{Bool, true, false}
use mathlib.Core.Option.{Option, none, some}
use mathlib.Core.List.{List, [], ◌∷◌, ◌++◌}
use native.Mathlib.Omega.{arith}
use ron.Base.Tests.{if◌then◌else◌, ◌==◌}
use ron.Base.Lists.{length, set, replicate}
use ron.Base.Options.{entry}
use ron.Base.Run.{Run, panic, ran}

abbrev pub one_if : Bool → ℕ
one_if true = 1
one_if false = 0

module _ {A : Type 0} where
  -- `slots[i].unwrap()`.
  abbrev pub unwrap_at : List (Option A) → ℕ → Run A
  unwrap_at slots i = elim (entry slots i) [ none ↦ panic | some a ↦ ran a ]

  -- A slot in front of drained slots.
  abbrev pub keep_slot : Option A → List (Option A) → List (Option A)
  keep_slot none [] = []
  keep_slot none (y ∷ ys) = none ∷ y ∷ ys
  keep_slot (some a) ys = some a ∷ ys

  -- The loop that pops while the last slot is free.
  unfoldable pub drain : List (Option A) → List (Option A)
  drain [] = []
  drain (x ∷ xs) = keep_slot x (drain xs)

  -- The first free slot, or a new one, is filled: its index and the slots.
  unfoldable pub place : List (Option A) → A → ℕ × List (Option A)
  place [] a = (0, some a ∷ [])
  place (none ∷ xs) a = (0, some a ∷ xs)
  place (some x ∷ xs) a = let (i, ys) = place xs a in (suc i, some x ∷ ys)

  -- The number of slots with an element that passes the test.
  unfoldable pub count : (A → Bool) → List (Option A) → ℕ
  count p [] = 0
  count p (none ∷ xs) = count p xs
  count p (some a ∷ xs) = one_if (p a) + count p xs

  -- The last slot, if there is one, is not free.
  abbrev pub IsDrained : List (Option A) → Type 0
  IsDrained xs = drain xs ≡ xs

  keep_slot-entry :
      (x : Option A) (ys : List (Option A)) (j : ℕ) → entry (keep_slot x ys) j ≡ entry (x ∷ ys) j
  keep_slot-entry none [] zero = refl
  keep_slot-entry none [] (suc j) = refl
  keep_slot-entry none (y ∷ ys) j = refl
  keep_slot-entry (some a) ys j = refl

  pub entry-drain : (xs : List (Option A)) (j : ℕ) → entry (drain xs) j ≡ entry xs j
  unfolding drain
  entry-drain [] j = refl
  entry-drain (x ∷ xs) zero = rw (keep_slot-entry x (drain xs) 0)
  entry-drain (x ∷ xs) (suc j) = rw (keep_slot-entry x (drain xs) (suc j)) (entry-drain xs j)

  keep_slot-count :
      (p : A → Bool) (x : Option A) (ys : List (Option A))
      → count p (keep_slot x ys) ≡ count p (x ∷ ys)
  unfolding count
  keep_slot-count p none [] = refl
  keep_slot-count p none (y ∷ ys) = refl
  keep_slot-count p (some a) ys = refl

  count-cons :
      (p : A → Bool) (x : Option A) (xs ys : List (Option A))
      → count p xs ≡ count p ys
      → count p (x ∷ xs) ≡ count p (x ∷ ys)
  unfolding count
  count-cons p none xs ys e = e
  count-cons p (some a) xs ys e = rw e

  pub count-drain : (p : A → Bool) (xs : List (Option A)) → count p (drain xs) ≡ count p xs
  unfolding drain
  count-drain p [] = refl
  count-drain p (x ∷ xs) =
      rw (keep_slot-count p x (drain xs)) (count-cons p x (drain xs) xs (count-drain p xs))

  keep_slot-drain :
      (x : Option A) (ys : List (Option A))
      → drain ys ≡ ys
      → drain (keep_slot x ys) ≡ keep_slot x ys
  unfolding drain
  keep_slot-drain none [] e = refl
  keep_slot-drain none (y ∷ ys) e = rw e
  keep_slot-drain (some a) ys e = rw e

  pub drain-IsDrained : (xs : List (Option A)) → IsDrained (drain xs)
  unfolding drain
  drain-IsDrained [] = refl
  drain-IsDrained (x ∷ xs) = keep_slot-drain x (drain xs) (drain-IsDrained xs)

  -- A slot that changes.
  pub count-set :
      (p : A → Bool) (xs : List (Option A)) (i : ℕ) (v : Option A) {a : A}
      → entry xs i ≡ some a
      → count p (set xs i v) + one_if (p a) ≡ count p (v ∷ []) + count p xs
  unfolding count
  count-set p [] i v e = absurd cc
  count-set p (none ∷ xs) zero v e = absurd cc
  count-set p (some x ∷ xs) zero none {a} e = let same : x ≡ a = cc in rw same (omega arith)
  count-set p (some x ∷ xs) zero (some b) {a} e = let same : x ≡ a = cc in rw same (omega arith)
  count-set p (none ∷ xs) (suc i) v e = count-set p xs i v e
  count-set p (some x ∷ xs) (suc i) none e = omega (arith, count-set p xs i none e)
  count-set p (some x ∷ xs) (suc i) (some b) e = omega (arith, count-set p xs i (some b) e)

  pub count-place :
      (p : A → Bool) (xs : List (Option A)) (a : A)
      → count p (place xs a).1 ≡ one_if (p a) + count p xs
  unfolding count place
  count-place p [] a = refl
  count-place p (none ∷ xs) a = refl
  count-place p (some x ∷ xs) a = omega (arith, count-place p xs a)

  -- The new element stands at the index that is returned, which was free; no other moves.
  pub entry-place :
      (xs : List (Option A)) (a : A) (j : ℕ)
      → entry (place xs a).1 j ≡ (if j == (place xs a).0 then some a else entry xs j)
  unfolding place
  entry-place [] a zero = refl
  entry-place [] a (suc j) = ground arith
  entry-place (none ∷ xs) a zero = refl
  entry-place (none ∷ xs) a (suc j) = ground arith
  entry-place (some x ∷ xs) a zero = ground arith
  entry-place (some x ∷ xs) a (suc j) = ground (arith, entry-place xs a j)

  pub place-free : (xs : List (Option A)) (a : A) → entry xs (place xs a).0 ≡ none
  unfolding place
  place-free [] a = refl
  place-free (none ∷ xs) a = refl
  place-free (some x ∷ xs) a = place-free xs a

  pub count-entry :
      (p : A → Bool) (xs : List (Option A)) (i : ℕ) {a : A}
      → entry xs i ≡ some a
      → p a ≡ true
      → 1 ≤ count p xs
  unfolding count
  count-entry p [] i e h = absurd cc
  count-entry p (none ∷ xs) zero e h = absurd cc
  count-entry p (some x ∷ xs) zero {a} e h = let same : x ≡ a = cc in rw (same, h) (omega arith)
  count-entry p (none ∷ xs) (suc i) e h = count-entry p xs i e h
  count-entry p (some x ∷ xs) (suc i) e h = omega (arith, count-entry p xs i e h)

  pub entry-lt : (xs : List (Option A)) (i : ℕ) {a : A} → entry xs i ≡ some a → i < length xs
  entry-lt [] i e = absurd cc
  entry-lt (x ∷ xs) zero e = omega arith
  entry-lt (x ∷ xs) (suc i) e = omega (arith, entry-lt xs i e)

  pub entry-set :
      (xs : List (Option A)) (i j : ℕ) (v : Option A)
      → i < length xs
      → entry (set xs i v) j ≡ (if j == i then v else entry xs j)
  entry-set [] i j v h = absurd (omega arith)
  entry-set (x ∷ xs) zero zero v h = refl
  entry-set (x ∷ xs) zero (suc j) v h = ground arith
  entry-set (x ∷ xs) (suc i) zero v h = ground arith
  entry-set (x ∷ xs) (suc i) (suc j) v h = ground (arith, entry-set xs i j v (omega arith))

  pub unwrap_at-some :
      (xs : List (Option A)) (i : ℕ) {a : A} → entry xs i ≡ some a → unwrap_at xs i ≡ ran a
  unwrap_at-some xs i e = rw (e, unwrap_at) refl

  -- A free slot that is freed, and one that is filled.
  pub set-none : (xs : List (Option A)) (i : ℕ) → entry xs i ≡ none → set xs i none ≡ xs
  set-none [] i e = refl
  set-none (none ∷ xs) zero e = refl
  set-none (some x ∷ xs) zero e = absurd cc
  set-none (x ∷ xs) (suc i) e = rw (set-none xs i e) refl

  pub count-fill :
      (p : A → Bool) (xs : List (Option A)) (i : ℕ) (a : A)
      → entry xs i ≡ none
      → i < length xs
      → count p (set xs i (some a)) ≡ one_if (p a) + count p xs
  unfolding count
  count-fill p [] i a e h = absurd (omega arith)
  count-fill p (none ∷ xs) zero a e h = refl
  count-fill p (some x ∷ xs) zero a e h = absurd cc
  count-fill p (none ∷ xs) (suc i) a e h = count-fill p xs i a e (omega arith)
  count-fill p (some x ∷ xs) (suc i) a e h = omega (arith, count-fill p xs i a e (omega arith))

  -- Free slots behind the others.
  pub count-free :
      (p : A → Bool) (xs : List (Option A)) (n : ℕ) → count p (xs ++ replicate n none) ≡ count p xs
  unfolding count
  count-free p [] zero = refl
  count-free p [] (suc n) = count-free p [] n
  count-free p (none ∷ xs) n = count-free p xs n
  count-free p (some x ∷ xs) n = rw (count-free p xs n) refl

  pub entry-free : (xs : List (Option A)) (n j : ℕ) → entry (xs ++ replicate n none) j ≡ entry xs j
  entry-free [] zero j = refl
  entry-free [] (suc n) zero = refl
  entry-free [] (suc n) (suc j) = entry-free [] n j
  entry-free (x ∷ xs) n zero = refl
  entry-free (x ∷ xs) n (suc j) = entry-free xs n j

  pub length-free : (xs : List (Option A)) (n : ℕ) → length (xs ++ replicate n none) ≡ length xs + n
  length-free [] zero = refl
  length-free [] (suc n) = omega (arith, length-free [] n)
  length-free (x ∷ xs) n = omega (arith, length-free xs n)

  pub entry-out : (xs : List (Option A)) (i : ℕ) → length xs ≤ i → entry xs i ≡ none
  entry-out [] i h = refl
  entry-out (x ∷ xs) zero h = absurd (omega arith)
  entry-out (x ∷ xs) (suc i) h = entry-out xs i (omega arith)

  pub entry-push :
      (xs : List (Option A)) (a : A) (j : ℕ)
      → entry (xs ++ (some a ∷ [])) j ≡ (if j == length xs then some a else entry xs j)
  entry-push [] a zero = refl
  entry-push [] a (suc j) = ground arith
  entry-push (x ∷ xs) a zero = ground arith
  entry-push (x ∷ xs) a (suc j) = ground (arith, entry-push xs a j)

  pub count_mono :
      (q p : A → Bool) (xs : List (Option A))
      → ((a : A) → one_if (q a) ≤ one_if (p a))
      → count q xs ≤ count p xs
  unfolding count
  count_mono q p [] h = omega arith
  count_mono q p (none ∷ xs) h = count_mono q p xs h
  count_mono q p (some a ∷ xs) h = omega (arith, count_mono q p xs h, h a)

  pub unwrap_at-none : (xs : List (Option A)) (i : ℕ) → entry xs i ≡ none → unwrap_at xs i ≡ panic
  unwrap_at-none xs i e = rw (e, unwrap_at) refl

-- ===== src/Base/Drained.antt =====
-- Tables without a free slot at the end, when a slot is freed, filled or pushed.
use ron.Base.{
  ℕ, zero, suc, ◌≤◌, ◌<◌, ◌≡◌, refl, Option, none, some, List, [], ◌∷◌, ◌++◌, length, length-set,
  length-append, set, arith,
}
use ron.Base.Slots.{drain, keep_slot, IsDrained}

module _ {A : Type 0} where
  kept_tail : (xs ys : List (Option A)) → keep_slot none ys ≡ none ∷ xs → ys ≡ xs
  kept_tail xs [] e = absurd cc
  kept_tail xs (y ∷ ys) e = cc

  IsDrained-tail : (x : Option A) (xs : List (Option A)) → IsDrained (x ∷ xs) → IsDrained xs
  unfolding drain
  IsDrained-tail none xs e = kept_tail xs (drain xs) e
  IsDrained-tail (some x) xs e = cc

  keep_slot-cons : (x : Option A) (ys : List (Option A)) → 1 ≤ length ys → keep_slot x ys ≡ x ∷ ys
  keep_slot-cons x [] h = absurd (omega arith)
  keep_slot-cons none (y ∷ ys) h = refl
  keep_slot-cons (some a) (y ∷ ys) h = refl

  -- A slot that is freed before the last one.
  pub drain-inner :
      (xs : List (Option A)) (i : ℕ)
      → IsDrained xs
      → suc i < length xs
      → drain (set xs i none) ≡ set xs i none
  unfolding drain
  drain-inner [] i d h = absurd (omega arith)
  drain-inner (x ∷ []) i d h = absurd (omega arith)
  drain-inner (x ∷ y ∷ xs) zero d h = rw (IsDrained-tail x (y ∷ xs) d) refl
  drain-inner (x ∷ y ∷ xs) (suc i) d h =
      let long : length (set (y ∷ xs) i none) ≡ length (y ∷ xs) = length-set (y ∷ xs) i none in
      rw (drain-inner (y ∷ xs) i (IsDrained-tail x (y ∷ xs) d) (omega arith))
        (keep_slot-cons x (set (y ∷ xs) i none) (omega arith))

  -- Drained slots stay drained when one is filled or another is pushed.
  pub IsDrained-some :
      (xs : List (Option A)) (i : ℕ) (a : A)
      → i < length xs
      → IsDrained xs
      → IsDrained (set xs i (some a))
  unfolding drain
  IsDrained-some [] i a h d = absurd (omega arith)
  IsDrained-some (x ∷ xs) zero a h d = rw (IsDrained-tail x xs d) refl
  IsDrained-some (x ∷ []) (suc i) a h d = absurd (omega arith)
  IsDrained-some (x ∷ y ∷ xs) (suc i) a h d =
      let long : length (set (y ∷ xs) i (some a)) ≡ length (y ∷ xs) =
        length-set (y ∷ xs) i (some a) in
      rw (IsDrained-some (y ∷ xs) i a (omega arith) (IsDrained-tail x (y ∷ xs) d))
        (keep_slot-cons x (set (y ∷ xs) i (some a)) (omega arith))

  pub IsDrained-push :
      (xs : List (Option A)) (a : A) → IsDrained xs → IsDrained (xs ++ (some a ∷ []))
  unfolding drain
  IsDrained-push [] a d = refl
  IsDrained-push (x ∷ xs) a d =
      rw (IsDrained-push xs a (IsDrained-tail x xs d))
        (keep_slot-cons x (xs ++ (some a ∷ [])) (omega (arith, length-append xs (some a ∷ []))))

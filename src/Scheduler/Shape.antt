-- ===== src/Scheduler/Shape.antt =====
-- The task list and the signal queues of kernel/src/scheduler.rs have free slots at the same places.
use ron.Base.{ℕ, zero, suc, ◌≡◌, refl, Option, none, some, List, [], ◌∷◌, ◌++◌, length, set, arith}
use ron.Base.Options.{entry}
use ron.Base.Slots.{drain, keep_slot}

module _ {A B : Type 0} where
  abbrev pub SameShape : List (Option A) → List (Option B) → Type 0
  SameShape [] [] = Unit
  SameShape [] (y ∷ ys) = ⊥
  SameShape (x ∷ xs) [] = ⊥
  SameShape (none ∷ xs) (none ∷ ys) = SameShape xs ys
  SameShape (none ∷ xs) (some b ∷ ys) = ⊥
  SameShape (some a ∷ xs) (none ∷ ys) = ⊥
  SameShape (some a ∷ xs) (some b ∷ ys) = SameShape xs ys

  pub SameShape-length :
      (xs : List (Option A)) (ys : List (Option B)) → SameShape xs ys → length xs ≡ length ys
  SameShape-length [] [] h = refl
  SameShape-length [] (y ∷ ys) h = absurd h
  SameShape-length (x ∷ xs) [] h = absurd h
  SameShape-length (none ∷ xs) (none ∷ ys) h = omega (arith, SameShape-length xs ys h)
  SameShape-length (none ∷ xs) (some b ∷ ys) h = absurd h
  SameShape-length (some a ∷ xs) (none ∷ ys) h = absurd h
  SameShape-length (some a ∷ xs) (some b ∷ ys) h = omega (arith, SameShape-length xs ys h)

  pub SameShape-entry :
      (xs : List (Option A)) (ys : List (Option B)) (i : ℕ) {a : A}
      → SameShape xs ys
      → entry xs i ≡ some a
      → (b : B) × (entry ys i ≡ some b)
  SameShape-entry [] ys i h e = absurd cc
  SameShape-entry (x ∷ xs) [] i h e = absurd h
  SameShape-entry (none ∷ xs) (none ∷ ys) zero h e = absurd cc
  SameShape-entry (none ∷ xs) (none ∷ ys) (suc i) h e = SameShape-entry xs ys i h e
  SameShape-entry (none ∷ xs) (some b ∷ ys) i h e = absurd h
  SameShape-entry (some a ∷ xs) (none ∷ ys) i h e = absurd h
  SameShape-entry (some a ∷ xs) (some b ∷ ys) zero h e = (b, refl)
  SameShape-entry (some a ∷ xs) (some b ∷ ys) (suc i) h e = SameShape-entry xs ys i h e

  -- Both slots are freed.
  pub SameShape-free :
      (xs : List (Option A)) (ys : List (Option B)) (i : ℕ)
      → SameShape xs ys
      → SameShape (set xs i none) (set ys i none)
  SameShape-free [] [] i h = tt
  SameShape-free [] (y ∷ ys) i h = absurd h
  SameShape-free (x ∷ xs) [] i h = absurd h
  SameShape-free (none ∷ xs) (none ∷ ys) zero h = h
  SameShape-free (none ∷ xs) (none ∷ ys) (suc i) h = SameShape-free xs ys i h
  SameShape-free (none ∷ xs) (some b ∷ ys) i h = absurd h
  SameShape-free (some a ∷ xs) (none ∷ ys) i h = absurd h
  SameShape-free (some a ∷ xs) (some b ∷ ys) zero h = h
  SameShape-free (some a ∷ xs) (some b ∷ ys) (suc i) h = SameShape-free xs ys i h

  keep_slot-SameShape :
      (x : Option A) (y : Option B) (xs : List (Option A)) (ys : List (Option B))
      → SameShape (x ∷ []) (y ∷ [])
      → SameShape xs ys
      → SameShape (keep_slot x xs) (keep_slot y ys)
  keep_slot-SameShape none none [] [] t h = tt
  keep_slot-SameShape none none [] (y ∷ ys) t h = absurd h
  keep_slot-SameShape none none (x ∷ xs) [] t h = absurd h
  keep_slot-SameShape none none (x ∷ xs) (y ∷ ys) t h = h
  keep_slot-SameShape none (some b) xs ys t h = absurd t
  keep_slot-SameShape (some a) none xs ys t h = absurd t
  keep_slot-SameShape (some a) (some b) xs ys t h = h

  pub SameShape-drain :
      (xs : List (Option A)) (ys : List (Option B))
      → SameShape xs ys
      → SameShape (drain xs) (drain ys)
  unfolding drain
  SameShape-drain [] [] h = tt
  SameShape-drain [] (y ∷ ys) h = absurd h
  SameShape-drain (x ∷ xs) [] h = absurd h
  SameShape-drain (none ∷ xs) (none ∷ ys) h =
      keep_slot-SameShape none none (drain xs) (drain ys) tt (SameShape-drain xs ys h)
  SameShape-drain (none ∷ xs) (some b ∷ ys) h = absurd h
  SameShape-drain (some a ∷ xs) (none ∷ ys) h = absurd h
  SameShape-drain (some a ∷ xs) (some b ∷ ys) h = SameShape-drain xs ys h

  pub SameShape-push :
      (xs : List (Option A)) (ys : List (Option B)) (a : A) (b : B)
      → SameShape xs ys
      → SameShape (xs ++ (some a ∷ [])) (ys ++ (some b ∷ []))
  SameShape-push [] [] a b h = tt
  SameShape-push [] (y ∷ ys) a b h = absurd h
  SameShape-push (x ∷ xs) [] a b h = absurd h
  SameShape-push (none ∷ xs) (none ∷ ys) a b h = SameShape-push xs ys a b h
  SameShape-push (none ∷ xs) (some y ∷ ys) a b h = absurd h
  SameShape-push (some x ∷ xs) (none ∷ ys) a b h = absurd h
  SameShape-push (some x ∷ xs) (some y ∷ ys) a b h = SameShape-push xs ys a b h

  -- A task or a queue changes in its slot.
  pub SameShape-left :
      (xs : List (Option A)) (ys : List (Option B)) (i : ℕ) (a' : A) {a : A}
      → SameShape xs ys
      → entry xs i ≡ some a
      → SameShape (set xs i (some a')) ys
  SameShape-left [] ys i a' h e = absurd cc
  SameShape-left (x ∷ xs) [] i a' h e = absurd h
  SameShape-left (none ∷ xs) (none ∷ ys) zero a' h e = absurd cc
  SameShape-left (none ∷ xs) (none ∷ ys) (suc i) a' h e = SameShape-left xs ys i a' h e
  SameShape-left (none ∷ xs) (some b ∷ ys) i a' h e = absurd h
  SameShape-left (some x ∷ xs) (none ∷ ys) i a' h e = absurd h
  SameShape-left (some x ∷ xs) (some b ∷ ys) zero a' h e = h
  SameShape-left (some x ∷ xs) (some b ∷ ys) (suc i) a' h e = SameShape-left xs ys i a' h e

pub SameShape-sym :
    {A B : Type 0} (xs : List (Option A)) (ys : List (Option B)) → SameShape xs ys → SameShape ys xs
SameShape-sym [] [] h = tt
SameShape-sym [] (y ∷ ys) h = absurd h
SameShape-sym (x ∷ xs) [] h = absurd h
SameShape-sym (none ∷ xs) (none ∷ ys) h = SameShape-sym xs ys h
SameShape-sym (none ∷ xs) (some b ∷ ys) h = absurd h
SameShape-sym (some a ∷ xs) (none ∷ ys) h = absurd h
SameShape-sym (some a ∷ xs) (some b ∷ ys) h = SameShape-sym xs ys h

pub SameShape-right :
    {A B : Type 0} (xs : List (Option A)) (ys : List (Option B)) (i : ℕ) (b' : B) {b : B}
    → SameShape xs ys
    → entry ys i ≡ some b
    → SameShape xs (set ys i (some b'))
SameShape-right xs ys i b' h e =
    SameShape-sym (set ys i (some b')) xs (SameShape-left ys xs i b' (SameShape-sym xs ys h) e)

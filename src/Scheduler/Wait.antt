-- ===== src/Scheduler/Wait.antt =====
-- The wait for a child in `tick` of kernel/src/scheduler.rs.
use ron.Base.{
  ℕ, zero, suc, ◌≤◌, ◌≡◌, refl, Option, none, some, List, [], ◌∷◌, Bool, true, false, ◌&&◌,
  if◌then◌else◌, inl, inr, Bool-cases, Option-cases, set, arith,
}
use ron.Base.Options.{entry}
use ron.Base.Run.{Run, ran, ◌>>=◌, Ends, Ends-bind}
use ron.Base.Slots.{count, count_mono}
use ron.Process.{WaitInformation, WaitAction, ProcessState}
use ron.Tasks.{Process, acknowledged, is_child_of, with_state, wait_for_any}

abbrev pub is_some : {A : Type 0} → Option A → Bool
is_some none = false
is_some (some a) = true

module _ {M N P E : Type 0} where
  abbrev pub is_child : ℕ → Process M N P E → Bool
  is_child our_pid p = is_child_of our_pid p.state_data.parent_pid

  -- A child that has ended and that its parent does not know of.
  abbrev pub is_ended_child : ℕ → Process M N P E → Bool
  is_ended_child our_pid p = is_child our_pid p && is_some (acknowledged p.state_data.state)

  -- Every task has a pid.
  abbrev pub HasPids : List (Option (Process M N P E)) → Type 0
  HasPids [] = Unit
  HasPids (none ∷ list) = HasPids list
  HasPids (some p ∷ list) = ((n : ℕ) × (p.state_data.pid ≡ some n)) × HasPids list

  -- Task `j` was an ended child, what the parent learns is of it, and it may be removed now.
  abbrev pub IsTaken :
      ℕ
      → List (Option (Process M N P E))
      → WaitInformation
      → List (Option (Process M N P E))
      → Type 0
  IsTaken our_pid list info list' =
      (j : ℕ) × (p : Process M N P E) × (state : ProcessState) × (entry list j ≡ some p)
      × (is_child our_pid p ≡ true)
      × (acknowledged p.state_data.state ≡ some (info.action, state))
      × (p.state_data.pid ≡ some info.cpid)
      × (list' ≡ set list j (some (with_state p state)))

  -- What the wait for any child gives: an ended child, or that there is no child, or that none has
  -- ended.
  abbrev pub WaitedAny :
      ℕ
      → List (Option (Process M N P E))
      → Option WaitInformation × Bool × List (Option (Process M N P E))
      → Type 0
  WaitedAny our_pid list (some info, invalid, list') =
      (invalid ≡ false) × IsTaken our_pid list info list'
  WaitedAny our_pid list (none, true, list') = (count (is_child our_pid) list ≡ 0) × (list' ≡ list)
  WaitedAny our_pid list (none, false, list') =
      (1 ≤ count (is_child our_pid) list)
      × (count (is_ended_child our_pid) list ≡ 0)
      × (list' ≡ list)

  IsTaken-cons :
      (our_pid : ℕ) (x : Option (Process M N P E)) (list list' : List (Option (Process M N P E)))
      (info : WaitInformation)
      → IsTaken our_pid list info list'
      → IsTaken our_pid (x ∷ list) info (x ∷ list')
  IsTaken-cons our_pid x list list' info (j, p, state, e, c, a, n, s) =
      (suc j, p, state, e, c, a, n, rw s refl)

  -- A slot that is passed over.
  passed_free :
      (our_pid : ℕ) (list : List (Option (Process M N P E)))
      (r : Option WaitInformation × Bool × List (Option (Process M N P E)))
      → WaitedAny our_pid list r
      → WaitedAny our_pid (none ∷ list) (r.0, r.1, none ∷ r.2)
  unfolding count
  passed_free our_pid list (some info, invalid, list') h =
      (h.0, IsTaken-cons our_pid none list list' info h.1)
  passed_free our_pid list (none, true, list') h = (h.0, rw h.1 refl)
  passed_free our_pid list (none, false, list') h = (h.0, h.1, rw h.2 refl)

  passed_other :
      (our_pid : ℕ) (p : Process M N P E) (list : List (Option (Process M N P E)))
      (r : Option WaitInformation × Bool × List (Option (Process M N P E)))
      → is_child our_pid p ≡ false
      → WaitedAny our_pid list r
      → WaitedAny our_pid (some p ∷ list) (r.0, r.1, some p ∷ r.2)
  unfolding count
  passed_other our_pid p list (some info, invalid, list') c h =
      (h.0, IsTaken-cons our_pid (some p) list list' info h.1)
  passed_other our_pid p list (none, true, list') c h = (ground (arith, h.0), rw h.1 refl)
  passed_other our_pid p list (none, false, list') c h =
      (ground (arith, h.0), ground (arith, h.1), rw h.2 refl)

  passed_child :
      (our_pid : ℕ) (p : Process M N P E) (list : List (Option (Process M N P E)))
      (r : Option WaitInformation × Bool × List (Option (Process M N P E)))
      → is_child our_pid p ≡ true
      → is_some (acknowledged p.state_data.state) ≡ false
      → WaitedAny our_pid list r
      → WaitedAny our_pid (some p ∷ list) (r.0, false, some p ∷ r.2)
  unfolding count
  passed_child our_pid p list (some info, invalid, list') c a h =
      (refl, IsTaken-cons our_pid (some p) list list' info h.1)
  passed_child our_pid p list (none, true, list') c a h =
      let fewer : count (is_ended_child our_pid) list ≤ count (is_child our_pid) list =
        count_mono (is_ended_child our_pid) (is_child our_pid) list (λ q. ground arith) in
      (ground arith, ground (arith, h.0), rw h.1 refl)
  passed_child our_pid p list (none, false, list') c a h =
      (ground (arith, h.0), ground (arith, h.1), rw h.2 refl)

  taken_here :
      (our_pid n : ℕ) (p : Process M N P E) (list : List (Option (Process M N P E)))
      (action : WaitAction) (state : ProcessState)
      → is_child our_pid p ≡ true
      → acknowledged p.state_data.state ≡ some (action, state)
      → p.state_data.pid ≡ some n
      → WaitedAny our_pid
          (some p ∷ list)
          (some (record { cpid = n; action = action }), false, some (with_state p state) ∷ list)
  taken_here our_pid n p list action state c a e = (refl, (zero, p, state, refl, c, a, e, refl))

  abbrev put_front :
      Bool
      → Option (Process M N P E)
      → Option WaitInformation × Bool × List (Option (Process M N P E))
      → Run (Option WaitInformation × Bool × List (Option (Process M N P E)))
  put_front forced x (info, invalid, list') =
      ran (info, (if forced then false else invalid), x ∷ list')

  any_other :
      (our_pid : ℕ) (p : Process M N P E) (list : List (Option (Process M N P E)))
      → is_child our_pid p ≡ false
      → wait_for_any our_pid (some p ∷ list)
        ≡ (wait_for_any our_pid list >>= put_front false (some p))
  unfolding wait_for_any
  any_other our_pid p list c = rw (c, wait_for_any) refl

  any_going :
      (our_pid : ℕ) (p : Process M N P E) (list : List (Option (Process M N P E)))
      → is_child our_pid p ≡ true
      → acknowledged p.state_data.state ≡ none
      → wait_for_any our_pid (some p ∷ list)
        ≡ (wait_for_any our_pid list >>= put_front true (some p))
  unfolding wait_for_any
  any_going our_pid p list c a = rw (c, wait_for_any) (rw (a, wait_for_any) refl)

  any_ended :
      (our_pid n : ℕ) (p : Process M N P E) (list : List (Option (Process M N P E)))
      (action : WaitAction) (state : ProcessState)
      → is_child our_pid p ≡ true
      → acknowledged p.state_data.state ≡ some (action, state)
      → p.state_data.pid ≡ some n
      → wait_for_any our_pid (some p ∷ list)
        ≡ ran (some (record { cpid = n; action = action }), false, some (with_state p state) ∷ list)
  unfolding wait_for_any
  any_ended our_pid n p list action state c a e =
      rw (c, wait_for_any) (rw (a, wait_for_any) (rw e refl))

  -- Where every task has a pid, the wait for any child never panics: it takes a child that has
  -- ended, tells its pid and how it ended, and lets it be removed, and no other task changes; or,
  -- with nothing changed, it tells that there is no child, or that there are children and none of
  -- them has ended.
  pub wait_for_any_lem :
      (our_pid : ℕ) (list : List (Option (Process M N P E)))
      → HasPids list
      → Ends (WaitedAny our_pid list) (wait_for_any our_pid list)
  unfolding wait_for_any count
  wait_for_any_lem our_pid [] h = (refl, refl)
  wait_for_any_lem our_pid (none ∷ list) h =
      Ends-bind (WaitedAny our_pid list) (WaitedAny our_pid (none ∷ list))
        (wait_for_any our_pid list) (λ r. ran (r.0, r.1, none ∷ r.2))
        (wait_for_any_lem our_pid list h) (passed_free our_pid list)
  wait_for_any_lem our_pid (some p ∷ list) h =
      let rest = wait_for_any_lem our_pid list h.1 in
      elim (Bool-cases (is_child our_pid p)) [
        | inl c ↦ elim (Option-cases (acknowledged p.state_data.state)) [
          | inl a ↦ rw (any_going our_pid p list c a) (
              Ends-bind (WaitedAny our_pid list) (WaitedAny our_pid (some p ∷ list))
                (wait_for_any our_pid list) (put_front true (some p)) rest
                (λ r. passed_child our_pid p list r c (rw a refl)))
          | inr ((action, state), a) ↦
              rw (any_ended our_pid h.0.0 p list action state c a h.0.1)
                (taken_here our_pid h.0.0 p list action state c a h.0.1)
        ]
        | inr c ↦ rw (any_other our_pid p list c) (
            Ends-bind (WaitedAny our_pid list) (WaitedAny our_pid (some p ∷ list))
              (wait_for_any our_pid list) (put_front false (some p)) rest
              (λ r. passed_other our_pid p list r c))
      ]

-- ===== src/Scheduler/Changed.antt =====
-- The waits in `tick` of kernel/src/scheduler.rs change the state of one task at most.
use ron.Base.{
  ℕ, zero, suc, ◌≡◌, refl, Option, none, some, List, [], ◌∷◌, Bool, true, false, ◌==◌,
  if◌then◌else◌, ◌⊎◌, inl, inr, Bool-cases, set,
}
use ron.Base.Options.{entry}
use ron.Base.Run.{ran, Keeps, Keeps-bind, Keeps-any}
use ron.Process.{WaitInformation, WaitAction, ProcessState}
use ron.Tasks.{Process, unwrap, acknowledged, with_state, ask_child, ask_task, wait_for}
use ron.Scheduler.Invariant.{pid_of}
use ron.Scheduler.Wait.{WaitedAny, HasPids}

module _ {M N P E : Type 0} where
  -- At most one task changes its state.
  abbrev pub Changed : List (Option (Process M N P E)) → List (Option (Process M N P E)) → Type 0
  Changed list list' =
      (list' ≡ list)
      ⊎ ((j : ℕ) × (p : Process M N P E) × (state : ProcessState) × (entry list j ≡ some p)
          × (list' ≡ set list j (some (with_state p state))))

  pub HasPids-entry :
      (list : List (Option (Process M N P E)))
      → ((i : ℕ) (p : Process M N P E) → entry list i ≡ some p → (n : ℕ) × (pid_of p ≡ some n))
      → HasPids list
  HasPids-entry [] h = tt
  HasPids-entry (none ∷ list) h = HasPids-entry list (λ i. h (suc i))
  HasPids-entry (some p ∷ list) h = (h 0 p refl, HasPids-entry list (λ i. h (suc i)))

  pub WaitedAny-Changed :
      (our_pid : ℕ) (list : List (Option (Process M N P E)))
      (r : Option WaitInformation × Bool × List (Option (Process M N P E)))
      → WaitedAny our_pid list r
      → Changed list r.2
  WaitedAny-Changed our_pid list (some info, invalid, list') (f, (j, p, state, e, c, a, n, s)) =
      inr (j, p, state, e, s)
  WaitedAny-Changed our_pid list (none, true, list') h = inl h.1
  WaitedAny-Changed our_pid list (none, false, list') h = inl h.2

  ask_child-Changed :
      (j : ℕ) (child : Process M N P E) (list : List (Option (Process M N P E)))
      (o : Option (WaitAction × ProcessState))
      → entry list j ≡ some child
      → Keeps (λ r. Changed list r.2) (ask_child j child list o)
  unfolding ask_child
  ask_child-Changed j child list none e = inl refl
  ask_child-Changed j child list (some (action, state)) e =
      Keeps-bind (λ n. Unit {0}) (λ r. Changed list r.2) (unwrap child.state_data.pid)
        (λ n. ran (
          some (record { cpid = n; action = action }),
          false,
          set list j (some (with_state child state)),
        ))
        (Keeps-any (unwrap child.state_data.pid)) (λ n h. inr (j, child, state, e, refl))

  ask_task-Changed :
      (our_pid j : ℕ) (list : List (Option (Process M N P E))) (o : Option (Process M N P E))
      → entry list j ≡ o
      → Keeps (λ r. Changed list r.2) (ask_task our_pid j list o)
  unfolding ask_task
  ask_task-Changed our_pid j list none e = inl refl
  ask_task-Changed our_pid j list (some child) e =
      Keeps-bind (λ n. Unit {0}) (λ r. Changed list r.2) (unwrap child.state_data.parent_pid)
        (λ parent.
          if parent == our_pid
          then ask_child j child list (acknowledged child.state_data.state)
          else ran (none, true, list))
        (Keeps-any (unwrap child.state_data.parent_pid))
        (λ parent h. elim (Bool-cases (parent == our_pid)) [
          | inl t ↦ rw t (ask_child-Changed j child list (acknowledged child.state_data.state) e)
          | inr t ↦ rw t (inl refl)
        ])

  pub wait_for-Changed :
      (our_pid cpid : ℕ) (list : List (Option (Process M N P E)))
      → Keeps (λ r. Changed list r.2) (wait_for our_pid cpid list)
  unfolding wait_for
  wait_for-Changed our_pid zero list = tt
  wait_for-Changed our_pid (suc j) list = ask_task-Changed our_pid j list (entry list j) refl

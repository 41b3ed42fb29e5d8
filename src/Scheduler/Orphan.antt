-- ===== src/Scheduler/Orphan.antt =====
-- Waits and orphans in kernel/src/scheduler.rs whose parent is looked for in the wrong way.
use ron.Base.{
  ℕ, suc, ◌+◌, ◌≡◌, ◌≢◌, refl, ap, ◌∙◌, Option, List, none, some, set, Bool, true, false, ◌==◌,
  arith,
}
use ron.Base.Options.{entry}
use ron.Base.Run.{Run, panic, ran, ◌>>=◌}
use ron.Base.Slots.{entry-set, entry-lt, unwrap_at-some}
use ron.Process.{
  ProcessState, WaitAction, WaitInformation, running, running_new_child_just_forked,
  finished_waiting_for_child_process, waiting_for_child_process, waiting_for_read_pipe,
  terminated_normally_child_waiting_for_parent_acknowledgement,
  terminated_due_to_signal_child_waiting_for_parent_acknowledgement,
  terminated_normally_waiting_to_be_deallocated, terminated_due_to_signal_waiting_to_be_deallocated,
}
use ron.Tasks.{
  Process, Shared, World, with_state, ask_child, ask_task, wait_for, acknowledged, check_orphan,
  end_orphan, unwrap,
}
use ron.Scheduler.{step_task}

module _ {M N P E : Type 0}
    (run : Process M N P E
      → Shared (Process M N P E)
      → Run (Bool × Process M N P E × Shared (Process M N P E)))
    (i k : ℕ) (p : Process M N P E) (w : World (Process M N P E)) where
  -- A task that waits for the task with pid `k + 1`, where that task has no parent, makes the
  -- scheduler panic.
  pub step_task-no_parent :
      (other : Process M N P E)
      → entry w.task_list k ≡ some other
      → other.state_data.parent_pid ≡ none
      → step_task run i p (waiting_for_child_process (some (suc k))) w ≡ panic
  unfolding step_task wait_for ask_task
  step_task-no_parent other e h =
      let asked : wait_for (i + 1) (suc k) w.task_list ≡ panic =
        rw (e, wait_for) (rw (h, ask_task) refl) in
      rw asked refl

-- The wait of the parent at `k` for the child at `i`.
abbrev pub parent_waits :
    {M N P E : Type 0}
    (run : Process M N P E
      → Shared (Process M N P E)
      → Run (Bool × Process M N P E × Shared (Process M N P E)))
    (i k : ℕ)
    → Process M N P E
    → World (Process M N P E)
    → Run (World (Process M N P E))
parent_waits run i k parent w = step_task run k parent (waiting_for_child_process (some (suc i))) w

module _ {M N P E : Type 0} where
  -- The tasks once the child is in another state.
  abbrev pub with_child :
      ℕ → Process M N P E → World (Process M N P E) → ProcessState → World (Process M N P E)
  with_child i p w state = record w { task_list = set w.task_list i (some (with_state p state)) }

  -- The tasks once the parent has learnt of the child too.
  abbrev pub with_both :
      (i k : ℕ) (p parent : Process M N P E)
      → World (Process M N P E)
      → WaitAction
      → ProcessState
      → World (Process M N P E)
  with_both i k p parent w action state =
      let info : WaitInformation = record { cpid = suc i; action = action } in
      let parent' = with_state parent (finished_waiting_for_child_process (some info)) in
      record w { task_list = set (with_child i p w state).task_list k (some parent') }

module _ {M N P E : Type 0}
    (run : Process M N P E
      → Shared (Process M N P E)
      → Run (Bool × Process M N P E × Shared (Process M N P E)))
    (i k : ℕ) (p parent : Process M N P E) (w : World (Process M N P E))
    (there : entry w.task_list i ≡ some p) (parent_there : entry w.task_list k ≡ some parent)
    (apart : i ≢ k) (pid : p.state_data.pid ≡ some (suc i))
    (parent_pid : p.state_data.parent_pid ≡ some (suc k)) where
  orphaned :
      (state : ProcessState)
      → entry w.task_list (suc k) ≡ none
      → check_orphan i p state w ≡ ran (with_child i p w state)
  unfolding check_orphan
  orphaned state free =
      ap (λ o. unwrap o >>= λ q. ran (end_orphan i p state w (entry w.task_list q))) parent_pid
      ∙ ap (λ o. ran (end_orphan i p state w o)) free

  asked :
      (list : List (Option (Process M N P E))) (child : Process M N P E)
      → entry list i ≡ some child
      → child.state_data.parent_pid ≡ some (suc k)
      → wait_for (k + 1) (suc i) list ≡ ask_child i child list (acknowledged child.state_data.state)
  unfolding wait_for ask_task
  asked list child e e' =
      let same : (suc k == k + 1) ≡ true = ground arith in
      rw (e, wait_for) (rw (e', ask_task) (rw same refl))

  abbrev reported :
      WaitAction
      → ProcessState
      → ℕ
      → Option WaitInformation × Bool × List (Option (Process M N P E))
  reported action state n =
      (some (record { cpid = n; action = action }), false, (with_child i p w state).task_list)

  told :
      (action : WaitAction) (state : ProcessState)
      → ask_child i p w.task_list (some (action, state)) ≡ ran (reported action state (suc i))
  unfolding ask_child
  told action state = ap (λ o. unwrap o >>= λ n. ran (reported action state n)) pid

  learns :
      (action : WaitAction) (state : ProcessState)
      → acknowledged p.state_data.state ≡ some (action, state)
      → parent_waits run i k parent w ≡ ran (with_both i k p parent w action state)
  unfolding step_task
  learns action state e =
      let kept : entry (with_child i p w state).task_list k ≡ some parent =
        rw (entry-set w.task_list i k (some (with_state p state)) (entry-lt w.task_list i there))
          (ground arith) in
      let asks : wait_for (k + 1) (suc i) w.task_list ≡ ran (reported action state (suc i)) =
        asked w.task_list p there parent_pid
        ∙ (ap (ask_child i p w.task_list) e ∙ told action state) in
      rw asks (rw (unwrap_at-some (with_child i p w state).task_list k kept) refl)

  waits_on :
      (state : ProcessState)
      → acknowledged state ≡ none
      → parent_waits run i k parent (with_child i p w state) ≡ ran (with_child i p w state)
  unfolding step_task ask_child
  waits_on state e =
      let child : entry (with_child i p w state).task_list i ≡ some (with_state p state) =
        rw (entry-set w.task_list i i (some (with_state p state)) (entry-lt w.task_list i there))
          (ground arith) in
      rw (asked (with_child i p w state).task_list (with_state p state) child parent_pid)
        (rw e refl)

  -- Let a child at slot `i`, with pid `i + 1`, have ended, normally or by a signal, let its parent
  -- stand at slot `k`, with pid `k + 1`, and let slot `k + 1` be free. A parent that waits for the
  -- child learns how it ended if it is served first. If the child is served first, it is let go,
  -- and the wait of the parent then changes nothing: the parent waits on.
  pub step_task-orphan :
      (state let_go : ProcessState) (action : WaitAction)
      → p.state_data.state ≡ state
      → acknowledged state ≡ some (action, let_go)
      → entry w.task_list (suc k) ≡ none
      → (parent_waits run i k parent w ≡ ran (with_both i k p parent w action let_go))
        × (step_task run i p state w ≡ ran (with_child i p w let_go))
        × (parent_waits run i k parent (with_child i p w let_go) ≡ ran (with_child i p w let_go))
  unfolding step_task acknowledged
  step_task-orphan (terminated_normally_child_waiting_for_parent_acknowledgement c) let_go action e
        ended free =
      let same : let_go ≡ terminated_normally_waiting_to_be_deallocated c = cc in
      (
        learns action let_go (rw e ended),
        rw same (orphaned (terminated_normally_waiting_to_be_deallocated c) free),
        waits_on let_go (rw same refl),
      )
  step_task-orphan (terminated_due_to_signal_child_waiting_for_parent_acknowledgement c) let_go
        action e ended free =
      let same : let_go ≡ terminated_due_to_signal_waiting_to_be_deallocated c = cc in
      (
        learns action let_go (rw e ended),
        rw same (orphaned (terminated_due_to_signal_waiting_to_be_deallocated c) free),
        waits_on let_go (rw same refl),
      )
  step_task-orphan running let_go action e ended free = absurd cc
  step_task-orphan running_new_child_just_forked let_go action e ended free = absurd cc
  step_task-orphan (finished_waiting_for_child_process x) let_go action e ended free = absurd cc
  step_task-orphan (waiting_for_child_process x) let_go action e ended free = absurd cc
  step_task-orphan (waiting_for_read_pipe x) let_go action e ended free = absurd cc
  step_task-orphan (terminated_normally_waiting_to_be_deallocated x) let_go action e ended free =
      absurd cc
  step_task-orphan (terminated_due_to_signal_waiting_to_be_deallocated x) let_go action e ended
        free =
      absurd cc

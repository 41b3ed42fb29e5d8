-- ===== src/Scheduler/Tests.antt =====
-- Examples of the scheduler.
use ron.Base.{
  ℕ, zero, suc, ◌≡◌, refl, inl, Option, none, some, [], ◌∷◌, Bool, true, length, ltb, arith,
}
use ron.Base.Options.{entry}
use ron.Base.Run.{Run, ran, Ends, Keeps}
use ron.Base.Slots.{drain}
use ron.Process.{
  ProcessState, exited, waiting_for_child_process,
  terminated_normally_child_waiting_for_parent_acknowledgement,
  terminated_normally_waiting_to_be_deallocated,
}
use ron.Tasks.{Process, Shared, World, wait_for_any, acknowledged}
use ron.Scheduler.{step_task, tick}
use ron.Scheduler.Invariant.{pid_of, Aligned}
use ron.Scheduler.Wait.{WaitedAny, wait_for_any_lem}
use ron.Scheduler.Tick.{tick_lem}
use ron.Scheduler.Orphan.{parent_waits, with_child, with_both, step_task-orphan}

abbrev task : ProcessState → ℕ → Option ℕ → Process ℕ ℕ ℕ ℕ
task state pid parent = record {
  emulator = 0;
  state_data = record {
    open_nodes = [];
    fd_mappings = [];
    cwd = 0;
    env = 0;
    state = state;
    pid = some pid;
    parent_pid = parent;
  };
}

-- A parent that waits for any child, and a child that has ended.
abbrev parent : Process ℕ ℕ ℕ ℕ
parent = task (waiting_for_child_process none) 1 none

abbrev ended_child : ℕ → Process ℕ ℕ ℕ ℕ
ended_child pid = task (terminated_normally_child_waiting_for_parent_acknowledgement 3) pid (some 1)

abbrev two_tasks : World (Process ℕ ℕ ℕ ℕ)
two_tasks = record {
  task_list = some parent ∷ some (ended_child 2) ∷ [];
  shared = record {
    number_of_tasks = 2;
    new_task_list = [];
    pipes = [];
    signal_queues = some [] ∷ some [] ∷ [];
  };
}

-- A process whose tick changes nothing.
abbrev idle :
    Process ℕ ℕ ℕ ℕ
    → Shared (Process ℕ ℕ ℕ ℕ)
    → Run (Bool × Process ℕ ℕ ℕ ℕ × Shared (Process ℕ ℕ ℕ ℕ))
idle p s = ran (true, p, s)

two_tasks-pids :
    (i : ℕ) (p : Process ℕ ℕ ℕ ℕ) → entry two_tasks.task_list i ≡ some p → pid_of p ≡ some (suc i)
two_tasks-pids zero p e = let same : p ≡ parent = cc in rw same refl
two_tasks-pids (suc zero) p e = let same : p ≡ ended_child 2 = cc in rw same refl
two_tasks-pids (suc (suc i)) p e = absurd cc

two_tasks-Aligned : Aligned two_tasks.task_list two_tasks.shared.signal_queues
unfolding drain
two_tasks-Aligned = record { pids = two_tasks-pids; shaped = tt; drained = refl }

tick_example :
    Keeps
      (λ r.
        Aligned r.1.task_list r.1.shared.signal_queues
        × (r.1.shared.new_task_list ≡ [])
        × (r.0 ≡ ltb 0 (length r.1.task_list)))
      (tick idle two_tasks)
tick_example = tick_lem idle (λ p s. (refl, inl (refl, refl))) two_tasks two_tasks-Aligned

wait_for_any_example : Ends (WaitedAny 1 two_tasks.task_list) (wait_for_any 1 two_tasks.task_list)
wait_for_any_example = wait_for_any_lem 1 two_tasks.task_list ((1, refl), ((2, refl), tt))

-- The parent's first child is gone, and its second one has ended.
abbrev with_gap : World (Process ℕ ℕ ℕ ℕ)
with_gap = record {
  task_list = some parent ∷ none ∷ some (ended_child 3) ∷ [];
  shared = record {
    number_of_tasks = 3;
    new_task_list = [];
    pipes = [];
    signal_queues = some [] ∷ none ∷ some [] ∷ [];
  };
}

step_task-orphan_example :
    let let_go = terminated_normally_waiting_to_be_deallocated 3 in
    let child = ended_child 3 in
    (parent_waits idle 2 0 parent with_gap
      ≡ ran (with_both 2 0 child parent with_gap (exited 3) let_go))
    × (step_task idle 2 child child.state_data.state with_gap
        ≡ ran (with_child 2 child with_gap let_go))
    × (parent_waits idle 2 0 parent (with_child 2 child with_gap let_go)
        ≡ ran (with_child 2 child with_gap let_go))
unfolding acknowledged
step_task-orphan_example =
    step_task-orphan idle 2 0 (ended_child 3) parent with_gap refl refl (λ e. omega arith) refl refl
      (terminated_normally_child_waiting_for_parent_acknowledgement 3)
      (terminated_normally_waiting_to_be_deallocated 3) (exited 3) refl refl refl

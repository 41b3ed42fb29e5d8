-- ===== src/Tasks.antt =====
-- The tasks of kernel/src/scheduler.rs: the global lists, and what is done to one task or by one of
-- its arms in `tick`. `Shared` is what a process reaches while it runs, and the task list, which is
-- locked meanwhile, stands beside it in `World`.
use ron.Base.{
  ℕ, zero, suc, ◌+◌, Option, none, some, List, [], ◌∷◌, ◌++◌, Bool, true, false, ◌||◌, ltb, ◌==◌,
  if◌then◌else◌, length, set,
}
use ron.Base.Options.{entry}
use ron.Base.Run.{Run, panic, ran, ◌>>=◌}
use ron.Base.Slots.{unwrap_at, drain}
use ron.Process.{
  SignalType, sigill, WaitAction, exited, terminated_by_signal, WaitInformation, ProcessState,
  running, finished_waiting_for_child_process,
  terminated_normally_child_waiting_for_parent_acknowledgement,
  terminated_due_to_signal_child_waiting_for_parent_acknowledgement,
  terminated_normally_waiting_to_be_deallocated, terminated_due_to_signal_waiting_to_be_deallocated,
  ProcessData, Pipes, recive_signal,
}
use ron.Syscall.{increment, index, drop_process}

-- `M` is the machine that a process runs on.
pub record Process (M N P E : Type 0) : Type 0 where
  pub emulator : M
  pub state_data : ProcessData N P E

pub record Shared (T : Type 0) : Type 0 where
  pub number_of_tasks : ℕ
  pub new_task_list : List T
  pub pipes : Pipes
  pub signal_queues : List (Option (List SignalType))

pub record World (T : Type 0) : Type 0 where
  pub task_list : List (Option T)
  pub shared : Shared T

abbrev pub unwrap : {A : Type 0} → Option A → Run A
unwrap none = panic
unwrap (some a) = ran a

-- `checked - 1` on a usize.
abbrev pub decrement : ℕ → Run ℕ
decrement zero = panic
decrement (suc n) = ran n

-- What a parent learns of a child that has ended, and the child's next state.
unfoldable pub acknowledged : ProcessState → Option (WaitAction × ProcessState)
acknowledged (terminated_normally_child_waiting_for_parent_acknowledgement exit_code) =
    some (exited exit_code, terminated_normally_waiting_to_be_deallocated exit_code)
acknowledged (terminated_due_to_signal_child_waiting_for_parent_acknowledgement signal) =
    some (terminated_by_signal signal, terminated_due_to_signal_waiting_to_be_deallocated signal)
acknowledged _ = none

-- `parent_pid == Some(our_pid)`.
abbrev pub is_child_of : ℕ → Option ℕ → Bool
is_child_of our_pid none = false
is_child_of our_pid (some parent) = parent == our_pid

module _ {M N P E : Type 0} where
  abbrev pub with_state : Process M N P E → ProcessState → Process M N P E
  with_state p s = record p { state_data = record p.state_data { state = s } }

  abbrev pub add_task : Process M N P E → Shared (Process M N P E) → ℕ → Shared (Process M N P E)
  add_task process shared new_pid = record shared {
    new_task_list =
        shared.new_task_list
        ++ (record process { state_data = record process.state_data { pid = some new_pid } } ∷ []);
    signal_queues = shared.signal_queues ++ (some [] ∷ []);
    number_of_tasks = new_pid;
  }

  unfoldable pub new_task :
      Process M N P E → Shared (Process M N P E) → Run (ℕ × Shared (Process M N P E))
  new_task process shared = do
    new_pid ← increment shared.number_of_tasks
    ran (new_pid, add_task process shared new_pid)

  -- The tasks of the second list are popped, the last one first, and pushed to the first.
  abbrev pub push_all :
      List (Option (Process M N P E)) → List (Process M N P E) → List (Option (Process M N P E))
  push_all list [] = list
  push_all list (p ∷ new_list) = push_all list new_list ++ (some p ∷ [])

  unfoldable pub move_new_tasks_into_list : World (Process M N P E) → World (Process M N P E)
  move_new_tasks_into_list w =
      let list = push_all w.task_list w.shared.new_task_list in
      record {
        task_list = list;
        shared = record w.shared { new_task_list = []; number_of_tasks = length list };
      }

  -- A signal joins the queue at `i`, if there is one.
  abbrev pub add_signal :
      ℕ
      → SignalType
      → Shared (Process M N P E)
      → Option (List SignalType)
      → Option (Shared (Process M N P E))
  add_signal i sent shared none = none
  add_signal i sent shared (some queue) =
      some
        (record shared { signal_queues = set shared.signal_queues i (some (queue ++ (sent ∷ []))) })

  unfoldable pub kill_task :
      ℕ → SignalType → Shared (Process M N P E) → Run (Option (Shared (Process M N P E)))
  kill_task pid sent shared = do
    i ← decrement pid
    ran (add_signal i sent shared (entry shared.signal_queues i))

  -- The queue of a process is emptied into it.
  unfoldable pub recive_signals : Process M N P E → List SignalType → Process M N P E
  recive_signals p [] = p
  recive_signals p (signal ∷ queue) =
      recive_signals (record p { state_data = recive_signal p.state_data signal }) queue

  -- The child at `i` is asked whether it has ended.
  unfoldable pub ask_child :
      (i : ℕ)
      → Process M N P E
      → List (Option (Process M N P E))
      → Option (WaitAction × ProcessState)
      → Run (Option WaitInformation × Bool × List (Option (Process M N P E)))
  ask_child i child list none = ran (none, false, list)
  ask_child i child list (some (action, state)) = do
    pid ← unwrap child.state_data.pid
    ran (
      some (record { cpid = pid; action = action }),
      false,
      set list i (some (with_state child state)),
    )

  -- The task at `i`, if there is one, is asked when we are its parent.
  unfoldable pub ask_task :
      (our_pid i : ℕ)
      → List (Option (Process M N P E))
      → Option (Process M N P E)
      → Run (Option WaitInformation × Bool × List (Option (Process M N P E)))
  unfolding ask_child acknowledged
  ask_task our_pid i list none = ran (none, true, list)
  ask_task our_pid i list (some child) = do
    parent ← unwrap child.state_data.parent_pid
    if parent == our_pid
        then ask_child i child list (acknowledged child.state_data.state)
        else ran (none, true, list)

  -- The wait for one child: what it learns, whether the wait is invalid, and the tasks.
  unfoldable pub wait_for :
      (our_pid cpid : ℕ)
      → List (Option (Process M N P E))
      → Run (Option WaitInformation × Bool × List (Option (Process M N P E)))
  unfolding ask_task
  wait_for our_pid cpid list = do i ← decrement cpid; ask_task our_pid i list (entry list i)

  -- The wait for any child, which takes the first that has ended.
  unfoldable pub wait_for_any :
      (our_pid : ℕ)
      → List (Option (Process M N P E))
      → Run (Option WaitInformation × Bool × List (Option (Process M N P E)))
  unfolding acknowledged
  wait_for_any our_pid [] = ran (none, true, [])
  wait_for_any our_pid (none ∷ list) = do
    (info, invalid, list') ← wait_for_any our_pid list
    ran (info, invalid, none ∷ list')
  wait_for_any our_pid (some p ∷ list) = elim (is_child_of our_pid p.state_data.parent_pid) [
    | false ↦ do
      (info, invalid, list') ← wait_for_any our_pid list
      ran (info, invalid, some p ∷ list')
    | true ↦ elim (acknowledged p.state_data.state) [
      | none ↦ do
        (info, invalid, list') ← wait_for_any our_pid list
        ran (info, false, some p ∷ list')
      | some (action, state) ↦ do
        pid ← unwrap p.state_data.pid
        ran (some (record { cpid = pid; action = action }), false, some (with_state p state) ∷ list)
    ]
  ]

  -- What is in a slot is dropped: the data of a process closes its ends of pipes.
  unfoldable pub drop_slot : Option (Process M N P E) → Pipes → Run Pipes
  unfolding drop_process
  drop_slot none pipes = ran pipes
  drop_slot (some p) pipes = do (proc, pipes') ← drop_process p.state_data pipes; ran pipes'

  -- A task is removed, which drops it, and then its signal queue.
  unfoldable pub deallocate : ℕ → World (Process M N P E) → Run (World (Process M N P E))
  unfolding drop_slot
  deallocate i w = do
    slot ← index w.task_list i
    pipes ← drop_slot slot w.shared.pipes
    if ltb i (length w.shared.signal_queues)
        then ran record {
          task_list = drain (set w.task_list i none);
          shared = record w.shared {
            pipes = pipes;
            signal_queues = drain (set w.shared.signal_queues i none);
          };
        }
        else panic

  -- An ended child without a parent is not kept.
  abbrev pub end_orphan :
      ℕ
      → Process M N P E
      → ProcessState
      → World (Process M N P E)
      → Option (Process M N P E)
      → World (Process M N P E)
  end_orphan i p state w none = record w {
    task_list = set w.task_list i (some (with_state p state));
  }
  end_orphan i p state w (some parent) = w

  -- The parent is looked for at the index that is its pid.
  unfoldable pub check_orphan :
      ℕ → Process M N P E → ProcessState → World (Process M N P E) → Run (World (Process M N P E))
  check_orphan i p state w = do
    parents_pid ← unwrap p.state_data.parent_pid
    ran (end_orphan i p state w (entry w.task_list parents_pid))

  -- The next state of a task that waits, once its wait has been looked into.
  abbrev pub waited :
      ℕ
      → Option WaitInformation × Bool × List (Option (Process M N P E))
      → World (Process M N P E)
      → Run (World (Process M N P E))
  waited i (some info, invalid, list) w = do
    p ← unwrap_at list i
    let p' = with_state p (finished_waiting_for_child_process (some info))
    ran (record w { task_list = set list i (some p') })
  waited i (none, true, list) w = do
    p ← unwrap_at list i
    let p' = with_state p (finished_waiting_for_child_process none)
    ran (record w { task_list = set list i (some p') })
  waited i (none, false, list) w = ran (record w { task_list = list })

  -- A task that waits for data in a pipe.
  unfoldable pub wait_for_pipe :
      ℕ
      → Process M N P E
      → (pipe_index : ℕ) → World (Process M N P E)
      → Run (World (Process M N P E))
  wait_for_pipe i p pipe_index w = do
    pipe ← unwrap_at w.shared.pipes pipe_index
    ran (
        if ltb 0 (length pipe.buf) || (pipe.writers_count == 0)
        then record w { task_list = set w.task_list i (some (with_state p running)) }
        else w)

  -- What `kill_task` leaves, whether it found the queue or not.
  abbrev pub or_else :
      Shared (Process M N P E) → Option (Shared (Process M N P E)) → Shared (Process M N P E)
  or_else shared none = shared
  or_else shared (some killed) = killed

  -- A process that stopped is sent a signal.
  abbrev pub stop_task : ℕ → Shared (Process M N P E) → Run (Shared (Process M N P E))
  stop_task i shared = do o ← kill_task (i + 1) sigill shared; ran (or_else shared o)

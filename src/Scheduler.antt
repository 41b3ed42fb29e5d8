-- ===== src/Scheduler.antt =====
-- `tick` of kernel/src/scheduler.rs, over the tasks of module Tasks.
pub mod Shape
pub mod Wait
pub mod Invariant
pub mod Changed
pub mod Served
pub mod Running
pub mod Tick
pub mod Orphan
mod Tests
use ron.Base.{
  ℕ, zero, suc, ◌+◌, ◌-◌, ◌≡◌, Option, none, some, List, [], ◌∷◌, ◌++◌, Bool, true, false, ◌||◌,
  ltb, ◌==◌, if◌then◌else◌, length, get_elem?, set,
}
use ron.Base.Options.{entry}
use ron.Base.Run.{Run, panic, ran, ◌>>=◌}
use ron.Base.Slots.{unwrap_at, drain}
use ron.Process.{
  SignalType, sigill, WaitAction, exited, terminated_by_signal, WaitInformation, ProcessState,
  running, running_new_child_just_forked, finished_waiting_for_child_process,
  waiting_for_child_process, waiting_for_read_pipe,
  terminated_normally_child_waiting_for_parent_acknowledgement,
  terminated_due_to_signal_child_waiting_for_parent_acknowledgement,
  terminated_normally_waiting_to_be_deallocated, terminated_due_to_signal_waiting_to_be_deallocated,
  ProcessData, Pipes, recive_signal,
}
use ron.Syscall.{increment, index}
use ron.Tasks.{
  Process, Shared, World, unwrap, decrement, acknowledged, is_child_of, with_state, add_task,
  new_task, push_all, move_new_tasks_into_list, add_signal, kill_task, recive_signals, ask_child,
  ask_task, wait_for, wait_for_any, deallocate, end_orphan, check_orphan, waited, wait_for_pipe,
  or_else, stop_task,
}

-- `run` is the tick of a process: whether it goes on, the process, and what it reaches.
module _ {M N P E : Type 0}
    (run : Process M N P E
      → Shared (Process M N P E)
      → Run (Bool × Process M N P E × Shared (Process M N P E))) where
  -- A process that runs is ticked. One that stops is sent a signal.
  unfoldable pub run_task :
      ℕ → Process M N P E → World (Process M N P E) → Run (World (Process M N P E))
  unfolding kill_task move_new_tasks_into_list
  run_task i p w = do
    (goes_on, p', shared) ← run p w.shared
    shared' ← if goes_on then ran shared else stop_task i shared
    ran (
        move_new_tasks_into_list
          record { task_list = set w.task_list i (some p'); shared = shared' })

  -- The `match` on the state of task `i`.
  unfoldable pub step_task :
      ℕ → Process M N P E → ProcessState → World (Process M N P E) → Run (World (Process M N P E))
  unfolding run_task wait_for wait_for_any wait_for_pipe check_orphan deallocate
  step_task i p running w = run_task i p w
  step_task i p running_new_child_just_forked w = run_task i p w
  step_task i p (finished_waiting_for_child_process info) w = run_task i p w
  step_task i p (waiting_for_child_process (some cpid)) w =
      wait_for (i + 1) cpid w.task_list >>= λ r. waited i r w
  step_task i p (waiting_for_child_process none) w =
      wait_for_any (i + 1) w.task_list >>= λ r. waited i r w
  step_task i p (waiting_for_read_pipe pipe_index) w = wait_for_pipe i p pipe_index w
  step_task i p (terminated_normally_child_waiting_for_parent_acknowledgement exit_code) w =
      check_orphan i p (terminated_normally_waiting_to_be_deallocated exit_code) w
  step_task i p (terminated_due_to_signal_child_waiting_for_parent_acknowledgement cause) w =
      check_orphan i p (terminated_due_to_signal_waiting_to_be_deallocated cause) w
  step_task i p (terminated_normally_waiting_to_be_deallocated exit_code) w = deallocate i w
  step_task i p (terminated_due_to_signal_waiting_to_be_deallocated cause) w = deallocate i w

  -- A task at `i` takes its signals and is stepped.
  unfoldable pub serve_task :
      ℕ → Process M N P E → World (Process M N P E) → Run (World (Process M N P E))
  unfolding step_task recive_signals
  serve_task i p w = do
    queue ← unwrap_at w.shared.signal_queues i
    let p' = recive_signals p queue
    step_task i p' p'.state_data.state record {
      task_list = set w.task_list i (some p');
      shared = record w.shared { signal_queues = set w.shared.signal_queues i (some []) };
    }

  -- A free slot is passed over.
  abbrev pub serve_slot :
      ℕ → World (Process M N P E) → Option (Process M N P E) → Run (World (Process M N P E))
  serve_slot i w none = ran w
  serve_slot i w (some p) = serve_task i p w

  -- The loop over the tasks, where `n` are left from `i` on.
  unfoldable pub tick_from : (n i : ℕ) → World (Process M N P E) → Run (World (Process M N P E))
  unfolding serve_task
  tick_from zero i w = ran w
  tick_from (suc n) i w = do
    slot ← index w.task_list i
    w' ← serve_slot i w slot
    tick_from n (suc i) w'

  -- `tick`: whether a task is left.
  unfoldable pub tick : World (Process M N P E) → Run (Bool × World (Process M N P E))
  unfolding move_new_tasks_into_list tick_from
  tick w = do
    let moved = move_new_tasks_into_list w
    w' ← tick_from (length moved.task_list) 0 moved
    ran (ltb 0 (length w'.task_list), w')

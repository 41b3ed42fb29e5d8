-- ===== src/Process.antt =====
-- The data of a process in kernel/src/process.rs, and the global pipes of kernel/src/scheduler.rs.
-- A file descriptor is an index into `fd_mappings`, which leads to an open node or to an end of a
-- pipe; nodes and pipes count the descriptors that refer to them.
use ron.Base.{ℕ, Option, none, some, List, [], ◌∷◌, Bool, true, false, if◌then◌else◌}

-- `SignalType` and `ProcessSignal`.
pub data SignalType : Type 0 where
  sigill sigkill : SignalType

pub record ProcessPipe : Type 0 where
  pub buf : List ℕ
  pub readers_count : ℕ
  pub writers_count : ℕ

pub data FdMapping : Type 0 where
  regular pipe_read_end pipe_write_end : ℕ → FdMapping
  stdin stdout stderr : FdMapping

pub data WaitAction : Type 0 where
  exited : (exit_code : ℕ) → WaitAction
  terminated_by_signal : SignalType → WaitAction

pub record WaitInformation : Type 0 where
  pub cpid : ℕ
  pub action : WaitAction

pub data ProcessState : Type 0 where
  running running_new_child_just_forked : ProcessState
  finished_waiting_for_child_process : Option WaitInformation → ProcessState
  waiting_for_child_process : (cpid : Option ℕ) → ProcessState
  waiting_for_read_pipe : (pipe_index : ℕ) → ProcessState
  terminated_normally_child_waiting_for_parent_acknowledgement : (exit_code : ℕ) → ProcessState
  terminated_due_to_signal_child_waiting_for_parent_acknowledgement : SignalType → ProcessState
  terminated_normally_waiting_to_be_deallocated : (exit_code : ℕ) → ProcessState
  terminated_due_to_signal_waiting_to_be_deallocated : SignalType → ProcessState

-- `N` is a node of the file system, and `P` a path.
pub record ProcessNode (N P : Type 0) : Type 0 where
  pub vfs_node : N
  pub cursor : ℕ
  pub flags : ℕ
  pub path : P
  pub reference_count : ℕ

-- `E` is what the functions here leave alone: the environment and the virtual allocator.
pub record ProcessData (N P E : Type 0) : Type 0 where
  pub open_nodes : List (Option (ProcessNode N P))
  pub fd_mappings : List (Option FdMapping)
  pub cwd : P
  pub env : E
  pub state : ProcessState
  pub pid : Option ℕ
  pub parent_pid : Option ℕ

abbrev pub Pipes : Type 0
Pipes = List (Option ProcessPipe)

abbrev pub is_dead : ProcessState → Bool
is_dead (terminated_normally_child_waiting_for_parent_acknowledgement _) = true
is_dead (terminated_normally_waiting_to_be_deallocated _) = true
is_dead (terminated_due_to_signal_child_waiting_for_parent_acknowledgement _) = true
is_dead (terminated_due_to_signal_waiting_to_be_deallocated _) = true
is_dead _ = false

module _ {N P E : Type 0} where
  -- `ProcessData::new`.
  unfoldable pub new_process_data : P → E → ProcessData N P E
  new_process_data cwd env = record {
    open_nodes = [];
    fd_mappings = some stdin ∷ some stdout ∷ some stderr ∷ [];
    cwd = cwd;
    env = env;
    state = running;
    pid = none;
    parent_pid = none;
  }

  -- `recive_signal`: both signals end the process, unless it has ended already. A child is kept for
  -- its parent.
  unfoldable pub recive_signal : ProcessData N P E → SignalType → ProcessData N P E
  recive_signal proc signal = if is_dead proc.state then proc else record proc {
    state = elim proc.parent_pid [
      | none ↦ terminated_due_to_signal_waiting_to_be_deallocated signal
      | some parent ↦ terminated_due_to_signal_child_waiting_for_parent_acknowledgement signal
    ];
  }

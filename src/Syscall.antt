-- ===== src/Syscall.antt =====
-- The system calls of kernel/src/syscall.rs on file descriptors and on the process itself. The
-- global pipes go in and out; an isize that is returned is an integer.
pub mod Counted
pub mod Release
pub mod Close
pub mod Dup
pub mod Dup2
pub mod Drop
pub mod Pipe
pub mod Shares
pub mod Fork
pub mod Stream
mod Tests
use ron.Base.{
  ℕ, zero, suc, ◌+◌, ◌-◌, ◌*◌, ◌%◌, ◌^◌, ◌<◌, Option, none, some, List, [], ◌∷◌, ◌++◌, Bool, true,
  false, ◌&&◌, bit_and, bit_or, ltb, leb, ◌==◌, if◌then◌else◌, length, get_elem?, set, replicate,
}
use ron.Base.Int.{ℤ, pos, negsuc, to_signed, of_signed, ◌+ℤ◌}
use ron.Base.Options.{entry}
use ron.Base.Run.{Run, panic, ran, ◌>>=◌}
use ron.Base.Slots.{unwrap_at, drain, place}
use ron.Process.{
  SignalType, sigill, sigkill, WaitAction, exited, terminated_by_signal, ProcessPipe, FdMapping,
  regular, pipe_read_end, pipe_write_end, stdin, stdout, stderr, WaitInformation, ProcessState,
  running, running_new_child_just_forked, finished_waiting_for_child_process,
  waiting_for_child_process, terminated_normally_waiting_to_be_deallocated,
  terminated_normally_child_waiting_for_parent_acknowledgement, ProcessNode, ProcessData, Pipes,
}

-- `+= 1` on a usize, which is checked.
abbrev pub increment : ℕ → Run ℕ
increment n = if ltb (n + 1) (2 ^ 64) then ran (n + 1) else panic

-- An index into an array, which panics out of range.
abbrev pub index {ℓ} : {A : Type ℓ} → List A → ℕ → Run A
index xs i = elim (get_elem? xs i) [ none ↦ panic | some a ↦ ran a ]

-- `u8::from` of a signal.
abbrev pub signal_number : SignalType → ℕ
signal_number sigill = 4
signal_number sigkill = 9

-- The status that `waitpid` writes.
abbrev pub wait_status : WaitAction → ℕ
wait_status (exited exit_code) = bit_or 0b00_00000000 (bit_and exit_code 0b11111111)
wait_status (terminated_by_signal signal) =
    bit_or 0b01_00000000 (bit_and (signal_number signal) 0b11111111)

abbrev pub failed : ℤ
failed = negsuc 0

abbrev pub Nodes : Type 0 → Type 0 → Type 0
Nodes N P = List (Option (ProcessNode N P))

module _ {N P : Type 0} where
  -- The `match` of `close`: what the descriptor led to loses one reference, and ends with the last.
  unfoldable pub release : FdMapping → Nodes N P → Pipes → Run (Nodes N P × Pipes)
  release (regular i) nodes pipes = do
    node ← unwrap_at nodes i
    ran (
      if node.reference_count == 1
          then set nodes i none
          else if ltb 1 node.reference_count
          then set nodes i (some (record node { reference_count = node.reference_count - 1 }))
          else nodes,
      pipes,
    )
  release (pipe_read_end i) nodes pipes = do
    pipe ← unwrap_at pipes i
    ran (
      nodes,
      if (pipe.readers_count == 1) && (pipe.writers_count == 0)
          then drain (set pipes i none)
          else if leb 1 pipe.readers_count
          then set pipes i (some (record pipe { readers_count = pipe.readers_count - 1 }))
          else pipes,
    )
  release (pipe_write_end i) nodes pipes = do
    pipe ← unwrap_at pipes i
    ran (
      nodes,
      if (pipe.writers_count == 1) && (pipe.readers_count == 0)
          then drain (set pipes i none)
          else if leb 1 pipe.writers_count
          then set pipes i (some (record pipe { writers_count = pipe.writers_count - 1 }))
          else pipes,
    )
  release _ nodes pipes = ran (nodes, pipes)

  -- The `match` of `dup`: what the descriptor leads to gains one reference.
  unfoldable pub retain : FdMapping → Nodes N P → Pipes → Run (Nodes N P × Pipes)
  retain (regular i) nodes pipes = do
    node ← unwrap_at nodes i
    n ← increment node.reference_count
    ran (set nodes i (some (record node { reference_count = n })), pipes)
  retain (pipe_read_end i) nodes pipes = do
    pipe ← unwrap_at pipes i
    n ← increment pipe.readers_count
    ran (nodes, set pipes i (some (record pipe { readers_count = n })))
  retain (pipe_write_end i) nodes pipes = do
    pipe ← unwrap_at pipes i
    n ← increment pipe.writers_count
    ran (nodes, set pipes i (some (record pipe { writers_count = n })))
  retain _ nodes pipes = ran (nodes, pipes)

-- `resize` to a longer vector. One of more than `room` slots cannot be allocated, and panics.
unfoldable pub resized : (room : ℕ) → List (Option FdMapping) → ℕ → Run (List (Option FdMapping))
resized room fds n = if leb n room then ran (fds ++ replicate (n - length fds) none) else panic

-- The end of `dup2`: the descriptors grow only if `newfd` is above their number, where `newfd + 1`
-- is checked, and then the slot is written, which panics out of range.
unfoldable pub install :
    (room : ℕ) → List (Option FdMapping) → ℕ → FdMapping → Run (List (Option FdMapping))
unfolding resized
install room fds newfd mapping = do
  grown ←
      (if ltb (length fds) newfd then (increment newfd >>= λ n. resized room fds n) else ran fds)
  if ltb newfd (length grown) then ran (set grown newfd (some mapping)) else panic

-- The loop of `fork` over the descriptors of the child.
unfoldable pub retain_pipes : List (Option FdMapping) → Pipes → Run Pipes
retain_pipes [] pipes = ran pipes
retain_pipes (some (pipe_read_end i) ∷ fds) pipes = do
  p ← unwrap_at pipes i
  n ← increment p.readers_count
  retain_pipes fds (set pipes i (some (record p { readers_count = n })))
retain_pipes (some (pipe_write_end i) ∷ fds) pipes = do
  p ← unwrap_at pipes i
  n ← increment p.writers_count
  retain_pipes fds (set pipes i (some (record p { writers_count = n })))
retain_pipes (_ ∷ fds) pipes = retain_pipes fds pipes

module _ {N P E : Type 0} where
  unfoldable pub exit : ProcessData N P E → ℕ → ProcessData N P E
  exit proc exit_code = record proc {
    state = elim proc.parent_pid [
      | none ↦ terminated_normally_waiting_to_be_deallocated exit_code
      | some parent ↦ terminated_normally_child_waiting_for_parent_acknowledgement exit_code
    ];
  }

  unfoldable pub close : ProcessData N P E → Pipes → ℕ → Run (ℤ × ProcessData N P E × Pipes)
  unfolding release
  close proc pipes fd = elim (entry proc.fd_mappings fd) [
    | none ↦ ran (failed, proc, pipes)
    | some mapping ↦ do
      (nodes, pipes') ← release mapping proc.open_nodes pipes
      ran (
        pos 0,
        record proc {
          fd_mappings = drain (set proc.fd_mappings fd none);
          open_nodes = drain nodes;
        },
        pipes',
      )
  ]

  unfoldable pub dup : ProcessData N P E → Pipes → ℕ → Run (ℤ × ProcessData N P E × Pipes)
  unfolding retain
  dup proc pipes oldfd = elim (entry proc.fd_mappings oldfd) [
    | none ↦ ran (failed, proc, pipes)
    | some mapping ↦ do
      (nodes, pipes') ← retain mapping proc.open_nodes pipes
      let placed = place proc.fd_mappings mapping
      ran (pos placed.0, record proc { fd_mappings = placed.1; open_nodes = nodes }, pipes')
  ]

  -- `dup2`, where the heap has room for `room` descriptors. `newfd as isize` wraps around.
  unfoldable pub dup2 :
      (room : ℕ)
      → ProcessData N P E
      → Pipes
      → (oldfd newfd : ℕ) → Run (ℤ × ProcessData N P E × Pipes)
  unfolding close retain install
  dup2 room proc pipes oldfd newfd = elim (entry proc.fd_mappings oldfd) [
    | none ↦ ran (failed, proc, pipes)
    | some mapping ↦ do
      (result, closed, pipes') ← close proc pipes newfd
      (nodes, pipes'') ← retain mapping closed.open_nodes pipes'
      fds ← install room closed.fd_mappings newfd mapping
      ran (to_signed 64 newfd, record closed { fd_mappings = fds; open_nodes = nodes }, pipes'')
  ]

  -- `pipe`, once the pointer for the two descriptors is mapped: they are returned.
  unfoldable pub pipe : ProcessData N P E → Pipes → (ℕ × ℕ) × ProcessData N P E × Pipes
  pipe proc pipes =
      let i = length pipes in
      let read = place proc.fd_mappings (pipe_read_end i) in
      let write = place read.1 (pipe_write_end i) in
      (
        (read.0, write.0),
        record proc { fd_mappings = write.1 },
        pipes ++ (some (record { buf = []; readers_count = 1; writers_count = 1 }) ∷ []),
      )

  -- `fork`: the child itself repeats the call and gets 0; the parent gets a child to hand to
  -- `new_task`.
  unfoldable pub fork :
      ProcessData N P E → Pipes → Run (Option (ProcessData N P E) × ProcessData N P E × Pipes)
  unfolding retain_pipes
  fork proc pipes = elim proc.state [
    | running_new_child_just_forked ↦ ran (none, record proc { state = running }, pipes)
    | _ ↦ do
      pipes' ← retain_pipes proc.fd_mappings pipes
      ran (
        some (record proc { parent_pid = proc.pid; state = running_new_child_just_forked }),
        proc,
        pipes',
      )
  ]

  -- `waitpid`, where `mapped` says whether the status pointer is: what it returns and the status
  -- that it writes, or `none` if the call is to be repeated.
  unfoldable pub waitpid :
      ProcessData N P E → ℤ → (mapped : Bool) → Option (ℤ × Option ℕ) × ProcessData N P E
  waitpid proc target mapped = elim proc.state [
    | finished_waiting_for_child_process info ↦ (
      elim info [
        | none ↦ some (failed, none)
        | some i ↦
            if mapped then some (pos i.cpid, some (wait_status i.action)) else some (failed, none)
      ],
      record proc { state = running },
    )
    | _ ↦ elim target [
      | pos n ↦
          if n == 0
          then (some (failed, none), proc)
          else (none, record proc { state = waiting_for_child_process (some n) })
      | negsuc n ↦
          if n == 0
          then (none, record proc { state = waiting_for_child_process none })
          else (some (failed, none), proc)
    ]
  ]

  -- The end of a pipe is closed, and any other descriptor is left open.
  unfoldable pub drop_end :
      Option FdMapping → ℕ → ProcessData N P E → Pipes → Run (ProcessData N P E × Pipes)
  unfolding close
  drop_end (some (pipe_read_end i)) fd proc pipes = do
    (result, proc', pipes') ← close proc pipes fd
    ran (proc', pipes')
  drop_end (some (pipe_write_end i)) fd proc pipes = do
    (result, proc', pipes') ← close proc pipes fd
    ran (proc', pipes')
  drop_end _ fd proc pipes = ran (proc, pipes)

  -- The loop of `ProcessData::drop` over the descriptors, where `n` are left from `fd` on.
  unfoldable pub drop_from :
      (n fd : ℕ) → ProcessData N P E → Pipes → Run (ProcessData N P E × Pipes)
  unfolding drop_end
  drop_from zero fd proc pipes = ran (proc, pipes)
  drop_from (suc n) fd proc pipes = do
    mapping ← index proc.fd_mappings fd
    (proc', pipes') ← drop_end mapping fd proc pipes
    drop_from n (suc fd) proc' pipes'

  unfoldable pub drop_process : ProcessData N P E → Pipes → Run (ProcessData N P E × Pipes)
  unfolding drop_from
  drop_process proc pipes = drop_from (length proc.fd_mappings) 0 proc pipes

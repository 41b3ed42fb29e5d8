-- ===== src/Syscall/Fork.antt =====
-- `fork` of kernel/src/syscall.rs: the child shares the pipes and has nodes of its own.
use ron.Base.{ℕ, ◌+◌, ◌^◌, ◌<◌, ◌≡◌, ◌≢◌, refl, Option, none, some, List, arith}
use ron.Base.Run.{Run, ran, ◌>>=◌, Ends, Ends-bind}
use ron.Base.Slots.{count}
use ron.Process.{
  FdMapping, ProcessData, Pipes, ProcessState, running, running_new_child_just_forked,
  finished_waiting_for_child_process, waiting_for_child_process, waiting_for_read_pipe,
  terminated_normally_child_waiting_for_parent_acknowledgement,
  terminated_due_to_signal_child_waiting_for_parent_acknowledgement,
  terminated_normally_waiting_to_be_deallocated, terminated_due_to_signal_waiting_to_be_deallocated,
}
use ron.Syscall.{fork, retain_pipes}
use ron.Syscall.Counted.{reads, writes, Others, Counted}
use ron.Syscall.Shares.{Doubled, retain_pipes_lem}

-- The ends that a process holds, and those of the others, as another process sees them.
abbrev pub with_ends : List (Option FdMapping) → Others → Others
with_ends fds others = record {
  readers = λ i. count (reads i) fds + others.readers i;
  writers = λ i. count (writes i) fds + others.writers i;
}

-- Every pipe can count the ends of the child.
pub record IsForkable (others : Others) (fds : List (Option FdMapping)) : Type 0 where
  pub readers_room : (i : ℕ) → count (reads i) fds + others.readers i + count (reads i) fds < 2 ^ 64
  pub writers_room :
      (i : ℕ) → count (writes i) fds + others.writers i + count (writes i) fds < 2 ^ 64

module _ {N P E : Type 0} (others : Others) (proc : ProcessData N P E) (pipes : Pipes) where
  abbrev pub child_of : ProcessData N P E
  child_of = record proc { parent_pid = proc.pid; state = running_new_child_just_forked }

  -- What `fork` leaves: a child, the parent as it was, and pipes that count both.
  abbrev pub Forked : Option (ProcessData N P E) × ProcessData N P E × Pipes → Type 0
  Forked r =
      (r.0 ≡ some child_of)
      × (r.1 ≡ proc)
      × Counted (with_ends proc.fd_mappings others) proc.fd_mappings proc.open_nodes r.2
      × (fork child_of r.2 ≡ ran (none, record child_of { state = running }, r.2))

  abbrev hand_over : Pipes → Run (Option (ProcessData N P E) × ProcessData N P E × Pipes)
  hand_over pipes' = ran (some child_of, proc, pipes')

  fork_parent :
      (s : ProcessState)
      → s ≢ running_new_child_just_forked
      → fork (record proc { state = s }) pipes ≡ (
          retain_pipes proc.fd_mappings pipes >>= λ pipes'.
          ran (some child_of, record proc { state = s }, pipes'))
  unfolding fork
  fork_parent running h = refl
  fork_parent running_new_child_just_forked h = absurd (h refl)
  fork_parent (finished_waiting_for_child_process info) h = refl
  fork_parent (waiting_for_child_process cpid) h = refl
  fork_parent (waiting_for_read_pipe i) h = refl
  fork_parent (terminated_normally_child_waiting_for_parent_acknowledgement c) h = refl
  fork_parent (terminated_due_to_signal_child_waiting_for_parent_acknowledgement g) h = refl
  fork_parent (terminated_normally_waiting_to_be_deallocated c) h = refl
  fork_parent (terminated_due_to_signal_waiting_to_be_deallocated g) h = refl

  -- Where every node and pipe counts the descriptors that lead to it and no pipe comes to its
  -- limit, `fork` of a process that is no new child never panics: it gives a child with the same
  -- descriptors and nodes, whose parent is the caller, leaves the caller as it was, and every pipe
  -- then counts the ends of both; the child, when it repeats the call, runs on and makes no other
  -- child.
  pub fork_lem :
      Counted others proc.fd_mappings proc.open_nodes pipes
      → IsForkable others proc.fd_mappings
      → proc.state ≢ running_new_child_just_forked
      → Ends Forked (fork proc pipes)
  unfolding fork
  fork_lem v room h =
      let fds = proc.fd_mappings in
      let readers = λ (i : ℕ). count (reads i) fds + others.readers i in
      let writers = λ (i : ℕ). count (writes i) fds + others.writers i in
      rw (fork_parent proc.state h) (
        Ends-bind (Doubled fds readers writers) Forked (retain_pipes fds pipes) hand_over
          (retain_pipes_lem fds readers writers pipes
            record {
              read_ends = λ i. omega arith;
              write_ends = λ i. omega arith;
              readers_room = room.readers_room;
              writers_room = room.writers_room;
            }
            record {
              readers_counted = v.readers_counted;
              writers_counted = v.writers_counted;
              pipes_used = v.pipes_used;
            })
          (λ pipes' d. (
            refl,
            refl,
            record {
              nodes_counted = v.nodes_counted;
              readers_counted = d.readers_counted;
              writers_counted = d.writers_counted;
              nodes_used = v.nodes_used;
              pipes_used = d.pipes_used;
            },
            refl,
          )))

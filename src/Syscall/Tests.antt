-- ===== src/Syscall/Tests.antt =====
-- Examples of the system calls on file descriptors.
use ron.Base.{
  List, ℕ, zero, suc, ◌+◌, ◌≡◌, refl, none, some, [], ◌∷◌, ◌++◌, length, min, ◌==◌, if◌then◌else◌,
  arith,
}
use ron.Base.Options.{entry}
use ron.Base.Slots.{count, drain}
use ron.Base.Run.{ran, Ends}
use ron.Process.{stdin, regular, pipe_read_end, ProcessData, Pipes, running}
use ron.Syscall.{close, dup, dup2, pipe, fork, drop_process}
use ron.Syscall.Stream.{as_i32, write_pipe, read_pipe, read-write_pipe}
use ron.Syscall.Counted.{
  Others, Counted, references_of, readers_of, writers_of, leads_to, reads, writes, IsUsedNode,
  IsUsedPipe,
}
use ron.Syscall.Close.{Closed, close_lem}
use ron.Syscall.Dup.{IsRoom, Duplicated, dup_lem}
use ron.Syscall.Dup2.{Replaced, dup2_lem}
use ron.Syscall.Drop.{Dropped, drop_process_lem}
use ron.Syscall.Pipe.{Piped, pipe_lem}
use ron.Syscall.Fork.{IsForkable, Forked, fork_lem}

-- A process with an open file and the read end of a pipe, whose write end another process holds.
abbrev a_process : ProcessData ℕ ℕ ℕ
a_process = record {
  open_nodes =
      some (record { vfs_node = 7; cursor = 0; flags = 0; path = 8; reference_count = 1 }) ∷ [];
  fd_mappings = some stdin ∷ some (regular 0) ∷ some (pipe_read_end 0) ∷ [];
  cwd = 9;
  env = 0;
  state = running;
  pid = some 1;
  parent_pid = none;
}

abbrev a_pipe : Pipes
a_pipe = some (record { buf = 1 ∷ []; readers_count = 1; writers_count = 1 }) ∷ []

abbrev a_writer : Others
a_writer = record { readers = λ i. 0; writers = λ i. if i == 0 then 1 else 0 }

nodes-counted :
    (i : ℕ)
    → references_of (entry a_process.open_nodes i) ≡ count (leads_to i) a_process.fd_mappings
unfolding count
nodes-counted zero = refl
nodes-counted (suc i) = ground arith

readers-counted :
    (i : ℕ)
    → readers_of (entry a_pipe i) ≡ count (reads i) a_process.fd_mappings + a_writer.readers i
unfolding count
readers-counted zero = refl
readers-counted (suc i) = ground arith

writers-counted :
    (i : ℕ)
    → writers_of (entry a_pipe i) ≡ count (writes i) a_process.fd_mappings + a_writer.writers i
unfolding count
writers-counted zero = refl
writers-counted (suc i) = ground arith

nodes-used : (i : ℕ) → IsUsedNode (entry a_process.open_nodes i)
nodes-used zero = omega arith
nodes-used (suc i) = tt

pipes-used : (i : ℕ) → IsUsedPipe (entry a_pipe i)
pipes-used zero = omega arith
pipes-used (suc i) = tt

a_process-Counted : Counted a_writer a_process.fd_mappings a_process.open_nodes a_pipe
a_process-Counted = record {
  nodes_counted = nodes-counted;
  readers_counted = readers-counted;
  writers_counted = writers-counted;
  nodes_used = nodes-used;
  pipes_used = pipes-used;
}

a_process-IsRoom : IsRoom a_writer a_process.fd_mappings
unfolding count
a_process-IsRoom = record {
  nodes_room = λ i. ground arith;
  readers_room = λ i. ground arith;
  writers_room = λ i. ground arith;
}

a_process-IsForkable : IsForkable a_writer a_process.fd_mappings
unfolding count
a_process-IsForkable = record { readers_room = λ i. ground arith; writers_room = λ i. ground arith }

close_example : Ends (Closed a_writer a_process a_pipe 2) (close a_process a_pipe 2)
close_example = close_lem a_writer a_process a_pipe 2 a_process-Counted

dup_example : Ends (Duplicated a_writer a_process a_pipe 1) (dup a_process a_pipe 1)
dup_example = dup_lem a_writer a_process a_pipe 1 a_process-Counted a_process-IsRoom

dup2_example :
    Ends (Replaced a_writer 8 a_process a_pipe 2 0 (pipe_read_end 0)) (dup2 8 a_process a_pipe 2 0)
unfolding drain
dup2_example =
    dup2_lem a_writer 8 a_process a_pipe 2 0 (pipe_read_end 0) a_process-Counted a_process-IsRoom
      refl refl (λ e. omega arith) (omega arith) (omega arith) (λ e. omega arith)

drop_process_example : Ends (Dropped a_writer) (drop_process a_process a_pipe)
unfolding drain
drop_process_example = drop_process_lem a_writer a_process a_pipe a_process-Counted refl

pipe_example : Piped a_writer a_process a_pipe (pipe a_process a_pipe)
pipe_example = pipe_lem a_writer a_process a_pipe a_process-Counted

fork_example : Ends (Forked a_writer a_process a_pipe) (fork a_process a_pipe)
fork_example = fork_lem a_writer a_process a_pipe a_process-Counted a_process-IsForkable (λ e. cc)

read-write_pipe_example :
    (popped : List ℕ) × (left : List ℕ) × (written : Pipes) × (pipes' : Pipes) × (write_pipe a_pipe
        0
        (2 ∷ 3 ∷ [])
      ≡ ran (as_i32 2, written))
    × (read_pipe a_process written 0 2
        ≡ ran ((some (as_i32 (length popped)), a_process), popped, pipes'))
    × (popped ++ left ≡ 1 ∷ 2 ∷ 3 ∷ [])
    × (length popped ≡ min 2 (1 + 2))
    × (entry pipes' 0 ≡ some (record { buf = left; readers_count = 1; writers_count = 1 }))
read-write_pipe_example =
    read-write_pipe a_process a_pipe 0 2
      (record { buf = 1 ∷ []; readers_count = 1; writers_count = 1 }) (2 ∷ 3 ∷ []) refl
      (omega arith) (omega arith) (omega arith)

-- ===== src/Syscall/Stream.antt =====
-- The arms for pipes in `read` and `write` of kernel/src/syscall.rs, once the user's buffer is mapped.
use ron.Base.{
  ℕ, zero, suc, ◌+◌, ◌%◌, ◌^◌, ◌≤◌, ◌≡◌, refl, ap, min, Option, none, some, List, [], ◌∷◌, ◌++◌,
  false, ◌==◌, if◌then◌else◌, set, length, length-append, arith,
}
use ron.Base.Int.{ℤ, pos, to_signed}
use ron.Base.Options.{entry}
use ron.Base.Run.{Run, ran, ◌>>=◌}
use ron.Base.Slots.{unwrap_at, unwrap_at-some, entry-set, entry-lt}
use ron.Process.{ProcessPipe, ProcessData, waiting_for_read_pipe, Pipes}
use ron.Syscall.{failed}

-- `as i32` of a count.
abbrev pub as_i32 : ℕ → ℤ
as_i32 n = to_signed 32 (n % 2 ^ 32)

-- The loop that pops at most `count` bytes: those popped, and those left.
unfoldable pub pop_bytes : (count : ℕ) → List ℕ → List ℕ × List ℕ
pop_bytes zero buf = ([], buf)
pop_bytes (suc count) [] = ([], [])
pop_bytes (suc count) (byte ∷ buf) =
    let (popped, left) = pop_bytes count buf in (byte ∷ popped, left)

unfoldable pub write_pipe : Pipes → (pipe_index : ℕ) → (buf : List ℕ) → Run (ℤ × Pipes)
write_pipe pipes pipe_index buf = do
  pipe ← unwrap_at pipes pipe_index
  ran (
      if pipe.readers_count == 0 then (failed, pipes) else (
        as_i32 (length buf),
        set pipes pipe_index (some (record pipe { buf = pipe.buf ++ buf })),
      ))

module _ {N P E : Type 0} where
  -- What `read` gives, or `none` if the call is to be repeated; the bytes for the user; the process.
  abbrev pub read_result :
      ProcessData N P E → ProcessPipe → ℕ → List ℕ → Option ℤ × ProcessData N P E
  read_result proc pipe pipe_index [] =
      if pipe.writers_count == 0
      then (some (pos 0), proc)
      else (none, record proc { state = waiting_for_read_pipe pipe_index })
  read_result proc pipe pipe_index (byte ∷ bytes) = (some (as_i32 (length (byte ∷ bytes))), proc)

  unfoldable pub read_pipe :
      ProcessData N P E
      → Pipes
      → (pipe_index count : ℕ) → Run ((Option ℤ × ProcessData N P E) × List ℕ × Pipes)
  unfolding pop_bytes
  read_pipe proc pipes pipe_index count = do
    pipe ← unwrap_at pipes pipe_index
    let (popped, left) = pop_bytes count pipe.buf
    ran (
      read_result proc pipe pipe_index popped,
      popped,
      set pipes pipe_index (some (record pipe { buf = left })),
    )

pop_bytes-append :
    (count : ℕ) (buf : List ℕ) → (pop_bytes count buf).0 ++ (pop_bytes count buf).1 ≡ buf
unfolding pop_bytes
pop_bytes-append zero buf = refl
pop_bytes-append (suc count) [] = refl
pop_bytes-append (suc count) (byte ∷ buf) = ap (λ l. byte ∷ l) (pop_bytes-append count buf)

pop_bytes-length :
    (count : ℕ) (buf : List ℕ) → length (pop_bytes count buf).0 ≡ min count (length buf)
unfolding pop_bytes
pop_bytes-length zero buf = omega arith
pop_bytes-length (suc count) [] = omega arith
pop_bytes-length (suc count) (byte ∷ buf) = omega (arith, pop_bytes-length count buf)

read_result-some :
    {N P E : Type 0} (proc : ProcessData N P E) (pipe : ProcessPipe) (i : ℕ) (bytes : List ℕ)
    → 1 ≤ length bytes
    → read_result proc pipe i bytes ≡ (some (as_i32 (length bytes)), proc)
read_result-some proc pipe i [] h = absurd (omega arith)
read_result-some proc pipe i (byte ∷ bytes) h = refl

module _ {N P E : Type 0} (proc : ProcessData N P E) (pipes : Pipes) (i count : ℕ)
    (pipe : ProcessPipe) (bytes : List ℕ) where
  -- For a pipe with a reader, a write of at least one byte and then a read of at least one give
  -- their counts: the bytes read, and those left in the pipe after them, are the bytes that were in
  -- the pipe and then those written, in order; the read takes as many as it asks for or as there
  -- are, and leaves the process as it was.
  pub read-write_pipe :
      entry pipes i ≡ some pipe
      → 1 ≤ pipe.readers_count
      → 1 ≤ count
      → 1 ≤ length bytes
      → (popped : List ℕ) × (left : List ℕ) × (written : Pipes) × (pipes' : Pipes) × (write_pipe
            pipes i bytes
          ≡ ran (as_i32 (length bytes), written))
        × (read_pipe proc written i count
            ≡ ran ((some (as_i32 (length popped)), proc), popped, pipes'))
        × (popped ++ left ≡ pipe.buf ++ bytes)
        × (length popped ≡ min count (length pipe.buf + length bytes))
        × (entry pipes' i ≡ some (record pipe { buf = left }))
  unfolding write_pipe read_pipe
  read-write_pipe found readers some_count some_bytes =
      let pipe' = record pipe { buf = pipe.buf ++ bytes } in
      let written = set pipes i (some pipe') in
      let r = pop_bytes count (pipe.buf ++ bytes) in
      let held : entry written i ≡ some pipe' =
        rw (entry-set pipes i i (some pipe') (entry-lt pipes i found)) (ground arith) in
      let read : (pipe.readers_count == 0) ≡ false = ground arith in
      let long : length r.0 ≡ min count (length pipe.buf + length bytes) =
        rw (pop_bytes-length count (pipe.buf ++ bytes))
          (ap (min count) (length-append pipe.buf bytes)) in
      (
        r.0,
        r.1,
        written,
        set written i (some (record pipe' { buf = r.1 })),
        rw (unwrap_at-some pipes i found) (rw read refl),
        rw (unwrap_at-some written i held)
            (rw (read_result-some proc pipe' i r.0 (omega (arith, long))) refl),
        pop_bytes-append count (pipe.buf ++ bytes),
        long,
        rw (entry-set written i i (some (record pipe' { buf = r.1 })) (entry-lt written i held))
            (ground arith),
      )

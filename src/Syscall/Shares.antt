-- ===== src/Syscall/Shares.antt =====
-- The loop in `fork` of kernel/src/syscall.rs: the child shares every pipe end of its parent.
use ron.Base.{
  ℕ, ◌+◌, ◌^◌, ◌≤◌, ◌<◌, ◌≡◌, refl, subst, inl, inr, Option, none, some, List, [], ◌∷◌, ◌==◌, set,
  Option-cases, arith,
}
use ron.Base.Options.{entry}
use ron.Base.Run.{Run, Ends, Ends-map}
use ron.Base.Slots.{one_if, count, unwrap_at-some}
use ron.Process.{
  FdMapping, regular, pipe_read_end, pipe_write_end, stdin, stdout, stderr, ProcessPipe, Pipes,
}
use ron.Syscall.{retain_pipes}
use ron.Syscall.Counted.{reads, writes, readers_of, writers_of, IsUsedPipe, gain, keep, used-set}
use ron.Syscall.Dup.{increment-room}

-- Each pipe counts `readers` and `writers`.
pub record PipesCounted (readers writers : ℕ → ℕ) (pipes : Pipes) : Type 0 where
  pub readers_counted : (i : ℕ) → readers_of (entry pipes i) ≡ readers i
  pub writers_counted : (i : ℕ) → writers_of (entry pipes i) ≡ writers i
  pub pipes_used : (i : ℕ) → IsUsedPipe (entry pipes i)

-- The descriptors `fds` have pipes, which can count them all again.
pub record IsShared (fds : List (Option FdMapping)) (readers writers : ℕ → ℕ) : Type 0 where
  pub read_ends : (i : ℕ) → count (reads i) fds ≤ readers i
  pub write_ends : (i : ℕ) → count (writes i) fds ≤ writers i
  pub readers_room : (i : ℕ) → readers i + count (reads i) fds < 2 ^ 64
  pub writers_room : (i : ℕ) → writers i + count (writes i) fds < 2 ^ 64

module _ {readers writers : ℕ → ℕ} {pipes : Pipes} (v : PipesCounted readers writers pipes) where
  reader_there :
      (j : ℕ)
      → 1 ≤ readers j
      → (pipe : ProcessPipe) × (entry pipes j ≡ some pipe) × (pipe.readers_count ≡ readers j)
  reader_there j h = elim (Option-cases (entry pipes j)) [
    | inl gone ↦
        absurd (omega (arith, subst (λ o. readers_of o ≡ readers j) gone (v.readers_counted j)))
    | inr (pipe, found) ↦
        (pipe, found, subst (λ o. readers_of o ≡ readers j) found (v.readers_counted j))
  ]

  writer_there :
      (j : ℕ)
      → 1 ≤ writers j
      → (pipe : ProcessPipe) × (entry pipes j ≡ some pipe) × (pipe.writers_count ≡ writers j)
  writer_there j h = elim (Option-cases (entry pipes j)) [
    | inl gone ↦
        absurd (omega (arith, subst (λ o. writers_of o ≡ writers j) gone (v.writers_counted j)))
    | inr (pipe, found) ↦
        (pipe, found, subst (λ o. writers_of o ≡ writers j) found (v.writers_counted j))
  ]

  one_reader :
      (j : ℕ) (pipe : ProcessPipe)
      → entry pipes j ≡ some pipe
      → PipesCounted
          (λ i. one_if (j == i) + readers i)
          writers
          (set pipes j (some (record pipe { readers_count = pipe.readers_count + 1 })))
  one_reader j pipe found =
      let pipe' = record pipe { readers_count = pipe.readers_count + 1 } in
      record {
        readers_counted =
            gain readers_of pipes j (some pipe') found v.readers_counted refl (λ i. refl);
        writers_counted =
            keep writers_of pipes j (some pipe') found v.writers_counted refl (λ i. refl);
        pipes_used = used-set pipes j (some pipe') found IsUsedPipe (omega arith) v.pipes_used;
      }

  one_writer :
      (j : ℕ) (pipe : ProcessPipe)
      → entry pipes j ≡ some pipe
      → PipesCounted readers
          (λ i. one_if (j == i) + writers i)
          (set pipes j (some (record pipe { writers_count = pipe.writers_count + 1 })))
  one_writer j pipe found =
      let pipe' = record pipe { writers_count = pipe.writers_count + 1 } in
      record {
        readers_counted =
            keep readers_of pipes j (some pipe') found v.readers_counted refl (λ i. refl);
        writers_counted =
            gain writers_of pipes j (some pipe') found v.writers_counted refl (λ i. refl);
        pipes_used = used-set pipes j (some pipe') found IsUsedPipe (omega arith) v.pipes_used;
      }

-- The totals with the ends that `fds` hold once more.
abbrev pub Doubled : List (Option FdMapping) → (ℕ → ℕ) → (ℕ → ℕ) → Pipes → Type 0
Doubled fds readers writers pipes =
    PipesCounted (λ i. count (reads i) fds + readers i) (λ i. count (writes i) fds + writers i)
      pipes

-- One descriptor of the list is done, and the totals are `readers'` and `writers'`.
module _ (m : Option FdMapping) (fds : List (Option FdMapping))
    (readers writers readers' writers' : ℕ → ℕ)
    (rs : (i : ℕ) → readers' i + count (reads i) fds ≡ readers i + count (reads i) (m ∷ fds))
    (ws : (i : ℕ)
      → writers' i + count (writes i) fds ≡ writers i + count (writes i) (m ∷ fds)) where
  IsShared-step :
      ((i : ℕ) → readers i ≤ readers' i)
      → ((i : ℕ) → writers i ≤ writers' i)
      → ((i : ℕ) → count (reads i) fds ≤ count (reads i) (m ∷ fds))
      → ((i : ℕ) → count (writes i) fds ≤ count (writes i) (m ∷ fds))
      → IsShared (m ∷ fds) readers writers
      → IsShared fds readers' writers'
  IsShared-step r w fr fw s = record {
    read_ends = λ i. omega (arith, s.read_ends i, r i, fr i);
    write_ends = λ i. omega (arith, s.write_ends i, w i, fw i);
    readers_room = λ i. omega (arith, s.readers_room i, rs i);
    writers_room = λ i. omega (arith, s.writers_room i, ws i);
  }

  Doubled-step :
      (run : Run Pipes)
      → Ends (Doubled fds readers' writers') run
      → Ends (Doubled (m ∷ fds) readers writers) run
  Doubled-step run h =
      Ends-map (Doubled fds readers' writers') (Doubled (m ∷ fds) readers writers) run h (λ pipes d.
        record {
          readers_counted = λ i. omega (arith, d.readers_counted i, rs i);
          writers_counted = λ i. omega (arith, d.writers_counted i, ws i);
          pipes_used = d.pipes_used;
        })

pub retain_pipes_lem :
    (fds : List (Option FdMapping)) (readers writers : ℕ → ℕ) (pipes : Pipes)
    → IsShared fds readers writers
    → PipesCounted readers writers pipes
    → Ends (Doubled fds readers writers) (retain_pipes fds pipes)
unfolding retain_pipes count
retain_pipes_lem [] readers writers pipes s v = record {
  readers_counted = λ i. omega (arith, v.readers_counted i);
  writers_counted = λ i. omega (arith, v.writers_counted i);
  pipes_used = v.pipes_used;
}
retain_pipes_lem (none ∷ fds) readers writers pipes s v =
    Doubled-step none fds readers writers readers writers (λ i. refl) (λ i. refl)
      (retain_pipes fds pipes)
      (retain_pipes_lem fds readers writers pipes
        (IsShared-step none fds readers writers readers writers (λ i. refl) (λ i. refl)
          (λ i. omega arith) (λ i. omega arith) (λ i. omega arith) (λ i. omega arith) s)
        v)
retain_pipes_lem (some (pipe_read_end j) ∷ fds) readers writers pipes s v =
    let readers' = λ (i : ℕ). one_if (j == i) + readers i in
    let m = some (pipe_read_end j) in
    let rs : (i : ℕ) → readers' i + count (reads i) fds ≡ readers i + count (reads i) (m ∷ fds) =
      λ i. omega arith in
    let ws : (i : ℕ) → writers i + count (writes i) fds ≡ writers i + count (writes i) (m ∷ fds) =
      λ i. omega arith in
    let (pipe, found, same) = reader_there v j (ground (arith, s.read_ends j)) in
    let room : pipe.readers_count + 1 < 2 ^ 64 = ground (arith, s.readers_room j) in
    let next = set pipes j (some (record pipe { readers_count = pipe.readers_count + 1 })) in
    rw (unwrap_at-some pipes j found) (
      rw (increment-room pipe.readers_count room) (
        Doubled-step m fds readers writers readers' writers rs ws (retain_pipes fds next) (
          retain_pipes_lem fds readers' writers next
            (IsShared-step m fds readers writers readers' writers rs ws (λ i. omega arith)
              (λ i. omega arith) (λ i. omega arith) (λ i. omega arith) s)
            (one_reader v j pipe found))))
retain_pipes_lem (some (pipe_write_end j) ∷ fds) readers writers pipes s v =
    let writers' = λ (i : ℕ). one_if (j == i) + writers i in
    let m = some (pipe_write_end j) in
    let rs : (i : ℕ) → readers i + count (reads i) fds ≡ readers i + count (reads i) (m ∷ fds) =
      λ i. omega arith in
    let ws : (i : ℕ) → writers' i + count (writes i) fds ≡ writers i + count (writes i) (m ∷ fds) =
      λ i. omega arith in
    let (pipe, found, same) = writer_there v j (ground (arith, s.write_ends j)) in
    let room : pipe.writers_count + 1 < 2 ^ 64 = ground (arith, s.writers_room j) in
    let next = set pipes j (some (record pipe { writers_count = pipe.writers_count + 1 })) in
    rw (unwrap_at-some pipes j found) (
      rw (increment-room pipe.writers_count room) (
        Doubled-step m fds readers writers readers writers' rs ws (retain_pipes fds next) (
          retain_pipes_lem fds readers writers' next
            (IsShared-step m fds readers writers readers writers' rs ws (λ i. omega arith)
              (λ i. omega arith) (λ i. omega arith) (λ i. omega arith) s)
            (one_writer v j pipe found))))
retain_pipes_lem (some (regular j) ∷ fds) readers writers pipes s v =
    Doubled-step (some (regular j)) fds readers writers readers writers (λ i. omega arith)
      (λ i. omega arith) (retain_pipes fds pipes)
      (retain_pipes_lem fds readers writers pipes
        (IsShared-step (some (regular j)) fds readers writers readers writers (λ i. omega arith)
          (λ i. omega arith) (λ i. omega arith) (λ i. omega arith) (λ i. omega arith)
          (λ i. omega arith) s)
        v)
retain_pipes_lem (some stdin ∷ fds) readers writers pipes s v =
    Doubled-step (some stdin) fds readers writers readers writers (λ i. omega arith)
      (λ i. omega arith) (retain_pipes fds pipes)
      (retain_pipes_lem fds readers writers pipes
        (IsShared-step (some stdin) fds readers writers readers writers (λ i. omega arith)
          (λ i. omega arith) (λ i. omega arith) (λ i. omega arith) (λ i. omega arith)
          (λ i. omega arith) s)
        v)
retain_pipes_lem (some stdout ∷ fds) readers writers pipes s v =
    Doubled-step (some stdout) fds readers writers readers writers (λ i. omega arith)
      (λ i. omega arith) (retain_pipes fds pipes)
      (retain_pipes_lem fds readers writers pipes
        (IsShared-step (some stdout) fds readers writers readers writers (λ i. omega arith)
          (λ i. omega arith) (λ i. omega arith) (λ i. omega arith) (λ i. omega arith)
          (λ i. omega arith) s)
        v)
retain_pipes_lem (some stderr ∷ fds) readers writers pipes s v =
    Doubled-step (some stderr) fds readers writers readers writers (λ i. omega arith)
      (λ i. omega arith) (retain_pipes fds pipes)
      (retain_pipes_lem fds readers writers pipes
        (IsShared-step (some stderr) fds readers writers readers writers (λ i. omega arith)
          (λ i. omega arith) (λ i. omega arith) (λ i. omega arith) (λ i. omega arith)
          (λ i. omega arith) s)
        v)

-- ===== src/Syscall/Drop.antt =====
-- The drop of the data of a process in kernel/src/process.rs.
use ron.Base.{
  ℕ, zero, suc, ◌+◌, ◌≤◌, ◌<◌, ◌≡◌, ◌⊎◌, inl, inr, refl, ◌∙◌, subst, Option, none, some, List, [],
  ◌∷◌, Bool, true, false, ◌==◌, ltb, Bool-cases, set, length, length-set, arith,
}
use ron.Base.Options.{entry}
use ron.Base.Run.{ran, ◌>>=◌, Ends, Ends-bind, Ends-map}
use ron.Base.Slots.{count, drain, IsDrained, drain-IsDrained, entry-out}
use ron.Process.{
  FdMapping, regular, pipe_read_end, pipe_write_end, stdin, stdout, stderr, ProcessData, Pipes,
}
use ron.Syscall.{index, close, drop_end, drop_from, drop_process}
use ron.Syscall.Counted.{reads, writes, Others, Counted, readers_of, writers_of}
use ron.Syscall.Close.{Closed, Freed, close_lem}
use ron.Base.Drained.{drain-inner}

abbrev pub is_pipe_end : Option FdMapping → Bool
is_pipe_end (some (pipe_read_end i)) = true
is_pipe_end (some (pipe_write_end i)) = true
is_pipe_end _ = false

count-zero :
    (p : FdMapping → Bool) (fds : List (Option FdMapping))
    → ((m : FdMapping) → p m ≡ true → is_pipe_end (some m) ≡ true)
    → ((j : ℕ) → is_pipe_end (entry fds j) ≡ false)
    → count p fds ≡ 0
unfolding count
count-zero p [] ends h = refl
count-zero p (none ∷ fds) ends h = count-zero p fds ends (λ j. h (suc j))
count-zero p (some m ∷ fds) ends h = elim (Bool-cases (p m)) [
  | inl t ↦ absurd (let e = ends m t in let e' = h 0 in cc)
  | inr t ↦ rw t (omega (arith, count-zero p fds ends (λ j. h (suc j))))
]

reads-ends : (i : ℕ) (m : FdMapping) → reads i m ≡ true → is_pipe_end (some m) ≡ true
reads-ends i (pipe_read_end j) e = refl
reads-ends i (pipe_write_end j) e = refl
reads-ends i (regular j) e = absurd cc
reads-ends i stdin e = absurd cc
reads-ends i stdout e = absurd cc
reads-ends i stderr e = absurd cc

writes-ends : (i : ℕ) (m : FdMapping) → writes i m ≡ true → is_pipe_end (some m) ≡ true
writes-ends i (pipe_read_end j) e = refl
writes-ends i (pipe_write_end j) e = refl
writes-ends i (regular j) e = absurd cc
writes-ends i stdin e = absurd cc
writes-ends i stdout e = absurd cc
writes-ends i stderr e = absurd cc

index-entry :
    (fds : List (Option FdMapping)) (i : ℕ) → i < length fds → index fds i ≡ ran (entry fds i)
index-entry [] i h = absurd (omega arith)
index-entry (x ∷ fds) zero h = refl
index-entry (x ∷ fds) (suc i) h = index-entry fds i (omega arith)

-- What is left of the loop after descriptor `fd`, whether that was closed or not.
still_whole :
    (n fd : ℕ) (fds fds' : List (Option FdMapping))
    → IsDrained fds
    → length fds ≡ fd + suc n
    → (fds' ≡ fds) ⊎ (fds' ≡ drain (set fds fd none))
    → (n ≡ 0) ⊎ (IsDrained fds' × (length fds' ≡ suc fd + n))
still_whole n fd fds fds' d long (inl same) = inr (rw same (d, omega arith))
still_whole n fd fds fds' d long (inr same) = elim (Bool-cases (n == 0)) [
  | inl t ↦ inl (ground arith)
  | inr t ↦
      let inner : drain (set fds fd none) ≡ set fds fd none = drain-inner fds fd d (ground arith) in
      let all : length fds' ≡ length fds = rw (same ∙ inner) (length-set fds fd none) in
      inr (rw same (drain-IsDrained (set fds fd none)), omega arith)
]

module _ {N P E : Type 0} (others : Others) where
  -- Descriptor `fd` is no end of a pipe any more, and every other one is what it was.
  abbrev Ended : ℕ → List (Option FdMapping) → ProcessData N P E × Pipes → Type 0
  Ended fd fds r =
      Counted others r.0.fd_mappings r.0.open_nodes r.1
      × ((j : ℕ) → (j ≡ fd) ⊎ (entry r.0.fd_mappings j ≡ entry fds j))
      × (is_pipe_end (entry r.0.fd_mappings fd) ≡ false)
      × ((r.0.fd_mappings ≡ fds) ⊎ (r.0.fd_mappings ≡ drain (set fds fd none)))

  close_end :
      (fd : ℕ) (proc : ProcessData N P E) (pipes : Pipes) (m : FdMapping)
      → Counted others proc.fd_mappings proc.open_nodes pipes
      → entry proc.fd_mappings fd ≡ some m
      → Ends (Ended fd proc.fd_mappings) (close proc pipes fd >>= λ r. ran (r.1, r.2))
  close_end fd proc pipes m v e =
      Ends-bind (Closed others proc pipes fd) (Ended fd proc.fd_mappings) (close proc pipes fd)
        (λ r. ran (r.1, r.2)) (close_lem others proc pipes fd v)
        (λ r c.
          let f : Freed others proc pipes fd (some m) r =
            subst (λ o. Freed others proc pipes fd o r) e c.1 in
          let gone : entry r.1.fd_mappings fd ≡ none = ground (arith, f.2 fd) in
          (c.0, (λ j. ground (arith, f.2 j)), rw gone refl, inr f.1))

  drop_end_lem :
      (o : Option FdMapping) (fd : ℕ) (proc : ProcessData N P E) (pipes : Pipes)
      → Counted others proc.fd_mappings proc.open_nodes pipes
      → entry proc.fd_mappings fd ≡ o
      → Ends (Ended fd proc.fd_mappings) (drop_end o fd proc pipes)
  unfolding drop_end
  drop_end_lem (some (pipe_read_end i)) fd proc pipes v e =
      close_end fd proc pipes (pipe_read_end i) v e
  drop_end_lem (some (pipe_write_end i)) fd proc pipes v e =
      close_end fd proc pipes (pipe_write_end i) v e
  drop_end_lem none fd proc pipes v e = (v, (λ j. inr refl), rw e refl, inl refl)
  drop_end_lem (some (regular i)) fd proc pipes v e = (v, (λ j. inr refl), rw e refl, inl refl)
  drop_end_lem (some stdin) fd proc pipes v e = (v, (λ j. inr refl), rw e refl, inl refl)
  drop_end_lem (some stdout) fd proc pipes v e = (v, (λ j. inr refl), rw e refl, inl refl)
  drop_end_lem (some stderr) fd proc pipes v e = (v, (λ j. inr refl), rw e refl, inl refl)

  -- The loop has `n` descriptors left, from `fd` on.
  record Dropping (n fd : ℕ) (r : ProcessData N P E × Pipes) : Type 0 where
    counted : Counted others r.0.fd_mappings r.0.open_nodes r.1
    before : (j : ℕ) → j < fd → is_pipe_end (entry r.0.fd_mappings j) ≡ false
    past : (j : ℕ) → fd + n ≤ j → entry r.0.fd_mappings j ≡ none
    whole : (n ≡ 0) ⊎ (IsDrained r.0.fd_mappings × (length r.0.fd_mappings ≡ fd + n))

  dropped_next :
      (n fd : ℕ) (proc : ProcessData N P E) (pipes : Pipes) (r : ProcessData N P E × Pipes)
      → Dropping (suc n) fd (proc, pipes)
      → IsDrained proc.fd_mappings
      → length proc.fd_mappings ≡ fd + suc n
      → Ended fd proc.fd_mappings r
      → Dropping n (suc fd) r
  dropped_next n fd proc pipes r v d long (counted, same, ended, fds) = record {
    counted = counted;
    before = λ j h. elim (same j) [
      | inl here ↦ rw here ended
      | inr e ↦ elim (Bool-cases (j == fd)) [
        | inl t ↦ let here : j ≡ fd = ground arith in rw here ended
        | inr t ↦ rw e (v.before j (ground arith))
      ]
    ];
    past = λ j h. elim (same j) [
      | inl here ↦ absurd (omega arith)
      | inr e ↦ e ∙ v.past j (omega arith)
    ];
    whole = still_whole n fd proc.fd_mappings r.0.fd_mappings d long fds;
  }

  drop_from_lem :
      (n fd : ℕ) (proc : ProcessData N P E) (pipes : Pipes)
      → Dropping n fd (proc, pipes)
      → Ends (Dropping 0 (fd + n)) (drop_from n fd proc pipes)
  unfolding drop_from
  drop_from_lem zero fd proc pipes v = subst (λ (k : ℕ). Dropping 0 k (proc, pipes)) (omega arith) v
  drop_from_lem (suc n) fd proc pipes v = elim v.whole [
    | inl z ↦ absurd (omega arith)
    | inr (d, long) ↦
        let at : index proc.fd_mappings fd ≡ ran (entry proc.fd_mappings fd) =
          index-entry proc.fd_mappings fd (omega arith) in
        let count_up : suc fd + n ≡ fd + suc n = omega arith in
        rw at (
          Ends-bind (Ended fd proc.fd_mappings) (Dropping 0 (fd + suc n))
            (drop_end (entry proc.fd_mappings fd) fd proc pipes) (λ r. drop_from n (suc fd) r.0 r.1)
            (drop_end_lem (entry proc.fd_mappings fd) fd proc pipes v.counted refl)
            (λ r h.
              subst (λ (k : ℕ). Ends (Dropping 0 k) (drop_from n (suc fd) r.0 r.1)) count_up
                (drop_from_lem n (suc fd) r.0 r.1 (dropped_next n fd proc pipes r v d long h))))
  ]

  -- Each pipe counts just the ends that other processes hold, and no descriptor is an end of one.
  abbrev pub Dropped : ProcessData N P E × Pipes → Type 0
  Dropped r =
      ((i : ℕ) → readers_of (entry r.1 i) ≡ others.readers i)
      × ((i : ℕ) → writers_of (entry r.1 i) ≡ others.writers i)
      × ((j : ℕ) → is_pipe_end (entry r.0.fd_mappings j) ≡ false)
      × Counted others r.0.fd_mappings r.0.open_nodes r.1

  Dropping-Dropped : (n : ℕ) (r : ProcessData N P E × Pipes) → Dropping 0 n r → Dropped r
  Dropping-Dropped n r v =
      let none_left : (j : ℕ) → is_pipe_end (entry r.0.fd_mappings j) ≡ false = λ j.
        elim (Bool-cases (ltb j n)) [
          | inl t ↦ v.before j (ground arith)
          | inr t ↦ rw (v.past j (ground arith)) refl
        ] in
      (
        (λ i. omega (
          arith,
          v.counted.readers_counted i,
          count-zero (reads i) r.0.fd_mappings (reads-ends i) none_left,
        )),
        (λ i. omega (
          arith,
          v.counted.writers_counted i,
          count-zero (writes i) r.0.fd_mappings (writes-ends i) none_left,
        )),
        none_left,
        v.counted,
      )

  -- Where every node and pipe counts the descriptors that lead to it, those of other processes
  -- included, and no free slot stands at the end of the descriptors, the drop of the data of a
  -- process never panics: no descriptor is then an end of a pipe, each pipe counts just the ends
  -- that other processes hold, and one that nobody holds is gone.
  pub drop_process_lem :
      (proc : ProcessData N P E) (pipes : Pipes)
      → Counted others proc.fd_mappings proc.open_nodes pipes
      → IsDrained proc.fd_mappings
      → Ends Dropped (drop_process proc pipes)
  unfolding drop_process
  drop_process_lem proc pipes v d =
      let n : ℕ = length proc.fd_mappings in
      Ends-map (Dropping 0 (0 + n)) Dropped (drop_from n 0 proc pipes)
        (drop_from_lem n 0 proc pipes record {
          counted = v;
          before = λ j h. absurd (omega arith);
          past = λ j h. entry-out proc.fd_mappings j (omega arith);
          whole = inr (d, omega arith);
        })
        (Dropping-Dropped (0 + n))

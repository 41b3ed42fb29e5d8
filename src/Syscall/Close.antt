-- ===== src/Syscall/Close.antt =====
-- `close` of kernel/src/syscall.rs.
use ron.Base.{ℕ, ◌≡◌, refl, inl, inr, Option, none, some, ◌==◌, if◌then◌else◌, set, Option-cases}
use ron.Base.Int.{ℤ, pos}
use ron.Base.Options.{entry}
use ron.Base.Run.{Run, ran, ◌>>=◌, Ends, Ends-bind}
use ron.Base.Slots.{drain, drain-IsDrained, IsDrained, entry-drain, entry-set, entry-lt}
use ron.Process.{FdMapping, ProcessData, Pipes}
use ron.Syscall.{Nodes, release, close, failed}
use ron.Syscall.Counted.{Others, Counted, Counted-drain}
use ron.Syscall.Release.{release_lem}

module _ {N P E : Type 0} (others : Others) (proc : ProcessData N P E) (pipes : Pipes)
    (fd : ℕ) where
  -- What `close` leaves, its result, the process and the pipes, for what the descriptor led to.
  abbrev pub Freed : Option FdMapping → ℤ × ProcessData N P E × Pipes → Type 0
  Freed none r = r ≡ (failed, proc, pipes)
  Freed (some m) r =
      (r.0 ≡ pos 0)
      × (r.1.fd_mappings ≡ drain (set proc.fd_mappings fd none))
      × ((j : ℕ) → entry r.1.fd_mappings j ≡ (if j == fd then none else entry proc.fd_mappings j))
      × IsDrained r.1.fd_mappings
      × IsDrained r.1.open_nodes

  abbrev pub Closed : ℤ × ProcessData N P E × Pipes → Type 0
  Closed r = Counted others r.1.fd_mappings r.1.open_nodes r.2 × Freed (entry proc.fd_mappings fd) r

  -- What remains of `close` after the release.
  abbrev pub free_descriptor : Nodes N P × Pipes → Run (ℤ × ProcessData N P E × Pipes)
  free_descriptor (nodes, pipes') = ran (
    pos 0,
    record proc { fd_mappings = drain (set proc.fd_mappings fd none); open_nodes = drain nodes },
    pipes',
  )

  pub close-none :
      entry proc.fd_mappings fd ≡ none → close proc pipes fd ≡ ran (failed, proc, pipes)
  unfolding close
  close-none e = rw (e, close) refl

  pub close-some :
      {m : FdMapping}
      → entry proc.fd_mappings fd ≡ some m
      → close proc pipes fd ≡ (release m proc.open_nodes pipes >>= free_descriptor)
  unfolding close
  close-some e = rw (e, close) refl

  Closed-some :
      {m : FdMapping}
      → entry proc.fd_mappings fd ≡ some m
      → (r : Nodes N P × Pipes) → Counted others (set proc.fd_mappings fd none) r.0 r.1
      → Ends Closed (free_descriptor r)
  Closed-some e r v = (
    Counted-drain v,
    rw e (
      refl,
      refl,
      (λ j.
          rw
            (
              entry-drain (set proc.fd_mappings fd none) j,
              entry-set proc.fd_mappings fd j none (entry-lt proc.fd_mappings fd e),
            )
            refl),
      drain-IsDrained (set proc.fd_mappings fd none),
      drain-IsDrained r.0,
    ),
  )

  -- Where every node and pipe counts the descriptors that lead to it, those of other processes
  -- included, and has at least one, `close` never panics and keeps that. A descriptor that is not
  -- open gives -1 and changes nothing; one that is open gives 0 and becomes free, every other
  -- descriptor is what it was, and no free slot is left at the end of the descriptors or of the
  -- nodes.
  pub close_lem :
      Counted others proc.fd_mappings proc.open_nodes pipes → Ends Closed (close proc pipes fd)
  close_lem v = elim (Option-cases (entry proc.fd_mappings fd)) [
    | inl e ↦ rw (close-none e) (v, rw e refl)
    | inr (m, e) ↦ rw (close-some e) (
        Ends-bind (λ r. Counted others (set proc.fd_mappings fd none) r.0 r.1) Closed
          (release m proc.open_nodes pipes) free_descriptor
          (release_lem others proc.fd_mappings proc.open_nodes pipes fd v m e) (Closed-some e))
  ]

-- ===== src/Syscall/Pipe.antt =====
-- `pipe` of kernel/src/syscall.rs.
use ron.Base.{
  ℕ, ◌+◌, ◌≡◌, ◌≢◌, refl, inl, inr, Option, none, some, List, [], ◌∷◌, ◌++◌, Bool, ◌==◌,
  if◌then◌else◌, Bool-cases, length, arith,
}
use ron.Base.Options.{entry}
use ron.Base.Slots.{one_if, count, count-place, place, place-free, entry-place, entry-push}
use ron.Process.{FdMapping, pipe_read_end, pipe_write_end, ProcessPipe, ProcessData, Pipes}
use ron.Syscall.{pipe}
use ron.Syscall.Counted.{
  leads_to, reads, writes, readers_of, writers_of, Others, Counted, gain_fresh,
}

module _ {N P E : Type 0} (others : Others) (proc : ProcessData N P E) (pipes : Pipes) where
  abbrev fresh : ProcessPipe
  fresh = record { buf = []; readers_count = 1; writers_count = 1 }

  -- What `pipe` leaves: two new descriptors, for the ends of a new pipe.
  abbrev pub Piped : (ℕ × ℕ) × ProcessData N P E × Pipes → Type 0
  Piped r =
      Counted others r.1.fd_mappings r.1.open_nodes r.2
      × (entry proc.fd_mappings r.0.0 ≡ none)
      × (entry proc.fd_mappings r.0.1 ≡ none)
      × (r.0.0 ≢ r.0.1)
      × ((j : ℕ)
          → entry r.1.fd_mappings j ≡ (
              if j == r.0.0
              then some (pipe_read_end (length pipes))
              else if j == r.0.1
              then some (pipe_write_end (length pipes))
              else entry proc.fd_mappings j))
      × ((j : ℕ) → entry r.2 j ≡ (if j == length pipes then some fresh else entry pipes j))

  -- The descriptors with both new ones.
  abbrev with_read : ℕ × List (Option FdMapping)
  with_read = place proc.fd_mappings (pipe_read_end (length pipes))

  abbrev with_both : ℕ × List (Option FdMapping)
  with_both = place with_read.1 (pipe_write_end (length pipes))

  both-count :
      (p : FdMapping → Bool)
      → count p with_both.1
        ≡ one_if (p (pipe_write_end (length pipes)))
          + (one_if (p (pipe_read_end (length pipes))) + count p proc.fd_mappings)
  both-count p =
      rw (count-place p with_read.1 (pipe_write_end (length pipes)))
        (rw (count-place p proc.fd_mappings (pipe_read_end (length pipes))) refl)

  both-Counted :
      Counted others proc.fd_mappings proc.open_nodes pipes
      → Counted others with_both.1 proc.open_nodes (pipes ++ (some fresh ∷ []))
  both-Counted v = record {
    nodes_counted = λ i. ground (arith, both-count (leads_to i), v.nodes_counted i);
    readers_counted =
        gain_fresh readers_of pipes fresh refl refl v.readers_counted
          (λ i. ground (arith, both-count (reads i)));
    writers_counted =
        gain_fresh writers_of pipes fresh refl refl v.writers_counted
          (λ i. ground (arith, both-count (writes i)));
    nodes_used = v.nodes_used;
    pipes_used = λ i. rw (entry-push pipes fresh i) (elim (Bool-cases (i == length pipes)) [
      | inl t ↦ rw t (omega arith)
      | inr t ↦ rw t (v.pipes_used i)
    ]);
  }

  -- Where every node and pipe counts the descriptors that lead to it, `pipe` opens two different
  -- descriptors that were free, for the ends of a new empty pipe with one reader and one writer;
  -- every other descriptor and every other pipe is what it was, and the counts stay right.
  pub pipe_lem : Counted others proc.fd_mappings proc.open_nodes pipes → Piped (pipe proc pipes)
  unfolding pipe
  pipe_lem v =
      let read_free : entry proc.fd_mappings with_read.0 ≡ none =
        place-free proc.fd_mappings (pipe_read_end (length pipes)) in
      let both_free : entry with_read.1 with_both.0 ≡ none =
        place-free with_read.1 (pipe_write_end (length pipes)) in
      let apart : with_read.0 ≢ with_both.0 =
        ground (arith, entry-place proc.fd_mappings (pipe_read_end (length pipes)) with_both.0) in
      (
        both-Counted v,
        read_free,
        ground (arith, entry-place proc.fd_mappings (pipe_read_end (length pipes)) with_both.0),
        apart,
        (λ j. ground (
          arith,
          entry-place with_read.1 (pipe_write_end (length pipes)) j,
          entry-place proc.fd_mappings (pipe_read_end (length pipes)) j,
        )),
        entry-push pipes fresh,
      )

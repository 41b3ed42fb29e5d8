-- ===== src/Syscall/Release.antt =====
-- The `match` in `close` of kernel/src/syscall.rs: what a descriptor led to loses one reference.
use ron.Base.{
  ℕ, ◌+◌, ◌-◌, ◌≤◌, ◌≡◌, refl, subst, inl, inr, Option, none, some, List, Bool, true, false, ◌&&◌,
  ◌==◌, ltb, leb, Bool-cases, set, arith,
}
use ron.Base.Options.{entry}
use ron.Base.Run.{Ends}
use ron.Base.Slots.{unwrap_at-some, one_if, count, count-set}
use ron.Process.{
  FdMapping, regular, pipe_read_end, pipe_write_end, stdin, stdout, stderr, ProcessPipe,
  ProcessNode, Pipes,
}
use ron.Syscall.{Nodes, release}
use ron.Syscall.Counted.{
  leads_to, reads, writes, references_of, readers_of, writers_of, IsUsedNode, IsUsedPipe, Others,
  Counted, Counted-pipes, found_node, found_reader, found_writer, lose, keep, used-set,
}

module _ {N P : Type 0} (others : Others) (fds : List (Option FdMapping)) (nodes : Nodes N P)
    (pipes : Pipes) (fd : ℕ) (v : Counted others fds nodes pipes) where
  -- What a release leaves, when the descriptor is freed.
  abbrev pub Released : FdMapping → Type 0
  Released m = Ends (λ r. Counted others (set fds fd none) r.0 r.1) (release m nodes pipes)

  counts :
      (p : FdMapping → Bool) {m : FdMapping}
      → entry fds fd ≡ some m
      → count p (set fds fd none) + one_if (p m) ≡ count p fds
  unfolding count
  counts p e = omega (arith, count-set p fds fd none e)

  -- The descriptor led to a node, and only the nodes change.
  nodes_change :
      (j : ℕ) (nodes' : Nodes N P)
      → entry fds fd ≡ some (regular j)
      → ((i : ℕ) → references_of (entry nodes' i) ≡ count (leads_to i) (set fds fd none))
      → ((i : ℕ) → IsUsedNode (entry nodes' i))
      → Counted others (set fds fd none) nodes' pipes
  nodes_change j nodes' e counted used = record {
    nodes_counted = counted;
    readers_counted = λ i. ground (arith, counts (reads i) e, v.readers_counted i);
    writers_counted = λ i. ground (arith, counts (writes i) e, v.writers_counted i);
    nodes_used = used;
    pipes_used = v.pipes_used;
  }

  release_node :
      (j : ℕ) (node : ProcessNode N P)
      → entry fds fd ≡ some (regular j)
      → entry nodes j ≡ some node
      → Released (regular j)
  unfolding release
  release_node j node e found =
      let used : 1 ≤ node.reference_count = subst IsUsedNode found (v.nodes_used j) in
      rw (unwrap_at-some nodes j found) (elim (Bool-cases (node.reference_count == 1)) [
        | inl t ↦ rw t (
            nodes_change j (set nodes j none) e
              (lose references_of nodes j none found (λ i. count (leads_to i) (set fds fd none))
                v.nodes_counted (ground arith) (λ i. counts (leads_to i) e))
              (used-set nodes j none found IsUsedNode tt v.nodes_used))
        | inr t ↦
            let more : ltb 1 node.reference_count ≡ true = ground arith in
            let node' = record node { reference_count = node.reference_count - 1 } in
            rw (t, more)
              (nodes_change j (set nodes j (some node')) e
                (lose references_of nodes j (some node') found
                  (λ i. count (leads_to i) (set fds fd none)) v.nodes_counted (omega arith)
                  (λ i. counts (leads_to i) e))
                (used-set nodes j (some node') found IsUsedNode (ground arith) v.nodes_used))
      ])

  -- The descriptor led to an end of a pipe, and only the pipes change.
  pipes_change :
      (m : FdMapping) (pipes' : Pipes)
      → entry fds fd ≡ some m
      → ((i : ℕ) → leads_to i m ≡ false)
      → ((i : ℕ)
          → readers_of (entry pipes' i) ≡ count (reads i) (set fds fd none) + others.readers i)
      → ((i : ℕ)
          → writers_of (entry pipes' i) ≡ count (writes i) (set fds fd none) + others.writers i)
      → ((i : ℕ) → IsUsedPipe (entry pipes' i))
      → Counted others (set fds fd none) nodes pipes'
  pipes_change m pipes' e apart readers writers used = record {
    nodes_counted = λ i. ground (arith, apart i, counts (leads_to i) e, v.nodes_counted i);
    readers_counted = readers;
    writers_counted = writers;
    nodes_used = v.nodes_used;
    pipes_used = used;
  }

  -- A pipe end goes.
  read_end_goes :
      (j : ℕ) (pipe : ProcessPipe) (pipe' : Option ProcessPipe)
      → entry fds fd ≡ some (pipe_read_end j)
      → entry pipes j ≡ some pipe
      → readers_of pipe' + 1 ≡ pipe.readers_count
      → writers_of pipe' ≡ pipe.writers_count
      → IsUsedPipe pipe'
      → Counted others (set fds fd none) nodes (set pipes j pipe')
  read_end_goes j pipe pipe' e found less same used =
      pipes_change (pipe_read_end j) (set pipes j pipe') e (λ i. refl)
        (lose readers_of pipes j pipe' found
          (λ i. count (reads i) (set fds fd none) + others.readers i) v.readers_counted less
          (λ i. omega (arith, counts (reads i) e)))
        (keep writers_of pipes j pipe' found v.writers_counted same
          (λ i. omega (arith, counts (writes i) e)))
        (used-set pipes j pipe' found IsUsedPipe used v.pipes_used)

  write_end_goes :
      (j : ℕ) (pipe : ProcessPipe) (pipe' : Option ProcessPipe)
      → entry fds fd ≡ some (pipe_write_end j)
      → entry pipes j ≡ some pipe
      → writers_of pipe' + 1 ≡ pipe.writers_count
      → readers_of pipe' ≡ pipe.readers_count
      → IsUsedPipe pipe'
      → Counted others (set fds fd none) nodes (set pipes j pipe')
  write_end_goes j pipe pipe' e found less same used =
      pipes_change (pipe_write_end j) (set pipes j pipe') e (λ i. refl)
        (keep readers_of pipes j pipe' found v.readers_counted same
          (λ i. omega (arith, counts (reads i) e)))
        (lose writers_of pipes j pipe' found
          (λ i. count (writes i) (set fds fd none) + others.writers i) v.writers_counted less
          (λ i. omega (arith, counts (writes i) e)))
        (used-set pipes j pipe' found IsUsedPipe used v.pipes_used)

  release_read_end :
      (j : ℕ) (pipe : ProcessPipe)
      → entry fds fd ≡ some (pipe_read_end j)
      → entry pipes j ≡ some pipe
      → 1 ≤ pipe.readers_count
      → Released (pipe_read_end j)
  unfolding release
  release_read_end j pipe e found h =
      rw (unwrap_at-some pipes j found)
        (elim (Bool-cases ((pipe.readers_count == 1) && (pipe.writers_count == 0))) [
          | inl t ↦
              rw t
                (Counted-pipes (read_end_goes j pipe none e found (ground arith) (ground arith) tt))
          | inr t ↦
              let more : leb 1 pipe.readers_count ≡ true = ground arith in
              rw (t, more)
                (read_end_goes j pipe
                  (some (record pipe { readers_count = pipe.readers_count - 1 })) e found
                  (omega arith) refl (ground arith))
        ])

  release_write_end :
      (j : ℕ) (pipe : ProcessPipe)
      → entry fds fd ≡ some (pipe_write_end j)
      → entry pipes j ≡ some pipe
      → 1 ≤ pipe.writers_count
      → Released (pipe_write_end j)
  unfolding release
  release_write_end j pipe e found h =
      rw (unwrap_at-some pipes j found)
        (elim (Bool-cases ((pipe.writers_count == 1) && (pipe.readers_count == 0))) [
          | inl t ↦
              rw t (
                Counted-pipes (write_end_goes j pipe none e found (ground arith) (ground arith) tt))
          | inr t ↦
              let more : leb 1 pipe.writers_count ≡ true = ground arith in
              rw (t, more)
                (write_end_goes j pipe
                  (some (record pipe { writers_count = pipe.writers_count - 1 })) e found
                  (omega arith) refl (ground arith))
        ])

  standard_closes :
      (m : FdMapping)
      → entry fds fd ≡ some m
      → ((i : ℕ) → leads_to i m ≡ false)
      → ((i : ℕ) → reads i m ≡ false)
      → ((i : ℕ) → writes i m ≡ false)
      → Counted others (set fds fd none) nodes pipes
  standard_closes m e p q r =
      pipes_change m pipes e p (λ i. ground (arith, q i, counts (reads i) e, v.readers_counted i))
        (λ i. ground (arith, r i, counts (writes i) e, v.writers_counted i)) v.pipes_used

  pub release_lem : (m : FdMapping) → entry fds fd ≡ some m → Released m
  unfolding release
  release_lem (regular j) e = let (node, found) = found_node v fd j e in release_node j node e found
  release_lem (pipe_read_end j) e =
      let (pipe, found, h) = found_reader v fd j e in release_read_end j pipe e found h
  release_lem (pipe_write_end j) e =
      let (pipe, found, h) = found_writer v fd j e in release_write_end j pipe e found h
  release_lem stdin e = standard_closes stdin e (λ i. refl) (λ i. refl) (λ i. refl)
  release_lem stdout e = standard_closes stdout e (λ i. refl) (λ i. refl) (λ i. refl)
  release_lem stderr e = standard_closes stderr e (λ i. refl) (λ i. refl) (λ i. refl)

-- ===== src/Syscall/Dup.antt =====
-- `dup` of kernel/src/syscall.rs, and what `dup2` shares with it.
use ron.Base.{
  ℕ, ◌+◌, ◌^◌, ◌<◌, ◌≡◌, refl, subst, inl, inr, Option, none, some, List, Bool, false, ◌==◌,
  if◌then◌else◌, Option-cases, arith,
}
use ron.Base.Int.{ℤ, pos}
use ron.Base.Options.{entry}
use ron.Base.Run.{Run, ran, ◌>>=◌, Ends, Ends-bind}
use ron.Base.Slots.{unwrap_at-some, one_if, count, count-place, entry-place, place-free, place}
use ron.Process.{
  FdMapping, regular, pipe_read_end, pipe_write_end, stdin, stdout, stderr, ProcessPipe,
  ProcessNode, ProcessData, Pipes,
}
use ron.Syscall.{Nodes, increment, retain, dup, failed}
use ron.Syscall.Counted.{
  leads_to, reads, writes, references_of, readers_of, writers_of, IsUsedNode, IsUsedPipe, Others,
  Counted, found_node, found_reader, found_writer, gain, keep, used-set,
}

-- One more descriptor can be counted.
pub record IsRoom (others : Others) (fds : List (Option FdMapping)) : Type 0 where
  pub nodes_room : (i : ℕ) → count (leads_to i) fds + 1 < 2 ^ 64
  pub readers_room : (i : ℕ) → count (reads i) fds + others.readers i + 1 < 2 ^ 64
  pub writers_room : (i : ℕ) → count (writes i) fds + others.writers i + 1 < 2 ^ 64

pub increment-room : (n : ℕ) → n + 1 < 2 ^ 64 → increment n ≡ ran (n + 1)
increment-room n h = ground arith

-- The descriptors `fds` gain one that leads to `m`.
module _ {N P : Type 0} (others : Others) (fds fds' : List (Option FdMapping)) (nodes : Nodes N P)
    (pipes : Pipes) (v : Counted others fds nodes pipes) (room : IsRoom others fds) where
  abbrev pub Retained : FdMapping → Type 0
  Retained m = Ends (λ r. Counted others fds' r.0 r.1) (retain m nodes pipes)

  abbrev pub Gains : FdMapping → Type 0
  Gains m = (p : FdMapping → Bool) → count p fds' ≡ one_if (p m) + count p fds

  retain_node :
      (j : ℕ) (node : ProcessNode N P)
      → Gains (regular j)
      → entry nodes j ≡ some node
      → Retained (regular j)
  unfolding retain
  retain_node j node g found =
      let below : node.reference_count + 1 < 2 ^ 64 = omega (
        arith,
        room.nodes_room j,
        subst (λ o. references_of o ≡ count (leads_to j) fds) found (v.nodes_counted j),
      ) in
      let node' = record node { reference_count = node.reference_count + 1 } in
      rw (unwrap_at-some nodes j found) (
        rw (increment-room node.reference_count below) record {
          nodes_counted =
              gain references_of nodes j (some node') found v.nodes_counted refl
                (λ i. g (leads_to i));
          readers_counted = λ i. ground (arith, g (reads i), v.readers_counted i);
          writers_counted = λ i. ground (arith, g (writes i), v.writers_counted i);
          nodes_used = used-set nodes j (some node') found IsUsedNode (omega arith) v.nodes_used;
          pipes_used = v.pipes_used;
        })

  retain_read_end :
      (j : ℕ) (pipe : ProcessPipe)
      → Gains (pipe_read_end j)
      → entry pipes j ≡ some pipe
      → Retained (pipe_read_end j)
  unfolding retain
  retain_read_end j pipe g found =
      let below : pipe.readers_count + 1 < 2 ^ 64 = omega (
        arith,
        room.readers_room j,
        subst (λ o. readers_of o ≡ count (reads j) fds + others.readers j) found
            (v.readers_counted j),
      ) in
      let pipe' = record pipe { readers_count = pipe.readers_count + 1 } in
      rw (unwrap_at-some pipes j found) (
        rw (increment-room pipe.readers_count below) record {
          nodes_counted = λ i. ground (arith, g (leads_to i), v.nodes_counted i);
          readers_counted =
              gain readers_of pipes j (some pipe') found v.readers_counted refl
                (λ i. omega (arith, g (reads i)));
          writers_counted =
              keep writers_of pipes j (some pipe') found v.writers_counted refl
                (λ i. ground (arith, g (writes i)));
          nodes_used = v.nodes_used;
          pipes_used = used-set pipes j (some pipe') found IsUsedPipe (omega arith) v.pipes_used;
        })

  retain_write_end :
      (j : ℕ) (pipe : ProcessPipe)
      → Gains (pipe_write_end j)
      → entry pipes j ≡ some pipe
      → Retained (pipe_write_end j)
  unfolding retain
  retain_write_end j pipe g found =
      let below : pipe.writers_count + 1 < 2 ^ 64 = omega (
        arith,
        room.writers_room j,
        subst (λ o. writers_of o ≡ count (writes j) fds + others.writers j) found
            (v.writers_counted j),
      ) in
      let pipe' = record pipe { writers_count = pipe.writers_count + 1 } in
      rw (unwrap_at-some pipes j found) (
        rw (increment-room pipe.writers_count below) record {
          nodes_counted = λ i. ground (arith, g (leads_to i), v.nodes_counted i);
          readers_counted =
              keep readers_of pipes j (some pipe') found v.readers_counted refl
                (λ i. ground (arith, g (reads i)));
          writers_counted =
              gain writers_of pipes j (some pipe') found v.writers_counted refl
                (λ i. omega (arith, g (writes i)));
          nodes_used = v.nodes_used;
          pipes_used = used-set pipes j (some pipe') found IsUsedPipe (omega arith) v.pipes_used;
        })

  standard_retained :
      (m : FdMapping)
      → Gains m
      → ((i : ℕ) → leads_to i m ≡ false)
      → ((i : ℕ) → reads i m ≡ false)
      → ((i : ℕ) → writes i m ≡ false)
      → Counted others fds' nodes pipes
  standard_retained m g p q r = record {
    nodes_counted = λ i. ground (arith, p i, g (leads_to i), v.nodes_counted i);
    readers_counted = λ i. ground (arith, q i, g (reads i), v.readers_counted i);
    writers_counted = λ i. ground (arith, r i, g (writes i), v.writers_counted i);
    nodes_used = v.nodes_used;
    pipes_used = v.pipes_used;
  }

  pub retain_lem : (m : FdMapping) (fd : ℕ) → entry fds fd ≡ some m → Gains m → Retained m
  unfolding retain
  retain_lem (regular j) fd e g =
      let (node, found) = found_node v fd j e in retain_node j node g found
  retain_lem (pipe_read_end j) fd e g =
      let (pipe, found, h) = found_reader v fd j e in retain_read_end j pipe g found
  retain_lem (pipe_write_end j) fd e g =
      let (pipe, found, h) = found_writer v fd j e in retain_write_end j pipe g found
  retain_lem stdin fd e g = standard_retained stdin g (λ i. refl) (λ i. refl) (λ i. refl)
  retain_lem stdout fd e g = standard_retained stdout g (λ i. refl) (λ i. refl) (λ i. refl)
  retain_lem stderr fd e g = standard_retained stderr g (λ i. refl) (λ i. refl) (λ i. refl)

module _ {N P E : Type 0} (others : Others) (proc : ProcessData N P E) (pipes : Pipes)
    (fd : ℕ) where
  -- What `dup` leaves, its result, the process and the pipes, for what the descriptor leads to: the
  -- new descriptor was free and leads there too.
  abbrev pub Added : Option FdMapping → ℤ × ProcessData N P E × Pipes → Type 0
  Added none r = r ≡ (failed, proc, pipes)
  Added (some m) r =
      (k : ℕ) × (r.0 ≡ pos k)
      × (entry proc.fd_mappings k ≡ none)
      × ((j : ℕ) → entry r.1.fd_mappings j ≡ (if j == k then some m else entry proc.fd_mappings j))

  abbrev pub Duplicated : ℤ × ProcessData N P E × Pipes → Type 0
  Duplicated r =
      Counted others r.1.fd_mappings r.1.open_nodes r.2 × Added (entry proc.fd_mappings fd) r

  dup-none :
      Counted others proc.fd_mappings proc.open_nodes pipes
      → entry proc.fd_mappings fd ≡ none
      → Ends Duplicated (dup proc pipes fd)
  unfolding dup
  dup-none v e =
      let same : dup proc pipes fd ≡ ran (failed, proc, pipes) = rw (e, dup) refl in
      rw same (v, rw e refl)

  abbrev add_descriptor : FdMapping → Nodes N P × Pipes → Run (ℤ × ProcessData N P E × Pipes)
  add_descriptor m (nodes, pipes') =
      let placed = place proc.fd_mappings m in
      ran (pos placed.0, record proc { fd_mappings = placed.1; open_nodes = nodes }, pipes')

  dup-some :
      (m : FdMapping)
      → Counted others proc.fd_mappings proc.open_nodes pipes
      → IsRoom others proc.fd_mappings
      → entry proc.fd_mappings fd ≡ some m
      → Ends Duplicated (dup proc pipes fd)
  unfolding dup
  dup-some m v room e =
      let same : dup proc pipes fd ≡ (retain m proc.open_nodes pipes >>= add_descriptor m) =
        rw (e, dup) refl in
      let fds' = (place proc.fd_mappings m).1 in
      rw same (
        Ends-bind (λ r. Counted others fds' r.0 r.1) Duplicated (retain m proc.open_nodes pipes)
          (add_descriptor m)
          (retain_lem others proc.fd_mappings fds' proc.open_nodes pipes v room m fd e
            (λ p. count-place p proc.fd_mappings m))
          (λ r v'. (
            v',
            rw e (
              (place proc.fd_mappings m).0,
              refl,
              place-free proc.fd_mappings m,
              entry-place proc.fd_mappings m,
            ),
          )))

  -- Where every node and pipe counts the descriptors that lead to it, and each count is below its
  -- limit, `dup` never panics and keeps the counts right. A descriptor that is not open gives -1
  -- and changes nothing; for one that is open it gives a descriptor that was free and now leads to
  -- the same place, and every other descriptor is what it was.
  pub dup_lem :
      Counted others proc.fd_mappings proc.open_nodes pipes
      → IsRoom others proc.fd_mappings
      → Ends Duplicated (dup proc pipes fd)
  dup_lem v room = elim (Option-cases (entry proc.fd_mappings fd)) [
    | inl e ↦ dup-none v e
    | inr (m, e) ↦ dup-some m v room e
  ]

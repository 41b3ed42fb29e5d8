-- ===== src/Syscall/Dup2.antt =====
-- `dup2` of kernel/src/syscall.rs.
use ron.Base.{
  ℕ, ◌+◌, ◌-◌, ◌≤◌, ◌<◌, ◌≡◌, ◌≢◌, refl, sym, ap, ◌∙◌, subst, inl, inr, Option, none, some, List,
  Bool, true, ◌==◌, ltb, if◌then◌else◌, Bool-cases, set, length, replicate, leb, ◌++◌, ◌^◌,
  Option-cases, arith,
}
use ron.Base.Int.{ℤ, pos, to_signed}
use ron.Base.Options.{entry}
use ron.Base.Run.{Run, panic, ran, ◌>>=◌, Ends, Ends-bind, Ends-map, Ends-value, bind-panic}
use ron.Base.Slots.{
  one_if, count, count-set, count-drain, IsDrained, drain, entry-drain, entry-set, entry-lt,
  set-none, count-fill, count-free, entry-free, length-free,
}
use ron.Process.{FdMapping, ProcessData, Pipes}
use ron.Syscall.{Nodes, retain, resized, install, close, dup2, failed}
use ron.Syscall.Counted.{leads_to, reads, writes, Others, Counted}
use ron.Syscall.Close.{Closed, Freed, close_lem}
use ron.Syscall.Dup.{IsRoom, retain_lem}

-- The descriptors with one more at `newfd`, which was free.
abbrev pub Installed : List (Option FdMapping) → ℕ → FdMapping → List (Option FdMapping) → Type 0
Installed fds newfd m fds' =
    ((p : FdMapping → Bool) → count p fds' ≡ one_if (p m) + count p fds)
    × ((j : ℕ) → entry fds' j ≡ (if j == newfd then some m else entry fds j))

install_grown :
    (fds : List (Option FdMapping)) (newfd : ℕ) (m : FdMapping) (grown : List (Option FdMapping))
    → newfd < length grown
    → ((p : FdMapping → Bool) → count p grown ≡ count p fds)
    → ((j : ℕ) → entry grown j ≡ entry fds j)
    → entry fds newfd ≡ none
    → Installed fds newfd m (set grown newfd (some m))
install_grown fds newfd m grown h counts entries free = (
  (λ p. rw (count-fill p grown newfd m (entries newfd ∙ free) h) (rw (counts p) refl)),
  λ j. rw (entry-set grown newfd j (some m) h) (rw (entries j) refl),
)

-- A free descriptor that there is room for is installed, unless it is the first above all others.
pub install_lem :
    (room : ℕ) (fds : List (Option FdMapping)) (newfd : ℕ) (m : FdMapping)
    → newfd < room
    → room < 2 ^ 63
    → entry fds newfd ≡ none
    → newfd ≢ length fds
    → Ends (Installed fds newfd m) (install room fds newfd m)
unfolding install resized
install_lem room fds newfd m roomy small free apart = elim (Bool-cases (ltb (length fds) newfd)) [
  | inl t ↦
      let grown : List (Option FdMapping) = fds ++ replicate (newfd + 1 - length fds) none in
      let long : newfd < length grown = ground (arith, length-free fds (newfd + 1 - length fds)) in
      let within : ltb newfd (length grown) ≡ true = ground arith in
      let fits : ltb (newfd + 1) (2 ^ 64) ≡ true = ground arith in
      let allocated : leb (newfd + 1) room ≡ true = ground arith in
      rw (t, fits, allocated)
        (rw within (
          install_grown fds newfd m grown long (λ p. count-free p fds (newfd + 1 - length fds))
            (λ j. entry-free fds (newfd + 1 - length fds) j) free))
  | inr t ↦
      let within : ltb newfd (length fds) ≡ true = ground arith in
      rw (t, within) (install_grown fds newfd m fds (ground arith) (λ p. refl) (λ j. refl) free)
]

-- The first descriptor above all others cannot be installed.
pub install-length :
    (room : ℕ) (fds : List (Option FdMapping)) (newfd : ℕ) (m : FdMapping)
    → newfd ≡ length fds
    → install room fds newfd m ≡ panic
unfolding install
install-length room fds newfd m e = ground arith

to_signed-small : (n : ℕ) → n < 2 ^ 63 → to_signed 64 n ≡ pos n
to_signed-small n h = ground arith

module _ {N P E : Type 0} (others : Others) (room : ℕ) (proc : ProcessData N P E) (pipes : Pipes)
    (oldfd newfd : ℕ) (m : FdMapping) where
  -- What `dup2` leaves: the new descriptor leads where the old one does.
  abbrev pub Replaced : ℤ × ProcessData N P E × Pipes → Type 0
  Replaced r =
      Counted others r.1.fd_mappings r.1.open_nodes r.2
      × (r.0 ≡ pos newfd)
      × ((j : ℕ)
          → entry r.1.fd_mappings j ≡ (if j == newfd then some m else entry proc.fd_mappings j))

  -- The descriptors once `newfd` is closed.
  abbrev pub left_open : List (Option FdMapping)
  left_open = drain (set proc.fd_mappings newfd none)

  abbrev install_in : ProcessData N P E → Nodes N P × Pipes → Run (ℤ × ProcessData N P E × Pipes)
  install_in closed (nodes, pipes') = do
    fds ← install room closed.fd_mappings newfd m
    ran (to_signed 64 newfd, record closed { fd_mappings = fds; open_nodes = nodes }, pipes')

  abbrev retain_in : ℤ × ProcessData N P E × Pipes → Run (ℤ × ProcessData N P E × Pipes)
  retain_in (result, closed, pipes') = retain m closed.open_nodes pipes' >>= install_in closed

  dup2-some :
      entry proc.fd_mappings oldfd ≡ some m
      → dup2 room proc pipes oldfd newfd ≡ (close proc pipes newfd >>= retain_in)
  unfolding dup2
  dup2-some e = rw (e, dup2) refl

  -- The state between.
  abbrev Between : ℤ × ProcessData N P E × Pipes → Type 0
  Between r = Counted others r.1.fd_mappings r.1.open_nodes r.2 × (r.1.fd_mappings ≡ left_open)

  Closed-Between :
      IsDrained proc.fd_mappings
      → (r : ℤ × ProcessData N P E × Pipes) → Closed others proc pipes newfd r
      → Between r
  Closed-Between drained r h = elim (Option-cases (entry proc.fd_mappings newfd)) [
    | inl e ↦
        let same : r ≡ (failed, proc, pipes) =
          subst (λ o. Freed others proc pipes newfd o r) e h.1 in
        (h.0, rw same (rw (set-none proc.fd_mappings newfd e) (sym drained)))
    | inr (n, e) ↦ (h.0, (subst (λ o. Freed others proc pipes newfd o r) e h.1).1)
  ]

  -- Once `newfd` is closed it is free, and every other descriptor is what it was.
  left_open-entry :
      (j : ℕ) → entry left_open j ≡ (if j == newfd then none else entry proc.fd_mappings j)
  left_open-entry j = elim (Option-cases (entry proc.fd_mappings newfd)) [
    | inl e ↦ rw (entry-drain (set proc.fd_mappings newfd none) j) (
        rw (set-none proc.fd_mappings newfd e) (elim (Bool-cases (j == newfd)) [
          | inl t ↦ let same : j ≡ newfd = ground arith in rw t (rw same e)
          | inr t ↦ rw t refl
        ]))
    | inr (n, e) ↦
        rw (entry-drain (set proc.fd_mappings newfd none) j)
          (entry-set proc.fd_mappings newfd j none (entry-lt proc.fd_mappings newfd e))
  ]

  left_open-count : (p : FdMapping → Bool) → count p left_open ≤ count p proc.fd_mappings
  unfolding count
  left_open-count p = elim (Option-cases (entry proc.fd_mappings newfd)) [
    | inl e ↦
        rw (count-drain p (set proc.fd_mappings newfd none))
          (rw (set-none proc.fd_mappings newfd e) (omega arith))
    | inr (n, e) ↦
        rw (count-drain p (set proc.fd_mappings newfd none))
          (omega (arith, count-set p proc.fd_mappings newfd none e))
  ]

  left_open-IsRoom : IsRoom others proc.fd_mappings → IsRoom others left_open
  left_open-IsRoom limits = record {
    nodes_room = λ i. omega (arith, limits.nodes_room i, left_open-count (leads_to i));
    readers_room = λ i. omega (arith, limits.readers_room i, left_open-count (reads i));
    writers_room = λ i. omega (arith, limits.writers_room i, left_open-count (writes i));
  }

  old_open : entry proc.fd_mappings oldfd ≡ some m → oldfd ≢ newfd → entry left_open oldfd ≡ some m
  old_open e apart = ground (arith, left_open-entry oldfd)

  retain_in_lem :
      newfd < room
      → room < 2 ^ 63
      → newfd ≢ length left_open
      → entry left_open oldfd ≡ some m
      → IsRoom others left_open
      → (r : ℤ × ProcessData N P E × Pipes) → Between r
      → Ends Replaced (retain_in r)
  retain_in_lem roomy small apart e limits (result, closed, pipes') (v, same) =
      let free : entry left_open newfd ≡ none = ground (arith, left_open-entry newfd) in
      let (fds', installed, inst) =
        Ends-value (Installed left_open newfd m) (install room left_open newfd m)
          (install_lem room left_open newfd m roomy small free apart) in
      let v' : Counted others left_open closed.open_nodes pipes' =
        subst (λ l. Counted others l closed.open_nodes pipes') same v in
      Ends-bind (λ s. Counted others fds' s.0 s.1) Replaced (retain m closed.open_nodes pipes')
        (install_in closed)
        (retain_lem others left_open fds' closed.open_nodes pipes' v' limits m oldfd e inst.0)
        (λ s w. rw same (
          rw installed (
            w,
            to_signed-small newfd (omega arith),
            λ j. ground (arith, inst.1 j, left_open-entry j),
          )))

  -- Where every node and pipe counts the descriptors that lead to it, each count is below its
  -- limit, no free slot stands at the end of the descriptors, and the heap has room for `room`
  -- descriptors, below 2 ^ 63: `dup2` of an open descriptor to another, which is below `room` and
  -- not the first above those that stay open, never panics, gives the new descriptor, which then
  -- leads to the same place, leaves every other descriptor as it was and keeps the counts right.
  pub dup2_lem :
      Counted others proc.fd_mappings proc.open_nodes pipes
      → IsRoom others proc.fd_mappings
      → IsDrained proc.fd_mappings
      → entry proc.fd_mappings oldfd ≡ some m
      → oldfd ≢ newfd
      → newfd < room
      → room < 2 ^ 63
      → newfd ≢ length left_open
      → Ends Replaced (dup2 room proc pipes oldfd newfd)
  dup2_lem v limits drained e apart roomy small short = rw (dup2-some e) (
      Ends-bind Between Replaced (close proc pipes newfd) retain_in
        (Ends-map (Closed others proc pipes newfd) Between (close proc pipes newfd)
          (close_lem others proc pipes newfd v) (Closed-Between drained))
        (retain_in_lem roomy small short (old_open e apart) (left_open-IsRoom limits)))

  refused :
      (closed : ProcessData N P E) (nodes : Nodes N P × Pipes)
      → closed.fd_mappings ≡ left_open
      → newfd ≡ length left_open
      → install_in closed nodes ≡ panic
  refused closed nodes same short =
      rw (install-length room closed.fd_mappings newfd m (short ∙ ap length (sym same))) refl

  -- Where every node and pipe counts the descriptors that lead to it and no free slot stands at the
  -- end of the descriptors, `dup2` of an open descriptor to the first one above those that stay
  -- open panics.
  pub dup2-length :
      Counted others proc.fd_mappings proc.open_nodes pipes
      → IsDrained proc.fd_mappings
      → entry proc.fd_mappings oldfd ≡ some m
      → newfd ≡ length left_open
      → dup2 room proc pipes oldfd newfd ≡ panic
  dup2-length v drained e short =
      let (r, closes, between) = Ends-value Between (close proc pipes newfd) (
        Ends-map (Closed others proc pipes newfd) Between (close proc pipes newfd)
          (close_lem others proc pipes newfd v) (Closed-Between drained)) in
      rw (dup2-some e) (
        rw closes (
          bind-panic (retain m r.1.open_nodes r.2) (install_in r.1)
            (λ nodes. refused r.1 nodes between.1 short)))

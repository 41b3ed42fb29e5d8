-- ===== src/Syscall/Counted.antt =====
-- The reference counts of kernel/src/syscall.rs: a node is open, and a pipe exists, just as long as
-- descriptors lead to it, and each counts them.
use ron.Base.{
  ℕ, ◌+◌, ◌≤◌, ◌≡◌, refl, inl, inr, Option, none, some, List, [], ◌∷◌, ◌++◌, length, Bool, false,
  ◌==◌, set, if◌then◌else◌, Bool-cases, Option-cases, subst, arith,
}
use ron.Base.Options.{entry}
use ron.Base.Slots.{
  one_if, count, count-entry, drain, entry-drain, count-drain, entry-set, entry-lt, entry-push,
  entry-out,
}
use ron.Process.{FdMapping, regular, pipe_read_end, pipe_write_end, ProcessPipe, ProcessNode, Pipes}
use ron.Syscall.{Nodes}

abbrev pub leads_to : ℕ → FdMapping → Bool
leads_to i (regular j) = j == i
leads_to i _ = false

abbrev pub reads : ℕ → FdMapping → Bool
reads i (pipe_read_end j) = j == i
reads i _ = false

abbrev pub writes : ℕ → FdMapping → Bool
writes i (pipe_write_end j) = j == i
writes i _ = false

abbrev pub references_of : {N P : Type 0} → Option (ProcessNode N P) → ℕ
references_of none = 0
references_of (some node) = node.reference_count

abbrev pub readers_of : Option ProcessPipe → ℕ
readers_of none = 0
readers_of (some pipe) = pipe.readers_count

abbrev pub writers_of : Option ProcessPipe → ℕ
writers_of none = 0
writers_of (some pipe) = pipe.writers_count

-- A node that is open has a reference, and a pipe that exists has an end.
abbrev pub IsUsedNode : {N P : Type 0} → Option (ProcessNode N P) → Type 0
IsUsedNode none = Unit
IsUsedNode (some node) = 1 ≤ node.reference_count

abbrev pub IsUsedPipe : Option ProcessPipe → Type 0
IsUsedPipe none = Unit
IsUsedPipe (some pipe) = 1 ≤ pipe.readers_count + pipe.writers_count

-- How many ends of each pipe the other processes hold.
pub record Others : Type 0 where
  pub readers : ℕ → ℕ
  pub writers : ℕ → ℕ

pub record Counted {N P : Type 0} (others : Others) (fds : List (Option FdMapping))
    (nodes : Nodes N P) (pipes : Pipes) : Type 0 where
  pub nodes_counted : (i : ℕ) → references_of (entry nodes i) ≡ count (leads_to i) fds
  pub readers_counted :
      (i : ℕ) → readers_of (entry pipes i) ≡ count (reads i) fds + others.readers i
  pub writers_counted :
      (i : ℕ) → writers_of (entry pipes i) ≡ count (writes i) fds + others.writers i
  pub nodes_used : (i : ℕ) → IsUsedNode (entry nodes i)
  pub pipes_used : (i : ℕ) → IsUsedPipe (entry pipes i)

-- An element of a table that changes, where each weight is the total of its index.
module _ {A : Type 0} (weight : Option A → ℕ) (xs : List (Option A)) (j : ℕ) (v : Option A) {a : A}
    (e : entry xs j ≡ some a) where
  weight-set :
      (i : ℕ) → weight (entry (set xs j v) i) ≡ (if i == j then weight v else weight (entry xs i))
  weight-set i = elim (Bool-cases (i == j)) [
    | inl t ↦ rw (entry-set xs j i v (entry-lt xs j e), t) refl
    | inr t ↦ rw (entry-set xs j i v (entry-lt xs j e), t) refl
  ]

  here : {i : ℕ} → i ≡ j → weight (entry xs i) ≡ weight (some a)
  here same = rw (same, e) refl

  pub lose :
      {total : ℕ → ℕ} (total' : ℕ → ℕ)
      → ((i : ℕ) → weight (entry xs i) ≡ total i)
      → weight v + 1 ≡ weight (some a)
      → ((i : ℕ) → total' i + one_if (j == i) ≡ total i)
      → (i : ℕ) → weight (entry (set xs j v) i) ≡ total' i
  lose total' counted less totals i =
      rw (weight-set i) (ground (arith, here {i = i}, totals i, counted i))

  pub gain :
      {total total' : ℕ → ℕ}
      → ((i : ℕ) → weight (entry xs i) ≡ total i)
      → weight v ≡ weight (some a) + 1
      → ((i : ℕ) → total' i ≡ one_if (j == i) + total i)
      → (i : ℕ) → weight (entry (set xs j v) i) ≡ total' i
  gain counted more totals i = rw (weight-set i) (ground (arith, here {i = i}, totals i, counted i))

  pub keep :
      {total total' : ℕ → ℕ}
      → ((i : ℕ) → weight (entry xs i) ≡ total i)
      → weight v ≡ weight (some a)
      → ((i : ℕ) → total' i ≡ total i)
      → (i : ℕ) → weight (entry (set xs j v) i) ≡ total' i
  keep counted same totals i = rw (weight-set i) (ground (arith, here {i = i}, totals i, counted i))

module _ {A : Type 0} (xs : List (Option A)) (j : ℕ) (v : Option A) {a : A}
    (e : entry xs j ≡ some a) (IsUsed : Option A → Type 0) where
  pub used-set :
      IsUsed v → ((i : ℕ) → IsUsed (entry xs i)) → (i : ℕ) → IsUsed (entry (set xs j v) i)
  used-set h all i = elim (Bool-cases (i == j)) [
    | inl t ↦ rw (entry-set xs j i v (entry-lt xs j e), t) h
    | inr t ↦ rw (entry-set xs j i v (entry-lt xs j e), t) (all i)
  ]

-- A new element behind the others, of weight 1.
pub gain_fresh :
    {A : Type 0} (weight : Option A → ℕ) (xs : List (Option A)) (a : A) {total total' : ℕ → ℕ}
    → weight none ≡ 0
    → weight (some a) ≡ 1
    → ((i : ℕ) → weight (entry xs i) ≡ total i)
    → ((i : ℕ) → total' i ≡ one_if (length xs == i) + total i)
    → (i : ℕ) → weight (entry (xs ++ (some a ∷ [])) i) ≡ total' i
gain_fresh weight xs a {total} free one counted totals i =
    rw (entry-push xs a i) (elim (Bool-cases (i == length xs)) [
      | inl t ↦
          let out : entry xs i ≡ none = entry-out xs i (ground arith) in
          rw (t, one) (ground (arith, totals i, subst (λ o. weight o ≡ total i) out (counted i)))
      | inr t ↦ rw t (ground (arith, totals i, counted i))
    ])

module _ {N P : Type 0} {others : Others} {fds : List (Option FdMapping)} {nodes : Nodes N P}
    {pipes : Pipes} where
  -- Free slots at the end do not count.
  pub Counted-drain :
      Counted others fds nodes pipes → Counted others (drain fds) (drain nodes) pipes
  Counted-drain v = record {
    nodes_counted = λ i. rw (entry-drain nodes i, count-drain (leads_to i) fds) (v.nodes_counted i);
    readers_counted = λ i. rw (count-drain (reads i) fds) (v.readers_counted i);
    writers_counted = λ i. rw (count-drain (writes i) fds) (v.writers_counted i);
    nodes_used = λ i. rw (entry-drain nodes i) (v.nodes_used i);
    pipes_used = v.pipes_used;
  }

  pub Counted-pipes : Counted others fds nodes pipes → Counted others fds nodes (drain pipes)
  Counted-pipes v = record {
    nodes_counted = v.nodes_counted;
    readers_counted = λ i. rw (entry-drain pipes i) (v.readers_counted i);
    writers_counted = λ i. rw (entry-drain pipes i) (v.writers_counted i);
    nodes_used = v.nodes_used;
    pipes_used = λ i. rw (entry-drain pipes i) (v.pipes_used i);
  }

  -- What a descriptor leads to is there.
  pub found_node :
      Counted others fds nodes pipes
      → (fd j : ℕ) → entry fds fd ≡ some (regular j)
      → (node : ProcessNode N P) × (entry nodes j ≡ some node)
  found_node v fd j e = elim (Option-cases (entry nodes j)) [
    | inl gone ↦
        let some_fd : 1 ≤ count (leads_to j) fds =
          count-entry (leads_to j) fds fd e (ground arith) in
        let counted : 0 ≡ count (leads_to j) fds =
          subst (λ o. references_of o ≡ count (leads_to j) fds) gone (v.nodes_counted j) in
        absurd (omega arith)
    | inr found ↦ found
  ]

  pub found_reader :
      Counted others fds nodes pipes
      → (fd j : ℕ) → entry fds fd ≡ some (pipe_read_end j)
      → (pipe : ProcessPipe) × (entry pipes j ≡ some pipe) × (1 ≤ pipe.readers_count)
  found_reader v fd j e =
      let some_fd : 1 ≤ count (reads j) fds = count-entry (reads j) fds fd e (ground arith) in
      let counted : (o : Option ProcessPipe)
          → entry pipes j ≡ o
          → readers_of o ≡ count (reads j) fds + others.readers j =
        λ o q.
          subst (λ o. readers_of o ≡ count (reads j) fds + others.readers j) q
            (v.readers_counted j) in
      elim (Option-cases (entry pipes j)) [
        | inl gone ↦ absurd (omega (arith, counted none gone))
        | inr (pipe, found) ↦ (pipe, found, omega (arith, counted (some pipe) found))
      ]

  pub found_writer :
      Counted others fds nodes pipes
      → (fd j : ℕ) → entry fds fd ≡ some (pipe_write_end j)
      → (pipe : ProcessPipe) × (entry pipes j ≡ some pipe) × (1 ≤ pipe.writers_count)
  found_writer v fd j e =
      let some_fd : 1 ≤ count (writes j) fds = count-entry (writes j) fds fd e (ground arith) in
      let counted : (o : Option ProcessPipe)
          → entry pipes j ≡ o
          → writers_of o ≡ count (writes j) fds + others.writers j =
        λ o q.
          subst (λ o. writers_of o ≡ count (writes j) fds + others.writers j) q
            (v.writers_counted j) in
      elim (Option-cases (entry pipes j)) [
        | inl gone ↦ absurd (omega (arith, counted none gone))
        | inr (pipe, found) ↦ (pipe, found, omega (arith, counted (some pipe) found))
      ]

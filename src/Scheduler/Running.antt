-- ===== src/Scheduler/Running.antt =====
-- A process that runs in `tick` of kernel/src/scheduler.rs, and what it may do to what it reaches.
use ron.Base.{
  ℕ, zero, suc, ◌+◌, ◌≤◌, ◌≡◌, refl, sym, ap, ◌∙◌, Option, none, some, List, [], ◌∷◌, ◌++◌, Bool,
  if◌then◌else◌, ◌⊎◌, inl, inr, Bool-cases, length, length-set, length-append, set, arith,
}
use ron.Base.Options.{entry}
use ron.Base.Run.{Run, ran, Keeps, Keeps-bind}
use ron.Process.{SignalType, sigill}
use ron.Syscall.{increment}
use ron.Tasks.{
  Process, Shared, World, new_task, push_all, move_new_tasks_into_list, kill_task, add_task,
  add_signal, or_else, stop_task,
}
use ron.Scheduler.{run_task}
use ron.Scheduler.Invariant.{pid_of, Aligned, Aligned-task, Aligned-queue, Aligned-push}
use ron.Scheduler.Served.{IsServing, IsServed}

module _ {M N P E : Type 0} where
  -- A tick of a process may change the pipes, and may make one new task.
  abbrev pub Reaches : Shared (Process M N P E) → Shared (Process M N P E) → Type 0
  Reaches s s' =
      ((s'.new_task_list ≡ s.new_task_list) × (s'.signal_queues ≡ s.signal_queues))
      ⊎ ((child : Process M N P E) × (pid_of child ≡ some (suc s.number_of_tasks))
          × (s'.new_task_list ≡ s.new_task_list ++ (child ∷ []))
          × (s'.signal_queues ≡ s.signal_queues ++ (some [] ∷ [])))

  pub new_task-Reaches :
      (process : Process M N P E) (s : Shared (Process M N P E))
      → Keeps (λ r. (r.0 ≡ suc s.number_of_tasks) × Reaches s r.1) (new_task process s)
  unfolding new_task
  new_task-Reaches process s =
      Keeps-bind (λ n. n ≡ suc s.number_of_tasks)
        (λ r. (r.0 ≡ suc s.number_of_tasks) × Reaches s r.1) (increment s.number_of_tasks)
        (λ n. ran (n, add_task process s n)) (ground arith)
        (λ n e. (
          e,
          inr (
            record process { state_data = record process.state_data { pid = some n } },
            ap some e,
            refl,
            refl,
          ),
        ))

  abbrev Queued : Shared (Process M N P E) → Shared (Process M N P E) → Type 0
  Queued s s' =
      (s'.new_task_list ≡ s.new_task_list)
      × ((s'.signal_queues ≡ s.signal_queues)
          ⊎ ((j : ℕ) × (q : List SignalType) × (q' : List SignalType) × (entry s.signal_queues j
                ≡ some q)
              × (s'.signal_queues ≡ set s.signal_queues j (some q'))))

  add_signal-Queued :
      (j : ℕ) (sent : SignalType) (s : Shared (Process M N P E)) (o : Option (List SignalType))
      → entry s.signal_queues j ≡ o
      → Queued s (or_else s (add_signal j sent s o))
  add_signal-Queued j sent s none e = (refl, inl refl)
  add_signal-Queued j sent s (some q) e = (refl, inr (j, q, q ++ (sent ∷ []), e, refl))

  kill_task-Queued :
      (pid : ℕ) (sent : SignalType) (s : Shared (Process M N P E))
      → Keeps (λ o. Queued s (or_else s o)) (kill_task pid sent s)
  unfolding kill_task
  kill_task-Queued zero sent s = tt
  kill_task-Queued (suc j) sent s = add_signal-Queued j sent s (entry s.signal_queues j) refl

  stop_task-Queued : (i : ℕ) (s : Shared (Process M N P E)) → Keeps (Queued s) (stop_task i s)
  stop_task-Queued i s =
      Keeps-bind (λ o. Queued s (or_else s o)) (Queued s) (kill_task (i + 1) sigill s)
        (λ o. ran (or_else s o)) (kill_task-Queued (i + 1) sigill s) (λ o h. h)

  -- The list with the new tasks at its end.
  reached-Aligned :
      (list : List (Option (Process M N P E))) (s s' : Shared (Process M N P E))
      → Aligned list s.signal_queues
      → s.new_task_list ≡ []
      → s.number_of_tasks ≡ length list
      → Reaches s s'
      → Aligned (push_all list s'.new_task_list) s'.signal_queues
        × (length list ≤ length (push_all list s'.new_task_list))
  reached-Aligned list s s' a none_ n (inl (e, q)) = rw q (rw (e ∙ none_) (a, omega arith))
  reached-Aligned list s s' a none_ n (inr (child, pid, e, q)) =
      let only : s'.new_task_list ≡ child ∷ [] = e ∙ ap (λ l. l ++ (child ∷ [])) none_ in
      rw q (
        rw only (
          Aligned-push list s.signal_queues a child [] (pid ∙ ap (λ m. some (suc m)) n),
          omega (arith, length-append list (some child ∷ [])),
        ))

  queued-Aligned :
      (list : List (Option (Process M N P E))) (s s' : Shared (Process M N P E))
      → Aligned list s.signal_queues
      → Queued s s'
      → Aligned list s'.signal_queues
  queued-Aligned list s s' a (e, inl q) = rw q a
  queued-Aligned list s s' a (e, inr (j, q, q', f, g)) =
      rw g (Aligned-queue list s.signal_queues a j q q' f)

module _ {M N P E : Type 0}
    (run : Process M N P E
      → Shared (Process M N P E)
      → Run (Bool × Process M N P E × Shared (Process M N P E)))
    (lawful : (p : Process M N P E) (s : Shared (Process M N P E))
      → Keeps (λ r. (pid_of r.1 ≡ pid_of p) × Reaches s r.2) (run p s)) where
  -- The world once the process has run, before the new tasks are moved.
  moved-IsServing :
      (n i : ℕ) (p p' : Process M N P E) (w : World (Process M N P E))
      (s s' : Shared (Process M N P E))
      → IsServed n i p w
      → pid_of p' ≡ pid_of p
      → Reaches w.shared s
      → Queued s s'
      → IsServing n
          (suc i)
          (move_new_tasks_into_list record { task_list = set w.task_list i (some p'); shared = s' })
  unfolding move_new_tasks_into_list
  moved-IsServing n i p p' w s s' v same reach queued =
      let list = set w.task_list i (some p') in
      let long : length list ≡ length w.task_list = length-set w.task_list i (some p') in
      let (a, longer) =
        reached-Aligned list w.shared s
          (Aligned-task w.task_list w.shared.signal_queues v.aligned i p p' v.here same) v.moved
          (v.numbered ∙ sym long) reach in
      rw queued.0 record {
        aligned = queued-Aligned (push_all list s.new_task_list) s s' a queued;
        moved = refl;
        counted = inr (refl, omega (arith, v.within));
      }

  pub run_task-IsServing :
      (n i : ℕ) (p : Process M N P E) (w : World (Process M N P E))
      → IsServed n i p w
      → Keeps (IsServing n (suc i)) (run_task run i p w)
  unfolding run_task
  run_task-IsServing n i p w v =
      Keeps-bind (λ r. (pid_of r.1 ≡ pid_of p) × Reaches w.shared r.2) (IsServing n (suc i))
        (run p w.shared) _ (lawful p w.shared)
        (λ r h.
          Keeps-bind (Queued r.2) (IsServing n (suc i)) (if r.0 then ran r.2 else stop_task i r.2) _
            (elim (Bool-cases r.0) [
              | inl t ↦ rw t (refl, inl refl)
              | inr t ↦ rw t (stop_task-Queued i r.2)
            ])
            (λ s' queued. moved-IsServing n i p r.1 w r.2 s' v h.0 h.1 queued))

-- ===== src/Scheduler/Tick.antt =====
-- `tick` of kernel/src/scheduler.rs keeps the task list, the signal queues and the pids together.
use ron.Base.{
  ℕ, zero, suc, ◌+◌, ◌≡◌, refl, sym, subst, ◌∙◌, Option, none, some, List, [], ◌∷◌, Bool, ltb, inl,
  inr, Bool-cases, length, length-set, set, arith,
}
use ron.Base.Options.{entry}
use ron.Base.Run.{Run, ran, ◌>>=◌, Keeps, Keeps-bind, Ends-Keeps}
use ron.Base.Slots.{unwrap_at-some, entry-lt, entry-set}
use ron.Process.{
  SignalType, ProcessState, running, running_new_child_just_forked,
  finished_waiting_for_child_process, waiting_for_child_process, waiting_for_read_pipe,
  terminated_normally_child_waiting_for_parent_acknowledgement,
  terminated_due_to_signal_child_waiting_for_parent_acknowledgement,
  terminated_normally_waiting_to_be_deallocated, terminated_due_to_signal_waiting_to_be_deallocated,
  is_dead, recive_signal, ProcessData,
}
use ron.Syscall.{index}
use ron.Tasks.{
  Process, Shared, World, push_all, move_new_tasks_into_list, recive_signals, wait_for,
  wait_for_any, waited,
}
use ron.Scheduler.{step_task, serve_slot, serve_task, tick_from, tick}
use ron.Scheduler.Shape.{SameShape-entry}
use ron.Scheduler.Invariant.{pid_of, Aligned, Aligned-task, Aligned-queue}
use ron.Scheduler.Wait.{WaitedAny, wait_for_any_lem}
use ron.Scheduler.Changed.{Changed, HasPids-entry, WaitedAny-Changed, wait_for-Changed}
use ron.Scheduler.Served.{
  IsServing, IsServed, waited-IsServing, wait_for_pipe-IsServing, check_orphan-IsServing,
  deallocate-IsServing,
}
use ron.Scheduler.Running.{Reaches, run_task-IsServing}

recive_signal-pid :
    {N P E : Type 0} (d : ProcessData N P E) (sent : SignalType)
    → (recive_signal d sent).pid ≡ d.pid
unfolding recive_signal
recive_signal-pid d sent = elim (Bool-cases (is_dead d.state)) [
  | inl t ↦ rw (t, recive_signal) refl
  | inr t ↦ rw (t, recive_signal) refl
]

module _ {M N P E : Type 0} where
  index-entry :
      (list : List (Option (Process M N P E))) (i : ℕ)
      → Keeps (λ slot. entry list i ≡ slot) (index list i)
  index-entry [] i = tt
  index-entry (x ∷ list) zero = refl
  index-entry (x ∷ list) (suc i) = index-entry list i

  recive_signals-pid :
      (p : Process M N P E) (queue : List SignalType) → pid_of (recive_signals p queue) ≡ pid_of p
  unfolding recive_signals
  recive_signals-pid p [] = refl
  recive_signals-pid p (s ∷ queue) =
      recive_signals-pid (record p { state_data = recive_signal p.state_data s }) queue
      ∙ recive_signal-pid p.state_data s

  wait_for_any-Changed :
      (our_pid n i : ℕ) (p : Process M N P E) (w : World (Process M N P E))
      → IsServed n i p w
      → Keeps (λ r. Changed w.task_list r.2) (wait_for_any our_pid w.task_list)
  wait_for_any-Changed our_pid n i p w v =
      Ends-Keeps (WaitedAny our_pid w.task_list) (λ r. Changed w.task_list r.2)
        (wait_for_any our_pid w.task_list)
        (wait_for_any_lem our_pid w.task_list
          (HasPids-entry w.task_list (λ j q e. (suc j, v.aligned.pids j q e))))
        (WaitedAny-Changed our_pid w.task_list)

module _ {M N P E : Type 0}
    (run : Process M N P E
      → Shared (Process M N P E)
      → Run (Bool × Process M N P E × Shared (Process M N P E)))
    (lawful : (p : Process M N P E) (s : Shared (Process M N P E))
      → Keeps (λ r. (pid_of r.1 ≡ pid_of p) × Reaches s r.2) (run p s)) where
  step_task-IsServing :
      (n i : ℕ) (p : Process M N P E) (state : ProcessState) (w : World (Process M N P E))
      → IsServed n i p w
      → Keeps (IsServing n (suc i)) (step_task run i p state w)
  unfolding step_task
  step_task-IsServing n i p running w v = run_task-IsServing run lawful n i p w v
  step_task-IsServing n i p running_new_child_just_forked w v =
      run_task-IsServing run lawful n i p w v
  step_task-IsServing n i p (finished_waiting_for_child_process info) w v =
      run_task-IsServing run lawful n i p w v
  step_task-IsServing n i p (waiting_for_child_process (some cpid)) w v =
      Keeps-bind (λ r. Changed w.task_list r.2) (IsServing n (suc i))
        (wait_for (i + 1) cpid w.task_list) (λ r. waited i r w)
        (wait_for-Changed (i + 1) cpid w.task_list) (waited-IsServing n i p w v)
  step_task-IsServing n i p (waiting_for_child_process none) w v =
      Keeps-bind (λ r. Changed w.task_list r.2) (IsServing n (suc i))
        (wait_for_any (i + 1) w.task_list) (λ r. waited i r w)
        (wait_for_any-Changed (i + 1) n i p w v) (waited-IsServing n i p w v)
  step_task-IsServing n i p (waiting_for_read_pipe j) w v = wait_for_pipe-IsServing n i p w v j
  step_task-IsServing n i p (terminated_normally_child_waiting_for_parent_acknowledgement c) w v =
      check_orphan-IsServing n i p w v (terminated_normally_waiting_to_be_deallocated c)
  step_task-IsServing n i p (terminated_due_to_signal_child_waiting_for_parent_acknowledgement c) w
        v =
      check_orphan-IsServing n i p w v (terminated_due_to_signal_waiting_to_be_deallocated c)
  step_task-IsServing n i p (terminated_normally_waiting_to_be_deallocated c) w v =
      deallocate-IsServing n i p w v
  step_task-IsServing n i p (terminated_due_to_signal_waiting_to_be_deallocated c) w v =
      deallocate-IsServing n i p w v

  serve_task-IsServing :
      (n i : ℕ) (p : Process M N P E) (w : World (Process M N P E))
      → IsServed n i p w
      → Keeps (IsServing n (suc i)) (serve_task run i p w)
  unfolding serve_task
  serve_task-IsServing n i p w v =
      let (queue, e) =
        SameShape-entry w.task_list w.shared.signal_queues i v.aligned.shaped v.here in
      let p' = recive_signals p queue in
      let same : pid_of p' ≡ pid_of p = recive_signals-pid p queue in
      let list = set w.task_list i (some p') in
      rw (unwrap_at-some w.shared.signal_queues i e) (
        step_task-IsServing n i p' p'.state_data.state _ record {
          aligned =
              Aligned-queue list w.shared.signal_queues
                (Aligned-task w.task_list w.shared.signal_queues v.aligned i p p' v.here same) i
                queue [] e;
          moved = v.moved;
          numbered = v.numbered ∙ sym (length-set w.task_list i (some p'));
          within = omega (arith, v.within, length-set w.task_list i (some p'));
          here =
              rw (entry-set w.task_list i i (some p') (entry-lt w.task_list i v.here))
                (ground arith);
        })

  serve_slot-IsServing :
      (n i : ℕ) (w : World (Process M N P E)) (slot : Option (Process M N P E))
      → IsServing (suc n) i w
      → entry w.task_list i ≡ slot
      → Keeps (IsServing n (suc i)) (serve_slot run i w slot)
  serve_slot-IsServing n i w slot v e = elim v.counted [
    | inl z ↦ absurd (omega arith)
    | inr (numbered, within) ↦
        elim slot
            as (λ o. entry w.task_list i ≡ o → Keeps (IsServing n (suc i)) (serve_slot run i w o)) [
              | none ↦ λ e'. record {
                aligned = v.aligned;
                moved = v.moved;
                counted = inr (numbered, omega (arith, within));
              }
              | some p ↦ λ e'. serve_task-IsServing n i p w record {
                aligned = v.aligned;
                moved = v.moved;
                numbered = numbered;
                within = omega (arith, within);
                here = e';
              }
            ]
          e
  ]

  -- The loop ends with no task left to serve.
  tick_from-IsServing :
      (n i : ℕ) (w : World (Process M N P E))
      → IsServing n i w
      → Keeps (IsServing 0 (i + n)) (tick_from run n i w)
  unfolding tick_from
  tick_from-IsServing zero i w v = record {
    aligned = v.aligned;
    moved = v.moved;
    counted = inl refl;
  }
  tick_from-IsServing (suc n) i w v =
      let same : suc i + n ≡ i + suc n = omega arith in
      Keeps-bind (λ slot. entry w.task_list i ≡ slot) (IsServing 0 (i + suc n))
        (index w.task_list i) (λ slot. serve_slot run i w slot >>= λ w'. tick_from run n (suc i) w')
        (index-entry w.task_list i)
        (λ slot e.
          Keeps-bind (IsServing n (suc i)) (IsServing 0 (i + suc n)) (serve_slot run i w slot)
            (λ w'. tick_from run n (suc i) w') (serve_slot-IsServing n i w slot v e)
            (λ w' v'.
              subst (λ (m : ℕ). Keeps (IsServing 0 m) (tick_from run n (suc i) w')) same
                (tick_from-IsServing n (suc i) w' v')))

  -- Where a tick of a process keeps its pid and makes at most one new task, a tick of the scheduler
  -- that does not panic keeps this: task `i` has pid `i + 1`, a task has a signal queue and a free
  -- slot has none, and no free slot stands at the end. After it no new task waits to be moved, and
  -- it tells whether the task list has a slot left.
  pub tick_lem :
      (w : World (Process M N P E))
      → Aligned (push_all w.task_list w.shared.new_task_list) w.shared.signal_queues
      → Keeps
          (λ r.
            Aligned r.1.task_list r.1.shared.signal_queues
            × (r.1.shared.new_task_list ≡ [])
            × (r.0 ≡ ltb 0 (length r.1.task_list)))
          (tick run w)
  unfolding tick move_new_tasks_into_list
  tick_lem w a =
      let moved = move_new_tasks_into_list w in
      Keeps-bind (IsServing 0 (0 + length moved.task_list))
        (λ r.
          Aligned r.1.task_list r.1.shared.signal_queues
          × (r.1.shared.new_task_list ≡ [])
          × (r.0 ≡ ltb 0 (length r.1.task_list)))
        (tick_from run (length moved.task_list) 0 moved)
        (λ w'. ran (ltb 0 (length w'.task_list), w'))
        (tick_from-IsServing (length moved.task_list) 0 moved
          record { aligned = a; moved = refl; counted = inr (refl, omega arith) })
        (λ w' v. (v.aligned, v.moved, refl))

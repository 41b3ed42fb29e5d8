-- ===== src/Scheduler/Served.antt =====
-- What a step of a task in `tick` of kernel/src/scheduler.rs leaves for the steps after it.
use ron.Base.{
  ℕ, suc, ◌+◌, ◌≤◌, ◌≡◌, refl, sym, ◌∙◌, Option, none, some, List, [], Bool, true, false, ◌==◌,
  ◌||◌, ltb, if◌then◌else◌, ◌⊎◌, inl, inr, Bool-cases, Option-cases, length, length-set, set, arith,
}
use ron.Base.Options.{entry}
use ron.Base.Run.{ran, ◌>>=◌, Keeps, Keeps-bind, Keeps-any}
use ron.Base.Slots.{unwrap_at, unwrap_at-some, unwrap_at-none, drain}
use ron.Process.{WaitInformation, ProcessState, running, finished_waiting_for_child_process}
use ron.Syscall.{index}
use ron.Tasks.{
  Process, World, unwrap, with_state, waited, wait_for_pipe, end_orphan, check_orphan, deallocate,
  drop_slot,
}
use ron.Base.Drained.{drain-inner}
use ron.Scheduler.Shape.{SameShape-length}
use ron.Scheduler.Invariant.{pid_of, Aligned, Aligned-task, Aligned-free}
use ron.Scheduler.Changed.{Changed}

-- `n` tasks are left to serve, from `i` on.
pub record IsServing {M N P E : Type 0} (n i : ℕ) (w : World (Process M N P E)) : Type 0 where
  pub aligned : Aligned w.task_list w.shared.signal_queues
  pub moved : w.shared.new_task_list ≡ []
  pub counted :
      (n ≡ 0) ⊎ ((w.shared.number_of_tasks ≡ length w.task_list) × (i + n ≤ length w.task_list))

-- The same, while the task at `i` is served.
pub record IsServed {M N P E : Type 0} (n i : ℕ) (p : Process M N P E) (w : World (Process M N P E))
    : Type 0 where
  pub aligned : Aligned w.task_list w.shared.signal_queues
  pub moved : w.shared.new_task_list ≡ []
  pub numbered : w.shared.number_of_tasks ≡ length w.task_list
  pub within : suc i + n ≤ length w.task_list
  pub here : entry w.task_list i ≡ some p

module _ {M N P E : Type 0} (n i : ℕ) (p : Process M N P E) (w : World (Process M N P E))
    (v : IsServed n i p w) where
  pub unchanged-IsServing : IsServing n (suc i) w
  unchanged-IsServing = record {
    aligned = v.aligned;
    moved = v.moved;
    counted = inr (v.numbered, v.within);
  }

  -- The list changes, and it is as long as before.
  pub list-IsServing :
      (list : List (Option (Process M N P E)))
      → Aligned list w.shared.signal_queues
      → length list ≡ length w.task_list
      → IsServing n (suc i) (record w { task_list = list })
  list-IsServing list a same = record {
    aligned = a;
    moved = v.moved;
    counted = inr (v.numbered ∙ sym same, omega (arith, v.within));
  }

  pub task-IsServing :
      (p' : Process M N P E)
      → pid_of p' ≡ pid_of p
      → IsServing n (suc i) (record w { task_list = set w.task_list i (some p') })
  task-IsServing p' same =
      list-IsServing (set w.task_list i (some p'))
        (Aligned-task w.task_list w.shared.signal_queues v.aligned i p p' v.here same)
        (length-set w.task_list i (some p'))

  Changed-Aligned :
      (list : List (Option (Process M N P E)))
      → Changed w.task_list list
      → Aligned list w.shared.signal_queues × (length list ≡ length w.task_list)
  Changed-Aligned list (inl same) = rw same (v.aligned, refl)
  Changed-Aligned list (inr (j, q, state, e, same)) = rw same (
    Aligned-task w.task_list w.shared.signal_queues v.aligned j q (with_state q state) e refl,
    length-set w.task_list j (some (with_state q state)),
  )

  finish_wait :
      (list : List (Option (Process M N P E))) (state : ProcessState)
      → Changed w.task_list list
      → Keeps (IsServing n (suc i)) (
          unwrap_at list i >>= λ q.
          ran (record w { task_list = set list i (some (with_state q state)) }))
  finish_wait list state c =
      let (a, same) = Changed-Aligned list c in
      elim (Option-cases (entry list i)) [
        | inl e ↦ rw (unwrap_at-none list i e) tt
        | inr (q, e) ↦ rw (unwrap_at-some list i e) (
            list-IsServing (set list i (some (with_state q state)))
              (Aligned-task list w.shared.signal_queues a i q (with_state q state) e refl)
              (length-set list i (some (with_state q state)) ∙ same))
      ]

  pub waited-IsServing :
      (r : Option WaitInformation × Bool × List (Option (Process M N P E)))
      → Changed w.task_list r.2
      → Keeps (IsServing n (suc i)) (waited i r w)
  waited-IsServing (some info, invalid, list) c =
      finish_wait list (finished_waiting_for_child_process (some info)) c
  waited-IsServing (none, true, list) c =
      finish_wait list (finished_waiting_for_child_process none) c
  waited-IsServing (none, false, list) c =
      let (a, same) = Changed-Aligned list c in list-IsServing list a same

  pub wait_for_pipe-IsServing : (j : ℕ) → Keeps (IsServing n (suc i)) (wait_for_pipe i p j w)
  unfolding wait_for_pipe
  wait_for_pipe-IsServing j =
      Keeps-bind (λ pipe. Unit {0}) (IsServing n (suc i)) (unwrap_at w.shared.pipes j)
        (λ pipe. ran (
          if ltb 0 (length pipe.buf) || (pipe.writers_count == 0)
          then record w { task_list = set w.task_list i (some (with_state p running)) }
          else w))
        (Keeps-any (unwrap_at w.shared.pipes j))
        (λ pipe h. elim (Bool-cases (ltb 0 (length pipe.buf) || (pipe.writers_count == 0))) [
          | inl t ↦ rw t (task-IsServing (with_state p running) refl)
          | inr t ↦ rw t unchanged-IsServing
        ])

  pub check_orphan-IsServing :
      (state : ProcessState) → Keeps (IsServing n (suc i)) (check_orphan i p state w)
  unfolding check_orphan
  check_orphan-IsServing state =
      Keeps-bind (λ pid. Unit {0}) (IsServing n (suc i)) (unwrap p.state_data.parent_pid)
        (λ parents_pid. ran (end_orphan i p state w (entry w.task_list parents_pid)))
        (Keeps-any (unwrap p.state_data.parent_pid))
        (λ parents_pid h.
          elim (entry w.task_list parents_pid)
            as (λ o. IsServing n (suc i) (end_orphan i p state w o)) [
              | none ↦ task-IsServing (with_state p state) refl
              | some parent ↦ unchanged-IsServing
            ])

  pub deallocate-IsServing : Keeps (IsServing n (suc i)) (deallocate i w)
  unfolding deallocate
  deallocate-IsServing =
      let long : length w.task_list ≡ length w.shared.signal_queues =
        SameShape-length w.task_list w.shared.signal_queues v.aligned.shaped in
      let inside : ltb i (length w.shared.signal_queues) ≡ true = ground (arith, v.within) in
      let a = Aligned-free w.task_list w.shared.signal_queues v.aligned i p v.here in
      Keeps-bind (λ slot. Unit {0}) (IsServing n (suc i)) (index w.task_list i) _
        (Keeps-any (index w.task_list i))
        (λ slot _.
          Keeps-bind (λ pipes. Unit {0}) (IsServing n (suc i)) (drop_slot slot w.shared.pipes) _
            (Keeps-any (drop_slot slot w.shared.pipes))
            (λ pipes _. rw inside (elim (Bool-cases (n == 0)) [
              | inl t ↦ record { aligned = a; moved = v.moved; counted = inl (ground arith) }
              | inr t ↦
                  let same : length (drain (set w.task_list i none)) ≡ length w.task_list =
                    rw (drain-inner w.task_list i v.aligned.drained (ground (arith, v.within)))
                      (length-set w.task_list i none) in
                  record {
                    aligned = a;
                    moved = v.moved;
                    counted = inr (v.numbered ∙ sym same, omega (arith, v.within));
                  }
            ])))

-- ===== src/Scheduler/Invariant.antt =====
-- The task list of kernel/src/scheduler.rs: task `i` has pid `i + 1` and a signal queue, and a free
-- slot has none.
use ron.Base.{
  ℕ, suc, ◌≡◌, refl, sym, ◌∙◌, Option, none, some, List, [], ◌∷◌, ◌++◌, ◌==◌, if◌then◌else◌, inl,
  inr, Bool-cases, length, set, arith,
}
use ron.Base.Options.{entry}
use ron.Base.Slots.{drain, IsDrained, drain-IsDrained, entry-drain, entry-set, entry-lt, entry-push}
use ron.Process.{SignalType}
use ron.Tasks.{Process}
use ron.Scheduler.Shape.{
  SameShape, SameShape-free, SameShape-drain, SameShape-push, SameShape-left, SameShape-right,
}
use ron.Base.Drained.{IsDrained-some, IsDrained-push}

module _ {M N P E : Type 0} where
  abbrev pub pid_of : Process M N P E → Option ℕ
  pid_of p = p.state_data.pid

  pub record Aligned (list : List (Option (Process M N P E)))
      (queues : List (Option (List SignalType))) : Type 0 where
    pub pids : (i : ℕ) (p : Process M N P E) → entry list i ≡ some p → pid_of p ≡ some (suc i)
    pub shaped : SameShape list queues
    pub drained : IsDrained list

  module _ (list : List (Option (Process M N P E))) (queues : List (Option (List SignalType)))
      (v : Aligned list queues) where
    -- A task changes, but for its pid.
    pub Aligned-task :
        (i : ℕ) (p p' : Process M N P E)
        → entry list i ≡ some p
        → pid_of p' ≡ pid_of p
        → Aligned (set list i (some p')) queues
    Aligned-task i p p' e same = record {
      pids = λ j q h. elim (Bool-cases (j == i)) [
        | inl t ↦
            let here : j ≡ i = ground arith in
            let what : entry (set list i (some p')) j ≡ some p' =
              rw (entry-set list i j (some p') (entry-lt list i e)) (rw t refl) in
            let that : q ≡ p' = cc in rw that (rw here (same ∙ v.pids i p e))
        | inr t ↦
            let what : entry (set list i (some p')) j ≡ entry list j =
              rw (entry-set list i j (some p') (entry-lt list i e)) (rw t refl) in
            v.pids j q (sym what ∙ h)
      ];
      shaped = SameShape-left list queues i p' v.shaped e;
      drained = IsDrained-some list i p' (entry-lt list i e) v.drained;
    }

    pub Aligned-queue :
        (i : ℕ) (queue queue' : List SignalType)
        → entry queues i ≡ some queue
        → Aligned list (set queues i (some queue'))
    Aligned-queue i queue queue' e = record {
      pids = v.pids;
      shaped = SameShape-right list queues i queue' v.shaped e;
      drained = v.drained;
    }

    pub Aligned-push :
        (p : Process M N P E) (queue : List SignalType)
        → pid_of p ≡ some (suc (length list))
        → Aligned (list ++ (some p ∷ [])) (queues ++ (some queue ∷ []))
    Aligned-push p queue h = record {
      pids = λ j q e. elim (Bool-cases (j == length list)) [
        | inl t ↦
            let here : j ≡ length list = ground arith in
            let what : entry (list ++ (some p ∷ [])) j ≡ some p =
              rw (entry-push list p j) (rw t refl) in
            let that : q ≡ p = cc in rw that (rw here h)
        | inr t ↦
            let what : entry (list ++ (some p ∷ [])) j ≡ entry list j =
              rw (entry-push list p j) (rw t refl) in
            v.pids j q (sym what ∙ e)
      ];
      shaped = SameShape-push list queues p queue v.shaped;
      drained = IsDrained-push list p v.drained;
    }

    pub Aligned-free :
        (i : ℕ) (p : Process M N P E)
        → entry list i ≡ some p
        → Aligned (drain (set list i none)) (drain (set queues i none))
    Aligned-free i p e = record {
      pids = λ j q h.
          let what : entry (drain (set list i none)) j ≡ (if j == i then none else entry list j) =
            rw (entry-drain (set list i none) j) (entry-set list i j none (entry-lt list i e)) in
          elim (Bool-cases (j == i)) [
            | inl t ↦
                let none_ : entry (drain (set list i none)) j ≡ none = rw what (rw t refl) in
                absurd cc
            | inr t ↦
                let same : entry (drain (set list i none)) j ≡ entry list j = rw what (rw t refl) in
                v.pids j q (sym same ∙ h)
          ];
      shaped =
          SameShape-drain (set list i none) (set queues i none)
            (SameShape-free list queues i v.shaped);
      drained = drain-IsDrained (set list i none);
    }

-- ===== src/Ext2/Alloc/Ends.antt =====
-- How the steps of an operation of kernel/src/ext2.rs are put together, where each of them leaves the
-- super block as it is but for its counts.
use ron.Base.{Bool, true, false, Option, none, some, if◌then◌else◌}
use ron.Base.Run.{Run, panic, ran}
use ron.Ext2.{Ext2Fs}
use ron.Ext2.Monad.{M, follow, ignored, run}
use ron.Ext2.Alloc.Search.{Static, EndsStatic}

pub steady_ran :
    {D A : Type 0} (fs : Ext2Fs D) (o : Option A) (s : Ext2Fs D)
    → Static fs s
    → EndsStatic fs (ran (o, s))
unfolding EndsStatic
steady_ran fs o s h = h

pub steady_panic : {D : Type 0} (A : Type 0) (fs : Ext2Fs D) → EndsStatic {A = A} fs panic
unfolding EndsStatic
steady_panic A fs = tt

pub steady_lift :
    {D A B : Type 0} (fs : Ext2Fs D) (o : Option A) (s : Ext2Fs D) (f : A → M (Ext2Fs D) B)
    → Static fs s
    → ((a : A) → EndsStatic fs (f a s))
    → EndsStatic fs (follow (ran (o, s)) f)
unfolding EndsStatic
steady_lift fs none s f h k = h
steady_lift fs (some a) s f h k = k a

pub steady_then :
    {D A B : Type 0} (fs : Ext2Fs D) (r : Run (Option A × Ext2Fs D)) (f : A → M (Ext2Fs D) B)
    → EndsStatic fs r
    → ((a : A) (s : Ext2Fs D) → Static fs s → EndsStatic fs (f a s))
    → EndsStatic fs (follow r f)
unfolding EndsStatic
steady_then fs panic f h k = tt
steady_then fs (ran (none, s)) f h k = h
steady_then fs (ran (some a, s)) f h k = k a s h

pub steady_if :
    {D A : Type 0} (fs : Ext2Fs D) (b : Bool) (m n : M (Ext2Fs D) A) (s : Ext2Fs D)
    → EndsStatic fs (m s)
    → EndsStatic fs (n s)
    → EndsStatic fs ((if b then m else n) s)
unfolding EndsStatic
steady_if fs true m n s p q = p
steady_if fs false m n s p q = q

pub steady_ignored :
    {D A : Type 0} (fs : Ext2Fs D) (r : Run (Option A × Ext2Fs D))
    → EndsStatic fs r
    → EndsStatic fs (ignored r)
unfolding EndsStatic
steady_ignored fs panic h = tt
steady_ignored fs (ran (o, s)) h = h

pub steady_check :
    {D : Type 0} {A : Type 0} (fs : Ext2Fs D) (b : Bool) (o : Option A) (s : Ext2Fs D)
    → Static fs s
    → EndsStatic fs (if b then ran (o, s) else panic)
unfolding EndsStatic
steady_check fs true o s h = h
steady_check fs false o s h = tt

pub steady_run :
    {D A : Type 0} (fs : Ext2Fs D) (r : Run A) (s : Ext2Fs D)
    → Static fs s
    → EndsStatic fs (run r s)
unfolding EndsStatic
steady_run fs panic s h = tt
steady_run fs (ran a) s h = h

-- A checked operation that panics where the test holds.
pub steady_unless :
    {D : Type 0} {A : Type 0} (fs : Ext2Fs D) (b : Bool) (o : Option A) (s : Ext2Fs D)
    → Static fs s
    → EndsStatic fs (if b then panic else ran (o, s))
unfolding EndsStatic
steady_unless fs true o s h = tt
steady_unless fs false o s h = h

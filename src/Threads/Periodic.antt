-- ===== src/Threads/Periodic.antt =====
-- include/PeriodicThread.hpp. A periodic thread is a thread of that number with a semaphore of its own; `next_` and `period_`
-- are read by the thread itself alone.
pub mod Schedule
use depos.Base.{ℕ, zero, suc, Option, some, [], false, update, ◌>>=◌}
use depos.Collections.{Ptr}
use depos.Utility.Time.{convert, add}
use depos.Threads.{World}
use depos.Threads.Thread.{create}
use depos.Threads.Semaphore.{p, v}
use depos.Threads.Alarm.{Alarms, alarm}

-- `period_` and `next_` of each thread, in microseconds
pub record Periods : Type 0 where
  pub period : ℕ → ℕ
  pub next : ℕ → ℕ

-- `Timer::now() + period_` as microseconds, for a time in nanoseconds
pub deadline : ℕ → ℕ → ℕ
deadline now period = convert 1000000 1000000000 (add 1000000000 1000000 now period)

-- what `dispatch` does between its `p` and the call of the function, and the constructor before its `v`
pub begin_period : ℕ → ℕ → Periods → Periods
begin_period t now x = record x { next = update x.next t (deadline now (x.period t)) }

-- `self->next_ + self->period_`
pub advance_period : ℕ → Periods → Periods
advance_period t x = record x {
  next = update x.next t (add 1000000 1000000 (x.next t) (x.period t));
}

-- `Semaphore(0)`
pub closed : ℕ → World → World
closed s w = record w {
  lists = update w.lists s [];
  locked = update w.locked s false;
  value = update w.value s 0;
}

pub set_period : ℕ → ℕ → Periods → Periods
set_period t us x = record x { period = update x.period t us }

module _ (semaphore_of : ℕ → ℕ) where
  -- the constructor, for a thread of `rank` on the processor `cpu`
  pub start_periodic :
      (cores boot t rank cpu us now : ℕ) → Periods → World → Option (Periods × World)
  start_periodic cores boot t rank cpu us now x w =
      create cores boot t rank cpu (closed (semaphore_of t) w) >>= λ w'.
      v (semaphore_of t) w' >>= λ w''. some (begin_period t now (set_period t us x), w'')

-- `wait`: an alarm at `next_`, on which the thread sleeps, and the deadline behind it
pub wait_period :
    (Ptr → ℕ) → (size me : ℕ) → Ptr → Periods → Alarms → World → Option (Periods × Alarms × World)
wait_period thread_of size me node x a w =
    alarm thread_of size me node (x.next (w.heads me)) a w >>= λ (a', w').
    some (advance_period (w.heads me) x, a', w')

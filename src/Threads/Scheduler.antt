-- ===== src/Threads/Scheduler.antt =====
-- include/scheduler/Scheduler.hpp with the criterion FixedCore of include/scheduler/FixedCore.hpp.
use depos.Base.{
  ℕ, ◌+◌, ◌%◌, ◌==◌, ltb, if◌then◌else◌, ◌&&◌, not, Option, none, some, List, [], ◌∷◌, ◌++◌, update,
  ◌>>◌, assert,
}
use depos.Threads.{World, modulus}

abbrev pub idle_rank : ℕ
idle_rank = 0

abbrev pub normal_rank : ℕ
normal_rank = 1

-- `ANY`
abbrev pub any_cpu : ℕ
any_cpu = 4294967295

-- `FixedCore::build`: the processor and the rank, and the count of idle threads afterwards.
module _ (cores boot : ℕ) where
  unfoldable pub build : ℕ → ℕ → ℕ → Option (ℕ × ℕ × ℕ)
  build rank cpu idles =
      let both = (rank == idle_rank) && (cpu == any_cpu) in
      let cpu' = if both then idles % cores else (if cpu == any_cpu then boot else cpu) in
      let idles' = if both then (idles + 1) % modulus else idles in
      (assert (ltb rank 2) >> assert (ltb cpu' cores)) >> some (cpu', rank, idles')

-- A queue after an insertion and a removal.
unfoldable pub set_queue : ℕ → ℕ → List ℕ → World → World
set_queue c r q w = record w { queues = update w.queues c (update (w.queues c) r q) }

-- `FixedCore::Collection::insert`, at the processor and the rank of the thread's criterion.
unfoldable pub insert : ℕ → World → World
insert t w = set_queue (w.cpu t) (w.rank t) (w.queues (w.cpu t) (w.rank t) ++ (t ∷ [])) w

unfoldable pub take_from : List ℕ → ℕ → ℕ → World → Option ℕ × World
take_from [] c r w = (none, w)
take_from (t ∷ q) c r w = (some t, set_queue c r q w)

unfoldable pub or_else : Option ℕ × World → (World → Option ℕ × World) → Option ℕ × World
or_else (some t, w) f = (some t, w)
or_else (none, w) f = f w

-- `FixedCore::Collection::remove` on processor `me`
unfoldable pub remove_from : ℕ → ℕ → World → Option ℕ × World
remove_from me threshold w = or_else (take_from (w.queues me normal_rank) me normal_rank w) (λ w'.
    if threshold == idle_rank
    then take_from (w'.queues me idle_rank) me idle_rank w'
    else (none, w'))

unfoldable pub set_head : ℕ → Option ℕ × World → ℕ → Option (Option ℕ × World)
set_head me (some t, w) threshold = some (some t, record w { heads = update w.heads me t })
set_head me (none, w) threshold = assert (not (threshold == idle_rank)) >> some (none, w)

-- `Scheduler::remove`: a thread that is taken is the current one from then on.
unfoldable pub remove : ℕ → ℕ → World → Option (Option ℕ × World)
remove me threshold w = set_head me (remove_from me threshold w) threshold

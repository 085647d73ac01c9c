-- ===== src/Threads/Processors.antt =====
-- src/Thread.cpp on several processors. Between the switch of contexts in `dispatch` and the `epilogue`
-- behind it, the other processors go on: the two halves are steps of their own. A processor that is
-- `away` has left its thread and has not run `epilogue` yet.
pub mod Halves
pub mod Departure
pub mod Flight
pub mod Moves
pub mod Landing
pub mod Safety
use depos.Base.{
  ℕ, ◌<◌, ◌≡◌, Bool, true, false, Option, none, some, List, [], ◌∷◌, ◌++◌, update, ◌>>=◌,
  if◌then◌else◌,
}
use depos.Threads.{World, State, ready, waiting, finishing}
use depos.Threads.Scheduler.{remove, idle_rank, normal_rank}
use depos.Threads.Thread.{set_state, epilogue, depart, wakeup}

unfoldable pub leave_for : ℕ → ℕ → State → Option ℕ → World → Option (Bool × World)
leave_for me t s none w = some (false, w)
leave_for me t s (some next) w = depart me t next none (set_state t s w) >>= λ w'. some (true, w')

unfoldable pub leave_asleep : ℕ → ℕ → ℕ → Option ℕ → World → Option (Bool × World)
leave_asleep me t l none w = none
leave_asleep me t l (some next) w = depart me t next (some l) w >>= λ w'. some (true, w')

-- The first halves of `reschedule`, `exit` and `sleep`, and whether a switch is made. `sleep`
-- acquires the lock of the list before.
unfoldable pub yield_half : ℕ → World → Option (Bool × World)
yield_half me w =
    remove me normal_rank w >>= λ answer. leave_for me (w.heads me) ready answer.0 answer.1

unfoldable pub exit_half : ℕ → World → Option (Bool × World)
exit_half me w =
    remove me idle_rank w >>= λ answer. leave_for me (w.heads me) finishing answer.0 answer.1

unfoldable pub sleep_half : ℕ → ℕ → World → Option (Bool × World)
sleep_half me l w =
    let t = w.heads me in
    let w' = set_state t waiting (record w { lists = update w.lists l (w.lists l ++ (t ∷ [])) }) in
    remove me idle_rank w' >>= λ answer. leave_asleep me t l answer.0 answer.1

-- The second half: `epilogue`, where a switch was made.
unfoldable pub land : ℕ → Bool × World → Option World
land me (b, w) = if b then epilogue me w else some w

unfoldable pub lock : ℕ → World → World
lock l w = record w { locked = update w.locked l true }

pub record System : Type 0 where
  pub world : World
  pub away : ℕ → Bool

abbrev pub system : World → (ℕ → Bool) → System
system w a = record { world = w; away = a }

-- One step of processor `me`. The lists of sleeping threads are used under their locks only.
pub data Step (cores : ℕ) (s : System) : System → Type 0 where
  yields :
      (me : ℕ) {b : Bool} {w : World}
      → me < cores
      → s.away me ≡ false
      → yield_half me s.world ≡ some (b, w)
      → Step cores s (system w (update s.away me b))
  exits :
      (me : ℕ) {b : Bool} {w : World}
      → me < cores
      → s.away me ≡ false
      → exit_half me s.world ≡ some (b, w)
      → Step cores s (system w (update s.away me b))
  sleeps :
      (me l : ℕ) {b : Bool} {w : World}
      → me < cores
      → s.away me ≡ false
      → s.world.locked l ≡ false
      → sleep_half me l (lock l s.world) ≡ some (b, w)
      → Step cores s (system w (update s.away me b))
  lands :
      (me : ℕ) {w : World}
      → me < cores
      → s.away me ≡ true
      → land me (true, s.world) ≡ some w
      → Step cores s (system w (update s.away me false))
  wakes :
      (me l : ℕ) {w : World}
      → me < cores
      → s.away me ≡ false
      → s.world.locked l ≡ false
      → wakeup l s.world ≡ some w
      → Step cores s (system w s.away)

pub data Reach (cores : ℕ) (first : System) : System → Type 0 where
  start : Reach cores first first
  later : {s t : System} → Reach cores first s → Step cores s t → Reach cores first t

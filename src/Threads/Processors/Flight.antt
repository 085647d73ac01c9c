-- ===== src/Threads/Processors/Flight.antt =====
-- Where the threads are while processors switch. A thread is in flight from the switch that its processor
-- leaves it by until the `epilogue` behind that switch.
use depos.Base.{ℕ, ◌<◌, ◌≡◌, ◌==◌, ◌&&◌, not, Bool, true, false, Option, none, some}
use depos.Threads.{State, running, ready, waiting, finishing, finished}
use depos.Threads.Count.{occurrences}
use depos.Threads.Consistent.{is_running, is_ready, is_waiting, one_if}
use depos.Threads.Processors.{System}

abbrev pub same : Option ℕ → ℕ → Bool
same none t = false
same (some u) t = u == t

abbrev pub in_flight : System → ℕ → Bool
in_flight s t = let c = s.world.cpu t in s.away c && same (s.world.previous c) t

abbrev pub is_finished : State → Bool
is_finished running = false
is_finished ready = false
is_finished waiting = false
is_finished finishing = false
is_finished finished = true

-- `place t` is the list that a waiting thread `t` sleeps on.
pub record IsSafe (cores : ℕ) (place : ℕ → ℕ) (s : System) : Type 0 where
  pub current :
      (c t : ℕ)
      → c < cores
      → (s.world.heads c == t) ≡ (is_running (s.world.state t) && (s.world.cpu t == c))
  pub queued :
      (c r t : ℕ)
      → occurrences t (s.world.queues c r)
        ≡ one_if (
            is_ready (s.world.state t)
            && (not (in_flight s t) && ((s.world.cpu t == c) && (s.world.rank t == r))))
  pub sleeping :
      (l t : ℕ)
      → occurrences t (s.world.lists l) ≡ one_if (is_waiting (s.world.state t) && (place t == l))
  -- a processor that is away has left one of its threads, which is not running
  pub behind :
      (c : ℕ)
      → s.away c ≡ true
      → (c < cores)
        × (t : ℕ) × (s.world.previous c ≡ some t)
        × (s.world.cpu t ≡ c)
        × (is_running (s.world.state t) ≡ false)
        × (is_finished (s.world.state t) ≡ false)
        × (is_waiting (s.world.state t) ≡ true → s.world.spin c ≡ some (place t))
  -- the lock of a list is held for a thread in flight to it, and for one at a time
  pub held :
      (t : ℕ)
      → in_flight s t ≡ true
      → is_waiting (s.world.state t) ≡ true
      → s.world.locked (place t) ≡ true
  pub alone :
      (t u : ℕ)
      → in_flight s t ≡ true
      → in_flight s u ≡ true
      → is_waiting (s.world.state t) ≡ true
      → is_waiting (s.world.state u) ≡ true
      → place t ≡ place u
      → t ≡ u

-- ===== src/Threads/Thread.antt =====
-- src/Thread.cpp: the operations of a thread on processor `me`. They run with interrupts disabled.
-- A switch of contexts is followed by `epilogue` in the context of the other thread, either behind
-- the switch that it left by or in `entry`.
use depos.Base.{
  ℕ, ◌+◌, ◌-◌, ◌%◌, ◌==◌, not, false, Option, none, some, List, [], ◌∷◌, ◌++◌, update, ◌>>=◌, ◌>>◌,
  assert,
}
use depos.Threads.{World, State, running, ready, waiting, finishing, finished, modulus}
use depos.Threads.Scheduler.{insert, remove, idle_rank, normal_rank, build}

unfoldable pub set_state : ℕ → State → World → World
set_state t s w = record w { state = update w.state t s }

unfoldable pub release_lock : Option ℕ → World → Option World
release_lock none w = none
release_lock (some lock) w = some (record w { locked = update w.locked lock false })

unfoldable pub epilogue_of : State → ℕ → Option ℕ → World → Option World
epilogue_of running t lock w = some w
epilogue_of ready t lock w = some (insert t w)
epilogue_of waiting t lock w = release_lock lock w
epilogue_of finishing t lock w =
    some (set_state t finished (record w { count = (w.count + (modulus - 1)) % modulus }))
epilogue_of finished t lock w = some w

unfoldable pub epilogue : ℕ → World → Option World
epilogue me w = w.previous me >>= λ t. epilogue_of (w.state t) t (w.spin me) w

-- `dispatch` up to the switch of contexts
unfoldable pub depart : ℕ → ℕ → ℕ → Option ℕ → World → Option World
depart me t next lock w =
    assert (not (next == t))
    >> some (
        set_state next running
          (record w { previous = update w.previous me (some t); spin = update w.spin me lock }))

-- `dispatch`, with the `epilogue` that the other thread runs
unfoldable pub dispatch : ℕ → ℕ → ℕ → Option ℕ → World → Option World
dispatch me t next lock w = depart me t next lock w >>= λ w'. epilogue me w'

-- where there is another thread, `previous->state_` becomes `s` and it is dispatched
unfoldable pub dispatch_next : ℕ → ℕ → State → Option ℕ → World → Option World
dispatch_next me t s none w = some w
dispatch_next me t s (some next) w = dispatch me t next none (set_state t s w)

unfoldable pub reschedule : ℕ → World → Option World
reschedule me w =
    remove me normal_rank w >>= λ answer. dispatch_next me (w.heads me) ready answer.0 answer.1

-- `exit`: a thread that ends does not come back.
unfoldable pub exit : ℕ → World → Option World
exit me w =
    remove me idle_rank w >>= λ answer. dispatch_next me (w.heads me) finishing answer.0 answer.1

unfoldable pub dispatch_sleeping : ℕ → ℕ → ℕ → Option ℕ → World → Option World
dispatch_sleeping me t lock none w = none
dispatch_sleeping me t lock (some next) w = dispatch me t next (some lock) w

-- `sleep` on the list `l` with the lock of the same number
unfoldable pub sleep : ℕ → ℕ → World → Option World
sleep me l w =
    let t = w.heads me in
    let w' = set_state t waiting (record w { lists = update w.lists l (w.lists l ++ (t ∷ [])) }) in
    remove me idle_rank w' >>= λ answer. dispatch_sleeping me t l answer.0 answer.1

-- `sleep` on a list whose lock has another number
unfoldable pub sleep_on : ℕ → ℕ → ℕ → World → Option World
sleep_on me l lock w =
    let t = w.heads me in
    let w' = set_state t waiting (record w { lists = update w.lists l (w.lists l ++ (t ∷ [])) }) in
    remove me idle_rank w' >>= λ answer. dispatch_sleeping me t lock answer.0 answer.1

unfoldable pub wakeup_of : List ℕ → ℕ → World → Option World
wakeup_of [] l w = none
wakeup_of (t ∷ q) l w =
    some (insert t (set_state t ready (record w { lists = update w.lists l q })))

unfoldable pub wakeup : ℕ → World → Option World
wakeup l w = wakeup_of (w.lists l) l w

-- The constructor, at a fresh thread `t`: the criterion is built, and the thread is ready.
module _ (cores boot : ℕ) where
  unfoldable pub create : ℕ → ℕ → ℕ → World → Option World
  create t rank cpu w = build cores boot rank cpu w.idles >>= λ (cpu', rank', idles'). some (
      insert t (
        set_state t ready (record w {
          cpu = update w.cpu t cpu';
          rank = update w.rank t rank';
          idles = idles';
          count = (w.count + 1) % modulus;
        })))

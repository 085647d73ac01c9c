-- ===== src/Threads/Semaphore.antt =====
-- include/Semaphore.hpp and include/Mutex.hpp. The semaphore `s` is the list, the lock and the counter
-- of that number. A spin lock is acquired when it is free: `none` is a processor that still spins.
pub mod Balanced
use depos.Base.{
  ℕ, ◌+◌, ◌-◌, ◌%◌, ◌==◌, ltb, leb, if◌then◌else◌, ◌||◌, not, Bool, true, false, Option, none, some,
  List, [], ◌∷◌, ◌++◌, update, ◌>>=◌, ◌>>◌, assert,
}
use depos.Threads.{World, modulus}
use depos.Threads.Thread.{sleep, wakeup}

-- the sign of an `int`
abbrev pub is_negative : ℕ → Bool
is_negative v = leb 2147483648 v

unfoldable pub acquire_lock : ℕ → World → Option World
acquire_lock s w = assert (not (w.locked s)) >> some (record w { locked = update w.locked s true })

unfoldable pub release_lock : ℕ → World → World
release_lock s w = record w { locked = update w.locked s false }

pub add_value : ℕ → ℕ → World → World
add_value s k w = record w { value = update w.value s ((w.value s + k) % modulus) }

-- `p` by the current thread of processor `me`
pub p : ℕ → ℕ → World → Option World
p me s w = acquire_lock s w >>= λ w'.
    if (w.value s == 0) || is_negative (w.value s)
    then sleep me s (add_value s (modulus - 1) w')
    else some (release_lock s (add_value s (modulus - 1) w'))

pub v : ℕ → World → Option World
v s w = acquire_lock s w >>= λ w'.
    (if is_negative (w.value s) then wakeup s (add_value s 1 w') else some (add_value s 1 w'))
    >>= λ w''. some (release_lock s w'')

-- A mutex is a semaphore that starts at one.
pub acquire : ℕ → ℕ → World → Option World
acquire me s w = p me s w

unfoldable pub release : ℕ → World → Option World
release s w = v s w

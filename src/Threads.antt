-- ===== src/Threads.antt =====
-- src/Thread.cpp with include/Thread.hpp, include/scheduler/ and the primitives on top of it,
-- include/Semaphore.hpp and include/Mutex.hpp. A thread, a list of waiting threads with its spin lock
-- and a processor are numbers. The queues are lists of threads, the oldest first, which is what
-- `Collections.Fifo` is shown to be. `none` as an answer is a failed assertion.
pub mod Scheduler
pub mod Thread
pub mod Semaphore
pub mod Count
pub mod Consistent
pub mod Alarm
pub mod Processors
pub mod Variable
pub mod Periodic
use depos.Base.{ℕ, Bool, Option, List}

pub data State : Type 0 where
  running : State
  ready : State
  waiting : State
  finishing : State
  finished : State

-- All threads, the scheduler and the lists that threads sleep on.
pub record World : Type 0 where
  -- of each thread: `state_`, and the processor and the rank of its criterion
  pub state : ℕ → State
  pub cpu : ℕ → ℕ
  pub rank : ℕ → ℕ
  -- of each processor: `_heads`, `queues_`, `s_previous` and `s_spin`
  pub heads : ℕ → ℕ
  pub queues : ℕ → ℕ → List ℕ
  pub previous : ℕ → Option ℕ
  pub spin : ℕ → Option ℕ
  -- `s_count` and `idles_`
  pub count : ℕ
  pub idles : ℕ
  -- of each list of sleeping threads: its threads, its lock, and the counter of the semaphore
  pub lists : ℕ → List ℕ
  pub locked : ℕ → Bool
  pub value : ℕ → ℕ

-- `unsigned int` and `int`
abbrev pub modulus : ℕ
modulus = 4294967296

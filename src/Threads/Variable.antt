-- ===== src/Threads/Variable.antt =====
-- include/ConditionalVariable.hpp. A node of the list of waiters is the number of the list on which its thread sleeps, and
-- the null pointer is 0. The memory of the messages is a function of the address. Several processors: one call of
-- `acquire_lock` is a lock that is free.
pub mod Wait
pub mod Send
use depos.Base.{
  ℕ, ◌+◌, ◌-◌, ◌%◌, ◌^◌, ◌==◌, ltb, if◌then◌else◌, ◌||◌, ◌&&◌, not, Bool, true, false, Option, none,
  some, List, [], ◌∷◌, ◌++◌, update, ◌>>=◌, ◌>>◌,
}
use depos.Threads.{World}
use depos.Threads.Thread.{sleep_on, wakeup}
use depos.Threads.Semaphore.{acquire_lock, release_lock, release}
use depos.Utility.String.{memcpy}

-- `Message`, without its list
pub record Message : Type 0 where
  pub buffer : ℕ
  pub size : ℕ

-- `waiters_`, `waiting_`, and the messages of the nodes
pub record Variable : Type 0 where
  pub waiters : List ℕ
  pub waiting : ℕ
  pub messages : ℕ → Message

-- the variable after a thread has put its node on the list
pub enlist : ℕ → ℕ → ℕ → Variable → Variable
enlist node buffer size c = record {
  waiters = c.waiters ++ (node ∷ []);
  waiting = (c.waiting + 1) % 2 ^ 64;
  messages = update c.messages node (record { buffer = buffer; size = size });
}

-- `wait`, up to the switch to another thread
pub wait : ℕ → ℕ → ℕ → ℕ → ℕ → ℕ → Variable → World → Option (Variable × World)
wait me lock external node buffer size c w = acquire_lock lock w >>= λ w1.
    release external w1 >>= λ w2.
    sleep_on me node lock w2 >>= λ w3. some (enlist node buffer size c, w3)

-- what `send` takes off the list
pub take : Variable → ℕ × Variable
take c = if c.waiting == 0 then (0, c) else (elim c.waiters [
  | [] ↦ (0, record c { waiting = c.waiting - 1 })
  | node ∷ rest ↦ (node, record c { waiters = rest; waiting = c.waiting - 1 })
])

-- the size of a message that is delivered
pub delivered_size : ℕ → ℕ → Message → ℕ
delivered_size value size m =
    if not (value == 0) && not (m.buffer == 0)
    then (if ltb m.size size then m.size else size)
    else 0

-- the message of the node, and its bytes
pub deliver : ℕ → ℕ → ℕ → Variable → (ℕ → ℕ) → Variable × (ℕ → ℕ)
deliver value size node c memory =
    let m = c.messages node in
    let n = delivered_size value size m in
    (
      record c { messages = update c.messages node (record { buffer = m.buffer; size = n }) },
      memcpy m.buffer value n memory,
    )

pub send : ℕ → ℕ → ℕ → Variable → World → (ℕ → ℕ) → Option (Bool × Variable × World × (ℕ → ℕ))
send lock value size c w memory = acquire_lock lock w >>= λ w1.
    let (node, c') = take c in
    let w2 = release_lock lock w1 in
    if node == 0
    then some (false, c', w2, memory)
    else (let (c'', memory') = deliver value size node c' memory in
        wakeup node w2 >>= λ w3. some (true, c'', w3, memory'))

-- ===== src/Threads/Alarm.antt =====
-- src/Alarm.cpp: each processor keeps its alarms in an ordered list, and each alarm has a list of its own on
-- which its thread sleeps. An alarm is the address of its node.
pub mod Expiry
use depos.Base.{
  ℕ, zero, suc, ◌+◌, ◌^◌, ◌==◌, ltb, if◌then◌else◌, Bool, Option, none, some, update, ◌>>=◌,
}
use depos.Collections.{Ptr, null}
use depos.Collections.OrderedList.{OrderedList, Nodes, nodes}
use depos.Collections.OrderedList
use depos.Utility.Time.{sub}
use depos.Threads.{World}
use depos.Threads.Thread.{sleep, wakeup}

pub record Alarms : Type 0 where
  -- `alarms_` of each processor, the links of the nodes and their criteria, in microseconds
  pub lists : ℕ → OrderedList
  pub links : Nodes
  pub criterion : Ptr → ℕ

-- `static_cast<intmax_t>(Timer::now() - us) >= 0`, for a time in nanoseconds
unfoldable pub elapsed : ℕ → ℕ → Bool
elapsed now us = ltb (sub 1000000000 1000000 now us) (2 ^ 63)

unfoldable pub with_list : ℕ → OrderedList × Nodes → Alarms → Alarms
with_list me (l, n) a = record a { lists = update a.lists me l; links = n }

-- `thread_of a` is the list `thread_` of the alarm `a`, and `size` bounds the loops of the lists.
module _ (thread_of : Ptr → ℕ) (size : ℕ) where
  -- the alarms after `alarms.insert(&node_)`, for a node that is constructed
  unfoldable pub arm : ℕ → Ptr → ℕ → Alarms → Option Alarms
  arm me node us a =
      let criterion' = update a.criterion node us in
      let n = nodes (update a.links.next node null) a.links.previous in
      OrderedList.insert criterion' size node (a.lists me) n >>= λ answer.
      some (with_list me answer (record a { criterion = criterion' }))

  -- the constructor: the thread sleeps
  pub alarm : ℕ → Ptr → ℕ → Alarms → World → Option (Alarms × World)
  alarm me node us a w =
      arm me node us a >>= λ a'. sleep me (thread_of node) w >>= λ w'. some (a', w')

  -- `handler`: `now i` is what the timer says the `i`-th time, and the first number is fuel for
  -- the loop
  module _ (now : ℕ → ℕ) where
    unfoldable pub handler : ℕ → ℕ → ℕ → Alarms → World → Option (Alarms × World)
    handler zero i me a w = none
    handler (suc k) i me a w =
        let (head, l, n) = OrderedList.remove (a.lists me) a.links in
        let a' = with_list me (l, n) a in
        if head == null
        then some (a', w)
        else (if elapsed (now i) (a.criterion head)
            then (wakeup (thread_of head) w >>= λ w'. handler k (i + 1) me a' w')
            else (OrderedList.insert a.criterion size head (a'.lists me) a'.links >>= λ answer'.
                some (with_list me answer' a', w)))

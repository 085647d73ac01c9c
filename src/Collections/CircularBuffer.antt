-- ===== src/Collections/CircularBuffer.antt =====
-- include/utility/collections/CircularBuffer.hpp. One call is one critical section of its lock.
pub mod Laws
use depos.Base.{
  ℕ, ◌+◌, ◌-◌, ◌%◌, Bool, true, false, Option, none, some, ◌==◌, if◌then◌else◌, update,
}

-- `buffer_` is read and written at indices below the capacity.
pub record CircularBuffer {ℓ} (A : Type ℓ) : Type ℓ where
  pub buffer : ℕ → A
  pub head : ℕ
  pub tail : ℕ
  pub size : ℕ

module _ {ℓ} {A : Type ℓ} (capacity : ℕ) where
  -- A full buffer loses its oldest element, and the answer is false.
  pub insert : A → CircularBuffer A → Bool × CircularBuffer A
  insert source b =
      let written = record b {
        buffer = update b.buffer b.tail source;
        tail = (b.tail + 1) % capacity;
      } in
      if b.size == capacity
      then (false, record written { head = (b.head + 1) % capacity })
      else (true, record written { size = b.size + 1 })

  -- `none` is the answer false.
  pub remove : CircularBuffer A → Option A × CircularBuffer A
  remove b =
      if b.size == 0
      then (none, b)
      else (some (b.buffer b.head), record b { head = (b.head + 1) % capacity; size = b.size - 1 })

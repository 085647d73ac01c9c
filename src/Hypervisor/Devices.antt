-- ===== src/Hypervisor/Devices.antt =====
-- include/hypervisor/virtio/Console.hpp and Network.hpp: the devices of a guest behind the queues of
-- `Hypervisor.Queue`. The descriptors of a queue and the bytes of the guest are functions of an index and
-- of an address.
pub mod Console
pub mod Network
pub mod Serve
use depos.Base.{
  ℕ, zero, suc, ◌+◌, ◌-◌, ◌%◌, ◌^◌, ◌==◌, if◌then◌else◌, Bool, true, false, not, Option, none, some,
  List, [], ◌∷◌, ◌++◌, ltb, update, bit_and, bit_or, ◌>>=◌,
}
use depos.Hypervisor.Queue.{Queue, Rings, available, alloc, free}

-- `RingDescriptor`
pub record Descriptor : Type 0 where
  pub address : ℕ
  pub length : ℕ
  pub flags : ℕ
  pub next : ℕ

abbrev pub Descriptors : Type 0
Descriptors = ℕ → Descriptor

abbrev pub Memory : Type 0
Memory = ℕ → ℕ

-- `flags & 0x1`: the chain goes on
abbrev pub has_next : Descriptor → Bool
has_next d = not (bit_and d.flags 1 == 0)

-- `length` bytes from an address on
abbrev pub bytes : Memory → ℕ → ℕ → List ℕ
bytes m a zero = []
bytes m a (suc n) = m a ∷ bytes m (a + 1) n

-- The memory after `memcpy` of bytes to an address.
abbrev pub store : List ℕ → ℕ → Memory → Memory
store [] a m = m
store (x ∷ xs) a m = store xs (a + 1) (update m a x)

-- What the guest sees of a device: its descriptors and bytes, the word of pending interrupts, and how often
-- the device told the machine.
pub record Guest : Type 0 where
  pub descriptors : Descriptors
  pub memory : Memory
  pub status : ℕ
  pub raised : ℕ

-- `this->interrupt() |= 1; owner_.interrupt(IRQ)`
unfoldable pub raise : Guest → Guest
raise g = record g { status = bit_or g.status 1; raised = g.raised + 1 }

-- `while (queue.available())`: a chain is taken, processed, and put in the used ring
module _ {ℓ} {S : Type ℓ} (process : ℕ → Queue → S → Option (ℕ × S)) where
  unfoldable pub serve : ℕ → Queue → Rings → S → Option (Queue × Rings × S)
  serve zero q r s = none
  serve (suc k) q r s =
      if available q r
      then (let (head, q') = alloc q r in
          process head q' s >>= λ (total, s').
          free head (total % 2 ^ 32) q' r >>= λ r'. serve k q' r' s')
      else some (q, r, s)

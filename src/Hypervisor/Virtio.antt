-- ===== src/Hypervisor/Virtio.antt =====
-- include/hypervisor/virtio/Handler.hpp with the register file of LegacyHeader.hpp. The header is the
-- word at each index. What a device does when a queue is notified is a parameter.
pub mod Registers
use depos.Base.{
  ℕ, ◌+◌, ◌-◌, ◌*◌, ◌/◌, ◌%◌, ◌==◌, ltb, if◌then◌else◌, Bool, true, false, not, ◌||◌, ◌&&◌, Option,
  none, some, update, bit_and,
}
use depos.Memory.Chunk.{Chunk, chunk, contains_chunk}
use depos.Hypervisor.Queue.{Queue, queue, size_of}

pub record Device : Type 0 where
  pub header : ℕ → ℕ
  pub queues : ℕ → Queue

-- The answer false, a failed assertion, or the device afterwards.
pub data Outcome : Type 0 where
  refused : Outcome
  panicked : Outcome
  written : Device → Outcome

-- The constructor: the words of a new device, where `before` is what the storage held.
pub header_of : ℕ → ℕ → ℕ → (ℕ → ℕ) → ℕ → ℕ
header_of id features descriptors before i =
    if i == 0
    then 1953655158
    else (if i == 1
        then 1
        else (if i == 2
            then id
            else (if i == 3
                then 1431127377
                else (if i == 4 then features else (if i == 13 then descriptors else before i)))))

-- the registers that are words of the header
abbrev pub is_readable : ℕ → Bool
is_readable o =
    (o == 0)
    || ((o == 4)
        || ((o == 8) || ((o == 12) || ((o == 112) || ((o == 16) || ((o == 52) || (o == 96)))))))

abbrev pub is_writable : ℕ → Bool
is_writable o =
    (o == 40)
    || ((o == 112)
        || ((o == 48) || ((o == 20) || ((o == 36) || ((o == 32) || ((o == 56) || (o == 60)))))))

-- `pfn()`
pub get_pfn : Device → ℕ
get_pfn d =
    if d.header 10 == 0 then 0 else (d.queues (d.header 12)).address / d.header 10 % 4294967296

module _ (memory : Chunk) where
  -- `pfn(source)`
  unfoldable pub set_pfn : ℕ → Device → Outcome
  set_pfn source d =
      let i = d.header 12 in
      let address = source * d.header 10 % 4294967296 in
      if ltb i 2 && contains_chunk memory (chunk address (size_of (d.header 14) (d.header 15)))
      then written record {
        header = update d.header 16 source;
        queues = update d.queues i (queue address (d.header 14) (d.header 15));
      }
      else panicked

  module _ (notify : ℕ → Device → Device) where
    -- `read` and `write` at an offset from the address of the device
    pub read : ℕ → Device → Option ℕ
    read offset d =
        if is_readable offset
        then some (d.header (offset / 4))
        else (if offset == 64 then some (get_pfn d) else none)

    unfoldable pub write : ℕ → ℕ → Device → Outcome
    write offset value d =
        if is_writable offset
        then written (record d { header = update d.header (offset / 4) value })
        else (if offset == 64
            then set_pfn value d
            else (if offset == 100
                then written (record d {
                  header = update d.header 24 (bit_and (d.header 24) (4294967295 - value));
                })
                else (if offset == 80 then written (notify value d) else refused)))

-- ===== src/Hypervisor/Queue.antt =====
-- include/hypervisor/virtio/Queue.hpp: the queue that a driver and a device share. The rings are in the
-- memory of the guest: the slots and the index of the available ring, which the driver writes, and
-- those of the used ring, which the device writes.
pub mod Layout
pub mod Transfer
use depos.Base.{
  ◌&&◌, ◌^◌, ℕ, ◌+◌, ◌-◌, ◌*◌, ◌%◌, ◌==◌, ltb, if◌then◌else◌, Bool, true, false, not, Option, none,
  some, update, bit_and, assert, ◌>>◌,
}

pub record Queue : Type 0 where
  pub address : ℕ
  pub size : ℕ
  pub last_available_index : ℕ
  pub descriptors_at : ℕ
  pub available_at : ℕ
  pub used_at : ℕ

pub record Rings : Type 0 where
  pub available_index : ℕ
  pub available_ring : ℕ → ℕ
  pub used_index : ℕ
  pub used_ring : ℕ → ℕ × ℕ

-- `(address + align - 1) & ~(align - 1)`: the mask has the 32 bits of `align`.
unfoldable pub align_up : ℕ → ℕ → ℕ
align_up address align =
    bit_and ((address + align + (2 ^ 64 - 1)) % 2 ^ 64) (if align == 0 then 0 else 2 ^ 32 - align)

-- The constructor of `Queue`. The sum of the sizes is below the bound of the address.
unfoldable pub queue : ℕ → ℕ → ℕ → Queue
queue address size align = record {
  address = address;
  size = size;
  last_available_index = 0;
  descriptors_at = address;
  available_at = address + 16 * size;
  used_at = align_up (address + 16 * size + 2 + 2 + 2 * size + 2) align;
}

-- `Queue::size`
unfoldable pub size_of : ℕ → ℕ → ℕ
size_of size align =
    align_up (size * 16 + (2 + 2 + 2 * size % 2 ^ 32 + 2) % 2 ^ 32) align + 2 + 2 + 8 * size

unfoldable pub available : Queue → Rings → Bool
available q r = not (q.available_at == 0) && not (q.last_available_index == r.available_index)

-- `alloc`: the slot behind the last one that was taken
unfoldable pub alloc : Queue → Rings → ℕ × Queue
alloc q r = (
  r.available_ring (q.last_available_index % q.size),
  record q { last_available_index = (q.last_available_index + 1) % 65536 },
)

-- `get`: the address of the descriptor
unfoldable pub get : ℕ → Queue → Option ℕ
get id q = assert (ltb id q.size) >> some (q.descriptors_at + 16 * id)

-- `free`: the descriptor is in the next slot of the used ring.
unfoldable pub free : ℕ → ℕ → Queue → Rings → Option Rings
free id len q r =
    assert (ltb id q.size)
    >> some (record r {
      used_ring = update r.used_ring (r.used_index % q.size) (id, len);
      used_index = (r.used_index + 1) % 65536;
    })

-- ===== src/Hypervisor/Switch.antt =====
-- include/hypervisor/VirtualSwitch.hpp: a switch observes a device, and is observed by the virtual network cards. Its lock
-- makes a notification one critical section. The `send` of the device is a parameter.
use depos.Base.{ℕ, Option, some, ◌>>=◌}
use depos.Collections.{Ptr, Links}
use depos.Collections.UnorderedList.{UnorderedList}
use depos.Utility.Observer.{notify_all}

module _ {ℓ} {S B : Type ℓ} (observer : B → Ptr → S → S) (device_send : B → S → S) where
  -- `update`, when the device has received a packet
  pub switch_update : ℕ → Links → UnorderedList → B → S → Option S
  switch_update fuel next l buffer s = notify_all (observer buffer) fuel next l.head s

  -- `send`, from a card: the others and the device are given the packet, whose length is the answer
  pub switch_send : (B → ℕ) → ℕ → Links → UnorderedList → B → S → Option (ℕ × S)
  switch_send length_of fuel next l buffer s =
      notify_all (observer buffer) fuel next l.head s >>= λ s'.
      some (length_of buffer, device_send buffer s')

-- ===== src/Hypervisor/Machine.antt =====
-- include/hypervisor/GenericVirtualMachine.hpp: an access goes to the devices in their order, the first that
-- takes it answers, and an interrupt goes to the first interrupt controller. A device is what it does at an
-- access; `none` is its answer false.
pub mod Dispatch
use depos.Base.{ℕ, ◌==◌, if◌then◌else◌, Bool, true, false, Option, none, some, List, [], ◌∷◌}

pub record Device {ℓ} (S : Type ℓ) : Type ℓ where
  pub on_read : ℕ → S → Option (ℕ × S)
  pub on_write : ℕ → ℕ → S → Option S
  pub on_interrupt : ℕ → S → S
  pub is_controller : Bool

module _ {ℓ} {S : Type ℓ} where
  unfoldable pub or_read : Option (ℕ × S) → Option (ℕ × S) → Option (ℕ × S)
  or_read none rest = rest
  or_read (some r) rest = some r

  unfoldable pub or_write : Option S → Option S → Option S
  or_write none rest = rest
  or_write (some s) rest = some s

  unfoldable pub read : List (Device S) → ℕ → S → Option (ℕ × S)
  read [] target s = none
  read (d ∷ ds) target s = or_read (d.on_read target s) (read ds target s)

  unfoldable pub write : List (Device S) → ℕ → ℕ → S → Option S
  write [] target source s = none
  write (d ∷ ds) target source s = or_write (d.on_write target source s) (write ds target source s)

  pub interrupt : List (Device S) → ℕ → S → S
  interrupt [] id s = s
  interrupt (d ∷ ds) id s =
      let rest = interrupt ds id s in if d.is_controller then d.on_interrupt id s else rest

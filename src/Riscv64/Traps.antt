-- ===== src/Riscv64/Traps.antt =====
-- architecture/riscv64/TrapHandler.hpp: the table of handlers. `none` is a failed assertion.
pub mod Table
use depos.Base.{
  ℕ, ◌+◌, ◌*◌, ◌/◌, ◌%◌, ◌^◌, ◌==◌, ltb, if◌then◌else◌, Bool, true, false, Option, none, some,
  update,
}

-- `Type`
pub data Kind : Type 0 where
  exception : Kind
  interrupt : Kind

pub kind_value : Kind → ℕ
kind_value exception = 0
kind_value interrupt = 1

-- `irq2index`
pub irq_to_index : ℕ → Kind → ℕ
irq_to_index id kind = (id + kind_value kind * 16) % 2 ^ 64

-- the cause of a trap, as the processor writes it
abbrev pub cause_of : ℕ → Kind → ℕ
cause_of id exception = id
cause_of id interrupt = 2 ^ 63 + id

module _ {ℓ} {H : Type ℓ} where
  -- `install`. `ERROR` stops where the index is too large.
  pub install : ℕ → H → Kind → (ℕ → Option H) → Option (ℕ → Option H)
  install id handler kind handlers =
      if ltb (irq_to_index id kind) 32
      then some (update handlers (irq_to_index id kind) (some handler))
      else none

  -- the handler that `dispatch` calls
  pub dispatch : ℕ → (ℕ → Option H) → Option H
  dispatch cause handlers =
      let kind = if cause / 2 ^ 63 == 1 then interrupt else exception in
      let index = irq_to_index (cause % 2 ^ 63) kind in
      if ltb index 32 then handlers index else none

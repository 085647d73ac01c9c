-- ===== src/Drivers/Clock.antt =====
-- include/drivers/clock/JH7110_Clock_Controller.hpp: the controller of clocks and resets.
pub mod Pll0
pub mod Divider
use depos.Base.{
  ℕ, zero, suc, ◌+◌, ◌-◌, ◌*◌, ◌/◌, ◌%◌, ◌^◌, ◌==◌, ◌&&◌, if◌then◌else◌, Bool, true, false, not,
  Option, none, some, bit_and, bit_or, update,
}
use depos.Drivers.Registers.{and_word, or_word, set_field}

-- the bases of the two blocks of registers
module _ (sys_crg aon_crg : ℕ) where
  -- the register of a clock, whose number has the flag `AONCRG` on top; a register's offset is an `unsigned int`
  pub clock_at : ℕ → ℕ
  clock_at id = (if id / 2 ^ 63 % 2 == 1 then aon_crg else sys_crg) + id % 2 ^ 63 % 2 ^ 32

  pub enable : ℕ → (ℕ → ℕ) → ℕ → ℕ
  enable id = or_word (clock_at id) (2 ^ 31)

  pub divisor : ℕ → (ℕ → ℕ) → ℕ
  divisor id regs = bit_and (regs (clock_at id)) (2 ^ 32 - 2 ^ 24)

  pub divide : ℕ → ℕ → (ℕ → ℕ) → ℕ → ℕ
  divide id value regs = or_word (clock_at id) value (and_word (clock_at id) (2 ^ 32 - 2 ^ 24) regs)

  pub invert : ℕ → Bool → (ℕ → ℕ) → ℕ → ℕ
  invert id value = set_field (clock_at id) 30 1 (if value then 1 else 0)

  pub multiplex : ℕ → ℕ → (ℕ → ℕ) → ℕ → ℕ
  multiplex id value = set_field (clock_at id) 24 6 (value % 64)

  pub reset_bit : ℕ → ℕ
  reset_bit id = id % 2 ^ 16

  pub assert_at : ℕ → ℕ
  assert_at id =
      let index = id / 2 ^ 16 % 2 ^ 16 in
      if id / 2 ^ 63 % 2 == 1 then aon_crg + (56 + 4 * index) else sys_crg + (760 + 4 * index)

  pub status_at : ℕ → ℕ
  status_at id =
      let index = id / 2 ^ 16 % 2 ^ 16 in
      if id / 2 ^ 63 % 2 == 1 then aon_crg + (60 + 4 * index) else sys_crg + (776 + 4 * index)

  -- A loop of `reset`: what the device does to its registers between two reads is a parameter, and `none` is fuel that
  -- ran out.
  module _ (device : (ℕ → ℕ) → ℕ → ℕ) where
    pub wait_status : ℕ → Bool → ℕ → (ℕ → ℕ) → Option (ℕ → ℕ)
    wait_status zero wanted id regs = none
    wait_status (suc fuel) wanted id regs =
        let set = regs (status_at id) / 2 ^ reset_bit id % 2 == 1 in
        let rest = wait_status fuel wanted id (device regs) in
        if (if wanted then set else not set) then some regs else rest

    pub reset : ℕ → ℕ → (ℕ → ℕ) → Option (ℕ → ℕ)
    reset fuel id regs =
        let bit = 2 ^ reset_bit id in
        elim (wait_status fuel false id (or_word (assert_at id) bit regs)) [
          | none ↦ none
          | some held ↦ wait_status fuel true id (and_word (assert_at id) (2 ^ 32 - 1 - bit) held)
        ]

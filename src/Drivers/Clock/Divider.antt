-- ===== src/Drivers/Clock/Divider.antt =====
-- The divider of a clock.
use depos.Base.{
  ℕ, ◌+◌, ◌*◌, ◌-◌, ◌/◌, ◌%◌, ◌^◌, ◌<◌, ◌≡◌, ◌≢◌, ◌∙◌, ap, arith, bit_and, bit_or, update_self,
  update_ne,
}
use depos.Base.Bits.{bit_and_high}
use depos.Base.Bits.Join.{bit_or-join}
use depos.Drivers.Registers.{and_word, or_word}
use depos.Drivers.Clock.{clock_at, divisor, divide}

module _ (sys_crg aon_crg id value : ℕ) (regs : ℕ → ℕ) where
  divide-at :
      regs (clock_at sys_crg aon_crg id) < 2 ^ 32
      → value < 2 ^ 24
      → divide sys_crg aon_crg id value regs (clock_at sys_crg aon_crg id)
        ≡ regs (clock_at sys_crg aon_crg id) / 2 ^ 24 * 2 ^ 24 + value
  unfolding divide and_word or_word
  divide-at w v =
      let a = clock_at sys_crg aon_crg id in
      update_self (and_word a (2 ^ 32 - 2 ^ 24) regs) a
        (bit_or (and_word a (2 ^ 32 - 2 ^ 24) regs a) value)
      ∙ (ap (λ (t : ℕ). bit_or t value)
            (update_self regs a (bit_and (regs a) (2 ^ 32 - 2 ^ 24))
              ∙ bit_and_high 24 32 (regs a) (omega arith) w)
          ∙ bit_or-join 24 (regs a / 2 ^ 24) value v)

  divide-ne :
      (other : ℕ)
      → other ≢ clock_at sys_crg aon_crg id
      → divide sys_crg aon_crg id value regs other ≡ regs other
  unfolding divide and_word or_word
  divide-ne other h =
      let a = clock_at sys_crg aon_crg id in
      update_ne (and_word a (2 ^ 32 - 2 ^ 24) regs) a
        (bit_or (and_word a (2 ^ 32 - 2 ^ 24) regs a) value) other h
      ∙ update_ne regs a (bit_and (regs a) (2 ^ 32 - 2 ^ 24)) other h

  -- A divider below 2^24 goes into the low 24 bits of the register of its clock, and neither the flags above nor another
  -- register changes. What `divisor` then answers does not depend on it: it is the flags.
  pub divisor-divide :
      regs (clock_at sys_crg aon_crg id) < 2 ^ 32
      → value < 2 ^ 24
      → (divide sys_crg aon_crg id value regs (clock_at sys_crg aon_crg id) % 2 ^ 24 ≡ value)
        × (divide sys_crg aon_crg id value regs (clock_at sys_crg aon_crg id) / 2 ^ 24
            ≡ regs (clock_at sys_crg aon_crg id) / 2 ^ 24)
        × ((other : ℕ)
            → other ≢ clock_at sys_crg aon_crg id
            → divide sys_crg aon_crg id value regs other ≡ regs other)
        × (divisor sys_crg aon_crg id (divide sys_crg aon_crg id value regs)
            ≡ regs (clock_at sys_crg aon_crg id) / 2 ^ 24 * 2 ^ 24)
  unfolding divisor
  divisor-divide w v =
      let a = clock_at sys_crg aon_crg id in
      let d = divide sys_crg aon_crg id value regs in
      let e = divide-at w v in
      let masked = bit_and_high 24 32 (d a) (omega arith) (omega (arith, e)) in
      (omega (arith, e), omega (arith, e), divide-ne, omega (arith, masked, e))

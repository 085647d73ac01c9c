-- ===== src/Drivers/Registers.antt =====
-- Registers of 32 bits as a memory, where nothing but the driver writes them, and the fields in them.
use depos.Base.{
  ℕ, ◌+◌, ◌*◌, ◌^◌, ◌≤◌, ◌<◌, ◌≡◌, ◌≢◌, ◌∙◌, ap, bit_and, bit_or, update, update_self, update_ne,
}
use depos.Base.Bits.Field.{hole, replaced, bit_or-replaced}

-- `Reg32(address) &= mask`
abbrev pub and_word : ℕ → ℕ → (ℕ → ℕ) → ℕ → ℕ
and_word address mask regs = update regs address (bit_and (regs address) mask)

-- `Reg32(address) |= word`
abbrev pub or_word : ℕ → ℕ → (ℕ → ℕ) → ℕ → ℕ
or_word address word regs = update regs address (bit_or (regs address) word)

-- `Reg32(address) &= ~(ones << shift)` and `Reg32(address) |= value << shift`, for a field of `width` ones
unfoldable pub set_field : ℕ → ℕ → ℕ → ℕ → (ℕ → ℕ) → ℕ → ℕ
set_field address shift width value regs =
    or_word address (value * 2 ^ shift) (and_word address (hole 32 shift width) regs)

module _ (address shift width value : ℕ) (regs : ℕ → ℕ) where
  pub set_field-at :
      shift + width ≤ 32
      → regs address < 2 ^ 32
      → value < 2 ^ width
      → set_field address shift width value regs address ≡ replaced shift width (regs address) value
  unfolding set_field
  set_field-at h w v =
      update_self (and_word address (hole 32 shift width) regs) address
        (bit_or (and_word address (hole 32 shift width) regs address) (value * 2 ^ shift))
      ∙ (ap (λ (t : ℕ). bit_or t (value * 2 ^ shift))
            (update_self regs address (bit_and (regs address) (hole 32 shift width)))
          ∙ bit_or-replaced shift 32 width (regs address) value h w v)

  pub set_field-ne :
      (other : ℕ) → other ≢ address → set_field address shift width value regs other ≡ regs other
  unfolding set_field
  set_field-ne other h =
      update_ne (and_word address (hole 32 shift width) regs) address
        (bit_or (and_word address (hole 32 shift width) regs address) (value * 2 ^ shift)) other h
      ∙ update_ne regs address (bit_and (regs address) (hole 32 shift width)) other h

-- ===== src/Drivers/Ethernet/Mac.antt =====
-- `DWC_Ether_QoS_MAC` and `DWC_Ether_QoS_MTL` of include/drivers/ethernet/DWC_Ether_QoS.hpp, on the registers at `base`.
use depos.Base.{ℕ, ◌+◌, ◌-◌, ◌^◌, ◌==◌, if◌then◌else◌, Bool, update}
use depos.Drivers.Registers.{and_word, or_word, set_field}

module _ (base : ℕ) where
  pub mac_init : (ℕ → ℕ) → ℕ → ℕ
  mac_init regs =
      let filtered = or_word (base + 8) (2 ^ 31 + 1) regs in
      let queued = update filtered (base + 160) 2 in or_word base 3 (or_word base (2 ^ 21) queued)

  pub mac_duplex : Bool → (ℕ → ℕ) → ℕ → ℕ
  mac_duplex full = set_field base 13 1 (if full then 1 else 0)

  pub mac_speed : ℕ → (ℕ → ℕ) → ℕ → ℕ
  mac_speed speed regs =
      if speed == 1000
      then and_word base (2 ^ 32 - 1 - 2 ^ 14) (and_word base (2 ^ 32 - 1 - 2 ^ 15) regs)
      else (if speed == 100
          then or_word base (2 ^ 14) (or_word base (2 ^ 15) regs)
          else (if speed == 10
              then and_word base (2 ^ 32 - 1 - 2 ^ 14) (or_word base (2 ^ 15) regs)
              else regs))

  pub mtl_init : (ℕ → ℕ) → ℕ → ℕ
  mtl_init regs = or_word (base + 3376) (2 ^ 3 + 2 ^ 5) (or_word (base + 3328) (2 + 2 ^ 3) regs)

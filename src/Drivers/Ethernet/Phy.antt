-- ===== src/Drivers/Ethernet/Phy.antt =====
-- `DWC_Ether_QoS_MDIO` and `DWC_Ether_QoS_PHY` of include/drivers/ethernet/DWC_Ether_QoS.hpp. The device is a parameter: what
-- a read and a write of its registers do. A loop that waits for it has `fuel` rounds, and `none` is fuel that ran out. A
-- number is `unsigned short` where it is data.
use depos.Base.{
  ℕ, zero, suc, ◌+◌, ◌-◌, ◌*◌, ◌/◌, ◌%◌, ◌^◌, ◌==◌, not, if◌then◌else◌, Bool, true, false, Option,
  none, some, bit_and, bit_or,
}

-- actions on the device
abbrev pub Io : Type 0 → Type 0 → Type 0
Io S A = S → Option (A × S)

infixl 5 ◌>>=◌ ◌>>◌
abbrev pub ◌>>=◌ : {S A B : Type 0} → Io S A → (A → Io S B) → Io S B
◌>>=◌ m f s = elim (m s) [ none ↦ none | some (a, s') ↦ f a s' ]

abbrev pub ◌>>◌ : {S A B : Type 0} → Io S A → Io S B → Io S B
m >> k = m >>= λ _. k

abbrev pub pure : {S A : Type 0} → A → Io S A
pure a s = some (a, s)

-- `while (!test) ;`
pub until : {S : Type 0} → ℕ → Io S Bool → Io S (Unit {0})
until zero test s = none
until (suc fuel) test s = elim (test s) [
  | none ↦ none
  | some (b, s') ↦ let rest = until fuel test s' in if b then some (tt, s') else rest
]

-- bit `i` of a word
abbrev pub has_bit : ℕ → ℕ → Bool
has_bit i w = w / 2 ^ i % 2 == 1

module _ {S : Type 0} (load : ℕ → S → ℕ × S) (store : ℕ → ℕ → S → S) (fuel : ℕ) where
  abbrev pub fetch : ℕ → Io S ℕ
  fetch offset s = some (load offset s)

  abbrev pub put : ℕ → ℕ → Io S (Unit {0})
  put offset word s = some (tt, store offset word s)

  -- `MDIO::wait`
  pub wait : Io S (Unit {0})
  wait = until fuel (fetch 512 >>= λ w. pure (not (has_bit 0 w)))

  -- the command in the register BASE: 5 is `BUSY | WRITE` and 13 is `BUSY | READ`
  abbrev pub command : ℕ → ℕ → ℕ → ℕ
  command operation phy dev = operation + phy % 32 * 2 ^ 21 + dev % 32 * 2 ^ 16

  pub write : ℕ → ℕ → ℕ → Io S (Unit {0})
  write phy dev word = do put 516 word; put 512 (command 5 phy dev); wait

  pub read : ℕ → ℕ → Io S ℕ
  read phy dev = do put 512 (command 13 phy dev); wait; w ← fetch 516; pure (w % 2 ^ 16)

  pub set : ℕ → ℕ → ℕ → Io S (Unit {0})
  set phy dev word = do w ← read phy dev; write phy dev (bit_or w word)

  pub clear : ℕ → ℕ → ℕ → Io S (Unit {0})
  clear phy dev word = do w ← read phy dev; write phy dev (bit_and w (2 ^ 16 - 1 - word))

  pub write45 : ℕ → ℕ → ℕ → Io S (Unit {0})
  write45 phy reg word = do write phy 30 reg; write phy 31 word

  pub read45 : ℕ → ℕ → Io S ℕ
  read45 phy reg = do write phy 30 reg; read phy 31

  pub set45 : ℕ → ℕ → ℕ → Io S (Unit {0})
  set45 phy reg word = do w ← read45 phy reg; write45 phy reg (bit_or w word)

  pub clear45 : ℕ → ℕ → ℕ → Io S (Unit {0})
  clear45 phy reg word = do w ← read45 phy reg; write45 phy reg (bit_and w (2 ^ 16 - 1 - word))

  -- The PHY has number 0.
  pub phy_duplex : Io S Bool
  phy_duplex = do w ← read 0 17; pure (has_bit 13 w)

  pub phy_speed : Io S ℕ
  phy_speed = do
    w ← read 0 17
    pure (if w / 2 ^ 14 % 4 == 2 then 1000 else (if w / 2 ^ 14 % 4 == 1 then 100 else 10))

  -- the second loop of `negotiate` reads the register again only if the first bit is set
  receivers : Io S Bool
  receivers = do
    w ← read 0 10
    if has_bit 13 w then (do w' ← read 0 10; pure (has_bit 12 w')) else pure false

  pub negotiate : Io S Bool
  unfolding receivers
  negotiate = do
    set 0 0 4608
    until fuel (read 0 1 >>= λ w. pure (has_bit 5 w))
    until fuel receivers
    pure true

  -- the delays of `init`, from the drive strength on
  pub tune : Io S (Unit {0})
  tune = do
    clear45 0 40976 4096
    set45 0 40976 48
    clear45 0 40976 57344
    set45 0 40976 49152
    clear45 0 40961 256
    clear45 0 40963 15360
    set45 0 40963 10240
    clear45 0 40963 240
    set45 0 40963 80
    clear45 0 40963 15
    set45 0 40963 10
    set45 0 40963 16384

  -- `PHY::init`, without the delays in time
  pub phy_init : Io S (Unit {0})
  phy_init = do
    clear45 0 40961 32768
    until fuel (read45 0 40961 >>= λ w. pure (has_bit 15 w))
    set 0 0 32768
    until fuel (read 0 0 >>= λ w. pure (not (has_bit 15 w)))
    negotiate
    tune
    speed ← phy_speed
    if speed == 1000 then (do set45 0 40978 80; clear45 0 40978 7) else pure tt
    until fuel (read 0 17 >>= λ w. pure (has_bit 10 w))

  -- `DWC_Ether_QoS_DMA::reset`, without its delay
  pub dma_reset : Io S (Unit {0})
  dma_reset = do
    w ← fetch 4096
    put 4096 (bit_or w 1)
    until fuel (fetch 4096 >>= λ w'. pure (not (has_bit 0 w')))

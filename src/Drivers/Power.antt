-- ===== src/Drivers/Power.antt =====
-- include/drivers/pmic/AXP15060_Controller.hpp and include/drivers/dvfs/JH7110_DVFS_Controller.hpp. The bus and the traits
-- of the chip are parameters; `none` is a null pointer that is followed.
pub mod Voltage
pub mod Scaling
use depos.Base.{
  ℕ, ◌+◌, ◌-◌, ◌*◌, ◌/◌, ◌%◌, ◌^◌, ◌==◌, ◌&&◌, ◌||◌, ltb, leb, if◌then◌else◌, Bool, true, false,
  Option, none, some, List, [], ◌∷◌,
}
use depos.Drivers.Clock.{divide}

-- a row of `Traits::Voltages`
pub record Range : Type 0 where
  pub rail : ℕ
  pub low : ℕ
  pub high : ℕ

abbrev pub range : ℕ → ℕ → ℕ → Range
range rail low high = record { rail = rail; low = low; high = high }

-- the loop over the rows, in which the last one of the rail counts
unfoldable pub find_range : ℕ → Option Range → List Range → Option Range
find_range rail found [] = found
find_range rail found (r ∷ rows) = find_range rail (if r.rail == rail then some r else found) rows

-- the byte for a voltage
pub code_of : ℕ → ℕ
code_of microvolts =
    (if leb microvolts 1210
      then (microvolts + (2 ^ 32 - 500)) % 2 ^ 32 / 10
      else 71 + (microvolts + (2 ^ 32 - 1220)) % 2 ^ 32 / 20)
    % 256

-- the voltage of a byte
pub volts_of : ℕ → ℕ
volts_of byte =
    let value = byte % 128 in if ltb value 71 then 500 + value * 10 else 1220 + (value - 71) * 20

-- the bus: a write of bytes with the flag to stop, and a read of one byte
module _ {ℓ} {S : Type ℓ} (write : List ℕ → Bool → S → Bool × S)
    (read : Bool → S → (Bool × ℕ) × S) where
  -- `voltage(rail, microvolts)`
  pub set_voltage : List Range → ℕ → ℕ → S → Option (Bool × S)
  set_voltage rows rail microvolts s = elim (find_range rail none rows) [
    | none ↦ none
    | some r ↦ some (
        if ltb microvolts r.low || ltb r.high microvolts
        then (false, s)
        else (true, (write ((19 + rail) % 256 ∷ code_of microvolts ∷ []) true s).1))
  ]

  -- `voltage(rail)`
  pub voltage : ℕ → S → ℕ × S
  voltage rail s =
      let (sent, s') = write ((19 + rail) % 256 ∷ []) false s in
      let ((got, byte), s'') = read true s' in
      if sent then (if got then (volts_of byte, s'') else (0, s'')) else (0, s')

-- `PState`
pub record PState : Type 0 where
  pub frequency : ℕ
  pub voltage : ℕ

abbrev pub pstate : ℕ → ℕ → PState
pstate frequency voltage = record { frequency = frequency; voltage = voltage }

-- `JH7110_DVFS_Controller::States`
abbrev pub states : List PState
states =
    pstate 1500000000 1040000
    ∷ pstate 750000000 900000
    ∷ pstate 500000000 900000
    ∷ pstate 375000000 900000
    ∷ []

-- the loop over the states
pub select : PState → Option PState → List PState → Option PState
select p found [] = found
select p found (q ∷ rest) =
    select p (if (q.frequency == p.frequency) && (q.voltage == p.voltage) then some q else found)
      rest

module _ {ℓ} {S : Type ℓ} (write : List ℕ → Bool → S → Bool × S) (read : Bool → S → (Bool × ℕ) × S)
    (rows : List Range) (sys_crg aon_crg : ℕ) where
  -- after the voltage: the divider of the clock of the cores, whose register is at offset 4
  scale : ℕ → (ℕ → ℕ) → Option (Bool × S) → Option (Bool × S × (ℕ → ℕ))
  scale divisor regs none = none
  scale divisor regs (some (false, s)) = some (false, s, regs)
  scale divisor regs (some (true, s)) = some (true, s, divide sys_crg aon_crg 4 divisor regs)

  -- `set`, on the bus and the registers of the clocks
  pub set : PState → S → (ℕ → ℕ) → Option (Bool × S × (ℕ → ℕ))
  unfolding scale
  set p s regs = elim (select p none states) [
    | none ↦ some (false, s, regs)
    | some q ↦ scale (1500000000 / q.frequency) regs (set_voltage write read rows 2 p.voltage s)
  ]

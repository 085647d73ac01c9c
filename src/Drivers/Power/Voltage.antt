-- ===== src/Drivers/Power/Voltage.antt =====
-- What a voltage that was set reads as.
use depos.Base.{
  ℕ, ◌+◌, ◌-◌, ◌*◌, ◌/◌, ◌%◌, ◌≤◌, ◌<◌, ◌≡◌, ◌∙◌, ap, arith, ltb, ◌==◌, if◌then◌else◌, Bool, true,
  false, none, some, List, [], ◌∷◌,
}
use depos.Drivers.Power.{Range, find_range, code_of, volts_of, set_voltage, voltage}

-- the voltage at or below, in steps of 10 or of 20, but for those between the two scales
abbrev pub settled : ℕ → ℕ
settled v =
    if ltb v 1210
    then 500 + (v - 500) / 10 * 10
    else (if v == 1210 then 1220 else (if ltb v 1220 then 690 else 1220 + (v - 1220) / 20 * 20))

pub volts_of-code_of : (v : ℕ) → 500 ≤ v → v < 2360 → volts_of (code_of v) ≡ settled v
unfolding volts_of code_of
volts_of-code_of v low high = ground arith

-- A chip behind the bus that has a memory of bytes: a write of a number and a byte stores, and one of a number alone
-- selects what the next read answers.
module _ {S : Type 0} (write : List ℕ → Bool → S → Bool × S) (read : Bool → S → (Bool × ℕ) × S)
    (content : S → ℕ → ℕ) where
  abbrev pub IsMemory : Type 0
  IsMemory =
      ((reg byte : ℕ) (s : S) → content (write (reg ∷ byte ∷ []) true s).1 reg ≡ byte)
      × ((reg : ℕ) (s : S) → (write (reg ∷ []) false s).0 ≡ true)
      × ((reg : ℕ) (s : S) → (read true (write (reg ∷ []) false s).1).0 ≡ (true, content s reg))

  voltage-content :
      (rail : ℕ) (s : S)
      → IsMemory
      → (voltage write read rail s).0 ≡ volts_of (content s ((19 + rail) % 256))
  unfolding voltage
  voltage-content rail s m = let reg = (19 + rail) % 256 in ground (arith, m.1 reg s, m.2 reg s)

  accepted :
      (rows : List Range) (r : Range) (rail v : ℕ) (s : S)
      → find_range rail none rows ≡ some r
      → r.low ≤ v
      → v ≤ r.high
      → set_voltage write read rows rail v s
        ≡ some (true, (write ((19 + rail) % 256 ∷ code_of v ∷ []) true s).1)
  unfolding set_voltage
  accepted rows r rail v s e low high = ground (arith, e)

  -- In the range of its rail, and with a chip that keeps its bytes, a voltage from 500 to 2359 is accepted and reads as
  -- the step of the chip at or below it; 1210 reads as 1220 and those
  -- between 1210 and 1220 as 690.
  pub voltage-set_voltage :
      (rows : List Range) (r : Range) (rail v : ℕ) (s : S)
      → IsMemory
      → find_range rail none rows ≡ some r
      → r.low ≤ v
      → v ≤ r.high
      → 500 ≤ v
      → v < 2360
      → (s' : S) × (set_voltage write read rows rail v s ≡ some (true, s'))
        × ((voltage write read rail s').0 ≡ settled v)
  unfolding set_voltage
  voltage-set_voltage rows r rail v s m e low high above below =
      let reg = (19 + rail) % 256 in
      let s' = (write (reg ∷ code_of v ∷ []) true s).1 in
      (
        s',
        accepted rows r rail v s e low high,
        voltage-content rail s' m
            ∙ (ap volts_of (m.0 reg (code_of v) s) ∙ volts_of-code_of v above below),
      )

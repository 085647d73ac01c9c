-- ===== src/Drivers/Power/Scaling.antt =====
-- Changes of the frequency on the machine VisionFive2.
use depos.Base.{ℕ, ◌≡◌, arith, Bool, false, some, List, [], ◌∷◌}
use depos.Drivers.Power.{Range, range, PState, select, set, set_voltage, find_range}

-- `Traits<PMIC0>::Voltages` of machine/VisionFive2/Traits.hpp
abbrev pub vision_five_2 : List Range
vision_five_2 = range 2 800 1040 ∷ []

-- On the VisionFive2 no state is ever set: the states have microvolts and the ranges of the chip millivolts, so `set`
-- answers false for every state, and neither the chip nor the clocks change.
pub set-refuses :
    {S : Type 0} (write : List ℕ → Bool → S → Bool × S) (read : Bool → S → (Bool × ℕ) × S)
    (sys_crg aon_crg : ℕ) (p : PState) (s : S) (regs : ℕ → ℕ)
    → set write read vision_five_2 sys_crg aon_crg p s regs ≡ some (false, s, regs)
unfolding set select find_range set_voltage
set-refuses write read sys_crg aon_crg p s regs = ground arith

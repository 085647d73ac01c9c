-- ===== src/Utility.antt =====
-- The utilities that the rest of the kernel uses.
pub mod String
pub mod Decimal
pub mod Time
pub mod Observer
use depos.Base.{ℕ, ◌-◌, leb, if◌then◌else◌}

-- an `int`, from a subtraction of bytes
pub data ℤ : Type 0 where
  pos : ℕ → ℤ
  negsuc : ℕ → ℤ

abbrev pub byte_difference : ℕ → ℕ → ℤ
byte_difference a b = if leb b a then pos (a - b) else negsuc (b - a - 1)

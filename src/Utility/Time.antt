-- ===== src/Utility/Time.antt =====
-- `Duration` of include/types.hpp and include/utility/Ticker.hpp, with their 64-bit values.
pub mod Ticks
use depos.Base.{ℕ, ◌+◌, ◌-◌, ◌*◌, ◌/◌, ◌%◌, ◌^◌, ltb, if◌then◌else◌}

-- from the unit with `from` parts to the one with `to` parts of a second
unfoldable pub convert : ℕ → ℕ → ℕ → ℕ
convert to from value = value * to % 2 ^ 64 / from

-- `+` and `-` of a duration with `factor` parts and one with `other` parts
unfoldable pub add : ℕ → ℕ → ℕ → ℕ → ℕ
add factor other a b = (a + convert factor other b) % 2 ^ 64

unfoldable pub sub : ℕ → ℕ → ℕ → ℕ → ℕ
sub factor other a b = (a + (2 ^ 64 - convert factor other b)) % 2 ^ 64

-- `Ticker::handler` for one channel: `current`, and how often `Handler` was called.
module _ (duration : ℕ) where
  pub tick : ℕ × ℕ → ℕ × ℕ
  tick (current, calls) =
      if ltb 1 duration
      then (if ltb 1 current
          then ((current + (2 ^ 64 - 1)) % 2 ^ 64, calls)
          else (duration, calls + 1))
      else (duration, calls + 1)

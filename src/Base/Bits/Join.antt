-- ===== src/Base/Bits/Join.antt =====
-- A disjunction of numbers that share no digit is their sum.
use Prim.Native.Nat.{ℕ, zero, suc, ◌+◌, ◌*◌, ◌/◌, ◌%◌, ◌^◌, ◌≤◌, ◌<◌, max, bit_or, bit_or-bitwise}
use mathlib.Core.Path.{◌≡◌, refl}
use native.Mathlib.Nat.{pow-suc}
use native.Mathlib.Omega.{arith}
use depos.Base.Bits.{more_rounds, double_block}

bit_or_of_zero : (y : ℕ) → bit_or 0 y ≡ y
bit_or_of_zero y = bit_or-bitwise 0 y

-- The lowest digit of a disjunction.
pub bit_or_step : (a b : ℕ) → bit_or a b ≡ bit_or (a / 2) (b / 2) * 2 + max (a % 2) (b % 2)
bit_or_step zero y = omega (arith, bit_or_of_zero y, bit_or_of_zero (y / 2))
bit_or_step (suc x) y =
    let whole = bit_or-bitwise (suc x) y in
    let half = bit_or-bitwise (suc x / 2) (y / 2) in
    let same =
      more_rounds (λ b. b) max (suc x / 2) (y / 2) x (suc x / 2) (omega arith) (omega arith) in
    omega (arith, whole, half, same)

bit_or-zero_below : (bound x : ℕ) → x ≤ bound → bit_or x 0 ≡ x
bit_or-zero_below bound zero u = refl
bit_or-zero_below zero (suc x) u = absurd (omega arith)
bit_or-zero_below (suc bound) (suc x) u =
    omega (arith, bit_or_step (suc x) 0, bit_or-zero_below bound (suc x / 2) (omega arith))

-- The low `k` digits of a multiple of `2 ^ k` are free.
pub bit_or-join : (k q f : ℕ) → f < 2 ^ k → bit_or (q * 2 ^ k) f ≡ q * 2 ^ k + f
bit_or-join zero q f h =
    let e : f ≡ 0 = omega arith in
    let d : q * 2 ^ 0 ≡ q = omega arith in
    rw (e, d) (omega (arith, bit_or-zero_below q q (omega arith)))
bit_or-join (suc k) q f h =
    let a = q * 2 ^ k in
    let e : q * 2 ^ suc k ≡ a * 2 = omega (arith, double_block q k) in
    let half : a * 2 / 2 ≡ a = omega arith in
    let low : a * 2 % 2 ≡ 0 = omega arith in
    rw (e, bit_or_step (a * 2) f, half, low)
      (omega (arith, bit_or-join k q (f / 2) (omega (arith, pow-suc 2 k))))

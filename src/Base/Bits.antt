-- ===== src/Base/Bits.antt =====
-- Facts about the bit operations at variables, from the digit recursion that they stand for.
pub mod Join
pub mod Field
use Prim.Native.Nat.{
  ℕ, zero, suc, ◌+◌, ◌-◌, ◌*◌, ◌/◌, ◌%◌, ◌^◌, ◌≤◌, ◌<◌, min, max, bit_and, bit_or, bit_xor, digits,
  bit_and-bitwise, bit_or-bitwise, bit_xor-bitwise, differ,
}
use mathlib.Core.Path.{sym, ◌≡◌, refl, ap, ◌∙◌}
use native.Mathlib.Nat.{
  mul_assoc, mul_comm, div-div-eq-div-mul, pow-suc, one-le-pow, div-add-mod', mod-lt,
  add-mul-mod_self_right, mod-eq_of_lt,
}
use native.Mathlib.Omega.{arith}

-- The rounds of a digit recursion that are left once the number has no more digits do nothing.
module _ (ends : ℕ → ℕ) (digit : ℕ → ℕ → ℕ) where
  pub more_rounds :
      (x y k l : ℕ) → x ≤ k → x ≤ l → digits ends digit k x y ≡ digits ends digit l x y
  more_rounds zero y zero zero u v = refl
  more_rounds zero y zero (suc l) u v = refl
  more_rounds zero y (suc k) zero u v = refl
  more_rounds zero y (suc k) (suc l) u v = refl
  more_rounds (suc x) y zero l u v = absurd (omega arith)
  more_rounds (suc x) y (suc k) zero u v = absurd (omega arith)
  more_rounds (suc x) y (suc k) (suc l) u v =
      let half = more_rounds (suc x / 2) (y / 2) k l (omega arith) (omega arith) in
      omega (arith, half)

bit_xor_of_zero : (y : ℕ) → bit_xor 0 y ≡ y
bit_xor_of_zero y = bit_xor-bitwise 0 y

-- The lowest digit of an exclusive or.
pub bit_xor_step : (a b : ℕ) → bit_xor a b ≡ bit_xor (a / 2) (b / 2) * 2 + differ (a % 2) (b % 2)
bit_xor_step zero y = omega (arith, bit_xor_of_zero y, bit_xor_of_zero (y / 2))
bit_xor_step (suc x) y =
    let whole = bit_xor-bitwise (suc x) y in
    let half = bit_xor-bitwise (suc x / 2) (y / 2) in
    let same =
      more_rounds (λ b. b) differ (suc x / 2) (y / 2) x (suc x / 2) (omega arith) (omega arith) in
    omega (arith, whole, half, same)

differ-zero : (x : ℕ) → differ x 0 ≡ x
differ-zero zero = refl
differ-zero (suc x) = refl

differ-one : (x : ℕ) → x < 2 → differ x 1 ≡ 1 - x
differ-one zero h = refl
differ-one (suc zero) h = refl
differ-one (suc (suc x)) h = absurd (omega arith)

bit_xor-zero_fuel : (n a : ℕ) → a ≤ n → bit_xor a 0 ≡ a
bit_xor-zero_fuel n zero h = refl
bit_xor-zero_fuel zero (suc a) h = absurd (omega arith)
bit_xor-zero_fuel (suc n) (suc a) h = omega (
  arith,
  bit_xor_step (suc a) 0,
  differ-zero (suc a % 2),
  bit_xor-zero_fuel n (suc a / 2) (omega arith),
)

pub bit_xor-zero : (a : ℕ) → bit_xor a 0 ≡ a
bit_xor-zero a = bit_xor-zero_fuel a a (omega arith)

-- The lowest bit is flipped.
pub bit_xor-one : (q : ℕ) → bit_xor q 1 ≡ q / 2 * 2 + (1 - q % 2)
bit_xor-one q =
    omega (arith, bit_xor_step q 1, bit_xor-zero (q / 2), differ-one (q % 2) (omega arith))

pub double_block : (block i : ℕ) → 2 * (block * 2 ^ i) ≡ block * 2 ^ suc i
double_block block i =
    let e : 2 ^ suc i ≡ 2 ^ i * 2 = pow-suc 2 i in rw e (omega (arith, mul_assoc block (2 ^ i) 2))

-- One bit of a multiple of it is flipped.
pub bit_xor-pow : (k q : ℕ) → bit_xor (q * 2 ^ k) (2 ^ k) ≡ bit_xor q 1 * 2 ^ k
bit_xor-pow zero q = ground arith
bit_xor-pow (suc k) q = ground (
  arith,
  bit_xor_step (q * 2 ^ suc k) (2 ^ suc k),
  double_block q k,
  double_block (bit_xor q 1) k,
  pow-suc 2 k,
  bit_xor-pow k q,
)

bit_and_of_zero : (y : ℕ) → bit_and 0 y ≡ 0
bit_and_of_zero y = bit_and-bitwise 0 y

-- The lowest digit of a conjunction.
pub bit_and_step : (x y : ℕ) → bit_and x y ≡ bit_and (x / 2) (y / 2) * 2 + min (x % 2) (y % 2)
bit_and_step zero y = omega (arith, bit_and_of_zero y, bit_and_of_zero (y / 2))
bit_and_step (suc x) y =
    let whole = bit_and-bitwise (suc x) y in
    let half = bit_and-bitwise (suc x / 2) (y / 2) in
    let same =
      more_rounds (λ b. zero) min (suc x / 2) (y / 2) x (suc x / 2) (omega arith) (omega arith) in
    omega (arith, whole, half, same)

bit_and-zero_below : (bound x : ℕ) → x ≤ bound → bit_and x 0 ≡ 0
bit_and-zero_below bound zero u = refl
bit_and-zero_below zero (suc x) u = absurd (omega arith)
bit_and-zero_below (suc bound) (suc x) u =
    let half = bit_and-zero_below bound (suc x / 2) (omega arith) in
    omega (arith, half, bit_and_step (suc x) 0)

pub bit_and-zero : (x : ℕ) → bit_and x 0 ≡ 0
bit_and-zero x = bit_and-zero_below x x (omega arith)

pub mod-double : (a p : ℕ) → 0 < p → a % (2 * p) ≡ a / 2 % p * 2 + a % 2
mod-double a p h =
    let low = a / 2 % p * 2 + a % 2 in
    let e : a ≡ low + a / 2 / p * (2 * p) = omega (arith, div-add-mod' (a / 2) p) in
    let lt : low < 2 * p = omega (arith, mod-lt (a / 2) h) in
    ap (λ t. t % (2 * p)) e ∙ (add-mul-mod_self_right low (a / 2 / p) (2 * p) ∙ mod-eq_of_lt lt)

-- The low `k` bits of a number are its remainder by `2 ^ k`.
pub bit_and_low : (k a : ℕ) → bit_and a (2 ^ k - 1) ≡ a % 2 ^ k
bit_and_low zero a = omega (arith, bit_and-zero a)
bit_and_low (suc k) a =
    let p = one-le-pow k 2 (omega arith) in
    let e : (2 ^ suc k - 1) / 2 ≡ 2 ^ k - 1 = omega (arith, pow-suc 2 k) in
    let f : (2 ^ suc k - 1) % 2 ≡ 1 = omega (arith, pow-suc 2 k) in
    let g : 2 ^ suc k ≡ 2 * 2 ^ k = omega (arith, pow-suc 2 k) in
    omega (
      arith,
      bit_and_step a (2 ^ suc k - 1),
      ap (λ t. bit_and (a / 2) t) e,
      bit_and_low k (a / 2),
      ap (λ t. a % t) g,
      mod-double a (2 ^ k) p,
      f,
    )

-- `2 ^ (l + d)` is a multiple of `2 ^ l`.
pub pow-split : (l d : ℕ) → 2 ^ (l + d) ≡ 2 ^ d * 2 ^ l
pow-split l zero = let e : l + 0 ≡ l = omega arith in rw e (omega arith)
pow-split l (suc d) =
    let e : l + suc d ≡ suc (l + d) = omega arith in
    rw e (
      omega (
        arith,
        pow-suc 2 (l + d),
        pow-suc 2 d,
        pow-split l d,
        ap (λ (t : ℕ). t * 2 ^ l) (pow-suc 2 d),
      ))

twice : (x p : ℕ) → x * (2 * p) ≡ x * p * 2
twice x p = sym (mul_assoc x p 2 ∙ ap (λ t. x * t) (mul_comm p 2))

pub halves : (a p x : ℕ) → x ≡ a / 2 / p → a / (2 * p) * (2 * p) ≡ x * p * 2
halves a p x e =
    let d : a / (2 * p) ≡ x = sym (div-div-eq-div-mul a 2 p) ∙ sym e in rw d (twice x p)

-- The bits of a number from `k` on are what a mask leaves that has the bits from `k` to `n`.
pub bit_and_high : (k n a : ℕ) → k ≤ n → a < 2 ^ n → bit_and a (2 ^ n - 2 ^ k) ≡ a / 2 ^ k * 2 ^ k
bit_and_high zero n a h lt = bit_and_low n a ∙ omega (arith, mod-eq_of_lt lt)
bit_and_high (suc k) zero a h lt = absurd (omega arith)
bit_and_high (suc k) (suc n) a h lt =
    let p = one-le-pow k 2 (omega arith) in
    let e : (2 ^ suc n - 2 ^ suc k) / 2 ≡ 2 ^ n - 2 ^ k = omega (arith, pow-suc 2 k, pow-suc 2 n) in
    let f : (2 ^ suc n - 2 ^ suc k) % 2 ≡ 0 = omega (arith, pow-suc 2 k, pow-suc 2 n) in
    let g : a / 2 ^ suc k * 2 ^ suc k ≡ a / 2 / 2 ^ k * 2 ^ k * 2 =
      (ap (λ t. a / t * t) {x = 2 ^ suc k} {y = 2 * 2 ^ k} (omega (arith, pow-suc 2 k)))
      ∙ halves a (2 ^ k) (a / 2 / 2 ^ k) refl in
    rw
      (
        bit_and_step a (2 ^ suc n - 2 ^ suc k),
        e,
        f,
        bit_and_high k n (a / 2) (omega arith) (omega (arith, pow-suc 2 n)),
      )
      (omega (arith, g))

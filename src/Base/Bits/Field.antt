-- ===== src/Base/Bits/Field.antt =====
-- A field of a word that a mask clears and a disjunction fills.
use Prim.Native.Nat.{ℕ, zero, suc, ◌+◌, ◌-◌, ◌*◌, ◌/◌, ◌%◌, ◌^◌, ◌≤◌, ◌<◌, bit_and, bit_or, min}
use mathlib.Core.Path.{◌≡◌, refl, ap, ap₂, ◌∙◌, sym}
use native.Mathlib.Nat.{pow-suc, one-le-pow, add-mul, pow-le-pow_right}
use native.Mathlib.Omega.{arith}
use depos.Base.Bits.{bit_and_step, bit_and_high, double_block, mod-double, halves, pow-split}
use depos.Base.Bits.Join.{bit_or_step, bit_or-join}

-- the ones of `n` digits without the `k` from digit `s` on
abbrev pub hole : ℕ → ℕ → ℕ → ℕ
hole n s k = 2 ^ n - 1 - (2 ^ k - 1) * 2 ^ s

-- the word with `v` in the field
abbrev pub replaced : ℕ → ℕ → ℕ → ℕ → ℕ
replaced s k w v = w / 2 ^ (s + k) * 2 ^ (s + k) + v * 2 ^ s + w % 2 ^ s

hole_small : (n s k : ℕ) → s + k ≤ n → (2 ^ k - 1) * 2 ^ s + 1 ≤ 2 ^ n
hole_small n s k h =
    let p = one-le-pow k 2 (omega arith) in
    let q = one-le-pow s 2 (omega arith) in
    let more : 2 ^ (s + k) ≤ 2 ^ n = pow-le-pow_right {n = 2} (omega arith) h in
    let split : 2 ^ (s + k) ≡ 2 ^ k * 2 ^ s = pow-split s k in
    let parts : (2 ^ k - 1 + 1) * 2 ^ s ≡ (2 ^ k - 1) * 2 ^ s + 1 * 2 ^ s =
      add-mul (2 ^ k - 1) 1 (2 ^ s) in
    let whole_k : (2 ^ k - 1 + 1) * 2 ^ s ≡ 2 ^ k * 2 ^ s =
      ap (λ (t : ℕ). t * 2 ^ s) {x = 2 ^ k - 1 + 1} {y = 2 ^ k} (omega arith) in
    omega (arith, q, more, split, parts, whole_k)

hole-half :
    (n s k : ℕ)
    → s + k ≤ n
    → (hole (suc n) (suc s) k / 2 ≡ hole n s k) × (hole (suc n) (suc s) k % 2 ≡ 1)
hole-half n s k h =
    let p = one-le-pow n 2 (omega arith) in
    let e : (2 ^ k - 1) * 2 ^ suc s ≡ 2 * ((2 ^ k - 1) * 2 ^ s) =
      sym (double_block (2 ^ k - 1) s) in
    let l = hole_small n s k h in omega (arith, e, pow-suc 2 n, p, l)

pub bit_or-replaced :
    (s n k w v : ℕ)
    → s + k ≤ n
    → w < 2 ^ n
    → v < 2 ^ k
    → bit_or (bit_and w (hole n s k)) (v * 2 ^ s) ≡ replaced s k w v
bit_or-replaced zero n k w v h lw lv =
    let p = one-le-pow k 2 (omega arith) in
    let q = one-le-pow n 2 (omega arith) in
    let e : hole n 0 k ≡ 2 ^ n - 2 ^ k = omega (arith, p, q) in
    let f : bit_and w (hole n 0 k) ≡ w / 2 ^ k * 2 ^ k =
      ap (bit_and w) e ∙ bit_and_high k n w (omega arith) lw in
    ap (λ (t : ℕ). bit_or t (v * 1)) f
    ∙ ap (bit_or (w / 2 ^ k * 2 ^ k)) {x = v * 1} {y = v} (omega arith)
    ∙ bit_or-join k (w / 2 ^ k) v lv
    ∙ sym (
        ap (λ (t : ℕ). w / 2 ^ t * 2 ^ t + v * 1 + w % 1) {x = 0 + k} {y = k} (omega arith)
        ∙ omega arith)
bit_or-replaced (suc s) zero k w v h lw lv = absurd (omega arith)
bit_or-replaced (suc s) (suc n) k w v h lw lv =
    let (half, low) = hole-half n s k (omega arith) in
    let ih = bit_or-replaced s n k (w / 2) v (omega arith) (omega (arith, pow-suc 2 n)) lv in
    let g : w / 2 ^ (suc s + k) * 2 ^ (suc s + k) ≡ w / 2 / 2 ^ (s + k) * 2 ^ (s + k) * 2 =
      ap (λ t. w / t * t) {x = 2 ^ (suc s + k)} {y = 2 * 2 ^ (s + k)}
        (ap (λ (t : ℕ). 2 ^ t) {x = suc s + k} {y = suc (s + k)} (omega arith)
          ∙ (pow-suc 2 (s + k) ∙ omega arith))
      ∙ halves w (2 ^ (s + k)) (w / 2 / 2 ^ (s + k)) refl in
    let m : w % 2 ^ suc s ≡ w / 2 % 2 ^ s * 2 + w % 2 =
      ap (λ t. w % t) {x = 2 ^ suc s} {y = 2 * 2 ^ s} (omega (arith, pow-suc 2 s))
      ∙ mod-double w (2 ^ s) (one-le-pow s 2 (omega arith)) in
    let d : v * 2 ^ suc s ≡ v * 2 ^ s * 2 = omega (arith, double_block v s) in
    let a = bit_and w (hole (suc n) (suc s) k) in
    let ea : a ≡ bit_and (w / 2) (hole n s k) * 2 + w % 2 =
      bit_and_step w (hole (suc n) (suc s) k)
      ∙ (ap (λ (t : ℕ). bit_and (w / 2) t * 2 + min (w % 2) (hole (suc n) (suc s) k % 2)) half
          ∙ omega (arith, low)) in
    let low_a : a / 2 ≡ bit_and (w / 2) (hole n s k) = omega (arith, ea) in
    let half_v : v * 2 ^ suc s / 2 ≡ v * 2 ^ s = omega (arith, d) in
    let join : bit_or (a / 2) (v * 2 ^ suc s / 2) ≡ replaced s k (w / 2) v =
      ap₂ bit_or low_a half_v ∙ ih in
    bit_or_step a (v * 2 ^ suc s) ∙ omega (arith, join, ea, d, g, m)

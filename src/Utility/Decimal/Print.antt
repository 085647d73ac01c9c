-- ===== src/Utility/Decimal/Print.antt =====
-- Numbers are printed so that `atol` reads them back.
use native.Mathlib.Nat.{pow-suc}
use depos.Base.{
  ◌≢◌, ne→==_false, eq-cases, ℕ, zero, suc, ◌+◌, ◌-◌, ◌*◌, ◌/◌, ◌%◌, ◌^◌, ◌<◌, ◌≤◌, ◌≡◌, List, [],
  ◌∷◌, arith, refl, ap, length, some, inl, inr, ◌∙◌,
}
use mathlib.Core.Option
use depos.Utility.{ℤ, pos, negsuc}
use depos.Utility.Decimal.{
  decimal_digits, print_back, print_unsigned, print_signed, atol_digits, atol, negate,
}

-- what a number is without its sign
abbrev pub magnitude : ℤ → ℕ
magnitude (pos x) = x
magnitude (negsuc x) = x + 1

last_digit :
    (x : ℕ) (out : List ℕ)
    → x < 2 ^ 63
    → atol_digits (x / 10) ((x % 10 + 48) ∷ out) ≡ atol_digits x out
unfolding atol_digits
last_digit x out h =
    let e : x / 10 * 10 + (x % 10 + 48 - 48) ≡ x = omega arith in
    let same = ap (λ k. atol_digits k out) e in ground arith

no_more : (x : ℕ) → atol_digits x [] ≡ some x
unfolding atol_digits
no_more x = refl

print_back-atol :
    (fuel x : ℕ) (out : List ℕ)
    → x ≤ fuel
    → x < 2 ^ 63
    → atol_digits 0 (print_back (decimal_digits fuel x) out) ≡ atol_digits x out
unfolding decimal_digits print_back atol_digits
print_back-atol zero zero out h b = refl
print_back-atol zero (suc x) out h b = absurd (omega arith)
print_back-atol (suc fuel) x out h b = elim (eq-cases x 0) [
  | inl e ↦ rw e refl
  | inr ne ↦ rw (ne→==_false x 0 ne) (
      print_back-atol fuel (x / 10) ((x % 10 + 48) ∷ out) (omega arith) (omega arith)
      ∙ last_digit x out b)
]

atol-pos : (l : List ℕ) (x : ℕ) → x ≢ 0 → atol_digits 0 l ≡ some x → atol l ≡ some (pos x)
unfolding atol atol_digits
atol-pos [] x ne e = absurd (ne (ground arith))
atol-pos (c ∷ l) x ne e = ground arith

print_unsigned-digits : (x : ℕ) → x ≢ 0 → x < 2 ^ 63 → atol_digits 0 (print_unsigned x) ≡ some x
unfolding print_unsigned
print_unsigned-digits x ne b =
    rw (ne→==_false x 0 ne) (print_back-atol x x [] (omega arith) b ∙ no_more x)

print_unsigned-atol : (x : ℕ) → x < 2 ^ 63 → atol (print_unsigned x) ≡ some (pos x)
unfolding print_unsigned atol atol_digits
print_unsigned-atol zero b = refl
print_unsigned-atol (suc x) b =
    let ne : suc x ≢ 0 = λ e. absurd (omega arith) in
    atol-pos (print_unsigned (suc x)) (suc x) ne (print_unsigned-digits (suc x) ne b)

-- A number that is more than -2 ^ 63 and less than 2 ^ 63 is printed without an overflow, and `atol` reads it back without one.
pub print_signed-atol :
    (x : ℤ)
    → magnitude x < 2 ^ 63
    → (out : List ℕ) × (print_signed x ≡ some out) × (atol out ≡ some x)
unfolding print_signed atol
print_signed-atol (pos x) h = (print_unsigned x, refl, print_unsigned-atol x h)
print_signed-atol (negsuc x) h =
    let digits : atol_digits 0 (print_unsigned (x + 1)) ≡ some (suc x) =
      print_unsigned-digits (x + 1) (λ e. absurd (omega arith)) h ∙ ap some (omega arith) in
    (45 ∷ print_unsigned (x + 1), ground arith, ap (Option.map negate) digits)

-- The digits of a number of 64 bits fit the buffer.
pub length-decimal_digits : (k fuel x : ℕ) → x < 10 ^ k → length (decimal_digits fuel x) ≤ k
unfolding decimal_digits
length-decimal_digits k zero x h = omega arith
length-decimal_digits zero (suc fuel) x h = ground arith
length-decimal_digits (suc k) (suc fuel) x h =
    ground (arith, length-decimal_digits k fuel (x / 10) (omega (arith, pow-suc 10 k)))

-- ===== src/Utility/Time/Ticks.antt =====
-- How often a ticker calls its handler, and durations that are converted and back.
use depos.Base.{
  ℕ, zero, suc, ◌+◌, ◌-◌, ◌*◌, ◌/◌, ◌%◌, ◌^◌, ◌<◌, ◌≤◌, ◌≡◌, arith, refl, ap, sym, ◌∙◌,
}
use native.Mathlib.Nat.{mod-eq_of_lt, mul-div_cancel, mul_assoc, mul_comm, le-mul_of_pos_right}
use depos.Utility.Time.{convert, tick}

pub ticks : ℕ → ℕ → ℕ × ℕ → ℕ × ℕ
ticks duration zero s = s
ticks duration (suc n) s = ticks duration n (tick duration s)

-- Fewer ticks than are left call nothing.
ticks-wait :
    (duration n left calls : ℕ)
    → 1 < duration
    → n + 1 ≤ left
    → left < 2 ^ 64
    → ticks duration n (left, calls) ≡ (left - n, calls)
unfolding ticks tick
ticks-wait duration zero left calls h k l = ap (λ t. (t, calls)) (omega arith)
ticks-wait duration (suc n) left calls h k l =
    let e : tick duration (left, calls) ≡ (left - 1, calls) = ground arith in
    ap (ticks duration n) e
    ∙ (ticks-wait duration n (left - 1) calls h (omega arith) (omega arith)
        ∙ ap (λ t. (t, calls)) (omega arith))

ticks-suc :
    (duration n : ℕ) (s : ℕ × ℕ) → ticks duration (suc n) s ≡ tick duration (ticks duration n s)
unfolding ticks
ticks-suc duration zero s = refl
ticks-suc duration (suc n) s = ticks-suc duration n (tick duration s)

tick_last : (duration calls : ℕ) → tick duration (1, calls) ≡ (duration, calls + 1)
unfolding tick
tick_last duration calls = ground arith

ticks-before :
    (duration n calls : ℕ)
    → n < duration
    → duration < 2 ^ 64
    → ticks duration n (duration, calls) ≡ (duration - n, calls)
unfolding ticks
ticks-before duration zero calls h l = ap (λ t. (t, calls)) (omega arith)
ticks-before duration (suc n) calls h l =
    ticks-wait duration (suc n) duration calls (omega arith) (omega arith) l

-- A ticker that starts with its duration calls its handler at the last of that many ticks and not before, and
-- starts again.
pub ticks-call :
    (duration calls : ℕ)
    → 0 < duration
    → duration < 2 ^ 64
    → (ticks duration duration (duration, calls) ≡ (duration, calls + 1))
      × ((n : ℕ) → n < duration → ticks duration n (duration, calls) ≡ (duration - n, calls))
ticks-call duration calls p h = (
  ap (λ k. ticks duration k (duration, calls)) {x = duration} {y = suc (duration - 1)} (omega arith)
      ∙ (ticks-suc duration (duration - 1) (duration, calls)
          ∙ (ap (tick duration) (
                ticks-before duration (duration - 1) calls (omega arith) h
                ∙ ap (λ t. (t, calls)) {x = duration - (duration - 1)} {y = 1} (omega arith))
              ∙ tick_last duration calls)),
  λ n k. ticks-before duration n calls k h,
)

-- A duration that is converted to a finer unit, `k` times as fine, and back is as before, if it does not overflow.
pub convert-convert :
    (coarse k value : ℕ)
    → 0 < coarse
    → 0 < k
    → value * (coarse * k) < 2 ^ 64
    → (convert (coarse * k) coarse value ≡ value * k)
      × (convert coarse (coarse * k) (value * k) ≡ value)
unfolding convert
convert-convert coarse k value p q h =
    let e : value * (coarse * k) ≡ value * k * coarse =
      ap (λ t. value * t) (mul_comm coarse k) ∙ sym (mul_assoc value k coarse) in
    let pos : 0 < coarse * k = omega (arith, le-mul_of_pos_right coarse q) in
    (
      ap (λ t. t / coarse) (mod-eq_of_lt h ∙ e) ∙ mul-div_cancel (value * k) p,
      ap (λ t. t % 2 ^ 64 / (coarse * k)) (sym e)
          ∙ (ap (λ t. t / (coarse * k)) (mod-eq_of_lt h) ∙ mul-div_cancel value pos),
    )

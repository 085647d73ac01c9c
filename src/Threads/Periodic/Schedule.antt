-- ===== src/Threads/Periodic/Schedule.antt =====
-- The times at which a periodic thread wakes up.
use depos.Base.{ℕ, zero, suc, ◌+◌, ◌*◌, ◌<◌, ◌^◌, ◌≡◌, ◌∙◌, ap, arith, refl, update_self}
use depos.Utility.Time.{convert, add}
use depos.Threads.Periodic.{Periods, advance_period}

pub repeat_wait : ℕ → ℕ → Periods → Periods
repeat_wait zero t x = x
repeat_wait (suc n) t x = advance_period t (repeat_wait n t x)

period-repeat_wait : (n t : ℕ) (x : Periods) → (repeat_wait n t x).period ≡ x.period
unfolding repeat_wait advance_period
period-repeat_wait zero t x = refl
period-repeat_wait (suc n) t x = period-repeat_wait n t x

add-exact : (a b : ℕ) → a + b < 2 ^ 64 → b * 1000000 < 2 ^ 64 → add 1000000 1000000 a b ≡ a + b
unfolding add convert
add-exact a b h k = omega arith

-- Waiting does not drift: the deadline of the n-th round is n periods behind the first one, as long as it has 64 bits.
pub next-repeat_wait :
    (n t : ℕ) (x : Periods)
    → x.next t + n * x.period t < 2 ^ 64
    → x.period t * 1000000 < 2 ^ 64
    → (repeat_wait n t x).next t ≡ x.next t + n * x.period t
unfolding repeat_wait advance_period
next-repeat_wait zero t x h k = omega arith
next-repeat_wait (suc n) t x h k =
    let r = next-repeat_wait n t x (omega arith) k in
    let same = ap (λ f. f t) (period-repeat_wait n t x) in
    update_self (repeat_wait n t x).next t
      (add 1000000 1000000 ((repeat_wait n t x).next t) ((repeat_wait n t x).period t))
    ∙ ap (add 1000000 1000000 ((repeat_wait n t x).next t)) same
    ∙ ap (λ a. add 1000000 1000000 a (x.period t)) r
    ∙ add-exact (x.next t + n * x.period t) (x.period t) (omega arith) k
    ∙ (omega arith)

-- ===== src/Drivers/Clock/Pll0/Rate.antt =====
-- The rate that the generator is set to.
use depos.Base.{ℕ, ◌/◌, ◌%◌, ◌^◌, ◌<◌, ◌≡◌, ◌≢◌, ◌∙◌, ap, arith, some, refl}
use depos.Base.Bits.Field.{replaced}
use depos.Drivers.Registers.{set_field-at, set_field-ne}
use depos.Drivers.Clock.Pll0.{syscon, pd, prediv, fbdiv, postdiv1, dacpd, dsmpd, set_rate, rate}

rate_of_fields :
    (regs : ℕ → ℕ)
    → regs (syscon 24) / 2 ^ 24 % 2 ≡ 1
    → regs (syscon 24) / 2 ^ 25 % 2 ≡ 1
    → regs (syscon 36) % 64 ≡ 2
    → regs (syscon 28) % 4096 ≡ 125
    → regs (syscon 32) / 2 ^ 28 % 4 ≡ 0
    → rate regs ≡ some 1500000000
unfolding rate
rate_of_fields regs integer modulator pre feedback post =
    rw (integer, modulator, pre, feedback, post) refl

module _ (regs : ℕ → ℕ) where
  abbrev modes : ℕ → ℕ
  modes = dsmpd 1 (dacpd 1 (pd 1 regs))

  modes-at :
      regs (syscon 24) < 2 ^ 32
      → modes (syscon 24) ≡ replaced 25 1 (replaced 24 1 (regs (syscon 24)) 1) 1
  unfolding pd dacpd dsmpd
  modes-at h =
      let r1 = pd 1 regs in
      let e1 : r1 (syscon 24) ≡ regs (syscon 24) =
        set_field-ne (syscon 32) 27 1 1 regs (syscon 24) (omega arith) in
      let e2 = set_field-at (syscon 24) 24 1 1 r1 (omega arith) (omega (arith, e1)) (omega arith) in
      let e2' = e2 ∙ ap (λ (w : ℕ). replaced 24 1 w 1) e1 in
      set_field-at (syscon 24) 25 1 1 (dacpd 1 r1) (omega arith) (omega (arith, e2')) (omega arith)
      ∙ ap (λ (w : ℕ). replaced 25 1 w 1) e2'

  abbrev divided : ℕ → ℕ
  divided = fbdiv 125 (prediv 2 modes)

  module _ (address : ℕ) where
    -- what the last two writes, which are to one register, leave alone
    set_rate-ne : address ≢ syscon 32 → set_rate regs address ≡ divided address
    unfolding set_rate pd postdiv1
    set_rate-ne h =
        set_field-ne (syscon 32) 27 1 0 (postdiv1 0 divided) address h
        ∙ set_field-ne (syscon 32) 28 2 0 divided address h

    modes-ne : address ≢ syscon 32 → address ≢ syscon 24 → modes address ≡ regs address
    unfolding pd dacpd dsmpd
    modes-ne h k =
        set_field-ne (syscon 24) 25 1 1 (dacpd 1 (pd 1 regs)) address k
        ∙ (set_field-ne (syscon 24) 24 1 1 (pd 1 regs) address k
            ∙ set_field-ne (syscon 32) 27 1 1 regs address h)

    divided-ne : address ≢ syscon 28 → address ≢ syscon 36 → divided address ≡ modes address
    unfolding prediv fbdiv
    divided-ne h k =
        set_field-ne (syscon 28) 0 12 125 (prediv 2 modes) address h
        ∙ set_field-ne (syscon 36) 0 6 2 modes address k

  prediv-at : regs (syscon 36) < 2 ^ 32 → set_rate regs (syscon 36) % 64 ≡ 2
  unfolding prediv fbdiv
  prediv-at h =
      let e = modes-ne (syscon 36) (omega arith) (omega arith) in
      let f = set_field-at (syscon 36) 0 6 2 modes (omega arith) (omega (arith, e)) (omega arith) in
      let g = set_field-ne (syscon 28) 0 12 125 (prediv 2 modes) (syscon 36) (omega arith) in
      omega (arith, set_rate-ne (syscon 36) (omega arith) ∙ (g ∙ f))

  fbdiv-at : regs (syscon 28) < 2 ^ 32 → set_rate regs (syscon 28) % 4096 ≡ 125
  unfolding prediv fbdiv
  fbdiv-at h =
      let e =
        set_field-ne (syscon 36) 0 6 2 modes (syscon 28) (omega arith)
        ∙ modes-ne (syscon 28) (omega arith) (omega arith) in
      let f =
        set_field-at (syscon 28) 0 12 125 (prediv 2 modes) (omega arith) (omega (arith, e))
          (omega arith) in
      omega (arith, set_rate-ne (syscon 28) (omega arith) ∙ f)

  postdiv1-at : regs (syscon 32) < 2 ^ 32 → set_rate regs (syscon 32) / 2 ^ 28 % 4 ≡ 0
  unfolding set_rate pd postdiv1 dacpd dsmpd
  postdiv1-at h =
      let e =
        divided-ne (syscon 32) (omega arith) (omega arith)
        ∙ (set_field-ne (syscon 24) 25 1 1 (dacpd 1 (pd 1 regs)) (syscon 32) (omega arith)
            ∙ (set_field-ne (syscon 24) 24 1 1 (pd 1 regs) (syscon 32) (omega arith)
                ∙ set_field-at (syscon 32) 27 1 1 regs (omega arith) h (omega arith))) in
      let f =
        set_field-at (syscon 32) 28 2 0 divided (omega arith) (omega (arith, e)) (omega arith) in
      let g =
        set_field-at (syscon 32) 27 1 0 (postdiv1 0 divided) (omega arith) (omega (arith, e, f))
          (omega arith) in
      omega (arith, f, g)

  -- Whatever the registers held, the generator is at 1.5 GHz after its rate is set.
  pub rate-set_rate :
      ((address : ℕ) → regs address < 2 ^ 32) → rate (set_rate regs) ≡ some 1500000000
  rate-set_rate words =
      let e =
        set_rate-ne (syscon 24) (omega arith)
        ∙ (divided-ne (syscon 24) (omega arith) (omega arith) ∙ modes-at (words (syscon 24))) in
      rate_of_fields (set_rate regs) (omega (arith, e)) (omega (arith, e))
        (prediv-at (words (syscon 36))) (fbdiv-at (words (syscon 28)))
        (postdiv1-at (words (syscon 32)))

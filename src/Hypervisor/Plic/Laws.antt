-- ===== src/Hypervisor/Plic/Laws.antt =====
-- Which interrupt a claim takes, and what is active afterwards.
use depos.Base.{
  ◌∙◌, ◌≢◌, ℕ, zero, suc, ◌+◌, ◌-◌, ◌*◌, ◌/◌, ◌%◌, ◌<◌, ◌≤◌, ◌≡◌, ◌⊎◌, inl, inr, ◌==◌,
  if◌then◌else◌, Bool, true, false, ◌||◌, ◌&&◌, not, Option, none, some, update, arith, refl,
  Bool-cases, subst,
}
use depos.Hypervisor.Words.{bit, set_bit, clear_bit, bit-set_bit, bit-clear_bit}
use depos.Hypervisor.Plic.{Plic, active, first_bit, claim_at, claim_banks, claim, interrupt}

-- the first active interrupt of a bank from `from` on
abbrev pub IsFirst : (ℕ → Bool) → ℕ → ℕ → Option ℕ → Type 0
IsFirst test from end none = (i : ℕ) → from ≤ i → i < end → test i ≡ false
IsFirst test from end (some i) =
    (from ≤ i) × (i < end) × (test i ≡ true) × ((j : ℕ) → from ≤ j → j < i → test j ≡ false)

IsFirst-skip :
    (test : ℕ → Bool) (from end : ℕ) (o : Option ℕ)
    → test from ≡ false
    → IsFirst test (from + 1) end o
    → IsFirst test from end o
IsFirst-skip test from end none h f = λ i p q. elim (Bool-cases (i == from)) [
  | inl e ↦ subst (λ k. test k ≡ false) {x = from} {y = i} (ground arith) h
  | inr e ↦ f i (ground arith) q
]
IsFirst-skip test from end (some i) h (a, b, c, f) = (
  omega arith,
  b,
  c,
  λ j p q. elim (Bool-cases (j == from)) [
    | inl e ↦ subst (λ k. test k ≡ false) {x = from} {y = j} (ground arith) h
    | inr e ↦ f j (ground arith) q
  ],
)

module _ (p : Plic) (context bank : ℕ) where
  first_bit_step :
      (n : ℕ)
      → first_bit p context bank (suc n) ≡ (
          if active p context bank (32 - suc n)
          then some (32 - suc n)
          else first_bit p context bank n)
  unfolding first_bit
  first_bit_step n = refl

  first_bit-IsFirst :
      (n : ℕ) → n ≤ 32 → IsFirst (active p context bank) (32 - n) 32 (first_bit p context bank n)
  unfolding first_bit
  first_bit-IsFirst zero h = λ i a b. absurd (omega arith)
  first_bit-IsFirst (suc n) h = elim (Bool-cases (active p context bank (32 - suc n))) [
    | inl e ↦ rw e (omega arith, omega arith, e, λ j a b. absurd (omega arith))
    | inr e ↦ rw e (
        IsFirst-skip (active p context bank) (32 - suc n) 32 (first_bit p context bank n) e (
          subst (λ k. IsFirst (active p context bank) k 32 (first_bit p context bank n))
            (omega arith) (first_bit-IsFirst n (omega arith))))
  ]

-- What a claim from bank `from` on does: it takes the first active interrupt, or there is none.
abbrev pub Claims : Plic → ℕ → ℕ → ℕ × Plic → Type 0
Claims p context from (irq, p') =
    ((irq ≡ 0) × (p' ≡ p) × ((b i : ℕ) → from ≤ b → b < 32 → i < 32 → active p context b i ≡ false))
    ⊎ ((bank : ℕ) × (bit_of : ℕ) × (from ≤ bank)
        × (bank < 32)
        × (bit_of < 32)
        × (irq ≡ bank * 32 + bit_of)
        × (active p context bank bit_of ≡ true)
        × (p' ≡ record p { pending = update p.pending bank (clear_bit (p.pending bank) bit_of) })
        × ((b i : ℕ)
            → from ≤ b
            → b < 32
            → i < 32
            → b * 32 + i < irq
            → active p context b i ≡ false))

module _ (p : Plic) (context : ℕ) where
  Claims-skip :
      (from : ℕ) (r : ℕ × Plic)
      → ((i : ℕ) → 0 ≤ i → i < 32 → active p context from i ≡ false)
      → Claims p context (from + 1) r
      → Claims p context from r
  Claims-skip from r h (inl (a, b, f)) = inl (
    a,
    b,
    λ k i u v w. elim (Bool-cases (k == from)) [
      | inl e ↦
          subst (λ m. active p context m i ≡ false) {x = from} {y = k} (ground arith)
            (h i (omega arith) w)
      | inr e ↦ f k i (ground arith) v w
    ],
  )
  Claims-skip from r h (inr (bank, i', a, b, c, d, e, g, f)) = inr (
    bank,
    i',
    omega arith,
    b,
    c,
    d,
    e,
    g,
    λ k i u v w x. elim (Bool-cases (k == from)) [
      | inl z ↦
          subst (λ m. active p context m i ≡ false) {x = from} {y = k} (ground arith)
            (h i (omega arith) w)
      | inr z ↦ f k i (ground arith) v w x
    ],
  )

  Claims-here :
      (from : ℕ) (i : ℕ)
      → from < 32
      → IsFirst (active p context from) 0 32 (some i)
      → Claims p context from (
        from * 32 + i,
        record p { pending = update p.pending from (clear_bit (p.pending from) i) },
      )
  Claims-here from i h (a, b, c, f) = inr (
    from,
    i,
    omega arith,
    h,
    b,
    refl,
    c,
    refl,
    λ k j u v w x. elim (Bool-cases (k == from)) [
      | inl z ↦
          subst (λ m. active p context m j ≡ false) {x = from} {y = k} (ground arith)
            (f j (omega arith) (ground arith))
      | inr z ↦ absurd (ground arith)
    ],
  )

  claim_here :
      (from : ℕ) (o : Option ℕ) (r : ℕ × Plic)
      → from < 32
      → IsFirst (active p context from) 0 32 o
      → Claims p context (from + 1) r
      → Claims p context from (claim_at o from p r)
  unfolding claim_at
  claim_here from none r h f c = Claims-skip from r f c
  claim_here from (some i) r h f c = Claims-here from i h f

  claim_banks-Claims : (n : ℕ) → n ≤ 32 → Claims p context (32 - n) (claim_banks context n p)
  unfolding claim_banks
  claim_banks-Claims zero h = inl (refl, refl, λ b i u v w. absurd (omega arith))
  claim_banks-Claims (suc n) h =
      claim_here (32 - suc n) (first_bit p context (32 - suc n) 32) (claim_banks context n p)
        (omega arith) (first_bit-IsFirst p context (32 - suc n) 32 (omega arith))
        (subst (λ k. Claims p context k (claim_banks context n p)) (omega arith)
          (claim_banks-Claims n (omega arith)))

  -- `claim` answers the active interrupt with the lowest number and clears its bit, or answers 0 and
  -- changes nothing when no interrupt is active.
  pub claim-Claims : Claims p context 0 (claim context p)
  unfolding claim
  claim-Claims = claim_banks-Claims 32 (omega arith)

  cleared_active :
      (bank i' b i c' : ℕ)
      → active (record p { pending = update p.pending bank (clear_bit (p.pending bank) i') }) c' b i
        ≡ (active p c' b i && not ((b == bank) && (i' == i)))
  unfolding active
  cleared_active bank i' b i c' = ground (arith, bit-clear_bit (p.pending bank) i' i)

  not_zero : (b i c' : ℕ) → active p c' b i ≡ true → b * 32 + i ≢ 0
  unfolding active
  not_zero b i c' h e = ground arith

  cleared-Claims :
      (r : ℕ × Plic)
      → Claims p context 0 r
      → (c' b i : ℕ) → i < 32
      → active r.1 c' b i ≡ (active p c' b i && not (b * 32 + i == r.0))
  cleared-Claims (irq, p') (inl (e, f, g)) c' b i h = rw (e, f) (ground (arith, not_zero b i c'))
  cleared-Claims (irq, p') (inr (bank, i', u, v, w, e, a, f, g)) c' b i h =
      rw f (ground (arith, cleared_active bank i' b i c'))

  -- After a claim the claimed interrupt is not active in any context, and every other one is as before.
  pub claim-active :
      (c' b i : ℕ)
      → i < 32
      → active (claim context p).1 c' b i
        ≡ (active p c' b i && not (b * 32 + i == (claim context p).0))
  claim-active = cleared-Claims (claim context p) claim-Claims

or_of : (f : ℕ → Bool) (c : ℕ) → c < 2 → f c ≡ true → (f 0 || f 1) ≡ true
or_of f zero h e = rw e refl
or_of f (suc zero) h e = ground arith
or_of f (suc (suc c)) h e = absurd (omega arith)

interrupted : ℕ → Plic → Plic
interrupted id p = record p {
  pending = update p.pending (id / 32) (set_bit (p.pending (id / 32)) (id % 32));
  external = true;
}

interrupt_enabled :
    (p : Plic) (id c : ℕ)
    → c < 2
    → bit (p.enabled c (id / 32)) (id % 32) ≡ true
    → interrupt id p ≡ interrupted id p
unfolding interrupt interrupted
interrupt_enabled p id c hc e =
    let o = or_of (λ k. bit (p.enabled k (id / 32)) (id % 32)) c hc e in ground arith

interrupted-active :
    (p : Plic) (id c b i : ℕ)
    → active (interrupted id p) c b i ≡ (
        (((b == id / 32) && (i == id % 32)) || bit (p.pending b) i)
        && (bit (p.enabled c b) i && not ((b == 0) && (i == 0))))
unfolding interrupted active
interrupted-active p id c b i = ground (arith, bit-set_bit (p.pending (id / 32)) (id % 32) i)

-- An interrupt that a context has enabled is active there after `interrupt`, the virtual processor is told,
-- and no other interrupt changes.
pub interrupt-active :
    (p : Plic) (id c b i : ℕ)
    → c < 2
    → bit (p.enabled c (id / 32)) (id % 32) ≡ true
    → id ≢ 0
    → i < 32
    → (active (interrupt id p) c (id / 32) (id % 32) ≡ true)
      × ((interrupt id p).external ≡ true)
      × (b * 32 + i ≢ id → active (interrupt id p) c b i ≡ active p c b i)
unfolding active interrupted
interrupt-active p id c b i hc e ne hi = rw (interrupt_enabled p id c hc e) (
  interrupted-active p id c (id / 32) (id % 32) ∙ ground arith,
  refl,
  λ n. interrupted-active p id c b i ∙ ground arith,
)

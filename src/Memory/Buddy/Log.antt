-- ===== src/Memory/Buddy/Log.antt =====
-- `log2ceil` is the least power of two that holds a size.
use depos.Base.{
  ℕ, zero, suc, ◌+◌, ◌^◌, ◌≤◌, ◌<◌, ◌≡◌, refl, inl, inr, some, ltb, Bool-cases, arith, ltb→lt,
  ltb_false→le, le→ltb_false,
}
use depos.Memory.Buddy.{log2ceil_from, log2ceil}
use native.Mathlib.Decide.{ℕ_discrete}

-- `l` is the least number with `size ≤ 2 ^ l`.
pub record IsLog (size l : ℕ) : Type 0 where
  pub holds : size ≤ 2 ^ l
  pub least : (j : ℕ) → j < l → 2 ^ j < size

below_suc :
    (l size : ℕ)
    → ((j : ℕ) → j < l → 2 ^ j < size)
    → 2 ^ l < size
    → (j : ℕ) → j < l + 1
    → 2 ^ j < size
below_suc l size below last j h = elim (ℕ_discrete j l) [
  | yes e ↦ rw e last
  | no ne ↦ below j (omega arith)
]

log2ceil_from-IsLog :
    (k l size : ℕ)
    → l + suc k ≡ 64
    → size ≤ 2 ^ 63
    → ((j : ℕ) → j < l → 2 ^ j < size)
    → (r : ℕ) × (log2ceil_from (suc k) l size ≡ some r) × IsLog size r
unfolding log2ceil_from
log2ceil_from-IsLog zero l size e h below =
    let e' : l ≡ 63 = omega arith in
    (l, rw (e', le→ltb_false _ _ h), record { holds = rw e' h; least = below })
log2ceil_from-IsLog (suc k) l size e h below = elim (Bool-cases (ltb (2 ^ l) size)) [
  | inl more ↦
      let (r, eq, is) =
        log2ceil_from-IsLog k (l + 1) size (omega arith) h
          (below_suc l size below (ltb→lt _ _ more)) in
      (r, rw more eq, is)
  | inr done ↦ (l, rw done, record { holds = ltb_false→le _ _ done; least = below })
]

-- For every size up to 2 ^ 63 the loop ends before a shift by 64, with the least power of two that
-- is not below the size.
pub log2ceil-IsLog : (size : ℕ) → size ≤ 2 ^ 63 → (r : ℕ) × (log2ceil size ≡ some r) × IsLog size r
unfolding log2ceil
log2ceil-IsLog size h = log2ceil_from-IsLog 63 0 size refl h (λ j lt. absurd (omega arith))

-- a page of 4096 bytes
pub log2ceil_page : log2ceil 4096 ≡ some 12
unfolding log2ceil log2ceil_from
log2ceil_page = refl

-- ===== src/Memory/Chunk/Laws.antt =====
-- The tests on chunks decide what holds of the bytes that they stand for.
use depos.Base.{ℕ, ◌+◌, ◌-◌, ◌^◌, ◌<◌, ◌≡◌, ◌↔◌, inl, inr, true, Bool-cases, ltb, arith}
use depos.Memory.Chunk.{Chunk, contains, contains_chunk, overlaps}

-- The end of the chunk is no address that wraps round.
pub record Fits (c : Chunk) : Type 0 where
  pub no_wrap : c.start + c.size < 2 ^ 64

-- Two chunks that hold something overlap exactly when some byte lies in both.
pub overlaps_iff :
    (a b : Chunk)
    → Fits a
    → Fits b
    → 0 < a.size
    → 0 < b.size
    → (overlaps a b ≡ true) ↔ ((x : ℕ) × (contains a x ≡ true) × (contains b x ≡ true))
unfolding overlaps contains
overlaps_iff a b fa fb pa pb = (
  λ h. elim (Bool-cases (ltb a.start b.start)) [
    | inl less ↦ (b.start, ground arith, ground arith)
    | inr more ↦ (a.start, ground arith, ground arith)
  ],
  λ (x, ha, hb). ground arith,
)

-- A chunk contains another that holds something exactly when it contains each of its bytes.
pub contains_chunk_iff :
    (a b : Chunk)
    → Fits a
    → Fits b
    → 0 < b.size
    → (contains_chunk a b ≡ true) ↔ ((x : ℕ) → contains b x ≡ true → contains a x ≡ true)
unfolding contains_chunk contains
contains_chunk_iff a b fa fb pb =
    (λ h x hx. ground arith, λ h. ground (arith, h b.start, h (b.start + b.size - 1)))

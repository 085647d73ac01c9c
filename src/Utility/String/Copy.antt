-- ===== src/Utility/String/Copy.antt =====
-- What `memcpy` and `memset` leave in the memory.
use depos.Base.{
  ap, ℕ, zero, suc, ◌+◌, ◌-◌, ◌%◌, ◌≤◌, ◌≡◌, ◌⊎◌, inl, inr, ◌&&◌, ltb, leb, if◌then◌else◌, update,
  arith,
}
use depos.Utility.String.{memcpy, memset}

-- A region is copied whole where its destination is not behind its start within it, overlapping or not,
-- and the rest of the memory is as before.
pub memcpy-copies :
    (n d s : ℕ) (memory : ℕ → ℕ)
    → (d ≤ s) ⊎ (s + n ≤ d)
    → (a : ℕ)
    → memcpy d s n memory a ≡ (if leb d a && ltb a (d + n) then memory (s + (a - d)) else memory a)
unfolding memcpy
memcpy-copies zero d s memory h a = ground arith
memcpy-copies (suc n) d s memory h a =
    let h' : (d + 1 ≤ s + 1) ⊎ (s + 1 + n ≤ d + 1) = elim h [
      | inl p ↦ inl (omega arith)
      | inr p ↦ inr (omega arith)
    ] in
    let e : d + 1 ≤ a → memory (s + 1 + (a - (d + 1))) ≡ memory (s + (a - d)) =
      λ p. ap memory (omega arith) in
    let z : a ≡ d → memory (s + (a - d)) ≡ memory s = λ p. ap memory (omega arith) in
    ground (arith, memcpy-copies n (d + 1) (s + 1) (update memory d (memory s)) h' a)

-- `memset` fills the region with the low byte of its argument, and nothing else.
pub memset-fills :
    (n d c : ℕ) (memory : ℕ → ℕ) (a : ℕ)
    → memset d c n memory a ≡ (if leb d a && ltb a (d + n) then c % 256 else memory a)
unfolding memset
memset-fills zero d c memory a = ground arith
memset-fills (suc n) d c memory a =
    ground (arith, memset-fills n (d + 1) c (update memory d (c % 256)) a)

-- ===== src/Memory/Buddy/Aligned.antt =====
-- Alignment of the free blocks, and where the buddy of a block lies.
use depos.Base.{
  ℕ, suc, ◌+◌, ◌*◌, ◌-◌, ◌/◌, ◌%◌, ◌^◌, ◌≡◌, ◌⊎◌, List, [], ◌∷◌, ◌==◌, update, update_self,
  update_ne, erase, arith, Bool-cases, inl, inr, ap,
}
use depos.Base.Bits.{bit_xor-pow, bit_xor-one}
use depos.Memory.Buddy.{Free, buddy}
use native.Mathlib.Nat.{pow-suc}
use native.Mathlib.Decide.{ℕ_discrete}

abbrev pub Aligned : ℕ → ℕ → Type 0
Aligned size a = (q : ℕ) × (a ≡ q * size)

abbrev pub AllAligned : ℕ → List ℕ → Type 0
AllAligned size [] = Unit
AllAligned size (x ∷ xs) = Aligned size x × AllAligned size xs

pub AllAligned-erase :
    (size a : ℕ) (xs : List ℕ) → AllAligned size xs → AllAligned size (erase a xs)
unfolding erase
AllAligned-erase size a [] h = h
AllAligned-erase size a (x ∷ xs) h = elim (Bool-cases (x == a)) [
  | inl e ↦ rw e h.1
  | inr e ↦ rw e (h.0, AllAligned-erase size a xs h.1)
]

-- Every block of bucket `n` starts at a multiple of its size.
abbrev pub IsAligned : ℕ → Free → Type 0
IsAligned minimum free = (n : ℕ) → AllAligned (2 ^ (n + minimum)) (free n)

pub IsAligned-update :
    (minimum : ℕ) (free : Free) (n : ℕ) (xs : List ℕ)
    → IsAligned minimum free
    → AllAligned (2 ^ (n + minimum)) xs
    → IsAligned minimum (update free n xs)
IsAligned-update minimum free n xs h hx m = elim (ℕ_discrete m n) [
  | yes e ↦ rw (e, update_self free n xs) hx
  | no ne ↦ rw (update_ne free n xs m ne) (h m)
]

pub two-pow-suc : (n minimum : ℕ) → 2 ^ (n + 1 + minimum) ≡ 2 * 2 ^ (n + minimum)
two-pow-suc n minimum =
    let e : n + 1 + minimum ≡ suc (n + minimum) = omega arith in
    rw e (omega (arith, pow-suc 2 (n + minimum)))

-- The buddy of the even block `2 * q` is the odd one behind it, and the other way round.
pub buddy-mul :
    (minimum n q : ℕ)
    → buddy minimum (q * 2 ^ (n + minimum)) n ≡ (q / 2 * 2 + (1 - q % 2)) * 2 ^ (n + minimum)
unfolding buddy
buddy-mul minimum n q = rw (bit_xor-pow (n + minimum) q, bit_xor-one q)

times_even :
    (q size : ℕ)
    → q % 2 ≡ 0
    → (q * size ≡ q / 2 * (2 * size))
      × ((q / 2 * 2 + (1 - q % 2)) * size ≡ q / 2 * (2 * size) + size)
times_even q size h =
    let e : q ≡ q / 2 * 2 = omega arith in
    let f : q / 2 * 2 + (1 - q % 2) ≡ q / 2 * 2 + 1 = omega arith in
    (omega (arith, ap (λ (t : ℕ). t * size) e), omega (arith, ap (λ (t : ℕ). t * size) f))

times_odd :
    (q size : ℕ)
    → q % 2 ≡ 1
    → (q * size ≡ q / 2 * (2 * size) + size)
      × ((q / 2 * 2 + (1 - q % 2)) * size ≡ q / 2 * (2 * size))
times_odd q size h =
    let e : q ≡ q / 2 * 2 + 1 = omega arith in
    let f : q / 2 * 2 + (1 - q % 2) ≡ q / 2 * 2 = omega arith in
    (omega (arith, ap (λ (t : ℕ). t * size) e), omega (arith, ap (λ (t : ℕ). t * size) f))

-- Both blocks of a pair lie in the block of twice their size at the lower of the two addresses.
pub buddy_pair :
    (minimum n q : ℕ)
    → let a = q * 2 ^ (n + minimum) in
      let b = buddy minimum a n in
      let low = q / 2 * 2 ^ (n + 1 + minimum) in
      ((a ≡ low) × (b ≡ low + 2 ^ (n + minimum))) ⊎ ((b ≡ low) × (a ≡ low + 2 ^ (n + minimum)))
buddy_pair minimum n q =
    rw (two-pow-suc n minimum, buddy-mul minimum n q)
      (elim (ℕ_discrete (q % 2) 0) [
        | yes e ↦ inl (times_even q (2 ^ (n + minimum)) e)
        | no ne ↦ let (a, b) = times_odd q (2 ^ (n + minimum)) (omega arith) in inr (b, a)
      ])

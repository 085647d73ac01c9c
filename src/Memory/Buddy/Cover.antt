-- ===== src/Memory/Buddy/Cover.antt =====
-- How many free blocks cover a byte: what an allocator's free lists mean.
use depos.Base.{
  ℕ, zero, suc, ◌+◌, ◌*◌, ◌^◌, ◌≤◌, ◌<◌, ◌≡◌, refl, ◌&&◌, List, [], ◌∷◌, ltb, leb, if◌then◌else◌,
  update, ◌∈◌, erase, arith,
}
use depos.Memory.Buddy
use depos.Memory.Buddy.{Free}
use native.Mathlib.Decide.{ℕ_discrete}

-- 1 for a byte of the block of `size` bytes at `a`, else 0
abbrev pub byte_in : ℕ → ℕ → ℕ → ℕ
byte_in size a x = if leb a x && ltb x (a + size) then 1 else 0

abbrev pub cover_list : ℕ → List ℕ → ℕ → ℕ
cover_list size [] x = 0
cover_list size (a ∷ ys) x = byte_in size a x + cover_list size ys x

-- Two adjacent blocks make up one of twice the size.
pub byte_in-double :
    (size a x : ℕ) → byte_in (2 * size) a x ≡ byte_in size a x + byte_in size (a + size) x
byte_in-double size a x = ground arith

pub cover_list-erase :
    (size a : ℕ) (ys : List ℕ) (x : ℕ)
    → a ∈ ys
    → cover_list size (erase a ys) x + byte_in size a x ≡ cover_list size ys x
unfolding erase
cover_list-erase size a [] x h = cc
cover_list-erase size a (b ∷ ys) x h = ground (arith, cover_list-erase size a ys x)

module _ (minimum : ℕ) where
  -- the free blocks of the first `m` buckets that hold the byte `x`
  abbrev pub cover_upto : ℕ → Free → ℕ → ℕ
  cover_upto zero free x = 0
  cover_upto (suc m) free x = cover_upto m free x + cover_list (2 ^ (m + minimum)) (free m) x

  pub cover-update_out :
      (m n : ℕ) (free : Free) (ys : List ℕ) (x : ℕ)
      → m ≤ n
      → cover_upto m (update free n ys) x ≡ cover_upto m free x
  cover-update_out zero n free ys x h = refl
  cover-update_out (suc m) n free ys x h = ground (arith, cover-update_out m n free ys x)

  -- Replacing one free list exchanges what it covers.
  pub cover-update :
      (m n : ℕ) (free : Free) (ys : List ℕ) (x : ℕ)
      → n < m
      → cover_upto m (update free n ys) x + cover_list (2 ^ (n + minimum)) (free n) x
        ≡ cover_upto m free x + cover_list (2 ^ (n + minimum)) ys x
  cover-update zero n free ys x h = absurd (omega arith)
  cover-update (suc m) n free ys x h = elim (ℕ_discrete n m) [
    | yes e ↦ ground (arith, cover-update_out m n free ys x)
    | no ne ↦ ground (arith, cover-update m n free ys x)
  ]

  pub cover-empty : (m x : ℕ) → cover_upto m Buddy.empty x ≡ 0
  cover-empty zero x = refl
  cover-empty (suc m) x = omega (arith, cover-empty m x)

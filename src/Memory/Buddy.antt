-- ===== src/Memory/Buddy.antt =====
-- include/memory/allocators/Buddy.hpp, for every MINIMUM and MAXIMUM. A free list stands for the
-- addresses of its nodes, the head first, as `Collections.UnorderedList.Laws` shows of the list
-- itself: `remove()` takes the head, `insert` puts in front, `remove(node)` deletes the node.
-- The outer `none` is a failed `assert` or undefined behaviour (a shift by 64, a bucket beyond the
-- array).
pub mod Log
pub mod Cover
pub mod Aligned
pub mod Merge
pub mod Split
pub mod Laws
pub mod Contract
use mathlib.Core.Option
use depos.Base.{
  ℕ, zero, suc, ◌+◌, ◌-◌, ◌^◌, bit_and, bit_xor, Bool, ◌||◌, not, Option, none, some, List, [], ◌∷◌,
  ltb, ◌==◌, if◌then◌else◌, update, has, erase,
}

-- `free_`
abbrev pub Free : Type 0
Free = ℕ → List ℕ

-- the constructor
abbrev pub empty : Free
empty n = []

-- `while ((1ULL << l) < size) l++`: the fuel is the number of shifts left below 64
unfoldable pub log2ceil_from : ℕ → ℕ → ℕ → Option ℕ
log2ceil_from zero l size = none
log2ceil_from (suc k) l size =
    let rest = log2ceil_from k (l + 1) size in if ltb (2 ^ l) size then rest else some l

unfoldable pub log2ceil : ℕ → Option ℕ
log2ceil size = log2ceil_from 64 0 size

-- `for (; i <= Maximum; ++i)`, with `Maximum + 1 - i` rounds left
unfoldable pub take_first : ℕ → ℕ → Free → Option (ℕ × ℕ × Free)
take_first zero i free = none
take_first (suc rounds) i free = elim (free i) [
  | [] ↦ take_first rounds (i + 1) free
  | x ∷ xs ↦ some (x, i, update free i xs)
]

-- `minimum` is MINIMUM
module _ (minimum : ℕ) where
  -- `b < Minimum ? Minimum : b`, less Minimum
  abbrev pub bucket_of : ℕ → ℕ
  bucket_of b = (if ltb b minimum then minimum else b) - minimum

  unfoldable pub bucket : ℕ → Option ℕ
  bucket size = Option.map bucket_of (log2ceil size)

  unfoldable pub buddy : ℕ → ℕ → ℕ
  buddy address n = bit_xor address (2 ^ (n + minimum))

  -- `while (i > n)`, with `i - n` rounds left
  unfoldable pub split : ℕ → ℕ → ℕ → Free → Free
  split n node zero free = free
  split n node (suc d) free =
      split n node d (update free (n + d) (buddy node (n + d) ∷ free (n + d)))

  -- `while (n < Maximum)`, with `Maximum - n` rounds left: the address and bucket where it stops.
  -- The list's `remove` asserts that the buddy is not null.
  pub merge : ℕ → ℕ → ℕ → Free → Option (ℕ × ℕ × Free)
  merge zero address n free = some (address, n, free)
  merge (suc d) address n free =
      let b = buddy address n in
      let rest =
        merge d (if ltb b address then b else address) (n + 1) (update free n (erase b (free n))) in
      if b == 0 then none else if has b (free n) then rest else some (address, n, free)

-- `last` is the class constant Maximum, MAXIMUM - MINIMUM
module _ (minimum last : ℕ) where
  unfoldable pub remove_from : ℕ → Free → Option ℕ × Free
  remove_from n free = elim (take_first (last + 1 - n) n free) [
    | none ↦ (none, free)
    | some (node, i, free') ↦ (some node, split minimum n node (i - n) free')
  ]

  -- `remove`: the inner `none` is the null pointer
  unfoldable pub remove : ℕ → Free → Option (Option ℕ × Free)
  remove size free = Option.map (λ n. remove_from n free) (bucket minimum size)

  pub insert_at : ℕ → ℕ → Free → Option Free
  insert_at address n free =
      if ltb last n then none else elim (merge minimum (last - n) address n free) [
        | none ↦ none
        | some (a, m, free') ↦ if a == 0 then none else some (update free' m (a ∷ free' m))
      ]

  -- `insert`; its mask is an `int`, whose shift does not overflow for sizes up to 2 ^ 30, the greatest order of the machines
  pub insert : ℕ → ℕ → Free → Option Free
  insert address size free = elim (log2ceil size) [
    | none ↦ none
    | some l ↦
        if (size == 0) || not (bit_and address (2 ^ l - 1) == 0)
        then none
        else insert_at address (bucket_of minimum l) free
  ]

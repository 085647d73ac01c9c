-- ===== src/Collections/OrderedList/Sorted.antt =====
-- Insertions into a sorted list.
use depos.Base.{ℕ, ◌≤◌, ◌≡◌, ◌==◌, ltb, ◌||◌, Bool-cases, inl, inr, List, [], ◌∷◌, has, ◌∈◌, arith}
use depos.Collections.{Ptr}
use depos.Collections.OrderedList.Insertion.{insert_sorted}

module _ (criterion : Ptr → ℕ) where
  abbrev pub IsBelow : ℕ → List Ptr → Type 0
  IsBelow c xs = (a : Ptr) → a ∈ xs → c ≤ criterion a

  abbrev pub IsSorted : List Ptr → Type 0
  IsSorted [] = Unit
  IsSorted (x ∷ xs) = IsBelow (criterion x) xs × IsSorted xs

  pub has-insert_sorted :
      (a node : Ptr) (xs : List Ptr)
      → has a (insert_sorted criterion node xs) ≡ ((a == node) || has a xs)
  unfolding insert_sorted
  has-insert_sorted a node [] = ground arith
  has-insert_sorted a node (x ∷ xs) = ground (arith, has-insert_sorted a node xs)

  -- An insertion leaves a sorted list.
  pub insert_sorted-IsSorted :
      (node : Ptr) (xs : List Ptr) → IsSorted xs → IsSorted (insert_sorted criterion node xs)
  unfolding insert_sorted
  insert_sorted-IsSorted node [] s = (λ a m. ground arith, tt)
  insert_sorted-IsSorted node (x ∷ xs) s = elim (Bool-cases (ltb (criterion node) (criterion x))) [
    | inl less ↦ rw less (λ a m. ground (arith, s.0 a), s)
    | inr more ↦ rw more (
      λ a m. ground (arith, s.0 a, has-insert_sorted a node xs),
      insert_sorted-IsSorted node xs s.1,
    )
  ]

-- ===== src/Collections/OrderedList/Chain.antt =====
-- Nodes that are linked in both directions.
use depos.Base.{◌≡◌, ◌≢◌, refl, ◌==◌, List, [], ◌∷◌, update, ◌∈◌, ◌∉◌, arith, if◌then◌else◌}
use depos.Collections.{Ptr, null, Links}
use depos.Collections.OrderedList.{OrderedList, Nodes}

-- From `p`, which comes behind `before`, the links lead through the distinct nodes `xs` to `tail`,
-- and `previous` leads back.
abbrev pub Linked : Links → Links → Ptr → Ptr → List Ptr → Ptr → Type 0
Linked next previous before p [] tail = (p ≡ null) × (tail ≡ before)
Linked next previous before p (x ∷ xs) tail =
    (p ≡ x)
    × (x ≢ null)
    × (x ∉ xs)
    × (previous x ≡ before)
    × Linked next previous x (next x) xs tail

abbrev pub IsList : OrderedList → Nodes → List Ptr → Type 0
IsList l n xs = Linked n.next n.previous null l.head xs l.tail

pub Linked-frame :
    (next previous next' previous' : Links) (before p : Ptr) (xs : List Ptr) (tail : Ptr)
    → Linked next previous before p xs tail
    → ((a : Ptr) → a ∈ xs → next' a ≡ next a)
    → ((a : Ptr) → a ∈ xs → previous' a ≡ previous a)
    → Linked next' previous' before p xs tail
Linked-frame next previous next' previous' before p [] tail c same back = c
Linked-frame next previous next' previous' before p (x ∷ xs) tail c same back = (
  c.0,
  c.1,
  c.2,
  ground (arith, back x),
  ground (
    arith,
    same x,
    Linked-frame next previous next' previous' x (next x) xs tail c.4 (λ a m. same a (ground arith))
        (λ a m. back a (ground arith)),
  ),
)

pub null-not_mem :
    (next previous : Links) (before p : Ptr) (xs : List Ptr) (tail : Ptr)
    → Linked next previous before p xs tail
    → null ∉ xs
null-not_mem next previous before p [] tail c = refl
null-not_mem next previous before p (x ∷ xs) tail c =
    ground (arith, null-not_mem next previous x (next x) xs tail c.4)

-- The last node.
pub tail-mem :
    (next previous : Links) (before p : Ptr) (xs : List Ptr) (tail : Ptr)
    → Linked next previous before p xs tail
    → tail ∈ before ∷ xs
tail-mem next previous before p [] tail c = ground arith
tail-mem next previous before p (x ∷ xs) tail c =
    ground (arith, tail-mem next previous x (next x) xs tail c.4)

-- A list behind another node: the first node is written, or the tail.
pub Linked-before :
    (next previous : Links) (before before' p : Ptr) (xs : List Ptr) (tail : Ptr)
    → Linked next previous before p xs tail
    → Linked next
        (if p == null then previous else update previous p before')
        before'
        p
        xs
        (if p == null then before' else tail)
Linked-before next previous before before' p [] tail c = ground arith
Linked-before next previous before before' p (x ∷ xs) tail c =
    let rest =
      Linked-frame next previous next (update previous x before') x (next x) xs tail c.4
        (λ a m. refl) (λ a m. ground arith) in
    ground (arith, rest)

-- The first node.
pub first-mem :
    (next previous : Links) (before p : Ptr) (xs : List Ptr) (tail : Ptr)
    → Linked next previous before p xs tail
    → p ∈ null ∷ xs
first-mem next previous before p [] tail c = ground arith
first-mem next previous before p (x ∷ xs) tail c = ground arith

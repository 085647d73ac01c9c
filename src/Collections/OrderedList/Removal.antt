-- ===== src/Collections/OrderedList/Removal.antt =====
-- `remove()` and `remove(node)` of an ordered list.
use depos.Base.{
  erase-absent, sym, subst, ◌⊎◌, ◌≡◌, ◌≢◌, refl, inl, inr, ◌==◌, Bool, List, [], ◌∷◌, Bool-cases,
  update, has, ◌∈◌, ◌∉◌, arith, if◌then◌else◌, eq-cases, erase, not_mem-erase,
}
use depos.Collections.{Ptr, null, Links}
use depos.Collections.OrderedList.{OrderedList, Nodes, remove, remove_node, unlink_back}
use depos.Collections.OrderedList.Chain.{
  first-mem, Linked, IsList, Linked-frame, Linked-before, null-not_mem, tail-mem,
}

-- `remove()` on an empty list is the null pointer and changes nothing. On any other list it takes
-- the first node, clears its links, and leaves a list of the others; the links of the nodes off the list stay as
-- they are.
abbrev pub Removes : OrderedList → Nodes → List Ptr → Ptr × OrderedList × Nodes → Type 0
Removes l n [] answer = answer ≡ (null, l, n)
Removes l n (x ∷ xs) (p, l', n') =
    (p ≡ x)
    × IsList l' n' xs
    × (n'.next x ≡ null)
    × (n'.previous x ≡ null)
    × ((a : Ptr) → a ∉ x ∷ xs → (n'.next a ≡ n.next a) × (n'.previous a ≡ n.previous a))

pub remove-Removes :
    (l : OrderedList) (n : Nodes) (xs : List Ptr) → IsList l n xs → Removes l n xs (remove l n)
unfolding remove
remove-Removes l n [] c = ground arith
remove-Removes l n (x ∷ xs) c =
    let next' = update n.next x null in
    let head' = n.next x in
    let previous' = if head' == null then n.previous else update n.previous head' null in
    let c' = Linked-before n.next n.previous x null head' xs l.tail c.4 in
    let rest =
      Linked-frame n.next previous' next' (update previous' x null) null head' xs
        (if head' == null then null else l.tail) c' (λ a m. ground arith) (λ a m. ground arith) in
    let first = first-mem n.next n.previous x head' xs l.tail c.4 in
    (ground arith, ground (arith, rest), ground arith, ground arith, λ a o. ground (arith, first))

abbrev next_without : Links → Links → Ptr → Links
next_without next previous node = update next (previous node) (next node)

abbrev previous_without : Links → Links → Ptr → Ptr → Links
previous_without next previous node tail =
    if (node == tail)
    then previous
    else (if next node == null then previous else update previous (next node) (previous node))

-- A node behind another one is unlinked.
record Unlinked (next previous : Links) (node before : Ptr) (xs : List Ptr) (tail : Ptr)
    : Type 0 where
  among : previous node ∈ before ∷ xs
  beyond : next node ∈ null ∷ xs
  chain :
      Linked
        (next_without next previous node)
        (previous_without next previous node tail)
        before
        (next_without next previous node before)
        (erase node xs)
        (if node == tail then previous node else tail)

-- What is left of a list without its first node.
Linked-tail :
    (next previous : Links) (x before : Ptr) (xs : List Ptr) (tail : Ptr)
    → before ≢ null
    → before ∉ x ∷ xs
    → Linked next previous before x (x ∷ xs) tail
    → Linked
        (next_without next previous x)
        (previous_without next previous x tail)
        before
        (next x)
        xs
        (if x == tail then before else tail)
Linked-tail next previous x before [] tail ne out c = ground arith
Linked-tail next previous x before (y ∷ ys) tail ne out c =
    let last = tail-mem next previous y (next y) ys tail c.4.4 in
    let c' = Linked-before next previous x before (next x) (y ∷ ys) tail c.4 in
    let rest =
      Linked-frame next (update previous y before) (update next before y) (update previous y before)
        before (next x) (y ∷ ys) tail (ground arith) (λ a m. ground arith) (λ a m. refl) in
    ground (arith, rest)

Unlinked-intro :
    (next previous : Links) (node before p : Ptr) (xs : List Ptr) (tail : Ptr)
    → before ≢ null
    → before ∉ xs
    → next before ≡ p
    → Linked next previous before p xs tail
    → node ∈ xs
    → Unlinked next previous node before xs tail
unfolding erase
Unlinked-intro next previous node before p [] tail ne out e c m = cc
Unlinked-intro next previous node before p (x ∷ xs) tail ne out e c m = elim (eq-cases node x) [
  | inl hit ↦ record {
    among = ground arith;
    beyond = ground (arith, first-mem next previous x (next x) xs tail c.4);
    chain = ground (arith, Linked-tail next previous x before xs tail ne out);
  }
  | inr miss ↦
      let r =
        Unlinked-intro next previous node x (next x) xs tail (ground arith) (ground arith) refl
          (ground arith) (ground arith) in
      record {
        among = ground (arith, r.among);
        beyond = ground (arith, r.beyond);
        chain = ground (arith, r.chain, r.among, r.beyond, not_mem-erase x node xs);
      }
]

abbrev pub LosesNode : Ptr → List Ptr → Bool × OrderedList × Nodes → Type 0
LosesNode node xs (found, l', n') = (found ≡ has node xs) × IsList l' n' (erase node xs)

remove_node-head :
    (l : OrderedList) (n : Nodes) (x : Ptr) (xs : List Ptr)
    → IsList l n (x ∷ xs)
    → LosesNode x (x ∷ xs) (remove_node x l n)
unfolding remove_node unlink_back erase
remove_node-head l n x [] c = ground arith
remove_node-head l n x (y ∷ ys) c =
    let last = tail-mem n.next n.previous y (n.next y) ys l.tail c.4.4 in
    let c' = Linked-before n.next n.previous x null (n.next x) (y ∷ ys) l.tail c.4 in
    ground (arith, c', last)

remove_node-behind :
    (l : OrderedList) (n : Nodes) (x : Ptr) (xs : List Ptr) (node : Ptr)
    → IsList l n (x ∷ xs)
    → node ≢ x
    → node ∈ xs
    → LosesNode node (x ∷ xs) (remove_node node l n)
unfolding remove_node unlink_back erase
remove_node-behind l n x xs node c ne m =
    let r = Unlinked-intro n.next n.previous node x (n.next x) xs l.tail c.1 c.2 refl c.4 m in
    let zero = null-not_mem n.next n.previous null l.head (x ∷ xs) l.tail c in
    ground (arith, r.chain, r.among, r.beyond, zero, not_mem-erase x node xs)

-- `remove(node)` on a list that is linked in both directions, for a node that is on the list or has
-- no previous node, answers whether the node was on the list, and leaves a list without it that
-- keeps the order of the others.
pub remove_node-LosesNode :
    (l : OrderedList) (n : Nodes) (xs : List Ptr) (node : Ptr)
    → IsList l n xs
    → node ≢ null
    → (node ∈ xs) ⊎ (n.previous node ≡ null)
    → LosesNode node xs (remove_node node l n)
unfolding remove_node unlink_back erase
remove_node-LosesNode l n [] node c ne on = ground arith
remove_node-LosesNode l n (x ∷ xs) node c ne on = elim (eq-cases node x) [
  | inl hit ↦
      subst (λ a. LosesNode a (x ∷ xs) (remove_node a l n)) (sym hit) (remove_node-head l n x xs c)
  | inr miss ↦ elim (Bool-cases (has node xs)) [
    | inl m ↦ remove_node-behind l n x xs node c miss m
    | inr out ↦ ground (arith, erase-absent node xs out)
  ]
]

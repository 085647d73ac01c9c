-- ===== src/Collections/OrderedList/Insertion.antt =====
-- `insert` of an ordered list is the insertion into a sorted list, behind the equal nodes.
use depos.Base.{
  ℕ, zero, suc, ◌<◌, ◌≤◌, ◌≡◌, ◌≢◌, inl, inr, ◌==◌, ltb, some, List, [], ◌∷◌, Bool-cases, update,
  ◌∈◌, ◌∉◌, length, arith, if◌then◌else◌,
}
use depos.Collections.{Ptr, null, Links}
use depos.Collections.OrderedList.{OrderedList, Nodes, nodes, ordered_list, walk, link, insert}
use depos.Collections.OrderedList.Chain.{Linked, IsList, Linked-frame, null-not_mem}

module _ (criterion : Ptr → ℕ) where
  -- before the first node with a larger criterion
  unfoldable pub insert_sorted : Ptr → List Ptr → List Ptr
  insert_sorted node [] = node ∷ []
  insert_sorted node (x ∷ xs) =
      if ltb (criterion node) (criterion x) then node ∷ x ∷ xs else x ∷ insert_sorted node xs

  pub not_mem-insert_sorted :
      (a node : Ptr) (xs : List Ptr) → a ≢ node → a ∉ xs → a ∉ insert_sorted node xs
  unfolding insert_sorted
  not_mem-insert_sorted a node [] ne h = ground arith
  not_mem-insert_sorted a node (x ∷ xs) ne h = ground (arith, not_mem-insert_sorted a node xs ne)

  abbrev next_after : Links → Ptr → Ptr → Links
  next_after next node stop = update (update next node (next stop)) stop node

  abbrev previous_after : Links → Links → Ptr → Ptr → Links
  previous_after next previous node stop =
      if next stop == null
      then update previous node stop
      else update (update previous node stop) (next stop) node

  -- The loop stops at a node of the list, and linking behind it leaves the insertion.
  record Walked (k : ℕ) (next previous : Links) (node before x : Ptr) (xs : List Ptr) (tail : Ptr)
      : Type 0 where
    stop : Ptr
    walks : walk criterion k next node x ≡ some stop
    among : stop ∈ x ∷ xs
    beyond : next stop ∈ null ∷ xs
    chain :
        Linked
          (next_after next node stop)
          (previous_after next previous node stop)
          before
          x
          (x ∷ insert_sorted node xs)
          (if next stop == null then node else tail)

  walk-Walked :
      (k : ℕ) (next previous : Links) (node before x : Ptr) (xs : List Ptr) (tail : Ptr)
      → node ≢ null
      → node ∉ x ∷ xs
      → before ∉ x ∷ xs
      → Linked next previous before x (x ∷ xs) tail
      → length xs < k
      → Walked k next previous node before x xs tail
  unfolding walk insert_sorted
  walk-Walked zero next previous node before x xs tail ne out fresh c h = absurd (omega arith)
  walk-Walked (suc k) next previous node before x [] tail ne out fresh c h = record {
    stop = x;
    walks = ground arith;
    among = ground arith;
    beyond = ground arith;
    chain = ground arith;
  }
  walk-Walked (suc k) next previous node before x (y ∷ ys) tail ne out fresh c h =
      elim (Bool-cases (ltb (criterion node) (criterion y))) [
        | inl less ↦ record {
          stop = x;
          walks = ground arith;
          among = ground arith;
          beyond = ground arith;
          chain =
              let rest =
                Linked-frame next previous (next_after next node x)
                  (previous_after next previous node x) y (next y) ys tail c.4.4
                  (λ a m. ground arith) (λ a m. ground arith) in
              ground (arith, rest);
        }
        | inr more ↦
            let r =
              walk-Walked k next previous node x y ys tail ne (ground arith) (ground arith)
                (ground arith) (omega arith) in
            record {
              stop = r.stop;
              walks = ground (arith, r.walks);
              among = ground (arith, r.among);
              beyond = ground (arith, r.beyond);
              chain = ground (arith, r.chain, r.among, r.beyond, not_mem-insert_sorted x node ys);
            }
      ]

  -- What `insert` leaves: the links of the nodes off the list stay as they are.
  pub record Inserted (node : Ptr) (l : OrderedList) (n : Nodes) (xs : List Ptr) (l' : OrderedList)
      (n' : Nodes) : Type 0 where
    pub left : IsList l' n' (insert_sorted node xs)
    pub next_same : (a : Ptr) → a ≢ node → a ∉ xs → n'.next a ≡ n.next a
    pub previous_same : (a : Ptr) → a ≢ node → a ∉ xs → n'.previous a ≡ n.previous a

  abbrev pub Inserts : ℕ → Ptr → OrderedList → Nodes → List Ptr → Type 0
  Inserts fuel node l n xs =
      (l' : OrderedList) × (n' : Nodes) × (insert criterion fuel node l n ≡ some (l', n'))
      × Inserted node l n xs l' n'

  insert_nil :
      (fuel : ℕ) (node : Ptr) (l : OrderedList) (n : Nodes)
      → IsList l n []
      → node ≢ null
      → Inserts fuel node l n []
  unfolding insert insert_sorted
  insert_nil fuel node l n c ne = (
    ordered_list node node,
    nodes (update n.next node null) (update n.previous node null),
    ground arith,
    record {
      left = ground arith;
      next_same = λ a o m. ground arith;
      previous_same = λ a o m. ground arith;
    },
  )

  insert_front :
      (fuel : ℕ) (node : Ptr) (l : OrderedList) (n : Nodes) (x : Ptr) (xs : List Ptr)
      → IsList l n (x ∷ xs)
      → node ≢ null
      → node ∉ x ∷ xs
      → criterion node < criterion x
      → Inserts fuel node l n (x ∷ xs)
  unfolding insert insert_sorted
  insert_front fuel node l n x xs c ne out less =
      let next' = update n.next node l.head in
      let previous' = update (update n.previous node null) l.head node in
      let rest =
        Linked-frame n.next n.previous next' previous' x (n.next x) xs l.tail c.4
          (λ a m. ground arith) (λ a m. ground arith) in
      (
        ordered_list node l.tail,
        nodes next' previous',
        ground arith,
        record {
          left = ground (arith, rest);
          next_same = λ a o m. ground arith;
          previous_same = λ a o m. ground arith;
        },
      )

  insert_behind :
      (fuel : ℕ) (node : Ptr) (l : OrderedList) (n : Nodes) (x : Ptr) (xs : List Ptr)
      → IsList l n (x ∷ xs)
      → node ≢ null
      → node ∉ x ∷ xs
      → criterion x ≤ criterion node
      → length xs < fuel
      → Inserts fuel node l n (x ∷ xs)
  unfolding insert insert_sorted link
  insert_behind fuel node l n x xs c ne out more h =
      let r =
        walk-Walked fuel n.next n.previous node null x xs l.tail ne out
          (null-not_mem n.next n.previous null l.head (x ∷ xs) l.tail c) (ground arith) h in
      (
        ordered_list l.head (if n.next r.stop == null then node else l.tail),
        nodes (next_after n.next node r.stop) (previous_after n.next n.previous node r.stop),
        ground (arith, r.walks, r.among, r.beyond),
        record {
          left = ground (arith, r.chain);
          next_same = λ a o m. ground (arith, r.among);
          previous_same = λ a o m. ground (
            arith,
            r.among,
            r.beyond,
            null-not_mem n.next n.previous null l.head (x ∷ xs) l.tail c,
          );
        },
      )

  -- `insert` ends on every list that is linked in both directions, with as much fuel as the list has
  -- nodes, and links a node that is not on it in before the first node with a larger criterion; the links of
  -- the nodes off the list stay as they are.
  pub insert-insert_sorted :
      (fuel : ℕ) (node : Ptr) (l : OrderedList) (n : Nodes) (xs : List Ptr)
      → IsList l n xs
      → node ≢ null
      → node ∉ xs
      → length xs ≤ fuel
      → Inserts fuel node l n xs
  insert-insert_sorted fuel node l n [] c ne out h = insert_nil fuel node l n c ne
  insert-insert_sorted fuel node l n (x ∷ xs) c ne out h =
      elim (Bool-cases (ltb (criterion node) (criterion x))) [
        | inl less ↦ insert_front fuel node l n x xs c ne out (ground arith)
        | inr more ↦ insert_behind fuel node l n x xs c ne out (ground arith) (ground arith)
      ]

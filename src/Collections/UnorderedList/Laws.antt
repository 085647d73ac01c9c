-- ===== src/Collections/UnorderedList/Laws.antt =====
-- An unordered list behaves as a stack of distinct addresses with deletion.
use depos.Base.{
  ℕ, zero, suc, ◌<◌, ◌≡◌, ◌≢◌, refl, inl, inr, ◌==◌, Bool, true, false, some, List, [], ◌∷◌,
  Bool-cases, update, has, ◌∈◌, ◌∉◌, erase, not_mem-erase, length, arith,
}
use depos.Base.{erase-absent}
use depos.Collections.{Ptr, null, Links, Chain, Chain-update, zero-not_mem}
use depos.Collections.UnorderedList.{UnorderedList, list, insert, remove, find, unlink, remove_node}

abbrev pub IsList : Links → UnorderedList → List Ptr → Type 0
IsList next l xs = Chain next l.head xs

-- `insert` puts a node that is not on the list in front, and writes that node alone.
pub insert-IsList :
    (next : Links) (l : UnorderedList) (xs : List Ptr) (node : Ptr)
    → IsList next l xs
    → node ≢ null
    → node ∉ xs
    → (insert node l next ≡ some (list node, update next node l.head))
      × IsList (update next node l.head) (list node) (node ∷ xs)
unfolding insert
insert-IsList next l xs node c ne out =
    let c' = Chain-update next l.head xs node l.head out c in
    (ground arith, (refl, ne, out, ground (arith, c')))

-- `remove` on an empty list is the null pointer, and changes nothing.
pub remove-nil :
    (next : Links) (l : UnorderedList) → IsList next l [] → remove l next ≡ (null, l, next)
unfolding remove
remove-nil next l c = ground arith

-- `remove` takes the first node, and leaves a list of the others.
pub remove-cons :
    (next : Links) (l : UnorderedList) (x : Ptr) (xs : List Ptr)
    → IsList next l (x ∷ xs)
    → (remove l next ≡ (x, list (next x), update next x null))
      × IsList (update next x null) (list (next x)) xs
unfolding remove
remove-cons next l x xs c = (ground arith, Chain-update next (next x) xs x null c.2 c.3)

find-absent :
    (k : ℕ) (next : Links) (target previous current : Ptr) (ys : List Ptr)
    → Chain next current ys
    → length ys < k
    → target ∉ ys
    → (p : Ptr) × (find k next target previous current ≡ some (p, null))
unfolding find
find-absent zero next target previous current ys c h out = absurd (omega arith)
find-absent (suc k) next target previous current [] c h out = (previous, ground arith)
find-absent (suc k) next target previous current (y ∷ ys) c h out =
    let (p, e) =
      find-absent k next target current (next current) ys (ground arith) (omega arith)
        (ground arith) in
    (p, ground arith)

unlink-Chain :
    (next : Links) (previous y : Ptr) (ys : List Ptr)
    → previous ≢ null
    → previous ∉ y ∷ ys
    → Chain next y (y ∷ ys)
    → Chain (update (update next previous (next y)) y null) previous (previous ∷ ys)
unlink-Chain next previous y ys ne out c =
    let c1 = Chain-update next (next y) ys previous (next y) (ground arith) c.3 in
    let c2 = Chain-update (update next previous (next y)) (next y) ys y null c.2 c1 in
    (refl, ne, ground arith, ground (arith, c2))

-- The loop stops at the target, and unlinking behind it leaves the chain without the target.
record Found (k : ℕ) (next : Links) (target previous current : Ptr) (ys : List Ptr) : Type 0 where
  before : Ptr
  finds : find k next target previous current ≡ some (before, target)
  among : before ∈ previous ∷ ys
  chain :
      Chain
        (update (update next before (next target)) target null)
        previous
        (previous ∷ erase target ys)

find-Found :
    (k : ℕ) (next : Links) (target previous current : Ptr) (ys : List Ptr)
    → previous ≢ null
    → previous ∉ ys
    → next previous ≡ current
    → Chain next current ys
    → length ys < k
    → target ∈ ys
    → Found k next target previous current ys
unfolding find erase
find-Found zero next target previous current ys ne out e c h m = absurd (omega arith)
find-Found (suc k) next target previous current [] ne out e c h m = cc
find-Found (suc k) next target previous current (y ∷ ys) ne out e c h m =
    elim (Bool-cases (current == target)) [
      | inl hit ↦ record {
        before = previous;
        finds = ground arith;
        among = ground arith;
        chain = ground (arith, unlink-Chain next previous current ys ne);
      }
      | inr miss ↦
          let rest =
            find-Found k next target current (next current) ys (ground arith) (ground arith) refl
              (ground arith) (omega arith) (ground arith) in
          record {
            before = rest.before;
            finds = ground (arith, rest.finds);
            among = ground (arith, rest.among);
            chain = ground (arith, rest.chain, rest.among, not_mem-erase previous target ys);
          }
    ]

-- What `remove(target)` leaves: the answer is whether the target was on the list, the list has
-- lost it, and no link of a node off the list is written.
pub record Removed (next : Links) (xs : List Ptr) (target : Ptr) (found : Bool) (l : UnorderedList)
    (next' : Links) : Type 0 where
  pub answer : found ≡ has target xs
  pub left : IsList next' l (erase target xs)
  pub same : (a : Ptr) → a ∉ xs → next' a ≡ next a

abbrev pub RemovesNode : ℕ → Ptr → UnorderedList → Links → List Ptr → Type 0
RemovesNode fuel target l next xs =
    (found : Bool) × (l' : UnorderedList) × (next' : Links) × (remove_node fuel target l next
      ≡ some (found, l', next'))
    × Removed next xs target found l' next'

remove_node-absent :
    (fuel : ℕ) (next : Links) (l : UnorderedList) (xs : List Ptr) (target : Ptr)
    → IsList next l xs
    → target ≢ null
    → length xs < fuel
    → target ∉ xs
    → RemovesNode fuel target l next xs
unfolding remove_node unlink
remove_node-absent fuel next l xs target c ne h out =
    let (p, e) = find-absent fuel next target null l.head xs c h out in
    (
      false,
      l,
      next,
      ground (arith, e),
      record {
        answer = ground arith;
        left = ground (arith, erase-absent target xs);
        same = λ a o. refl;
      },
    )

remove_node-present :
    (fuel : ℕ) (next : Links) (l : UnorderedList) (x : Ptr) (xs : List Ptr) (target : Ptr)
    → IsList next l (x ∷ xs)
    → target ≢ null
    → length xs < fuel
    → target ∈ x ∷ xs
    → RemovesNode (suc fuel) target l next (x ∷ xs)
unfolding remove_node unlink find erase
remove_node-present fuel next l x xs target c ne h m = elim (Bool-cases (x == target)) [
  | inl hit ↦ (
    true,
    list (next target),
    update next target null,
    ground arith,
    record {
      answer = ground arith;
      left = ground (arith, Chain-update next (next x) xs x null c.2 c.3);
      same = ground arith;
    },
  )
  | inr miss ↦
      let r = find-Found fuel next target x (next x) xs c.1 c.2 refl c.3 h (ground arith) in
      (
        true,
        l,
        update (update next r.before (next target)) target null,
        ground (arith, r.finds, r.among, zero-not_mem next (next x) xs c.3),
        record {
          answer = ground arith;
          left = ground (arith, r.chain);
          same = λ a o. ground (arith, r.among);
        },
      )
]

-- `remove(target)` ends on every list that is a chain, with as much fuel as the list has nodes and
-- one more; it answers whether the target was on the list, leaves the list without it, in the same
-- order, and writes no link of a node off the list.
pub remove_node-erase :
    (fuel : ℕ) (next : Links) (l : UnorderedList) (xs : List Ptr) (target : Ptr)
    → IsList next l xs
    → target ≢ null
    → length xs < fuel
    → RemovesNode fuel target l next xs
remove_node-erase zero next l xs target c ne h = absurd (omega arith)
remove_node-erase (suc fuel) next l [] target c ne h =
    remove_node-absent (suc fuel) next l [] target c ne h refl
remove_node-erase (suc fuel) next l (x ∷ xs) target c ne h =
    elim (Bool-cases (has target (x ∷ xs))) [
      | inl m ↦ remove_node-present fuel next l x xs target c ne (omega arith) m
      | inr out ↦ remove_node-absent (suc fuel) next l (x ∷ xs) target c ne h out
    ]

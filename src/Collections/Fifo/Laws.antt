-- ===== src/Collections/Fifo/Laws.antt =====
-- A FIFO behaves as a queue of distinct nodes.
use depos.Base.{
  ◌≡◌, ◌≢◌, refl, update, List, [], ◌∷◌, ◌++◌, ◌∉◌, has-append, last_or, mem-last_or,
  last_or-append, arith, ne→==_false, sym, subst,
}
use depos.Collections.{Ptr, null, Links, Chain, Chain-update}
use depos.Collections.Fifo.{Fifo, fifo, insert, remove}

-- The links lead from the head through `xs`, and the tail is the last node.
abbrev pub IsFifo : Links → Fifo → List Ptr → Type 0
IsFifo next q xs = Chain next q.head xs × (q.tail ≡ last_or null xs)

Chain-snoc :
    (next : Links) (p x : Ptr) (xs : List Ptr) (node : Ptr)
    → Chain next p (x ∷ xs)
    → node ∉ x ∷ xs
    → node ≢ null
    → next node ≡ null
    → Chain (update next (last_or x xs) node) p (x ∷ (xs ++ (node ∷ [])))
Chain-snoc next p x [] node c out ne e =
    (c.0, c.1, ground arith, (ground arith, ne, refl, ground arith))
Chain-snoc next p x (y ∷ ys) node c out ne e =
    let rest = Chain-snoc next (next x) y ys node c.3 (ground arith) ne e in
    (c.0, c.1, ground (arith, has-append x ys (node ∷ [])), ground (arith, rest, mem-last_or y ys))

insert_first :
    (next : Links) (q : Fifo) (node : Ptr)
    → q.head ≡ null
    → insert node q next ≡ (fifo node node, update next node null)
unfolding insert
insert_first next q node e = rw e refl

insert_behind :
    (next : Links) (q : Fifo) (node end : Ptr)
    → q.head ≢ null
    → q.tail ≡ end
    → insert node q next ≡ (fifo q.head node, update (update next node null) end node)
unfolding insert
insert_behind next q node end ne e = rw (ne→==_false q.head null ne, e) refl

-- The queue holds `xs` and then `node`, and at most the links of these nodes were written.
abbrev pub Inserted : Links → List Ptr → Ptr → Fifo × Links → Type 0
Inserted next xs node (q', next') =
    IsFifo next' q' (xs ++ (node ∷ [])) × ((a : Ptr) → a ∉ node ∷ xs → next' a ≡ next a)

-- `insert` puts a node that is not in the queue behind the last, and writes the links of nodes of
-- the new queue alone.
pub insert-append :
    (next : Links) (q : Fifo) (xs : List Ptr) (node : Ptr)
    → IsFifo next q xs
    → node ≢ null
    → node ∉ xs
    → Inserted next xs node (insert node q next)
unfolding insert
insert-append next q [] node (c, t) ne out =
    subst (Inserted next [] node) (sym (insert_first next q node c))
      (((refl, ne, refl, ground arith), refl), λ a o. ground arith)
insert-append next q (x ∷ xs) node (c, t) ne out =
    let c' = Chain-update next q.head (x ∷ xs) node null out c in
    subst (Inserted next (x ∷ xs) node)
      (sym (insert_behind next q node (last_or x xs) (ground arith) t))
      (
        (
          Chain-snoc (update next node null) q.head x xs node c' out ne (ground arith),
          sym (last_or-append x node xs),
        ),
        λ a o. ground (arith, mem-last_or x xs),
      )

-- On an empty queue `remove` is the null pointer, and the queue stays empty.
pub remove-nil :
    (next : Links) (q : Fifo)
    → IsFifo next q []
    → ((remove q next).0 ≡ null) × IsFifo next (remove q next).1 []
unfolding remove
remove-nil next q (c, t) = ground arith

-- `remove` takes the oldest node, and leaves the others in their order. No link is written.
pub remove-cons :
    (next : Links) (q : Fifo) (x : Ptr) (xs : List Ptr)
    → IsFifo next q (x ∷ xs)
    → ((remove q next).0 ≡ x) × IsFifo next (remove q next).1 xs
unfolding remove
remove-cons next q x [] (c, t) = ground arith
remove-cons next q x (y ∷ ys) (c, t) = ground arith

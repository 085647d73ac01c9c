-- ===== src/Collections/OrderedList.antt =====
-- include/utility/collections/OrderedList.hpp, for nodes with a `previous` link and a criterion
-- (include/utility/collections/Node.hpp). The lock is left to the callers.
pub mod Chain
pub mod Insertion
pub mod Removal
pub mod Sorted
use depos.Base.{
  ℕ, zero, suc, ◌==◌, ltb, leb, if◌then◌else◌, Bool, true, false, not, ◌&&◌, Option, none, some,
  update, ◌>>=◌,
}
use depos.Collections.{Ptr, null, Links}

pub record OrderedList : Type 0 where
  pub head : Ptr
  pub tail : Ptr

abbrev pub ordered_list : Ptr → Ptr → OrderedList
ordered_list h t = record { head = h; tail = t }

-- `next` and `previous` of every node
pub record Nodes : Type 0 where
  pub next : Links
  pub previous : Links

abbrev pub nodes : Links → Links → Nodes
nodes n p = record { next = n; previous = p }

-- `criterion` of every node
module _ (criterion : Ptr → ℕ) where
  -- `while (current->next && current->next->criterion <= node->criterion)`
  unfoldable pub walk : ℕ → Links → Ptr → Ptr → Option Ptr
  walk zero next node current = none
  walk (suc k) next node current =
      let rest = walk k next node (next current) in
      if not (next current == null) && leb (criterion (next current)) (criterion node)
      then rest
      else some current

  -- what `insert` does behind the loop
  unfoldable pub link : Ptr → Ptr → OrderedList → Nodes → OrderedList × Nodes
  link node current l n =
      let next' = update n.next node (n.next current) in
      let previous' = update n.previous node current in
      if next' current == null
      then (ordered_list l.head node, nodes (update next' current node) previous')
      else (l, nodes (update next' current node) (update previous' (next' current) node))

  -- `insert`: the number is fuel for the loop
  unfoldable pub insert : ℕ → Ptr → OrderedList → Nodes → Option (OrderedList × Nodes)
  insert fuel node l n =
      if l.head == null
      then some
          (ordered_list node node, nodes (update n.next node null) (update n.previous node null))
      else (if ltb (criterion node) (criterion l.head)
          then some (
            ordered_list node l.tail,
            nodes (update n.next node l.head) (update (update n.previous node null) l.head node),
          )
          else (walk fuel n.next node l.head >>= λ current. some (link node current l n)))

-- `remove()`: the null pointer where the list is empty
unfoldable pub remove : OrderedList → Nodes → Ptr × OrderedList × Nodes
remove l n =
    if l.head == null
    then (null, l, n)
    else (let head' = n.next l.head in
        let tail' = if head' == null then null else l.tail in
        let previous' = if head' == null then n.previous else update n.previous head' null in
        (
          l.head,
          ordered_list head' tail',
          nodes (update n.next l.head null) (update previous' l.head null),
        ))

-- the second half of `remove(node)`, on the list of that head
unfoldable pub unlink_back : Ptr → Ptr → OrderedList → Nodes → Bool × OrderedList × Nodes
unlink_back node head' l n =
    if node == l.tail then (true, ordered_list head' (n.previous node), n) else (
      true,
      ordered_list head' l.tail,
      if n.next node == null
          then n
          else nodes n.next (update n.previous (n.next node) (n.previous node)),
    )

-- `remove(node)`
unfoldable pub remove_node : Ptr → OrderedList → Nodes → Bool × OrderedList × Nodes
remove_node node l n =
    if node == l.head
    then unlink_back node (n.next node) l n
    else (if n.previous node == null
        then (false, l, n)
        else unlink_back node l.head l
            (nodes (update n.next (n.previous node) (n.next node)) n.previous))

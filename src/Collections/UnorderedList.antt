-- ===== src/Collections/UnorderedList.antt =====
-- include/utility/collections/UnorderedList.hpp. `none` is a failed `assert`. The lock is left to
-- the callers: one call is one critical section.
pub mod Laws
use depos.Base.{
  ℕ, zero, suc, ◌==◌, if◌then◌else◌, Bool, true, false, not, ◌||◌, Option, none, some, update,
}
use depos.Collections.{Ptr, null, Links}

pub record UnorderedList : Type 0 where
  pub head : Ptr

abbrev pub list : Ptr → UnorderedList
list p = record { head = p }

-- `insert`
pub insert : Ptr → UnorderedList → Links → Option (UnorderedList × Links)
insert node l next = if node == null then none else some (list node, update next node l.head)

-- `remove()`: the null pointer where the list is empty
pub remove : UnorderedList → Links → Ptr × UnorderedList × Links
remove l next =
    if l.head == null
    then (null, l, next)
    else (l.head, list (next l.head), update next l.head null)

-- `while (current && current != target)`, with what `previous` and `current` are behind it
pub find : ℕ → Links → Ptr → (previous current : Ptr) → Option (Ptr × Ptr)
find zero next target previous current = none
find (suc k) next target previous current =
    let rest = find k next target current (next current) in
    if (current == null) || (current == target) then some (previous, current) else rest

-- what `remove(target)` does behind the loop
pub unlink : UnorderedList → Links → (previous current : Ptr) → Bool × UnorderedList × Links
unlink l next previous current =
    if current == null
    then (false, l, next)
    else (if previous == null
        then (true, list (next current), update next current null)
        else (true, l, update (update next previous (next current)) current null))

-- `remove(target)`: the first number is fuel for the loop
pub remove_node : ℕ → Ptr → UnorderedList → Links → Option (Bool × UnorderedList × Links)
remove_node fuel target l next =
    if target == null then none else elim (find fuel next target null l.head) [
      | none ↦ none
      | some (previous, current) ↦ some (unlink l next previous current)
    ]

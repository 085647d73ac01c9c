-- ===== src/Collections/Fifo.antt =====
-- include/utility/collections/FIFO.hpp. One call is one critical section of its lock.
pub mod Laws
use depos.Base.{ℕ, ◌==◌, if◌then◌else◌, update}
use depos.Collections.{Ptr, null, Links}

pub record Fifo : Type 0 where
  pub head : Ptr
  pub tail : Ptr

abbrev pub fifo : Ptr → Ptr → Fifo
fifo h t = record { head = h; tail = t }

-- the constructor
abbrev pub empty : Fifo
empty = fifo null null

pub insert : Ptr → Fifo → Links → Fifo × Links
insert node q next =
    let next' = update next node null in
    if q.head == null then (fifo node node, next') else (fifo q.head node, update next' q.tail node)

pub remove : Fifo → Links → Ptr × Fifo
remove q next =
    let node = q.head in
    let head' = if node == null then q.head else next node in
    (node, fifo head' (if head' == null then null else q.tail))

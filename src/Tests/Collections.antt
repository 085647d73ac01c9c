-- ===== src/Tests/Collections.antt =====
-- Two nodes, 4 and 6, in a list and in a queue, and a circular buffer of two elements.
use depos.Base.{ℕ, ◌+◌, ◌==◌, if◌then◌else◌, [], ◌∷◌, arith, refl}
use depos.Collections.{Links}
use depos.Collections.UnorderedList.{list}
use depos.Collections.UnorderedList.Laws.{IsList, RemovesNode, remove_node-erase}
use depos.Collections.Fifo.{fifo}
use depos.Collections.Fifo.Laws.{IsFifo}
use depos.Base.{inl}
use depos.Collections.OrderedList.{OrderedList, Nodes}
use depos.Collections.OrderedList
use depos.Collections.OrderedList.Chain
use depos.Collections.OrderedList.Insertion.{Inserts, insert-insert_sorted}
use depos.Collections.OrderedList.Removal.{LosesNode, remove_node-LosesNode}
use depos.Collections.CircularBuffer.{CircularBuffer}
use depos.Collections.CircularBuffer.Laws.{IsValid}

abbrev links : Links
links a = if a == 4 then 6 else 0

two_nodes : IsList links (list 4) (4 ∷ 6 ∷ [])
two_nodes = (refl, λ e. absurd (omega arith), refl, (refl, λ e. absurd (omega arith), refl, refl))

remove_node-erase_example : RemovesNode 3 6 (list 4) links (4 ∷ 6 ∷ [])
remove_node-erase_example =
    remove_node-erase 3 links (list 4) (4 ∷ 6 ∷ []) 6 two_nodes (λ e. absurd (omega arith))
      (omega arith)

two_queued : IsFifo links (fifo 4 6) (4 ∷ 6 ∷ [])
two_queued = (two_nodes, refl)

-- a buffer that is full
abbrev full : CircularBuffer ℕ
full = record { buffer = λ i. i + 10; head = 1; tail = 1; size = 2 }

full-IsValid : IsValid 2 full
full-IsValid = record { head_in = omega arith; size_in = omega arith; tail_at = refl }

-- the same two nodes in an ordered list, with the addresses as criteria
abbrev both_links : Nodes
both_links = record { next = links; previous = λ a. if a == 6 then 4 else 0 }

abbrev two_ordered : OrderedList
two_ordered = record { head = 4; tail = 6 }

two_ordered-IsList : Chain.IsList two_ordered both_links (4 ∷ 6 ∷ [])
two_ordered-IsList = (
  refl,
  λ e. absurd (omega arith),
  refl,
  refl,
  (refl, λ e. absurd (omega arith), refl, refl, (refl, refl)),
)

insert-insert_sorted_example : Inserts (λ a. a) 2 5 two_ordered both_links (4 ∷ 6 ∷ [])
insert-insert_sorted_example =
    insert-insert_sorted (λ a. a) 2 5 two_ordered both_links (4 ∷ 6 ∷ []) two_ordered-IsList
      (λ e. absurd (omega arith)) refl (omega arith)

remove_node-LosesNode_example :
    LosesNode 6 (4 ∷ 6 ∷ []) (OrderedList.remove_node 6 two_ordered both_links)
remove_node-LosesNode_example =
    remove_node-LosesNode two_ordered both_links (4 ∷ 6 ∷ []) 6 two_ordered-IsList
      (λ e. absurd (omega arith)) (inl refl)

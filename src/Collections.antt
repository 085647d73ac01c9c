-- ===== src/Collections.antt =====
-- The intrusive collections of include/utility/collections. Their nodes live in a shared memory:
-- the `next` field of every node is one function from addresses to addresses.
pub mod UnorderedList
pub mod Fifo
pub mod CircularBuffer
pub mod OrderedList
use depos.Base.{ℕ, ◌≡◌, ◌≢◌, refl, List, [], ◌∷◌, Bool, true, false, ◌∈◌, ◌∉◌, has, arith, update}

abbrev pub Ptr : Type 0
Ptr = ℕ

abbrev pub null : Ptr
null = 0

-- `node->next` for every node
abbrev pub Links : Type 0
Links = Ptr → Ptr

-- From `p` the links lead through the distinct nodes `xs` to the null pointer.
abbrev pub Chain : Links → Ptr → List Ptr → Type 0
Chain next p [] = p ≡ null
Chain next p (x ∷ xs) = (p ≡ x) × (x ≢ null) × (x ∉ xs) × Chain next (next x) xs

-- A chain survives any change of links outside its nodes.
pub Chain-frame :
    (next next' : Links) (p : Ptr) (xs : List Ptr)
    → Chain next p xs
    → ((a : Ptr) → a ∈ xs → next' a ≡ next a)
    → Chain next' p xs
Chain-frame next next' p [] c same = c
Chain-frame next next' p (x ∷ xs) c same = (
  c.0,
  c.1,
  c.2,
  ground (arith, same x, Chain-frame next next' (next x) xs c.3 (λ a m. same a (ground arith))),
)

pub Chain-update :
    (next : Links) (p : Ptr) (xs : List Ptr) (a : Ptr) (v : Ptr)
    → a ∉ xs
    → Chain next p xs
    → Chain (update next a v) p xs
Chain-update next p xs a v out c = Chain-frame next _ p xs c (λ b m. ground arith)

-- The null pointer is no node of a chain.
pub zero-not_mem : (next : Links) (p : Ptr) (xs : List Ptr) → Chain next p xs → null ∉ xs
zero-not_mem next p [] c = refl
zero-not_mem next p (x ∷ xs) c = ground (arith, zero-not_mem next (next x) xs c.3)

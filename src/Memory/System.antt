-- ===== src/Memory/System.antt =====
-- src/memory/Memory.cpp, with the page size and block orders of the machines' Traits, and the
-- header that include/memory/Heap.hpp puts before an object. Each call of `alloc` and `free` runs
-- with interrupts off and under `spin_`, so it is one step. `none` is a failed `assert`.
pub mod Init
pub mod Heap
use depos.Base.{
  ℕ, zero, suc, ◌+◌, ◌-◌, ◌*◌, ◌%◌, ◌^◌, not, Bool, true, false, ◌||◌, Option, none, some, List, [],
  ◌∷◌, ltb, ◌==◌, if◌then◌else◌, update, ◌>>=◌, ◌>>◌, assert,
}
use depos.Memory.Chunk.{Chunk, chunk, overlaps}
use depos.Memory.Buddy
use depos.Memory.Buddy.{Free}

-- `Traits<Memory>::PageSize`
abbrev pub page_size : ℕ
page_size = 4096

-- the chunks that `init` compares a page with, in order
pub is_reserved : List Chunk → Chunk → Bool
is_reserved [] page = false
is_reserved (c ∷ cs) page = overlaps page c || is_reserved cs page

-- `sizeof(Heap::Header)`
abbrev pub header_size : ℕ
header_size = 8

-- the allocator, and the `size` field of the header at each address
pub record Store : Type 0 where
  pub free : Free
  pub sizes : ℕ → ℕ

-- the parameters of `allocators::Buddy<3, Traits<Memory>::Order>`: `last` is the order less 3
module _ (minimum last : ℕ) where
  -- `for (c = RamEnd - PageSize; c >= RamStart; c -= PageSize)`: the fuel bounds the rounds
  pub init_from : ℕ → ℕ → List Chunk → ℕ → Free → Option Free
  init_from zero ram_start reserved c free = none
  init_from (suc fuel) ram_start reserved c free =
      let next = (c + 2 ^ 64 - page_size) % 2 ^ 64 in
      let skip = init_from fuel ram_start reserved next free in
      let add =
        Buddy.insert minimum last c page_size free >>= init_from fuel ram_start reserved next in
      if ltb c ram_start
      then some free
      else (if is_reserved reserved (chunk c page_size) then skip else add)

  -- `Memory::init`: what it finds reserved are the kernel's text, rodata, data and bss, the boot
  -- stacks and the payload
  pub init : ℕ → (ram_start ram_end : ℕ) → List Chunk → Option Free
  init fuel ram_start ram_end reserved =
      init_from fuel ram_start reserved (ram_end - page_size) Buddy.empty

  -- `Memory::alloc`: 0 is the null pointer
  unfoldable pub alloc : ℕ → Free → Option (ℕ × Free)
  alloc size free =
      if size == 0
      then some (0, free)
      else (do (node, free') ← Buddy.remove minimum last size free; p ← node; some (p, free'))

  -- `Memory::free`
  pub release : ℕ → ℕ → Free → Option Free
  release p size free = do assert (not (p == 0)); Buddy.insert minimum last p size free

  -- `operator new`
  unfoldable pub new : ℕ → Store → Option (ℕ × Store)
  new s store = do
    let total = (s + header_size) % 2 ^ 64
    (header, free') ← alloc total store.free
    assert (not (header == 0))
    some (header + header_size, record { free = free'; sizes = update store.sizes header total })

  -- `operator delete`
  pub delete : ℕ → Store → Option Store
  delete p store = do
    assert (not (p == 0))
    let header = p - header_size
    free' ← release header (store.sizes header) store.free
    some (record store { free = free' })

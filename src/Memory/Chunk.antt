-- ===== src/Memory/Chunk.antt =====
-- include/memory/Chunk.hpp: an address range. Addresses are 64-bit.
pub mod Laws
use depos.Base.{ℕ, ◌+◌, ◌%◌, ◌^◌, Bool, true, false, not, ◌&&◌, ltb, leb, ◌==◌}

pub record Chunk : Type 0 where
  pub start : ℕ
  pub size : ℕ

abbrev pub chunk : ℕ → ℕ → Chunk
chunk start size = record { start = start; size = size }

unfoldable pub end : Chunk → ℕ
end c = (c.start + c.size) % 2 ^ 64

unfoldable pub empty : Chunk → Bool
empty c = c.size == 0

unfoldable pub contains : Chunk → ℕ → Bool
unfolding end
contains c address = leb c.start address && ltb address (end c)

-- `contains(const Chunk &)`
unfoldable pub contains_chunk : Chunk → Chunk → Bool
unfolding end
contains_chunk c other = leb c.start other.start && leb (end other) (end c)

unfoldable pub overlaps : Chunk → Chunk → Bool
unfolding end
overlaps c other = ltb c.start (end other) && ltb other.start (end c)

-- `operator==` and `operator!=`
unfoldable pub equal : Chunk → Chunk → Bool
equal c other = (c.start == other.start) && (c.size == other.size)

unfoldable pub differs : Chunk → Chunk → Bool
unfolding equal
differs c other = not (equal c other)

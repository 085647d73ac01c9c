-- ===== src/Network/Buffer.antt =====
-- include/network/NetworkBuffer.hpp, and the `alloc` of include/network/protocols/IPv4.hpp and UDP.hpp. The
-- positions are addresses of 64 bits, and what a link allocates is a parameter.
pub mod Positions
use depos.Base.{ℕ, ◌+◌, ◌-◌, ◌%◌, ◌^◌}

pub record Buffer : Type 0 where
  pub start : ℕ
  pub head : ℕ
  pub tail : ℕ
  pub references : ℕ

pub length_of : Buffer → ℕ
length_of b = (b.tail + (2 ^ 64 - b.start)) % 2 ^ 64

pub offset : Buffer → ℕ
offset b = (b.head + (2 ^ 64 - b.start)) % 2 ^ 64

pub advance : ℕ → Buffer → Buffer
advance bytes b = record b { head = (b.head + bytes) % 2 ^ 64 }

pub rewind : ℕ → Buffer → Buffer
rewind bytes b = record b { head = (b.head + (2 ^ 64 - bytes)) % 2 ^ 64 }

pub extend : ℕ → Buffer → Buffer
extend bytes b = record b { tail = (b.tail + bytes) % 2 ^ 64 }

pub shrink : ℕ → Buffer → Buffer
shrink bytes b = record b { tail = (b.tail + (2 ^ 64 - bytes)) % 2 ^ 64 }

pub hold : Buffer → Buffer
hold b = record b { references = (b.references + 1) % 2 ^ 32 }

-- `IPv4::alloc` and `UDP::alloc`, whose headers have 20 and 8 bytes
module _ (link_alloc : ℕ → Buffer) where
  pub alloc_ipv4 : ℕ → Buffer
  alloc_ipv4 size = advance 20 (link_alloc ((size + 20) % 2 ^ 64))

  pub alloc_udp : ℕ → Buffer
  alloc_udp size = advance 8 (alloc_ipv4 ((size + 8) % 2 ^ 64))

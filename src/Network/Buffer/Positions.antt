-- ===== src/Network/Buffer/Positions.antt =====
-- Where the positions of a buffer are.
use depos.Base.{ℕ, ◌+◌, ◌%◌, ◌^◌, ◌<◌, ◌≡◌, arith}
use depos.Network.Buffer.{Buffer, length_of, offset, advance, rewind, alloc_ipv4, alloc_udp}

-- A buffer of a datagram has room for the datagram behind both headers, if the link allocates what it is asked
-- for with its own headers in front.
pub room-alloc_udp :
    (link_alloc : ℕ → Buffer) (front size : ℕ)
    → ((n : ℕ)
        → ((link_alloc n).start + front ≡ (link_alloc n).head)
          × ((link_alloc n).head + n ≡ (link_alloc n).tail)
          × ((link_alloc n).tail < 2 ^ 64))
    → size < 2 ^ 32
    → (offset (alloc_udp link_alloc size) ≡ front + 28)
      × (length_of (alloc_udp link_alloc size) ≡ offset (alloc_udp link_alloc size) + size)
unfolding offset length_of alloc_udp alloc_ipv4 advance
room-alloc_udp link_alloc front size h k =
    let (a, b, c) = h (((size + 8) % 2 ^ 64 + 20) % 2 ^ 64) in (omega arith, omega arith)

-- Going back as far as one went forward restores the buffer's head.
pub rewind-advance :
    (n : ℕ) (b : Buffer) → n < 2 ^ 64 → b.head < 2 ^ 64 → (rewind n (advance n b)).head ≡ b.head
unfolding rewind advance
rewind-advance n b h k = omega arith

-- ===== src/Network/Ipv4/Datagram.antt =====
-- What arrives of a datagram that was sent.
use depos.Base.{ℕ, ◌+◌, ◌/◌, ◌%◌, ◌<◌, ◌≡◌, List, [], ◌∷◌, arith, refl}
use depos.Network.Checksum.{checksum}
use depos.Network.Checksum.Verify.{checksum-verifies}
use depos.Network.Ipv4.{header_with, header, send, update}

module _ (d0 d1 d2 d3 s0 s1 s2 s3 : ℕ) where
  abbrev pub to_address : List ℕ
  to_address = d0 ∷ d1 ∷ d2 ∷ d3 ∷ []

  abbrev pub from_address : List ℕ
  from_address = s0 ∷ s1 ∷ s2 ∷ s3 ∷ []

  -- `update` hands on what was sent: the payload and both addresses and the protocol.
  pub update-send :
      (protocol : ℕ) (payload : List ℕ)
      → update (send to_address from_address protocol payload)
        ≡ (payload, to_address, from_address, protocol)
  unfolding update send header header_with
  update-send protocol payload = refl

  -- The header of a packet that is sent has the checksum 0.
  pub checksum-header :
      (protocol len : ℕ)
      → d0 + d1 + d2 + d3 + s0 + s1 + s2 + s3 + protocol < 4096
      → checksum (header to_address from_address protocol len) ≡ 0
  unfolding header header_with
  checksum-header protocol len h =
      (checksum-verifies
        ((69, 0)
          ∷ ((20 + len) % 65536 / 256 % 256, (20 + len) % 65536 % 256)
          ∷ (0, 0)
          ∷ (0, 0)
          ∷ (64, protocol)
          ∷ [])
        ((s0, s1) ∷ (s2, s3) ∷ (d0, d1) ∷ (d2, d3) ∷ []) (omega arith) (omega arith)).1

-- ===== src/Drivers/Ethernet/Worker.antt =====
-- The worker of the network over the ring of the receiver.
use depos.Base.{
  ℕ, zero, suc, ◌+◌, ◌^◌, ◌<◌, ◌≡◌, ◌≢◌, arith, ◌∙◌, sym, ap, subst, true, refl, Option, List, [],
  ◌∷◌, ◌++◌, length, length-append, replicate, some,
}
use depos.Network.Device.{worker, delivered, worker-true}
use depos.Drivers.Ethernet.{Layout, Dma, receive, release}
use depos.Drivers.Ethernet.Receive.{
  IsRing, IsDevice, Fills, receive-Takes, release-IsRing, release-fields,
}

-- The buffers that `n` rounds take off the front of a queue, each put back behind, and the queue then.
unfoldable pub turns : ℕ → List ℕ → List ℕ × List ℕ
turns zero bs = ([], bs)
turns (suc n) [] = ([], [])
turns (suc n) (b ∷ bs) = let rest = turns n (bs ++ (b ∷ [])) in (b ∷ rest.0, rest.1)

-- addresses of objects
abbrev pub Valid : List ℕ → Type 0
Valid [] = Unit
Valid (b ∷ bs) = (b ≢ 0) × (b < 2 ^ 64) × Valid bs

Valid-append : (b : ℕ) (bs : List ℕ) → b ≢ 0 → b < 2 ^ 64 → Valid bs → Valid (bs ++ (b ∷ []))
Valid-append b [] p q v = (p, q, tt)
Valid-append b (x ∷ bs) p q v = (v.0, v.1, Valid-append b bs p q v.2)

module _ (t : Layout) (crowd poll : ℕ → Dma → Dma) (fuel : ℕ) (notify : ℕ → Dma → Dma) where
  -- the worker on the ring
  abbrev pub rounds : ℕ → Dma → Option (List ℕ × Dma)
  rounds n = worker (receive t crowd poll (suc fuel)) notify (release t) (replicate n true)

  -- If the device fills a buffer whenever the worker waits for one, and gives them back in order, also while the
  -- observers look at a buffer, then the worker is never stuck: in `n` rounds it shows the observers the buffers of the
  -- ring in turn, and each goes back behind the others.
  pub rounds-turns :
      (n k : ℕ) (bs : List ℕ) (s : Dma)
      → IsRing t s.rx_head bs k s
      → 0 < length bs
      → Valid bs
      → s.rx_tail + n < 2 ^ 64
      → ((i : ℕ) → IsDevice t (crowd i))
      → ((i : ℕ) → IsDevice t (poll i))
      → ((i : ℕ) → IsDevice t (notify i))
      → Fills t (crowd 0)
      → (s' : Dma) × (k' : ℕ) × (rounds n s ≡ some ((turns n bs).0, s'))
        × IsRing t s'.rx_head (turns n bs).1 k' s'
  unfolding turns worker delivered
  rounds-turns zero k bs s r some_left v l others waiting looks fills = (s, k, refl, r)
  rounds-turns (suc n) k [] s r some_left v l others waiting looks fills = absurd (omega arith)
  rounds-turns (suc n) k (b ∷ bs) s r some_left v l others waiting looks fills =
      let (s1, k1, e, r1, head1, _) =
        receive-Takes t crowd poll fuel k b bs s r (omega arith) others waiting fills in
      let (k2, _, r2, head2) = looks b s1.rx_head bs k1 s1 r1 in
      let s2 = notify b s1 in
      let tail : s2.rx_tail ≡ s.rx_tail = omega (arith, r.tail_at, r2.tail_at, head1) in
      let s3 = release t b s2 in
      let r3 =
        release-IsRing t s1.rx_head bs k2 b s2 r2 v.1 (omega (arith, r.room))
          (omega (arith, tail)) in
      let f = release-fields t b s2 (omega (arith, tail)) in
      let (s4, k4, answer, r4) =
        rounds-turns n k2 (bs ++ (b ∷ [])) s3
          (subst (λ (h : ℕ). IsRing t h (bs ++ (b ∷ [])) k2 s3) (sym (f.1 ∙ head2)) r3)
          (omega (arith, length-append bs (b ∷ []))) (Valid-append b bs v.0 v.1 v.2)
          (omega (arith, f.0, tail)) others waiting looks fills in
      (
        s4,
        k4,
        worker-true (receive t crowd poll (suc fuel)) notify (release t) (replicate n true) b s s1 e
              v.0
            ∙ ap (delivered b) answer,
        r4,
      )

-- ===== src/Drivers/Ethernet/Receive.antt =====
-- The ring of the receiver: a queue of buffers, of which the device has filled the first ones.
use depos.Base.{
  le→leb, Option, ℕ, zero, suc, ◌+◌, ◌-◌, ◌%◌, ◌^◌, ◌<◌, ◌≤◌, ◌≡◌, arith, ◌∙◌, sym, ap, true, false,
  refl, List, [], ◌∷◌, ◌++◌, length, length-append, update, update_self, update_ne, some, subst,
}
use depos.Drivers.Ethernet.{
  yield_far, Descriptor, Layout, Dma, is_owned, frame_length, buffer_of, set_buffer, construct,
  release, receive, await_receive, take, receive_flags,
}
use depos.Drivers.Ethernet.Descriptors.{buffer_of-set_buffer, mod-ne}

-- The slots of a ring of `n` from index `i` on hold the buffers in order, and the first `k` are filled.
abbrev pub Slots : ℕ → (ℕ → Descriptor) → ℕ → ℕ → List ℕ → Type 0
Slots n ring i k [] = k ≡ 0
Slots n ring i zero (b ∷ bs) =
    (buffer_of (ring (i % n)) ≡ b) × (is_owned (ring (i % n)) ≡ true) × Slots n ring (i + 1) 0 bs
Slots n ring i (suc k) (b ∷ bs) =
    (buffer_of (ring (i % n)) ≡ b) × (is_owned (ring (i % n)) ≡ false) × Slots n ring (i + 1) k bs

-- The ring holds the buffers `bs` from index `h` on, and the first `k` are filled.
pub record IsRing (t : Layout) (h : ℕ) (bs : List ℕ) (k : ℕ) (s : Dma) : Type 0 where
  pub slots : Slots t.receive_count s.rx h k bs
  pub tail_at : s.rx_tail ≡ h + length bs
  pub room : length bs ≤ t.receive_count
  pub sized : 0 < t.receive_count
  pub bounded : t.receive_count ≤ 2 ^ 63

pub Slots-update :
    (n : ℕ) (ring : ℕ → Descriptor) (i k : ℕ) (bs : List ℕ) (j : ℕ) (d : Descriptor)
    → Slots n ring i k bs
    → i + length bs ≤ j
    → j < i + n
    → Slots n (update ring (j % n) d) i k bs
Slots-update n ring i k [] j d v l m = v
Slots-update n ring i zero (b ∷ bs) j d v l m =
    let e = update_ne ring (j % n) d (i % n) (mod-ne n i j (omega arith) m) in
    (
      ap buffer_of e ∙ v.0,
      ap is_owned e ∙ v.1,
      Slots-update n ring (i + 1) 0 bs j d v.2 (omega arith) (omega arith),
    )
Slots-update n ring i (suc k) (b ∷ bs) j d v l m =
    let e = update_ne ring (j % n) d (i % n) (mod-ne n i j (omega arith) m) in
    (
      ap buffer_of e ∙ v.0,
      ap is_owned e ∙ v.1,
      Slots-update n ring (i + 1) k bs j d v.2 (omega arith) (omega arith),
    )

pub Slots-append :
    (n : ℕ) (ring : ℕ → Descriptor) (i k : ℕ) (bs : List ℕ) (b j : ℕ)
    → Slots n ring i k bs
    → j ≡ i + length bs
    → buffer_of (ring (j % n)) ≡ b
    → is_owned (ring (j % n)) ≡ true
    → Slots n ring i k (bs ++ (b ∷ []))
Slots-append n ring i k [] b j v e p q =
    let z : j ≡ i = omega arith in rw v (rw z at p, rw z at q, refl)
Slots-append n ring i zero (x ∷ bs) b j v e p q =
    (v.0, v.1, Slots-append n ring (i + 1) 0 bs b j v.2 (omega arith) p q)
Slots-append n ring i (suc k) (x ∷ bs) b j v e p q =
    (v.0, v.1, Slots-append n ring (i + 1) k bs b j v.2 (omega arith) p q)

-- the descriptor that `release` writes
abbrev pub posted : ℕ → Descriptor → Descriptor
posted b d = record (set_buffer b d) { des2 = 0; des3 = receive_flags }

posted-fields :
    (b : ℕ) (d : Descriptor)
    → b < 2 ^ 64
    → (buffer_of (posted b d) ≡ b) × (is_owned (posted b d) ≡ true)
unfolding buffer_of is_owned
posted-fields b d m = (buffer_of-set_buffer b d m, refl)

pub release-fields :
    (t : Layout) (b : ℕ) (s : Dma)
    → s.rx_tail + 1 < 2 ^ 64
    → ((release t b s).rx_tail ≡ s.rx_tail + 1)
      × ((release t b s).rx_head ≡ s.rx_head)
      × ((release t b s).rx
          ≡ update s.rx
              (s.rx_tail % t.receive_count)
              (posted b (s.rx (s.rx_tail % t.receive_count))))
unfolding release
release-fields t b s l = (omega arith, refl, refl)

-- A buffer that is released stands last, for the device to fill.
pub release-IsRing :
    (t : Layout) (h : ℕ) (bs : List ℕ) (k b : ℕ) (s : Dma)
    → IsRing t h bs k s
    → b < 2 ^ 64
    → length bs < t.receive_count
    → s.rx_tail + 1 < 2 ^ 64
    → IsRing t h (bs ++ (b ∷ [])) k (release t b s)
release-IsRing t h bs k b s r m room l =
    let n = t.receive_count in
    let j = s.rx_tail in
    let d = posted b (s.rx (j % n)) in
    let e = release-fields t b s l in
    let f = posted-fields b (s.rx (j % n)) m in
    let at = update_self s.rx (j % n) d in
    let slots =
      Slots-append n (update s.rx (j % n) d) h k bs b j
        (Slots-update n s.rx h k bs j d r.slots (omega (arith, r.tail_at))
          (omega (arith, r.tail_at)))
        r.tail_at (ap buffer_of at ∙ f.0) (ap is_owned at ∙ f.1) in
    record {
      slots = subst (λ ring. Slots n ring h k (bs ++ (b ∷ []))) (sym e.2) slots;
      tail_at = omega (arith, e.0, r.tail_at, length-append bs (b ∷ []));
      room = omega (arith, length-append bs (b ∷ []));
      sized = r.sized;
      bounded = r.bounded;
    }

-- What happens elsewhere while the driver waits: the device gives buffers back, in order, and nobody else
-- takes from the ring or puts into it.
abbrev pub IsDevice : Layout → (Dma → Dma) → Type 0
IsDevice t act =
    (h : ℕ) (bs : List ℕ) (k : ℕ) (s : Dma)
    → IsRing t h bs k s
    → (k' : ℕ) × (k ≤ k') × IsRing t h bs k' (act s) × ((act s).rx_head ≡ s.rx_head)

-- With a buffer in the ring it fills at least one.
abbrev pub Fills : Layout → (Dma → Dma) → Type 0
Fills t act =
    (h b : ℕ) (bs : List ℕ) (k : ℕ) (s : Dma)
    → IsRing t h (b ∷ bs) k s
    → (k' : ℕ) × IsRing t h (b ∷ bs) (suc k') (act s) × ((act s).rx_head ≡ s.rx_head)

owned_zero :
    (t : Layout) (h b : ℕ) (bs : List ℕ) (s : Dma)
    → IsRing t h (b ∷ bs) 0 s
    → is_owned (s.rx (h % t.receive_count)) ≡ true
owned_zero t h b bs s r = r.slots.1

owned_suc :
    (t : Layout) (h b : ℕ) (bs : List ℕ) (k : ℕ) (s : Dma)
    → IsRing t h (b ∷ bs) (suc k) s
    → is_owned (s.rx (h % t.receive_count)) ≡ false
owned_suc t h b bs k s r = r.slots.1

module _ (t : Layout) (crowd poll : ℕ → Dma → Dma) where
  -- The first test of the loop lets the others run whenever the ring has a buffer.
  yield_far-crowd :
      (fuel h b : ℕ) (bs : List ℕ) (k : ℕ) (s : Dma)
      → IsRing t h (b ∷ bs) k s
      → s.rx_tail < 2 ^ 64
      → yield_far t crowd poll t.receive_count h s.rx_tail fuel s ≡ crowd fuel s
  unfolding yield_far
  yield_far-crowd fuel h b bs k s r l =
      let e =
        le→leb t.receive_count ((h + (2 ^ 64 - s.rx_tail)) % 2 ^ 64)
          (omega (arith, r.tail_at, r.room, r.bounded)) in
      rw e refl

  await_again :
      (fuel h : ℕ) (s s' : Dma)
      → yield_far t crowd poll t.receive_count h s.rx_tail fuel s ≡ s'
      → is_owned (s'.rx (h % t.receive_count)) ≡ true
      → await_receive t crowd poll (suc fuel) h s ≡ await_receive t crowd poll fuel h (poll fuel s')
  unfolding await_receive
  await_again fuel h s s' e o =
      subst
        (λ (u : Dma).
          is_owned (u.rx (h % t.receive_count)) ≡ true
          → await_receive t crowd poll (suc fuel) h s
            ≡ await_receive t crowd poll fuel h (poll fuel u))
        e (λ o'. rw (await_receive, o') refl) o

  await_done :
      (fuel h : ℕ) (s s' : Dma)
      → yield_far t crowd poll t.receive_count h s.rx_tail fuel s ≡ s'
      → is_owned (s'.rx (h % t.receive_count)) ≡ false
      → await_receive t crowd poll (suc fuel) h s ≡ some s'
  unfolding await_receive
  await_done fuel h s s' e o =
      subst
        (λ (u : Dma).
          is_owned (u.rx (h % t.receive_count)) ≡ false
          → await_receive t crowd poll (suc fuel) h s ≡ some u)
        e (λ o'. rw (await_receive, o') refl) o

-- The wait ends with a filled buffer in front and nothing else changed by the driver.
abbrev Waits : Layout → (ℕ → Dma → Dma) → (ℕ → Dma → Dma) → ℕ → ℕ → ℕ → List ℕ → Dma → Type 0
Waits t crowd poll fuel h b bs s =
    (s' : Dma) × (k : ℕ) × (await_receive t crowd poll fuel h s ≡ some s')
    × IsRing t h (b ∷ bs) (suc k) s'
    × (s'.rx_head ≡ s.rx_head)

module _ (t : Layout) (crowd poll : ℕ → Dma → Dma) (h b : ℕ) (bs : List ℕ) where
  filled_round :
      (fuel k : ℕ) (s s' : Dma)
      → yield_far t crowd poll t.receive_count h s.rx_tail fuel s ≡ s'
      → IsRing t h (b ∷ bs) (suc k) s'
      → s'.rx_head ≡ s.rx_head
      → Waits t crowd poll (suc fuel) h b bs s
  filled_round fuel k s s' e r same =
      (s', k, await_done t crowd poll fuel h s s' e (owned_suc t h b bs k s' r), r, same)

  round-Waits :
      (fuel k : ℕ) (s s' : Dma)
      → yield_far t crowd poll t.receive_count h s.rx_tail fuel s ≡ s'
      → IsRing t h (b ∷ bs) k s'
      → s'.rx_head ≡ s.rx_head
      → IsDevice t (poll fuel)
      → ((j : ℕ) (u : Dma) → IsRing t h (b ∷ bs) j u → Waits t crowd poll fuel h b bs u)
      → Waits t crowd poll (suc fuel) h b bs s
  round-Waits fuel (suc k) s s' e r same device next = filled_round fuel k s s' e r same
  round-Waits fuel zero s s' e r same device next =
      let (k, _, r', same') = device h (b ∷ bs) 0 s' r in
      let (u, j, answer, ring, head) = next k (poll fuel s') r' in
      (
        u,
        j,
        await_again t crowd poll fuel h s s' e (owned_zero t h b bs s' r) ∙ answer,
        ring,
        head ∙ same' ∙ same,
      )

  await-Waits :
      (fuel k : ℕ) (s : Dma)
      → IsRing t h (b ∷ bs) k s
      → h + length (b ∷ bs) < 2 ^ 64
      → ((n : ℕ) → IsDevice t (crowd n))
      → ((n : ℕ) → IsDevice t (poll n))
      → Fills t (crowd 0)
      → Waits t crowd poll (suc fuel) h b bs s
  await-Waits zero k s r l others waiting fills =
      let (k', r', same) = fills h b bs k s r in
      filled_round 0 k' s (crowd 0 s)
        (yield_far-crowd t crowd poll 0 h b bs k s r (omega (arith, r.tail_at))) r' same
  await-Waits (suc fuel) k s r l others waiting fills =
      let (k', _, r', same) = others (suc fuel) h (b ∷ bs) k s r in
      round-Waits (suc fuel) k' s (crowd (suc fuel) s)
        (yield_far-crowd t crowd poll (suc fuel) h b bs k s r (omega (arith, r.tail_at))) r' same
        (waiting (suc fuel)) (λ j u ring. await-Waits fuel j u ring l others waiting fills)

-- The answer of `receive` is the buffer in front, which leaves the ring with the length that the device wrote.
abbrev pub Takes : Layout → ℕ → List ℕ → Dma → Option (ℕ × Dma) → Type 0
Takes t b bs s answer =
    (s' : Dma) × (k : ℕ) × (answer ≡ some (b, s'))
    × IsRing t s'.rx_head bs k s'
    × (s'.rx_head ≡ s.rx_head + 1)
    × (s'.buffers b ≡ construct b (frame_length (s'.rx (s.rx_head % t.receive_count))) 1)

receive-some :
    (t : Layout) (crowd poll : ℕ → Dma → Dma) (fuel : ℕ) (s s' : Dma)
    → await_receive t crowd poll fuel s.rx_head (record s { rx_head = (s.rx_head + 1) % 2 ^ 64 })
      ≡ some s'
    → receive t crowd poll fuel s ≡ some (take t s.rx_head s')
unfolding receive
receive-some t crowd poll fuel s s' e = rw (receive, e) refl

-- However the device fills the buffers of the ring while the driver waits, if it has filled one by the last round of the
-- wait, then `receive` ends: it takes the first buffer of the ring, with one reference and the length that the device
-- wrote, and leaves the other buffers in the ring in order.
pub receive-Takes :
    (t : Layout) (crowd poll : ℕ → Dma → Dma) (fuel k b : ℕ) (bs : List ℕ) (s : Dma)
    → IsRing t s.rx_head (b ∷ bs) k s
    → s.rx_tail < 2 ^ 64
    → ((n : ℕ) → IsDevice t (crowd n))
    → ((n : ℕ) → IsDevice t (poll n))
    → Fills t (crowd 0)
    → Takes t b bs s (receive t crowd poll (suc fuel) s)
unfolding take
receive-Takes t crowd poll fuel k b bs s r l others waiting fills =
    let h = s.rx_head in
    let n = t.receive_count in
    let s0 : Dma = record s { rx_head = (h + 1) % 2 ^ 64 } in
    let r0 : IsRing t h (b ∷ bs) k s0 = record {
      slots = r.slots;
      tail_at = r.tail_at;
      room = r.room;
      sized = r.sized;
      bounded = r.bounded;
    } in
    let (u, j, answer, ring, head) =
      await-Waits t crowd poll h b bs fuel k s0 r0 (omega (arith, r.tail_at)) others waiting
        fills in
    let e : u.rx_head ≡ h + 1 = head ∙ omega (arith, r.tail_at) in
    let c = construct b (frame_length (u.rx (h % n))) 1 in
    let s' : Dma = record u { buffers = update u.buffers b c } in
    (
      s',
      j,
      receive-some t crowd poll (suc fuel) s u answer
          ∙ ap
              (λ (a : ℕ). some (
                a,
                record u {
                  buffers = update u.buffers a (construct a (frame_length (u.rx (h % n))) 1);
                },
              ))
              ring.slots.0,
      record {
        slots = rw e ring.slots.2;
        tail_at = omega (arith, ring.tail_at, e);
        room = omega (arith, ring.room);
        sized = ring.sized;
        bounded = ring.bounded;
      },
      e,
      update_self u.buffers b c,
    )

-- ===== src/Drivers/Ethernet/Driver/Send.antt =====
-- What the driver does with a buffer that is sent.
use depos.Base.{
  ℕ, suc, ◌+◌, ◌-◌, ◌*◌, ◌%◌, ◌^◌, ◌<◌, ◌≡◌, arith, ◌∙◌, ap, true, false, refl, Option, some, [],
  ◌∷◌, ◌++◌, leb, update_self,
}
use depos.Network.Buffer.{length_of}
use depos.Drivers.Ethernet.{
  Layout, Dma, Descriptor, await_send, yield_far, put, send, is_owned, buffer_of, frame_length,
  tx_tail_pointer, set_buffer, send_flags,
}
use depos.Drivers.Ethernet.Descriptors.{buffer_of-set_buffer, send_flags-owned}
use depos.Drivers.Ethernet.Driver.{dma_free, device_send}

-- The buffer of a frame that was sent: the descriptor at the head of the ring holds its start and its length and is the
-- device's, the device is told of the slot behind it, and the buffer is the last on the list of free buffers.
abbrev pub Sends : Layout → ℕ → Dma → Option Dma → Type 0
Sends t buffer s answer =
    (s' : Dma) × (answer ≡ some s')
    × (buffer_of (s'.sx (s.sx_head % t.send_count)) ≡ (s.buffers buffer).start)
    × (frame_length (s'.sx (s.sx_head % t.send_count)) ≡ length_of (s.buffers buffer) % 2 ^ 14)
    × (is_owned (s'.sx (s.sx_head % t.send_count)) ≡ true)
    × (s'.registers tx_tail_pointer
        ≡ (t.sx_descriptors + 16 * ((s.sx_head + 1) % t.send_count)) % 2 ^ 32)
    × (s'.sx_list ≡ s.sx_list ++ (buffer ∷ []))
    × (s'.sx_head ≡ s.sx_head + 1)
    × (s'.sx_tail ≡ s.sx_tail + 1)

module _ (t : Layout) (crowd poll : ℕ → Dma → Dma) (fuel : ℕ) where
  send-some :
      (start length : ℕ) (s s' : Dma)
      → await_send t crowd poll fuel s.sx_head (record s { sx_head = (s.sx_head + 1) % 2 ^ 64 })
        ≡ some s'
      → send t crowd poll fuel start length s ≡ some (put t s.sx_head start length s')
  unfolding send
  send-some start length s s' e = rw (send, e) refl

  await_free :
      (i : ℕ) (s : Dma)
      → leb t.send_count ((i + (2 ^ 64 - s.sx_tail)) % 2 ^ 64) ≡ false
      → is_owned (s.sx (i % t.send_count)) ≡ false
      → await_send t crowd poll (suc fuel) i s ≡ some s
  unfolding await_send yield_far
  await_free i s e o = ground (arith, e, o)

  device_send-some :
      (buffer : ℕ) (s s' : Dma)
      → send t crowd poll fuel (s.buffers buffer).start (length_of (s.buffers buffer)) s ≡ some s'
      → device_send t crowd poll fuel buffer s ≡ some (dma_free t buffer s')
  unfolding device_send
  device_send-some buffer s s' e = rw (device_send, e) refl

-- the descriptor that `send` writes
abbrev filled : ℕ → ℕ → Descriptor → Descriptor
filled start length d = record (set_buffer start d) {
  des2 = length % 2 ^ 14;
  des3 = send_flags length;
}

filled-fields :
    (start length : ℕ) (d : Descriptor)
    → start < 2 ^ 64
    → (buffer_of (filled start length d) ≡ start)
      × (frame_length (filled start length d) ≡ length % 2 ^ 14)
      × (is_owned (filled start length d) ≡ true)
unfolding buffer_of is_owned frame_length
filled-fields start length d m =
    let e = send_flags-owned length in (buffer_of-set_buffer start d m, e.1, ground (arith, e.0))

-- If all buffers that were sent are free again and the descriptor at the head of the ring is not the device's, then `send`
-- does not wait: it gives the descriptor to the device with the start and the length of the frame, writes the tail
-- pointer, and puts the buffer behind the free ones, from which it can be allocated again while the descriptor is still the
-- device's.
pub device_send-Sends :
    (t : Layout) (crowd poll : ℕ → Dma → Dma) (fuel buffer : ℕ) (s : Dma)
    → 0 < t.send_count
    → s.sx_tail ≡ s.sx_head
    → s.sx_head + 1 < 2 ^ 64
    → (s.buffers buffer).start < 2 ^ 64
    → is_owned (s.sx (s.sx_head % t.send_count)) ≡ false
    → Sends t buffer s (device_send t crowd poll (suc fuel) buffer s)
unfolding dma_free put
device_send-Sends t crowd poll fuel buffer s sized same low fits idle =
    let h = s.sx_head in
    let slot = h % t.send_count in
    let start = (s.buffers buffer).start in
    let length = length_of (s.buffers buffer) in
    let s0 : Dma = record s { sx_head = (h + 1) % 2 ^ 64 } in
    let near : (h + (2 ^ 64 - s.sx_tail)) % 2 ^ 64 ≡ 0 = omega (arith, same, low) in
    let e = await_free t crowd poll fuel h s0 (ground (arith, near, sized)) idle in
    let d = filled start length (s.sx slot) in
    let at = update_self s.sx slot d in
    let f = filled-fields start length (s.sx slot) fits in
    let next : (h + 1) % 2 ^ 64 ≡ h + 1 = omega arith in
    (
      dma_free t buffer (put t h start length s0),
      device_send-some t crowd poll (suc fuel) buffer s (put t h start length s0)
          (send-some t crowd poll (suc fuel) start length s s0 e),
      ap buffer_of at ∙ f.0,
      ap frame_length at ∙ f.1,
      ap is_owned at ∙ f.2,
      update_self s.registers tx_tail_pointer
            ((t.sx_descriptors + 16 * ((h + 1) % 2 ^ 64 % t.send_count)) % 2 ^ 32)
          ∙ ap (λ (k : ℕ). (t.sx_descriptors + 16 * (k % t.send_count)) % 2 ^ 32) next,
      refl,
      next,
      omega (arith, same),
    )

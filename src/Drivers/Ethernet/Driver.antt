-- ===== src/Drivers/Ethernet/Driver.antt =====
-- The constructor, `alloc` and `free` of the DMA, and the class `DWC_Ether_QoS` over it, with its handler of
-- interrupts. An Ethernet header has 14 bytes.
pub mod Init
pub mod Send
use depos.Drivers.Ethernet.{
  Descriptor, Layout, Dma, construct, release, receive, send, tx_tail_pointer,
}
use depos.Network.Buffer.{Buffer, advance, length_of}
use depos.Base.{
  ℕ, zero, suc, ◌+◌, ◌-◌, ◌*◌, ◌/◌, ◌%◌, ◌^◌, ◌==◌, leb, if◌then◌else◌, Bool, true, false, Option,
  none, some, List, [], ◌∷◌, ◌++◌, update, bit_or,
}

abbrev pub cleared : Descriptor
cleared = record { des0 = 0; des1 = 0; des2 = 0; des3 = 0 }

-- `Reg32(Address, offset) = word`
pub put_word : ℕ → ℕ → Dma → Dma
put_word offset word s = record s { registers = update s.registers offset (word % 2 ^ 32) }

-- `Reg32(Address, offset) |= mask`
pub set_bits : ℕ → ℕ → Dma → Dma
set_bits offset mask s = put_word offset (bit_or (s.registers offset) mask) s

-- `n` buffers of an array from buffer `i` on, as their default constructor leaves them
pub construct_from : (ℕ → ℕ) → ℕ → ℕ → (ℕ → Buffer) → ℕ → Buffer
construct_from addresses zero i buffers = buffers
construct_from addresses (suc n) i buffers =
    construct_from addresses n (i + 1) (update buffers (addresses i) (construct (addresses i) 0 0))

module _ (t : Layout) where
  -- the first loop of the constructor, from buffer `i` on
  pub prepare_sends : ℕ → ℕ → Dma → Dma
  prepare_sends zero i s = s
  prepare_sends (suc n) i s =
      prepare_sends n (i + 1)
        (record s { sx = update s.sx i cleared; sx_list = s.sx_list ++ (t.sx_buffers i ∷ []) })

  -- the second loop
  pub release_from : ℕ → ℕ → Dma → Dma
  release_from zero i s = s
  release_from (suc n) i s = release_from n (i + 1) (release t (t.rx_buffers i) s)

  -- the registers that the constructor writes between the loops and the last release
  pub set_rings : Dma → Dma
  set_rings s =
      let s1 = set_bits 4100 2048 s in
      let s2 = put_word 4380 t.rx_descriptors s1 in
      let s3 = put_word 4376 (t.rx_descriptors / 2 ^ 32) s2 in
      let s4 = put_word 4400 (t.receive_count - 1) s3 in
      let s5 = put_word 4372 t.sx_descriptors s4 in
      let s6 = put_word 4368 (t.sx_descriptors / 2 ^ 32) s5 in
      let s7 = put_word 4396 (t.send_count - 1) s6 in set_bits 4360 1 (set_bits 4356 1 s7)

  -- the constructor, on the memory that it finds
  pub dma : Dma → Dma
  dma s =
      let s0 = record s {
        sx_list = [];
        sx_head = 0;
        sx_tail = 0;
        rx_head = 0;
        rx_tail = 0;
        buffers =
            construct_from t.rx_buffers t.receive_count 0
              (construct_from t.sx_buffers t.send_count 0 s.buffers);
      } in
      let s1 = prepare_sends t.send_count 0 s0 in
      let s2 = release_from (t.receive_count - 1) 0 s1 in
      release t (t.rx_buffers (t.receive_count - 1)) (set_rings s2)

  pub dma_free : ℕ → Dma → Dma
  dma_free buffer s = record s {
    sx_list = s.sx_list ++ (buffer ∷ []);
    sx_tail = (s.sx_tail + 1) % 2 ^ 64;
  }

-- takes the first buffer of the list
pub hand : ℕ → ℕ → List ℕ → Dma → ℕ × Dma
hand length buffer rest s = (
  buffer,
  record s { sx_list = rest; buffers = update s.buffers buffer (construct buffer length 0) },
)

-- `alloc` of the DMA, which yields until the list has a buffer
module _ (poll : ℕ → Dma → Dma) where
  pub dma_alloc : ℕ → ℕ → Dma → Option (ℕ × Dma)
  dma_alloc zero length s = none
  dma_alloc (suc fuel) length s = elim s.sx_list [
    | [] ↦ dma_alloc fuel length (poll fuel s)
    | buffer ∷ rest ↦ some (hand length buffer rest s)
  ]

pub advance_at : ℕ → Dma → Dma
advance_at buffer s = record s { buffers = update s.buffers buffer (advance 14 (s.buffers buffer)) }

-- the operations of the device, on the address of a buffer
module _ (t : Layout) (crowd poll : ℕ → Dma → Dma) (fuel : ℕ) where
  pub device_alloc : ℕ → Dma → Option (ℕ × Dma)
  device_alloc length s = elim (dma_alloc poll fuel ((length + 14) % 2 ^ 64) s) [
    | none ↦ none
    | some (buffer, s') ↦ some (buffer, advance_at buffer s')
  ]

  pub device_receive : Dma → Option (ℕ × Dma)
  device_receive s = elim (receive t crowd poll fuel s) [
    | none ↦ none
    | some (buffer, s') ↦ some (buffer, advance_at buffer s')
  ]

  pub device_send : ℕ → Dma → Option Dma
  device_send buffer s =
      let b = s.buffers buffer in
      elim (send t crowd poll fuel b.start (length_of b) s) [
        | none ↦ none
        | some s' ↦ some (dma_free t buffer s')
      ]

-- `onTrap`: the status after it, and how often the worker was told. `acknowledge` is what a write does to the status.
pub on_trap : (ℕ → ℕ → ℕ) → ℕ → ℕ × ℕ
on_trap acknowledge status =
    let first = status / 64 % 2 == 1 in
    let status' = if first then acknowledge 64 status else status in
    let second = status' / 128 % 2 == 1 in
    (
      (if second then acknowledge 128 status' else status'),
      (if first then 1 else 0) + (if second then 1 else 0),
    )

-- ===== src/Drivers/Ethernet.antt =====
-- include/drivers/ethernet/DWC_Ether_QoS.hpp: the descriptors and the two rings of its DMA. The registers of the
-- device and its traits are parameters, as is what happens elsewhere at a `Thread::yield`: the device goes on there.
-- The cache is coherent, so flushes are left out.
pub mod Driver
pub mod Phy
pub mod Mac
pub mod Descriptors
pub mod Receive
pub mod Worker
use depos.Base.{
  ℕ, zero, suc, ◌+◌, ◌-◌, ◌*◌, ◌/◌, ◌%◌, ◌^◌, ◌==◌, leb, if◌then◌else◌, Bool, true, false, Option,
  none, some, List, [], ◌∷◌, ◌++◌, update, bit_or,
}
use depos.Network.Buffer.{Buffer}

pub record Descriptor : Type 0 where
  pub des0 : ℕ
  pub des1 : ℕ
  pub des2 : ℕ
  pub des3 : ℕ

-- `des3 & OWN`
unfoldable pub is_owned : Descriptor → Bool
is_owned d = d.des3 / 2 ^ 31 % 2 == 1

pub frame_length : Descriptor → ℕ
frame_length d = d.des3 % 2 ^ 14

unfoldable pub buffer_of : Descriptor → ℕ
buffer_of d = bit_or (d.des1 * 2 ^ 32) d.des0

pub set_buffer : ℕ → Descriptor → Descriptor
set_buffer pointer d = record d { des0 = pointer % 2 ^ 32; des1 = pointer / 2 ^ 32 % 2 ^ 32 }

-- `Traits`, and where the arrays of the object lie
pub record Layout : Type 0 where
  pub send_count : ℕ
  pub receive_count : ℕ
  pub sx_descriptors : ℕ
  pub rx_descriptors : ℕ
  pub sx_buffers : ℕ → ℕ
  pub rx_buffers : ℕ → ℕ

-- The fields of the object. `sx_list` holds the buffers on the FIFO; `registers` are those of the device and
-- `buffers` the buffers at their addresses.
pub record Dma : Type 0 where
  pub sx_list : List ℕ
  pub sx : ℕ → Descriptor
  pub rx : ℕ → Descriptor
  pub sx_head : ℕ
  pub sx_tail : ℕ
  pub rx_head : ℕ
  pub rx_tail : ℕ
  pub registers : ℕ → ℕ
  pub buffers : ℕ → Buffer

-- `CH0_TX_TAIL_POINTER`
abbrev pub tx_tail_pointer : ℕ
tx_tail_pointer = 4384

-- `CH0_RX_TAIL_POINTER`
abbrev pub rx_tail_pointer : ℕ
rx_tail_pointer = 4392

-- the constructor of `DWC_Ether_QoS_Buffer` at an address, with its count of references
pub construct : ℕ → ℕ → ℕ → Buffer
construct address length references = record {
  start = address;
  head = address;
  tail = (address + length) % 2 ^ 64;
  references = references;
}

-- `OWN | FD | LD | (length & 0x3FFF)`
pub send_flags : ℕ → ℕ
send_flags length = 2 ^ 31 + 2 ^ 29 + 2 ^ 28 + length % 2 ^ 14

-- `OWN | IOC | BUF1V`
abbrev pub receive_flags : ℕ
receive_flags = 3238002688

module _ (t : Layout) where
  pub release : ℕ → Dma → Dma
  release buffer s =
      let i = s.rx_tail % t.receive_count in
      let tail = (s.rx_tail + 1) % 2 ^ 64 in
      let d = record (set_buffer buffer (s.rx i)) { des2 = 0; des3 = receive_flags } in
      let pointer = (t.rx_descriptors + 16 * (tail % t.receive_count)) % 2 ^ 32 in
      record s {
        rx = update s.rx i d;
        rx_tail = tail;
        registers = update s.registers rx_tail_pointer pointer;
      }

  -- The loops that wait for the descriptor of ticket `i`: on fuel, with what happens at the first and at the second
  -- `yield` of each round, by the rounds left. `none` is fuel that ran out.
  module _ (crowd poll : ℕ → Dma → Dma) where
    -- the first `yield`, at `i - tail >= count`
    pub yield_far : ℕ → ℕ → ℕ → ℕ → Dma → Dma
    yield_far count i tail fuel s =
        if leb count ((i + (2 ^ 64 - tail)) % 2 ^ 64) then crowd fuel s else s

    pub await_receive : ℕ → ℕ → Dma → Option Dma
    await_receive zero i s = none
    await_receive (suc fuel) i s =
        let s' = yield_far t.receive_count i s.rx_tail fuel s in
        elim (is_owned (s'.rx (i % t.receive_count))) [
          | true ↦ await_receive fuel i (poll fuel s')
          | false ↦ some s'
        ]

    pub await_send : ℕ → ℕ → Dma → Option Dma
    await_send zero i s = none
    await_send (suc fuel) i s =
        let s' = yield_far t.send_count i s.sx_tail fuel s in
        elim (is_owned (s'.sx (i % t.send_count))) [
          | true ↦ await_send fuel i (poll fuel s')
          | false ↦ some s'
        ]

  -- what `receive` does with the descriptor that the device has given back
  pub take : ℕ → Dma → ℕ × Dma
  take i s =
      let d = s.rx (i % t.receive_count) in
      let address = buffer_of d in
      (
        address,
        record s { buffers = update s.buffers address (construct address (frame_length d) 1) },
      )

  -- what `send` does with a descriptor that the device does not own
  pub put : ℕ → ℕ → ℕ → Dma → Dma
  put i start length s =
      let slot = i % t.send_count in
      let d = record (set_buffer start (s.sx slot)) {
        des2 = length % 2 ^ 14;
        des3 = send_flags length;
      } in
      let pointer = (t.sx_descriptors + 16 * (s.sx_head % t.send_count)) % 2 ^ 32 in
      record s { sx = update s.sx slot d; registers = update s.registers tx_tail_pointer pointer }

  module _ (crowd poll : ℕ → Dma → Dma) (fuel : ℕ) where
    pub receive : Dma → Option (ℕ × Dma)
    receive s =
        elim (await_receive crowd poll fuel s.rx_head
          (record s { rx_head = (s.rx_head + 1) % 2 ^ 64 })) [
            | none ↦ none
            | some s' ↦ some (take s.rx_head s')
          ]

    pub send : ℕ → ℕ → Dma → Option Dma
    send start length s =
        elim (await_send crowd poll fuel s.sx_head
          (record s { sx_head = (s.sx_head + 1) % 2 ^ 64 })) [
            | none ↦ none
            | some s' ↦ some (put s.sx_head start length s')
          ]

-- ===== src/Tests/Drivers.antt =====
-- A ring of two buffers with a device that fills every buffer it owns, and a chip behind a bus.
use depos.Base.{
  ℕ, zero, suc, ◌+◌, ◌*◌, ◌/◌, ◌%◌, ◌^◌, ◌≤◌, ◌≡◌, ◌≢◌, ◌==◌, if◌then◌else◌, arith, true, false,
  Bool, some, refl, List, [], ◌∷◌, length, update,
}
use depos.Network.Buffer.{Buffer}
use depos.Drivers.Ethernet.{Descriptor, Layout, Dma, is_owned, buffer_of}
use depos.Drivers.Ethernet.Driver.{dma, device_send}
use depos.Drivers.Ethernet.Driver.Init.{values, dma-IsRing}
use depos.Drivers.Ethernet.Driver.Send.{Sends, device_send-Sends}
use depos.Drivers.Ethernet.Receive.{Slots, IsRing, IsDevice, Fills}
use depos.Drivers.Ethernet.Worker.{turns, rounds, rounds-turns}
use depos.Drivers.Clock.Pll0.{rate, set_rate}
use depos.Drivers.Clock.Pll0.Rate.{rate-set_rate}
use depos.Drivers.Clock.{divide, divisor, clock_at}
use depos.Drivers.Clock.Divider.{divisor-divide}
use depos.Drivers.Power.{range, pstate, set, set_voltage, voltage, find_range}
use depos.Drivers.Power.Voltage.{IsMemory, voltage-set_voltage}
use depos.Drivers.Power.Scaling.{vision_five_2, set-refuses}

abbrev layout : Layout
layout = record {
  send_count = 2;
  receive_count = 2;
  sx_descriptors = 1024;
  rx_descriptors = 2048;
  sx_buffers = λ i. 16384 + 8192 * i;
  rx_buffers = λ i. 65536 + 8192 * i;
}

abbrev empty_buffer : Buffer
empty_buffer = record { start = 16384; head = 16384; tail = 16484; references = 0 }

abbrev posted_to : ℕ → Descriptor
posted_to address = record { des0 = address; des1 = 0; des2 = 0; des3 = 3238002688 }

abbrev free_one : Descriptor
free_one = record { des0 = 0; des1 = 0; des2 = 0; des3 = 0 }

abbrev card : Dma
card = record {
  sx_list = 24576 ∷ [];
  sx = λ i. free_one;
  rx = λ i. if i == 0 then posted_to 65536 else posted_to 73728;
  sx_head = 3;
  sx_tail = 3;
  rx_head = 4;
  rx_tail = 6;
  registers = λ i. 0;
  buffers = λ i. empty_buffer;
}

card-IsRing : IsRing layout 4 (65536 ∷ 73728 ∷ []) 0 card
unfolding is_owned buffer_of
card-IsRing = record {
  slots = (refl, refl, (refl, refl, refl));
  tail_at = refl;
  room = omega arith;
  sized = omega arith;
  bounded = omega arith;
}

-- the device, which writes frames of 64 bytes
abbrev fill : Dma → Dma
fill s = record s { rx = λ i. record (s.rx i) { des3 = 64 } }

filled-Slots :
    (n : ℕ) (ring : ℕ → Descriptor) (i k : ℕ) (bs : List ℕ)
    → Slots n ring i k bs
    → Slots n (λ j. record (ring j) { des3 = 64 }) i (length bs) bs
unfolding is_owned buffer_of
filled-Slots n ring i k [] v = refl
filled-Slots n ring i zero (b ∷ bs) v = (v.0, refl, filled-Slots n ring (i + 1) 0 bs v.2)
filled-Slots n ring i (suc k) (b ∷ bs) v = (v.0, refl, filled-Slots n ring (i + 1) k bs v.2)

filled-le :
    (n : ℕ) (ring : ℕ → Descriptor) (i k : ℕ) (bs : List ℕ) → Slots n ring i k bs → k ≤ length bs
filled-le n ring i k [] v = omega (arith, v)
filled-le n ring i zero (b ∷ bs) v = omega arith
filled-le n ring i (suc k) (b ∷ bs) v = omega (arith, filled-le n ring (i + 1) k bs v.2)

filled-IsRing :
    (h : ℕ) (bs : List ℕ) (k : ℕ) (s : Dma)
    → IsRing layout h bs k s
    → IsRing layout h bs (length bs) (fill s)
filled-IsRing h bs k s r = record {
  slots = filled-Slots 2 s.rx h k bs r.slots;
  tail_at = r.tail_at;
  room = r.room;
  sized = r.sized;
  bounded = r.bounded;
}

fill-IsDevice : IsDevice layout fill
fill-IsDevice h bs k s r =
    (length bs, filled-le 2 s.rx h k bs r.slots, filled-IsRing h bs k s r, refl)

fill-Fills : Fills layout fill
fill-Fills h b bs k s r = (length bs, filled-IsRing h (b ∷ bs) k s r, refl)

look-IsDevice : IsDevice layout (λ s. s)
look-IsDevice h bs k s r = (k, omega arith, r, refl)

rounds-turns_example :
    (s' : Dma) × (k' : ℕ) × (rounds layout (λ n. fill) (λ n. fill) 1 (λ b s. s) 3 card
      ≡ some (65536 ∷ 73728 ∷ 65536 ∷ [], s'))
    × IsRing layout s'.rx_head (73728 ∷ 65536 ∷ []) k' s'
unfolding turns
rounds-turns_example =
    rounds-turns layout (λ n. fill) (λ n. fill) 1 (λ b s. s) 3 0 (65536 ∷ 73728 ∷ []) card
      card-IsRing (omega arith) (omega arith) (omega arith) (λ i. fill-IsDevice)
      (λ i. fill-IsDevice) (λ i. look-IsDevice) fill-Fills

dma-IsRing_example :
    IsRing layout 0 (65536 ∷ 73728 ∷ []) 0 (dma layout card)
    × ((dma layout card).rx_head ≡ 0)
    × ((dma layout card).sx_list ≡ 16384 ∷ 24576 ∷ [])
unfolding values
dma-IsRing_example = dma-IsRing layout card (omega arith) (omega arith) (λ j h. omega arith)

device_send-Sends_example :
    Sends layout 16384 card (device_send layout (λ n. fill) (λ n. fill) 1 16384 card)
unfolding is_owned
device_send-Sends_example =
    device_send-Sends layout (λ n. fill) (λ n. fill) 0 16384 card (omega arith) refl (omega arith)
      (omega arith) refl

rate-set_rate_example : rate (set_rate (λ a. 2864434397)) ≡ some 1500000000
rate-set_rate_example = rate-set_rate (λ a. 2864434397) (λ a. omega arith)

divisor-divide_example :
    (divide 268566528 285212672 4 3 (λ a. 16777217) (clock_at 268566528 285212672 4) % 2 ^ 24 ≡ 3)
    × (divide 268566528 285212672 4 3 (λ a. 16777217) (clock_at 268566528 285212672 4) / 2 ^ 24 ≡ 1)
    × ((other : ℕ)
        → other ≢ clock_at 268566528 285212672 4
        → divide 268566528 285212672 4 3 (λ a. 16777217) other ≡ 16777217)
    × (divisor 268566528 285212672 4 (divide 268566528 285212672 4 3 (λ a. 16777217)) ≡ 16777216)
divisor-divide_example =
    divisor-divide 268566528 285212672 4 3 (λ a. 16777217) (omega arith) (omega arith)

-- the chip: its bytes, and the number of the one that is read next
abbrev Chip : Type 0
Chip = (ℕ → ℕ) × ℕ

abbrev chip_write : List ℕ → Bool → Chip → Bool × Chip
chip_write [] stop s = (false, s)
chip_write (reg ∷ []) stop s = (true, (s.0, reg))
chip_write (reg ∷ byte ∷ rest) stop s = (true, (update s.0 reg byte, reg))

abbrev chip_read : Bool → Chip → (Bool × ℕ) × Chip
chip_read stop s = ((true, s.0 s.1), s)

chip-IsMemory : IsMemory chip_write chip_read (λ s reg. s.0 reg)
chip-IsMemory = (λ reg byte s. ground arith, λ reg s. refl, λ reg s. refl)

voltage-set_voltage_example :
    (s' : Chip) × (set_voltage chip_write chip_read vision_five_2 2 905 ((λ i. 0), 0)
      ≡ some (true, s'))
    × ((voltage chip_write chip_read 2 s').0 ≡ 900)
unfolding find_range
voltage-set_voltage_example =
    voltage-set_voltage chip_write chip_read (λ s reg. s.0 reg) vision_five_2 (range 2 800 1040) 2
      905 ((λ i. 0), 0) chip-IsMemory refl (omega arith) (omega arith) (omega arith) (omega arith)

set-refuses_example :
    set chip_write chip_read vision_five_2 268566528 285212672
      (pstate 750000000 900000)
      ((λ i. 0), 0)
      (λ a. 0)
    ≡ some (false, ((λ i. 0), 0), (λ a. 0))
set-refuses_example =
    set-refuses chip_write chip_read 268566528 285212672 (pstate 750000000 900000) ((λ i. 0), 0)
      (λ a. 0)

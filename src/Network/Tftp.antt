-- ===== src/Network/Tftp.antt =====
-- include/network/protocols/TFTP.hpp: the client that reads a file. A packet that is sent is kept as
-- its fields and its port, and `signals` counts the calls of `semaphore_.v()`.
pub mod Receive
use depos.Base.{
  ℕ, zero, suc, ◌+◌, ◌-◌, ◌*◌, ◌%◌, ◌==◌, ltb, leb, if◌then◌else◌, ◌&&◌, Bool, true, false, List,
  [], ◌∷◌, get_or, length, ◌++◌, map, Option, none, some, drop,
}

-- an acknowledgement of a block, with the port that it goes to
pub data Packet : Type 0 where
  acknowledge : ℕ → ℕ → Packet
  read_request : List ℕ → ℕ → Packet

pub record Client : Type 0 where
  pub buffer : ℕ → ℕ
  pub buffer_size : ℕ
  pub received : ℕ
  pub block : ℕ
  pub done : Bool
  pub error : Bool
  pub signals : ℕ
  pub sent : List Packet

-- `k_blksize_int`
abbrev pub block_size : ℕ
block_size = 1468

-- `memcpy(buffer + offset, data, length)`
pub copy : (ℕ → ℕ) → ℕ → List ℕ → ℕ → ℕ
copy buffer offset payload i =
    if leb offset i && ltb i (offset + length payload)
    then get_or payload (i - offset) 0
    else buffer i

abbrev pub ack : ℕ → ℕ → Client → Client
ack block source c = record c { sent = c.sent ++ (acknowledge (block % 65536) source ∷ []) }

pub on_error : Client → Client
on_error c = record c { error = true; signals = c.signals + 1 }

-- the rest of `onData` for the block that is expected
pub accept : List ℕ → ℕ → ℕ → Client → Client
accept payload block source c =
    let c' = record c {
      block = (c.block + 1) % 65536;
      sent = c.sent ++ (acknowledge block source ∷ []);
      buffer = copy c.buffer c.received payload;
      received = c.received + length payload;
    } in
    if ltb (length payload) block_size
    then record c' { done = true; signals = c.signals + 1 }
    else c'

pub on_data : List ℕ → ℕ → ℕ → Client → Client
on_data payload block source c =
    if c.done
    then c
    else (if ltb c.buffer_size (c.received + length payload)
        then on_error c
        else (if block == c.block
            then accept payload block source c
            else ack (c.block + 65535) source c))

-- a big-endian number of two bytes of a packet
abbrev pub half_at : List ℕ → ℕ → ℕ
half_at packet i = get_or packet i 0 * 256 + get_or packet (i + 1) 0

-- `update`, at a packet of at least four bytes
pub update : List ℕ → ℕ → Client → Client
update packet source c =
    if half_at packet 0 == 6
    then ack 0 source c
    else (if half_at packet 0 == 3
        then on_data (drop 4 packet) (half_at packet 2) source c
        else (if half_at packet 0 == 5 then on_error c else c))

-- `request` up to its wait: the state of the transfer, and the request to port 69. `option_value` are the
-- bytes that are copied for the value of the option, and one more byte of the packet follows them.
pub request : List ℕ → List ℕ → ℕ → ℕ → (ℕ → ℕ) → Client → Client
request filename option_value last size buffer c = record c {
  buffer = buffer;
  buffer_size = size;
  received = 0;
  block = 1;
  done = false;
  error = false;
  sent =
      c.sent
      ++ (read_request
            (0 ∷ (1 ∷ filename)
              ++ (0 ∷ (111 ∷ 99 ∷ 116 ∷ 101 ∷ 116 ∷ 0 ∷ []))
              ++ (98 ∷ 108 ∷ 107 ∷ 115 ∷ 105 ∷ 122 ∷ 101 ∷ 0 ∷ [])
              ++ option_value
              ++ (last ∷ []))
            69
          ∷ []);
}

-- the answer of `request` once the semaphore was signalled
pub answer : Client → ℕ
answer c = if c.error then 0 else c.received

-- ===== src/Tests/Network.antt =====
-- A file of one short block, two machines that find each other, and a datagram.
use depos.Base.{
  inl, inr, ◌-◌, ℕ, ◌+◌, ◌*◌, ◌/◌, ◌%◌, ◌≡◌, ◌≢◌, ◌==◌, ◌||◌, [], ◌∷◌, none, some, if◌then◌else◌,
  arith, refl, false,
}
use depos.Network.Tftp.{Client}
use depos.Network.Tftp.Receive
use depos.Network.Tftp.Receive.{Implements, Blocks, receive_all, on_all, on_all-Implements}
use depos.Network.Arp.{Header, Machine, look, resolve, receive}
use depos.Network.Arp.Exchange.{SentBy, resolve-request}
use depos.Network.Checksum.{checksum}
use depos.Network.Checksum.Verify.{bytes_of, checksum-verifies}
use depos.Network.Udp
use depos.Network.Udp.Ports.{deliver-send}

abbrev started : Client
started = record {
  buffer = λ i. 0;
  buffer_size = 16;
  received = 0;
  block = 1;
  done = false;
  error = false;
  signals = 0;
  sent = [];
}

started-Implements : Implements ([], 1, false) started
started-Implements = record {
  holds = record { amount = refl; bytes = λ i h. absurd (omega arith) };
  next_block = refl;
  is_done = refl;
  no_error = refl;
}

abbrev repeated : Blocks
repeated = (2, 9 ∷ []) ∷ (1, 7 ∷ 8 ∷ []) ∷ (1, 7 ∷ 8 ∷ []) ∷ []

on_all-Implements_example :
    Implements (receive_all repeated ([], 1, false)) (on_all 69 repeated started)
unfolding Receive.receive
on_all-Implements_example =
    on_all-Implements 69 repeated ([], 1, false) started
      (inr (omega arith), (inr (omega arith), (inl refl, tt))) started-Implements

abbrev machine : ℕ → ℕ → Machine
machine ha pa = record {
  hardware = ha;
  protocol = pa;
  table = λ i. record { ha = 0; pa = 0; valid = false };
  sent = [];
}

abbrev own_address : ℕ
own_address = 3

resolve-request_example :
    (question : Header) × SentBy (λ m. (resolve 3 99 m).1) (machine 66 2) ((99, question) ∷ [])
    × ((resolve 3 99 (machine 66 2)).0 ≡ none)
    × (own_address ≢ 3 → receive 2054 question (machine 77 3) ≡ machine 77 3)
    × (own_address ≡ 3
        → (answer : Header) × SentBy (receive 2054 question) (machine 77 3) ((66, answer) ∷ [])
          × (look 3 (receive 2054 answer (machine 66 2)) ≡ some 77))
unfolding look
resolve-request_example = resolve-request (machine 66 2) (machine 77 3) 3 99 refl

checksum-verifies_example :
    let c = checksum (bytes_of ((1, 2) ∷ ((0, 0) ∷ (3, 4) ∷ []))) in
    (c ≡ 65534 - (513 + 1027 - 1) % 65535)
    × (checksum (bytes_of ((1, 2) ∷ ((c % 256, c / 256) ∷ (3, 4) ∷ []))) ≡ 0)
checksum-verifies_example =
    checksum-verifies ((1, 2) ∷ []) ((3, 4) ∷ []) (omega arith) (omega arith)

deliver-send_example : Udp.update 17664 (Udp.send 1000 69 (1 ∷ [])) 17 ≡ (
    if (17664 == 0) || (17664 == 69 % 256 * 256 + 69 / 256) then some (1 ∷ [], 69, 1000) else none)
deliver-send_example = deliver-send 1000 17664 69 (1 ∷ []) (omega arith) (omega arith)

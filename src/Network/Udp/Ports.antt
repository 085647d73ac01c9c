-- ===== src/Network/Udp/Ports.antt =====
-- Which receivers get a datagram.
use depos.Base.{ℕ, ◌+◌, ◌*◌, ◌/◌, ◌%◌, ◌<◌, ◌≡◌, ◌==◌, if◌then◌else◌, ◌||◌, List, none, some, arith}
use depos.Network.Udp.{send, update}

-- A datagram to a port is handed on by a receiver with no port of its own, and by a receiver with one exactly
-- if that one is the port with its bytes swapped.
pub deliver-send :
    (own own' port : ℕ) (payload : List ℕ)
    → own < 65536
    → port < 65536
    → update own' (send own port payload) 17 ≡ (
        if (own' == 0) || (own' == port % 256 * 256 + port / 256)
        then some (payload, port, own)
        else none)
unfolding update send
deliver-send own own' port payload h k =
    let e : port / 256 % 256 * 256 + port % 256 ≡ port = omega arith in
    let f : own / 256 % 256 * 256 + own % 256 ≡ own = omega arith in
    let g : port / 256 % 256 + 256 * (port % 256) ≡ port % 256 * 256 + port / 256 = omega arith in
    rw (e, f, g) (ground arith)

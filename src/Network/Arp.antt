-- ===== src/Network/Arp.antt =====
-- include/network/protocols/ARP.hpp: the addresses of the machines of the network. The table is
-- include/utility/collections/Hash.hpp with one entry at each last byte. Addresses are numbers, and a
-- protocol address has its last byte, `pa[3]`, as its remainder by 256. The mutex of an entry makes
-- its read and its writes one step; a thread that does not find its answer waits for the next.
pub mod Exchange
use depos.Base.{
  ℕ, ◌+◌, ◌%◌, ◌==◌, if◌then◌else◌, Bool, true, false, ◌&&◌, List, [], ◌∷◌, ◌++◌, Option, none,
  some, update,
}

pub record Entry : Type 0 where
  pub ha : ℕ
  pub pa : ℕ
  pub valid : Bool

-- A packet: `operation`, the addresses of the sender and of the target.
pub record Header : Type 0 where
  pub operation : ℕ
  pub sha : ℕ
  pub spa : ℕ
  pub dha : ℕ
  pub dpa : ℕ

-- A machine: its addresses, its table, and the packets that it sent with the address they went to.
pub record Machine : Type 0 where
  pub hardware : ℕ
  pub protocol : ℕ
  pub table : ℕ → Entry
  pub sent : List (ℕ × Header)

-- `Hasher`
pub slot : ℕ → ℕ
slot pa = pa % 256

-- The part of `resolve` that finds the address.
unfoldable pub look : ℕ → Machine → Option ℕ
look pa m =
    let entry = m.table (slot pa) in if entry.valid && (entry.pa == pa) then some entry.ha else none

-- `request`
pub request : ℕ → ℕ → Machine → Machine
request pa solver m = record m {
  sent =
      m.sent
      ++ ((solver, record { operation = 1; sha = m.hardware; spa = m.protocol; dha = 0; dpa = pa })
          ∷ []);
}

found_or_request : ℕ → ℕ → Option ℕ → Machine → Option ℕ × Machine
found_or_request pa solver (some ha) m = (some ha, m)
found_or_request pa solver none m = (none, request pa solver m)

-- One round of `resolve`: the address, or a request that is sent before the thread waits.
pub resolve : ℕ → ℕ → Machine → Option ℕ × Machine
resolve pa solver m = found_or_request pa solver (look pa m) m

pub on_reply : Header → Machine → Machine
on_reply h m = record m {
  table = update m.table (slot h.spa) (record { ha = h.sha; pa = h.spa; valid = true });
}

pub on_request : Header → Machine → Machine
on_request h m =
    if h.dpa == m.protocol
    then record m {
      sent =
          m.sent
          ++ ((
            h.sha,
            record { operation = 2; sha = m.hardware; spa = m.protocol; dha = h.sha; dpa = h.spa },
          )
              ∷ []);
    }
    else m

-- `update`, at the type of the frame and the packet
pub receive : ℕ → Header → Machine → Machine
receive ethertype h m =
    if ethertype == 2054 then (if h.operation == 2 then on_reply h m else on_request h m) else m

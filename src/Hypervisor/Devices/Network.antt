-- ===== src/Hypervisor/Devices/Network.antt =====
-- include/hypervisor/virtio/Network.hpp. `transmit` is what the network device does at the bytes of a frame:
-- it allocates a buffer, and sends it where there is one.
use depos.Base.{
  ℕ, zero, suc, ◌+◌, ◌-◌, ◌%◌, ◌^◌, ◌==◌, ltb, if◌then◌else◌, not, Option, none, some, List, [],
  ◌∷◌, ◌++◌, update, ◌>>=◌, length,
}
use depos.Hypervisor.Queue.{Queue, Rings, available, alloc, get, free}
use depos.Hypervisor.Devices.{has_next, bytes, store, Guest, raise}

-- `sizeof(NetworkHeader)`
abbrev pub header_size : ℕ
header_size = 10

module _ {ℓ} {S : Type ℓ} (transmit : List ℕ → S → S) where
  -- `send`
  unfoldable pub send : Guest → ℕ → ℕ → S → S
  send g start size s = if size == 0 then s else transmit (bytes g.memory start size) s

  -- the loop of `process`, from the descriptor behind the first on: the first number is fuel
  unfoldable pub process_rest : ℕ → Guest → ℕ → Queue → ℕ → S → Option (ℕ × S)
  process_rest zero g id q total s = none
  process_rest (suc k) g id q total s = get id q >>= λ p.
      let d = g.descriptors id in
      let total' = (total + d.length) % 2 ^ 64 in
      let s' = send g d.address d.length s in
      let rest = process_rest k g d.next q total' s' in
      if has_next d then rest else some (total', s')

  -- `process`: the first descriptor starts with a header
  unfoldable pub process : ℕ → Guest → ℕ → Queue → S → Option (ℕ × S)
  process fuel g head q s = get head q >>= λ p.
      let d = g.descriptors head in
      let s' =
        if ltb d.length header_size
        then s
        else send g ((d.address + header_size) % 2 ^ 64) (d.length - header_size) s in
      let rest = process_rest fuel g d.next q d.length s' in
      if has_next d then rest else some (d.length, s')

  -- one round of `worker`, behind `semaphore_.p()` while `running_`
  pub work : ℕ → Queue → Rings → Guest × S → Option (Queue × Rings × Guest × S)
  work zero q r (g, s) = none
  work (suc k) q r (g, s) =
      if available q r
      then (let (head, q') = alloc q r in
          process k g head q' s >>= λ (total, s').
          free head (total % 2 ^ 32) q' r >>= λ r'. work k q' r' (raise g, s'))
      else some (q, r, g, s)

-- `update`: a frame from the device goes to the next descriptor, behind a header of zeros
unfoldable pub update_guest : List ℕ → Queue → Rings → Guest → Option (Queue × Rings × Guest)
update_guest frame q r g =
    if not (available q r)
    then some (q, r, g)
    else (let (id, q') = alloc q r in
        get id q' >>= λ p.
        let d = g.descriptors id in
        let size = length frame + header_size in
        let d' = record d { length = size % 2 ^ 32 } in
        let zeros = 0 ∷ 0 ∷ 0 ∷ 0 ∷ 0 ∷ 0 ∷ 0 ∷ 0 ∷ 0 ∷ 0 ∷ [] in
        free id (size % 2 ^ 32) q' r >>= λ r'. some (
          q',
          r',
          raise (record g {
            descriptors = update g.descriptors id d';
            memory = store (zeros ++ frame) d.address g.memory;
          }),
        ))

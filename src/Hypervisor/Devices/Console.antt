-- ===== src/Hypervisor/Devices/Console.antt =====
-- include/hypervisor/virtio/Console.hpp
pub mod Chains
use depos.Base.{
  ℕ, zero, suc, ◌+◌, ◌-◌, ◌%◌, ◌^◌, ◌==◌, if◌then◌else◌, Bool, true, false, not, Option, none, some,
  List, [], ◌∷◌, ◌++◌, update, ◌>>=◌, length,
}
use depos.Hypervisor.Queue.{Queue, Rings, available, alloc, get, free}
use depos.Hypervisor.Devices.{
  Descriptor, Descriptors, Memory, has_next, bytes, store, Guest, raise, serve,
}

-- `print`: the characters of a descriptor, behind those that were printed
unfoldable pub print : Guest → Descriptor → List ℕ → List ℕ
print g d out = out ++ bytes g.memory d.address d.length

-- `process` from one descriptor on, with what is printed and counted: the first number is fuel
unfoldable pub process_from : ℕ → Guest → ℕ → Queue → ℕ → List ℕ → Option (ℕ × List ℕ)
process_from zero g id q total out = none
process_from (suc k) g id q total out = get id q >>= λ p.
    let d = g.descriptors id in
    let total' = (total + d.length) % 2 ^ 64 in
    let rest = process_from k g d.next q total' (print g d out) in
    if has_next d then rest else some (total', print g d out)

unfoldable pub process : ℕ → Guest → ℕ → Queue → List ℕ → Option (ℕ × List ℕ)
process fuel g head q out = process_from fuel g head q 0 out

-- `notify`: `TX` is 1
unfoldable pub notify : ℕ → Guest → ℕ → Queue → Rings → List ℕ → Option (Queue × Rings × List ℕ)
notify fuel g source q r out =
    let rest = serve (process fuel g) fuel q r out in
    if not (source == 1) then some (q, r, out) else rest

-- `update`: the bytes go to the address of the next descriptor
unfoldable pub update_guest : List ℕ → Queue → Rings → Guest → Option (Queue × Rings × Guest)
update_guest text q r g =
    if not (available q r)
    then some (q, r, g)
    else (let (id, q') = alloc q r in
        get id q' >>= λ p.
        let d = g.descriptors id in
        let size = length text in
        let d' = record d { length = size % 2 ^ 32; flags = 0 } in
        free id (size % 2 ^ 32) q' r >>= λ r'. some (
          q',
          r',
          raise (record g {
            descriptors = update g.descriptors id d';
            memory = store text d.address g.memory;
          }),
        ))

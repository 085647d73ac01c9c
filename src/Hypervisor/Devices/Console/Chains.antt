-- ===== src/Hypervisor/Devices/Console/Chains.antt =====
-- The console prints the chains of descriptors that the driver put in the queue.
use depos.Base.{
  ◌*◌, ℕ, zero, suc, ◌+◌, ◌%◌, ◌^◌, ◌<◌, ◌≡◌, ◌≢◌, true, false, some, List, [], ◌∷◌, ◌++◌, arith,
  refl, sym, ap, ap₂, ◌∙◌, subst, lt→ltb, ◌∈◌, length, append_assoc, append-nil,
}
use depos.Hypervisor.Queue.{Queue, Rings, get}
use depos.Hypervisor.Queue.Transfer.{outstanding, amount}
use depos.Hypervisor.Devices.{Descriptors, has_next, bytes, Guest}
use depos.Hypervisor.Devices.Serve.{publish_all, effect_all, serve_by}
use depos.Hypervisor.Devices.Console.{print, process_from, process, notify}

-- From the descriptor `id` on, the chain goes through `ids` and ends, within a queue of that size.
abbrev pub IsChain : Descriptors → ℕ → ℕ → List ℕ → Type 0
IsChain t size id [] = (id < size) × (has_next (t id) ≡ false)
IsChain t size id (n ∷ ids) =
    (id < size) × (has_next (t id) ≡ true) × ((t id).next ≡ n) × IsChain t size n ids

-- the bytes of the descriptors of a chain, and how many they are
abbrev pub text : Guest → List ℕ → List ℕ
text g [] = []
text g (id ∷ ids) =
    bytes g.memory (g.descriptors id).address (g.descriptors id).length ++ text g ids

abbrev pub total : Guest → List ℕ → ℕ
total g [] = 0
total g (id ∷ ids) = (g.descriptors id).length + total g ids

get_lem : (id : ℕ) (q : Queue) → id < q.size → get id q ≡ some (q.descriptors_at + 16 * id)
unfolding get
get_lem id q h = rw (lt→ltb id q.size h) refl

process_last :
    (k : ℕ) (g : Guest) (id : ℕ) (q : Queue) (sum : ℕ) (out : List ℕ)
    → id < q.size
    → has_next (g.descriptors id) ≡ false
    → process_from (suc k) g id q sum out
      ≡ some ((sum + (g.descriptors id).length) % 2 ^ 64, print g (g.descriptors id) out)
unfolding process_from
process_last k g id q sum out h e = rw (get_lem id q h, e) refl

process_next :
    (k : ℕ) (g : Guest) (id : ℕ) (q : Queue) (sum : ℕ) (out : List ℕ)
    → id < q.size
    → has_next (g.descriptors id) ≡ true
    → process_from (suc k) g id q sum out
      ≡ process_from k g
          (g.descriptors id).next
          q
          ((sum + (g.descriptors id).length) % 2 ^ 64)
          (print g (g.descriptors id) out)
unfolding process_from
process_next k g id q sum out h e = rw (get_lem id q h, e) refl

process_from-chain :
    (k : ℕ) (g : Guest) (id : ℕ) (ids : List ℕ) (q : Queue) (sum : ℕ) (out : List ℕ)
    → IsChain g.descriptors q.size id ids
    → length ids < k
    → process_from k g id q sum out
      ≡ some ((sum + total g (id ∷ ids)) % 2 ^ 64, out ++ text g (id ∷ ids))
unfolding print
process_from-chain zero g id ids q sum out c h = absurd (omega arith)
process_from-chain (suc k) g id [] q sum out c h =
    process_last k g id q sum out c.0 c.1
    ∙ ap₂ (λ (n : ℕ) (o : List ℕ). some (n, o)) (omega arith)
        (ap (λ l. out ++ l)
          (sym (append-nil (bytes g.memory (g.descriptors id).address (g.descriptors id).length))))
process_from-chain (suc k) g id (n ∷ ids) q sum out c h =
    let rest =
      process_from-chain k g n ids q ((sum + (g.descriptors id).length) % 2 ^ 64)
        (print g (g.descriptors id) out) c.3 (omega arith) in
    process_next k g id q sum out c.0 c.1
    ∙ (ap
          (λ i.
            process_from k g i q ((sum + (g.descriptors id).length) % 2 ^ 64)
              (print g (g.descriptors id) out))
          c.2
        ∙ (rest
            ∙ ap₂ (λ (s : ℕ) (o : List ℕ). some (s, o)) (omega arith)
                (append_assoc out
                  (bytes g.memory (g.descriptors id).address (g.descriptors id).length)
                  (text g (n ∷ ids)))))

IsChain-first : (t : Descriptors) (size id : ℕ) (ids : List ℕ) → IsChain t size id ids → id < size
IsChain-first t size id [] c = c.0
IsChain-first t size id (n ∷ ids) c = c.0

process_lem :
    (fuel : ℕ) (g : Guest) (id : ℕ) (ids : List ℕ) (q q1 : Queue) (out : List ℕ)
    → q1.size ≡ q.size
    → IsChain g.descriptors q.size id ids × (length ids < fuel)
    → process fuel g id q1 out ≡ some (total g (id ∷ ids) % 2 ^ 64, out ++ text g (id ∷ ids))
unfolding process
process_lem fuel g id ids q q1 out e (c, h) =
    let zero_sum : 0 + total g (id ∷ ids) ≡ total g (id ∷ ids) = omega arith in
    process_from-chain fuel g id ids q1 0 out
      (subst (λ n. IsChain g.descriptors n id ids) (sym e) c) h
    ∙ ap (λ (n : ℕ). some (n % 2 ^ 64, out ++ text g (id ∷ ids))) zero_sum

-- What the console does with the heads in its queue, where `chain h` is what follows the descriptor `h`.
abbrev pub Prints : ℕ → Guest → Queue → Rings → List ℕ → (ℕ → List ℕ) → Type 0
Prints fuel g q r out chain =
    let heads = outstanding (amount q r) q.size q.last_available_index r in
    let count = λ (h : ℕ). total g (h ∷ chain h) % 2 ^ 64 in
    let says = λ (h : ℕ) (o : List ℕ). o ++ text g (h ∷ chain h) in
    (q' : Queue) × (notify fuel g 1 q r out
      ≡ some (
        q',
        publish_all (process fuel g) count says q.size heads r,
        effect_all (process fuel g) count says q.size heads out,
      ))
    × (q'.last_available_index ≡ r.available_index)

-- A notification of the queue that the guest sends on, where the queue has an address, its indices are half-words,
-- and the fuel is more than the chains in the queue and the descriptors behind the first of each chain: it
-- ends, the console prints the bytes of all chains in the order that the driver put them in, each
-- chain is in the used ring with the number of its bytes, and all of them are taken.
pub notify-Prints :
    (fuel : ℕ) (g : Guest) (q : Queue) (r : Rings) (out : List ℕ) (chain : ℕ → List ℕ)
    → q.available_at ≢ 0
    → q.last_available_index < 65536
    → r.available_index < 65536
    → amount q r < fuel
    → ((h : ℕ)
        → h ∈ outstanding (amount q r) q.size q.last_available_index r
        → IsChain g.descriptors q.size h (chain h) × (length (chain h) < fuel))
    → Prints fuel g q r out chain
unfolding notify
notify-Prints fuel g q r out chain ne a b h chains =
    let count = λ (h : ℕ). total g (h ∷ chain h) % 2 ^ 64 in
    let says = λ (h : ℕ) (o : List ℕ). o ++ text g (h ∷ chain h) in
    serve_by (process fuel g) count says q.size (amount q r) fuel q r out refl ne a b refl h (λ i m.
      (
        IsChain-first g.descriptors q.size i (chain i) (chains i m).0,
        λ q1 o e. process_lem fuel g i (chain i) q q1 o e (chains i m),
      ))

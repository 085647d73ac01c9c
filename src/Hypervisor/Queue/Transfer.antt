-- ===== src/Hypervisor/Queue/Transfer.antt =====
-- How descriptors pass through the rings of a queue.
use depos.Base.{
  ℕ, zero, suc, ◌+◌, ◌-◌, ◌%◌, ◌<◌, ◌≤◌, ◌≡◌, ◌≢◌, lt→ltb, if◌then◌else◌, refl, ap₂, sym, ◌∙◌,
  arith, true, false, List, [], ◌∷◌, some, update, update_self, update_ne,
}
use depos.Hypervisor.Queue.{Queue, Rings, available, alloc, free}

-- The device takes while the driver has put something there: the descriptors that were taken.
pub drain : ℕ → Queue → Rings → List ℕ × Queue
drain zero q r = ([], q)
drain (suc fuel) q r =
    let rest = drain fuel (alloc q r).1 r in
    if available q r then ((alloc q r).0 ∷ rest.0, rest.1) else ([], q)

-- the slots from index `from` on that hold what the driver has put there
abbrev pub outstanding : ℕ → ℕ → ℕ → Rings → List ℕ
outstanding zero size from r = []
outstanding (suc n) size from r =
    r.available_ring (from % size) ∷ outstanding n size ((from + 1) % 65536) r

-- how many descriptors the driver has put in and the device has not taken
abbrev pub amount : Queue → Rings → ℕ
amount q r = (r.available_index + 65536 - q.last_available_index) % 65536

pub available_none :
    (q : Queue) (r : Rings) → q.last_available_index ≡ r.available_index → available q r ≡ false
unfolding available
available_none q r e = ground arith

pub available_some :
    (q : Queue) (r : Rings)
    → q.available_at ≢ 0
    → q.last_available_index ≢ r.available_index
    → available q r ≡ true
unfolding available
available_some q r n e = ground arith

drain_none : (fuel : ℕ) (q : Queue) (r : Rings) → available q r ≡ false → drain fuel q r ≡ ([], q)
unfolding drain
drain_none zero q r e = refl
drain_none (suc fuel) q r e = rw e refl

drain_some :
    (fuel : ℕ) (q : Queue) (r : Rings)
    → available q r ≡ true
    → drain (suc fuel) q r
      ≡ ((alloc q r).0 ∷ (drain fuel (alloc q r).1 r).0, (drain fuel (alloc q r).1 r).1)
unfolding drain
drain_some fuel q r e = rw e refl

pub alloc-fields :
    (q : Queue) (r : Rings)
    → ((alloc q r).0 ≡ r.available_ring (q.last_available_index % q.size))
      × ((alloc q r).1.last_available_index ≡ (q.last_available_index + 1) % 65536)
      × ((alloc q r).1.size ≡ q.size)
      × ((alloc q r).1.available_at ≡ q.available_at)
unfolding alloc
alloc-fields q r = (refl, refl, refl, refl)

abbrev pub Drained : Queue → Rings → ℕ → List ℕ × Queue → Type 0
Drained q r n (taken, q') =
    (taken ≡ outstanding n q.size q.last_available_index r)
    × (q'.last_available_index ≡ r.available_index)

drain_by :
    (n fuel : ℕ) (q : Queue) (r : Rings)
    → q.available_at ≢ 0
    → q.last_available_index < 65536
    → r.available_index < 65536
    → amount q r ≡ n
    → n ≤ fuel
    → Drained q r n (drain fuel q r)
drain_by zero fuel q r ne a b e h =
    let same : q.last_available_index ≡ r.available_index = omega arith in
    rw (drain_none fuel q r (available_none q r same)) (refl, same)
drain_by (suc n) zero q r ne a b e h = absurd (omega arith)
drain_by (suc n) (suc fuel) q r ne a b e h =
    let (f0, f1, f2, f3) = alloc-fields q r in
    let ne' : q.last_available_index ≢ r.available_index = λ z. absurd (omega arith) in
    let (i0, i1) =
      drain_by n fuel (alloc q r).1 r (λ z. ne (sym f3 ∙ z)) (omega (arith, f1)) b
        (omega (arith, f1)) (omega arith) in
    rw (drain_some fuel q r (available_some q r ne ne'))
      (ap₂ ◌∷◌ f0 (i0 ∙ ap₂ (λ s l. outstanding n s l r) f2 f1), i1)

-- Taking while there is something takes all that the driver has put in, in its order, and stops.
pub drain-outstanding :
    (fuel : ℕ) (q : Queue) (r : Rings)
    → q.available_at ≢ 0
    → q.last_available_index < 65536
    → r.available_index < 65536
    → amount q r ≤ fuel
    → Drained q r (amount q r) (drain fuel q r)
drain-outstanding fuel q r ne a b h = drain_by (amount q r) fuel q r ne a b refl h

-- the entry that the driver finds in a slot of the used ring
abbrev pub used : Queue → Rings → ℕ → ℕ × ℕ
used q r index = r.used_ring (index % q.size)

-- A descriptor of the queue that is freed is in the slot of the used index, which moves on by one,
-- and the entries of the `size - 1` slots before it stay.
pub free-used :
    (id len : ℕ) (q : Queue) (r : Rings)
    → id < q.size
    → (r' : Rings) × (free id len q r ≡ some r')
      × (used q r' r.used_index ≡ (id, len))
      × (r'.used_index ≡ (r.used_index + 1) % 65536)
      × ((slot : ℕ) → slot % q.size ≢ r.used_index % q.size → used q r' slot ≡ used q r slot)
unfolding free
free-used id len q r h =
    let r' = record r {
      used_ring = update r.used_ring (r.used_index % q.size) (id, len);
      used_index = (r.used_index + 1) % 65536;
    } in
    (
      r',
      rw (lt→ltb id q.size h) refl,
      update_self r.used_ring (r.used_index % q.size) (id, len),
      refl,
      λ slot ne. update_ne r.used_ring (r.used_index % q.size) (id, len) (slot % q.size) ne,
    )

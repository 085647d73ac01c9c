-- ===== src/Memory/Buddy/Contract.antt =====
-- What `Buddy::remove` and `Buddy::insert` promise for a size in bytes.
use depos.Base.{
  ℕ, ◌+◌, ◌*◌, ◌-◌, ◌^◌, ◌≤◌, ◌<◌, ◌≡◌, refl, ◌==◌, Option, some, arith, inl, inr, ap, ne→==_false,
  bit_and, true,
}
use depos.Base.Bits.{bit_and_low, pow-split}
use depos.Memory.Buddy.{Free, bucket_of, bucket, remove_from, remove, insert}
use depos.Memory.Buddy.Cover.{byte_in}
use depos.Memory.Buddy.Aligned.{IsAligned}
use depos.Memory.Buddy.Laws.{
  cover, Gains, insert_at-Gains, Loses, Hands, remove_from-Hands, Request, request,
}
use native.Mathlib.Nat.{mul-mod_left, mul_assoc, one-le-pow, le_of_mul-le-mul_right}

-- the two ways that `remove` can end for a size with the logarithm `l`
abbrev pub Removes : ℕ → ℕ → ℕ → Free → ℕ → Type 0
Removes minimum last size free l =
    (out : Option ℕ × Free) × (remove minimum last size free ≡ some out)
    × Hands minimum last (bucket_of minimum l) free out

-- For every size up to 2 ^ 63, `remove` either hands out a block of the power of two that holds the
-- size, aligned to it, which was free and is the only memory that stops being free, or returns null
-- and changes nothing, and then every bucket of large enough blocks is empty.
pub remove-Hands :
    (minimum last size : ℕ) (free : Free)
    → size ≤ 2 ^ 63
    → IsAligned minimum free
    → (r : Request minimum size) × Removes minimum last size free r.log
unfolding remove bucket
remove-Hands minimum last size free h al =
    let r = request minimum size h in
    (
      r,
      (
        remove_from minimum last (bucket_of minimum r.log) free,
        rw r.gives refl,
        remove_from-Hands minimum last (bucket_of minimum r.log) free al,
      ),
    )

-- No block is free twice.
abbrev pub IsDisjoint : ℕ → ℕ → Free → Type 0
IsDisjoint minimum last free = (x : ℕ) → cover minimum last free x ≤ 1

-- A block that leaves disjoint free lists shares no byte with what is left, and what is left is
-- disjoint.
pub Loses-exclusive :
    (minimum last order a : ℕ) (free free' : Free)
    → IsDisjoint minimum last free
    → Loses minimum last order a free free'
    → IsDisjoint minimum last free'
      × ((x : ℕ) → byte_in (2 ^ order) a x ≡ 1 → cover minimum last free' x ≡ 0)
Loses-exclusive minimum last order a free free' d l =
    (λ x. omega (arith, d x, l.covers x), λ x h. omega (arith, d x, l.covers x))

-- what `insert` asserts of the address
insert_assert :
    (minimum l q : ℕ) → bit_and (q * 2 ^ (bucket_of minimum l + minimum)) (2 ^ l - 1) ≡ 0
insert_assert minimum l q =
    let k = bucket_of minimum l + minimum in
    let e : l + (k - l) ≡ k = ground arith in
    let s : 2 ^ k ≡ 2 ^ (k - l) * 2 ^ l = rw e at (pow-split l (k - l)) in
    let m : q * 2 ^ k ≡ q * 2 ^ (k - l) * 2 ^ l =
      rw (s, ← mul_assoc q (2 ^ (k - l)) (2 ^ l)) refl in
    rw (bit_and_low l (q * 2 ^ k), m) (mul-mod_left (q * 2 ^ (k - l)) (2 ^ l))

-- `insert` of a block that starts at a multiple of its size, at least 2 ^ MAXIMUM away from the
-- null pointer, ends without a failed `assert`, and adds exactly the bytes of the block to what is
-- free, whatever blocks it merges.
pub insert-Gains :
    (minimum last size q : ℕ) (free : Free) (r : Request minimum size)
    → 0 < size
    → bucket_of minimum r.log ≤ last
    → 2 ^ (last - bucket_of minimum r.log) ≤ q
    → IsAligned minimum free
    → let order = bucket_of minimum r.log + minimum in
      (free' : Free) × (insert minimum last (q * 2 ^ order) size free ≡ some free')
      × Gains minimum last order (q * 2 ^ order) free free'
unfolding insert
insert-Gains minimum last size q free r pos le far al =
    let n = bucket_of minimum r.log in
    let (free', e, g) = insert_at-Gains minimum last n q free le far al in
    let a : (bit_and (q * 2 ^ (n + minimum)) (2 ^ r.log - 1) == 0) ≡ true =
      rw (insert_assert minimum r.log q) refl in
    (free', rw (insert, r.gives, ne→==_false size 0 (omega arith), a) e, g)

pub far_enough :
    (minimum last n q : ℕ)
    → n ≤ last
    → 2 ^ (last + minimum) ≤ q * 2 ^ (n + minimum)
    → 2 ^ (last - n) ≤ q
far_enough minimum last n q le h =
    let e : n + minimum + (last - n) ≡ last + minimum = omega arith in
    let s : 2 ^ (last + minimum) ≡ 2 ^ (last - n) * 2 ^ (n + minimum) =
      rw e at (pow-split (n + minimum) (last - n)) in
    let p = one-le-pow (n + minimum) 2 (omega arith) in
    le_of_mul-le-mul_right {k = 2 ^ (n + minimum)} (omega arith) p

give_back :
    (minimum last size p : ℕ) (free free' : Free) (r : Request minimum size)
    → 0 < size
    → bucket_of minimum r.log ≤ last
    → 2 ^ (last + minimum) ≤ p
    → Loses minimum last (bucket_of minimum r.log + minimum) p free free'
    → (free'' : Free) × (insert minimum last p size free' ≡ some free'')
      × IsAligned minimum free''
      × ((x : ℕ) → cover minimum last free'' x ≡ cover minimum last free x)
give_back minimum last size p free free' r pos le far l =
    let n = bucket_of minimum r.log in
    let (q, e) = l.at_multiple in
    let (free'', ins, g) =
      insert-Gains minimum last size q free' r pos le
        (far_enough minimum last n q le (omega (arith, e))) l.aligned in
    (
      free'',
      rw e ins,
      g.aligned,
      λ x. omega (arith, g.covers x, l.covers x, ap (λ t. byte_in (2 ^ (n + minimum)) t x) e),
    )

-- Freeing the block that `remove` handed out, at least 2 ^ MAXIMUM away from the null pointer, never
-- fails, and makes free, byte for byte, what was free before.
pub remove-insert :
    (minimum last size p : ℕ) (free free' : Free)
    → 0 < size
    → size ≤ 2 ^ 63
    → IsAligned minimum free
    → remove minimum last size free ≡ some (some p, free')
    → 2 ^ (last + minimum) ≤ p
    → (free'' : Free) × (insert minimum last p size free' ≡ some free'')
      × IsAligned minimum free''
      × ((x : ℕ) → cover minimum last free'' x ≡ cover minimum last free x)
remove-insert minimum last size p free free' pos h al e far =
    let (r, out) = remove-Hands minimum last size free h al in
    elim out.2 [
      | inr (o, _) ↦ absurd (cc (out.1, e, o))
      | inl (p', f', o, le, l) ↦
          let p_eq : p' ≡ p = ground (arith, out.1, e, o) in
          let f_eq : f' ≡ free' = ground (arith, out.1, e, o) in
          rw (← p_eq, ← f_eq)
            (give_back minimum last size p' free f' r pos le (omega (arith, p_eq)) l)
    ]

-- ===== src/Memory/Buddy/Laws.antt =====
-- The allocator's contract: `remove` hands out one aligned block that was free, and nothing else
-- changes; `insert` gives back exactly the block.
use depos.Base.{
  ℕ, ◌+◌, ◌*◌, ◌-◌, ◌^◌, ◌≤◌, ◌≡◌, refl, ◌⊎◌, [], ◌∷◌, Option, none, some, update, arith, inl, inr,
  ap, le→ltb_false, ne→==_false,
}
use depos.Base.Bits.{pow-split}
use depos.Memory.Buddy.{Free, log2ceil, bucket_of, split, remove_from, insert_at}
use depos.Memory.Buddy.Log.{IsLog, log2ceil-IsLog}
use depos.Memory.Buddy.Cover.{byte_in, cover_list, cover_upto, cover-update}
use depos.Memory.Buddy.Aligned.{IsAligned, IsAligned-update, Aligned, AllAligned}
use depos.Memory.Buddy.Split.{Taken, take_first-cases, split-Splits}
use depos.Memory.Buddy.Merge.{merge-Merges}
use native.Mathlib.Nat.{one-le-pow}

module _ (minimum last : ℕ) where
  -- how many free blocks hold the byte `x`
  abbrev pub cover : Free → ℕ → ℕ
  cover free x = cover_upto minimum (last + 1) free x

  -- The block of 2 ^ `order` bytes at `a` has come to the free lists.
  pub record Gains (order a : ℕ) (free free' : Free) : Type 0 where
    pub aligned : IsAligned minimum free'
    pub covers : (x : ℕ) → cover free' x ≡ cover free x + byte_in (2 ^ order) a x

  pub insert_at-Gains :
      (n q : ℕ) (free : Free)
      → n ≤ last
      → 2 ^ (last - n) ≤ q
      → IsAligned minimum free
      → (free' : Free) × (insert_at minimum last (q * 2 ^ (n + minimum)) n free ≡ some free')
        × Gains (n + minimum) (q * 2 ^ (n + minimum)) free free'
  unfolding insert_at
  insert_at-Gains n q free h far al =
      let r = merge-Merges minimum (last - n) n q free far al in
      let blocks = r.address ∷ r.free' r.stop in
      (
        update r.free' r.stop blocks,
        rw (le→ltb_false last n h, r.ends, ne→==_false r.address 0 r.not_null) refl,
        record {
          aligned =
              IsAligned-update minimum r.free' r.stop blocks r.aligned
                (r.address_aligned, r.aligned r.stop);
          covers = λ x. omega (
            arith,
            r.cover (last + 1) x (omega arith),
            cover-update minimum (last + 1) r.stop r.free' blocks x (omega (arith, r.low_enough)),
          );
        },
      )

  -- The block of 2 ^ `order` bytes at `a` has left the free lists.
  pub record Loses (order a : ℕ) (free free' : Free) : Type 0 where
    pub at_multiple : Aligned (2 ^ order) a
    pub aligned : IsAligned minimum free'
    pub covers : (x : ℕ) → cover free' x + byte_in (2 ^ order) a x ≡ cover free x

  abbrev pub Hands : ℕ → Free → Option ℕ × Free → Type 0
  Hands n free out =
      ((p : ℕ) × (free' : Free) × (out ≡ (some p, free'))
        × (n ≤ last)
        × Loses (n + minimum) p free free')
      ⊎ ((out ≡ (none, free)) × ((j : ℕ) → n ≤ j → j ≤ last → free j ≡ []))

  -- The split block is the one that the search took, so what is free has lost one block of bucket `n`.
  take-Loses :
      (n : ℕ) (free : Free) (t : Taken (last + 1 - n) n free)
      → n ≤ last
      → IsAligned minimum free
      → Loses
          (n + minimum)
          t.node
          free
          (split minimum n t.node (t.at - n) (update free t.at t.others))
  take-Loses n free t h al =
      let i : n + (t.at - n) ≡ t.at = omega (arith, t.from) in
      let both : AllAligned (2 ^ (t.at + minimum)) (t.node ∷ t.others) = rw t.was at (al t.at) in
      let s =
        split-Splits minimum n t.node (t.at - n) (update free t.at t.others)
          (IsAligned-update minimum free t.at t.others al both.1) (rw i both.0) in
      record {
        at_multiple = s.node_aligned;
        aligned = s.aligned;
        covers = λ x. omega (
          arith,
          s.cover (last + 1) x (omega (arith, t.below)),
          cover-update minimum (last + 1) t.at free t.others x (omega (arith, t.below)),
          ap (λ ys. cover_list (2 ^ (t.at + minimum)) ys x) t.was,
          ap (λ k. byte_in (2 ^ (k + minimum)) t.node x) i,
        );
      }

  pub remove_from-Hands :
      (n : ℕ) (free : Free)
      → IsAligned minimum free
      → Hands n free (remove_from minimum last n free)
  unfolding remove_from
  remove_from-Hands n free al = elim (take_first-cases (last + 1 - n) n free) [
    | inl t ↦ inl (
      t.node,
      split minimum n t.node (t.at - n) (update free t.at t.others),
      rw (t.finds, remove_from) refl,
      omega (arith, t.from, t.below),
      take-Loses n free t (omega (arith, t.from, t.below)) al,
    )
    | inr (e, all) ↦ inr (rw (e, remove_from) refl, λ j h k. all j h (omega arith))
  ]

le-pow_order : (minimum l : ℕ) → 2 ^ l ≤ 2 ^ (bucket_of minimum l + minimum)
le-pow_order minimum l =
    let k = bucket_of minimum l + minimum in
    let e : l + (k - l) ≡ k = ground arith in
    let p = one-le-pow (k - l) 2 (omega arith) in
    let q : 2 ^ k ≡ 2 ^ (k - l) * 2 ^ l = rw e at (pow-split l (k - l)) in grind arith

-- what the free lists have to do with a request of `size` bytes
pub record Request (minimum size : ℕ) : Type 0 where
  pub log : ℕ
  pub is_log : IsLog size log
  pub gives : log2ceil size ≡ some log
  pub fits : size ≤ 2 ^ (bucket_of minimum log + minimum)

pub request : (minimum size : ℕ) → size ≤ 2 ^ 63 → Request minimum size
request minimum size h =
    let (l, e, is) = log2ceil-IsLog size h in
    let le = le-pow_order minimum l in
    record { log = l; is_log = is; gives = e; fits = omega (arith, is.holds) }

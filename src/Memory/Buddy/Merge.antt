-- ===== src/Memory/Buddy/Merge.antt =====
-- Where the merging loop of `insert` stops.
use depos.Base.{
  ℕ, zero, suc, ◌+◌, ◌*◌, ◌/◌, ◌^◌, ◌≤◌, ◌<◌, ◌≡◌, ◌≢◌, refl, if◌then◌else◌, some, update, arith,
  inl, inr, ap, has, erase, ltb, Bool-cases, ne→==_false,
}
use depos.Memory.Buddy.{Free, merge, buddy}
use depos.Memory.Buddy.Cover.{byte_in, byte_in-double, cover_upto, cover-update, cover_list-erase}
use depos.Memory.Buddy.Aligned.{
  IsAligned, IsAligned-update, Aligned, AllAligned-erase, two-pow-suc, buddy_pair,
}
use native.Mathlib.Nat.{pow-suc, one-le-pow}

mul-pow-ne_zero : (q k : ℕ) → 1 ≤ q → q * 2 ^ k ≢ 0
mul-pow-ne_zero q k h = let p = one-le-pow k 2 (omega arith) in grind arith

module _ (minimum : ℕ) where
  -- The merged block starts at the lower of the two addresses, and neither is null.
  lower_of_pair :
      (n q : ℕ)
      → 1 ≤ q / 2
      → let a = q * 2 ^ (n + minimum) in
        let b = buddy minimum a n in
        (b ≢ 0) × ((if ltb b a then b else a) ≡ q / 2 * 2 ^ (n + 1 + minimum))
  lower_of_pair n q h =
      let low = mul-pow-ne_zero (q / 2) (n + 1 + minimum) h in
      let p = one-le-pow (n + minimum) 2 (omega arith) in
      elim (buddy_pair minimum n q) [
        | inl (a, b) ↦ (ground arith, ground arith)
        | inr (b, a) ↦ (ground arith, ground arith)
      ]

  -- A block and its buddy cover what the block of twice the size does.
  byte_in_pair :
      (n q x : ℕ)
      → let a = q * 2 ^ (n + minimum) in
        byte_in (2 ^ (n + 1 + minimum)) (q / 2 * 2 ^ (n + 1 + minimum)) x
        ≡ byte_in (2 ^ (n + minimum)) a x + byte_in (2 ^ (n + minimum)) (buddy minimum a n) x
  byte_in_pair n q x =
      let s = 2 ^ (n + minimum) in
      let double = byte_in-double s (q / 2 * 2 ^ (n + 1 + minimum)) x in
      let size = ap (λ t. byte_in t (q / 2 * 2 ^ (n + 1 + minimum)) x) (two-pow-suc n minimum) in
      elim (buddy_pair minimum n q) [
        | inl (a, b) ↦
            omega (arith, double, size, ap (λ t. byte_in s t x) a, ap (λ t. byte_in s t x) b)
        | inr (b, a) ↦
            omega (arith, double, size, ap (λ t. byte_in s t x) a, ap (λ t. byte_in s t x) b)
      ]

  -- The block `address` of bucket `stop` covers the block that was inserted and the free blocks
  -- that were taken.
  pub record Merges (d start n : ℕ) (free : Free) : Type 0 where
    pub address : ℕ
    pub stop : ℕ
    pub free' : Free
    pub ends : merge minimum d start n free ≡ some (address, stop, free')
    pub low_enough : stop ≤ n + d
    pub not_null : address ≢ 0
    pub address_aligned : Aligned (2 ^ (stop + minimum)) address
    pub aligned : IsAligned minimum free'
    pub cover :
        (m x : ℕ)
        → n + d < m
        → cover_upto minimum m free' x + byte_in (2 ^ (stop + minimum)) address x
          ≡ cover_upto minimum m free x + byte_in (2 ^ (n + minimum)) start x

  -- Far enough from the null pointer the loop ends without a failed `assert`.
  pub merge-Merges :
      (d n q : ℕ) (free : Free)
      → 2 ^ d ≤ q
      → IsAligned minimum free
      → Merges d (q * 2 ^ (n + minimum)) n free
  unfolding merge
  merge-Merges zero n q free far al = record {
    address = q * 2 ^ (n + minimum);
    stop = n;
    free' = free;
    ends = refl;
    low_enough = omega arith;
    not_null = mul-pow-ne_zero q (n + minimum) far;
    address_aligned = (q, refl);
    aligned = al;
    cover = λ m x h. refl;
  }
  merge-Merges (suc d) n q free far al =
      let p = one-le-pow d 2 (omega arith) in
      let half : 2 ^ d ≤ q / 2 = omega (arith, pow-suc 2 d) in
      let a = q * 2 ^ (n + minimum) in
      let b = buddy minimum a n in
      let (b_ne, low) = lower_of_pair n q (omega arith) in
      let b_false = ne→==_false b 0 b_ne in
      elim (Bool-cases (has b (free n))) [
        | inr absent ↦ record {
          address = a;
          stop = n;
          free' = free;
          ends = rw (b_false, absent);
          low_enough = omega arith;
          not_null = mul-pow-ne_zero q (n + minimum) (omega arith);
          address_aligned = (q, refl);
          aligned = al;
          cover = λ m x h. refl;
        }
        | inl present ↦
            let erased = erase b (free n) in
            let rest = merge-Merges d (n + 1) (q / 2) (update free n erased) half (
              IsAligned-update minimum free n erased al
                (AllAligned-erase (2 ^ (n + minimum)) b (free n) (al n))) in
            record {
              address = rest.address;
              stop = rest.stop;
              free' = rest.free';
              ends = rw (b_false, present, low) rest.ends;
              low_enough = omega (arith, rest.low_enough);
              not_null = rest.not_null;
              address_aligned = rest.address_aligned;
              aligned = rest.aligned;
              cover = λ m x h. omega (
                arith,
                rest.cover m x (omega arith),
                cover-update minimum m n free erased x (omega arith),
                cover_list-erase (2 ^ (n + minimum)) b (free n) x present,
                byte_in_pair n q x,
              );
            }
      ]

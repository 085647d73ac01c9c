-- ===== src/Memory/Buddy/Split.antt =====
-- What `remove` takes from the free lists, and what it puts back.
use depos.Base.{
  ℕ, zero, suc, ◌+◌, ◌*◌, ◌-◌, ◌/◌, ◌%◌, ◌^◌, ◌≤◌, ◌<◌, ◌≡◌, refl, ◌⊎◌, List, [], ◌∷◌, none, some,
  update, arith, inl, inr, ap, List-cases,
}
use native.Mathlib.Decide.{ℕ_discrete}
use depos.Memory.Buddy.{Free, take_first, split, buddy}
use depos.Memory.Buddy.Cover.{byte_in, byte_in-double, cover_upto, cover-update}
use depos.Memory.Buddy.Aligned.{IsAligned, IsAligned-update, Aligned, two-pow-suc, buddy-mul}

module _ (minimum : ℕ) where
  -- The upper half of a block that is cut in two is the buddy of the lower one.
  buddy_of_double :
      (n q : ℕ)
      → let a = q * 2 ^ (n + 1 + minimum) in
        Aligned (2 ^ (n + minimum)) a
        × (buddy minimum a n ≡ a + 2 ^ (n + minimum))
        × Aligned (2 ^ (n + minimum)) (buddy minimum a n)
  buddy_of_double n q =
      let e : q * 2 ^ (n + 1 + minimum) ≡ q * 2 * 2 ^ (n + minimum) =
        rw (two-pow-suc n minimum) (omega arith) in
      let h : q * 2 / 2 * 2 + (1 - q * 2 % 2) ≡ q * 2 + 1 = omega arith in
      let b = buddy-mul minimum n (q * 2) in
      rw (e, b, h) ((q * 2, refl), omega arith, (q * 2 + 1, refl))

  -- The blocks that `split` adds and the block of bucket `n` that is left make up the block that it
  -- started from.
  pub record Splits (n node d : ℕ) (free : Free) : Type 0 where
    pub aligned : IsAligned minimum (split minimum n node d free)
    pub node_aligned : Aligned (2 ^ (n + minimum)) node
    pub cover :
        (m x : ℕ)
        → n + d ≤ m
        → cover_upto minimum m (split minimum n node d free) x + byte_in (2 ^ (n + minimum)) node x
          ≡ cover_upto minimum m free x + byte_in (2 ^ (n + d + minimum)) node x

  pub split-Splits :
      (n node d : ℕ) (free : Free)
      → IsAligned minimum free
      → Aligned (2 ^ (n + d + minimum)) node
      → Splits n node d free
  unfolding split
  split-Splits n node zero free al (q, e) =
      let z : n + 0 ≡ n = omega arith in
      record { aligned = al; node_aligned = (q, rw z at e); cover = λ m x h. rw z refl }
  split-Splits n node (suc d) free al (q, e) =
      let s : n + suc d ≡ n + d + 1 = omega arith in
      let e' : node ≡ q * 2 ^ (n + d + 1 + minimum) = rw s at e in
      let (low, at_end, high) = buddy_of_double (n + d) q in
      let b = buddy minimum node (n + d) in
      let b_al : Aligned (2 ^ (n + d + minimum)) b = rw (← e') at high in
      let node_al : Aligned (2 ^ (n + d + minimum)) node = rw (← e') at low in
      let b_eq : b ≡ node + 2 ^ (n + d + minimum) = rw (← e') at at_end in
      let rest =
        split-Splits n node d (update free (n + d) (b ∷ free (n + d)))
          (IsAligned-update minimum free (n + d) (b ∷ free (n + d)) al (b_al, al (n + d)))
          node_al in
      record {
        aligned = rest.aligned;
        node_aligned = rest.node_aligned;
        cover = λ m x h.
            rw (s, two-pow-suc (n + d) minimum)
              (omega (
                arith,
                rest.cover m x (omega arith),
                cover-update minimum m (n + d) free (b ∷ free (n + d)) x (omega arith),
                byte_in-double (2 ^ (n + d + minimum)) node x,
                ap (λ t. byte_in (2 ^ (n + d + minimum)) t x) b_eq,
              ));
      }

next_empty :
    (free : Free) (i n : ℕ)
    → free i ≡ []
    → ((j : ℕ) → i + 1 ≤ j → j < n → free j ≡ [])
    → (j : ℕ) → i ≤ j
    → j < n
    → free j ≡ []
next_empty free i n e rest j h k = elim (ℕ_discrete j i) [
  | yes same ↦ rw (same, e)
  | no ne ↦ rest j (omega arith) k
]

-- The search takes the first block of the first bucket that has one.
pub record Taken (rounds i : ℕ) (free : Free) : Type 0 where
  pub node : ℕ
  pub at : ℕ
  pub others : List ℕ
  pub finds : take_first rounds i free ≡ some (node, at, update free at others)
  pub from : i ≤ at
  pub below : at < i + rounds
  pub was : free at ≡ node ∷ others
  pub empty_before : (j : ℕ) → i ≤ j → j < at → free j ≡ []

pub take_first-cases :
    (rounds i : ℕ) (free : Free)
    → Taken rounds i free
      ⊎ ((take_first rounds i free ≡ none) × ((j : ℕ) → i ≤ j → j < i + rounds → free j ≡ []))
unfolding take_first
take_first-cases zero i free = inr (refl, λ j h k. absurd (omega arith))
take_first-cases (suc rounds) i free = elim (List-cases (free i)) [
  | inr (x, xs, e) ↦ inl (record {
    node = x;
    at = i;
    others = xs;
    finds = rw (e, take_first);
    from = omega arith;
    below = omega arith;
    was = e;
    empty_before = λ j h k. absurd (omega arith);
  })
  | inl e ↦ elim (take_first-cases rounds (i + 1) free) [
    | inl t ↦ inl (record {
      node = t.node;
      at = t.at;
      others = t.others;
      finds = rw (e, take_first) t.finds;
      from = omega (arith, t.from);
      below = omega (arith, t.below);
      was = t.was;
      empty_before = λ j h k. next_empty free i t.at e t.empty_before j h k;
    })
    | inr (n, all) ↦
        inr (
          rw (e, take_first) n,
          λ j h k. next_empty free i (i + 1 + rounds) e all j h (omega arith),
        )
  ]
]

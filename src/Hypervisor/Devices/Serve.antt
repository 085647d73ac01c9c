-- ===== src/Hypervisor/Devices/Serve.antt =====
-- A device serves all that the driver has put in its queue.
use depos.Base.{
  ℕ, zero, suc, ◌+◌, ◌%◌, ◌^◌, ◌<◌, ◌≡◌, ◌≢◌, true, false, Option, some, List, [], ◌∷◌, update,
  arith, refl, sym, ap, ap₂, ◌∙◌, lt→ltb, subst, ◌∈◌,
}
use depos.Hypervisor.Queue.{Queue, Rings, available, alloc, free}
use depos.Hypervisor.Queue.Transfer.{
  outstanding, amount, available_none, available_some, alloc-fields,
}
use depos.Hypervisor.Devices.{serve}

-- the rings after an entry was put in the used ring
abbrev pub publish : ℕ → ℕ → ℕ → Rings → Rings
publish size id len r = record r {
  used_ring = update r.used_ring (r.used_index % size) (id, len);
  used_index = (r.used_index + 1) % 65536;
}

free-publish :
    (id len : ℕ) (q : Queue) (r : Rings)
    → id < q.size
    → free id len q r ≡ some (publish q.size id len r)
unfolding free
free-publish id len q r h = rw (lt→ltb id q.size h) refl

outstanding-publish :
    (n size from a id len : ℕ) (r : Rings)
    → outstanding n size from (publish a id len r) ≡ outstanding n size from r
outstanding-publish zero size from a id len r = refl
outstanding-publish (suc n) size from a id len r =
    ap (λ l. r.available_ring (from % size) ∷ l)
      (outstanding-publish n size ((from + 1) % 65536) a id len r)

module _ {ℓ} {S : Type ℓ} (process : ℕ → Queue → S → Option (ℕ × S)) (count : ℕ → ℕ)
    (effect : ℕ → S → S) (size : ℕ) where
  -- what becomes of the rings and of the state of the device with the chains that start at `heads`
  pub publish_all : List ℕ → Rings → Rings
  publish_all [] r = r
  publish_all (h ∷ hs) r = publish_all hs (publish size h (count h % 2 ^ 32) r)

  pub effect_all : List ℕ → S → S
  effect_all [] s = s
  effect_all (h ∷ hs) s = effect_all hs (effect h s)

  -- each of them is processed with that effect
  abbrev pub IsServed : List ℕ → Type ℓ
  IsServed hs =
      (h : ℕ)
      → h ∈ hs
      → (h < size)
        × ((q : Queue) → (s : S) → q.size ≡ size → process h q s ≡ some (count h, effect h s))

  abbrev pub Serves : ℕ → List ℕ → Queue → Rings → S → Type ℓ
  Serves fuel heads q r s =
      (q' : Queue) × (serve process fuel q r s ≡ some (q', publish_all heads r, effect_all heads s))
      × (q'.last_available_index ≡ r.available_index)

  serve-none :
      (k : ℕ) (q : Queue) (r : Rings) (s : S)
      → available q r ≡ false
      → serve process (suc k) q r s ≡ some (q, r, s)
  unfolding serve
  serve-none k q r s e = rw e refl

  serve-some :
      (k : ℕ) (q : Queue) (r : Rings) (s : S)
      → available q r ≡ true
      → (alloc q r).0 < size
      → q.size ≡ size
      → process (alloc q r).0 (alloc q r).1 s ≡ some (count (alloc q r).0, effect (alloc q r).0 s)
      → serve process (suc k) q r s
        ≡ serve process k
            (alloc q r).1
            (publish size (alloc q r).0 (count (alloc q r).0 % 2 ^ 32) r)
            (effect (alloc q r).0 s)
  unfolding serve
  serve-some k q r s e h z p =
      let (f0, f1, f2, f3) = alloc-fields q r in
      let w =
        free-publish (alloc q r).0 (count (alloc q r).0 % 2 ^ 32) (alloc q r).1 r
          (subst (λ k. (alloc q r).0 < k) (sym (f2 ∙ z)) h) in
      rw (e, p, w, f2, z) refl

  pub serve_by :
      (n fuel : ℕ) (q : Queue) (r : Rings) (s : S)
      → q.size ≡ size
      → q.available_at ≢ 0
      → q.last_available_index < 65536
      → r.available_index < 65536
      → amount q r ≡ n
      → n < fuel
      → IsServed (outstanding n q.size q.last_available_index r)
      → Serves fuel (outstanding n q.size q.last_available_index r) q r s
  unfolding publish_all effect_all alloc
  serve_by n zero q r s z ne a b e h v = absurd (omega arith)
  serve_by zero (suc fuel) q r s z ne a b e h v =
      let same : q.last_available_index ≡ r.available_index = omega arith in
      (q, serve-none fuel q r s (available_none q r same), same)
  serve_by (suc n) (suc fuel) q r s z ne a b e h v =
      let (f0, f1, f2, f3) = alloc-fields q r in
      let ne' : q.last_available_index ≢ r.available_index = λ y. absurd (omega arith) in
      let (head, q1) = alloc q r in
      let (lt, does) = v head (ground (arith, f0)) in
      let r1 = publish size head (count head % 2 ^ 32) r in
      let heads : outstanding n q1.size q1.last_available_index r1
          ≡ outstanding n q.size ((q.last_available_index + 1) % 65536) r =
        outstanding-publish n q1.size q1.last_available_index size head (count head % 2 ^ 32) r
        ∙ ap₂ (λ k l. outstanding n k l r) f2 f1 in
      let (q', g, last) =
        serve_by n fuel q1 r1 (effect head s) (f2 ∙ z) (λ y. ne (sym f3 ∙ y)) (omega (arith, f1)) b
          (omega (arith, f1)) (omega arith)
          (subst IsServed (sym heads) (λ h m. v h (ground (arith, m)))) in
      (
        q',
        serve-some fuel q r s (available_some q r ne ne') lt z (does q1 s (f2 ∙ z))
            ∙ (g ∙ ap (λ l. some (q', publish_all l r1, effect_all l (effect head s))) heads),
        last,
      )

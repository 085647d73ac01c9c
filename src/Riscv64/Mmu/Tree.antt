-- ===== src/Riscv64/Mmu/Tree.antt =====
-- Page tables that form a tree of three levels, and the tables that `map` makes on its way.
use depos.Base.{
  unique, ne→==_false, no_answer, ℕ, suc, ◌+◌, ◌*◌, ◌/◌, ◌%◌, ◌^◌, ◌<◌, ◌≡◌, ◌≢◌, ◌⊎◌, inl, inr,
  ◌==◌, ◌&&◌, Bool, true, false, not, Option, none, some, bit_and, update, arith, refl, ap, ◌∙◌,
  eq-cases, Option-cases,
}
use depos.Base.Bits.{bit_and_low, bit_and_step}
use depos.Base.Bits.Join.{bit_or-join}
use depos.Riscv64.Mmu.{Tables, valid_flag, entry, set, walk, new_table, descend}

-- The digits of an entry.
pub bit_and-valid : (x : ℕ) → bit_and x 1 ≡ x % 2
bit_and-valid x = bit_and_low 1 x

pub bit_and-leaf : (x : ℕ) → bit_and x 14 ≡ x / 2 % 8 * 2
bit_and-leaf x = omega (arith, bit_and_step x 14, bit_and_low 3 (x / 2))

pub entry_lem : (q flags : ℕ) → flags < 1024 → entry (q * 4096) flags ≡ q * 1024 + flags
unfolding entry
entry_lem q flags h =
    let e : q * 4096 / 4 ≡ q * 2 ^ 10 = omega arith in
    rw e (omega (arith, bit_or-join 10 q flags h))

-- `set` of an entry that is zero, and of one that is not.
pub set_empty :
    (p i addr flags : ℕ) (tables : Tables)
    → tables p i ≡ 0
    → set p i addr flags tables ≡ (true, update tables p (update (tables p) i (entry addr flags)))
unfolding set
set_empty p i addr flags tables e = rw e refl

pub set_taken :
    (p i addr flags : ℕ) (tables : Tables)
    → tables p i ≢ 0
    → set p i addr flags tables ≡ (false, tables)
unfolding set
set_taken p i addr flags tables ne = rw (ne→==_false (tables p i) 0 ne) refl

-- What the parameter `alloc` promises: it hands out pages that are not in use, below 2 ^ 44.
pub record IsSupply {ℓ} {S : Type ℓ} (alloc : S → Option (ℕ × S)) (unused : S → ℕ → Bool)
    : Type ℓ where
  pub gives :
      (s : S) (q : ℕ) (s' : S)
      → alloc s ≡ some (q, s')
      → (unused s q ≡ true) × (q < 2 ^ 44) × ((p : ℕ) → unused s' p ≡ (unused s p && not (p == q)))

-- `level p` is 2 at the root, 1 and 0 at the tables below it, and 3 at pages that are no table. The
-- entries of the upper levels are zero or lead one level down.
pub record IsTree (root : ℕ) (level : ℕ → ℕ) (unused : ℕ → Bool) (tables : Tables) : Type 0 where
  pub top : level root ≡ 2
  pub points :
      (p i k : ℕ)
      → level p ≡ suc k
      → k < 2
      → tables p i ≢ 0
      → (q : ℕ) × (tables p i ≡ q * 1024 + 1) × (q < 2 ^ 44) × (level q ≡ k)
  pub outside : (p : ℕ) → unused p ≡ true → level p ≡ 3

module _ {ℓ} {S : Type ℓ} (alloc : S → Option (ℕ × S)) (unused : S → ℕ → Bool)
    (supply : IsSupply alloc unused) (root : ℕ) where
  -- The table `q` behind entry `i` of the table `p` of level `suc k`, from `tables` and `s` to `tables'` and `s'`.
  pub record Descended (level : ℕ → ℕ) (p i k : ℕ) (tables : Tables) (s : S) (q : ℕ)
      (tables' : Tables) (s' : S) : Type ℓ where
    pub level' : ℕ → ℕ
    pub tree : IsTree root level' (unused s') tables'
    pub below : level' q ≡ k
    pub small : q < 2 ^ 44
    pub leads : tables' p i ≡ q * 1024 + 1
    pub level_same : (a : ℕ) → level a ≢ 3 → level' a ≡ level a
    pub same : (a j : ℕ) → level a ≢ 3 → a ≢ p → tables' a j ≡ tables a j
    -- a table that was there leaves all as it was, and a new one is empty
    pub old_or_new : ((tables' ≡ tables) × (s' ≡ s)) ⊎ ((j : ℕ) → tables' q j ≡ 0)

  descend_new :
      (level : ℕ → ℕ) (p i k : ℕ) (tables : Tables) (s : S) (q : ℕ) (s' : S)
      → IsTree root level (unused s) tables
      → level p ≡ suc k
      → k < 2
      → tables p i ≡ 0
      → alloc s ≡ some (q, s')
      → let tables1 = update tables q (λ j. 0) in
        Descended level p i k tables s q (update tables1 p (update (tables1 p) i (q * 1024 + 1))) s'
  descend_new level p i k tables s q s' v at lt empty e =
      let (free, small, less) = supply.gives s q s' e in
      let out = v.outside q free in
      let tables1 = update tables q (λ j. 0) in
      let tables2 = update tables1 p (update (tables1 p) i (q * 1024 + 1)) in
      record {
        level' = update level q k;
        tree = record {
          top = ground (arith, v.top);
          points = λ a j m at' lt' ne. elim (eq-cases a p) [
            | inl on ↦ elim (eq-cases j i) [
              | inl hit ↦ (q, ground arith, small, ground arith)
              | inr miss ↦
                  let (x, eq, sm, lv) = v.points a j m (ground arith) lt' (ground arith) in
                  (x, ground arith, sm, ground arith)
            ]
            | inr off ↦
                let other : a ≢ q = λ z. ground arith in
                let (x, eq, sm, lv) = v.points a j m (ground arith) lt' (ground arith) in
                (x, ground arith, sm, ground arith)
          ];
          outside = λ a f. ground (arith, less a, v.outside a);
        };
        below = ground arith;
        small = small;
        leads = ground arith;
        level_same = λ a ne. ground arith;
        same = λ a j ne other. ground arith;
        old_or_new = inr (λ j. ground arith);
      }

  descend_old :
      (level : ℕ → ℕ) (p i k : ℕ) (tables : Tables) (s : S)
      → IsTree root level (unused s) tables
      → level p ≡ suc k
      → k < 2
      → tables p i ≢ 0
      → Descended level p i k tables s (walk p i tables) tables s
  unfolding walk
  descend_old level p i k tables s v at lt ne =
      let (q, e, small, down) = v.points p i k at lt ne in
      let w : tables p i / 1024 % 2 ^ 52 ≡ q = omega (arith, e) in
      record {
        level' = level;
        tree = v;
        below = rw w down;
        small = rw w small;
        leads = rw w e;
        level_same = λ a h. refl;
        same = λ a j h o. refl;
        old_or_new = inl (refl, refl);
      }

  abbrev Answer : (ℕ → ℕ) → ℕ → ℕ → ℕ → Tables → S → ℕ × Tables × S → Type ℓ
  Answer level p i k tables s (q, tables', s') = Descended level p i k tables s q tables' s'

  linked :
      (p i q : ℕ) (tables : Tables)
      → p ≢ q
      → tables p i ≡ 0
      → let tables1 = update tables q (λ j. 0) in
        (set p i (q * 4096) valid_flag tables1).1
        ≡ update tables1 p (update (tables1 p) i (q * 1024 + 1))
  linked p i q tables ne empty =
      let tables1 = update tables q (λ j. 0) in
      ap (λ (a : Bool × Tables). a.1) (set_empty p i (q * 4096) valid_flag tables1 (ground arith))
      ∙ rw (entry_lem q valid_flag (omega arith)) refl

  descend_at :
      (p i : ℕ) (tables : Tables) (s : S) (q : ℕ) (s' : S)
      → tables p i ≡ 0
      → alloc s ≡ some (q, s')
      → descend alloc p i tables s
        ≡ some (q, (set p i (q * 4096) valid_flag (update tables q (λ j. 0))).1, s')
  unfolding descend new_table
  descend_at p i tables s q s' empty e = rw (empty, e) refl

  descend_full :
      (p i : ℕ) (tables : Tables) (s : S)
      → tables p i ≡ 0
      → alloc s ≡ none
      → descend alloc p i tables s ≡ none
  unfolding descend new_table
  descend_full p i tables s empty e = rw (empty, e) refl

  descend_there :
      (p i : ℕ) (tables : Tables) (s : S)
      → tables p i ≢ 0
      → descend alloc p i tables s ≡ some (walk p i tables, tables, s)
  unfolding descend
  descend_there p i tables s ne = rw (ne→==_false (tables p i) 0 ne) refl

  -- What `descend` answers.
  pub descend-Descended :
      (level : ℕ → ℕ) (p i k : ℕ) (tables : Tables) (s : S) (a : ℕ × Tables × S)
      → IsTree root level (unused s) tables
      → level p ≡ suc k
      → k < 2
      → descend alloc p i tables s ≡ some a
      → Answer level p i k tables s a
  descend-Descended level p i k tables s a v at lt e = elim (eq-cases (tables p i) 0) [
    | inl empty ↦ elim (Option-cases (alloc s)) [
      | inl f ↦ no_answer (descend_full p i tables s empty f) e
      | inr ((q, s'), f) ↦
          let ne : p ≢ q = λ z. ground (arith, v.outside q (supply.gives s q s' f).0) in
          let d =
            descend_at p i tables s q s' empty f
            ∙ ap (λ (t : Tables). some (q, t, s')) (linked p i q tables ne empty) in
          unique (Answer level p i k tables s) d e
            (descend_new level p i k tables s q s' v at lt empty f)
    ]
    | inr ne ↦
        unique (Answer level p i k tables s) (descend_there p i tables s ne) e
          (descend_old level p i k tables s v at lt ne)
  ]

  -- It fails only where the allocator does.
  pub descend-none :
      (p i : ℕ) (tables : Tables) (s : S) → descend alloc p i tables s ≡ none → alloc s ≡ none
  descend-none p i tables s e = elim (eq-cases (tables p i) 0) [
    | inl empty ↦ elim (Option-cases (alloc s)) [
      | inl f ↦ f
      | inr ((q, s'), f) ↦ no_answer e (descend_at p i tables s q s' empty f)
    ]
    | inr ne ↦ no_answer e (descend_there p i tables s ne)
  ]

-- ===== src/Riscv64/Mmu/Mapping.antt =====
-- A page that is mapped is translated, and a mapping that is refused changes nothing.
use depos.Base.{ℕ, ◌+◌, ◌*◌, ◌%◌, ◌^◌, ◌<◌, ◌≡◌, ◌⊎◌, Bool, true, false, Option, none, some, update}
use depos.Riscv64.Mmu.{Tables, vpn, map, virt2phys, load}
use depos.Riscv64.Mmu.Tree.{IsSupply, IsTree, Descended}

module _ {ℓ} {S : Type ℓ} (alloc : S → Option (ℕ × S)) (unused : S → ℕ → Bool)
    (supply : IsSupply alloc unused) (root : ℕ) (small : root < 2 ^ 44) where
  -- What `map` leaves, with the answer `done`.
  pub record Mapped (va f : ℕ) (tables : Tables) (s : S) (done : Bool) (tables' : Tables) (s' : S)
      : Type ℓ where
    pub level : ℕ → ℕ
    pub tree : IsTree root level (unused s') tables'
    pub outcome :
        ((done ≡ true) × (virt2phys (load root) va tables' ≡ f * 4096 + va % 4096))
        ⊎ ((done ≡ false) × (tables' ≡ tables) × (s' ≡ s))

  abbrev Answer : ℕ → ℕ → Tables → S → Bool × Tables × S → Type ℓ
  Answer va f tables s (done, tables', s') = Mapped va f tables s done tables' s'

  module _ (level : ℕ → ℕ) (va : ℕ) (tables : Tables) (s : S) (l1 l0 : ℕ) (tables1 tables0 : Tables)
      (s1 s0 : S)
      (d1 : Descended alloc unused supply root level root (vpn 30 va) 1 tables s l1 tables1 s1)
      (d0 : Descended alloc unused supply root d1.level' l1
        (vpn 21 va)
        0
        tables1
        s1
        l0
        tables0
        s0) where
    -- The entry of a page is written to the last table.
    written : (v : ℕ) → Tables
    written v = update tables0 l0 (update (tables0 l0) (vpn 12 va) v)

  abbrev pub Maps : ℕ → ℕ → ℕ → Tables → S → Type ℓ
  Maps va f flags tables s =
      ((map alloc root va (f * 4096) flags tables s ≡ none) × (s1 : S) × (alloc s1 ≡ none))
      ⊎ ((done : Bool) × (tables' : Tables) × (s' : S) × (map alloc root va (f * 4096) flags tables
              s
            ≡ some (done, tables', s'))
          × Mapped va f tables s done tables' s')

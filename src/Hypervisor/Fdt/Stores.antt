-- ===== src/Hypervisor/Fdt/Stores.antt =====
-- Bytes that are written one behind the other and read back.
use depos.Base.{
  ℕ, zero, suc, ◌+◌, ◌<◌, ◌≤◌, ◌≡◌, ◌⊎◌, inl, inr, List, [], ◌∷◌, length, update, arith, refl, sym,
  ap₂, ◌∙◌,
}
use depos.Hypervisor.Devices.{store, bytes}

pub store-outside :
    (xs : List ℕ) (a j : ℕ) (m : ℕ → ℕ) → (j < a) ⊎ (a + length xs ≤ j) → store xs a m j ≡ m j
store-outside [] a j m h = refl
store-outside (x ∷ xs) a j m h =
    store-outside xs (a + 1) j (update m a x) (ground arith) ∙ ground arith

pub bytes-store : (xs : List ℕ) (a : ℕ) (m : ℕ → ℕ) → bytes (store xs a m) a (length xs) ≡ xs
bytes-store [] a m = refl
bytes-store (x ∷ xs) a m =
    ap₂ ◌∷◌ (store-outside xs (a + 1) a (update m a x) (inl (omega arith)) ∙ ground arith)
      (bytes-store xs (a + 1) (update m a x))

pub bytes-frame :
    (n a : ℕ) (m m' : ℕ → ℕ)
    → ((j : ℕ) → a ≤ j → j < a + n → m' j ≡ m j)
    → bytes m' a n ≡ bytes m a n
bytes-frame zero a m m' h = refl
bytes-frame (suc n) a m m' h =
    ap₂ ◌∷◌ (h a (omega arith) (omega arith))
      (bytes-frame n (a + 1) m m' (λ j l u. h j (omega arith) (omega arith)))

-- A write elsewhere is not seen.
pub bytes-store_other :
    (xs : List ℕ) (p n a : ℕ) (m : ℕ → ℕ)
    → (a + n ≤ p) ⊎ (p + length xs ≤ a)
    → bytes (store xs p m) a n ≡ bytes m a n
bytes-store_other xs p n a m h =
    bytes-frame n a m (store xs p m) (λ j l u. store-outside xs p j m (ground arith))

-- Two writes, the later elsewhere.
bytes-below :
    (xs ys : List ℕ) (p a n : ℕ) (m : ℕ → ℕ)
    → n ≡ length xs
    → (a + n ≤ p) ⊎ (p + length ys ≤ a)
    → bytes (store ys p (store xs a m)) a n ≡ xs
bytes-below xs ys p a n m e h =
    bytes-store_other ys p n a (store xs a m) h ∙ rw e (bytes-store xs a m)

-- Four writes one behind the other, with one at `at` between them.
unfoldable pub layers : (xs ys ns zs vs : List ℕ) (c at : ℕ) (m : ℕ → ℕ) → ℕ → ℕ
layers xs ys ns zs vs c at m =
    store vs (c + 12) (store zs (c + 8) (store ns at (store ys (c + 4) (store xs c m))))

module _ (xs ys ns zs vs : List ℕ) (c at : ℕ) (m : ℕ → ℕ) (hx : length xs ≡ 4) (hy : length ys ≡ 4)
    (hz : length zs ≡ 4) (h : c + 12 + length vs ≤ at) where
  abbrev whole : ℕ → ℕ
  whole = layers xs ys ns zs vs c at m

  pub layers-front :
      (bytes whole c 4 ≡ xs) × (bytes whole (c + 4) 4 ≡ ys) × (bytes whole (c + 8) 4 ≡ zs)
  unfolding layers
  layers-front =
      let m1 = store xs c m in
      let m2 = store ys (c + 4) m1 in
      let m3 = store ns at m2 in
      let m4 = store zs (c + 8) m3 in
      (
        bytes-store_other vs (c + 12) 4 c m4 (inl (omega arith))
            ∙ (bytes-store_other zs (c + 8) 4 c m3 (inl (omega arith))
                ∙ (bytes-store_other ns at 4 c m2 (inl (omega arith))
                    ∙ bytes-below xs ys (c + 4) c 4 m (sym hx) (inl (omega arith)))),
        bytes-store_other vs (c + 12) 4 (c + 4) m4 (inl (omega arith))
            ∙ (bytes-store_other zs (c + 8) 4 (c + 4) m3 (inl (omega arith))
                ∙ bytes-below ys ns at (c + 4) 4 m1 (sym hy) (inl (omega arith))),
        bytes-below zs vs (c + 12) (c + 8) 4 m3 (sym hz) (inl (omega arith)),
      )

  pub layers-back :
      (bytes whole (c + 12) (length vs) ≡ vs)
      × (bytes whole at (length ns) ≡ ns)
      × ((j : ℕ) → (j < c) ⊎ (at + length ns ≤ j) → whole j ≡ m j)
  unfolding layers
  layers-back =
      let m1 = store xs c m in
      let m2 = store ys (c + 4) m1 in
      let m3 = store ns at m2 in
      let m4 = store zs (c + 8) m3 in
      (
        bytes-store vs (c + 12) m4,
        bytes-store_other vs (c + 12) (length ns) at m4 (inr (omega arith))
            ∙ bytes-below ns zs (c + 8) at (length ns) m2 refl (inr (omega (arith, hz))),
        λ j o.
            store-outside vs (c + 12) j m4 (ground arith)
            ∙ (store-outside zs (c + 8) j m3 (ground arith)
                ∙ (store-outside ns at j m2 (ground arith)
                    ∙ (store-outside ys (c + 4) j m1 (ground arith)
                        ∙ store-outside xs c j m (ground arith)))),
      )

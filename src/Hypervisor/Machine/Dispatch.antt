-- ===== src/Hypervisor/Machine/Dispatch.antt =====
-- Which device an access reaches.
use depos.Base.{ℕ, ◌≡◌, false, none, List, [], ◌∷◌, ◌++◌, refl}
use depos.Hypervisor.Machine.{Device, read, write, interrupt, or_read, or_write}

module _ {ℓ} {S : Type ℓ} where
  -- All devices of a list refuse an access, and none is an interrupt controller.
  abbrev pub Refuse : List (Device S) → ℕ → ℕ → S → Type ℓ
  Refuse [] target source s = Unit {ℓ}
  Refuse (d ∷ ds) target source s =
      (d.on_read target s ≡ none)
      × (d.on_write target source s ≡ none)
      × (d.is_controller ≡ false)
      × Refuse ds target source s

  -- Behind devices that refuse, a device gets every access and every interrupt as if it stood first.
  pub reach :
      (before rest : List (Device S)) (target source id : ℕ) (s : S)
      → Refuse before target source s
      → (read (before ++ rest) target s ≡ read rest target s)
        × (write (before ++ rest) target source s ≡ write rest target source s)
        × (interrupt (before ++ rest) id s ≡ interrupt rest id s)
  unfolding read write interrupt or_read or_write
  reach [] rest target source id s h = (refl, refl, refl)
  reach (d ∷ ds) rest target source id s (a, b, c, h) =
      let (u, v, w) = reach ds rest target source id s h in (rw a u, rw b v, rw c w)

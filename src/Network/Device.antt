-- ===== src/Network/Device.antt =====
-- src/network/NetworkDevice.cpp: the thread that delivers what a device receives. The device and its observers are
-- parameters; `none` is a `receive` that does not end.
use depos.Base.{
  arith, ◌≢◌, ◌≡◌, ℕ, ◌==◌, if◌then◌else◌, Bool, true, false, Option, none, some, List, [], ◌∷◌,
}

-- one more buffer delivered
unfoldable pub delivered {ℓ} : {S : Type ℓ} → ℕ → Option (List ℕ × S) → Option (List ℕ × S)
delivered b none = none
delivered b (some (bs, s)) = some (b ∷ bs, s)

module _ {ℓ} {S : Type ℓ} (receive : S → Option (ℕ × S)) (notify release : ℕ → S → S) where
  -- `worker`, from one return of `semaphore_.p()` to the next: the list has the value of `running_` at each. The
  -- answer has the buffers that the observers were shown. A null pointer is 0.
  unfoldable pub worker : List Bool → S → Option (List ℕ × S)
  worker [] s = some ([], s)
  worker (false ∷ more) s = some ([], s)
  worker (true ∷ more) s = elim (receive s) [
    | none ↦ none
    | some (b, s') ↦
        let skip = worker more s' in
        let rest = delivered b (worker more (release b (notify b s'))) in
        if b == 0 then skip else rest
  ]

  pub worker-true :
      (more : List Bool) (b : ℕ) (s s' : S)
      → receive s ≡ some (b, s')
      → b ≢ 0
      → worker (true ∷ more) s ≡ delivered b (worker more (release b (notify b s')))
  unfolding worker
  worker-true more b s s' e p = ground (arith, e)

-- ===== src/Hypervisor/Queue/Layout.antt =====
-- Where the used ring of a queue ends.
use depos.Base.{ℕ, ◌+◌, ◌-◌, ◌*◌, ◌/◌, ◌%◌, ◌^◌, ◌<◌, ◌≤◌, ◌≡◌, ap, ◌∙◌, arith, ne→==_false}
use native.Mathlib.Nat.{one-le-pow, mul-add-div_right, add-mul, div-add-mod', mod-lt}
use depos.Base.Bits.{bit_and_high}
use depos.Hypervisor.Queue.{queue, align_up, size_of}

module _ (k : ℕ) (hk : k ≤ 32) where
  align_up-pow : (a : ℕ) → a + 2 ^ k ≤ 2 ^ 32 → align_up a (2 ^ k) ≡ (a + 2 ^ k - 1) / 2 ^ k * 2 ^ k
  unfolding align_up
  align_up-pow a h =
      let p = one-le-pow k 2 (omega arith) in
      let e : (a + 2 ^ k + (2 ^ 64 - 1)) % 2 ^ 64 ≡ a + 2 ^ k - 1 = omega arith in
      rw (ne→==_false (2 ^ k) 0 (λ z. absurd (omega arith)), e)
        (bit_and_high k 32 (a + 2 ^ k - 1) hk (omega arith))

  align_up_shift :
      (m a : ℕ)
      → m * 2 ^ k + a + 2 ^ k ≤ 2 ^ 32
      → align_up (m * 2 ^ k + a) (2 ^ k) ≡ m * 2 ^ k + align_up a (2 ^ k)
  align_up_shift m a h =
      let p = one-le-pow k 2 (omega arith) in
      let x = a + 2 ^ k - 1 in
      let e : m * 2 ^ k + a + 2 ^ k - 1 ≡ m * 2 ^ k + x = omega arith in
      rw (align_up-pow (m * 2 ^ k + a) h, align_up-pow a (omega arith))
        (ap (λ t. t / 2 ^ k * 2 ^ k) e
          ∙ (ap (λ t. t * 2 ^ k) (mul-add-div_right p m x) ∙ add-mul m (x / 2 ^ k) (2 ^ k)))

  align_up_le : (a : ℕ) → a + 2 ^ k ≤ 2 ^ 32 → a ≤ align_up a (2 ^ k)
  align_up_le a h =
      let p = one-le-pow k 2 (omega arith) in
      let x = a + 2 ^ k - 1 in omega (arith, align_up-pow a h, div-add-mod' x (2 ^ k), mod-lt x p)

  -- With an alignment that is a power of two, at an address that is a multiple of it and with no
  -- overflow of 32 bits, the used ring of a queue ends where the size of the queue says.
  pub queue-size_of :
      (m size : ℕ)
      → size < 2 ^ 16
      → m * 2 ^ k + (18 * size + 6) + 2 ^ k ≤ 2 ^ 32
      → let q = queue (m * 2 ^ k) size (2 ^ k) in
        (q.used_at + 2 + 2 + 8 * size ≡ q.address + size_of size (2 ^ k))
        × (q.available_at + 2 * size + 6 ≤ q.used_at)
  unfolding queue size_of
  queue-size_of m size hs h =
      let e : m * 2 ^ k + 16 * size + 2 + 2 + 2 * size + 2 ≡ m * 2 ^ k + (18 * size + 6) =
        omega arith in
      let f : size * 16 + (2 + 2 + 2 * size % 2 ^ 32 + 2) % 2 ^ 32 ≡ 18 * size + 6 = omega arith in
      rw (e, f)
        (
          omega (arith, align_up_shift m (18 * size + 6) h),
          omega (arith, align_up_le (m * 2 ^ k + (18 * size + 6)) h),
        )

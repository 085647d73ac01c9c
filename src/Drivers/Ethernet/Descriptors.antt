-- ===== src/Drivers/Ethernet/Descriptors.antt =====
-- What a descriptor holds after a write, and which slots of a ring differ.
use depos.Base.{ℕ, ◌+◌, ◌*◌, ◌/◌, ◌%◌, ◌^◌, ◌<◌, ◌≤◌, ◌≡◌, ◌≢◌, arith, ◌∙◌}
use depos.Base.Bits.Join.{bit_or-join}
use native.Mathlib.Nat.{div-add-mod', mul-le-mul_left, mul_comm}
use native.Mathlib.Decide.{dec_lt}
use depos.Drivers.Ethernet.{Descriptor, buffer_of, set_buffer, send_flags}

-- The pointer that was written is read back.
pub buffer_of-set_buffer : (p : ℕ) (d : Descriptor) → p < 2 ^ 64 → buffer_of (set_buffer p d) ≡ p
unfolding buffer_of set_buffer
buffer_of-set_buffer p d h =
    bit_or-join 32 (p / 2 ^ 32 % 2 ^ 32) (p % 2 ^ 32) (omega arith) ∙ omega arith

pub send_flags-owned :
    (n : ℕ) → (send_flags n / 2 ^ 31 % 2 ≡ 1) × (send_flags n % 2 ^ 14 ≡ n % 2 ^ 14)
unfolding send_flags
send_flags-owned n = omega arith

-- Two numbers less than `n` apart have different remainders by `n`.
pub mod-ne : (n a b : ℕ) → a < b → b < a + n → a % n ≢ b % n
mod-ne n a b l m e =
    let q = a / n in
    let r = b / n in
    let ea : q * n + a % n ≡ a = div-add-mod' a n in
    let eb : r * n + b % n ≡ b = div-add-mod' b n in
    elim (dec_lt q r) [
      | yes h ↦
          let c : q * n + n ≤ r * n =
            rw (mul_comm r n, mul_comm q n, mul_comm n q)
              (omega (arith, mul-le-mul_left {m = q + 1} {n = r} n (omega arith), mul_comm n q)) in
          omega (arith, ea, eb, c)
      | no h ↦
          let c : n * r ≤ n * q = mul-le-mul_left n (omega arith) in
          omega (arith, ea, eb, c, mul_comm n r, mul_comm n q)
    ]

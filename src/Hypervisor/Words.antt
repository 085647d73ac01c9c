-- ===== src/Hypervisor/Words.antt =====
-- Single bits of a word of 32 bits.
use depos.Base.{ap, ◌<◌, ℕ, zero, suc, ◌+◌, ◌*◌, ◌/◌, ◌%◌, ◌==◌, ◌≡◌, Bool, ◌||◌, ◌&&◌, not, arith}

-- `w & (1U << i)`
abbrev pub bit : ℕ → ℕ → Bool
bit w zero = w % 2 == 1
bit w (suc i) = bit (w / 2) i

-- `w | (1U << i)`
unfoldable pub set_bit : ℕ → ℕ → ℕ
set_bit w zero = w / 2 * 2 + 1
set_bit w (suc i) = set_bit (w / 2) i * 2 + w % 2

-- `w & ~(1U << i)`
unfoldable pub clear_bit : ℕ → ℕ → ℕ
clear_bit w zero = w / 2 * 2
clear_bit w (suc i) = clear_bit (w / 2) i * 2 + w % 2

bit_low : (q r j : ℕ) → r < 2 → bit (q * 2 + r) (suc j) ≡ bit q j
bit_low q r j h = ap (λ k. bit k j) {x = (q * 2 + r) / 2} {y = q} (omega arith)

pub bit-set_bit : (w i j : ℕ) → bit (set_bit w i) j ≡ ((i == j) || bit w j)
unfolding set_bit
bit-set_bit w zero zero = ground arith
bit-set_bit w zero (suc j) = ground (arith, bit_low (w / 2) 1 j)
bit-set_bit w (suc i) zero = ground arith
bit-set_bit w (suc i) (suc j) =
    ground (arith, bit-set_bit (w / 2) i j, bit_low (set_bit (w / 2) i) (w % 2) j)

pub bit-clear_bit : (w i j : ℕ) → bit (clear_bit w i) j ≡ (not (i == j) && bit w j)
unfolding clear_bit
bit-clear_bit w zero zero = ground arith
bit-clear_bit w zero (suc j) = ground (arith, bit_low (w / 2) 0 j)
bit-clear_bit w (suc i) zero = ground arith
bit-clear_bit w (suc i) (suc j) =
    ground (arith, bit-clear_bit (w / 2) i j, bit_low (clear_bit (w / 2) i) (w % 2) j)

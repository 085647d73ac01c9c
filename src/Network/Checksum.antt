-- ===== src/Network/Checksum.antt =====
-- include/network/protocols/InternetChecksum.hpp, at a list of bytes. The processor is little-endian, so a
-- word has its low byte first. The sum has 32 bits.
pub mod Verify
use depos.Base.{ℕ, zero, suc, ◌+◌, ◌-◌, ◌*◌, ◌/◌, ◌%◌, ◌==◌, if◌then◌else◌, List, [], ◌∷◌}

pub sum_words : List ℕ → ℕ
sum_words [] = 0
sum_words (a ∷ []) = a
sum_words (a ∷ b ∷ rest) = (a + 256 * b + sum_words rest) % 4294967296

-- `while (sum >> 16)`, with fuel
pub fold : ℕ → ℕ → ℕ
fold zero s = s
fold (suc fuel) s =
    let rest = fold fuel (s % 65536 + s / 65536) in if s / 65536 == 0 then s else rest

-- Three rounds are enough for 32 bits.
pub checksum : List ℕ → ℕ
checksum bytes = 65535 - fold 3 (sum_words bytes) % 65536

-- ===== src/Riscv64/Decoder/Fields.antt =====
-- The registers that are decoded from the instructions that the kernel completes for a guest.
use depos.Base.{
  ℕ, zero, suc, ◌+◌, ◌*◌, ◌/◌, ◌%◌, ◌<◌, ◌≡◌, ◌≢◌, ◌==◌, Bool, true, false, ◌&&◌, not, bit_and,
  arith, refl, Bool-cases, inl, inr, subst,
}
use depos.Base.Bits.{bit_and_low}
use depos.Riscv64.Decoder.{opcode, fp, rdtime, rd_half, rd_word, load_rd, store_rs2}

abbrev pub all_below : ℕ → (ℕ → Bool) → Bool
all_below zero test = true
all_below (suc n) test = test n && all_below n test

all_below-lt : (n : ℕ) (test : ℕ → Bool) (i : ℕ) → i < n → all_below n test ≡ true → test i ≡ true
all_below-lt zero test i h a = absurd (omega arith)
all_below-lt (suc n) test i h a = elim (Bool-cases (i == n)) [
  | inl e ↦ subst (λ k. test k ≡ true) {x = n} {y = i} (ground arith) (ground arith)
  | inr e ↦ all_below-lt n test i (ground arith) (ground arith)
]

-- the word of `rdtime rd`
pub rdtime_word : ℕ → ℕ
rdtime_word rd = 3222282355 + rd * 128

rdtime_test : ℕ → Bool
rdtime_test rd =
    rdtime (rdtime_word rd) && ((rd_word (rdtime_word rd) == rd) && not (fp (rdtime_word rd)))

rdtime_all : all_below 32 rdtime_test ≡ true
unfolding rdtime_test rdtime rd_word rdtime_word fp opcode
rdtime_all = refl

-- The instruction that reads the time is recognised with its register, for each of the 32 registers, and is no
-- instruction of the floating-point unit.
pub rdtime-rd_word :
    (rd : ℕ)
    → rd < 32
    → (rdtime (rdtime_word rd) ≡ true)
      × (rd_word (rdtime_word rd) ≡ rd)
      × (fp (rdtime_word rd) ≡ false)
unfolding rdtime_test
rdtime-rd_word rd h = let z = all_below-lt 32 rdtime_test rd h rdtime_all in ground arith

-- A word whose two low bits are set has its register in the bits 7 to 11 for a load, and 20 to 24 for a store;
-- a half-word has one of the registers 8 to 15 for both.
pub load_rd-store_rs2 :
    (word : ℕ)
    → (word % 4 ≡ 3 → (load_rd word ≡ word / 128 % 32) × (store_rs2 word ≡ word / 1048576 % 32))
      × (word % 4 ≢ 3 → (load_rd word ≡ 8 + word / 4 % 8) × (store_rs2 word ≡ 8 + word / 4 % 8))
unfolding load_rd store_rs2 rd_half rd_word
load_rd-store_rs2 word =
    let a : bit_and (word % 65536) 3 ≡ word % 65536 % 4 = bit_and_low 2 (word % 65536) in
    let b : bit_and (word % 65536 / 4) 7 ≡ word % 65536 / 4 % 8 =
      bit_and_low 3 (word % 65536 / 4) in
    let c : bit_and (word / 128) 31 ≡ word / 128 % 32 = bit_and_low 5 (word / 128) in
    let d : bit_and (word / 1048576) 31 ≡ word / 1048576 % 32 = bit_and_low 5 (word / 1048576) in
    (λ h. ground arith, λ h. ground arith)

-- ===== src/Riscv64/Decoder.antt =====
-- architecture/riscv64/Decoder.hpp, at the word or the half-word of an instruction.
pub mod Fields
use depos.Base.{
  ℕ, ◌+◌, ◌-◌, ◌*◌, ◌/◌, ◌%◌, ◌==◌, if◌then◌else◌, Bool, true, false, ◌||◌, not, bit_and,
}

pub opcode : ℕ → ℕ
opcode instruction =
    if not (bit_and instruction 3 == 3) then bit_and instruction 3 else bit_and instruction 127

pub fp : ℕ → Bool
fp instruction =
    let o = opcode instruction in
    (o == 7) || ((o == 39) || ((o == 83) || ((o == 67) || ((o == 71) || ((o == 75) || (o == 79))))))

pub wfi : ℕ → Bool
wfi instruction = instruction == 273678451

pub rdtime : ℕ → Bool
rdtime instruction = bit_and instruction 4293947519 == 3222282355

-- `rd(uint16_t)` and `rd(uint32_t)`
unfoldable pub rd_half : ℕ → ℕ
rd_half instruction = 8 + bit_and (instruction / 4) 7

unfoldable pub rd_word : ℕ → ℕ
rd_word instruction = bit_and (instruction / 128) 31

-- `rd(LD, pc)` and `rs2(SD, pc)`, at the word that stands at `pc`
unfoldable pub load_rd : ℕ → ℕ
load_rd word =
    let half = word % 65536 in if not (bit_and half 3 == 3) then rd_half half else rd_word word

pub store_rs2 : ℕ → ℕ
store_rs2 word =
    let half = word % 65536 in
    if not (bit_and half 3 == 3) then 8 + bit_and (half / 4) 7 else bit_and (word / 1048576) 31

-- ===== src/Drivers/Clock/Pll0.antt =====
-- `PLL0` of include/drivers/clock/JH7110_Clock_Controller.hpp.
pub mod Rate
use depos.Base.{ℕ, ◌+◌, ◌*◌, ◌/◌, ◌%◌, ◌^◌, ◌==◌, ◌&&◌, if◌then◌else◌, Option, none, some}
use depos.Drivers.Registers.{set_field}

-- `k_sys_syscon_base` of `PLL0`, and its registers
abbrev pub syscon : ℕ → ℕ
syscon offset = 318963712 + offset

pub pd : ℕ → (ℕ → ℕ) → ℕ → ℕ
pd value = set_field (syscon 32) 27 1 (value % 2)

pub prediv : ℕ → (ℕ → ℕ) → ℕ → ℕ
prediv value = set_field (syscon 36) 0 6 (value % 64)

pub fbdiv : ℕ → (ℕ → ℕ) → ℕ → ℕ
fbdiv value = set_field (syscon 28) 0 12 (value % 4096)

pub frac : ℕ → (ℕ → ℕ) → ℕ → ℕ
frac value = set_field (syscon 32) 0 24 (value % 16777216)

pub postdiv1 : ℕ → (ℕ → ℕ) → ℕ → ℕ
postdiv1 value = set_field (syscon 32) 28 2 (value % 4)

pub dacpd : ℕ → (ℕ → ℕ) → ℕ → ℕ
dacpd value = set_field (syscon 24) 24 1 (value % 2)

pub dsmpd : ℕ → (ℕ → ℕ) → ℕ → ℕ
dsmpd value = set_field (syscon 24) 25 1 (value % 2)

-- `rate(uintptr_t)`, which does not read its argument
pub set_rate : (ℕ → ℕ) → ℕ → ℕ
set_rate regs =
    let powered_down = pd 1 regs in
    let integer_mode = dsmpd 1 (dacpd 1 powered_down) in
    let divided = postdiv1 0 (fbdiv 125 (prediv 2 integer_mode)) in pd 0 divided

-- `rate()`. `none` is a division by zero.
pub rate : (ℕ → ℕ) → Option ℕ
rate regs =
    let integer = regs (syscon 24) / 2 ^ 24 % 2 in
    let modulator = regs (syscon 24) / 2 ^ 25 % 2 in
    let pre = regs (syscon 36) % 64 in
    let feedback = regs (syscon 28) % 4096 in
    let post = 2 ^ (regs (syscon 32) / 2 ^ 28 % 4) in
    let fraction = regs (syscon 32) % 16777216 in
    if (integer == 1) && (modulator == 1)
    then (if pre * post == 0 then none else some (24000000 * feedback % 2 ^ 64 / (pre * post)))
    else (if (integer == 0) && (modulator == 0)
        then (if pre * post == 0
            then none
            else some (24000000 * (feedback * 2 ^ 24 + fraction) % 2 ^ 64 / (pre * post * 2 ^ 24)))
        else some 0)

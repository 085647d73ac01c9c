-- ===== src/Hypervisor/Plic.antt =====
-- architecture/riscv64/VirtualPLIC.hpp: the interrupt controller that a virtual machine sees.
pub mod Laws
use depos.Base.{
  ℕ, zero, suc, ◌+◌, ◌-◌, ◌*◌, ◌/◌, ◌%◌, ◌==◌, ltb, leb, if◌then◌else◌, Bool, true, false, ◌||◌,
  ◌&&◌, not, Option, none, some, update,
}
use depos.Hypervisor.Words.{bit, set_bit, clear_bit}

-- The banks of 32 interrupts, the words of both contexts, and whether an interrupt is shown to the
-- virtual processor.
pub record Plic : Type 0 where
  pub priority : ℕ → ℕ
  pub pending : ℕ → ℕ
  pub enabled : ℕ → ℕ → ℕ
  pub threshold : ℕ → ℕ
  pub external : Bool

-- whether interrupt `32 * bank + i` is active; interrupt 0 never is
pub active : Plic → ℕ → ℕ → ℕ → Bool
active p context bank i =
    bit (p.pending bank) i && (bit (p.enabled context bank) i && not ((bank == 0) && (i == 0)))

-- the loop over the active bits of a bank, from bit `32 - n` on
pub pending_bits : Plic → ℕ → ℕ → ℕ → Bool
pending_bits p context bank zero = false
pending_bits p context bank (suc n) =
    let rest = pending_bits p context bank n in
    let i = 32 - suc n in
    if active p context bank i && ltb (p.threshold context) (p.priority (bank * 32 + i))
    then true
    else rest

pub pending_banks : Plic → ℕ → ℕ → Bool
pending_banks p context zero = false
pending_banks p context (suc n) =
    let rest = pending_banks p context n in
    if pending_bits p context (32 - suc n) 32 then true else rest

-- `pending`
pub is_pending : Plic → Bool
is_pending p = if pending_banks p 0 32 then true else pending_banks p 1 32

-- `interrupt`
pub interrupt : ℕ → Plic → Plic
interrupt id p =
    if bit (p.enabled 0 (id / 32)) (id % 32) || bit (p.enabled 1 (id / 32)) (id % 32)
    then record p {
      pending = update p.pending (id / 32) (set_bit (p.pending (id / 32)) (id % 32));
      external = true;
    }
    else p

-- `__builtin_ctz` of the active bits, from bit `32 - n` on
pub first_bit : Plic → ℕ → ℕ → ℕ → Option ℕ
first_bit p context bank zero = none
first_bit p context bank (suc n) =
    let rest = first_bit p context bank n in
    if active p context bank (32 - suc n) then some (32 - suc n) else rest

claim_at : Option ℕ → ℕ → Plic → ℕ × Plic → ℕ × Plic
claim_at none bank p rest = rest
claim_at (some i) bank p rest =
    (bank * 32 + i, record p { pending = update p.pending bank (clear_bit (p.pending bank) i) })

pub claim_banks : ℕ → ℕ → Plic → ℕ × Plic
claim_banks context zero p = (0, p)
claim_banks context (suc n) p =
    claim_at (first_bit p context (32 - suc n) 32) (32 - suc n) p (claim_banks context n p)

-- `claim`: the answer 0 is no interrupt.
pub claim : ℕ → Plic → ℕ × Plic
claim context p = claim_banks context 32 p

-- `read` at an offset from the address of the controller. `enabled_[context][chunk]` is read at the context
-- of the offset as it is.
pub read : ℕ → Plic → Option (ℕ × Plic)
read offset p =
    let off = (offset - 2097152) % 4294967296 in
    let context = off / 4096 in
    let (irq, claimed) = claim context p in
    if leb 8192 offset && ltb offset 2097152
    then some (p.enabled ((offset - 8192) / 128) ((offset - 8192) % 128 / 4), p)
    else (if leb 2097152 offset && ltb context 2
        then (if off % 4096 == 0
            then some (p.threshold context, p)
            else (if off % 4096 == 4
                then some (
                  irq,
                  (if is_pending claimed then claimed else record claimed { external = false }),
                )
                else none))
        else none)

pub write : ℕ → ℕ → Plic → Option Plic
write offset source p =
    let off = (offset - 2097152) % 4294967296 in
    let context = off / 4096 in
    let row = (offset - 8192) / 128 in
    if ltb offset 4096
    then some (record p { priority = update p.priority (offset / 4) source })
    else (if leb 8192 offset && ltb offset 2097152
        then some (record p {
          enabled =
              update p.enabled row (update (p.enabled row) ((offset - 8192) % 128 / 4) source);
        })
        else (if leb 2097152 offset
            then (if off % 4096 == 0
                then some (record p { threshold = update p.threshold context source })
                else (if off % 4096 == 4 then some p else none))
            else none))

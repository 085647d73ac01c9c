-- ===== src/Riscv64/Faults.antt =====
-- architecture/riscv64/sbi/LoadAccessFault.hpp, StoreAccessFault.hpp and IllegalInstruction.hpp: an access to a device of
-- the virtual machine, or an instruction that the supervisor may not run, is done for it. `none` is a trap that is left to
-- `ExceptionHandler::onTrap`. The memory that instructions are read from, the clock and the wait of `wfi` are parameters.
pub mod Emulation
use depos.Base.{
  bit_or, ℕ, ◌+◌, ◌-◌, ◌*◌, ◌/◌, ◌%◌, ◌^◌, ◌==◌, ◌&&◌, not, if◌then◌else◌, Bool, true, false,
  Option, none, some, List, update, bit_and,
}
use depos.Hypervisor.Machine.{Device, read, write}
use depos.Riscv64.Decoder.{fp, wfi, rdtime, rd_word, load_rd}
use depos.Riscv64.Mmu.{Tables, virt2phys}

-- `ContextFrame`, whose register 0 is the variable that `operator[]` keeps for it
pub record Context : Type 0 where
  pub registers : ℕ → ℕ
  pub status : ℕ
  pub value : ℕ
  pub pc : ℕ

-- `c->pc += 4`
pub skip : Context → Context
skip c = record c { pc = (c.pc + 4) % 2 ^ 64 }

-- a write of 32 bits at the address of a register of 64
pub set_low : ℕ → ℕ → Context → Context
set_low i v c = record c {
  registers = update c.registers i (c.registers i / 2 ^ 32 * 2 ^ 32 + v % 2 ^ 32);
}

-- the trap came from the supervisor
unfoldable pub from_supervisor : Context → Bool
from_supervisor c = c.status / 2 ^ 11 % 4 == 1

-- `VirtualCPU::read` and `write`, on the machine of the current virtual processor
module _ {ℓ} {S : Type ℓ} where
  unfoldable pub vcpu_read : Option (List (Device S)) → ℕ → S → Option (ℕ × S)
  vcpu_read none address s = none
  vcpu_read (some devices) address s = read devices address s

  unfoldable pub vcpu_write : Option (List (Device S)) → ℕ → ℕ → S → Option S
  vcpu_write none address source s = none
  vcpu_write (some devices) address source s = write devices address source s

  module _ (current : Option (List (Device S))) (satp : ℕ) (tables : Tables) (word : ℕ → ℕ) where
    -- `LoadAccessFault::dispatch`, at the address `tval`
    pub load_fault : ℕ → Context → S → Option (Context × S)
    load_fault tval c s =
        let i = load_rd (word (virt2phys satp c.pc tables)) in
        if from_supervisor c
        then (elim (vcpu_read current (virt2phys satp tval tables) s) [
          | none ↦ none
          | some (v, s') ↦ some (skip (set_low i v c), s')
        ])
        else none

    -- `StoreAccessFault::dispatch`
    pub store_fault : ℕ → Context → S → Option (Context × S)
    store_fault tval c s =
        let instruction = word (virt2phys satp c.pc tables) in
        let source = c.registers (bit_and (instruction / 2 ^ 20) 31) in
        if from_supervisor c
        then (elim (vcpu_write current (virt2phys satp tval tables) (source % 2 ^ 32) s) [
          | none ↦ none
          | some s' ↦ some (skip c, s')
        ])
        else none

-- `FPU::MASK`, the two bits from 13 on
abbrev pub fpu_mask : ℕ
fpu_mask = 24576

-- `FPU::enable`, on the status in the frame
pub enable_fpu : Context → Context
enable_fpu c = record c { status = bit_or (bit_and c.status (2 ^ 64 - 1 - fpu_mask)) (2 ^ 13) }

-- `IllegalInstruction::dispatch`
module _ {ℓ} {S : Type ℓ} (mtime : ℕ) (alarm : S → S) where
  pub illegal : Context → S → Option (Context × S)
  illegal c s =
      let instruction = c.value % 2 ^ 32 in
      let timed = record c { registers = update c.registers (rd_word instruction) mtime } in
      if rdtime instruction
      then some (skip timed, s)
      else (if wfi instruction
          then some (skip c, alarm s)
          else (if fp instruction && (bit_and c.status fpu_mask == 0)
              then some (enable_fpu c, s)
              else none))

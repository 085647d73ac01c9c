-- ===== src/Tests/Riscv64.antt =====
-- A table of handlers, and a guest that stores to a device and loads from it.
use depos.Base.{ℕ, ◌<◌, ◌≡◌, ◌≢◌, ◌==◌, if◌then◌else◌, arith, false, Option, none, some, [], ◌∷◌}
use depos.Hypervisor.Machine
use depos.Riscv64.Mmu.{virt2phys}
use depos.Riscv64.Traps.{Kind, interrupt, cause_of, install, dispatch}
use depos.Riscv64.Traps.Table.{dispatch-install}
use depos.Riscv64.Faults.{Context, vcpu_read, vcpu_write, load_fault, store_fault}
use depos.Riscv64.Faults.Emulation.{Loaded, Stored, load_fault-store_fault}

dispatch-install_example :
    (handlers' : ℕ → Option ℕ) × (install 7 42 interrupt (λ i. none) ≡ some handlers')
    × (dispatch (cause_of 7 interrupt) handlers' ≡ some 42)
    × ((id' : ℕ) (kind' : Kind)
        → id' < 16
        → cause_of id' kind' ≢ cause_of 7 interrupt
        → dispatch (cause_of id' kind') handlers' ≡ dispatch (cause_of id' kind') (λ i. none))
dispatch-install_example = dispatch-install 7 (omega arith) interrupt 42 (λ i. none)

-- A device with one word at the address 8192, and a guest without paging with an instruction that
-- has register 10 where a store names it and register 11 where a load does.
abbrev cell : Machine.Device ℕ
cell = record {
  on_read = λ target s. if target == 8192 then some (s, s) else none;
  on_write = λ target source s. if target == 8192 then some source else none;
  on_interrupt = λ id s. s;
  is_controller = false;
}

abbrev guest : Context
guest = record { registers = λ i. 77; status = 2048; value = 0; pc = 4096 }

-- a word with register 11 in the bits 7 to 11 and register 10 in the bits 20 to 24
abbrev code : ℕ → ℕ
code at = 10487171

load_fault-store_fault_example :
    Loaded guest 11 (some (5, 5)) (load_fault (some (cell ∷ [])) 0 (λ p i. 0) code 8192 guest 5)
    × Stored guest (some 77) (store_fault (some (cell ∷ [])) 0 (λ p i. 0) code 8192 guest 5)
unfolding vcpu_read vcpu_write Machine.read Machine.write Machine.or_read Machine.or_write virt2phys
load_fault-store_fault_example =
    load_fault-store_fault (some (cell ∷ [])) 0 (λ p i. 0) code 8192 guest 5

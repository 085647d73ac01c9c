-- ===== src/Riscv64/Vcpu.antt =====
-- architecture/riscv64/VirtualCPU.hpp, on one core. The supervisor bits of the machine's IE and IP, which the
-- mask 0x222 selects, are three truth values; the other bits of these registers are not touched here.
pub mod Switch
use depos.Base.{
  ℕ, ◌==◌, ltb, leb, if◌then◌else◌, Bool, true, false, ◌||◌, Option, none, some, update,
}

-- the software, timer and external interrupt of the supervisor
pub record Bits : Type 0 where
  pub si : Bool
  pub ti : Bool
  pub ei : Bool

-- the registers of the core, and `VirtualCPU::Registers`
pub record Registers : Type 0 where
  pub sscratch : ℕ
  pub satp : ℕ
  pub stvec : ℕ
  pub scause : ℕ
  pub stval : ℕ
  pub sepc : ℕ
  pub sie : Bits
  pub sip : Bits

-- A virtual processor: its registers, `mtimecmp`, `external_`, and `core_` where it has one.
pub record Vcpu : Type 0 where
  pub registers : Registers
  pub mtimecmp : ℕ
  pub external : Bool
  pub core : Option ℕ

-- A core: its registers, the virtual processors, which one is current, whether interrupts are delegated, the
-- time, and the cores that were sent an interrupt.
pub record Core : Type 0 where
  pub csr : Registers
  pub vcpus : ℕ → Vcpu
  pub current : Option ℕ
  pub delegated : Bool
  pub mtime : ℕ
  pub ipi : ℕ → Bool

abbrev pub no_bits : Bits
no_bits = record { si = false; ti = false; ei = false }

set_vcpu : ℕ → Vcpu → Core → Core
set_vcpu v x c = record c { vcpus = update c.vcpus v x }

-- `activate` on core `me`
pub activate : ℕ → ℕ → Core → Core
activate me v c =
    let x = c.vcpus v in
    let ti' = if leb x.mtimecmp c.mtime then true else x.registers.sip.ti in
    let ei' = if x.external then true else x.registers.sip.ei in
    record c {
      delegated = true;
      current = some v;
      vcpus = update c.vcpus v (record x {
        core = some me;
        registers = record (x.registers) { sip = record (x.registers.sip) { ti = ti'; ei = ei' } };
      });
    }

-- `save`
pub save : ℕ → Core → Core
save v c = record c { vcpus = update c.vcpus v (record (c.vcpus v) { registers = c.csr }) }

-- `restore`
pub restore : ℕ → Core → Core
restore v c = record c { csr = (c.vcpus v).registers }

-- `swtch`
leave : Option ℕ → Core → Core
leave none c = c
leave (some v) c =
    let saved = save v c in
    record saved { vcpus = update saved.vcpus v (record (saved.vcpus v) { core = none }) }

enter : ℕ → Option ℕ → Core → Core
enter me none c = record c {
  csr = record (c.csr) { sie = no_bits; sip = no_bits };
  delegated = false;
  current = none;
}
enter me (some v) c = restore v (activate me v c)

pub swtch : ℕ → Option ℕ → Option ℕ → Core → Core
swtch me previous next c = enter me next (leave previous c)

set_ti : Bool → Core → Core
set_ti b c = record c { csr = record (c.csr) { sip = record (c.csr.sip) { ti = b } } }

set_ei : Bool → Core → Core
set_ei b c = record c { csr = record (c.csr) { sip = record (c.csr.sip) { ei = b } } }

is_current : ℕ → Option ℕ → Bool
is_current v none = false
is_current v (some w) = v == w

tell : Option ℕ → Core → Core
tell none c = c
tell (some core) c = record c { ipi = update c.ipi core true }

-- `setInterruptPending`
pub set_interrupt_pending : ℕ → Core → Core
set_interrupt_pending v c =
    let c' = set_vcpu v (record (c.vcpus v) { external = true }) c in
    if is_current v c.current then set_ei true c' else tell (c.vcpus v).core c'

-- `clearInterruptPending`, of the current virtual processor
pub clear_interrupt_pending : ℕ → Core → Option Core
clear_interrupt_pending v c =
    if is_current v c.current
    then some (set_ei false (set_vcpu v (record (c.vcpus v) { external = false }) c))
    else none

interrupted_by : Option ℕ → Core → Core
interrupted_by none c = c
interrupted_by (some v) c = if (c.vcpus v).external then set_ei true c else c

-- `onInterProcessorInterrupt`
pub on_interprocessor_interrupt : Core → Core
on_interprocessor_interrupt c = interrupted_by c.current c

ticked : Option ℕ → Core → Core
ticked none c = c
ticked (some v) c = if leb (c.vcpus v).mtimecmp c.mtime then set_ti true c else c

-- `onTick`
pub on_tick : Core → Core
on_tick c = ticked c.current c

timed : Option ℕ → ℕ → Core → Option Core
timed none t c = none
timed (some v) t c =
    some (set_ti (leb t c.mtime) (set_vcpu v (record (c.vcpus v) { mtimecmp = t }) c))

-- `mtimecmp(uintmax_t)`
pub set_mtimecmp : ℕ → Core → Option Core
set_mtimecmp t c = timed c.current t c

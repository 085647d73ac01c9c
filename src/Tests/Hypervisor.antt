-- ===== src/Tests/Hypervisor.antt =====
-- A virtual interrupt controller with two interrupts, a device of a machine with memory at 4096, and a virtual
-- processor.
use depos.Base.{
  [], ◌-◌, ◌∷◌, ltb, Bool, Option, ℕ, ◌+◌, ◌≡◌, ◌==◌, ◌&&◌, none, some, leb, if◌then◌else◌, arith,
  refl, true, false,
}
use depos.Hypervisor.Plic.{Plic, claim}
use depos.Hypervisor.Plic.Laws.{Claims, claim-Claims}
use depos.Hypervisor.Queue.{Queue, Rings}
use depos.Hypervisor.Virtio.{Device}
use depos.Hypervisor.Devices.{Guest}
use depos.Hypervisor.Devices.Console.Chains.{Prints, notify-Prints}
use depos.Hypervisor.Fdt.{Builder}
use depos.Hypervisor.Fdt.Property.{Adds, add_property-Adds}
use depos.Riscv64.Vcpu.{Bits, Registers, Core, swtch}
use depos.Riscv64.Vcpu.Switch.{with_pending, swtch-swtch}
use depos.Riscv64.Sbi.{Frame}

abbrev plic : Plic
plic = record {
  priority = λ i. 1;
  pending = λ b. if b == 1 then 6 else 0;
  enabled = λ c b. 4;
  threshold = λ c. 0;
  external = false;
}

claim-Claims_example : Claims plic 0 0 (claim 0 plic)
claim-Claims_example = claim-Claims plic 0

abbrev small_queue : Queue
small_queue = record {
  address = 4096;
  size = 4;
  last_available_index = 65535;
  descriptors_at = 4096;
  available_at = 4160;
  used_at = 8192;
}

abbrev rings : Rings
rings = record {
  available_index = 1;
  available_ring = λ i. i;
  used_index = 2;
  used_ring = λ i. (0, 0);
}

abbrev device : Device
device = record {
  header = λ i. if i == 10 then 4096 else (if i == 14 then 8 else (if i == 15 then 4096 else 0));
  queues = λ i. small_queue;
}

abbrev nothing_pending : Bits
nothing_pending = record { si = false; ti = false; ei = false }

abbrev registers : ℕ → Registers
registers n = record {
  sscratch = n;
  satp = n;
  stvec = n;
  scause = n;
  stval = n;
  sepc = n;
  sie = nothing_pending;
  sip = nothing_pending;
}

abbrev core : Core
core = record {
  csr = registers 1;
  vcpus = λ v. record { registers = registers v; mtimecmp = 10; external = false; core = none };
  current = some 7;
  delegated = true;
  mtime = 12;
  ipi = λ i. false;
}

-- what the other virtual processor leaves on the core later
abbrev later_core : Core
later_core = record (swtch 0 (some 7) (some 8) core) { csr = registers 99; mtime = 20 }

swtch-swtch_example :
    (swtch 0 (some 8) (some 7) later_core).csr
    ≡ with_pending (registers 1) (leb 10 20) (later_core.vcpus 7).external
swtch-swtch_example = swtch-swtch 0 7 8 core later_core (λ e. absurd (omega arith)) refl refl

abbrev time_call : Frame
time_call = record { a0 = 11; a1 = 5; a6 = 0; a7 = 1414090053; pc = 100 }

abbrev load_word : ℕ
load_word = 197123

-- pages from 1 to 99 are handed out in order, and page 0 is the root
abbrev next_page : ℕ → Option (ℕ × ℕ)
next_page s = if ltb s 100 then some (s, s + 1) else none

abbrev not_yet : ℕ → ℕ → Bool
not_yet s p = leb s p && ltb p 100

abbrev root_level : ℕ → ℕ
root_level p = if p == 0 then 2 else 3

-- a queue of two descriptors, of which the second follows the first, and the first is in the available ring
abbrev two_descriptors : Queue
two_descriptors = record {
  address = 16;
  size = 2;
  last_available_index = 0;
  descriptors_at = 16;
  available_at = 48;
  used_at = 64;
}

abbrev one_available : Rings
one_available = record {
  available_index = 1;
  available_ring = λ i. 0;
  used_index = 0;
  used_ring = λ i. (0, 0);
}

abbrev guest : Guest
guest = record {
  descriptors = λ i. record { address = 100; length = 2; flags = 1 - i; next = 1 };
  memory = λ a. a;
  status = 0;
  raised = 0;
}

notify-Prints_example : Prints 5 guest two_descriptors one_available [] (λ h. 1 ∷ [])
notify-Prints_example =
    notify-Prints 5 guest two_descriptors one_available [] (λ h. 1 ∷ []) (λ e. absurd (omega arith))
      (omega arith) (omega arith) (omega arith)
      (λ h m. ((ground arith, ground arith, refl, (omega arith, refl)), omega arith))

abbrev empty_tree : Builder
empty_tree = record { buffer = λ a. 0; capacity = 200; cursor = 56; strings_cursor = 200 }

add_property-Adds_example : Adds (114 ∷ []) (7 ∷ 8 ∷ []) empty_tree
add_property-Adds_example = add_property-Adds (114 ∷ []) (7 ∷ 8 ∷ []) empty_tree

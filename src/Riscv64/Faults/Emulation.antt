-- ===== src/Riscv64/Faults/Emulation.antt =====
-- Accesses of a guest to its devices.
use depos.Base.{
  ℕ, ◌+◌, ◌*◌, ◌/◌, ◌%◌, ◌^◌, ◌≡◌, ◌≢◌, ◌==◌, if◌then◌else◌, arith, Bool, true, false, Option, none,
  some, refl, List, update_self, update_ne, bit_and, inl, inr, eq-cases, ap, subst,
}
use depos.Hypervisor.Machine.{Device}
use depos.Base.Bits.{bit_and_low}
use depos.Riscv64.Decoder.{load_rd}
use depos.Riscv64.Decoder.Fields.{load_rd-store_rs2}
use depos.Riscv64.Mmu.{Tables, virt2phys}
use depos.Riscv64.Faults.{
  Context, skip, set_low, from_supervisor, vcpu_read, vcpu_write, load_fault, store_fault,
}

-- What a load of `v` into register `j` leaves: the low half of the register is `v`, and its high half and the other
-- registers are as they were.
abbrev pub Loads : ℕ → ℕ → Context → Context → Type 0
Loads j v c c' =
    (c'.registers j % 2 ^ 32 ≡ v % 2 ^ 32)
    × (c'.registers j / 2 ^ 32 ≡ c.registers j / 2 ^ 32)
    × ((k : ℕ) → k ≢ j → c'.registers k ≡ c.registers k)

set_low-Loads : (j v : ℕ) (c : Context) → Loads j v c (set_low j v c)
unfolding set_low
set_low-Loads j v c =
    let w = c.registers j / 2 ^ 32 * 2 ^ 32 + v % 2 ^ 32 in
    let e = update_self c.registers j w in
    (omega (arith, e), omega (arith, e), λ k n. update_ne c.registers j w k n)

-- The register that the word of a load names: a word whose two low bits are set has it in the bits 7 to 11, and a half-word is
-- one of the registers 8 to 15.
abbrev pub loaded_register : ℕ → ℕ
loaded_register word = if word % 4 == 3 then word / 128 % 32 else 8 + word / 4 % 8

load_rd_lem : (word : ℕ) → load_rd word ≡ loaded_register word
load_rd_lem word = elim (eq-cases (word % 4) 3) [
  | inl e ↦ ground (arith, ((load_rd-store_rs2 word).0 e).0)
  | inr ne ↦ ground (arith, ((load_rd-store_rs2 word).1 ne).0)
]

-- What becomes of a load into register `j`, by what the machine answers: nothing, and the trap is left to the
-- handler of exceptions, or the register has the value, and the instruction counts 4 bytes.
abbrev pub Loaded : {S : Type 0} → Context → ℕ → Option (ℕ × S) → Option (Context × S) → Type 0
Loaded c j none answer = answer ≡ none
Loaded c j (some (v, s')) answer =
    (c' : Context) × (answer ≡ some (c', s')) × Loads j v c c' × (c'.pc ≡ (c.pc + 4) % 2 ^ 64)

-- What becomes of a store: as for a load, and no register changes.
abbrev pub Stored : {S : Type 0} → Context → Option S → Option (Context × S) → Type 0
Stored c none answer = answer ≡ none
Stored c (some s') answer =
    (c' : Context) × (answer ≡ some (c', s'))
    × (c'.registers ≡ c.registers)
    × (c'.pc ≡ (c.pc + 4) % 2 ^ 64)

module _ {S : Type 0} (current : Option (List (Device S))) (satp : ℕ) (tables : Tables)
    (word : ℕ → ℕ) (tval : ℕ) (c : Context) (s : S) where
  load_fault-Loaded :
      (o : Option (ℕ × S)) (guest : Bool)
      → from_supervisor c ≡ guest
      → vcpu_read current (virt2phys satp tval tables) s ≡ o
      → Loaded c
          (load_rd (word (virt2phys satp c.pc tables)))
          (if guest then o else none)
          (load_fault current satp tables word tval c s)
  unfolding load_fault skip set_low
  load_fault-Loaded o false g e = rw g refl
  load_fault-Loaded none true g e = rw (g, e) refl
  load_fault-Loaded (some (v, s')) true g e =
      let j = load_rd (word (virt2phys satp c.pc tables)) in
      (skip (set_low j v c), rw (g, e) refl, set_low-Loads j v c, refl)

  store_fault-Stored :
      (o : Option S) (guest : Bool)
      → from_supervisor c ≡ guest
      → vcpu_write current
          (virt2phys satp tval tables)
          (c.registers (bit_and (word (virt2phys satp c.pc tables) / 2 ^ 20) 31) % 2 ^ 32)
          s
        ≡ o
      → Stored c (if guest then o else none) (store_fault current satp tables word tval c s)
  unfolding store_fault skip
  store_fault-Stored o false g e = rw g refl
  store_fault-Stored none true g e = rw (g, e) refl
  store_fault-Stored (some s') true g e = (skip c, rw (g, e) refl, refl, refl)

-- An access fault of an instruction at an address. Where the frame says that it came from the supervisor and a device of the current
-- virtual machine takes the physical address, a load puts the 32 bits that the device answers into the low half of the register
-- that the instruction names, in its full or its compressed form, and leaves the high half and the other registers; a store gives
-- the device the low half of the register in the bits 20 to 24 of the instruction, and changes no register. Either counts 4 bytes.
-- Otherwise both are left to the handler of exceptions.
pub load_fault-store_fault :
    {S : Type 0} (current : Option (List (Device S))) (satp : ℕ) (tables : Tables) (word : ℕ → ℕ)
    (tval : ℕ) (c : Context) (s : S)
    → let guest = c.status / 2048 % 4 == 1 in
      let address = virt2phys satp tval tables in
      let instruction = word (virt2phys satp c.pc tables) in
      let source = c.registers (instruction / 1048576 % 32) % 2 ^ 32 in
      Loaded c
        (loaded_register instruction)
        (if guest then vcpu_read current address s else none)
        (load_fault current satp tables word tval c s)
      × Stored c
          (if guest then vcpu_write current address source s else none)
          (store_fault current satp tables word tval c s)
unfolding from_supervisor
load_fault-store_fault current satp tables word tval c s =
    let address = virt2phys satp tval tables in
    let instruction = word (virt2phys satp c.pc tables) in
    let guest = c.status / 2048 % 4 == 1 in
    let named : bit_and (instruction / 2 ^ 20) 31 ≡ instruction / 1048576 % 32 =
      bit_and_low 5 (instruction / 1048576) in
    let same = ap (λ k. vcpu_write current address (c.registers k % 2 ^ 32) s) named in
    (
      subst
          (λ j.
            Loaded c j (if guest then vcpu_read current address s else none)
              (load_fault current satp tables word tval c s))
          (load_rd_lem instruction)
          (load_fault-Loaded current satp tables word tval c s (vcpu_read current address s) guest
            refl refl),
      store_fault-Stored current satp tables word tval c s
          (vcpu_write current address (c.registers (instruction / 1048576 % 32) % 2 ^ 32) s) guest
          refl same,
    )

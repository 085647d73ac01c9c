-- ===== src/Riscv64/Vcpu/Switch.antt =====
-- A virtual processor finds its registers again.
use depos.Base.{
  ℕ, ◌≡◌, ◌≢◌, leb, if◌then◌else◌, Bool, true, none, some, update, update_self, update_ne, refl, ap,
  ◌∙◌,
}
use depos.Riscv64.Vcpu.{
  Registers, Vcpu, Core, activate, save, restore, leave, enter, swtch, set_ti, set_vcpu,
  set_mtimecmp, timed,
}

-- the registers with what became pending
abbrev pub with_pending : Registers → Bool → Bool → Registers
with_pending r t e = record r {
  sip = record (r.sip) { ti = if t then true else r.sip.ti; ei = if e then true else r.sip.ei };
}

-- The virtual processor that was left has the registers of the core.
left : Core → Vcpu → Vcpu
left c x = record x { registers = c.csr; core = none }

leave-left : (v : ℕ) (c : Core) → (leave (some v) c).vcpus v ≡ left c (c.vcpus v)
unfolding leave save left
leave-left v c =
    update_self (update c.vcpus v (record (c.vcpus v) { registers = c.csr })) v _
    ∙ ap (λ (x : Vcpu). record x { core = none })
        (update_self c.vcpus v (record (c.vcpus v) { registers = c.csr }))

leave-other : (u v : ℕ) (c : Core) → u ≢ v → (leave (some v) c).vcpus u ≡ c.vcpus u
unfolding leave save
leave-other u v c ne =
    update_ne (update c.vcpus v (record (c.vcpus v) { registers = c.csr })) v _ u ne
    ∙ update_ne c.vcpus v _ u ne

leave-mtime :
    (v : ℕ) (c : Core) → ((leave (some v) c).mtime ≡ c.mtime) × ((leave (some v) c).csr ≡ c.csr)
unfolding leave save
leave-mtime v c = (refl, refl)

enter-csr :
    (me v : ℕ) (c : Core)
    → (enter me (some v) c).csr
      ≡ with_pending (c.vcpus v).registers (leb (c.vcpus v).mtimecmp c.mtime) (c.vcpus v).external
unfolding enter restore activate
enter-csr me v c = ap (λ (x : Vcpu). x.registers) (update_self c.vcpus v _)

enter-other : (me u v : ℕ) (c : Core) → u ≢ v → (enter me (some v) c).vcpus u ≡ c.vcpus u
unfolding enter restore activate
enter-other me u v c ne = update_ne c.vcpus v _ u ne

enter-mtime : (me v : ℕ) (c : Core) → (enter me (some v) c).mtime ≡ c.mtime
unfolding enter restore activate
enter-mtime me v c = refl

-- A virtual processor `a` is left for another one `b`. Whatever happens on the core until `b` is left for `a` again, if `a` still has the
-- registers and the time that it was left with, then all registers of the core are those that `a` was left with, with the timer
-- interrupt pending once its time has come by then, and the external interrupt pending if there is one by then.
pub swtch-swtch :
    (me a b : ℕ) (c later : Core)
    → a ≢ b
    → (later.vcpus a).registers ≡ ((swtch me (some a) (some b) c).vcpus a).registers
    → (later.vcpus a).mtimecmp ≡ ((swtch me (some a) (some b) c).vcpus a).mtimecmp
    → (swtch me (some b) (some a) later).csr
      ≡ with_pending c.csr (leb (c.vcpus a).mtimecmp later.mtime) (later.vcpus a).external
unfolding swtch left
swtch-swtch me a b c later ne kept timed =
    let back = leave (some b) later in
    let x : back.vcpus a ≡ later.vcpus a = leave-other a b later ne in
    let away : (swtch me (some a) (some b) c).vcpus a ≡ left c (c.vcpus a) =
      enter-other me a b (leave (some a) c) ne ∙ leave-left a c in
    let r : (later.vcpus a).registers ≡ c.csr = kept ∙ ap (λ (y : Vcpu). y.registers) away in
    let t : (later.vcpus a).mtimecmp ≡ (c.vcpus a).mtimecmp =
      timed ∙ ap (λ (y : Vcpu). y.mtimecmp) away in
    enter-csr me a back ∙ rw (x, r, t, (leave-mtime b later).0) refl

-- Setting the time of the current virtual processor: its timer interrupt is pending exactly when the time
-- has come.
pub set_mtimecmp-current :
    (t : ℕ) (c : Core) (v : ℕ)
    → c.current ≡ some v
    → (c' : Core) × (set_mtimecmp t c ≡ some c')
      × (c'.csr.sip.ti ≡ leb t c.mtime)
      × ((c'.vcpus v).mtimecmp ≡ t)
unfolding set_mtimecmp timed set_ti set_vcpu
set_mtimecmp-current t c v e = (
  set_ti (leb t c.mtime) (set_vcpu v (record (c.vcpus v) { mtimecmp = t }) c),
  ap (λ o. timed o t c) e,
  refl,
  ap (λ (x : Vcpu). x.mtimecmp) (update_self c.vcpus v (record (c.vcpus v) { mtimecmp = t })),
)

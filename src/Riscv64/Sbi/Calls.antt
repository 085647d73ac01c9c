-- ===== src/Riscv64/Sbi/Calls.antt =====
-- What a supervisor sees of its calls.
use depos.Base.{ℕ, ◌+◌, ◌%◌, ◌^◌, ◌==◌, ◌≡◌, leb, true, false, Option, some, arith, refl}
use depos.Riscv64.Vcpu.{Core, set_mtimecmp}
use depos.Riscv64.Vcpu.Switch.{set_mtimecmp-current}
use depos.Riscv64.Sbi.{Frame, time, timed, dispatch, advance, time_extension}

is_time :
    (c : Frame) → c.a7 ≡ time_extension → ((c.a7 == 16) ≡ false) × ((c.a7 == time_extension) ≡ true)
is_time c e = (ground arith, ground arith)

module _ (vendor architecture implementation : ℕ)
    (other : Frame → Core → Option (Frame × Core)) where
  time_dispatch :
      (c : Frame) (core core' : Core)
      → c.a7 ≡ time_extension
      → set_mtimecmp c.a0 core ≡ some core'
      → dispatch vendor architecture implementation other c core
        ≡ some (record c { a0 = 0; a1 = 0; pc = (c.pc + 4) % 2 ^ 64 }, core')
  unfolding dispatch advance time timed
  time_dispatch c core core' e g = rw ((is_time c e).0, (is_time c e).1, g) refl

  -- The supervisor that sets a time on a current virtual processor has its timer interrupt pending exactly
  -- when the time has come, both registers of the answer are 0, and it goes on.
  pub dispatch-time :
      (c : Frame) (core : Core) (v : ℕ)
      → c.a7 ≡ time_extension
      → core.current ≡ some v
      → (c' : Frame) × (core' : Core) × (dispatch vendor architecture implementation other c core
          ≡ some (c', core'))
        × (core'.csr.sip.ti ≡ leb c.a0 core.mtime)
        × ((core'.vcpus v).mtimecmp ≡ c.a0)
        × (c'.a0 ≡ 0)
        × (c'.pc ≡ (c.pc + 4) % 2 ^ 64)
  unfolding dispatch advance time timed
  dispatch-time c core v e f =
      let (core', g, ti, cmp) = set_mtimecmp-current c.a0 core v f in
      let c' = record c { a0 = 0; a1 = 0; pc = (c.pc + 4) % 2 ^ 64 } in
      (c', core', time_dispatch c core core' e g, ti, cmp, refl, refl)

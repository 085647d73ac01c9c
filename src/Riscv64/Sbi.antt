-- ===== src/Riscv64/Sbi.antt =====
-- architecture/riscv64/sbi: the calls of a supervisor. The identities of the machine are parameters, and so is
-- what the calls of Counter.hpp, FWFT.hpp and SystemReset.hpp and the handler of other traps do.
pub mod Calls
use depos.Base.{ℕ, ◌+◌, ◌%◌, ◌^◌, ◌==◌, if◌then◌else◌, Bool, true, false, Option, none, some}
use depos.Riscv64.Vcpu.{Core, set_mtimecmp}

-- the registers of ContextFrame.hpp that the calls use
pub record Frame : Type 0 where
  pub a0 : ℕ
  pub a1 : ℕ
  pub a6 : ℕ
  pub a7 : ℕ
  pub pc : ℕ

-- `Time::EID`, which is 'TIME'
abbrev pub time_extension : ℕ
time_extension = 1414090053

-- `SystemReset::EID`, which is 'SRST'
abbrev pub reset_extension : ℕ
reset_extension = 1397904212

module _ (vendor architecture implementation : ℕ) where
  -- `Base::handler`
  pub base : Frame → Frame
  base c =
      if c.a6 == 4
      then record c { a0 = 0; a1 = vendor }
      else (if c.a6 == 5
          then record c { a0 = 0; a1 = architecture }
          else (if c.a6 == 6
              then record c { a0 = 0; a1 = implementation }
              else (if c.a6 == 0
                  then record c { a0 = 0; a1 = 3 }
                  else (if c.a6 == 1
                      then record c { a0 = 0; a1 = 1 }
                      else (if c.a6 == 2
                          then record c { a0 = 0; a1 = 65543 }
                          else (if c.a6 == 3
                              then record c {
                                a0 = 0;
                                a1 = (if c.a0 == time_extension then 1 else 0);
                              }
                              else c))))))

  timed : Frame → Option Core → Option (Frame × Core)
  timed c none = none
  timed c (some core) = some (record c { a0 = 0; a1 = 0 }, core)

  -- `Time::handler`
  pub time : Frame → Core → Option (Frame × Core)
  time c core = timed c (set_mtimecmp c.a0 core)

  advance : Option (Frame × Core) → Option (Frame × Core)
  advance none = none
  advance (some (c, core)) = some (record c { pc = (c.pc + 4) % 2 ^ 64 }, core)

  -- `Syscall::dispatch`. `other` is what happens at the other extensions.
  pub dispatch : (Frame → Core → Option (Frame × Core)) → Frame → Core → Option (Frame × Core)
  dispatch other c core = advance (
      if c.a7 == 16
      then some (base c, core)
      else (if c.a7 == time_extension then time c core else other c core))

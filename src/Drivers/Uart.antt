-- ===== src/Drivers/Uart.antt =====
-- include/drivers/uart/UART16550.hpp and SiFiveUART.hpp. The device is a parameter: what reads and writes of its registers
-- do. A loop that waits for it has fuel, and `none` is fuel that ran out.
use depos.Base.{ℕ, zero, suc, ◌/◌, ◌%◌, ◌^◌, ◌==◌, if◌then◌else◌, Option, none, some, List, [], ◌∷◌}

-- `UART16550`, whose registers are numbered from 0 (RBR and THR, DLL) to 5 (LSR)
module _ {S : Type 0} (load : ℕ → S → ℕ × S) (store : ℕ → ℕ → S → S) where
  -- the constructor, at a divisor of the baud rate
  pub setup : ℕ → S → S
  setup divisor s =
      let latched = store 3 128 (store 1 0 s) in
      let divided = store 1 (divisor / 256 % 256) (store 0 (divisor % 256) latched) in
      let framed = store 2 7 (store 3 3 divided) in store 4 11 (store 1 1 framed)

  -- the loop of the handler, with the bytes that the buffer still has room for
  pub collect : ℕ → S → List ℕ × S
  collect zero s = ([], (load 5 s).1)
  collect (suc room) s =
      let (status, s1) = load 5 s in
      let (c, s2) = load 0 s1 in
      let rest = collect room s2 in if status % 2 == 1 then (c % 256 ∷ rest.0, rest.1) else ([], s1)

  -- `handler`: what the observers are shown
  pub handle : S → List ℕ × S
  unfolding collect
  handle s = collect 32 s

  pub putc : ℕ → ℕ → S → Option S
  putc zero c s = none
  putc (suc fuel) c s =
      let (status, s1) = load 5 s in
      let rest = putc fuel c s1 in if status / 32 % 2 == 0 then rest else some (store 0 c s1)

  pub getc : ℕ → S → Option (ℕ × S)
  getc zero s = none
  getc (suc fuel) s =
      let (status, s1) = load 5 s in
      let rest = getc fuel s1 in if status % 2 == 0 then rest else some (load 0 s1)

-- `SiFiveUART`, whose RXDATA is at 4 and tells with its bit 31 that it is empty
module _ {S : Type 0} (load : ℕ → S → ℕ × S) where
  pub collect_sifive : ℕ → S → List ℕ × S
  collect_sifive zero s = ([], s)
  collect_sifive (suc room) s =
      let (c, s1) = load 4 s in
      let rest = collect_sifive room s1 in
      if c / 2 ^ 31 % 2 == 1 then ([], s1) else (c % 256 ∷ rest.0, rest.1)

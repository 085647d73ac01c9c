-- ===== src/Utility/Decimal.antt =====
-- The decimal and hexadecimal output of include/utility/Console.hpp, as the list of the characters, and
-- `atol` of src/libraries/libc/stdlib.cpp. A loop on a number has the number as its fuel.
pub mod Print
use mathlib.Core.Option
use depos.Base.{
  ℕ, zero, suc, ◌+◌, ◌-◌, ◌*◌, ◌/◌, ◌%◌, ◌^◌, ◌==◌, ltb, leb, ◌&&◌, if◌then◌else◌, Option, none,
  some, List, [], ◌∷◌, ◌++◌,
}
use depos.Utility.{ℤ, pos, negsuc}

-- what the loop stores in `buffer`
pub decimal_digits : ℕ → ℕ → List ℕ
decimal_digits zero x = []
decimal_digits (suc fuel) x =
    let rest = decimal_digits fuel (x / 10) in if x == 0 then [] else (x % 10 + 48) ∷ rest

-- `while (i > 0) print(buffer[--i])`, in front of what is printed behind
pub print_back : List ℕ → List ℕ → List ℕ
print_back [] out = out
print_back (c ∷ cs) out = print_back cs (c ∷ out)

pub print_unsigned : ℕ → List ℕ
print_unsigned x = if x == 0 then 48 ∷ [] else print_back (decimal_digits x x) []

-- at an `intmax_t`: `none` is the overflow of `-x`
pub print_signed : ℤ → Option (List ℕ)
print_signed (pos x) = some (print_unsigned x)
print_signed (negsuc x) = if ltb (x + 1) (2 ^ 63) then some (45 ∷ print_unsigned (x + 1)) else none

-- a digit of "0123456789abcdef"
abbrev pub hex_digit : ℕ → ℕ
hex_digit d = if ltb d 10 then d + 48 else d + 87

pub hex_digits : ℕ → ℕ → List ℕ
hex_digits zero x = []
hex_digits (suc fuel) x =
    let rest = hex_digits fuel (x / 16) in if x == 0 then [] else hex_digit (x % 16) ∷ rest

pub print_hex : ℕ → List ℕ
print_hex x = if x == 0 then 48 ∷ 120 ∷ 48 ∷ [] else 48 ∷ 120 ∷ print_back (hex_digits x x) []

-- the loop of `atol`: `none` is the overflow of a `long`
pub atol_digits : ℕ → List ℕ → Option ℕ
atol_digits result [] = some result
atol_digits result (c ∷ s) =
    let longer = result * 10 + (c - 48) in
    let rest = atol_digits longer s in
    if leb 48 c && leb c 57 then (if ltb longer (2 ^ 63) then rest else none) else some result

abbrev pub negate : ℕ → ℤ
negate zero = pos 0
negate (suc n) = negsuc n

-- at the characters of a string, which its end follows
pub atol : List ℕ → Option ℤ
atol [] = some (pos 0)
atol (c ∷ s) =
    if c == 45 then Option.map negate (atol_digits 0 s) else Option.map pos (atol_digits 0 (c ∷ s))

-- ===== src/Utility/String.antt =====
-- src/libraries/libc/string.cpp. `memcpy` and `memset` write a memory, which is a function of the
-- address; the others read regions, which are lists of bytes, and a read behind the end of the region is
-- `none`.
pub mod Copy
pub mod Compare
use depos.Base.{
  ℕ, zero, suc, ◌+◌, ◌%◌, ◌==◌, if◌then◌else◌, ◌&&◌, not, Option, none, some, List, [], ◌∷◌, update,
  ◌>>=◌,
}
use depos.Utility.{ℤ, pos, byte_difference}

pub memcpy : ℕ → ℕ → ℕ → (ℕ → ℕ) → ℕ → ℕ
memcpy d s zero memory = memory
memcpy d s (suc n) memory = memcpy (d + 1) (s + 1) n (update memory d (memory s))

pub memset : ℕ → ℕ → ℕ → (ℕ → ℕ) → ℕ → ℕ
memset d c zero memory = memory
memset d c (suc n) memory = memset (d + 1) c n (update memory d (c % 256))

pub memcmp : List ℕ → List ℕ → ℕ → Option ℤ
memcmp xs ys zero = some (pos 0)
memcmp [] ys (suc n) = none
memcmp (x ∷ xs) [] (suc n) = none
memcmp (x ∷ xs) (y ∷ ys) (suc n) =
    let rest = memcmp xs ys n in if x == y then rest else some (byte_difference x y)

pub strlen : List ℕ → Option ℕ
strlen [] = none
strlen (c ∷ s) = let rest = strlen s in if c == 0 then some 0 else (rest >>= λ n. some (n + 1))

pub strcmp : List ℕ → List ℕ → Option ℤ
strcmp [] t = none
strcmp (a ∷ s) [] = none
strcmp (a ∷ s) (b ∷ t) =
    let rest = strcmp s t in if not (a == 0) && (a == b) then rest else some (byte_difference a b)

-- the index of the character
pub strchr : List ℕ → ℕ → Option (Option ℕ)
strchr [] ch = none
strchr (c ∷ s) ch =
    let rest = strchr s ch in
    if c == ch
    then some (some 0)
    else (if c == 0 then some none else (rest >>= λ found. some (found >>= λ i. some (i + 1))))

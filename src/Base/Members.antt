-- ===== src/Base/Members.antt =====
-- Lists of addresses as sets: membership, deletion and the last element.
use Prim.Native.Nat.{ℕ}
use mathlib.Core.Path.{◌≡◌, refl}
use mathlib.Core.Bool.{Bool, true, false, ◌||◌}
use mathlib.Core.List.{List, [], ◌∷◌, ◌++◌}
use native.Mathlib.Omega.{arith}
use depos.Base.Tests.{◌==◌, if◌then◌else◌}

abbrev pub has : ℕ → List ℕ → Bool
has a [] = false
has a (x ∷ xs) = (a == x) || has a xs

infix 40 ◌∈◌ ◌∉◌
abbrev pub ◌∈◌ : ℕ → List ℕ → Type 0
a ∈ xs = has a xs ≡ true

abbrev pub ◌∉◌ : ℕ → List ℕ → Type 0
a ∉ xs = has a xs ≡ false

-- drops the first occurrence
unfoldable pub erase : ℕ → List ℕ → List ℕ
erase a [] = []
erase a (x ∷ xs) = if x == a then xs else x ∷ erase a xs

-- the last element, or `d`
abbrev pub last_or : ℕ → List ℕ → ℕ
last_or d [] = d
last_or d (x ∷ xs) = last_or x xs

pub has-append : (a : ℕ) (xs ys : List ℕ) → has a (xs ++ ys) ≡ (has a xs || has a ys)
has-append a [] ys = refl
has-append a (x ∷ xs) ys = ground (arith, has-append a xs ys)

pub not_mem-erase : (a b : ℕ) (xs : List ℕ) → a ∉ xs → a ∉ erase b xs
unfolding erase
not_mem-erase a b [] h = refl
not_mem-erase a b (x ∷ xs) h = ground (arith, not_mem-erase a b xs)

pub last_or-append : (d y : ℕ) (xs : List ℕ) → last_or d (xs ++ (y ∷ [])) ≡ y
last_or-append d y [] = refl
last_or-append d y (x ∷ xs) = last_or-append x y xs

pub mem-last_or : (d : ℕ) (xs : List ℕ) → last_or d xs ∈ d ∷ xs
mem-last_or d [] = ground arith
mem-last_or d (x ∷ xs) = ground (arith, mem-last_or x xs)

pub erase-absent : (a : ℕ) (xs : List ℕ) → a ∉ xs → erase a xs ≡ xs
unfolding erase
erase-absent a [] h = refl
erase-absent a (x ∷ xs) h = ground (arith, erase-absent a xs)

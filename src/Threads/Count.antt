-- ===== src/Threads/Count.antt =====
-- How often a number occurs in a list.
use depos.Base.{ℕ, ◌+◌, ◌==◌, ◌≡◌, if◌then◌else◌, List, [], ◌∷◌, ◌++◌, arith}

abbrev pub occurrences : ℕ → List ℕ → ℕ
occurrences a [] = 0
occurrences a (x ∷ xs) = (if x == a then 1 else 0) + occurrences a xs

pub occurrences-append :
    (a x : ℕ) (xs : List ℕ)
    → occurrences a (xs ++ (x ∷ [])) ≡ occurrences a xs + (if x == a then 1 else 0)
occurrences-append a x [] = ground arith
occurrences-append a x (y ∷ xs) = ground (arith, occurrences-append a x xs)

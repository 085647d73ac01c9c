-- ===== src/Tests/Utility.antt =====
-- Strings, numbers and times.
use depos.Base.{
  ℕ, ◌+◌, ◌-◌, ◌≡◌, ◌↔◌, ◌&&◌, ltb, leb, List, [], ◌∷◌, ◌++◌, some, if◌then◌else◌, arith, refl, inl,
}
use depos.Utility.{pos, negsuc}
use depos.Utility.String.{memcpy, strcmp}
use depos.Utility.String.Copy.{memcpy-copies}
use depos.Utility.String.Compare.{strcmp_iff}
use depos.Utility.Decimal.{print_signed, atol}
use depos.Utility.Decimal.Print.{print_signed-atol}

memcpy-copies_example :
    memcpy 4 5 3 (λ a. a) 6 ≡ (if leb 4 6 && ltb 6 (4 + 3) then 5 + (6 - 4) else 6)
memcpy-copies_example = memcpy-copies 3 4 5 (λ a. a) (inl (omega arith)) 6

abbrev letter : List ℕ
letter = 97 ∷ []

strcmp_iff_example :
    (strcmp (letter ++ (0 ∷ 1 ∷ [])) (letter ++ (0 ∷ [])) ≡ some (pos 0)) ↔ (letter ≡ letter)
strcmp_iff_example = strcmp_iff letter letter (1 ∷ []) [] refl refl

print_signed-atol_example :
    (out : List ℕ) × (print_signed (negsuc 41) ≡ some out) × (atol out ≡ some (negsuc 41))
print_signed-atol_example = print_signed-atol (negsuc 41) (omega arith)

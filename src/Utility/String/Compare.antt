-- ===== src/Utility/String/Compare.antt =====
-- The routines on strings, at regions that hold a string and its end.
use depos.Base.{
  ℕ, zero, suc, ◌+◌, ◌≤◌, ◌≡◌, ◌↔◌, ◌≢◌, ◌==◌, ◌++◌, ◌∉◌, List, [], ◌∷◌, Option, none, some, length,
  arith, refl, ◌>>=◌, if◌then◌else◌, take,
}
use depos.Utility.{pos, byte_difference}
use depos.Utility.String.{memcmp, strlen, strcmp, strchr}

-- `strlen` counts the characters before the end of the string.
pub strlen-length : (s rest : List ℕ) → 0 ∉ s → strlen (s ++ (0 ∷ rest)) ≡ some (length s)
unfolding strlen
strlen-length [] rest h = refl
strlen-length (c ∷ s) rest h = ground (arith, strlen-length s rest)

-- `strcmp` is 0 at equal strings.
strcmp_self :
    (s rest rest' : List ℕ) → 0 ∉ s → strcmp (s ++ (0 ∷ rest)) (s ++ (0 ∷ rest')) ≡ some (pos 0)
unfolding strcmp
strcmp_self [] rest rest' h = refl
strcmp_self (c ∷ s) rest rest' h = ground (arith, strcmp_self s rest rest')

byte_difference-ne : (a b : ℕ) → byte_difference a b ≡ pos 0 → a ≡ b
byte_difference-ne a b h = ground arith

strcmp_zero :
    (s t rest rest' : List ℕ)
    → 0 ∉ s
    → 0 ∉ t
    → strcmp (s ++ (0 ∷ rest)) (t ++ (0 ∷ rest')) ≡ some (pos 0)
    → s ≡ t
unfolding strcmp
strcmp_zero [] [] rest rest' h k e = refl
strcmp_zero [] (b ∷ t) rest rest' h k e = absurd (ground arith)
strcmp_zero (a ∷ s) [] rest rest' h k e = absurd (ground arith)
strcmp_zero (a ∷ s) (b ∷ t) rest rest' h k e =
    ground (arith, strcmp_zero s t rest rest', byte_difference-ne a b)

-- `strcmp` is 0 exactly at equal strings, whatever stands behind their ends.
pub strcmp_iff :
    (s t rest rest' : List ℕ)
    → 0 ∉ s
    → 0 ∉ t
    → (strcmp (s ++ (0 ∷ rest)) (t ++ (0 ∷ rest')) ≡ some (pos 0)) ↔ (s ≡ t)
strcmp_iff s t rest rest' h k =
    (strcmp_zero s t rest rest' h k, λ e. rw e (strcmp_self t rest rest' k))

-- the index of the first occurrence
abbrev pub index_of : ℕ → List ℕ → Option ℕ
index_of c [] = none
index_of c (x ∷ xs) = if x == c then some 0 else (index_of c xs >>= λ i. some (i + 1))

-- `strchr` finds the first occurrence of a character in a string.
pub strchr-index_of :
    (s rest : List ℕ) (c : ℕ) → 0 ∉ s → c ≢ 0 → strchr (s ++ (0 ∷ rest)) c ≡ some (index_of c s)
unfolding strchr
strchr-index_of [] rest c h ne = ground arith
strchr-index_of (x ∷ s) rest c h ne = ground (arith, strchr-index_of s rest c)

memcmp_step :
    (x y : ℕ) (xs ys : List ℕ) (n : ℕ)
    → memcmp (x ∷ xs) (y ∷ ys) (suc n)
      ≡ (if x == y then memcmp xs ys n else some (byte_difference x y))
unfolding memcmp
memcmp_step x y xs ys n = refl

-- `memcmp` of regions of `n` bytes or more is 0 exactly where their first `n` bytes are equal.
pub memcmp_iff :
    (n : ℕ) (xs ys : List ℕ)
    → n ≤ length xs
    → n ≤ length ys
    → (memcmp xs ys n ≡ some (pos 0)) ↔ (take n xs ≡ take n ys)
unfolding memcmp
memcmp_iff zero xs ys h k = (λ e. refl, λ e. refl)
memcmp_iff (suc n) [] ys h k = absurd (omega arith)
memcmp_iff (suc n) (x ∷ xs) [] h k = absurd (omega arith)
memcmp_iff (suc n) (x ∷ xs) (y ∷ ys) h k =
    ground (arith, memcmp_iff n xs ys, byte_difference-ne x y)

-- ===== src/Network/Checksum/Verify.antt =====
-- A checksum that is stored where it was computed over zero makes the checksum of the whole 0.
use depos.Base.{ℕ, ◌+◌, ◌-◌, ◌*◌, ◌/◌, ◌%◌, ◌<◌, ◌≡◌, List, [], ◌∷◌, ◌++◌, arith, refl, ap, ◌∙◌}
use depos.Network.Checksum.{sum_words, fold, checksum}

-- The loop ends below 2 ^ 16 with the same remainder by 65535, and not at 0 unless it starts there.
pub fold-mod :
    (s : ℕ)
    → s < 4294967296
    → (fold 3 s < 65536) × (fold 3 s % 65535 ≡ s % 65535) × (0 < s → 0 < fold 3 s)
unfolding fold
fold-mod s h = ground arith

-- words as pairs of bytes
abbrev pub bytes_of : List (ℕ × ℕ) → List ℕ
bytes_of [] = []
bytes_of ((a, b) ∷ ws) = a ∷ b ∷ bytes_of ws

abbrev pub total : List (ℕ × ℕ) → ℕ
total [] = 0
total ((a, b) ∷ ws) = a + 256 * b + total ws

sum_words-total : (ws : List (ℕ × ℕ)) → total ws < 4294967296 → sum_words (bytes_of ws) ≡ total ws
unfolding sum_words
sum_words-total [] h = refl
sum_words-total ((a, b) ∷ ws) h = ground (arith, sum_words-total ws)

total-append : (xs ys : List (ℕ × ℕ)) → total (xs ++ ys) ≡ total xs + total ys
total-append [] ys = omega arith
total-append ((a, b) ∷ xs) ys = omega (arith, total-append xs ys)

-- The checksum is the complement of the sum of the words with its carries added at the end, which is the number from 1 to 65535
-- with the same remainder by 65535.
checksum-total :
    (ws : List (ℕ × ℕ))
    → 0 < total ws
    → total ws < 4294967296
    → checksum (bytes_of ws) ≡ 65534 - (total ws - 1) % 65535
unfolding checksum
checksum-total ws p h =
    let f = fold-mod (total ws) h in
    let low : 65535 - fold 3 (total ws) % 65536 ≡ 65534 - (total ws - 1) % 65535 =
      omega (arith, f.0, f.1, f.2 p) in
    ap (λ k. 65535 - fold 3 k % 65536) (sum_words-total ws h) ∙ low

-- Where the words are not all 0 and their sum does not overflow, the checksum over a zero in its place is the complement of
-- the number from 1 to 65535 that has the same remainder by 65535 as the sum of the words, and a receiver that sums the
-- words with the checksum in its place gets the checksum 0.
pub checksum-verifies :
    (xs ys : List (ℕ × ℕ))
    → 0 < total xs + total ys
    → total xs + total ys < 4294901760
    → let c = checksum (bytes_of (xs ++ ((0, 0) ∷ ys))) in
      (c ≡ 65534 - (total xs + total ys - 1) % 65535)
      × (checksum (bytes_of (xs ++ ((c % 256, c / 256) ∷ ys))) ≡ 0)
checksum-verifies xs ys p h =
    let c = checksum (bytes_of (xs ++ ((0, 0) ∷ ys))) in
    let before : total (xs ++ ((0, 0) ∷ ys)) ≡ total xs + total ys =
      omega (arith, total-append xs ((0, 0) ∷ ys)) in
    let after : total (xs ++ ((c % 256, c / 256) ∷ ys)) ≡ total xs + total ys + c =
      omega (arith, total-append xs ((c % 256, c / 256) ∷ ys)) in
    let first : c ≡ 65534 - (total xs + total ys - 1) % 65535 =
      checksum-total (xs ++ ((0, 0) ∷ ys)) (omega (arith, before)) (omega (arith, before))
      ∙ ap (λ k. 65534 - (k - 1) % 65535) before in
    (
      first,
      checksum-total (xs ++ ((c % 256, c / 256) ∷ ys)) (omega (arith, after))
            (omega (arith, after, first))
          ∙ (ap (λ k. 65534 - (k - 1) % 65535) after ∙ omega (arith, first)),
    )

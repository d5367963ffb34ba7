-- ===== src/Fat32/Reader/Distinct.antt =====
-- Counting: distinct numbers below a bound are at most that many.
use forensis.Prelude.{
  All, List, [], arith, false, if◌then◌else◌, length, refl, suc, zero, ℕ, ◌+◌, ◌<◌, ◌==◌, ◌∷◌, ◌≡◌,
  ◌≤◌,
}
use forensis.Fat32.Reader.{contains}

-- No number of the list occurs again behind it.
abbrev pub IsDistinct : List ℕ → Type 0
IsDistinct [] = Unit
IsDistinct (x ∷ xs) = (contains xs x ≡ false) × IsDistinct xs

-- All occurrences of a number taken out.
without : ℕ → List ℕ → List ℕ
without a [] = []
without a (x ∷ xs) = let rest = without a xs in if x == a then rest else x ∷ rest

contains-without :
    (a b : ℕ) (xs : List ℕ) → contains xs b ≡ false → contains (without a xs) b ≡ false
unfolding contains without
contains-without a b [] h = refl
contains-without a b (x ∷ xs) h = ground (arith, contains-without a b xs)

without-absent : (a : ℕ) (xs : List ℕ) → contains xs a ≡ false → without a xs ≡ xs
unfolding contains without
without-absent a [] h = refl
without-absent a (x ∷ xs) h = ground (arith, without-absent a xs)

length-without : (a : ℕ) (xs : List ℕ) → IsDistinct xs → length xs ≤ length (without a xs) + 1
unfolding without
length-without a [] d = omega arith
length-without a (x ∷ xs) d = ground (arith, length-without a xs d.1, without-absent x xs d.0)

without-IsDistinct : (a : ℕ) (xs : List ℕ) → IsDistinct xs → IsDistinct (without a xs)
unfolding without
without-IsDistinct a [] d = tt
without-IsDistinct a (x ∷ xs) d =
    ground (arith, without-IsDistinct a xs d.1, contains-without a x xs d.0)

without-below : (n : ℕ) (xs : List ℕ) → All (λ x. x < suc n) xs → All (λ x. x < n) (without n xs)
unfolding without
without-below n [] h = tt
without-below n (x ∷ xs) h = ground (arith, without-below n xs h.1)

pub length-le_of_distinct :
    (n : ℕ) (xs : List ℕ) → IsDistinct xs → All (λ x. x < n) xs → length xs ≤ n
length-le_of_distinct zero [] d h = omega arith
length-le_of_distinct zero (x ∷ xs) d h = absurd (omega arith)
length-le_of_distinct (suc n) xs d h = omega (
  arith,
  length-without n xs d,
  length-le_of_distinct n (without n xs) (without-IsDistinct n xs d) (without-below n xs h),
)

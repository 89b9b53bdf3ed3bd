-- ===== src/Memory/Count.antt =====
-- How often an index stands in a queue, and one occurrence taken out.
use dshuffle.Prelude.{
  ℕ, ◌+◌, ◌<◌, ◌≡◌, ◌==◌, if◌then◌else◌, List, [], ◌∷◌, ◌++◌, arith, length, All,
}

abbrev pub count : ℕ → List ℕ → ℕ
count i [] = 0
count i (x ∷ xs) = (if x == i then 1 else 0) + count i xs

-- The first occurrence is taken out.
abbrev pub remove : ℕ → List ℕ → List ℕ
remove i [] = []
remove i (x ∷ xs) = if x == i then xs else x ∷ remove i xs

pub count-append : (i : ℕ) (xs ys : List ℕ) → count i (xs ++ ys) ≡ count i xs + count i ys
count-append i [] ys = omega arith
count-append i (x ∷ xs) ys = omega (arith, count-append i xs ys)

pub count-remove :
    (i j : ℕ) (xs : List ℕ)
    → 0 < count i xs
    → count j (remove i xs) + (if i == j then 1 else 0) ≡ count j xs
count-remove i j [] h = absurd (omega arith)
count-remove i j (x ∷ xs) h = ground (arith, count-remove i j xs)

pub length-remove : (i : ℕ) (xs : List ℕ) → 0 < count i xs → length (remove i xs) + 1 ≡ length xs
length-remove i [] h = absurd (omega arith)
length-remove i (x ∷ xs) h = ground (arith, length-remove i xs)

-- A property of all that occurs holds of every element.
pub All-count : (P : ℕ → Type 0) (xs : List ℕ) → ((i : ℕ) → 0 < count i xs → P i) → All P xs
All-count P [] h = tt
All-count P (x ∷ xs) h = (h x (ground arith), All-count P xs (λ i occurs. h i (ground arith)))

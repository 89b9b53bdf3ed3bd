-- ===== src/Prelude/Bytes.antt =====
-- Memory as a function from offsets to bytes: `memcpy` into it, and what is read back.
use Prim.Native.Nat.{ℕ, zero, suc, ◌+◌, ◌-◌, ◌≤◌, ◌<◌}
use mathlib.Core.Path.{◌≡◌, refl, ap, ap₂, ◌∙◌}
use mathlib.Core.Bool.{◌&&◌}
use mathlib.Core.List.{List, [], ◌∷◌, ◌++◌}
use native.Mathlib.Omega.{arith}
use dshuffle.Prelude.Tests.{ltb, leb, if◌then◌else◌}
use dshuffle.Prelude.Lists.{length, get_or}

abbrev pub write_at : (ℕ → ℕ) → ℕ → List ℕ → ℕ → ℕ
write_at bytes at src a =
    if leb at a && ltb a (at + length src) then get_or src (a - at) 0 else bytes a

abbrev pub read_at : (ℕ → ℕ) → ℕ → ℕ → List ℕ
read_at bytes at zero = []
read_at bytes at (suc n) = bytes at ∷ read_at bytes (suc at) n

pub length-read_at : (bytes : ℕ → ℕ) (at n : ℕ) → length (read_at bytes at n) ≡ n
length-read_at bytes at zero = refl
length-read_at bytes at (suc n) = ap suc (length-read_at bytes (suc at) n)

pub read_at-append :
    (bytes : ℕ → ℕ) (at n m : ℕ)
    → read_at bytes at (n + m) ≡ read_at bytes at n ++ read_at bytes (at + n) m
read_at-append bytes at zero m =
    let here : at ≡ at + 0 = omega arith in
    let all : 0 + m ≡ m = omega arith in
    ap (read_at bytes at) all ∙ ap (λ k. read_at bytes k m) here
read_at-append bytes at (suc n) m =
    let shift : suc at + n ≡ at + suc n = omega arith in
    let one_more : suc n + m ≡ suc (n + m) = omega arith in
    ap (read_at bytes at) one_more
    ∙ ap (λ xs. bytes at ∷ xs)
        (read_at-append bytes (suc at) n m
          ∙ ap (λ k. read_at bytes (suc at) n ++ read_at bytes k m) shift)

pub read_at-ext :
    (b c : ℕ → ℕ) (at n : ℕ)
    → ((a : ℕ) → at ≤ a → a < at + n → b a ≡ c a)
    → read_at b at n ≡ read_at c at n
read_at-ext b c at zero same = refl
read_at-ext b c at (suc n) same =
    ap₂ (λ x xs. x ∷ xs) (same at (omega arith) (omega arith))
      (read_at-ext b c (suc at) n (λ a lo hi. same a (omega arith) (omega arith)))

pub read_at-write_at_before :
    (b : ℕ → ℕ) (at n to : ℕ) (src : List ℕ)
    → at + n ≤ to
    → read_at (write_at b to src) at n ≡ read_at b at n
read_at-write_at_before b at n to src before =
    read_at-ext (write_at b to src) b at n (λ a lo hi. ground arith)

-- Reading `data` off the bytes that a function gives for it.
read_at-get_or :
    (b : ℕ → ℕ) (at : ℕ) (src : List ℕ)
    → ((i : ℕ) → i < length src → b (at + i) ≡ get_or src i 0)
    → read_at b at (length src) ≡ src
read_at-get_or b at [] same = refl
read_at-get_or b at (x ∷ xs) same =
    ap₂ (λ y ys. y ∷ ys)
      (let zero_at : at ≡ at + 0 = omega arith in ap b zero_at ∙ same 0 (omega arith))
      (read_at-get_or b (suc at) xs (λ i h.
        let shift : suc at + i ≡ at + suc i = omega arith in
        ap b shift ∙ same (suc i) (omega arith)))

pub read_at-write_at_self :
    (b : ℕ → ℕ) (at : ℕ) (src : List ℕ) → read_at (write_at b at src) at (length src) ≡ src
read_at-write_at_self b at src = read_at-get_or (write_at b at src) at src (λ i h.
    let back : at + i - at ≡ i = omega arith in ground (arith, ap (λ k. get_or src k 0) back))

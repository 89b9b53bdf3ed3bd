-- ===== src/Prelude/Words.antt =====
-- Words in memory, little endian: their bytes, and the value that bytes stand for.
use Prim.Native.Nat.{ℕ, zero, suc, ◌+◌, ◌*◌, ◌/◌, ◌%◌, ◌^◌, ◌≤◌, ◌<◌}
use mathlib.Core.Path.{◌≡◌, refl, ap, subst, ◌∙◌}
use mathlib.Core.List.{List, [], ◌∷◌}
use native.Mathlib.Omega.{arith}
use dshuffle.Prelude.Lists.{length}
use dshuffle.Prelude.Bytes.{write_at, read_at, read_at-ext, read_at-write_at_self}

-- the `w` bytes of an unsigned integer
abbrev pub bytes_of : ℕ → ℕ → List ℕ
bytes_of zero v = []
bytes_of (suc w) v = (v % 256) ∷ bytes_of w (v / 256)

abbrev pub word_of : List ℕ → ℕ
word_of [] = 0
word_of (x ∷ xs) = x + 256 * word_of xs

-- `*(T *)(bytes + at)` for a type of `w` bytes
unfoldable pub word : (ℕ → ℕ) → ℕ → ℕ → ℕ
word b w at = word_of (read_at b at w)

pub length-bytes_of : (w v : ℕ) → length (bytes_of w v) ≡ w
length-bytes_of zero v = refl
length-bytes_of (suc w) v = ap suc (length-bytes_of w (v / 256))

pub word-ext :
    (b c : ℕ → ℕ) (w at : ℕ)
    → ((a : ℕ) → at ≤ a → a < at + w → b a ≡ c a)
    → word b w at ≡ word c w at
unfolding word
word-ext b c w at same = ap word_of (read_at-ext b c at w same)

-- Two memories that agree at a shift hold the same words.
pub read_at-shift :
    (b c : ℕ → ℕ) (at to n : ℕ)
    → ((i : ℕ) → i < n → b (at + i) ≡ c (to + i))
    → read_at b at n ≡ read_at c to n
read_at-shift b c at to zero same = refl
read_at-shift b c at to (suc n) same =
    let head : b at ≡ c to =
      let l : at ≡ at + 0 = omega arith in
      let r : to + 0 ≡ to = omega arith in ap b l ∙ same 0 (omega arith) ∙ ap c r in
    let tail = read_at-shift b c (suc at) (suc to) n (λ i h.
      let l : suc at + i ≡ at + suc i = omega arith in
      let r : to + suc i ≡ suc to + i = omega arith in
      ap b l ∙ same (suc i) (omega arith) ∙ ap c r) in
    rw (head, tail)

pub word-shift :
    (b c : ℕ → ℕ) (w at to : ℕ)
    → ((i : ℕ) → i < w → b (at + i) ≡ c (to + i))
    → word b w at ≡ word c w to
unfolding word
word-shift b c w at to same = ap word_of (read_at-shift b c at to w same)

word-write_at :
    (b : ℕ → ℕ) (w at v : ℕ) → word (write_at b at (bytes_of w v)) w at ≡ word_of (bytes_of w v)
unfolding word
word-write_at b w at v =
    let after = write_at b at (bytes_of w v) in
    ap word_of (
      subst (λ k. read_at after at k ≡ bytes_of w v) (length-bytes_of w v)
        (read_at-write_at_self b at (bytes_of w v)))

pub word-write_at16 :
    (b : ℕ → ℕ) (at v : ℕ) → v < 2 ^ 16 → word (write_at b at (bytes_of 2 v)) 2 at ≡ v
word-write_at16 b at v h = word-write_at b 2 at v ∙ omega arith

pub word-write_at64 :
    (b : ℕ → ℕ) (at v : ℕ) → v < 2 ^ 64 → word (write_at b at (bytes_of 8 v)) 8 at ≡ v
word-write_at64 b at v h = word-write_at b 8 at v ∙ omega arith

pub word-write_at32 :
    (b : ℕ → ℕ) (at v : ℕ) → v < 2 ^ 32 → word (write_at b at (bytes_of 4 v)) 4 at ≡ v
word-write_at32 b at v h = word-write_at b 4 at v ∙ omega arith

pub read_at-pointwise :
    (b c : ℕ → ℕ) (at to n i : ℕ)
    → read_at b at n ≡ read_at c to n
    → i < n
    → b (at + i) ≡ c (to + i)
read_at-pointwise b c at to zero i same h = elim h [ ]
read_at-pointwise b c at to (suc n) zero same h =
    let l : at + 0 ≡ at = omega arith in
    let r : to ≡ to + 0 = omega arith in
    ap b l ∙ head (b at) (c to) (read_at b (suc at) n) (read_at c (suc to) n) same ∙ ap c r
  where
    head : (x y : ℕ) (xs ys : List ℕ) → x ∷ xs ≡ y ∷ ys → x ≡ y
    head x y xs ys e = cc
read_at-pointwise b c at to (suc n) (suc i) same h =
    let l : at + suc i ≡ suc at + i = omega arith in
    let r : suc to + i ≡ to + suc i = omega arith in
    ap b l
    ∙ read_at-pointwise b c (suc at) (suc to) n i
        (tail (b at) (c to) (read_at b (suc at) n) (read_at c (suc to) n) same) (omega arith)
    ∙ ap c r
  where
    tail : (x y : ℕ) (xs ys : List ℕ) → x ∷ xs ≡ y ∷ ys → xs ≡ ys
    tail x y xs ys e = cc

-- ===== src/Serde/RwBufferLaws.antt =====
-- What the copies into a buffer leave behind them.
use dshuffle.Prelude.{
  ℕ, ◌+◌, ◌-◌, ◌^◌, ◌≤◌, ◌<◌, ◌≡◌, refl, sym, ap, ◌∙◌, subst, true, false, inl, inr, Bool-cases,
  leb, ◌==◌, List, length, length-replicate, replicate, arith,
}
use dshuffle.Prelude.Outcome.{ok}
use dshuffle.Prelude.Bytes.{write_at, read_at, read_at-write_at_self}
use dshuffle.Prelude.Words.{
  bytes_of, word, word-ext, length-bytes_of, word-write_at16, word-write_at32,
}
use dshuffle.Memory.Align.{upper_align}
use dshuffle.Serde.RwBuffer.{RwBuffer, put, put_value, fill_next_align_8}
use dshuffle.Serde.Value.{align}

-- The buffer is written up to `end`, and no byte below its old offset is touched.
pub record Extends (b : RwBuffer) (end : ℕ) (b' : RwBuffer) : Type 0 where
  pub off : b'.off ≡ end
  pub size : b'.size ≡ b.size
  pub below : (a : ℕ) → a < b.off → b'.bytes a ≡ b.bytes a

pub Extends-trans :
    {a b c : RwBuffer} {m n : ℕ} → Extends a m b → Extends b n c → a.off ≤ b.off → Extends a n c
Extends-trans x y grow = record {
  off = y.off;
  size = y.size ∙ x.size;
  below = λ i h. y.below i (omega arith) ∙ x.below i h;
}

-- A word below the old offset is kept.
pub Extends-word :
    {b b' : RwBuffer} {n : ℕ} (w at : ℕ)
    → Extends b n b'
    → at + w ≤ b.off
    → word b'.bytes w at ≡ word b.bytes w at
Extends-word {b} {b'} w at x fits =
    word-ext b'.bytes b.bytes w at (λ a lo hi. x.below a (omega arith))

pub write_at-other :
    (b : ℕ → ℕ) (at : ℕ) (src : List ℕ) (a : ℕ) → a < at → write_at b at src a ≡ b a
write_at-other b at src a h = ground arith

pub write_at-after :
    (b : ℕ → ℕ) (at : ℕ) (src : List ℕ) (a : ℕ) → at + length src ≤ a → write_at b at src a ≡ b a
write_at-after b at src a h = ground arith

pub put_lem :
    (b : RwBuffer) (src : List ℕ)
    → b.off + length src ≤ b.size
    → (b' : RwBuffer) × (put b src ≡ ok b')
      × Extends b (b.off + length src) b'
      × (read_at b'.bytes b.off (length src) ≡ src)
unfolding put
put_lem b src fits =
    let test : leb (b.off + length src) b.size ≡ true = ground arith in
    (
      record { bytes = write_at b.bytes b.off src; size = b.size; off = b.off + length src },
      rw test,
      record { off = refl; size = refl; below = λ a h. write_at-other b.bytes b.off src a h },
      read_at-write_at_self b.bytes b.off src,
    )

put_value-bytes :
    (b : RwBuffer) (w v : ℕ)
    → b.off + w ≤ b.size
    → (b' : RwBuffer) × (put_value w b v ≡ ok b')
      × Extends b (b.off + w) b'
      × ((a : ℕ) → b'.bytes a ≡ write_at b.bytes b.off (bytes_of w v) a)
unfolding put_value put
put_value-bytes b w v fits =
    let size = length-bytes_of w v in
    let test : leb (b.off + length (bytes_of w v)) b.size ≡ true = ground (arith, size) in
    (
      record {
        bytes = write_at b.bytes b.off (bytes_of w v);
        size = b.size;
        off = b.off + length (bytes_of w v);
      },
      rw test,
      record {
        off = omega (arith, size);
        size = refl;
        below = λ a h. write_at-other b.bytes b.off (bytes_of w v) a h;
      },
      λ a. refl,
    )

pub put_value16 :
    (b : RwBuffer) (v : ℕ)
    → b.off + 2 ≤ b.size
    → v < 2 ^ 16
    → (b' : RwBuffer) × (put_value 2 b v ≡ ok b')
      × Extends b (b.off + 2) b'
      × (word b'.bytes 2 b.off ≡ v)
put_value16 b v fits small =
    let (b', run, x, same) = put_value-bytes b 2 v fits in
    let after = write_at b.bytes b.off (bytes_of 2 v) in
    (
      b',
      run,
      x,
      word-ext b'.bytes after 2 b.off (λ a lo hi. same a) ∙ word-write_at16 b.bytes b.off v small,
    )

pub put_value32 :
    (b : RwBuffer) (v : ℕ)
    → b.off + 4 ≤ b.size
    → v < 2 ^ 32
    → (b' : RwBuffer) × (put_value 4 b v ≡ ok b')
      × Extends b (b.off + 4) b'
      × (word b'.bytes 4 b.off ≡ v)
put_value32 b v fits small =
    let (b', run, x, same) = put_value-bytes b 4 v fits in
    let after = write_at b.bytes b.off (bytes_of 4 v) in
    (
      b',
      run,
      x,
      word-ext b'.bytes after 4 b.off (λ a lo hi. same a) ∙ word-write_at32 b.bytes b.off v small,
    )

-- The bytes behind the word are kept.
pub put_value32_above :
    (b b' : RwBuffer) (v a : ℕ)
    → put_value 4 b v ≡ ok b'
    → b.off + 4 ≤ b.size
    → b.off + 4 ≤ a
    → b'.bytes a ≡ b.bytes a
put_value32_above b b' v a run fits behind =
    let (b'', run', x, same) = put_value-bytes b 4 v fits in
    let one : b'' ≡ b' = cc in
    subst (λ (z : RwBuffer). z.bytes a ≡ b.bytes a) one
      (same a ∙ write_at-after b.bytes b.off (bytes_of 4 v) a (omega (arith, length-bytes_of 4 v)))

-- The id and the flag.
pub put_header :
    (b : RwBuffer) (id flag : ℕ)
    → b.off + 4 ≤ b.size
    → id < 2 ^ 16
    → flag < 2 ^ 16
    → (b₁ : RwBuffer) × (b₂ : RwBuffer) × (put_value 2 b id ≡ ok b₁)
      × (put_value 2 b₁ flag ≡ ok b₂)
      × Extends b (b.off + 4) b₂
      × (word b₂.bytes 2 b.off ≡ id)
      × (word b₂.bytes 2 (b.off + 2) ≡ flag)
put_header b id flag fits small small' =
    let (b₁, run₁, x₁, w₁) = put_value16 b id (omega arith) small in
    let (b₂, run₂, x₂, w₂) = put_value16 b₁ flag (omega (arith, x₁.off, x₁.size)) small' in
    let x = Extends-trans x₁ x₂ (omega (arith, x₁.off)) in
    (
      b₁,
      b₂,
      run₁,
      run₂,
      record { off = omega (arith, x.off, x₁.off); size = x.size; below = x.below },
      Extends-word 2 b.off x₂ (omega (arith, x₁.off)) ∙ w₁,
      ap (word b₂.bytes 2) (sym (x₁.off)) ∙ w₂,
    )

pub upper_align-align : (x : ℕ) → x + 8 < 2 ^ 64 → upper_align x 8 ≡ align x
unfolding upper_align
upper_align-align x h = omega arith

fill-put :
    (b b' : RwBuffer)
    → b.off + 8 < 2 ^ 64
    → ((align b.off - b.off == 0) ≡ false)
    → put b (replicate (align b.off - b.off) 0) ≡ ok b'
    → fill_next_align_8 b ≡ ok b'
unfolding fill_next_align_8
fill-put b b' small some_left run = rw (upper_align-align b.off small, some_left) run

pub fill_next_align_8_lem :
    (b : RwBuffer)
    → align b.off ≤ b.size
    → b.size < 2 ^ 32
    → (b' : RwBuffer) × (fill_next_align_8 b ≡ ok b') × Extends b (align b.off) b'
unfolding fill_next_align_8
fill_next_align_8_lem b fits small =
    let up = upper_align-align b.off (omega arith) in
    let len = align b.off - b.off in
    elim (Bool-cases (len == 0)) [
      | inl none_left ↦
          (b, rw (up, none_left), record { off = ground arith; size = refl; below = λ a h. refl })
      | inr some_left ↦
          let zeros = length-replicate {A = ℕ} len 0 in
          let (b', run, x, same) = put_lem b (replicate len 0) (omega (arith, zeros)) in
          (
            b',
            fill-put b b' (omega arith) some_left run,
            record { off = omega (arith, x.off, zeros); size = x.size; below = x.below },
          )
    ]

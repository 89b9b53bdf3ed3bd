-- ===== src/Kernel/CopyLaws.antt =====
-- The copy loops against a byte-wise copy.
use dshuffle.Prelude.{
  ℕ, zero, suc, ◌+◌, ◌-◌, ◌*◌, ◌/◌, ◌%◌, ◌≤◌, ◌<◌, ◌≡◌, refl, ap, ◌∙◌, ◌⊎◌, inl, inr, bit_or, ◌==◌,
  ltb, leb, ◌&&◌, if◌then◌else◌, arith, Bool-cases, true, false, sym, Bool, not, ◌||◌,
}
use dshuffle.Prelude.Outcome.{Outcome, ok, undefined}
use dshuffle.Prelude.Tables.{all_below, all_below-lt}
use dshuffle.Kernel.Copy.{Cursor, word, fall_through, rounds, d_memcpy_u64, d_memcpy_u32, d_memcpy}

-- The regions do not overlap, as the comment of `d_memcpy` asks.
abbrev pub Disjoint : ℕ → ℕ → ℕ → Type 0
Disjoint d s len = (d + len ≤ s) ⊎ (s + len ≤ d)

-- The specification: `len` bytes from `s` on stand at `d`, and every other byte is as it was.
abbrev pub copied : (ℕ → ℕ) → ℕ → ℕ → ℕ → ℕ → ℕ
copied mem d s len a = if leb d a && ltb a (d + len) then mem (s + (a - d)) else mem a

-- `n` bytes have been copied from the cursor `c₀`.
pub record Copied (c₀ : Cursor) (n : ℕ) (c : Cursor) : Type 0 where
  pub d_at : c.d ≡ c₀.d + n
  pub s_at : c.s ≡ c₀.s + n
  pub bytes : (a : ℕ) → c.mem a ≡ copied c₀.mem c₀.d c₀.s n a

-- One round is eight words.
rounds-fall_through : (w n : ℕ) (c : Cursor) → rounds w (suc n) c ≡ rounds w n (fall_through w 8 c)
unfolding rounds fall_through
rounds-fall_through w n c = refl

module _ {c₀ : Cursor} (len : ℕ) (apart : Disjoint c₀.d c₀.s len) where
  word-bytes :
      (n w : ℕ) (c : Cursor)
      → n + w ≤ len
      → Copied c₀ n c
      → (a : ℕ) → (word w c).mem a ≡ copied c₀.mem c₀.d c₀.s (n + w) a
  unfolding word
  word-bytes n w c fits done a = elim (Bool-cases (leb c.d a && ltb a (c.d + w))) [
    | inl inside ↦
        let target : c.d ≤ a = ground arith in
        let same : c.s + (a - c.d) ≡ c₀.s + (a - c₀.d) = omega (arith, done.d_at, done.s_at) in
        let untouched : copied c₀.mem c₀.d c₀.s n (c.s + (a - c.d)) ≡ c₀.mem (c.s + (a - c.d)) =
          ground (arith, done.d_at, done.s_at) in
        let due : copied c₀.mem c₀.d c₀.s (n + w) a ≡ c₀.mem (c₀.s + (a - c₀.d)) =
          ground (arith, done.d_at) in
        rw inside (done.bytes (c.s + (a - c.d)) ∙ untouched ∙ ap c₀.mem same ∙ sym due)
    | inr outside ↦ rw outside (ground (arith, done.bytes a, done.d_at))
  ]

  word-Copied : (n w : ℕ) (c : Cursor) → n + w ≤ len → Copied c₀ n c → Copied c₀ (n + w) (word w c)
  unfolding word
  word-Copied n w c fits done = record {
    d_at = omega (arith, done.d_at);
    s_at = omega (arith, done.s_at);
    bytes = word-bytes n w c fits done;
  }

  fall_through-Copied :
      (w k n m : ℕ) (c : Cursor)
      → m ≡ n + w * k
      → m ≤ len
      → Copied c₀ n c
      → Copied c₀ m (fall_through w k c)
  unfolding fall_through
  fall_through-Copied w zero n m c e fits done = let e' : n ≡ m = omega arith in rw (← e') done
  fall_through-Copied w (suc k) n m c e fits done =
      fall_through-Copied w k (n + w) m (word w c) (omega arith) fits
        (word-Copied n w c (omega arith) done)

  rounds-Copied :
      (w k n m : ℕ) (c : Cursor)
      → m ≡ n + w * 8 * k
      → m ≤ len
      → Copied c₀ n c
      → Copied c₀ m (rounds w k c)
  rounds-Copied w zero n m c e fits done =
      let e' : n ≡ m = omega arith in unfold rounds in rw (← e') done
  rounds-Copied w (suc k) n m c e fits done = rw (rounds-fall_through w k c) (
      rounds-Copied w k (n + w * 8) m (fall_through w 8 c) (omega arith) fits
        (fall_through-Copied w 8 n (n + w * 8) c refl (omega arith) done))

start-Copied :
    (mem : ℕ → ℕ) (d s : ℕ)
    → Copied (record { mem = mem; d = d; s = s }) 0 (record { mem = mem; d = d; s = s })
start-Copied mem d s = record { d_at = omega arith; s_at = omega arith; bytes = λ a. ground arith }

module _ (mem : ℕ → ℕ) (d s bytes : ℕ) (apart : Disjoint d s bytes) where
  from : Cursor
  from = record { mem = mem; d = d; s = s }

  d_memcpy_u64-Copied : Copied from bytes (d_memcpy_u64 mem d s bytes)
  unfolding d_memcpy_u64 from
  d_memcpy_u64-Copied =
      let head = 8 * (bytes / 8 % 8) in
      let body = head + 64 * (bytes / 8 / 8) in
      fall_through-Copied bytes apart 1 (bytes % 8) body bytes _ (omega arith) (omega arith) (
        rounds-Copied bytes apart 8 (bytes / 8 / 8) head body _ (omega arith) (omega arith) (
          fall_through-Copied bytes apart 8 (bytes / 8 % 8) 0 head _ (omega arith) (omega arith)
            (start-Copied mem d s)))

  d_memcpy_u32-Copied : Copied from bytes (d_memcpy_u32 mem d s bytes)
  unfolding d_memcpy_u32 from
  d_memcpy_u32-Copied =
      let head = 4 * (bytes / 4 % 8) in
      let body = head + 32 * (bytes / 4 / 8) in
      fall_through-Copied bytes apart 1 (bytes % 4) body bytes _ (omega arith) (omega arith) (
        rounds-Copied bytes apart 4 (bytes / 4 / 8) head body _ (omega arith) (omega arith) (
          fall_through-Copied bytes apart 4 (bytes / 4 % 8) 0 head _ (omega arith) (omega arith)
            (start-Copied mem d s)))

-- Both pointers are on a word of 4 or 8 bytes.
abbrev pub IsWordAligned : ℕ → Type 0
IsWordAligned p = (p % 8 ≡ 0) ⊎ (p % 8 ≡ 4)

-- What a copy has to give: the bytes of the region, and the end of the source.
abbrev pub Copies : (ℕ → ℕ) → ℕ → ℕ → ℕ → Outcome ((ℕ → ℕ) × ℕ) → Type 0
Copies mem d s len r =
    (mem' : ℕ → ℕ) × (r ≡ ok (mem', s + len)) × ((a : ℕ) → mem' a ≡ copied mem d s len a)

module _ (mem : ℕ → ℕ) (d s len : ℕ) (apart : Disjoint d s len) where
  wide-Copies : let c = d_memcpy_u64 mem d s len in Copies mem d s len (ok (c.mem, c.s))
  unfolding from
  wide-Copies =
      let done = d_memcpy_u64-Copied mem d s len apart in
      ((d_memcpy_u64 mem d s len).mem, rw done.s_at, done.bytes)

  narrow-Copies : let c = d_memcpy_u32 mem d s len in Copies mem d s len (ok (c.mem, c.s))
  unfolding from
  narrow-Copies =
      let done = d_memcpy_u32-Copied mem d s len apart in
      ((d_memcpy_u32 mem d s len).mem, rw done.s_at, done.bytes)

  -- For two ranges of len bytes that share no byte, and pointers that each stand on a multiple of 8
  -- or four past one, d_memcpy returns the end of the source, and memory afterwards is the bytewise
  -- copy: the target range holds the source bytes and every other byte is as it was.
  pub d_memcpy-Copies :
      IsWordAligned d → IsWordAligned s → Copies mem d s len (d_memcpy mem d s len)
  unfolding d_memcpy
  d_memcpy-Copies align_d align_s = elim (Bool-cases (len == 0)) [
    | inl none_asked ↦ rw none_asked (mem, ground arith, λ a. ground arith)
    | inr some_asked ↦ rw some_asked (by_alignment align_d align_s)
  ]
    where
      by_alignment :
          IsWordAligned d
          → IsWordAligned s
          → Copies mem d s len (
              if bit_or (d % 8) (s % 8) == 0
              then ok ((d_memcpy_u64 mem d s len).mem, (d_memcpy_u64 mem d s len).s)
              else if bit_or (d % 8) (s % 8) == 4
              then ok ((d_memcpy_u32 mem d s len).mem, (d_memcpy_u32 mem d s len).s)
              else undefined)
      by_alignment (inl d8) (inl s8) = rw (d8, s8) wide-Copies
      by_alignment (inl d8) (inr s4) = rw (d8, s4) narrow-Copies
      by_alignment (inr d4) (inl s8) = rw (d4, s8) narrow-Copies
      by_alignment (inr d4) (inr s4) = rw (d4, s4) narrow-Copies

word_test : ℕ → Bool
word_test x = (x == 0) || (x == 4)

not-word_test : (p : ℕ) → ¬ IsWordAligned p → word_test (p % 8) ≡ false
not-word_test p off = elim (Bool-cases (word_test (p % 8))) [
  | inl t ↦ absurd (off (unfold word_test in ground arith))
  | inr f ↦ f
]

-- The disjunction of two remainders is 0 or 4 only where both are.
or_test : ℕ → ℕ → Bool
unfolding word_test
or_test x y = not (word_test (bit_or x y)) || (word_test x && word_test y)

or_table : all_below 8 (λ x. all_below 8 (or_test x)) ≡ true
unfolding all_below or_test
or_table = refl

or_test-true : (x y : ℕ) → x < 8 → y < 8 → or_test x y ≡ true
or_test-true x y hx hy =
    all_below-lt 8 (or_test x) y (all_below-lt 8 (λ x. all_below 8 (or_test x)) x or_table hx) hy

-- If at least one byte is asked for and either pointer is neither a multiple of 8 nor four past one,
-- d_memcpy has no defined result.
pub d_memcpy_unaligned :
    (mem : ℕ → ℕ) (d s len : ℕ)
    → 0 < len
    → (¬ IsWordAligned d) ⊎ (¬ IsWordAligned s)
    → d_memcpy mem d s len ≡ undefined
unfolding d_memcpy or_test
d_memcpy_unaligned mem d s len some_asked off =
    let table = or_test-true (d % 8) (s % 8) (omega arith) (omega arith) in
    let off' : (word_test (d % 8) && word_test (s % 8)) ≡ false = elim off [
      | inl odd_d ↦ ground (arith, not-word_test d odd_d)
      | inr odd_s ↦ ground (arith, not-word_test s odd_s)
    ] in
    ground arith

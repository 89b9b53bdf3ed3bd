-- ===== src/Kernel/FillLaws.antt =====
-- The fill loops against a byte-wise fill.
use dshuffle.Prelude.{
  ℕ, zero, suc, ◌+◌, ◌-◌, ◌*◌, ◌/◌, ◌%◌, ◌<◌, ◌≡◌, refl, ◌⊎◌, inl, inr, ◌==◌, ltb, leb, ◌&&◌,
  if◌then◌else◌, arith, Bool, true, ==_iff, ◌≢◌, ℕ_discrete,
}
use dshuffle.Prelude.Outcome.{ok, undefined}
use dshuffle.Prelude.Tables.{all_below, all_below-lt}
use dshuffle.Kernel.Fill.{
  Cursor, byte_of, word, fall_through, rounds, spread_u32, spread_u64, d_memset_u32, d_memset_u64,
  d_memset,
}

-- The specification: `len` bytes from `p` on are `v`, and every other byte is as it was.
abbrev pub filled : (ℕ → ℕ) → ℕ → ℕ → ℕ → ℕ → ℕ
filled mem p v len a = if leb p a && ltb a (p + len) then v else mem a

-- Every byte of the spread word is the byte itself.
u32_test : ℕ → ℕ → Bool
u32_test v i = byte_of (spread_u32 v) i == v

u64_test : ℕ → ℕ → Bool
u64_test v i = byte_of (spread_u64 v) i == v

u32_table : all_below 256 (λ v. all_below 4 (u32_test v)) ≡ true
unfolding all_below u32_test spread_u32
u32_table = refl

u64_table : all_below 256 (λ v. all_below 8 (u64_test v)) ≡ true
unfolding all_below u64_test spread_u64
u64_table = refl

abbrev Spreads : ℕ → ℕ → ℕ → Type 0
Spreads w u v = (i : ℕ) → i < w → byte_of u i ≡ v

spread_u32-Spreads : (v : ℕ) → v < 256 → Spreads 4 (spread_u32 v) v
unfolding u32_test
spread_u32-Spreads v h i lt = (==_iff _ v).0 (
    all_below-lt 4 (u32_test v) i (all_below-lt 256 (λ v. all_below 4 (u32_test v)) v u32_table h)
      lt)

spread_u64-Spreads : (v : ℕ) → v < 256 → Spreads 8 (spread_u64 v) v
unfolding u64_test
spread_u64-Spreads v h i lt = (==_iff _ v).0 (
    all_below-lt 8 (u64_test v) i (all_below-lt 256 (λ v. all_below 8 (u64_test v)) v u64_table h)
      lt)

byte-Spreads : (v : ℕ) → v < 256 → Spreads 1 v v
byte-Spreads v h zero lt = omega arith
byte-Spreads v h (suc i) lt = absurd (omega arith)

pub record Filled (c₀ : Cursor) (v n : ℕ) (c : Cursor) : Type 0 where
  pub p_at : c.p ≡ c₀.p + n
  pub bytes : (a : ℕ) → c.mem a ≡ filled c₀.mem c₀.p v n a

rounds-fall_through :
    (w u n : ℕ) (c : Cursor) → rounds w u (suc n) c ≡ rounds w u n (fall_through w u 8 c)
unfolding rounds fall_through
rounds-fall_through w u n c = refl

module _ {c₀ : Cursor} (v u w : ℕ) (spread : Spreads w u v) where
  word-Filled : (n : ℕ) (c : Cursor) → Filled c₀ v n c → Filled c₀ v (n + w) (word w u c)
  unfolding word
  word-Filled n c done = record {
    p_at = omega (arith, done.p_at);
    bytes = λ a. ground (arith, done.p_at, done.bytes a, spread (a - c.p));
  }

  fall_through-Filled :
      (k n m : ℕ) (c : Cursor)
      → m ≡ n + w * k
      → Filled c₀ v n c
      → Filled c₀ v m (fall_through w u k c)
  unfolding fall_through
  fall_through-Filled zero n m c e done = let e' : n ≡ m = omega arith in rw (← e') done
  fall_through-Filled (suc k) n m c e done =
      fall_through-Filled k (n + w) m (word w u c) (omega arith) (word-Filled n c done)

  rounds-Filled :
      (k n m : ℕ) (c : Cursor)
      → m ≡ n + w * 8 * k
      → Filled c₀ v n c
      → Filled c₀ v m (rounds w u k c)
  rounds-Filled zero n m c e done = let e' : n ≡ m = omega arith in unfold rounds in rw (← e') done
  rounds-Filled (suc k) n m c e done = rw (rounds-fall_through w u k c) (
      rounds-Filled k (n + w * 8) m (fall_through w u 8 c) (omega arith)
        (fall_through-Filled 8 n (n + w * 8) c refl done))

module _ (mem : ℕ → ℕ) (p v len : ℕ) (small : v < 256) where
  abbrev from : Cursor
  from = record { mem = mem; p = p }

  start-Filled : Filled from v 0 from
  start-Filled = record { p_at = omega arith; bytes = λ a. ground arith }

  d_memset_u64-Filled : Filled from v len (d_memset_u64 mem p v len)
  unfolding d_memset_u64
  d_memset_u64-Filled =
      let head = 8 * (len / 8 % 8) in
      let body = head + 64 * (len / 8 / 8) in
      let spread = spread_u64-Spreads v small in
      fall_through-Filled v v 1 (byte-Spreads v small) (len % 8) body len _ (omega arith) (
        rounds-Filled v (spread_u64 v) 8 spread (len / 8 / 8) head body _ (omega arith) (
          fall_through-Filled v (spread_u64 v) 8 spread (len / 8 % 8) 0 head _ (omega arith)
            start-Filled))

  d_memset_u32-Filled : Filled from v len (d_memset_u32 mem p v len)
  unfolding d_memset_u32
  d_memset_u32-Filled =
      let head = 4 * (len / 4 % 8) in
      let body = head + 32 * (len / 4 / 8) in
      let spread = spread_u32-Spreads v small in
      fall_through-Filled v v 1 (byte-Spreads v small) (len % 4) body len _ (omega arith) (
        rounds-Filled v (spread_u32 v) 4 spread (len / 4 / 8) head body _ (omega arith) (
          fall_through-Filled v (spread_u32 v) 4 spread (len / 4 % 8) 0 head _ (omega arith)
            start-Filled))

  -- For a byte below 256, d_memset of len bytes at p ends on one of two branches: if p is a multiple
  -- of 8 or four past one, the end of the range is returned, the range holds the byte everywhere and
  -- every other byte is as it was; else no defined result follows.
  pub d_memset_lem :
      ((mem' : ℕ → ℕ) × ((p % 8 ≡ 0) ⊎ (p % 8 ≡ 4))
        × (d_memset mem p v len ≡ ok (mem', p + len))
        × ((a : ℕ) → mem' a ≡ filled mem p v len a))
      ⊎ ((p % 8 ≢ 0) × (p % 8 ≢ 4) × (d_memset mem p v len ≡ undefined))
  unfolding d_memset
  d_memset_lem = elim (ℕ_discrete (p % 8) 0) [
    | yes p8 ↦
        let done = d_memset_u64-Filled in
        inl ((d_memset_u64 mem p v len).mem, inl p8, rw (p8, done.p_at), done.bytes)
    | no off8 ↦ elim (ℕ_discrete (p % 8) 4) [
      | yes p4 ↦
          let done = d_memset_u32-Filled in
          inl ((d_memset_u32 mem p v len).mem, inr p4, rw (p4, done.p_at), done.bytes)
      | no off4 ↦ inr (off8, off4, ground arith)
    ]
  ]

-- ===== src/Kernel/Fill.antt =====
-- `d_memset` and its two loops.
use dshuffle.Prelude.{
  ℕ, zero, suc, ◌+◌, ◌-◌, ◌*◌, ◌/◌, ◌%◌, ◌^◌, bit_or, ◌==◌, ltb, leb, ◌&&◌, if◌then◌else◌,
}
use dshuffle.Prelude.Outcome.{Outcome, ok, undefined}

-- the memory and the pointer `p`
pub record Cursor : Type 0 where
  pub mem : ℕ → ℕ
  pub p : ℕ

-- byte `i` of a word, lowest first
abbrev pub byte_of : ℕ → ℕ → ℕ
byte_of u i = u / 256 ^ i % 256

-- `*p.u64++ = u` for words of `w` bytes
unfoldable pub word : ℕ → ℕ → Cursor → Cursor
word w u c = record {
  mem = λ a. if leb c.p a && ltb a (c.p + w) then byte_of u (a - c.p) else c.mem a;
  p = c.p + w;
}

unfoldable pub fall_through : ℕ → ℕ → ℕ → Cursor → Cursor
fall_through w u zero c = c
fall_through w u (suc k) c = fall_through w u k (word w u c)

unfoldable pub rounds : ℕ → ℕ → ℕ → Cursor → Cursor
rounds w u zero c = c
rounds w u (suc n) c =
    rounds w u n
      (word w u (word w u (word w u (word w u (word w u (word w u (word w u (word w u c))))))))

-- `u = u | (u << 8); u = u | (u << 16);`
unfoldable pub spread_u32 : ℕ → ℕ
spread_u32 v = let u = bit_or v (v * 2 ^ 8 % 2 ^ 32) in bit_or u (u * 2 ^ 16 % 2 ^ 32)

unfoldable pub spread_u64 : ℕ → ℕ
spread_u64 v =
    let u = bit_or v (v * 2 ^ 8 % 2 ^ 64) in
    let u' = bit_or u (u * 2 ^ 16 % 2 ^ 64) in bit_or u' (u' * 2 ^ 32 % 2 ^ 64)

unfoldable pub d_memset_u32 : (ℕ → ℕ) → ℕ → ℕ → ℕ → Cursor
d_memset_u32 mem p v len =
    let u32_len = len / 4 in
    let n = u32_len / 8 in
    let u = spread_u32 v in
    let head = fall_through 4 u (u32_len % 8) (record { mem = mem; p = p }) in
    let body = rounds 4 u n head in fall_through 1 v (len % 4) body

unfoldable pub d_memset_u64 : (ℕ → ℕ) → ℕ → ℕ → ℕ → Cursor
d_memset_u64 mem p v len =
    let u64_len = len / 8 in
    let n = u64_len / 8 in
    let u = spread_u64 v in
    let head = fall_through 8 u (u64_len % 8) (record { mem = mem; p = p }) in
    let body = rounds 8 u n head in fall_through 1 v (len % 8) body

-- The default case logs and returns a pointer that was never set.
unfoldable pub d_memset : (ℕ → ℕ) → ℕ → ℕ → ℕ → Outcome ((ℕ → ℕ) × ℕ)
d_memset mem dest val len =
    let wide = d_memset_u64 mem dest val len in
    let narrow = d_memset_u32 mem dest val len in
    if dest % 8 == 0
    then ok (wide.mem, wide.p)
    else if dest % 8 == 4
    then ok (narrow.mem, narrow.p)
    else undefined

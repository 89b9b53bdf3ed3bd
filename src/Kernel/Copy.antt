-- ===== src/Kernel/Copy.antt =====
-- `d_memcpy` and its two loops. Memory is a function from addresses to bytes; a word is loaded whole
-- before it is stored. Addresses stay below 2 ^ 64.
use dshuffle.Prelude.{ℕ, zero, suc, ◌+◌, ◌-◌, ◌/◌, ◌%◌, bit_or, ◌==◌, ltb, leb, ◌&&◌, if◌then◌else◌}
use dshuffle.Prelude.Outcome.{Outcome, ok, undefined}

-- the memory and the two pointers `d` and `s`
pub record Cursor : Type 0 where
  pub mem : ℕ → ℕ
  pub d : ℕ
  pub s : ℕ

-- `*d.u64++ = *s.u64++` for words of `w` bytes
unfoldable pub word : ℕ → Cursor → Cursor
word w c = record {
  mem = λ a. if leb c.d a && ltb a (c.d + w) then c.mem (c.s + (a - c.d)) else c.mem a;
  d = c.d + w;
  s = c.s + w;
}

-- The switch falls through: `case k` is `k` words.
unfoldable pub fall_through : ℕ → ℕ → Cursor → Cursor
fall_through w zero c = c
fall_through w (suc k) c = fall_through w k (word w c)

-- `while (n-- > 0)` over eight words
unfoldable pub rounds : ℕ → ℕ → Cursor → Cursor
rounds w zero c = c
rounds w (suc n) c =
    rounds w n (word w (word w (word w (word w (word w (word w (word w (word w c))))))))

unfoldable pub d_memcpy_u64 : (ℕ → ℕ) → ℕ → ℕ → ℕ → Cursor
d_memcpy_u64 mem d s bytes =
    let u64_len = bytes / 8 in
    let n = u64_len / 8 in
    let head = fall_through 8 (u64_len % 8) (record { mem = mem; d = d; s = s }) in
    let body = rounds 8 n head in fall_through 1 (bytes % 8) body

unfoldable pub d_memcpy_u32 : (ℕ → ℕ) → ℕ → ℕ → ℕ → Cursor
d_memcpy_u32 mem d s bytes =
    let u32_len = bytes / 4 in
    let n = u32_len / 8 in
    let head = fall_through 4 (u32_len % 8) (record { mem = mem; d = d; s = s }) in
    let body = rounds 4 n head in fall_through 1 (bytes % 4) body

-- The memory after the copy and the pointer that is returned. The default case logs and goes on with
-- a pointer that was never set.
unfoldable pub d_memcpy : (ℕ → ℕ) → ℕ → ℕ → ℕ → Outcome ((ℕ → ℕ) × ℕ)
d_memcpy mem d s len =
    let aligns = bit_or (d % 8) (s % 8) in
    let wide = d_memcpy_u64 mem d s len in
    let narrow = d_memcpy_u32 mem d s len in
    if len == 0
    then ok (mem, s)
    else if aligns == 0
    then ok (wide.mem, wide.s)
    else if aligns == 4
    then ok (narrow.mem, narrow.s)
    else undefined

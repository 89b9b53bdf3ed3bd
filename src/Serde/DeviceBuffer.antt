-- ===== src/Serde/DeviceBuffer.antt =====
-- lib/sd/kernel/sd.c: `buffer_t` of the kernel, with the memory that it points into. The host's memory
-- is seen through a window in its upper half.
use dshuffle.Prelude.{ℕ, ◌+◌, ◌-◌, ◌%◌, ◌^◌, ◌==◌, if◌then◌else◌}
use dshuffle.Prelude.Outcome.{Outcome, ok, ◌>>=◌}
use dshuffle.Prelude.Bytes.{write_at}
use dshuffle.Prelude.Words.{bytes_of, word}
use dshuffle.Kernel.Copy.{d_memcpy}
use dshuffle.Memory.Align.{align_up_8}

-- No function reads `lim`.
pub record Buffer : Type 0 where
  pub mem : ℕ → ℕ
  pub p : ℕ
  pub cur_p : ℕ
  pub lim : ℕ

-- `h2d` sets the highest bit of an address.
unfoldable pub h2d : ℕ → ℕ
h2d a = a % 2 ^ 63 + 2 ^ 63

unfoldable pub cur_off : Buffer → ℕ
cur_off b = (b.cur_p + 2 ^ 64 - b.p) % 2 ^ 32

-- `put_u8_at`, `put_u16_at` and so on, by the number of bytes
unfoldable pub put_word_at : ℕ → Buffer → ℕ → ℕ → Buffer
put_word_at w b v off = record b { mem = write_at b.mem (b.p + off) (bytes_of w v) }

-- `put_u8`, `put_u16` and so on
unfoldable pub put_word : ℕ → Buffer → ℕ → Buffer
put_word w b v = record b { mem = write_at b.mem b.cur_p (bytes_of w v); cur_p = b.cur_p + w }

unfoldable pub get_word_at : ℕ → Buffer → ℕ → ℕ
get_word_at w b off = word b.mem w (b.p + off)

unfoldable pub put : Buffer → ℕ → ℕ → Outcome Buffer
put b d_src len = d_memcpy b.mem b.cur_p d_src len >>= λ done.
    ok (record b { mem = done.0; cur_p = b.cur_p + len })

unfoldable pub fill_next_align_8 : Buffer → Buffer
unfolding put_word
fill_next_align_8 b =
    let padding = align_up_8 b.cur_p - b.cur_p in
    if padding == 7
    then put_word 4 (put_word 2 (put_word 1 b 0) 0) 0
    else if padding == 6
    then put_word 4 (put_word 2 b 0) 0
    else if padding == 5
    then put_word 4 (put_word 1 b 0) 0
    else if padding == 4
    then put_word 4 b 0
    else if padding == 3
    then put_word 2 (put_word 1 b 0) 0
    else if padding == 2
    then put_word 2 b 0
    else if padding == 1
    then put_word 1 b 0
    else b

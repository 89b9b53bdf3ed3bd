-- ===== src/Serde/RwBuffer.antt =====
-- lib/sd/native/rw_buffer.hxx: RWBuffer over a borrowed buffer. A copy that ends past the buffer is
-- undefined, so an offset moved by a copy stays within the size; `skip` moves it unchecked.
use dshuffle.Prelude.{ℕ, ◌+◌, ◌-◌, ◌%◌, ◌^◌, ◌==◌, leb, if◌then◌else◌, List, length, replicate}
use dshuffle.Prelude.Outcome.{Outcome, ok, undefined, ◌>>=◌}
use dshuffle.Prelude.Bytes.{write_at, read_at}
use dshuffle.Prelude.Words.{bytes_of, word}
use dshuffle.Memory.Align.{upper_align}

pub record RwBuffer : Type 0 where
  pub bytes : ℕ → ℕ
  pub size : ℕ
  pub off : ℕ

-- `put_at(src, length, offset)`
unfoldable pub put_at : RwBuffer → List ℕ → ℕ → Outcome RwBuffer
put_at b src offset =
    if leb (offset + length src) b.size
    then ok (record b { bytes = write_at b.bytes offset src })
    else undefined

-- `put(src, length)`
unfoldable pub put : RwBuffer → List ℕ → Outcome RwBuffer
unfolding put_at
put b src = put_at b src b.off >>= λ b'. ok (record b' { off = b.off + length src })

-- `put(value)` of a type of `w` bytes
unfoldable pub put_value : ℕ → RwBuffer → ℕ → Outcome RwBuffer
unfolding put
put_value w b v = put b (bytes_of w v)

-- `get_at<T>(offset)`
unfoldable pub get_at : ℕ → RwBuffer → ℕ → Outcome ℕ
get_at w b offset = if leb (offset + w) b.size then ok (word b.bytes w offset) else undefined

-- `get<T>()`
unfoldable pub get : ℕ → RwBuffer → Outcome (ℕ × RwBuffer)
unfolding get_at
get w b = get_at w b b.off >>= λ v. ok (v, record b { off = b.off + w })

-- `length` bytes at an offset, as `raw_at(offset)` gives them to a callee
unfoldable pub bytes_at : RwBuffer → ℕ → ℕ → Outcome (List ℕ)
bytes_at b offset n = if leb (offset + n) b.size then ok (read_at b.bytes offset n) else undefined

unfoldable pub skip : RwBuffer → ℕ → RwBuffer
skip b n = record b { off = (b.off + n) % 2 ^ 64 }

unfoldable pub fill_next_align_8 : RwBuffer → Outcome RwBuffer
unfolding put
fill_next_align_8 b =
    let len = upper_align b.off 8 - b.off in if len == 0 then ok b else put b (replicate len 0)

unfoldable pub skip_next_align_8 : RwBuffer → RwBuffer
skip_next_align_8 b = record b { off = upper_align b.off 8 }

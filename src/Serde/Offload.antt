-- ===== src/Serde/Offload.antt =====
-- lib/sd/native/sd.cxx: DPAContext on an array of objects, which gives each element to a thread of the
-- accelerator. A task is a parameter: what it returns for the address of an object. The threads of a batch
-- have an output area each, so what one returns stands until it is read.
use dshuffle.Prelude.{
  ℕ, zero, suc, ◌+◌, ◌-◌, ◌*◌, ◌/◌, ◌%◌, ◌^◌, ◌==◌, ltb, if◌then◌else◌, List, [], ◌∷◌,
}
use dshuffle.Prelude.Outcome.{Outcome, ok, ◌>>=◌, ◌>>◌, check}
use dshuffle.Prelude.Bytes.{read_at}
use dshuffle.Prelude.Words.{bytes_of}
use dshuffle.Serde.Types.{array_flag}
use dshuffle.Serde.Classes.{ClassInfo}
use dshuffle.Serde.FakeObject.{Jvm, array_length, array_elem_ref}
use dshuffle.Serde.RwBuffer.{RwBuffer, put_at, put, put_value, skip, fill_next_align_8}

-- `se_output_t`, with the bytes at `h_output`
pub record Output : Type 0 where
  pub length : ℕ
  pub bytes : ℕ → ℕ

-- The first loop of a batch: `n` elements from the element `i` on
unfoldable pub trigger_all : (ℕ → Outcome Output) → Jvm → ℕ → ℕ → ℕ → ℕ → Outcome (List Output)
trigger_all trigger j obj header i zero = ok []
trigger_all trigger j obj header i (suc n) = do
  elem ← array_elem_ref j obj header i
  o ← trigger elem
  os ← trigger_all trigger j obj header (suc i) n
  ok (o ∷ os)

-- The output of a task goes behind what is there, without its header.
unfoldable pub put_output : Output → RwBuffer → Outcome RwBuffer
put_output o b = do
  b₁ ← fill_next_align_8 b
  put b₁ (read_at o.bytes 8 ((o.length + 2 ^ 64 - 8) % 2 ^ 64))

-- The second loop of a batch
unfoldable pub put_all : List Output → RwBuffer → Outcome RwBuffer
unfolding put_output
put_all [] b = ok b
put_all (o ∷ os) b = put_output o b >>= put_all os

unfoldable pub batch : (ℕ → Outcome Output) → Jvm → ℕ → ℕ → ℕ → ℕ → ℕ → RwBuffer → Outcome RwBuffer
unfolding trigger_all put_all
batch trigger j obj header batch_size length i b =
    let first = i * batch_size % 2 ^ 32 in
    let left = (length + 2 ^ 32 - first) % 2 ^ 32 in
    let n_task = if ltb left batch_size then left else batch_size in
    trigger_all trigger j obj header first n_task >>= λ os. put_all os b

-- `n` batches from the batch `i` on
unfoldable pub batches :
    (ℕ → Outcome Output) → Jvm → ℕ → ℕ → ℕ → ℕ → ℕ → ℕ → RwBuffer → Outcome RwBuffer
unfolding batch
batches trigger j obj header batch_size length zero i b = ok b
batches trigger j obj header batch_size length (suc n) i b =
    batch trigger j obj header batch_size length i b
    >>= batches trigger j obj header batch_size length n (suc i)

-- The length, and the output buffer. The caller has more than one thread.
unfoldable pub do_array_obj_serialize :
    (ℕ → Outcome Output) → Jvm → ℕ → RwBuffer → ℕ → ClassInfo → Outcome (ℕ × RwBuffer)
unfolding batches
do_array_obj_serialize trigger j max_device_threads out obj info = do
  let n = array_length j obj info.header_size
  let b = skip (record out { off = 0 }) 8
  check (b.off % 8 == 0)
  b₁ ← put_value 2 b info.id
  b₂ ← put_value 2 b₁ array_flag
  b₃ ← put_value 4 b₂ n
  b₄ ← fill_next_align_8 b₃
  let n_batch = (n + max_device_threads + 2 ^ 32 - 1) % 2 ^ 32 / max_device_threads
  b₅ ← batches trigger j obj info.header_size max_device_threads n n_batch 0 b₄
  let total_length = b₅.off % 2 ^ 32
  b₆ ← put_at b₅ (bytes_of 8 total_length) 0
  ok (total_length, b₆)

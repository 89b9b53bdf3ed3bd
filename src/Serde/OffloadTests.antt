-- ===== src/Serde/OffloadTests.antt =====
-- An array of three references whose elements are given to two threads.
use dshuffle.Prelude.{ℕ, zero, suc, ◌+◌, ◌%◌, ◌<◌, ◌≡◌, refl, [], ◌∷◌, arith}
use dshuffle.Prelude.Outcome.{Outcome, ok, ◌>>=◌}
use dshuffle.Prelude.Bytes.{read_at}
use dshuffle.Prelude.Words.{word}
use dshuffle.Memory.Align.{upper_align}
use dshuffle.Serde.Pointer.{parse_cptr}
use dshuffle.Serde.FakeObject.{array_length, array_elem_ref, parse_at, raw, parse_heap_cptr}
use dshuffle.Serde.RwBuffer.{put_at, put, put_value, fill_next_align_8, skip}
use dshuffle.Serde.Offload.{Output, do_array_obj_serialize}
use dshuffle.Serde.OffloadLaws.{in_order, put_range, do_array_obj_serialize-in_order}
use dshuffle.Serde.StreamTests.{context, byte_array, out}

-- A task that returns a header and four bytes, which the address sets.
abbrev output : ℕ → Output
output a = record { length = 12; bytes = λ i. (i + a) % 256 }

abbrev task : ℕ → Outcome Output
task a = ok (output a)

-- The references of the array at 96: the first is no null.
abbrev outputs : ℕ → Output
outputs zero = output 17346648
outputs (suc i) = output 0

offloaded :
    (do_array_obj_serialize task context.jvm 2 out 96 byte_array >>= λ r.
    ok (r.0 ∷ read_at (r.1.bytes) 8 28))
    ≡ ok (
        36 ∷ 21 ∷ 0 ∷ 32 ∷ 0 ∷ 3 ∷ 0 ∷ 0 ∷ 0 ∷ 96 ∷ 97 ∷ 98 ∷ 99 ∷ 0 ∷ 0 ∷ 0 ∷ 0 ∷ 8 ∷ 9 ∷ 10 ∷ 11
        ∷ 0 ∷ 0 ∷ 0 ∷ 0 ∷ 8 ∷ 9 ∷ 10 ∷ 11 ∷ [])
unfolding do_array_obj_serialize array_length array_elem_ref parse_at raw word parse_heap_cptr
    parse_cptr put_at put put_value fill_next_align_8 skip upper_align
offloaded = refl

tasks_done : (i : ℕ) → i < 3 → (array_elem_ref context.jvm 96 16 i >>= task) ≡ ok (outputs i)
unfolding array_elem_ref parse_at raw word parse_heap_cptr parse_cptr
tasks_done zero h = refl
tasks_done (suc zero) h = refl
tasks_done (suc (suc zero)) h = refl
tasks_done (suc (suc (suc i))) h = absurd (omega arith)

do_array_obj_serialize-in_order_example :
    do_array_obj_serialize task context.jvm 2 out 96 byte_array
    ≡ in_order (put_range outputs 0 3) context.jvm out 96 byte_array
unfolding array_length parse_at raw word
do_array_obj_serialize-in_order_example =
    do_array_obj_serialize-in_order task context.jvm 2 out 96 byte_array outputs (omega arith)
      (omega arith) tasks_done

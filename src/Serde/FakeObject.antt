-- ===== src/Serde/FakeObject.antt =====
-- lib/sd/native/fake.hxx: what is read of an object of the JVM through its address. The memory of the
-- JVM is a function from addresses to bytes.
use dshuffle.Prelude.{ℕ, ◌+◌, ◌-◌, ◌*◌, ◌%◌, ◌^◌}
use dshuffle.Prelude.Outcome.{Outcome}
use dshuffle.Prelude.Words.{word}
use dshuffle.Serde.Pointer.{parse_cptr}

-- the memory, and `jvm_args_t` as far as pointers are parsed by it
pub record Jvm : Type 0 where
  pub mem : ℕ → ℕ
  pub h_heap_base : ℕ
  pub heap_compress_ptr_mode : ℕ
  pub heap_compress_ptr_shift : ℕ
  pub h_compressed_class_space_base : ℕ
  pub metaspace_compress_ptr_mode : ℕ
  pub metaspace_compress_ptr_shift : ℕ

-- The wrappers take a `uint64_t` and pass a `uint32_t`.
unfoldable pub parse_heap_cptr : Jvm → ℕ → Outcome ℕ
parse_heap_cptr j cptr =
    parse_cptr (cptr % 2 ^ 32) j.h_heap_base j.heap_compress_ptr_mode j.heap_compress_ptr_shift

unfoldable pub parse_metaspace_cptr : Jvm → ℕ → Outcome ℕ
parse_metaspace_cptr j cptr =
    parse_cptr (cptr % 2 ^ 32) j.h_compressed_class_space_base j.metaspace_compress_ptr_mode
      j.metaspace_compress_ptr_shift

-- `raw(offset)`: the offset is a `uint32_t`, and an address wraps.
unfoldable pub raw : ℕ → ℕ → ℕ
raw obj offset = (obj + offset % 2 ^ 32) % 2 ^ 64

-- `parse_at<T>(offset)` for a type of `w` bytes
unfoldable pub parse_at : ℕ → Jvm → ℕ → ℕ → ℕ
unfolding raw
parse_at w j obj offset = word j.mem w (raw obj offset)

-- The klass pointer stands behind the mark word of 8 bytes.
unfoldable pub klass_pointer : Jvm → ℕ → Outcome ℕ
unfolding parse_metaspace_cptr parse_at
klass_pointer j obj = parse_metaspace_cptr j (parse_at 4 j obj 8)

unfoldable pub enum_ordinal : Jvm → ℕ → ℕ
unfolding parse_at
enum_ordinal j obj = parse_at 4 j obj (8 + 4)

-- The length stands in the last 4 bytes of the header.
unfoldable pub array_length : Jvm → ℕ → ℕ → ℕ
unfolding parse_at
array_length j obj base = parse_at 4 j obj (base + 2 ^ 32 - 4)

unfoldable pub reference_at : Jvm → ℕ → ℕ → Outcome ℕ
unfolding parse_heap_cptr parse_at
reference_at j obj offset = parse_heap_cptr j (parse_at 4 j obj offset)

unfoldable pub array_elem_ref : Jvm → ℕ → ℕ → ℕ → Outcome ℕ
unfolding reference_at
array_elem_ref j obj base i = reference_at j obj (base + i * 4)

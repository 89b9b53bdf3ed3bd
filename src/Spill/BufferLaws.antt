-- ===== src/Spill/BufferLaws.antt =====
-- What `PartitionBuffer` keeps of the records appended to it.
use dshuffle.Prelude.{
  ℕ, ◌+◌, ◌-◌, ◌%◌, ◌^◌, ◌≤◌, ◌<◌, ◌≡◌, refl, ap, ◌∙◌, false, List, [], ◌++◌, arith, length, ◌↔◌,
}
use dshuffle.Prelude.Outcome.{ok}
use dshuffle.Prelude.Bytes.{
  write_at, read_at, read_at-append, read_at-write_at_before, read_at-write_at_self,
}
use dshuffle.Spill.Buffer.{
  header_size, PartitionBuffer, partition_buffer, need_spill, append, actual_size, payload,
}

-- The header counts itself, and no more than the buffer holds.
pub record IsValid (b : PartitionBuffer) : Type 0 where
  pub counted : header_size ≤ b.header.length
  pub within : b.header.length ≤ b.size
  pub sized : b.size < 2 ^ 63

pub partition_buffer-IsValid :
    (buffer size : ℕ) (bytes : ℕ → ℕ) (partition_id : ℕ)
    → header_size ≤ size
    → size < 2 ^ 63
    → IsValid (partition_buffer buffer size bytes partition_id)
      × (payload (partition_buffer buffer size bytes partition_id) ≡ [])
unfolding partition_buffer payload
partition_buffer-IsValid buffer size bytes partition_id room small =
    (record { counted = omega arith; within = room; sized = small }, refl)

-- The buffer after an append that fits.
pub record Appends (b : PartitionBuffer) (src : List ℕ) (b' : PartitionBuffer) : Type 0 where
  pub valid : IsValid b'
  pub same_buffer : b'.buffer ≡ b.buffer
  pub same_size : b'.size ≡ b.size
  pub same_partition : b'.header.partition_id ≡ b.header.partition_id
  pub longer : b'.header.length ≡ b.header.length + length src
  pub content : payload b' ≡ payload b ++ src

module _ {b : PartitionBuffer} (valid : IsValid b) where
  pub append-Appends :
      (src : List ℕ)
      → b.header.length + length src ≤ b.size
      → (b' : PartitionBuffer) × (append b src ≡ ok b') × Appends b src b'
  unfolding append payload actual_size
  append-Appends src room =
      let lo = valid.counted in
      let small = valid.sized in
      let exact : (b.header.length + length src) % 2 ^ 64 ≡ b.header.length + length src =
        omega arith in
      let grown : b.header.length + length src - header_size
          ≡ (b.header.length - header_size) + length src =
        omega arith in
      let joint : header_size + (b.header.length - header_size) ≡ b.header.length = omega arith in
      let after = write_at b.bytes b.header.length src in
      (
        record b {
          header = record (b.header) { length = b.header.length + length src };
          bytes = after;
        },
        rw exact (ground arith),
        record {
          valid = record { counted = omega arith; within = room; sized = small };
          same_buffer = refl;
          same_size = refl;
          same_partition = refl;
          longer = refl;
          content =
              ap (read_at after header_size) grown
              ∙ read_at-append after header_size (b.header.length - header_size) (length src)
              ∙ rw (
                joint,
                read_at-write_at_before b.bytes header_size (b.header.length - header_size)
                    b.header.length src (omega arith),
                read_at-write_at_self b.bytes b.header.length src,
              );
        },
      )

  -- The test tells whether the record fits.
  pub need_spill_iff :
      (n : ℕ) → n < 2 ^ 63 → (need_spill b n ≡ false) ↔ (b.header.length + n ≤ b.size)
  unfolding need_spill
  need_spill_iff n small =
      let hi = valid.within in
      let bounded = valid.sized in
      let exact : (b.header.length + n) % 2 ^ 64 ≡ b.header.length + n = omega arith in
      rw exact (ground arith)

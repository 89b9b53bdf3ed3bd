-- ===== src/Spill/Buffer.antt =====
-- lib/native/offload.hxx: `PartitionBuffer`, over a buffer of a pool. The header stands in the first 16
-- bytes of the buffer; here it is a field, and `bytes` holds what follows.
use dshuffle.Prelude.{ℕ, ◌+◌, ◌-◌, ◌%◌, ◌^◌, Bool, ltb, ◌==◌, if◌then◌else◌, List, length}
use dshuffle.Prelude.Outcome.{Outcome, ok, undefined}
use dshuffle.Prelude.Bytes.{write_at, read_at}

-- `sizeof(PartitionDataHeader)`
abbrev pub header_size : ℕ
header_size = 16

pub record PartitionDataHeader : Type 0 where
  pub partition_id : ℕ
  pub length : ℕ

pub record PartitionBuffer : Type 0 where
  pub buffer : ℕ
  pub size : ℕ
  pub header : PartitionDataHeader
  pub bytes : ℕ → ℕ

-- The constructor that sets up a new header.
unfoldable pub partition_buffer : ℕ → ℕ → (ℕ → ℕ) → ℕ → PartitionBuffer
partition_buffer buffer size bytes partition_id = record {
  buffer = buffer;
  size = size;
  header = record { partition_id = partition_id; length = header_size };
  bytes = bytes;
}

unfoldable pub need_spill : PartitionBuffer → ℕ → Bool
need_spill b expected_size = ltb b.size ((b.header.length + expected_size) % 2 ^ 64)

-- `memcpy` past the end of the buffer is undefined.
unfoldable pub append : PartitionBuffer → List ℕ → Outcome PartitionBuffer
append b src =
    if ltb b.size (b.header.length + length src)
    then undefined
    else ok (record b {
      header = record (b.header) { length = (b.header.length + length src) % 2 ^ 64 };
      bytes = write_at b.bytes b.header.length src;
    })

unfoldable pub empty : PartitionBuffer → Bool
empty b = b.header.length == header_size

unfoldable pub actual_size : PartitionBuffer → ℕ
actual_size b = b.header.length - header_size

unfoldable pub total_size : PartitionBuffer → ℕ
total_size b = b.header.length

-- The bytes from `actual_data()` on, `actual_size()` of them.
unfoldable pub payload : PartitionBuffer → List ℕ
unfolding actual_size
payload b = read_at b.bytes header_size (actual_size b)

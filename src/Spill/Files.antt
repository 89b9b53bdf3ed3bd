-- ===== src/Spill/Files.antt =====
-- lib/native/spill_worker.hxx: how `HostSpillWorker`, `BufferredHostSpillWorker` and `DirectSpillWorker`
-- write partition buffers to the files of the partitions. The ring and the files are the kernel's: a
-- request stores all its bytes at its offset, whenever the ring gets to it.
use dshuffle.Prelude.{
  ℕ, zero, suc, ◌+◌, ◌-◌, ◌/◌, ◌%◌, ◌^◌, Bool, ◌==◌, if◌then◌else◌, List, [], ◌∷◌, ◌++◌, Option,
  none, some, length, take, get_elem?, set, put,
}
use dshuffle.Prelude.Int.{ℤ, is_positive, to_size}
use dshuffle.Prelude.Outcome.{Outcome, ok, died, undefined, blocked, ◌>>=◌}
use dshuffle.Prelude.Bytes.{write_at, read_at}
use dshuffle.Memory.Region.{MemoryRegion}
use dshuffle.Memory.BufferPool.{Buffers}
use dshuffle.Spill.Buffer.{PartitionBuffer, header_size}

pub record PartitionFile : Type 0 where
  pub fd : ℕ
  pub partition_id : ℕ
  pub offset : ℕ

-- `io_uring_prep_write(sqe, fd, data, nbytes, offset)`, with the bytes that are to be stored
pub record Request : Type 0 where
  pub fd : ℕ
  pub at : ℕ
  pub bytes : List ℕ

-- The files behind the descriptors.
abbrev pub Disk : Type 0
Disk = ℕ → ℕ → ℕ

abbrev pub perform : Request → Disk → Disk
perform r disk = put disk r.fd (write_at (disk r.fd) r.at r.bytes)

abbrev pub perform_all : List Request → Disk → Disk
perform_all [] disk = disk
perform_all (r ∷ rs) disk = perform_all rs (perform r disk)

pub record HostSpillWorker : Type 0 where
  pub max_n_partition : ℕ
  pub files : List PartitionFile
  pub io_q : List PartitionBuffer
  pub in_flight : List Request
  pub disk : Disk

-- `0x0500edac`, as it is stored
abbrev pub magic_number_and_version : List ℕ
magic_number_and_version = 172 ∷ 237 ∷ 0 ∷ 5 ∷ []

-- One file of `create_partition_files`, truncated by `open`.
unfoldable pub open_file : Bool → ℕ → ℕ → HostSpillWorker → HostSpillWorker
open_file need_header i fd s = record s {
  files =
      s.files ++ record { fd = fd; partition_id = i; offset = (if need_header then 4 else 0) } ∷ [];
  disk =
      put s.disk fd
        (if need_header then write_at (λ _. 0) 0 magic_number_and_version else (λ _. 0));
}

-- `open_fd i` is what `open` returns for the file of partition `i`.
unfoldable pub open_files :
    (ℕ → Option ℕ) → Bool → ℕ → ℕ → HostSpillWorker → Outcome HostSpillWorker
unfolding open_file
open_files open_fd need_header zero i s = ok s
open_files open_fd need_header (suc n) i s = elim (open_fd i) [
  | none ↦ died
  | some fd ↦ open_files open_fd need_header n (i + 1) (open_file need_header i fd s)
]

unfoldable pub create_partition_files :
    (ℕ → Option ℕ) → Bool → HostSpillWorker → Outcome HostSpillWorker
unfolding open_files
create_partition_files open_fd need_header s =
    if length s.files == s.max_n_partition
    then ok s
    else open_files open_fd need_header s.max_n_partition 0 s

unfoldable pub close_partition_files : HostSpillWorker → HostSpillWorker
close_partition_files s = record s { files = [] }

-- `nbytes` is an `unsigned`, so a length is cut to 32 bits.
unfoldable pub prep_write : ℕ → List ℕ → ℕ → Request
prep_write fd content at = record {
  fd = fd;
  at = at;
  bytes = take (length content % 2 ^ 32) content;
}

-- A task of `submit_direct_spill`, once it is popped; `content` is what the worker takes of a buffer. The
-- offset moves on by the whole length.
unfoldable pub spill_one :
    (PartitionBuffer → List ℕ) → PartitionBuffer → HostSpillWorker → Outcome HostSpillWorker
unfolding prep_write
spill_one content task s =
    if length s.files == s.max_n_partition
    then elim (get_elem? s.files task.header.partition_id) [
      | none ↦ undefined
      | some f ↦ ok (record s {
        files =
            set s.files task.header.partition_id
              (record f { offset = (f.offset + length (content task)) % 2 ^ 64 });
        in_flight = s.in_flight ++ prep_write f.fd (content task) f.offset ∷ [];
      })
    ]
    else blocked

unfoldable pub submit_direct_spill :
    (PartitionBuffer → List ℕ) → HostSpillWorker → Outcome HostSpillWorker
unfolding spill_one
submit_direct_spill content s = elim s.io_q [
  | [] ↦ blocked
  | task ∷ rest ↦ spill_one content task (record s { io_q = rest })
]

-- The rounds for a sequence of tasks.
unfoldable pub spill_all :
    (PartitionBuffer → List ℕ) → List PartitionBuffer → HostSpillWorker → Outcome HostSpillWorker
spill_all content [] s = ok s
spill_all content (task ∷ tasks) s = spill_one content task s >>= spill_all content tasks

-- `HostSpillWorker` takes the whole of the transferred region behind the header.
unfoldable pub whole_payload : PartitionBuffer → List ℕ
whole_payload b = read_at b.bytes header_size (b.size - header_size)

-- The index of the registered buffer that `DirectSpillWorker` gives to the ring.
unfoldable pub fixed_index : Buffers → MemoryRegion → ℕ
fixed_index bs buffer = (buffer.base - bs.region.base) / bs.piece_len

-- `progress_io`: what the future of a task gets from the result of its completion.
unfoldable pub completion_value : ℕ → ℤ → ℕ
completion_value size res = if is_positive res then size else to_size res

-- The end of `handle_spill_request`, for a task of `size` bytes.
unfoldable pub finish_spill : ℕ → ℤ → ℕ → Outcome ℕ
unfolding completion_value
finish_spill size res n_read = if completion_value size res == size then ok n_read else died

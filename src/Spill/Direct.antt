-- ===== src/Spill/Direct.antt =====
-- lib/native/spill_worker.hxx: `DirectSpillWorker`, which opens the files when the host mounts the disk
-- here and closes them when it unmounts. `rc` is what the command `mount` or `umount` returns.
use dshuffle.Prelude.{
  ℕ, ◌+◌, ◌-◌, Bool, true, false, ◌==◌, ◌||◌, not, if◌then◌else◌, List, [], ◌∷◌, Option,
}
use dshuffle.Prelude.Int.{ℤ}
use dshuffle.Prelude.Outcome.{Outcome, ok, died, blocked, ◌>>=◌}
use dshuffle.Spill.Buffer.{PartitionBuffer, payload, total_size}
use dshuffle.Spill.Files.{HostSpillWorker, open_files, spill_one, completion_value}

-- The files, their limit, the queue and the requests are kept as by the other workers.
pub record DirectSpillWorker : Type 0 where
  pub mounted : Bool
  pub issued_io : ℕ
  pub io : HostSpillWorker

unfoldable pub do_mount :
    (ℕ → Option ℕ) → ℤ → ℕ → DirectSpillWorker → Outcome (ℤ × DirectSpillWorker)
do_mount open_fd rc max_n_partition s =
    if s.mounted
    then died
    else open_files open_fd false max_n_partition 0
        (record (s.io) { max_n_partition = max_n_partition })
      >>= λ io. ok (rc, record s { mounted = true; io = io })

abbrev pub is_empty : List PartitionBuffer → Bool
is_empty [] = true
is_empty (b ∷ bs) = false

-- It sleeps while a task is queued or a request is in flight.
unfoldable pub do_umount : ℤ → DirectSpillWorker → Outcome (ℤ × DirectSpillWorker)
do_umount rc s =
    if s.mounted
    then (if not (is_empty s.io.io_q) || not (s.issued_io == 0)
        then blocked
        else ok (rc, record s { mounted = false }))
    else died

-- One round of `submit_direct_spill`.
unfoldable pub submit_direct_spill : DirectSpillWorker → Outcome DirectSpillWorker
submit_direct_spill s = elim s.io.io_q [
  | [] ↦ blocked
  | task ∷ rest ↦ spill_one payload task (record (s.io) { io_q = rest }) >>= λ io.
      ok (record s { io = io; issued_io = s.issued_io + 1 })
]

-- One round of `progress_io`, for the completion of `task`.
unfoldable pub progress_io : PartitionBuffer → ℤ → DirectSpillWorker → ℕ × DirectSpillWorker
progress_io task res s =
    (completion_value (total_size task) res, record s { issued_io = s.issued_io - 1 })

-- ===== src/Spill/Requests.antt =====
-- lib/native/spill_worker.hxx: the two halves of `handle_spill_request`, before and after the wait for the
-- future of the task. Other fibers use the pool in between.
use dshuffle.Prelude.{ℕ, ◌==◌, if◌then◌else◌, Option, none, some}
use dshuffle.Prelude.Outcome.{Outcome, ok, died, ◌>>=◌}
use dshuffle.Memory.BufferPool.{BufferPool}
use dshuffle.Memory.BufferPool
use dshuffle.Spill.Buffer.{PartitionBuffer, total_size}

-- `SpillWorker` and `BufferredHostSpillWorker`: a buffer is acquired, `bulk_read` fills it with `fetched`
-- and returns `n_read`; without a free buffer, or for another length than the header's, it dies.
unfoldable pub fetch : PartitionBuffer → ℕ → Option ℕ → BufferPool → Outcome (ℕ × BufferPool)
fetch fetched n_read none p = died
fetch fetched n_read (some i) p = if total_size fetched == n_read then ok (i, p) else died

unfoldable pub begin_request : BufferPool → PartitionBuffer → ℕ → Outcome (ℕ × BufferPool)
unfolding fetch
begin_request p fetched n_read =
    let (buf, p') = BufferPool.acquire_one p in fetch fetched n_read buf p'

-- The future of the task has given `n_spill`.
unfoldable pub end_request : BufferPool → ℕ → PartitionBuffer → ℕ → ℕ → Outcome (ℕ × BufferPool)
end_request p i fetched n_read n_spill =
    if n_spill == total_size fetched
    then (BufferPool.release_one p i >>= λ p'. ok (n_read, p'))
    else died

-- `NaiveSpillWorker`, which compares with the size of the transferred region.
unfoldable pub end_naive_request : ℕ → ℕ → ℕ → Outcome ℕ
end_naive_request size n_read n_spill = if n_spill == size then ok n_read else died

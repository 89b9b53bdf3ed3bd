-- ===== src/Spill/Agent.antt =====
-- lib/native/spill_agent.hxx: `SpillAgent`. A call of `append_or_spill` or `force_spill` that has to wait
-- for a free buffer does so with the lock of its partition; it is cut there into two steps, so that the
-- calls of other threads run in between. Waiting for a lock is a blocked call.
use dshuffle.Prelude.{
  ℕ, ◌+◌, ltb, ◌==◌, if◌then◌else◌, List, [], ◌∷◌, ◌++◌, Option, none, some, length, put,
}
use dshuffle.Prelude.Outcome.{Outcome, ok, died, undefined, blocked, ◌>>=◌}
use dshuffle.Memory.BufferPool.{Buffers, BufferPool, piece, pool, enable_mt}
use dshuffle.Memory.BufferPool
use dshuffle.Spill.Buffer.{PartitionBuffer, partition_buffer, need_spill, append, total_size}

-- A partition: `active_buffers[i]` while its lock is free, or the call that holds the lock and waits.
pub data Slot : Type 0 where
  vacant : Slot
  active : PartitionBuffer → Slot
  refill : List ℕ → List ℕ → Slot
  renew : Slot

pub record SpillAgent : Type 0 where
  pub max_n_partition : ℕ
  pub slots : ℕ → Slot
  pub spill_q : List PartitionBuffer
  pub batches : ℕ → List PartitionBuffer
  pub dma_buffer_pool : BufferPool

-- The constructor, over the buffers and the memory that their allocation gives.
unfoldable pub spill_agent : ℕ → Buffers → (ℕ → ℕ) → SpillAgent
spill_agent max_n_partition bs mem = record {
  max_n_partition = max_n_partition;
  slots = λ _. vacant;
  spill_q = [];
  batches = λ _. [];
  dma_buffer_pool = enable_mt (pool bs mem);
}

unfoldable pub submit_spill_buffer : SpillAgent → PartitionBuffer → SpillAgent
submit_spill_buffer a b = record a { spill_q = a.spill_q ++ b ∷ [] }

-- The key and the value of one record.
unfoldable pub append_record : PartitionBuffer → List ℕ → List ℕ → Outcome PartitionBuffer
append_record b key value = append b key >>= λ b'. append b' value

abbrev pub put_slot : SpillAgent → ℕ → Slot → SpillAgent
put_slot a partition_id s = record a { slots = put a.slots partition_id s }

unfoldable pub append_or_spill : SpillAgent → ℕ → List ℕ → List ℕ → Outcome SpillAgent
append_or_spill a partition_id key value =
    if ltb partition_id a.max_n_partition
    then elim (a.slots partition_id) [
      | vacant ↦ ok (put_slot a partition_id (refill key value))
      | active b ↦
          if need_spill b (length key + length value)
          then ok (put_slot (submit_spill_buffer a b) partition_id (refill key value))
          else append_record b key value >>= λ b'. ok (put_slot a partition_id (active b'))
      | refill k v ↦ blocked
      | renew ↦ blocked
    ]
    else undefined

unfoldable pub force_spill : SpillAgent → ℕ → Outcome SpillAgent
force_spill a partition_id =
    if ltb partition_id a.max_n_partition
    then elim (a.slots partition_id) [
      | vacant ↦ ok a
      | active b ↦ ok (put_slot (submit_spill_buffer a b) partition_id renew)
      | refill k v ↦ blocked
      | renew ↦ blocked
    ]
    else undefined

-- One round of the loop of `acquire_one`; without a free buffer it sleeps.
unfoldable pub borrow :
    SpillAgent → ℕ → Option ℕ → BufferPool → Outcome (PartitionBuffer × SpillAgent)
borrow a partition_id none p = blocked
borrow a partition_id (some i) p =
    let r = piece p.bs i in
    ok (
      partition_buffer i r.len (λ k. p.mem (r.base + k)) partition_id,
      record a { dma_buffer_pool = p },
    )

unfoldable pub acquire_one : SpillAgent → ℕ → Outcome (PartitionBuffer × SpillAgent)
unfolding borrow
acquire_one a partition_id =
    let (buf, p) = BufferPool.acquire_one a.dma_buffer_pool in borrow a partition_id buf p

-- The rest of the call that waits on the partition.
unfoldable pub resume : SpillAgent → ℕ → Outcome SpillAgent
resume a partition_id = elim (a.slots partition_id) [
  | vacant ↦ blocked
  | active b ↦ blocked
  | refill key value ↦ do
    (b, a') ← acquire_one a partition_id
    b' ← append_record b key value
    ok (put_slot a' partition_id (active b'))
  | renew ↦ do (b, a') ← acquire_one a partition_id; ok (put_slot a' partition_id (active b))
]

-- `issue_spill` of worker `w`: it takes the queue once its batch is done,
unfoldable pub swap : SpillAgent → ℕ → Outcome SpillAgent
swap a w = elim (a.batches w) [
  | b ∷ bs ↦ blocked
  | [] ↦ elim a.spill_q [
    | [] ↦ blocked
    | q ∷ qs ↦ ok (record a { spill_q = []; batches = put a.batches w (q ∷ qs) })
  ]
]

-- and handles the size that the transport returns for the next buffer of the batch.
unfoldable pub complete : SpillAgent → ℕ → ℕ → Outcome SpillAgent
complete a w size = elim (a.batches w) [
  | [] ↦ blocked
  | b ∷ bs ↦
      if size == total_size b
      then (BufferPool.release_one a.dma_buffer_pool b.buffer >>= λ p.
          ok (record a { dma_buffer_pool = p; batches = put a.batches w bs }))
      else died
]

-- ===== src/Spill/Shuffle.antt =====
-- lib/native/shuffle_worker.hxx: `ShuffleWorker`, which sends a partition buffer to another machine or
-- on to the local disk, and the dispatcher of `PipelineShuffleWorkerPool`. `fn` is the dispatch function.
use dshuffle.Prelude.{
  ℕ, zero, suc, ◌+◌, ◌%◌, ◌^◌, ◌==◌, Bool, if◌then◌else◌, List, [], ◌∷◌, ◌++◌, Option, none, some,
  length,
}
use dshuffle.Prelude.Outcome.{Outcome, ok, died, undefined, ◌>>=◌}
use dshuffle.Spill.Buffer.{PartitionBuffer, actual_size}

-- What becomes of a task: its future is set, or it goes to the queue of the spill worker.
pub data Handled : Type 0 where
  sent : ℕ → Handled
  queued : PartitionBuffer → Handled

-- `handle_spill_task` on one task; `n_bulk` is what the transport returns.
unfoldable pub handle_spill_task : (ℕ → Bool) → PartitionBuffer → ℕ → Outcome Handled
handle_spill_task fn task n_bulk =
    if fn task.header.partition_id
    then (if n_bulk == actual_size task then ok (sent (actual_size task)) else died)
    else ok (queued task)

-- The dispatcher; a task is the pointer to it, and `partition_of` reads the header it points to.
pub record Dispatcher : Type 0 where
  pub trsqs_i : ℕ
  pub trsqs : List (List ℕ)
  pub dsq : List ℕ

unfoldable pub push_at : List (List ℕ) → ℕ → ℕ → Option (List (List ℕ))
push_at [] i t = none
push_at (q ∷ qs) zero t = some ((q ++ t ∷ []) ∷ qs)
push_at (q ∷ qs) (suc i) t = elim (push_at qs i t) [ none ↦ none | some qs' ↦ some (q ∷ qs') ]

-- `choose_one_trsq()->push(t)`: the index counts in 32 bits and is taken modulo the number of `rsqs`.
unfoldable pub push_remote : ℕ → ℕ → Dispatcher → Outcome Dispatcher
push_remote n_rsqs t d = elim n_rsqs [
  | zero ↦ undefined
  | suc m ↦
      let i = (d.trsqs_i + 1) % 2 ^ 32 in
      elim (push_at d.trsqs (i % suc m) t) [
        | none ↦ undefined
        | some trsqs ↦ ok (record d { trsqs_i = i; trsqs = trsqs })
      ]
]

unfoldable pub push_disk : ℕ → Dispatcher → Dispatcher
push_disk t d = record d { dsq = d.dsq ++ t ∷ [] }

unfoldable pub dispatch : (ℕ → Bool) → ℕ → ℕ → Dispatcher → Outcome Dispatcher
dispatch to_remote n_rsqs t d = if to_remote t then push_remote n_rsqs t d else ok (push_disk t d)

-- The loop over `lsqs`: the first task of each queue, where it has one.
unfoldable pub dispatch_local :
    (ℕ → Bool) → ℕ → List (List ℕ) → Dispatcher → Outcome (List (List ℕ) × Dispatcher)
dispatch_local to_remote n_rsqs [] d = ok ([], d)
dispatch_local to_remote n_rsqs ([] ∷ qs) d =
    dispatch_local to_remote n_rsqs qs d >>= λ r. ok ([] ∷ r.0, r.1)
dispatch_local to_remote n_rsqs ((t ∷ q) ∷ qs) d = dispatch to_remote n_rsqs t d >>= λ d'.
    dispatch_local to_remote n_rsqs qs d' >>= λ r. ok (q ∷ r.0, r.1)

-- The loop over `rsqs`.
unfoldable pub dispatch_remote : List (List ℕ) → Dispatcher → List (List ℕ) × Dispatcher
dispatch_remote [] d = ([], d)
dispatch_remote ([] ∷ qs) d = let (qs', d') = dispatch_remote qs d in ([] ∷ qs', d')
dispatch_remote ((t ∷ q) ∷ qs) d =
    let (qs', d') = dispatch_remote qs (push_disk t d) in (q ∷ qs', d')

-- One round of `do_dispatch`, over both sets of queues.
unfoldable pub do_dispatch :
    (ℕ → Bool)
    → List (List ℕ)
    → List (List ℕ)
    → Dispatcher
    → Outcome (List (List ℕ) × (List (List ℕ) × Dispatcher))
do_dispatch to_remote lsqs rsqs d =
    dispatch_local to_remote (length rsqs) lsqs d >>= λ r. ok (r.0, dispatch_remote rsqs (r.1))

-- ===== src/Spill/AgentCalls.antt =====
-- Each call of a spill agent, on every branch, from a safe state.
use dshuffle.Prelude.{
  ℕ, ◌+◌, ◌≤◌, ◌<◌, ◌≡◌, refl, sym, ap, ap₂, subst, ◌∙◌, inl, inr, Bool-cases, ◌==◌, if◌then◌else◌,
  lt→ltb, List, [], ◌++◌, append-nil, append_assoc, none, some, length, length-append, All, arith,
  Option,
}
use dshuffle.Prelude.Outcome.{ok, blocked, Yields, Yields-bind, ◌>>=◌}
use dshuffle.Memory.BufferPool.{BufferPool, Buffers, piece, n_elements, belongs, reset, release_one}
use dshuffle.Memory.BufferPool
use dshuffle.Memory.PoolHistory.{acquire_one-some}
use dshuffle.Spill.Buffer.{PartitionBuffer, header_size, partition_buffer, need_spill, payload}
use dshuffle.Spill.BufferLaws.{
  IsValid, Appends, append-Appends, need_spill_iff, partition_buffer-IsValid,
}
use dshuffle.Spill.Agent.{
  Slot, vacant, active, refill, renew, SpillAgent, submit_spill_buffer, append_record, put_slot,
  append_or_spill, force_spill, acquire_one, resume, borrow,
}
use dshuffle.Spill.AgentLaws.{
  payloads, pending, Fits, IsOwn, IsHeld, IsSafe, waiting, put_slot-IsSafe, submit-IsSafe, extra,
  Adds, waiting-put_slot, waiting-submit,
}

append_record-Appends :
    {b : PartitionBuffer} (key value : List ℕ)
    → IsValid b
    → b.header.length + (length key + length value) ≤ b.size
    → (b' : PartitionBuffer) × (append_record b key value ≡ ok b') × Appends b (key ++ value) b'
unfolding append_record
append_record-Appends {b} key value valid room =
    let (b₁, run₁, first) = append-Appends valid key (omega arith) in
    let (b₂, run₂, second) =
      append-Appends first.valid value (omega (arith, first.longer, first.same_size)) in
    (
      b₂,
      rw (run₁, run₂),
      record {
        valid = second.valid;
        same_buffer = second.same_buffer ∙ first.same_buffer;
        same_size = second.same_size ∙ first.same_size;
        same_partition = second.same_partition ∙ first.same_partition;
        longer = omega (arith, first.longer, second.longer, length-append key value);
        content =
            second.content
            ∙ ap (λ xs. xs ++ value) first.content
            ∙ append_assoc (payload b) key value;
      },
    )

-- A buffer that has taken a record is still the slot's own.
record-IsOwn :
    {p : Buffers} {i : ℕ} {b b' : PartitionBuffer} {new : List ℕ}
    → IsOwn p i b
    → Appends b new b'
    → IsOwn p i b'
record-IsOwn own step = record {
  valid = step.valid;
  known = step.same_partition ∙ own.known;
  whole = step.same_size ∙ own.whole;
  piece_of = omega (arith, step.same_buffer, own.piece_of);
}

module _ {a : SpillAgent} (safe : IsSafe a) (i : ℕ) (known : i < a.max_n_partition) where
  pub append_or_spill-Adds :
      (key value : List ℕ)
      → Fits a.dma_buffer_pool.bs key value
      → Yields (Adds a i (key ++ value)) (append_or_spill a i key value)
  unfolding append_or_spill
  append_or_spill-Adds key value fits = rw (lt→ltb i a.max_n_partition known) (go (a.slots i) refl)
    where
      in_place :
          (b : PartitionBuffer)
          → a.slots i ≡ active b
          → IsOwn a.dma_buffer_pool.bs i b
          → b.header.length + (length key + length value) ≤ b.size
          → Yields
              (Adds a i (key ++ value))
              (append_record b key value >>= λ b'. ok (put_slot a i (active b')))
      in_place b e own room =
          let (b', run, step) = append_record-Appends key value own.valid room in
          rw run (record {
            safe = put_slot-IsSafe a i (active b') safe (record-IsOwn own step);
            kept =
                waiting-put_slot a i (active b') (key ++ value)
                  (step.content ∙ ap (λ s. pending s ++ (key ++ value)) (sym e));
          })

      go :
          (s : Slot)
          → a.slots i ≡ s
          → Yields (Adds a i (key ++ value)) (elim s [
            | vacant ↦ ok (put_slot a i (refill key value))
            | active b ↦
                if need_spill b (length key + length value)
                then ok (put_slot (submit_spill_buffer a b) i (refill key value))
                else append_record b key value >>= λ b'. ok (put_slot a i (active b'))
            | refill k v ↦ blocked
            | renew ↦ blocked
          ])
      go vacant e = record {
        safe = put_slot-IsSafe a i (refill key value) safe fits;
        kept =
            waiting-put_slot a i (refill key value) (key ++ value)
              (ap (λ s. pending s ++ (key ++ value)) (sym e));
      }
      go (active b) e =
          let own = subst (IsHeld a.dma_buffer_pool.bs i) e (safe.held i) in
          elim (Bool-cases (need_spill b (length key + length value))) [
            | inl full ↦ rw full (record {
              safe =
                  put_slot-IsSafe (submit_spill_buffer a b) i (refill key value)
                    (submit-IsSafe a i b safe own) (unfold submit_spill_buffer in fits);
              kept = waiting-submit a i b (refill key value) e own.known;
            })
            | inr room ↦ rw room (
                in_place b e own (
                  (need_spill_iff own.valid (length key + length value)
                      (omega (arith, safe.small))).0
                    room))
          ]
      go (refill k v) e = tt
      go renew e = tt

  pub force_spill-Adds : Yields (Adds a i []) (force_spill a i)
  unfolding force_spill
  force_spill-Adds = rw (lt→ltb i a.max_n_partition known) (go (a.slots i) refl)
    where
      go :
          (s : Slot)
          → a.slots i ≡ s
          → Yields (Adds a i []) (elim s [
            | vacant ↦ ok a
            | active b ↦ ok (put_slot (submit_spill_buffer a b) i renew)
            | refill k v ↦ blocked
            | renew ↦ blocked
          ])
      go vacant e = record {
        safe = safe;
        kept = λ p. elim (Bool-cases (i == p)) [
          | inl t ↦ rw t (sym (append-nil (waiting a p)))
          | inr f ↦ rw f (sym (append-nil (waiting a p)))
        ];
      }
      go (active b) e =
          let own = subst (IsHeld a.dma_buffer_pool.bs i) e (safe.held i) in
          record {
            safe =
                put_slot-IsSafe (submit_spill_buffer a b) i renew (submit-IsSafe a i b safe own) tt;
            kept = waiting-submit a i b renew e own.known;
          }
      go (refill k v) e = tt
      go renew e = tt

-- What the loop of `acquire_one` gives: an empty buffer of the partition.
record Acquires (a : SpillAgent) (i : ℕ) (r : PartitionBuffer × SpillAgent) : Type 0 where
  safe : IsSafe r.1
  same_slots : r.1.slots ≡ a.slots
  same_queue : r.1.spill_q ≡ a.spill_q
  same_pieces : r.1.dma_buffer_pool.bs ≡ a.dma_buffer_pool.bs
  own : IsOwn r.1.dma_buffer_pool.bs i (r.0)
  blank : payload r.0 ≡ []
  fresh : r.0.header.length ≡ header_size

module _ {a : SpillAgent} (safe : IsSafe a) (i : ℕ) where
  acquire_one-Acquires : Yields (Acquires a i) (acquire_one a i)
  unfolding acquire_one borrow
  acquire_one-Acquires = let r = BufferPool.acquire_one a.dma_buffer_pool in go (r.0) (r.1) refl
    where
      go :
          (o : Option ℕ) (p : BufferPool)
          → BufferPool.acquire_one a.dma_buffer_pool ≡ (o, p)
          → Yields (Acquires a i) (borrow a i o p)
      go none p e = tt
      go (some j) p e =
          let (rest, here, e') = acquire_one-some a.dma_buffer_pool j p e in
          let known = subst (All (λ i. i < n_elements a.dma_buffer_pool.bs)) here safe.free in
          let wide = safe.laid.width j known.0 in
          let r = piece a.dma_buffer_pool.bs j in
          let made =
            partition_buffer-IsValid j r.len (λ k. a.dma_buffer_pool.mem (r.base + k)) i
              (omega (arith, wide, safe.room)) (omega (arith, wide, safe.small)) in
          rw e' (record {
            safe = record {
              laid = safe.laid;
              room = safe.room;
              small = safe.small;
              free = known.1;
              held = safe.held;
              queued = safe.queued;
              taken = safe.taken;
            };
            same_slots = refl;
            same_queue = refl;
            same_pieces = refl;
            own =
                unfold partition_buffer in
                record { valid = made.0; known = refl; whole = wide; piece_of = known.0 };
            blank = made.1;
            fresh = unfold partition_buffer in refl;
          })

  -- The call that waits for a buffer gets an empty one, and what it had to append fits into it.
  pub resume-Adds : Yields (Adds a i []) (resume a i)
  unfolding resume waiting
  resume-Adds = go (a.slots i) refl
    where
      filled :
          (r : PartitionBuffer × SpillAgent) (b' : PartitionBuffer) (new : List ℕ)
          → Acquires a i r
          → pending (a.slots i) ≡ new
          → IsOwn r.1.dma_buffer_pool.bs i b'
          → payload b' ≡ payload (r.0) ++ new
          → Adds a i [] (put_slot (r.1) i (active b'))
      filled r b' new got e own content = record {
        safe = put_slot-IsSafe (r.1) i (active b') got.safe own;
        kept = λ p.
            waiting-put_slot (r.1) i (active b') []
              (content
                ∙ ap (λ xs. xs ++ new) got.blank
                ∙ sym e
                ∙ ap (λ (s : ℕ → Slot). pending (s i)) (sym got.same_slots)
                ∙ sym (append-nil (pending (r.1.slots i))))
              p
            ∙ ap (λ xs. xs ++ extra i [] p)
                (ap₂ (λ (q : List PartitionBuffer) (s : ℕ → Slot). payloads p q ++ pending (s p))
                  got.same_queue got.same_slots);
      }

      with_record :
          (key value : List ℕ)
          → Fits a.dma_buffer_pool.bs key value
          → pending (a.slots i) ≡ key ++ value
          → (r : PartitionBuffer × SpillAgent) → Acquires a i r
          → Yields
              (Adds a i [])
              (append_record (r.0) key value >>= λ b'. ok (put_slot (r.1) i (active b')))
      with_record key value fits e r got =
          let whole = got.own.whole in
          let (b', run, step) =
            append_record-Appends key value got.own.valid
              (omega (arith, got.fresh, whole, ap (λ k. k.piece_len) got.same_pieces)) in
          rw run (filled r b' (key ++ value) got e (record-IsOwn got.own step) step.content)

      go :
          (s : Slot)
          → a.slots i ≡ s
          → Yields (Adds a i []) (elim s [
            | vacant ↦ blocked
            | active b ↦ blocked
            | refill key value ↦ acquire_one a i >>= λ x.
                append_record (x.0) key value >>= λ b'. ok (put_slot (x.1) i (active b'))
            | renew ↦ acquire_one a i >>= λ x. ok (put_slot (x.1) i (active (x.0)))
          ])
      go vacant e = tt
      go (active b) e = tt
      go (refill key value) e =
          Yields-bind (Acquires a i) (Adds a i []) (acquire_one a i) _ acquire_one-Acquires (
            with_record key value (subst (IsHeld a.dma_buffer_pool.bs i) e (safe.held i))
              (ap pending e))
      go renew e =
          Yields-bind (Acquires a i) (Adds a i []) (acquire_one a i) _ acquire_one-Acquires
            (λ r got.
              filled r (r.0) [] got (ap pending e) got.own (sym (append-nil (payload (r.0)))))

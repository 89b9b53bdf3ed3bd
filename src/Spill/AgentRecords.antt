-- ===== src/Spill/AgentRecords.antt =====
-- Histories of a spill agent from its start, and the records of each partition.
use dshuffle.Prelude.{
  ℕ, ◌≤◌, ◌<◌, ◌^◌, ◌≡◌, refl, sym, ap, ◌∙◌, true, inl, inr, Bool-cases, ltb, List, [], ◌++◌,
  append-nil, put, put_self, arith,
}
use dshuffle.Prelude.Outcome.{ok, Yields, Yields-map}
use dshuffle.Memory.BufferPool.{Buffers, n_elements, pool, enable_mt}
use dshuffle.Memory.Count.{All-count}
use dshuffle.Memory.Layout.{IsLaidOut}
use dshuffle.Memory.PoolHistory
use dshuffle.Memory.PoolHistory.{start-IsSafe, pool-bs}
use dshuffle.Spill.Buffer.{header_size}
use dshuffle.Spill.Agent.{
  Slot, vacant, active, refill, renew, SpillAgent, spill_agent, append_or_spill, force_spill,
  resume, swap, put_slot, submit_spill_buffer,
}
use dshuffle.Spill.AgentLaws.{payloads, pending, Fits, IsSafe, waiting, Adds}
use dshuffle.Spill.AgentCalls.{append_or_spill-Adds, force_spill-Adds, resume-Adds}
use dshuffle.Spill.AgentHistory.{World, Reach, IsSound, Reach-IsSound, swap-ok, forcing, taking}

abbrev pub start : ℕ → Buffers → (ℕ → ℕ) → World
start n bs mem = record { agent = spill_agent n bs mem; sent = []; appended = λ _. [] }

force_spill-pending :
    (a : SpillAgent) (i : ℕ) (a' : SpillAgent) → force_spill a i ≡ ok a' → pending (a'.slots i) ≡ []
unfolding force_spill
force_spill-pending a i a' run = elim (Bool-cases (ltb i a.max_n_partition)) [
  | inl t ↦ go (a.slots i) refl t
  | inr f ↦ absurd (ground arith)
]
  where
    go : (s : Slot) → a.slots i ≡ s → ltb i a.max_n_partition ≡ true → pending (a'.slots i) ≡ []
    go vacant e t =
        let same : a ≡ a' = ground arith in
        ap (λ (b : SpillAgent). pending (b.slots i)) (sym same) ∙ ap pending e
    go (active b) e t =
        let same : put_slot (submit_spill_buffer a b) i renew ≡ a' = ground arith in
        ap (λ (b : SpillAgent). pending (b.slots i)) (sym same)
        ∙ ap pending (put_self (submit_spill_buffer a b).slots i renew)
    go (refill key value) e t = absurd (ground arith)
    go renew e t = absurd (ground arith)

module _ (n : ℕ) (bs : Buffers) (mem : ℕ → ℕ) (laid : IsLaidOut bs)
    (room : header_size ≤ bs.piece_len) (small : bs.piece_len < 2 ^ 63) where
  start-IsSound : IsSound (start n bs mem)
  unfolding spill_agent enable_mt waiting
  start-IsSound =
      let pool_safe = start-IsSafe bs mem laid in
      let same = pool-bs bs mem in
      record {
        safe = record {
          laid = rw same laid;
          room = rw same room;
          small = rw same small;
          free =
              All-count (λ i. i < n_elements ((pool bs mem).bs)) ((pool bs mem).q)
                (λ i occurs. PoolHistory.owned-lt pool_safe i (omega arith));
          held = λ i. tt;
          queued = tt;
          taken = λ w. tt;
        };
        in_order = λ p. refl;
      }

  -- After any history of a spill agent that starts empty over well laid-out buffers of 16 bytes to
  -- 2^63, in which threads append records that fit into a buffer, force spills and wait for buffers
  -- while workers take the queue and finish buffers: for every partition, the bytes in the buffers
  -- given to the transport, in the queued ones and in the slot, one after the other, are the bytes
  -- of the records appended to it, in order.
  pub Reach-in_order :
      {w : World}
      → Reach (start n bs mem) w
      → (p : ℕ)
      → payloads p w.sent ++ (payloads p w.agent.spill_q ++ pending (w.agent.slots p))
        ≡ w.appended p
  unfolding waiting
  Reach-in_order r = (Reach-IsSound start-IsSound r).in_order

  -- After any such history of a spill agent: if force_spill of a partition returns and a worker then
  -- takes the queue, all bytes appended to that partition have been given to the transport, in
  -- order.
  pub force_spill-sends :
      {w : World} (i worker : ℕ) (a a' : SpillAgent)
      → Reach (start n bs mem) w
      → force_spill w.agent i ≡ ok a
      → swap a worker ≡ ok a'
      → payloads i (w.sent ++ a.spill_q) ≡ w.appended i
  force_spill-sends {w} i worker a a' r forced taken =
      let reached : Reach (start n bs mem) (record w { agent = a'; sent = w.sent ++ a.spill_q }) =
        Reach.next (Reach.next r (forcing w i a forced))
          (taking (record w { agent = a }) worker a' taken) in
      sym (append-nil (payloads i (w.sent ++ a.spill_q)))
      ∙ ap (λ xs. payloads i (w.sent ++ a.spill_q) ++ xs)
          (sym (left_over (swap-ok a worker a' taken)))
      ∙ Reach-in_order reached i
    where
      left_over :
          a' ≡ record a { spill_q = []; batches = put a.batches worker a.spill_q }
          → payloads i a'.spill_q ++ pending (a'.slots i) ≡ []
      left_over e = rw e (force_spill-pending w.agent i a forced)

  -- After any such history of a spill agent, for a known partition and a record that fits into a
  -- buffer, each of append_or_spill, force_spill and the rest of a waiting call returns with the
  -- agent safe, or waits; none fails or writes past a buffer.
  pub calls-IsSafe :
      {w : World} (i : ℕ) (key value : List ℕ)
      → Reach (start n bs mem) w
      → i < w.agent.max_n_partition
      → Fits w.agent.dma_buffer_pool.bs key value
      → Yields IsSafe (append_or_spill w.agent i key value)
        × Yields IsSafe (force_spill w.agent i)
        × Yields IsSafe (resume w.agent i)
  calls-IsSafe {w} i key value r known fits =
      let safe = (Reach-IsSound start-IsSound r).safe in
      (
        Yields-map (Adds w.agent i (key ++ value)) IsSafe _
            (append_or_spill-Adds safe i known key value fits) (λ a adds. adds.safe),
        Yields-map (Adds w.agent i []) IsSafe _ (force_spill-Adds safe i known)
            (λ a adds. adds.safe),
        Yields-map (Adds w.agent i []) IsSafe _ (resume-Adds safe i) (λ a adds. adds.safe),
      )

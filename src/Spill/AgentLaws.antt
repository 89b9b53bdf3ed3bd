-- ===== src/Spill/AgentLaws.antt =====
-- What a spill agent holds of each partition, and the state in which its buffers are in order.
use dshuffle.Prelude.{
  ℕ, ◌+◌, ◌≤◌, ◌<◌, ◌^◌, ◌≡◌, refl, sym, ap, subst, ◌∙◌, true, false, ◌==◌, if◌then◌else◌, List, [],
  ◌∷◌, ◌++◌, append-nil, append_assoc, length, put, put_self, put-ne, All, All-append, arith,
  ℕ_discrete,
}
use dshuffle.Memory.BufferPool.{Buffers, n_elements}
use dshuffle.Memory.Layout.{IsLaidOut}
use dshuffle.Spill.Buffer.{PartitionBuffer, header_size, payload}
use dshuffle.Spill.BufferLaws.{IsValid}
use dshuffle.Spill.Agent.{
  Slot, vacant, active, refill, renew, SpillAgent, submit_spill_buffer, put_slot,
}

-- The records of one partition in a sequence of buffers.
abbrev pub payloads : ℕ → List PartitionBuffer → List ℕ
payloads p [] = []
payloads p (b ∷ bs) = (if b.header.partition_id == p then payload b else []) ++ payloads p bs

pub payloads-append :
    (p : ℕ) (bs cs : List PartitionBuffer) → payloads p (bs ++ cs) ≡ payloads p bs ++ payloads p cs
payloads-append p [] cs = refl
payloads-append p (b ∷ bs) cs =
    let own = if b.header.partition_id == p then payload b else [] in
    ap (λ xs. own ++ xs) (payloads-append p bs cs)
    ∙ sym (append_assoc own (payloads p bs) (payloads p cs))

-- What a partition has not handed to the queue.
abbrev pub pending : Slot → List ℕ
pending vacant = []
pending (active b) = payload b
pending (refill key value) = key ++ value
pending renew = []

abbrev pub Fits : Buffers → List ℕ → List ℕ → Type 0
Fits p key value = header_size + (length key + length value) ≤ p.piece_len

-- A buffer that the agent fills for the partition.
pub record IsOwn (p : Buffers) (partition_id : ℕ) (b : PartitionBuffer) : Type 0 where
  pub valid : IsValid b
  pub known : b.header.partition_id ≡ partition_id
  pub whole : b.size ≡ p.piece_len
  pub piece_of : b.buffer < n_elements p

abbrev pub IsHeld : Buffers → ℕ → Slot → Type 0
IsHeld p i vacant = Unit
IsHeld p i (active b) = IsOwn p i b
IsHeld p i (refill key value) = Fits p key value
IsHeld p i renew = Unit

abbrev pub IsPiece : Buffers → PartitionBuffer → Type 0
IsPiece p b = b.buffer < n_elements p

pub record IsSafe (a : SpillAgent) : Type 0 where
  pub laid : IsLaidOut a.dma_buffer_pool.bs
  pub room : header_size ≤ a.dma_buffer_pool.bs.piece_len
  pub small : a.dma_buffer_pool.bs.piece_len < 2 ^ 63
  pub free : All (λ i. i < n_elements a.dma_buffer_pool.bs) a.dma_buffer_pool.q
  pub held : (i : ℕ) → IsHeld a.dma_buffer_pool.bs i (a.slots i)
  pub queued : All (IsPiece a.dma_buffer_pool.bs) a.spill_q
  pub taken : (w : ℕ) → All (IsPiece a.dma_buffer_pool.bs) (a.batches w)

-- What waits in the agent for one partition.
unfoldable pub waiting : SpillAgent → ℕ → List ℕ
waiting a p = payloads p a.spill_q ++ pending (a.slots p)

-- A change of one slot keeps the agent safe.
pub put_slot-IsSafe :
    (a : SpillAgent) (i : ℕ) (s : Slot)
    → IsSafe a
    → IsHeld a.dma_buffer_pool.bs i s
    → IsSafe (put_slot a i s)
put_slot-IsSafe a i s safe h = record {
  laid = safe.laid;
  room = safe.room;
  small = safe.small;
  free = safe.free;
  held = λ j. elim (ℕ_discrete i j) [
    | yes e ↦
        subst (λ k. IsHeld a.dma_buffer_pool.bs k (put a.slots i s k)) e
          (rw (put_self a.slots i s) h)
    | no ne ↦ rw (put-ne a.slots s ne) (safe.held j)
  ];
  queued = safe.queued;
  taken = safe.taken;
}

pub submit-IsSafe :
    (a : SpillAgent) (i : ℕ) (b : PartitionBuffer)
    → IsSafe a
    → IsOwn a.dma_buffer_pool.bs i b
    → IsSafe (submit_spill_buffer a b)
unfolding submit_spill_buffer
submit-IsSafe a i b safe own = record {
  laid = safe.laid;
  room = safe.room;
  small = safe.small;
  free = safe.free;
  held = safe.held;
  queued =
      All-append (IsPiece a.dma_buffer_pool.bs) a.spill_q (b ∷ []) safe.queued (own.piece_of, tt);
  taken = safe.taken;
}

-- The records of partition `p` after a call that adds `new` to partition `i`.
abbrev pub extra : ℕ → List ℕ → ℕ → List ℕ
extra i new p = if i == p then new else []

pub record Adds (a : SpillAgent) (i : ℕ) (new : List ℕ) (a' : SpillAgent) : Type 0 where
  pub safe : IsSafe a'
  pub kept : (p : ℕ) → waiting a' p ≡ waiting a p ++ extra i new p

pub waiting-put_slot :
    (a : SpillAgent) (i : ℕ) (s : Slot) (new : List ℕ)
    → pending s ≡ pending (a.slots i) ++ new
    → (p : ℕ) → waiting (put_slot a i s) p ≡ waiting a p ++ extra i new p
unfolding waiting
waiting-put_slot a i s new e p = elim (ℕ_discrete i p) [
  | yes same ↦
      let there : (i == p) ≡ true = ground arith in
      rw there (
        ap (λ xs. payloads p a.spill_q ++ xs) (e ∙ ap (λ k. pending (a.slots k) ++ new) same)
        ∙ sym (append_assoc (payloads p a.spill_q) (pending (a.slots p)) new))
  | no other ↦
      let elsewhere : (i == p) ≡ false = ground arith in
      rw elsewhere (sym (append-nil (payloads p a.spill_q ++ pending (a.slots p))))
]

-- A full buffer moves from its slot to the queue.
pub waiting-submit :
    (a : SpillAgent) (i : ℕ) (b : PartitionBuffer) (s : Slot)
    → a.slots i ≡ active b
    → b.header.partition_id ≡ i
    → (p : ℕ)
    → waiting (put_slot (submit_spill_buffer a b) i s) p ≡ waiting a p ++ extra i (pending s) p
unfolding waiting submit_spill_buffer
waiting-submit a i b s e own p = elim (ℕ_discrete i p) [
  | yes same ↦
      let there : (i == p) ≡ true = ground arith in
      let mine : (b.header.partition_id == p) ≡ true = ground arith in
      let here : pending (a.slots p) ≡ payload b =
        ap (λ k. pending (a.slots k)) (sym same) ∙ ap pending e in
      rw (payloads-append p a.spill_q (b ∷ []), there, mine, here, append-nil (payload b)) refl
  | no other ↦
      let elsewhere : (i == p) ≡ false = ground arith in
      let foreign : (b.header.partition_id == p) ≡ false = ground arith in
      rw (payloads-append p a.spill_q (b ∷ []), elsewhere, foreign)
        (ap (λ xs. xs ++ pending (a.slots p)) (append-nil (payloads p a.spill_q))
          ∙ sym (append-nil (payloads p a.spill_q ++ pending (a.slots p))))
]

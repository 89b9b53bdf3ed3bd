-- ===== src/Spill/AgentHistory.antt =====
-- Every history of a spill agent: threads that append and spill, and workers that send the buffers.
use dshuffle.Prelude.{
  ℕ, ◌<◌, ◌≡◌, refl, sym, ap, subst, ◌∙◌, true, false, inl, inr, Bool-cases, ltb, ◌==◌, List, [],
  ◌∷◌, ◌++◌, append-nil, append_assoc, put, put_self, put-ne, All, All-append, arith, ℕ_discrete,
}
use dshuffle.Prelude.Outcome.{ok, Yields}
use dshuffle.Memory.BufferPool.{Buffers, piece, n_elements, reset}
use dshuffle.Memory.PoolHistory.{release_one_lem}
use dshuffle.Spill.Buffer.{PartitionBuffer, total_size}
use dshuffle.Spill.Agent.{SpillAgent, append_or_spill, force_spill, resume, swap, complete}
use dshuffle.Spill.AgentLaws.{
  payloads, payloads-append, pending, Fits, IsPiece, IsSafe, waiting, extra, Adds,
}
use dshuffle.Spill.AgentCalls.{append_or_spill-Adds, force_spill-Adds, resume-Adds}

-- The agent, the buffers that workers have given to the transport so far, and the bytes of the records
-- that were appended to each partition so far.
pub record World : Type 0 where
  pub agent : SpillAgent
  pub sent : List PartitionBuffer
  pub appended : ℕ → List ℕ

pub data Step : World → World → Type 0 where
  appending :
      (w : World) (i : ℕ) (key value : List ℕ) (a : SpillAgent)
      → Fits w.agent.dma_buffer_pool.bs key value
      → append_or_spill w.agent i key value ≡ ok a
      → Step w
          (record w { agent = a; appended = put w.appended i (w.appended i ++ (key ++ value)) })
  forcing :
      (w : World) (i : ℕ) (a : SpillAgent)
      → force_spill w.agent i ≡ ok a
      → Step w (record w { agent = a })
  resuming :
      (w : World) (i : ℕ) (a : SpillAgent)
      → resume w.agent i ≡ ok a
      → Step w (record w { agent = a })
  taking :
      (w : World) (worker : ℕ) (a : SpillAgent)
      → swap w.agent worker ≡ ok a
      → Step w (record w { agent = a; sent = w.sent ++ w.agent.spill_q })
  finishing :
      (w : World) (worker size : ℕ) (a : SpillAgent)
      → complete w.agent worker size ≡ ok a
      → Step w (record w { agent = a })

pub data Reach (s : World) : World → Type 0 where
  here : Reach s s
  next : {t u : World} → Reach s t → Step t u → Reach s u

pub record IsSound (w : World) : Type 0 where
  pub safe : IsSafe w.agent
  pub in_order : (p : ℕ) → payloads p w.sent ++ waiting w.agent p ≡ w.appended p

-- What a call that adds `new` to partition `i` does to the records in order.
Adds-in_order :
    (w : World) (i : ℕ) (new : List ℕ) (a : SpillAgent)
    → IsSound w
    → Adds w.agent i new a
    → (p : ℕ) → payloads p w.sent ++ waiting a p ≡ w.appended p ++ extra i new p
Adds-in_order w i new a sound adds p =
    ap (λ xs. payloads p w.sent ++ xs) (adds.kept p)
    ∙ sym (append_assoc (payloads p w.sent) (waiting w.agent p) (extra i new p))
    ∙ ap (λ xs. xs ++ extra i new p) (sound.in_order p)

Adds-nil :
    (w : World) (i : ℕ) (a : SpillAgent)
    → IsSound w
    → Adds w.agent i [] a
    → IsSound (record w { agent = a })
Adds-nil w i a sound adds = record {
  safe = adds.safe;
  in_order = λ p. Adds-in_order w i [] a sound adds p ∙ nothing p;
}
  where
    nothing : (p : ℕ) → w.appended p ++ extra i [] p ≡ w.appended p
    nothing p = elim (Bool-cases (i == p)) [
      | inl t ↦ rw t (append-nil (w.appended p))
      | inr f ↦ rw f (append-nil (w.appended p))
    ]

put-extra :
    (f : ℕ → List ℕ) (i : ℕ) (new : List ℕ) (p : ℕ) → f p ++ extra i new p ≡ put f i (f i ++ new) p
put-extra f i new p = elim (ℕ_discrete i p) [
  | yes same ↦
      let there : (i == p) ≡ true = ground arith in rw there (ap (λ k. f k ++ new) (sym same))
  | no other ↦ let elsewhere : (i == p) ≡ false = ground arith in rw elsewhere (append-nil (f p))
]

-- A worker takes the whole queue, or waits.
pub swap-ok :
    (a : SpillAgent) (w : ℕ) (a' : SpillAgent)
    → swap a w ≡ ok a'
    → a' ≡ record a { spill_q = []; batches = put a.batches w a.spill_q }
unfolding swap
swap-ok a w a' run = go (a.batches w) a.spill_q refl refl
  where
    go :
        (bs qs : List PartitionBuffer)
        → a.batches w ≡ bs
        → a.spill_q ≡ qs
        → a' ≡ record a { spill_q = []; batches = put a.batches w a.spill_q }
    go (b ∷ bs) qs e e' = absurd (ground arith)
    go [] [] e e' = absurd (ground arith)
    go [] (q ∷ qs) e e' = ground arith

-- The buffers of a batch are pieces of the pool, whichever batch was written last.
taken-put :
    (p : Buffers) (batches : ℕ → List PartitionBuffer) (w : ℕ) (bs : List PartitionBuffer)
    → ((v : ℕ) → All (IsPiece p) (batches v))
    → All (IsPiece p) bs
    → (v : ℕ) → All (IsPiece p) (put batches w bs v)
taken-put p batches w bs old new v = elim (ℕ_discrete w v) [
  | yes e ↦ subst (λ k. All (IsPiece p) (put batches w bs k)) e (rw (put_self batches w bs) new)
  | no ne ↦ rw (put-ne batches bs ne) (old v)
]

-- A worker takes the queue and gives its buffers to the transport.
taking-IsSound :
    (w : World) (worker : ℕ) (a : SpillAgent)
    → swap w.agent worker ≡ ok a
    → IsSound w
    → IsSound (record w { agent = a; sent = w.sent ++ w.agent.spill_q })
unfolding waiting
taking-IsSound w worker a run sound =
    let safe = sound.safe in
    rw (swap-ok w.agent worker a run) (record {
      safe = record {
        laid = safe.laid;
        room = safe.room;
        small = safe.small;
        free = safe.free;
        held = safe.held;
        queued = tt;
        taken =
            taken-put w.agent.dma_buffer_pool.bs w.agent.batches worker w.agent.spill_q safe.taken
              safe.queued;
      };
      in_order = λ p.
          ap (λ xs. xs ++ pending (w.agent.slots p)) (payloads-append p w.sent w.agent.spill_q)
          ∙ append_assoc (payloads p w.sent) (payloads p w.agent.spill_q)
              (pending (w.agent.slots p))
          ∙ sound.in_order p;
    })

-- A batch goes on only with the size of the whole buffer, which is then released.
complete-ok :
    (a : SpillAgent) (w size : ℕ) (a' : SpillAgent)
    → IsSafe a
    → complete a w size ≡ ok a'
    → (b : PartitionBuffer) × (bs : List PartitionBuffer) × (a.batches w ≡ b ∷ bs)
      × (size ≡ total_size b)
      × (a' ≡ record a {
        dma_buffer_pool = record (a.dma_buffer_pool) {
          mem = reset (piece a.dma_buffer_pool.bs b.buffer) a.dma_buffer_pool.mem;
          q = a.dma_buffer_pool.q ++ b.buffer ∷ [];
        };
        batches = put a.batches w bs;
      })
unfolding complete
complete-ok a w size a' safe run = go (a.batches w) refl
  where
    Result : Type 0
    Result =
        (b : PartitionBuffer) × (bs : List PartitionBuffer) × (a.batches w ≡ b ∷ bs)
        × (size ≡ total_size b)
        × (a' ≡ record a {
          dma_buffer_pool = record (a.dma_buffer_pool) {
            mem = reset (piece a.dma_buffer_pool.bs b.buffer) a.dma_buffer_pool.mem;
            q = a.dma_buffer_pool.q ++ b.buffer ∷ [];
          };
          batches = put a.batches w bs;
        })

    go : (bs : List PartitionBuffer) → a.batches w ≡ bs → Result
    go [] e = absurd (ground arith)
    go (b ∷ bs) e =
        let known = subst (All (IsPiece a.dma_buffer_pool.bs)) e (safe.taken w) in
        let released = release_one_lem a.dma_buffer_pool b.buffer safe.laid known.0 in
        elim (Bool-cases (size == total_size b)) [
          | inl same ↦ (b, bs, e, ground arith, ground (arith, released))
          | inr other ↦ absurd (ground arith)
        ]

finishing-IsSound :
    (w : World) (worker size : ℕ) (a : SpillAgent)
    → complete w.agent worker size ≡ ok a
    → IsSound w
    → IsSound (record w { agent = a })
unfolding waiting
finishing-IsSound w worker size a run sound =
    let safe = sound.safe in
    let (b, bs, e, _, e') = complete-ok w.agent worker size a safe run in
    let known = subst (All (IsPiece w.agent.dma_buffer_pool.bs)) e (safe.taken worker) in
    rw e' (record {
      safe = record {
        laid = safe.laid;
        room = safe.room;
        small = safe.small;
        free =
            All-append (λ i. i < n_elements w.agent.dma_buffer_pool.bs) w.agent.dma_buffer_pool.q
              (b.buffer ∷ []) safe.free (known.0, tt);
        held = safe.held;
        queued = safe.queued;
        taken = taken-put w.agent.dma_buffer_pool.bs w.agent.batches worker bs safe.taken known.1;
      };
      in_order = sound.in_order;
    })

appending-known :
    (a : SpillAgent) (i : ℕ) (key value : List ℕ) (a' : SpillAgent)
    → append_or_spill a i key value ≡ ok a'
    → i < a.max_n_partition
unfolding append_or_spill
appending-known a i key value a' run = elim (Bool-cases (ltb i a.max_n_partition)) [
  | inl t ↦ ground arith
  | inr f ↦ absurd (ground arith)
]

forcing-known :
    (a : SpillAgent) (i : ℕ) (a' : SpillAgent) → force_spill a i ≡ ok a' → i < a.max_n_partition
unfolding force_spill
forcing-known a i a' run = elim (Bool-cases (ltb i a.max_n_partition)) [
  | inl t ↦ ground arith
  | inr f ↦ absurd (ground arith)
]

Step-IsSound : {w v : World} → Step w v → IsSound w → IsSound v
Step-IsSound (appending w i key value a fits run) sound =
    let adds = subst (Yields (Adds w.agent i (key ++ value))) run (
      append_or_spill-Adds sound.safe i (appending-known w.agent i key value a run) key value
        fits) in
    record {
      safe = adds.safe;
      in_order = λ p.
          Adds-in_order w i (key ++ value) a sound adds p ∙ put-extra w.appended i (key ++ value) p;
    }
Step-IsSound (forcing w i a run) sound = Adds-nil w i a sound (
    subst (Yields (Adds w.agent i [])) run
      (force_spill-Adds sound.safe i (forcing-known w.agent i a run)))
Step-IsSound (resuming w i a run) sound =
    Adds-nil w i a sound (subst (Yields (Adds w.agent i [])) run (resume-Adds sound.safe i))
Step-IsSound (taking w worker a run) sound = taking-IsSound w worker a run sound
Step-IsSound (finishing w worker size a run) sound = finishing-IsSound w worker size a run sound

pub Reach-IsSound : {w v : World} → IsSound w → Reach w v → IsSound v
Reach-IsSound sound here = sound
Reach-IsSound sound (next r s) = Step-IsSound s (Reach-IsSound sound r)

-- ===== src/Memory/PoolHistory.antt =====
-- Every history of a buffer pool and its clients: who owns which buffer, and what the free ones hold.
use dshuffle.Prelude.{
  ℕ, zero, suc, ◌+◌, ◌<◌, ◌≡◌, refl, ap, ◌∙◌, true, false, ltb, leb, if◌then◌else◌, List, [], ◌∷◌,
  ◌++◌, none, some, arith, length, length-append, inl, inr, ◌&&◌, sym, Bool-cases, subst,
  ℕ_discrete,
}
use dshuffle.Prelude.Outcome.{ok}
use dshuffle.Memory.Region.{MemoryRegion, In}
use dshuffle.Memory.BufferPool.{
  Buffers, piece, n_elements, reset, BufferPool, pool, enqueue_all, acquire_one, release_one,
  belongs,
}
use dshuffle.Memory.Count.{count, remove, count-append, count-remove, length-remove}
use dshuffle.Memory.Layout.{IsLaidOut, stride, pieces_apart}

-- The pool and the buffers that its clients hold.
pub record World : Type 0 where
  pub pool : BufferPool
  pub lent : List ℕ

-- One call of a client, or a write of one into a buffer that it holds.
pub data Step : World → World → Type 0 where
  acquire :
      (w : World) (i : ℕ) (p : BufferPool)
      → acquire_one w.pool ≡ (some i, p)
      → Step w (record { pool = p; lent = i ∷ w.lent })
  refused :
      (w : World) (p : BufferPool)
      → acquire_one w.pool ≡ (none, p)
      → Step w (record { pool = p; lent = w.lent })
  write :
      (w : World) (i : ℕ) (mem : ℕ → ℕ)
      → 0 < count i w.lent
      → ((a : ℕ) → ¬ In a (piece w.pool.bs i) → mem a ≡ w.pool.mem a)
      → Step w (record { pool = record (w.pool) { mem = mem }; lent = w.lent })
  release :
      (w : World) (i : ℕ) (p : BufferPool)
      → 0 < count i w.lent
      → release_one w.pool i ≡ ok p
      → Step w (record { pool = p; lent = remove i w.lent })

pub data Reach (s : World) : World → Type 0 where
  here : Reach s s
  next : {t u : World} → Reach s t → Step t u → Reach s u

-- Each buffer is free or lent, once; the free ones are all zero.
pub record IsSafe (w : World) : Type 0 where
  pub laid : IsLaidOut w.pool.bs
  pub owned :
      (i : ℕ) → count i w.pool.q + count i w.lent ≡ (if ltb i (n_elements w.pool.bs) then 1 else 0)
  pub total : length w.pool.q + length w.lent ≡ n_elements w.pool.bs
  pub clean : (i a : ℕ) → 0 < count i w.pool.q → In a (piece w.pool.bs i) → w.pool.mem a ≡ 0

-- What `reset` leaves.
reset_inside : (r : MemoryRegion) (mem : ℕ → ℕ) (a : ℕ) → 0 < r.base → In a r → reset r mem a ≡ 0
unfolding reset
reset_inside r mem a nonzero inside = ground arith

reset_outside : (r : MemoryRegion) (mem : ℕ → ℕ) (a : ℕ) → ¬ In a r → reset r mem a ≡ mem a
unfolding reset
reset_outside r mem a outside = elim (Bool-cases (leb r.base a && ltb a (r.base + r.len))) [
  | inl t ↦ absurd (outside (ground arith))
  | inr f ↦ ground arith
]

-- The oldest free buffer is handed out, and none only if none is free.
pub acquire_one-some :
    (p : BufferPool) (i : ℕ) (p' : BufferPool)
    → acquire_one p ≡ (some i, p')
    → (rest : List ℕ) × (p.q ≡ i ∷ rest) × (p' ≡ record p { q = rest })
unfolding acquire_one
acquire_one-some p i p' run = go p.q refl
  where
    go : (q : List ℕ) → p.q ≡ q → (rest : List ℕ) × (p.q ≡ i ∷ rest) × (p' ≡ record p { q = rest })
    go [] e = absurd (ground arith)
    go (x ∷ rest) e = (rest, ground arith, ground arith)

acquire-IsSafe :
    (w : World) (i : ℕ) (p : BufferPool)
    → acquire_one w.pool ≡ (some i, p)
    → IsSafe w
    → IsSafe (record { pool = p; lent = i ∷ w.lent })
acquire-IsSafe w i p run safe =
    let (rest, e, e') = acquire_one-some w.pool i p run in
    rw e' (record {
      laid = safe.laid;
      owned = λ j. omega (arith, ap (count j) e, safe.owned j);
      total = omega (arith, ap length e, safe.total);
      clean = λ j a h. safe.clean j a (omega (arith, ap (count j) e));
    })

pub acquire_one-none : (p p' : BufferPool) → acquire_one p ≡ (none, p') → (p.q ≡ []) × (p' ≡ p)
unfolding acquire_one
acquire_one-none p p' run = go p.q refl
  where
    go : (q : List ℕ) → p.q ≡ q → (p.q ≡ []) × (p' ≡ p)
    go [] e = ground arith
    go (x ∷ rest) e = absurd (ground arith)

belongs-IsLaidOut :
    (p : BufferPool) (i : ℕ) → IsLaidOut p.bs → i < n_elements p.bs → belongs p i ≡ true
belongs-IsLaidOut p i laid h =
    ground (arith, laid.place i h, laid.width i h, stride p.bs.piece_len i (n_elements p.bs) h)

-- A released buffer is wiped and goes to the end of the queue.
pub release_one_lem :
    (p : BufferPool) (i : ℕ)
    → IsLaidOut p.bs
    → i < n_elements p.bs
    → release_one p i ≡ ok (record p { mem = reset (piece p.bs i) p.mem; q = p.q ++ i ∷ [] })
unfolding release_one
release_one_lem p i laid h = rw (belongs-IsLaidOut p i laid h)

pub owned-lt :
    {w : World}
    → IsSafe w
    → (i : ℕ) → 0 < count i w.pool.q + count i w.lent
    → i < n_elements w.pool.bs
owned-lt safe i h = let own = safe.owned i in ground (arith, own)

write-IsSafe :
    (w : World) (i : ℕ) (mem : ℕ → ℕ)
    → 0 < count i w.lent
    → ((a : ℕ) → ¬ In a (piece w.pool.bs i) → mem a ≡ w.pool.mem a)
    → IsSafe w
    → IsSafe (record { pool = record (w.pool) { mem = mem }; lent = w.lent })
write-IsSafe w i mem held only safe = record {
  laid = safe.laid;
  owned = safe.owned;
  total = safe.total;
  clean = λ j a h inside.
      only a (λ there.
        pieces_apart i j a safe.laid (owned-lt safe i (omega arith)) (owned-lt safe j (omega arith))
          (λ e. ground (arith, safe.owned j, ap (λ k. count k w.lent) e)) there inside)
      ∙ safe.clean j a h inside;
}

release-IsSafe :
    (w : World) (i : ℕ) (p : BufferPool)
    → 0 < count i w.lent
    → release_one w.pool i ≡ ok p
    → IsSafe w
    → IsSafe (record { pool = p; lent = remove i w.lent })
release-IsSafe w i p held run safe =
    let bound = owned-lt safe i (omega arith) in
    let e : p
        ≡ record (w.pool) { mem = reset (piece w.pool.bs i) w.pool.mem; q = w.pool.q ++ i ∷ [] } =
      cc (release_one_lem w.pool i safe.laid bound) in
    let nonzero : 0 < (piece w.pool.bs i).base = omega (arith, safe.laid.place i bound) in
    rw e (record {
      laid = safe.laid;
      owned = λ j.
          ground
            (arith, count-append j w.pool.q (i ∷ []), count-remove i j w.lent held, safe.owned j);
      total =
          omega (arith, length-append w.pool.q (i ∷ []), length-remove i w.lent held, safe.total);
      clean = λ j a h inside. elim (ℕ_discrete i j) [
        | yes same ↦
            reset_inside (piece w.pool.bs i) w.pool.mem a nonzero
              (subst (λ k. In a (piece w.pool.bs k)) (sym same) inside)
        | no other ↦
            let free : 0 < count j w.pool.q = ground (arith, count-append j w.pool.q (i ∷ [])) in
            reset_outside (piece w.pool.bs i) w.pool.mem a (λ there.
              pieces_apart i j a safe.laid bound (owned-lt safe j (omega arith)) other there inside)
            ∙ safe.clean j a free inside
      ];
    })

-- The constructor has queued and wiped the buffers below `i`.
record IsFilled (i : ℕ) (p : BufferPool) : Type 0 where
  laid : IsLaidOut p.bs
  counted : (j : ℕ) → count j p.q ≡ (if ltb j i then 1 else 0)
  total : length p.q ≡ i
  clean : (j a : ℕ) → j < i → In a (piece p.bs j) → p.mem a ≡ 0

enqueue-IsFilled :
    (i : ℕ) (p : BufferPool)
    → i < n_elements p.bs
    → IsFilled i p
    → IsFilled (i + 1) (record p { mem = reset (piece p.bs i) p.mem; q = p.q ++ i ∷ [] })
enqueue-IsFilled i p h f = record {
  laid = f.laid;
  counted = λ j. ground (arith, count-append j p.q (i ∷ []), f.counted j);
  total = omega (arith, length-append p.q (i ∷ []), f.total);
  clean = λ j a lt inside. elim (ℕ_discrete i j) [
    | yes same ↦
        reset_inside (piece p.bs i) p.mem a (omega (arith, f.laid.place i h, f.laid.nonzero))
          (subst (λ k. In a (piece p.bs k)) (sym same) inside)
    | no other ↦
        let before : j < i = omega arith in
        reset_outside (piece p.bs i) p.mem a
          (λ there. pieces_apart i j a f.laid h (omega arith) other there inside)
        ∙ f.clean j a before inside
  ];
}

enqueue_all-IsFilled :
    (n i k : ℕ) (p : BufferPool)
    → i + n ≡ k
    → k ≡ n_elements p.bs
    → IsFilled i p
    → IsFilled k (enqueue_all n i p) × ((enqueue_all n i p).bs ≡ p.bs)
unfolding enqueue_all
enqueue_all-IsFilled zero i k p e whole f = (let e' : i ≡ k = omega arith in rw (← e') f, refl)
enqueue_all-IsFilled (suc n) i k p e whole f =
    enqueue_all-IsFilled n (i + 1) k _ (omega arith) whole (enqueue-IsFilled i p (omega arith) f)

enqueue_all-bs : (n i : ℕ) (p : BufferPool) → (enqueue_all n i p).bs ≡ p.bs
unfolding enqueue_all
enqueue_all-bs zero i p = refl
enqueue_all-bs (suc n) i p = enqueue_all-bs n (i + 1) _

pub pool-bs : (bs : Buffers) (mem : ℕ → ℕ) → (pool bs mem).bs ≡ bs
unfolding pool
pool-bs bs mem = enqueue_all-bs (n_elements bs) 0 _

abbrev pub start : Buffers → (ℕ → ℕ) → World
start bs mem = record { pool = pool bs mem; lent = [] }

pub start-IsSafe : (bs : Buffers) (mem : ℕ → ℕ) → IsLaidOut bs → IsSafe (start bs mem)
unfolding pool
start-IsSafe bs mem laid =
    let (f, same) =
      enqueue_all-IsFilled (n_elements bs) 0 (n_elements bs)
        (record { bs = bs; q = []; mt = false; mem = mem }) (omega arith) refl
        (record {
          laid = laid;
          counted = λ j. ground arith;
          total = refl;
          clean = λ j a lt. elim lt [ ];
        }) in
    record {
      laid = f.laid;
      owned = λ j.
          omega
            (arith, f.counted j, ap {B = ℕ} (λ b. (if ltb j (n_elements b) then 1 else 0)) same);
      total = omega (arith, f.total, ap n_elements same);
      clean = λ j a h. f.clean j a (ground (arith, f.counted j));
    }

-- Every call and every write of a client into its own buffer keeps the pool safe.
pub Step-IsSafe : {w v : World} → Step w v → IsSafe w → IsSafe v
Step-IsSafe (acquire w i p run) safe = acquire-IsSafe w i p run safe
Step-IsSafe (refused w p run) safe = rw ((acquire_one-none w.pool p run).1) safe
Step-IsSafe (write w i mem held only) safe = write-IsSafe w i mem held only safe
Step-IsSafe (release w i p held run) safe = release-IsSafe w i p held run safe

Reach-IsSafe : {w v : World} → IsSafe w → Reach w v → IsSafe v
Reach-IsSafe safe here = safe
Reach-IsSafe safe (next r s) = Step-IsSafe s (Reach-IsSafe safe r)

-- After any history of a pool over well laid-out buffers, in which clients acquire, release what
-- they hold and write into what they hold: a buffer that acquire_one hands out is in range, is held
-- by no client and is all zero; and acquire_one hands out none only if the clients hold all the
-- buffers.
pub acquire_one-Reach :
    (bs : Buffers) (mem : ℕ → ℕ) {w : World}
    → IsLaidOut bs
    → Reach (start bs mem) w
    → ((i : ℕ) (p : BufferPool)
        → acquire_one w.pool ≡ (some i, p)
        → (i < n_elements w.pool.bs)
          × (count i w.lent ≡ 0)
          × ((a : ℕ) → In a (piece w.pool.bs i) → p.mem a ≡ 0))
      × ((p : BufferPool) → acquire_one w.pool ≡ (none, p) → length w.lent ≡ n_elements w.pool.bs)
acquire_one-Reach bs mem {w} laid r =
    let safe = Reach-IsSafe (start-IsSafe bs mem laid) r in
    (
      (λ i p run.
          let (rest, e, e') = acquire_one-some w.pool i p run in
          let free : 0 < count i w.pool.q = ground (arith, ap (count i) e) in
          (
            owned-lt safe i (omega arith),
            ground (arith, safe.owned i),
            λ a inside. ap (λ (p : BufferPool). p.mem a) e' ∙ safe.clean i a free inside,
          )),
      (λ p run.
          let (e, _) = acquire_one-none w.pool p run in omega (arith, ap length e, safe.total)),
    )

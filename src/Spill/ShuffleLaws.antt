-- ===== src/Spill/ShuffleLaws.antt =====
-- What the dispatcher does with the first tasks of its queues, and what becomes of a remote partition.
use dshuffle.Prelude.{
  ℕ, zero, suc, ◌+◌, ◌-◌, ◌%◌, ◌^◌, ◌<◌, ◌≤◌, ◌≡◌, refl, sym, ap, ◌∙◌, ◌==◌, Bool, false,
  Bool-cases, inl, inr, not, if◌then◌else◌, List, [], ◌∷◌, ◌++◌, append-nil, append_assoc, Option,
  none, some, length, length-append, get_or, arith,
}
use dshuffle.Prelude.Outcome.{ok, died}
use dshuffle.Memory.BufferPool.{BufferPool}
use dshuffle.Memory.BufferPool
use dshuffle.Spill.Buffer.{PartitionBuffer, header_size, actual_size, total_size}
use dshuffle.Spill.BufferLaws.{IsValid}
use dshuffle.Spill.Requests.{begin_request, fetch, end_request}
use dshuffle.Spill.Shuffle.{
  sent, handle_spill_task, Dispatcher, push_at, push_remote, push_disk, dispatch,
}

fetch-died :
    (b : PartitionBuffer) (n : ℕ) (o : Option ℕ) (p : BufferPool)
    → (total_size b == n) ≡ false
    → fetch b n o p ≡ died
unfolding fetch
fetch-died b n none p other = refl
fetch-died b n (some i) p other = rw other

-- If handle_spill_task sends a valid partition buffer to another machine, the number of bytes it
-- reports makes the request that waits for the task die, and the same number read by the receiving
-- spill worker makes its request die, whatever buffer it acquires.
pub handle_spill_task-remote :
    (fn : ℕ → Bool) (task : PartitionBuffer) (n_bulk n : ℕ)
    → IsValid task
    → handle_spill_task fn task n_bulk ≡ ok (sent n)
    → ((p : BufferPool) (i n_read : ℕ) → end_request p i task n_read n ≡ died)
      × ((p : BufferPool) → begin_request p task n ≡ died)
unfolding handle_spill_task end_request begin_request actual_size total_size
handle_spill_task-remote fn task n_bulk n valid run =
    let counted = valid.counted in
    let short : n ≡ task.header.length - header_size = short_of in
    let other : (n == task.header.length) ≡ false = ground arith in
    let other' : (task.header.length == n) ≡ false = ground arith in
    (
      (λ p i n_read. rw other),
      λ p. let r = BufferPool.acquire_one p in fetch-died task n (r.0) (r.1) other',
    )
  where
    short_of : n ≡ task.header.length - header_size
    short_of = elim (Bool-cases (fn task.header.partition_id)) [
      | inl t ↦ elim (Bool-cases (n_bulk == task.header.length - header_size)) [
        | inl t' ↦ ground arith
        | inr f' ↦ absurd (ground arith)
      ]
      | inr f ↦ absurd (ground arith)
    ]

-- The first task of each queue, and the queues without it.
abbrev pub heads : List (List ℕ) → List ℕ
heads [] = []
heads ([] ∷ qs) = heads qs
heads ((t ∷ q) ∷ qs) = t ∷ heads qs

abbrev pub tails : List (List ℕ) → List (List ℕ)
tails [] = []
tails ([] ∷ qs) = [] ∷ tails qs
tails ((t ∷ q) ∷ qs) = q ∷ tails qs

abbrev pub those : (ℕ → Bool) → List ℕ → List ℕ
those test [] = []
those test (x ∷ xs) = if test x then x ∷ those test xs else those test xs

-- What the queue `j` of `n` gets of the tasks: the one with the number `k` goes to the queue that `i + k`
-- counts to in 32 bits.
abbrev pub share : ℕ → ℕ → ℕ → List ℕ → List ℕ
share n j i [] = []
share n j i (t ∷ ts) =
    if (i + 1) % 2 ^ 32 % n == j then t ∷ share n j (i + 1) ts else share n j (i + 1) ts

share-append :
    (n j i : ℕ) (ts us : List ℕ)
    → share n j i (ts ++ us) ≡ share n j i ts ++ share n j (i + length ts) us
share-append n j i [] us = let l : i ≡ i + 0 = omega arith in ap (λ k. share n j k us) l
share-append n j i (t ∷ ts) us =
    let l : i + 1 + length ts ≡ i + suc (length ts) = omega arith in
    let rest =
      share-append n j (i + 1) ts us ∙ ap (λ k. share n j (i + 1) ts ++ share n j k us) l in
    elim (Bool-cases ((i + 1) % 2 ^ 32 % n == j)) [
      | inl mine ↦ rw mine (ap (λ ys. t ∷ ys) rest)
      | inr other ↦ rw other rest
    ]

-- The index counts in 32 bits.
share-wraps :
    (n j i k : ℕ) (ts : List ℕ) → i % 2 ^ 32 ≡ k % 2 ^ 32 → share n j i ts ≡ share n j k ts
share-wraps n j i k [] e = refl
share-wraps n j i k (t ∷ ts) e =
    let next : (i + 1) % 2 ^ 32 ≡ (k + 1) % 2 ^ 32 = omega (arith, e) in
    let rest = share-wraps n j (i + 1) (k + 1) ts next in
    ap (λ x. if x % n == j then t ∷ share n j (i + 1) ts else share n j (i + 1) ts) next
    ∙ ap (λ ys. if (k + 1) % 2 ^ 32 % n == j then t ∷ ys else ys) rest

at_front :
    (q : List ℕ) (qs : List (List ℕ)) (t j : ℕ)
    → get_or ((q ++ t ∷ []) ∷ qs) j [] ≡ get_or (q ∷ qs) j [] ++ (if 0 == j then t ∷ [] else [])
at_front q qs t zero = refl
at_front q qs t (suc j) =
    let other : (0 == suc j) ≡ false = ground arith in rw other (sym (append-nil (get_or qs j [])))

behind_front :
    (q : List ℕ) (qs qs' : List (List ℕ)) (i t j : ℕ)
    → ((k : ℕ) → get_or qs' k [] ≡ get_or qs k [] ++ (if i == k then t ∷ [] else []))
    → get_or (q ∷ qs') j [] ≡ get_or (q ∷ qs) j [] ++ (if suc i == j then t ∷ [] else [])
behind_front q qs qs' i t zero grows =
    let other : (suc i == 0) ≡ false = ground arith in rw other (sym (append-nil q))
behind_front q qs qs' i t (suc j) grows =
    let same : (suc i == suc j) ≡ (i == j) = ground arith in rw same (grows j)

push_at-lt :
    (qs : List (List ℕ)) (i t : ℕ)
    → i < length qs
    → (qs' : List (List ℕ)) × (push_at qs i t ≡ some qs')
      × (length qs' ≡ length qs)
      × ((j : ℕ) → get_or qs' j [] ≡ get_or qs j [] ++ (if i == j then t ∷ [] else []))
unfolding push_at
push_at-lt [] i t h = elim h [ ]
push_at-lt (q ∷ qs) zero t h = ((q ++ t ∷ []) ∷ qs, refl, refl, λ j. at_front q qs t j)
push_at-lt (q ∷ qs) (suc i) t h =
    let (qs', run, long, grows) = push_at-lt qs i t (omega arith) in
    (q ∷ qs', rw run, ap suc long, λ j. behind_front q qs qs' i t j grows)

-- A dispatcher after some tasks: those for the disk in order, those for other machines in turn.
pub record Routes (n : ℕ) (d : Dispatcher) (disk remote : List ℕ) (d' : Dispatcher) : Type 0 where
  pub long : length d'.trsqs ≡ length d.trsqs
  pub to_disk : d'.dsq ≡ d.dsq ++ disk
  pub index : d'.trsqs_i % 2 ^ 32 ≡ (d.trsqs_i + length remote) % 2 ^ 32
  pub to_remote : (j : ℕ) → get_or d'.trsqs j [] ≡ get_or d.trsqs j [] ++ share n j d.trsqs_i remote

pub dispatch-Routes :
    (to_remote : ℕ → Bool) (m t : ℕ) (d : Dispatcher)
    → suc m ≤ length d.trsqs
    → (d' : Dispatcher) × (dispatch to_remote (suc m) t d ≡ ok d')
      × Routes (suc m) d (those (λ x. not (to_remote x)) (t ∷ [])) (those to_remote (t ∷ [])) d'
unfolding dispatch push_remote push_disk
dispatch-Routes to_remote m t d room = elim (Bool-cases (to_remote t)) [
  | inl yes_remote ↦
      let i = (d.trsqs_i + 1) % 2 ^ 32 in
      let (qs, run, long, grows) = push_at-lt d.trsqs (i % suc m) t (omega arith) in
      (
        record d { trsqs_i = i; trsqs = qs },
        rw (yes_remote, push_remote, run),
        rw yes_remote (record {
          long = long;
          to_disk = sym (append-nil d.dsq);
          index = omega arith;
          to_remote = grows;
        }),
      )
  | inr at_home ↦ (
    record d { dsq = d.dsq ++ t ∷ [] },
    rw at_home,
    rw at_home (record {
      long = refl;
      to_disk = refl;
      index = omega arith;
      to_remote = λ j. sym (append-nil (get_or d.trsqs j []));
    }),
  )
]

pub Routes-trans :
    (n : ℕ) (d d₁ d₂ : Dispatcher) (disk disk' remote remote' : List ℕ)
    → Routes n d disk remote d₁
    → Routes n d₁ disk' remote' d₂
    → Routes n d (disk ++ disk') (remote ++ remote') d₂
Routes-trans n d d₁ d₂ disk disk' remote remote' r r' = record {
  long = r'.long ∙ r.long;
  to_disk = r'.to_disk ∙ ap (λ xs. xs ++ disk') r.to_disk ∙ append_assoc d.dsq disk disk';
  index = omega (arith, r.index, r'.index, length-append remote remote');
  to_remote = λ j.
      r'.to_remote j
      ∙ ap (λ xs. xs ++ share n j d₁.trsqs_i remote') (r.to_remote j)
      ∙ append_assoc (get_or d.trsqs j []) (share n j d.trsqs_i remote)
          (share n j d₁.trsqs_i remote')
      ∙ ap (λ ys. get_or d.trsqs j [] ++ (share n j d.trsqs_i remote ++ ys))
          (share-wraps n j d₁.trsqs_i (d.trsqs_i + length remote) remote' (r.index))
      ∙ ap (λ ys. get_or d.trsqs j [] ++ ys) (sym (share-append n j d.trsqs_i remote remote'));
}

pub those-cons :
    (test : ℕ → Bool) (t : ℕ) (ts : List ℕ)
    → those test (t ∷ ts) ≡ those test (t ∷ []) ++ those test ts
those-cons test t ts = elim (Bool-cases (test t)) [
  | inl yes_it ↦ rw yes_it
  | inr not_it ↦ rw not_it
]

-- ===== src/Serde/OffloadLaws.antt =====
-- lib/sd/native/sd.cxx: the batches of an array of objects, against one element after the other.
use dshuffle.Prelude.{
  ℕ, zero, suc, ◌+◌, ◌-◌, ◌*◌, ◌/◌, ◌%◌, ◌^◌, ◌≤◌, ◌<◌, ◌≡◌, refl, sym, ap, ◌∙◌, inl, inr,
  Bool-cases, ltb, ◌==◌, if◌then◌else◌, List, [], ◌∷◌, arith,
}
use native.Mathlib.Nat.{suc-mul, div-mul-le_self, lt-div-mul-add}
use dshuffle.Prelude.Outcome.{Outcome, ok, ◌>>=◌, ◌>>◌, check, bind_assoc, bind-ext}
use dshuffle.Prelude.Words.{bytes_of}
use dshuffle.Serde.Types.{array_flag}
use dshuffle.Serde.Classes.{ClassInfo}
use dshuffle.Serde.FakeObject.{Jvm, array_length, array_elem_ref}
use dshuffle.Serde.RwBuffer.{RwBuffer, put_at, put_value, skip, fill_next_align_8}
use dshuffle.Serde.Offload.{
  Output, trigger_all, put_output, put_all, batch, batches, do_array_obj_serialize,
}

-- The outputs from the element `i` on
pub put_range : (ℕ → Output) → ℕ → ℕ → RwBuffer → Outcome RwBuffer
put_range outs i zero b = ok b
put_range outs i (suc n) b = put_output (outs i) b >>= put_range outs (suc i) n

range : (ℕ → Output) → ℕ → ℕ → List Output
range outs i zero = []
range outs i (suc n) = outs i ∷ range outs (suc i) n

put_all-range :
    (outs : ℕ → Output) (i n : ℕ) (b : RwBuffer) → put_all (range outs i n) b ≡ put_range outs i n b
unfolding put_all range put_range
put_all-range outs i zero b = refl
put_all-range outs i (suc n) b =
    bind-ext (put_output (outs i) b) (put_all (range outs (suc i) n)) (put_range outs (suc i) n)
      (put_all-range outs (suc i) n)

put_range-split :
    (outs : ℕ → Output) (i m n t : ℕ) (b : RwBuffer)
    → t ≡ m + n
    → put_range outs i t b ≡ (put_range outs i m b >>= put_range outs (i + m) n)
unfolding put_range
put_range-split outs i zero n t b e =
    let same : t ≡ n = omega (arith, e) in
    let place : i ≡ i + 0 = omega arith in
    ap (λ k. put_range outs i k b) same ∙ ap (λ k. put_range outs k n b) place
put_range-split outs i (suc m) n zero b e = absurd (omega (arith, e))
put_range-split outs i (suc m) n (suc t) b e =
    let place : suc i + m ≡ i + suc m = omega arith in
    bind-ext (put_output (outs i) b) (put_range outs (suc i) t)
      (λ x. put_range outs (suc i) m x >>= put_range outs (suc i + m) n)
      (λ x. put_range-split outs (suc i) m n t x (omega (arith, e)))
    ∙ sym (
        bind_assoc (put_output (outs i) b) (put_range outs (suc i) m)
          (put_range outs (suc i + m) n))
    ∙ ap (λ k. put_output (outs i) b >>= put_range outs (suc i) m >>= put_range outs k n) place

-- The rounds from `at` on are as many as are needed.
Rounds : ℕ → ℕ → ℕ → ℕ → Type 0
Rounds k size zero at = size ≤ at
Rounds k size (suc n) at = (at < size) × Rounds k size n (at + k)

cover-Rounds :
    (k size n at m : ℕ) → m ≡ n * k → size ≤ at + m → at + m < size + k → Rounds k size n at
unfolding Rounds
cover-Rounds k size zero at m e enough few = omega (arith, e)
cover-Rounds k size (suc n) at m e enough few =
    let step : m ≡ n * k + k = e ∙ suc-mul n k in
    (
      omega (arith, step),
      cover-Rounds k size n (at + k) (n * k) refl (omega (arith, step)) (omega (arith, step)),
    )

task_fits : (k size at : ℕ) → at < size → at + (if ltb (size - at) k then size - at else k) ≤ size
task_fits k size at more = ground arith

task_rest :
    (k size at : ℕ)
    → at < size
    → size - at ≡ (if ltb (size - at) k then size - at else k) + (size - (at + k))
task_rest k size at more = ground arith

module _ (trigger : ℕ → Outcome Output) (j : Jvm) (obj header size : ℕ) (outs : ℕ → Output)
    (done : (i : ℕ) → i < size → (array_elem_ref j obj header i >>= trigger) ≡ ok (outs i)) where
  trigger_all-range :
      (n i : ℕ) → i + n ≤ size → trigger_all trigger j obj header i n ≡ ok (range outs i n)
  unfolding trigger_all range
  trigger_all-range zero i fits = refl
  trigger_all-range (suc n) i fits =
      let rest = trigger_all-range n (suc i) (omega (arith, fits)) in
      sym (
        bind_assoc (array_elem_ref j obj header i) trigger
          (λ o. trigger_all trigger j obj header (suc i) n >>= λ os. ok (o ∷ os)))
      ∙ ap (λ r. r >>= λ o. trigger_all trigger j obj header (suc i) n >>= λ os. ok (o ∷ os))
          (done i (omega (arith, fits)))
      ∙ ap (λ r. r >>= λ os. ok (outs i ∷ os)) rest

  batch-range :
      (k i at m : ℕ) (b : RwBuffer)
      → at ≡ i * k
      → at < size
      → size < 2 ^ 32
      → (if ltb (size - at) k then size - at else k) ≡ m
      → at + m ≤ size
      → batch trigger j obj header k size i b ≡ put_range outs at m b
  unfolding batch
  batch-range k i at m b place more small tasks fits =
      let first : i * k % 2 ^ 32 ≡ at = omega (arith, place) in
      let left : (size + 2 ^ 32 - at) % 2 ^ 32 ≡ size - at = omega arith in
      rw (first, left, tasks)
        (ap (λ r. r >>= λ os. put_all os b) (trigger_all-range m at fits)
          ∙ put_all-range outs at m b)

  batches-range :
      (k n i at : ℕ) (b : RwBuffer)
      → at ≡ i * k
      → size < 2 ^ 32
      → Rounds k size n at
      → batches trigger j obj header k size n i b ≡ put_range outs at (size - at) b
  unfolding batches Rounds put_range
  batches-range k zero i at b place small over =
      let nothing : 0 ≡ size - at = omega (arith, over) in ap (λ t. put_range outs at t b) nothing
  batches-range k (suc n) i at b place small (more, rounds) =
      let next : at + k ≡ suc i * k = ap (λ t. t + k) place ∙ sym (suc-mul i k) in
      let m = if ltb (size - at) k then size - at else k in
      let fits : at + m ≤ size = task_fits k size at more in
      let rest = size - (at + k) in
      bind-ext (batch trigger j obj header k size i b)
        (batches trigger j obj header k size n (suc i)) (put_range outs (at + k) rest)
        (λ x. batches-range k n (suc i) (at + k) x next small rounds)
      ∙ ap (λ r. r >>= put_range outs (at + k) rest)
          (batch-range k i at m b place more small refl fits)
      ∙ bind-ext (put_range outs at m b) (put_range outs (at + k) rest)
          (put_range outs (at + m) rest) (λ x. last_task k at x)
      ∙ sym (put_range-split outs at m rest (size - at) b (task_rest k size at more))
    where
      last_task :
          (k at : ℕ) (x : RwBuffer)
          → put_range outs (at + k) (size - (at + k)) x
            ≡ put_range outs (at + (if ltb (size - at) k then size - at else k)) (size - (at + k)) x
      last_task k at x = elim (Bool-cases (ltb (size - at) k)) [
        | inl short ↦ let nothing : size - (at + k) ≡ 0 = ground arith in rw (short, nothing) refl
        | inr full ↦ rw full refl
      ]

-- The array with its elements one after the other.
unfoldable pub in_order :
    (RwBuffer → Outcome RwBuffer) → Jvm → RwBuffer → ℕ → ClassInfo → Outcome (ℕ × RwBuffer)
in_order elements j out obj info = do
  let n = array_length j obj info.header_size
  let b = skip (record out { off = 0 }) 8
  check (b.off % 8 == 0)
  b₁ ← put_value 2 b info.id
  b₂ ← put_value 2 b₁ array_flag
  b₃ ← put_value 4 b₂ n
  b₄ ← fill_next_align_8 b₃
  b₅ ← elements b₄
  let total_length = b₅.off % 2 ^ 32
  b₆ ← put_at b₅ (bytes_of 8 total_length) 0
  ok (total_length, b₆)

enough-Rounds :
    (k n : ℕ) → 0 < k → n + k ≤ 2 ^ 32 → Rounds k n ((n + k + 2 ^ 32 - 1) % 2 ^ 32 / k) 0
enough-Rounds k n pos small =
    let x = n + k - 1 in
    let unwrapped : (n + k + 2 ^ 32 - 1) % 2 ^ 32 ≡ x = omega arith in
    rw unwrapped (
      cover-Rounds k n (x / k) 0 (x / k * k) refl (omega (arith, lt-div-mul-add {a = x} pos))
        (omega (arith, div-mul-le_self x k)))

-- For an array whose length and the number of threads, one at least, have a sum of at most 2^32, and
-- whose element references all resolve to objects on which the tasks end: the host's serializer of
-- an array of objects, which gives the elements to the threads in batches, ends as if the outputs of
-- the elements were put one after the other, each once and in the order of the array, whatever the
-- number of threads.
pub do_array_obj_serialize-in_order :
    (trigger : ℕ → Outcome Output) (j : Jvm) (k : ℕ) (out : RwBuffer) (obj : ℕ) (info : ClassInfo)
    (outs : ℕ → Output)
    → 0 < k
    → array_length j obj info.header_size + k ≤ 2 ^ 32
    → ((i : ℕ)
        → i < array_length j obj info.header_size
        → (array_elem_ref j obj info.header_size i >>= trigger) ≡ ok (outs i))
    → do_array_obj_serialize trigger j k out obj info
      ≡ in_order (put_range outs 0 (array_length j obj info.header_size)) j out obj info
unfolding do_array_obj_serialize in_order
do_array_obj_serialize-in_order trigger j k out obj info outs pos small done =
    let n = array_length j obj info.header_size in
    let same : (b : RwBuffer)
        → batches trigger j obj info.header_size k n ((n + k + 2 ^ 32 - 1) % 2 ^ 32 / k) 0 b
          ≡ put_range outs 0 n b =
      λ b.
        let whole : n - 0 ≡ n = omega arith in
        batches-range trigger j obj info.header_size n outs done k
          ((n + k + 2 ^ 32 - 1) % 2 ^ 32 / k) 0 0 b (omega arith) (omega (arith, pos, small))
          (enough-Rounds k n pos small)
        ∙ ap (λ t. put_range outs 0 t b) whole in
    ap (λ (g : RwBuffer → Outcome RwBuffer). in_order g j out obj info) (λ i b. same b i)

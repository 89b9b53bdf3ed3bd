-- ===== src/Spill/FileRuns.antt =====
-- Whole runs of a spill worker, over every order of completion.
use dshuffle.Prelude.{
  ℕ, ◌+◌, ◌<◌, ◌%◌, ◌^◌, ◌≡◌, refl, sym, ap, ◌∙◌, true, false, Bool, ◌==◌, inl, inr, if◌then◌else◌,
  List, [], ◌∷◌, ◌++◌, append-nil, append_assoc, length, length-append, take, get_elem?,
  get_elem?-lt, get_elem?-of_lt, All, arith, subst, some,
}
use dshuffle.Prelude.Bytes.{read_at}
use dshuffle.Prelude.Outcome.{ok, ◌>>=◌}
use dshuffle.Spill.Buffer.{PartitionBuffer}
use dshuffle.Spill.Files.{
  PartitionFile, Request, Disk, perform_all, HostSpillWorker, spill_one, spill_all, prep_write,
}
use dshuffle.Spill.FileOrder.{Apart, perform_all-Perm}
use mathlib.Core.List.{Permᴰ}
use dshuffle.Spill.FileContents.{
  spilled, IsOpen, HasRoom, Known, Spills, advance, request, moved, set_cases, moved-IsOpen,
  step-Spills,
}

take-length : (xs : List ℕ) → take (length xs) xs ≡ xs
take-length [] = refl
take-length (x ∷ xs) = ap (λ ys. x ∷ ys) (take-length xs)

-- The length of what is written fits into 32 bits.
abbrev pub IsShort : (PartitionBuffer → List ℕ) → PartitionBuffer → Type 0
IsShort content t = length (content t) < 2 ^ 32

length-spilled_own :
    (content : PartitionBuffer → List ℕ) (t : PartitionBuffer) (ts : List PartitionBuffer) (p : ℕ)
    → t.header.partition_id ≡ p
    → length (spilled content p (t ∷ ts)) ≡ length (content t) + length (spilled content p ts)
length-spilled_own content t ts p same =
    let there : (t.header.partition_id == p) ≡ true = ground arith in
    rw there (length-append (content t) (spilled content p ts))

-- The requests for a whole sequence of tasks, and the worker after them.
pub record Run (content : PartitionBuffer → List ℕ) (tasks : List PartitionBuffer)
    (s : HostSpillWorker) (s' : HostSpillWorker) : Type 0 where
  pub new : List Request
  pub issued : s'.in_flight ≡ s.in_flight ++ new
  pub same_disk : s'.disk ≡ s.disk
  pub still_open : IsOpen s'
  pub spills : Spills content tasks s new

pub spill_all-Run :
    (content : PartitionBuffer → List ℕ) (tasks : List PartitionBuffer) (s : HostSpillWorker)
    → IsOpen s
    → All (Known s.max_n_partition) tasks
    → All (IsShort content) tasks
    → HasRoom content tasks s
    → (s' : HostSpillWorker) × (spill_all content tasks s ≡ ok s') × Run content tasks s s'
unfolding spill_all spill_one
spill_all-Run content [] s open_all known short room = (
  s,
  refl,
  record {
    new = [];
    issued = sym (append-nil s.in_flight);
    same_disk = refl;
    still_open = open_all;
    spills = record {
      apart = tt;
      above = λ p f e. tt;
      stored = λ p f disk e. refl;
      before = λ p f disk a e lt. refl;
    };
  },
)
spill_all-Run content (t ∷ ts) s open_all known short room =
    let i = t.header.partition_id in
    let (f, own) = get_elem?-of_lt s.files i (omega (arith, known.0, open_all.whole)) in
    let next = moved content t f s in
    let (s', run, r) =
      spill_all-Run content ts next (moved-IsOpen content t s open_all f own) known.1 short.1
        (room_next f own) in
    (
      s',
      ap (λ o. o >>= spill_all content ts) (spill_one_lem f own) ∙ run,
      record {
        new = request content t f ∷ r.new;
        issued = r.issued ∙ append_assoc s.in_flight (request content t f ∷ []) r.new;
        same_disk = r.same_disk;
        still_open = r.still_open;
        spills = step-Spills content t s open_all f own ts r.new r.spills;
      },
    )
  where
    room_next :
        (f : PartitionFile)
        → get_elem? s.files t.header.partition_id ≡ some f
        → HasRoom content ts (moved content t f s)
    room_next f own p g e =
        elim (set_cases s.files t.header.partition_id p (advance content t f) g
          (get_elem?-lt s.files t.header.partition_id own) e) [
            | inl mine ↦
                let bound = room t.header.partition_id f own in
                let long = length-spilled_own content t ts t.header.partition_id refl in
                let here : length (spilled content t.header.partition_id ts)
                    ≡ length (spilled content p ts) =
                  ap (λ k. length (spilled content k ts)) (mine.0) in
                omega (arith, bound, long, here, ap (λ (x : PartitionFile). x.offset) (mine.1))
            | inr other ↦
                let elsewhere : (t.header.partition_id == p) ≡ false = ground (arith, other.0) in
                let bound : g.offset + length (spilled content p (t ∷ ts)) < 2 ^ 64 =
                  room p g (other.1) in
                subst
                  (λ (b : Bool).
                    g.offset + length ((if b then content t else []) ++ spilled content p ts)
                    < 2 ^ 64)
                  elsewhere bound
          ]

    spill_one_lem :
        (f : PartitionFile)
        → get_elem? s.files t.header.partition_id ≡ some f
        → spill_one content t s ≡ ok (moved content t f s)
    spill_one_lem f own =
        let bound = room t.header.partition_id f own in
        let long = length-spilled_own content t ts t.header.partition_id refl in
        let exact : (f.offset + length (content t)) % 2 ^ 64 ≡ f.offset + length (content t) =
          omega (arith, bound, long) in
        let all_open : (length s.files == s.max_n_partition) ≡ true =
          ground (arith, open_all.whole) in
        let narrow : length (content t) % 2 ^ 32 ≡ length (content t) = omega (arith, short.0) in
        let whole : take (length (content t) % 2 ^ 32) (content t) ≡ content t =
          ap (λ n. take n (content t)) narrow ∙ take-length (content t) in
        rw (spill_one, all_open, own, exact, prep_write, whole)

-- For open files on distinct descriptors, no request in flight, tasks of known partitions with
-- contents of less than 4 GB each, and offsets that stay within 64 bits: the rounds for a sequence
-- of tasks all succeed, and if the ring performs each request to its last byte, in whatever order,
-- the file of each partition holds from its offset on the bytes of that partition's tasks in order,
-- and before its offset what it held.
pub spill_all-contents :
    (content : PartitionBuffer → List ℕ) (tasks : List PartitionBuffer) (s : HostSpillWorker)
    → IsOpen s
    → s.in_flight ≡ []
    → All (Known s.max_n_partition) tasks
    → All (IsShort content) tasks
    → HasRoom content tasks s
    → (s' : HostSpillWorker) × (spill_all content tasks s ≡ ok s')
      × ((order : List Request) (p : ℕ) (f : PartitionFile)
          → Permᴰ s'.in_flight order
          → get_elem? s.files p ≡ some f
          → (read_at (perform_all order s'.disk f.fd) f.offset (length (spilled content p tasks))
              ≡ spilled content p tasks)
            × ((a : ℕ) → a < f.offset → perform_all order s'.disk f.fd a ≡ s.disk f.fd a))
spill_all-contents content tasks s open_all idle known short room =
    let (s', run, r) = spill_all-Run content tasks s open_all known short room in
    let sp = r.spills in
    let all_new : s'.in_flight ≡ r.new = r.issued ∙ ap (λ xs. xs ++ r.new) idle in
    (
      s',
      run,
      λ order p f perm e.
          let apart = subst Apart (sym all_new) sp.apart in
          let any =
            sym (perform_all-Perm s'.disk perm apart) ∙ ap (λ qs. perform_all qs s'.disk) all_new in
          (
            ap (λ (d : Disk). read_at (d f.fd) f.offset (length (spilled content p tasks))) any
                ∙ sp.stored p f s'.disk e,
            λ a lt.
                ap (λ (d : Disk). d f.fd a) any
                ∙ sp.before p f s'.disk a e lt
                ∙ ap (λ (d : Disk). d f.fd a) r.same_disk,
          ),
    )

-- ===== src/Spill/FileContents.antt =====
-- What the requests for a sequence of tasks leave in the files.
use dshuffle.Prelude.{
  ℕ, ◌+◌, ◌≤◌, ◌<◌, ◌^◌, ◌≡◌, sym, ap, ap₂, ◌∙◌, true, false, ◌==◌, inl, inr, ◌⊎◌, ◌≢◌,
  if◌then◌else◌, List, [], ◌∷◌, ◌++◌, length, length-append, length-set, get_elem?, get_elem?-lt,
  get_elem?-set_self, get_elem?-set_ne, set, All, arith, ℕ_discrete, subst, some, put-ne, put_self,
}
use dshuffle.Prelude.Bytes.{write_at, read_at, read_at-append, read_at-ext, read_at-write_at_self}
use dshuffle.Spill.Buffer.{PartitionBuffer}
use dshuffle.Spill.Files.{PartitionFile, Request, Disk, perform, perform_all, HostSpillWorker}
use dshuffle.Spill.FileOrder.{Disjoint, Apart}

-- The bytes of the tasks of one partition, in order.
abbrev pub spilled : (PartitionBuffer → List ℕ) → ℕ → List PartitionBuffer → List ℕ
spilled content p [] = []
spilled content p (t ∷ ts) =
    (if t.header.partition_id == p then content t else []) ++ spilled content p ts

-- All files are open, on distinct descriptors.
pub record IsOpen (s : HostSpillWorker) : Type 0 where
  pub whole : length s.files ≡ s.max_n_partition
  pub distinct :
      (i j : ℕ) (f g : PartitionFile)
      → get_elem? s.files i ≡ some f
      → get_elem? s.files j ≡ some g
      → f.fd ≡ g.fd
      → i ≡ j

-- The offsets stay within 64 bits.
abbrev pub HasRoom : (PartitionBuffer → List ℕ) → List PartitionBuffer → HostSpillWorker → Type 0
HasRoom content tasks s =
    (p : ℕ) (f : PartitionFile)
    → get_elem? s.files p ≡ some f
    → f.offset + length (spilled content p tasks) < 2 ^ 64

abbrev pub Known : ℕ → PartitionBuffer → Type 0
Known n t = t.header.partition_id < n

-- The requests for the tasks, and what they leave of any disk.
pub record Spills (content : PartitionBuffer → List ℕ) (tasks : List PartitionBuffer)
    (s : HostSpillWorker) (new : List Request) : Type 0 where
  pub apart : Apart new
  pub above :
      (p : ℕ) (f : PartitionFile)
      → get_elem? s.files p ≡ some f
      → All (λ (q : Request). f.fd ≡ q.fd → f.offset ≤ q.at) new
  pub stored :
      (p : ℕ) (f : PartitionFile) (disk : Disk)
      → get_elem? s.files p ≡ some f
      → read_at (perform_all new disk f.fd) f.offset (length (spilled content p tasks))
        ≡ spilled content p tasks
  pub before :
      (p : ℕ) (f : PartitionFile) (disk : Disk) (a : ℕ)
      → get_elem? s.files p ≡ some f
      → a < f.offset
      → perform_all new disk f.fd a ≡ disk f.fd a

abbrev pub advance : (PartitionBuffer → List ℕ) → PartitionBuffer → PartitionFile → PartitionFile
advance content t f = record f { offset = f.offset + length (content t) }

abbrev pub request : (PartitionBuffer → List ℕ) → PartitionBuffer → PartitionFile → Request
request content t f = record { fd = f.fd; at = f.offset; bytes = content t }

abbrev pub moved :
    (PartitionBuffer → List ℕ) → PartitionBuffer → PartitionFile → HostSpillWorker → HostSpillWorker
moved content t f s = record s {
  files = set s.files t.header.partition_id (advance content t f);
  in_flight = s.in_flight ++ request content t f ∷ [];
}

-- A file after a task: its own moved on, and any other as it was.
pub set_cases :
    (files : List PartitionFile) (i p : ℕ) (f' g : PartitionFile)
    → i < length files
    → get_elem? (set files i f') p ≡ some g
    → ((i ≡ p) × (f' ≡ g)) ⊎ ((i ≢ p) × (get_elem? files p ≡ some g))
set_cases files i p f' g bound e = elim (ℕ_discrete i p) [
  | yes same ↦
      let there : get_elem? (set files i f') i ≡ some g =
        subst (λ k. get_elem? (set files i f') k ≡ some g) (sym same) e in
      let mine = get_elem?-set_self files i f' bound in inl (same, ground (arith, there, mine))
  | no other ↦ inr (other, sym (get_elem?-set_ne files f' other) ∙ e)
]

module _ (content : PartitionBuffer → List ℕ) (t : PartitionBuffer) (s : HostSpillWorker)
    (open_all : IsOpen s) (f : PartitionFile)
    (own : get_elem? s.files t.header.partition_id ≡ some f) where
  pub moved-IsOpen : IsOpen (moved content t f s)
  moved-IsOpen =
      let i = t.header.partition_id in
      let bound = get_elem?-lt s.files i own in
      record {
        whole = length-set s.files i (advance content t f) ∙ open_all.whole;
        distinct = λ j k g g' e e' same_fd.
            elim (set_cases s.files i j (advance content t f) g bound e) [
              | inl mine ↦ elim (set_cases s.files i k (advance content t f) g' bound e') [
                | inl mine' ↦ sym (mine.0) ∙ mine'.0
                | inr other' ↦
                    sym (mine.0)
                    ∙ open_all.distinct i k f g' own (other'.1)
                        (ap (λ (x : PartitionFile). x.fd) (mine.1) ∙ same_fd)
              ]
              | inr other ↦ elim (set_cases s.files i k (advance content t f) g' bound e') [
                | inl mine' ↦
                    open_all.distinct j i g f (other.1) own
                      (same_fd ∙ ap (λ (x : PartitionFile). x.fd) (sym (mine'.1)))
                    ∙ mine'.0
                | inr other' ↦ open_all.distinct j k g g' (other.1) (other'.1) same_fd
              ]
            ];
      }

  -- The file of `p` in the state after the task.
  moved-own :
      get_elem? (moved content t f s).files t.header.partition_id ≡ some (advance content t f)
  moved-own =
      get_elem?-set_self s.files t.header.partition_id (advance content t f)
        (get_elem?-lt s.files t.header.partition_id own)

  module _ (ts : List PartitionBuffer) (new : List Request)
      (rest : Spills content ts (moved content t f s) new) where
    step-apart : All (Disjoint (request content t f)) new
    step-apart = go new (rest.above t.header.partition_id (advance content t f) moved-own)
      where
        go :
            (qs : List Request)
            → All (λ (q : Request). f.fd ≡ q.fd → f.offset + length (content t) ≤ q.at) qs
            → All (Disjoint (request content t f)) qs
        go [] h = tt
        go (q ∷ qs) h = (disjoint (ℕ_discrete f.fd q.fd), go qs h.1)
          where
            disjoint : Dec (f.fd ≡ q.fd) → Disjoint (request content t f) q
            disjoint (yes same) = inr (inl (h.0 same))
            disjoint (no other) = inl other

    -- For the file of the task.
    own-stored :
        (disk : Disk)
        → read_at
            (perform_all new (perform (request content t f) disk) f.fd)
            f.offset
            (length (content t ++ spilled content t.header.partition_id ts))
          ≡ content t ++ spilled content t.header.partition_id ts
    own-stored disk =
        let i = t.header.partition_id in
        let c = content t in
        let after = perform_all new (perform (request content t f) disk) f.fd in
        let now : perform (request content t f) disk f.fd ≡ write_at (disk f.fd) f.offset c =
          put_self disk f.fd (write_at (disk f.fd) f.offset c) in
        ap (read_at after f.offset) (length-append c (spilled content i ts))
        ∙ read_at-append after f.offset (length c) (length (spilled content i ts))
        ∙ ap₂ (λ xs ys. xs ++ ys)
            (read_at-ext after (write_at (disk f.fd) f.offset c) f.offset (length c) (λ a lo hi.
                rest.before i (advance content t f) (perform (request content t f) disk) a moved-own
                  hi
                ∙ ap (λ (g : ℕ → ℕ). g a) now)
              ∙ read_at-write_at_self (disk f.fd) f.offset c)
            (rest.stored i (advance content t f) (perform (request content t f) disk) moved-own)

    own-before :
        (disk : Disk) (a : ℕ)
        → a < f.offset
        → perform_all new (perform (request content t f) disk) f.fd a ≡ disk f.fd a
    own-before disk a lt =
        rest.before t.header.partition_id (advance content t f) (perform (request content t f) disk)
          a moved-own (omega arith)
        ∙ ap (λ (g : ℕ → ℕ). g a) (put_self disk f.fd (write_at (disk f.fd) f.offset (content t)))
        ∙ ground arith

    module _ (p : ℕ) (g : PartitionFile) (at_p : get_elem? s.files p ≡ some g)
        (other : t.header.partition_id ≢ p) where
      other-file : get_elem? (moved content t f s).files p ≡ some g
      other-file = get_elem?-set_ne s.files (advance content t f) other ∙ at_p

      other-disk : (disk : Disk) → perform (request content t f) disk g.fd ≡ disk g.fd
      other-disk disk =
          put-ne disk (write_at (disk f.fd) f.offset (content t))
            (λ same_fd. other (open_all.distinct t.header.partition_id p f g own at_p same_fd))

    same_file :
        (p : ℕ) (g : PartitionFile)
        → get_elem? s.files p ≡ some g
        → t.header.partition_id ≡ p
        → g ≡ f
    same_file p g at_p same =
        let one : some g ≡ some f = sym at_p ∙ ap (get_elem? s.files) (sym same) ∙ own in
        ground (arith, one)

    above-weaken :
        (qs : List Request)
        → All (λ (q : Request). f.fd ≡ q.fd → f.offset + length (content t) ≤ q.at) qs
        → All (λ (q : Request). f.fd ≡ q.fd → f.offset ≤ q.at) qs
    above-weaken [] h = tt
    above-weaken (q ∷ qs) h = ((λ e. let further = h.0 e in omega arith), above-weaken qs h.1)

    pub step-Spills : Spills content (t ∷ ts) s (request content t f ∷ new)
    step-Spills = record {
      apart = (step-apart, rest.apart);
      above = λ p g at_p. elim (ℕ_discrete t.header.partition_id p) [
        | yes same ↦
            subst
              (λ (x : PartitionFile).
                All (λ (q : Request). x.fd ≡ q.fd → x.offset ≤ q.at) (request content t f ∷ new))
              (sym (same_file p g at_p same))
              (
                (λ _. omega arith),
                above-weaken new (rest.above t.header.partition_id (advance content t f) moved-own),
              )
        | no other ↦ (
          (λ same_fd.
              absurd
                (other (open_all.distinct t.header.partition_id p f g own at_p (sym same_fd)))),
          rest.above p g (other-file p g at_p other),
        )
      ];
      stored = λ p g disk at_p. elim (ℕ_discrete t.header.partition_id p) [
        | yes same ↦
            let there : (t.header.partition_id == p) ≡ true = ground arith in
            rw (same_file p g at_p same, there)
              (subst
                (λ k.
                  read_at (perform_all new (perform (request content t f) disk) f.fd) f.offset
                    (length (content t ++ spilled content k ts))
                  ≡ content t ++ spilled content k ts)
                same (own-stored disk))
        | no other ↦
            let elsewhere : (t.header.partition_id == p) ≡ false = ground arith in
            rw elsewhere
              (rest.stored p g (perform (request content t f) disk) (other-file p g at_p other))
      ];
      before = λ p g disk a at_p lt. elim (ℕ_discrete t.header.partition_id p) [
        | yes same ↦
            let mine = same_file p g at_p same in
            let lower : a < f.offset = subst (λ (x : PartitionFile). a < x.offset) mine lt in
            rw mine (own-before disk a lower)
        | no other ↦
            rest.before p g (perform (request content t f) disk) a (other-file p g at_p other) lt
            ∙ ap (λ (h : ℕ → ℕ). h a) (other-disk p g at_p other disk)
      ];
    }

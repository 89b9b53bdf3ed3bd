-- ===== src/Spill/FileSetup.antt =====
-- The files that `create_partition_files` sets up.
use dshuffle.Prelude.{
  ℕ, zero, suc, ◌+◌, ◌<◌, ◌≡◌, refl, sym, ap, subst, ◌∙◌, true, false, Bool, ◌==◌, inl, inr, ◌≢◌,
  if◌then◌else◌, List, [], ◌∷◌, length, length-append, get_elem?, get_elem?-snoc, get_elem?-lt,
  some, Option, arith, put_self, put-ne,
}
use dshuffle.Prelude.Bytes.{write_at, read_at}
use dshuffle.Prelude.Outcome.{ok}
use dshuffle.Spill.Files.{
  PartitionFile, HostSpillWorker, magic_number_and_version, open_file, open_files,
  create_partition_files,
}
use dshuffle.Spill.FileContents.{IsOpen}

-- `open` succeeds below `n`, and returns a descriptor of its own each time.
pub record IsFresh (open_fd : ℕ → Option ℕ) (n : ℕ) : Type 0 where
  pub succeeds : (i : ℕ) → i < n → (fd : ℕ) × (open_fd i ≡ some fd)
  pub distinct : (i j fd : ℕ) → open_fd i ≡ some fd → open_fd j ≡ some fd → i ≡ j

abbrev pub first_offset : Bool → ℕ
first_offset need_header = if need_header then 4 else 0

abbrev pub first_bytes : Bool → List ℕ
first_bytes need_header = if need_header then magic_number_and_version else []

-- A file that is set up for its first record.
pub record IsReady (open_fd : ℕ → Option ℕ) (need_header : Bool) (s : HostSpillWorker) (i : ℕ)
    (f : PartitionFile) : Type 0 where
  pub descriptor : open_fd i ≡ some f.fd
  pub name : f.partition_id ≡ i
  pub start : f.offset ≡ first_offset need_header
  pub header : read_at (s.disk f.fd) 0 (first_offset need_header) ≡ first_bytes need_header

-- The files below `i` are set up.
pub record IsOpening (open_fd : ℕ → Option ℕ) (need_header : Bool) (i : ℕ) (s : HostSpillWorker)
    : Type 0 where
  pub counted : length s.files ≡ i
  pub ready :
      (j : ℕ) (f : PartitionFile) → get_elem? s.files j ≡ some f → IsReady open_fd need_header s j f

open_file-IsOpening :
    (open_fd : ℕ → Option ℕ) (need_header : Bool) (i n fd : ℕ) (s : HostSpillWorker)
    → IsFresh open_fd n
    → open_fd i ≡ some fd
    → IsOpening open_fd need_header i s
    → IsOpening open_fd need_header (i + 1) (open_file need_header i fd s)
unfolding open_file
open_file-IsOpening open_fd need_header i n fd s fresh opened setup = record {
  counted = omega (arith, setup.counted, length-append s.files (new_file ∷ []));
  ready = λ j f e. elim (get_elem?-snoc s.files new_file j f e) [
    | inl old ↦
        let before = setup.ready j f (old.1) in
        let other : fd ≢ f.fd = λ same. absurd (
          apart j (omega (arith, old.0, setup.counted))
            (fresh.distinct i j fd opened (before.descriptor ∙ ap some (sym same)))) in
        record {
          descriptor = before.descriptor;
          name = before.name;
          start = before.start;
          header =
              ap (λ (g : ℕ → ℕ). read_at g 0 (first_offset need_header)) (put-ne s.disk blank other)
              ∙ before.header;
        }
    | inr new ↦
        let last : i ≡ j = omega (arith, new.0, setup.counted) in
        rw (sym (new.1)) (record {
          descriptor = ap open_fd (sym last) ∙ opened;
          name = last;
          start = refl;
          header =
              ap (λ (g : ℕ → ℕ). read_at g 0 (first_offset need_header)) (put_self s.disk fd blank)
              ∙ written need_header;
        })
  ];
}
  where
    new_file : PartitionFile
    new_file = record { fd = fd; partition_id = i; offset = first_offset need_header }

    blank : ℕ → ℕ
    blank = if need_header then write_at (λ _. 0) 0 magic_number_and_version else (λ _. 0)

    apart : (j : ℕ) → j < i → i ≡ j → ⊥
    apart j lt e = omega arith

    written :
        (b : Bool)
        → read_at
            (if b then write_at (λ _. 0) 0 magic_number_and_version else (λ _. 0))
            0
            (first_offset b)
          ≡ first_bytes b
    written true = refl
    written false = refl

pub open_files-IsOpening :
    (open_fd : ℕ → Option ℕ) (need_header : Bool) (n i m : ℕ) (s : HostSpillWorker)
    → i + n ≡ m
    → IsFresh open_fd m
    → IsOpening open_fd need_header i s
    → (s' : HostSpillWorker) × (open_files open_fd need_header n i s ≡ ok s')
      × IsOpening open_fd need_header m s'
      × (s'.max_n_partition ≡ s.max_n_partition)
      × (s'.in_flight ≡ s.in_flight)
      × (s'.io_q ≡ s.io_q)
unfolding open_files open_file
open_files-IsOpening open_fd need_header zero i m s e fresh setup =
    let last : i ≡ m = omega arith in
    (s, refl, subst (λ k. IsOpening open_fd need_header k s) last setup, refl, refl, refl)
open_files-IsOpening open_fd need_header (suc n) i m s e fresh setup =
    let (fd, opened) = fresh.succeeds i (omega arith) in
    let (s', run, setup', same_n, same_requests, same_queue) =
      open_files-IsOpening open_fd need_header n (i + 1) m (open_file need_header i fd s)
        (omega arith) fresh (open_file-IsOpening open_fd need_header i m fd s fresh opened setup) in
    (s', rw (open_files, opened) run, setup', same_n, same_requests, same_queue)

-- If open succeeds for each partition with a descriptor of its own, and no file is open yet,
-- create_partition_files opens the files of all partitions, each named by its index, on distinct
-- descriptors, with the offset behind the header, which holds the magic number where one is asked
-- for; and a second call changes nothing.
pub create_partition_files-IsOpen :
    (open_fd : ℕ → Option ℕ) (need_header : Bool) (s : HostSpillWorker)
    → IsFresh open_fd s.max_n_partition
    → s.files ≡ []
    → 0 < s.max_n_partition
    → (s' : HostSpillWorker) × (create_partition_files open_fd need_header s ≡ ok s')
      × IsOpen s'
      × ((i : ℕ) (f : PartitionFile)
          → get_elem? s'.files i ≡ some f
          → IsReady open_fd need_header s' i f)
      × (create_partition_files open_fd need_header s' ≡ ok s')
unfolding create_partition_files
create_partition_files-IsOpen open_fd need_header s fresh none_open some_files =
    let n = s.max_n_partition in
    let empty : length s.files ≡ 0 = ap length none_open in
    let not_yet : (length s.files == n) ≡ false = ground arith in
    let (s', run, setup, same_n, _, _) =
      open_files-IsOpening open_fd need_header n 0 n s (omega arith) fresh
        (record { counted = empty; ready = λ j f e. absurd (nothing j f e) }) in
    let all_open : (length s'.files == s'.max_n_partition) ≡ true =
      ground (arith, setup.counted, same_n) in
    (
      s',
      rw not_yet run,
      record {
        whole = setup.counted ∙ sym same_n;
        distinct = λ i j f g e e' same_fd.
            fresh.distinct i j f.fd ((setup.ready i f e).descriptor)
              ((setup.ready j g e').descriptor ∙ ap some (sym same_fd));
      },
      setup.ready,
      rw all_open,
    )
  where
    nothing : (j : ℕ) (f : PartitionFile) → get_elem? s.files j ≡ some f → ⊥
    nothing j f e =
        let bound = get_elem?-lt s.files j e in omega (arith, bound, ap length none_open)

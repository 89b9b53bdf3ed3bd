-- ===== src/Spill/DirectLaws.antt =====
-- The mounts of the direct worker, and what every worker makes of the result of a write.
use dshuffle.Prelude.{
  ℕ, zero, suc, ◌+◌, ◌-◌, ◌*◌, ◌/◌, ◌^◌, ◌<◌, ◌≡◌, refl, ap, ◌∙◌, true, false, [], ◌∷◌, length,
  length-append, Option, arith, if◌then◌else◌,
}
use native.Mathlib.Nat.{mul-div_cancel_left}
use dshuffle.Prelude.Int.{ℤ, pos, negsuc, is_positive, to_size}
use dshuffle.Prelude.Outcome.{ok, died}
use dshuffle.Memory.BufferPool.{Buffers, piece, n_elements}
use dshuffle.Memory.Layout.{IsLaidOut}
use dshuffle.Spill.Files.{
  HostSpillWorker, open_file, open_files, completion_value, finish_spill, fixed_index,
}
use dshuffle.Spill.FileSetup.{IsFresh}
use dshuffle.Spill.Direct.{DirectSpillWorker, do_mount, do_umount}

-- Opening adds `n` files to those that are there, whatever they are.
open_files-length :
    (open_fd : ℕ → Option ℕ) (n i m : ℕ) (s : HostSpillWorker)
    → i + n ≡ m
    → IsFresh open_fd m
    → (s' : HostSpillWorker) × (open_files open_fd false n i s ≡ ok s')
      × (length s'.files ≡ length s.files + n)
      × (s'.max_n_partition ≡ s.max_n_partition)
      × (s'.io_q ≡ s.io_q)
unfolding open_files open_file
open_files-length open_fd zero i m s e fresh = (s, refl, omega arith, refl, refl)
open_files-length open_fd (suc n) i m s e fresh =
    let (fd, opened) = fresh.succeeds i (omega arith) in
    let (s', run, longer, same_n, same_q) =
      open_files-length open_fd n (i + 1) m (open_file false i fd s) (omega arith) fresh in
    (
      s',
      rw (open_files, opened) run,
      omega (
        arith,
        longer,
        length-append s.files (record { fd = fd; partition_id = i; offset = 0 } ∷ []),
      ),
      same_n,
      same_q,
    )

pub do_umount-ok :
    (rc : ℤ) (s : DirectSpillWorker)
    → s.mounted ≡ true
    → s.io.io_q ≡ []
    → s.issued_io ≡ 0
    → do_umount rc s ≡ ok (rc, record s { mounted = false })
unfolding do_umount
do_umount-ok rc s up idle none_issued = rw (up, idle, none_issued)

module _ (open_fd : ℕ → Option ℕ) (n : ℕ) (rc : ℤ) (fresh : IsFresh open_fd n) where
  pub do_mount-length :
      (s : DirectSpillWorker)
      → s.mounted ≡ false
      → (s' : DirectSpillWorker) × (do_mount open_fd rc n s ≡ ok (rc, s'))
        × (length s'.io.files ≡ length s.io.files + n)
        × (s'.io.max_n_partition ≡ n)
        × (s'.io.io_q ≡ s.io.io_q)
        × (s'.issued_io ≡ s.issued_io)
        × (s'.mounted ≡ true)
  unfolding do_mount
  do_mount-length s down =
      let (io, run, longer, same_n, same_q) =
        open_files-length open_fd n 0 n (record (s.io) { max_n_partition = n }) (omega arith)
          fresh in
      (record s { mounted = true; io = io }, rw (down, run), longer, same_n, same_q, refl, refl)

-- `res` is an `int`, and not the smallest.
abbrev pub IsInt32 : ℤ → Type 0
IsInt32 (pos k) = k < 2 ^ 31
IsInt32 (negsuc k) = k < 2 ^ 31

-- For a task of one byte or more and a 32-bit result of its write, finish_spill returns the number
-- of bytes read if the result is positive, whether or not the whole buffer was written, and dies
-- otherwise.
pub finish_spill_lem :
    (size n_read : ℕ) (res : ℤ)
    → 0 < size
    → size < 2 ^ 63
    → IsInt32 res
    → (finish_spill size res n_read ≡ (if is_positive res then ok n_read else died))
unfolding finish_spill completion_value to_size
finish_spill_lem size n_read (pos zero) some_bytes small int32 = ground arith
finish_spill_lem size n_read (pos (suc k)) some_bytes small int32 = ground arith
finish_spill_lem size n_read (negsuc k) some_bytes small int32 = ground arith

-- Over well laid-out buffers, the index that the direct worker gives to the ring for a piece of the
-- pool is the index of that piece.
pub fixed_index-piece :
    (bs : Buffers) (i : ℕ) → IsLaidOut bs → i < n_elements bs → fixed_index bs (piece bs i) ≡ i
unfolding fixed_index
fixed_index-piece bs i laid known =
    let back : (piece bs i).base - bs.region.base ≡ bs.piece_len * i =
      omega (arith, laid.place i known) in
    ap (λ k. k / bs.piece_len) back ∙ mul-div_cancel_left i laid.pos

-- ===== src/Spill/DiskLaws.antt =====
-- On which side the disk is mounted.
use dshuffle.Prelude.{
  ℕ, zero, suc, ◌+◌, length, [], ◌≡◌, refl, sym, ap, ◌∙◌, Bool, true, false, not, Bool-cases, inl,
  inr, Option, arith, ◌==◌, ◌||◌,
}
use dshuffle.Prelude.Int.{ℤ, pos, negsuc}
use dshuffle.Prelude.Outcome.{Outcome, ok, ◌>>=◌, ◌>>◌, die_if, bind-ok}
use dshuffle.Spill.Files.{HostSpillWorker, open_files}
use dshuffle.Spill.Direct.{DirectSpillWorker, do_mount, do_umount, is_empty}
use dshuffle.Spill.DirectLaws.{do_mount-length, do_umount-ok}
use dshuffle.Spill.FileSetup.{IsFresh}
use dshuffle.Spill.Disk.{DiskAgent, failed, mount_on_dpu, umount_on_dpu}

-- The host has the disk, or the worker.
abbrev pub IsExclusive : DiskAgent → DirectSpillWorker → Type 0
IsExclusive a w = a.mounted ≡ not w.mounted

do_mount-mounted :
    (open_fd : ℕ → Option ℕ) (rc : ℤ) (n : ℕ) (w : DirectSpillWorker) (r : ℤ × DirectSpillWorker)
    → do_mount open_fd rc n w ≡ ok r
    → r.1.mounted ≡ true
unfolding do_mount
do_mount-mounted open_fd rc n w r run = elim (Bool-cases w.mounted) [
  | inl up ↦ absurd (ground arith)
  | inr down ↦
      let opening : Outcome HostSpillWorker =
        open_files open_fd false n 0 (record (w.io) { max_n_partition = n }) in
      let opened : do_mount open_fd rc n w
          ≡ (opening >>= λ io. ok (rc, record w { mounted = true; io = io })) =
        rw down in
      let (io, _, e) = bind-ok opening _ r (sym opened ∙ run) in ground (arith, e)
]

do_umount-mounted :
    (rc : ℤ) (w : DirectSpillWorker) (r : ℤ × DirectSpillWorker)
    → do_umount rc w ≡ ok r
    → r.1.mounted ≡ false
unfolding do_umount
do_umount-mounted rc w r run = elim (Bool-cases w.mounted) [
  | inl up ↦ elim (Bool-cases (not (is_empty w.io.io_q) || not (w.issued_io == 0))) [
    | inl busy ↦ absurd (ground arith)
    | inr idle ↦ ground arith
  ]
  | inr down ↦ absurd (ground arith)
]

failed-zero : (rc : ℤ) → failed rc ≡ false → rc ≡ pos 0
failed-zero (pos zero) e = refl
failed-zero (pos (suc n)) e = absurd (ground (arith, e))
failed-zero (negsuc n) e = absurd (ground (arith, e))

die_if-ok : {A : Type 0} (t : Bool) (m : Outcome A) (x : A) → (die_if t >> m) ≡ ok x → t ≡ false
die_if-ok true m x e = absurd (ground (arith, e))
die_if-ok false m x e = refl

do_mount-rc :
    (open_fd : ℕ → Option ℕ) (rc : ℤ) (n : ℕ) (w : DirectSpillWorker) (r : ℤ × DirectSpillWorker)
    → do_mount open_fd rc n w ≡ ok r
    → (r.0 ≡ rc) × (w.mounted ≡ false)
unfolding do_mount
do_mount-rc open_fd rc n w r run = elim (Bool-cases w.mounted) [
  | inl up ↦ absurd (ground arith)
  | inr down ↦
      let opening : Outcome HostSpillWorker =
        open_files open_fd false n 0 (record (w.io) { max_n_partition = n }) in
      let opened : do_mount open_fd rc n w
          ≡ (opening >>= λ io. ok (rc, record w { mounted = true; io = io })) =
        rw down in
      let (io, _, e) = bind-ok opening _ r (sym opened ∙ run) in (ground (arith, e), down)
]

-- If the host has the disk and mount_on_dpu returns, then umount on the host and mount beside the
-- device both returned 0, the worker was unmounted before and is mounted now, and the host has given
-- the disk up: with another result of a command, or over a mounted worker, the call does not return.
pub mount_on_dpu-hands_over :
    (open_fd : ℕ → Option ℕ) (umount_rc mount_rc : ℤ) (a : DiskAgent) (w : DirectSpillWorker)
    (a' : DiskAgent) (w' : DirectSpillWorker)
    → a.mounted ≡ true
    → mount_on_dpu open_fd umount_rc mount_rc a w ≡ ok (a', w')
    → (umount_rc ≡ pos 0)
      × (mount_rc ≡ pos 0)
      × (w.mounted ≡ false)
      × (a'.mounted ≡ false)
      × (w'.mounted ≡ true)
unfolding mount_on_dpu
mount_on_dpu-hands_over open_fd umount_rc mount_rc a w a' w' on_host run =
    let mounting = do_mount open_fd mount_rc a.max_n_partition w in
    let calls : mount_on_dpu open_fd umount_rc mount_rc a w ≡ (
        die_if (failed umount_rc) >> mounting >>= λ r.
        die_if (failed (r.0)) >> ok (record a { mounted = false }, r.1)) =
      rw on_host in
    let (r, mounted, e) =
      bind-ok (die_if (failed umount_rc) >> mounting) _ (a', w') (sym calls ∙ run) in
    let umounted = die_if-ok (failed umount_rc) mounting r mounted in
    let (_, _, mounted') = bind-ok (die_if (failed umount_rc)) _ r mounted in
    let (_, _, e') = bind-ok (die_if (failed (r.0))) _ (a', w') e in
    let (rc, down) = do_mount-rc open_fd mount_rc a.max_n_partition w r mounted' in
    let up = do_mount-mounted open_fd mount_rc a.max_n_partition w r mounted' in
    let fine = die_if-ok (failed (r.0)) (ok (record a { mounted = false }, r.1)) (a', w') e in
    (
      failed-zero umount_rc umounted,
      sym rc ∙ failed-zero (r.0) fine,
      down,
      ground (arith, e'),
      ground (arith, e', up),
    )

-- The other direction
pub umount_on_dpu-IsExclusive :
    (umount_rc mount_rc : ℤ) (a : DiskAgent) (w : DirectSpillWorker) (a' : DiskAgent)
    (w' : DirectSpillWorker)
    → IsExclusive a w
    → umount_on_dpu umount_rc mount_rc a w ≡ ok (a', w')
    → (a'.mounted ≡ true) × (w'.mounted ≡ false)
unfolding umount_on_dpu
umount_on_dpu-IsExclusive umount_rc mount_rc a w a' w' excl run = elim (Bool-cases a.mounted) [
  | inl on_host ↦ (ground arith, ground (arith, excl))
  | inr on_dpu ↦
      let calls : umount_on_dpu umount_rc mount_rc a w ≡ (
          do_umount umount_rc w >>= λ r.
          die_if (failed (r.0))
          >> (die_if (failed mount_rc) >> ok (record a { mounted = true }, r.1))) =
        rw on_dpu in
      let (r, umounted, e) = bind-ok (do_umount umount_rc w) _ (a', w') (sym calls ∙ run) in
      let (_, _, e₁) = bind-ok (die_if (failed (r.0))) _ (a', w') e in
      let (_, _, e₂) = bind-ok (die_if (failed mount_rc)) _ (a', w') e₁ in
      let down = do_umount-mounted umount_rc w r umounted in
      (ground (arith, e₂), ground (arith, e₂, down))
]

-- If the host has the disk, the worker is unmounted and idle, and open succeeds with distinct
-- descriptors, then with all four commands returning 0 mount_on_dpu hands the disk to the worker
-- with a further file per partition, and umount_on_dpu gives it back: the agent is as before and the
-- worker is unmounted.
pub mount_on_dpu-umount_on_dpu :
    (open_fd : ℕ → Option ℕ) (a : DiskAgent) (w : DirectSpillWorker)
    → IsFresh open_fd a.max_n_partition
    → a.mounted ≡ true
    → w.mounted ≡ false
    → w.io.io_q ≡ []
    → w.issued_io ≡ 0
    → (a' : DiskAgent) × (w' : DirectSpillWorker) × (mount_on_dpu open_fd (pos 0) (pos 0) a w
        ≡ ok (a', w'))
      × (length w'.io.files ≡ length w.io.files + a.max_n_partition)
      × (w'' : DirectSpillWorker) × (umount_on_dpu (pos 0) (pos 0) a' w' ≡ ok (a, w''))
      × (w''.mounted ≡ false)
unfolding mount_on_dpu umount_on_dpu
mount_on_dpu-umount_on_dpu open_fd a w fresh on_host down idle none_issued =
    let (w', run, longer, _, same_q, same_io, up) =
      do_mount-length open_fd a.max_n_partition (pos 0) fresh w down in
    let umounted = do_umount-ok (pos 0) w' up (same_q ∙ idle) (same_io ∙ none_issued) in
    (
      record a { mounted = false },
      w',
      rw (on_host, run),
      longer,
      record w' { mounted = false },
      rw umounted
          (ap (λ b. ok (record a { mounted = b }, record w' { mounted = false })) (sym on_host)),
      refl,
    )

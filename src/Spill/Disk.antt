-- ===== src/Spill/Disk.antt =====
-- lib/native/disk_agent.hxx: `DiskAgent`, which hands the disk over to the worker beside the device and
-- takes it back. `umount_rc` and `mount_rc` are what the commands on the host return.
use dshuffle.Prelude.{ℕ, zero, suc, Bool, true, false, if◌then◌else◌, Option}
use dshuffle.Prelude.Int.{ℤ, pos, negsuc}
use dshuffle.Prelude.Outcome.{Outcome, ok, ◌>>=◌, ◌>>◌, die_if}
use dshuffle.Spill.Direct.{DirectSpillWorker, do_mount, do_umount}

pub record DiskAgent : Type 0 where
  pub max_n_partition : ℕ
  pub mounted : Bool

-- `rc != 0`
abbrev pub failed : ℤ → Bool
failed (pos zero) = false
failed (pos (suc n)) = true
failed (negsuc n) = true

unfoldable pub mount_on_dpu :
    (ℕ → Option ℕ) → ℤ → ℤ → DiskAgent → DirectSpillWorker → Outcome (DiskAgent × DirectSpillWorker)
mount_on_dpu open_fd umount_rc mount_rc a w =
    if a.mounted
    then (die_if (failed umount_rc) >> do_mount open_fd mount_rc a.max_n_partition w >>= λ r.
        die_if (failed (r.0)) >> ok (record a { mounted = false }, r.1))
    else ok (a, w)

unfoldable pub umount_on_dpu :
    ℤ → ℤ → DiskAgent → DirectSpillWorker → Outcome (DiskAgent × DirectSpillWorker)
umount_on_dpu umount_rc mount_rc a w =
    if a.mounted
    then ok (a, w)
    else (do_umount umount_rc w >>= λ r.
        die_if (failed (r.0))
        >> (die_if (failed mount_rc) >> ok (record a { mounted = true }, r.1)))

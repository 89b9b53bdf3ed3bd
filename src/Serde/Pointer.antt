-- ===== src/Serde/Pointer.antt =====
-- lib/sd/native/jvm_args.hxx: compressed pointers, with the modes of lib/sd/common/args.h.
use dshuffle.Prelude.{ℕ, ◌+◌, ◌-◌, ◌*◌, ◌/◌, ◌%◌, ◌^◌, ◌==◌, if◌then◌else◌}
use dshuffle.Prelude.Outcome.{Outcome, ok, undefined}

abbrev pub mode_raw32 : ℕ
mode_raw32 = 1

abbrev pub mode_zero_based : ℕ
mode_zero_based = 2

abbrev pub mode_non_zero_based : ℕ
mode_non_zero_based = 3

-- The pointer is 32 bits wide when it is compressed and 64 bits wide when it is not.
unfoldable pub parse_cptr : ℕ → ℕ → ℕ → ℕ → Outcome ℕ
parse_cptr cptr base mode shift =
    if mode == mode_raw32
    then ok cptr
    else if mode == mode_zero_based
    then ok (cptr * 2 ^ shift % 2 ^ 64)
    else if mode == mode_non_zero_based
    then ok ((base + cptr * 2 ^ shift % 2 ^ 64) % 2 ^ 64)
    else undefined

unfoldable pub compress_ptr : ℕ → ℕ → ℕ → ℕ → Outcome ℕ
compress_ptr ptr base mode shift =
    if mode == mode_raw32
    then ok (ptr % 2 ^ 32)
    else if mode == mode_zero_based
    then ok (ptr / 2 ^ shift % 2 ^ 32)
    else if mode == mode_non_zero_based
    then ok ((ptr / 2 ^ shift + (2 ^ 64 - base)) % 2 ^ 64 % 2 ^ 32)
    else undefined

-- ===== src/Kernel/Tests.antt =====
-- The kernel's copy and fill on small inputs.
use dshuffle.Prelude.{ℕ, ◌+◌, ◌≡◌, ◌≢◌, refl, arith, ◌⊎◌, inl, inr, ◌%◌}
use dshuffle.Prelude.Outcome.{ok, undefined}
use dshuffle.Kernel.Copy.{d_memcpy}
use dshuffle.Kernel.CopyLaws.{Copies, IsWordAligned, d_memcpy-Copies, d_memcpy_unaligned}
use dshuffle.Kernel.Fill.{d_memset}
use dshuffle.Kernel.FillLaws.{filled, d_memset_lem}

abbrev counting : ℕ → ℕ
counting a = a

d_memcpy-Copies_example : Copies counting 4 1000 77 (d_memcpy counting 4 1000 77)
d_memcpy-Copies_example =
    d_memcpy-Copies counting 4 1000 77 (inl (omega arith)) (inr refl) (inl refl)

d_memcpy_unaligned_example : d_memcpy counting 3 1000 77 ≡ undefined
d_memcpy_unaligned_example =
    d_memcpy_unaligned counting 3 1000 77 (omega arith) (inl (λ w. unaligned w))
  where
    unaligned : ¬ IsWordAligned 3
    unaligned (inl e) = omega arith
    unaligned (inr e) = omega arith

d_memset_lem_example :
    ((mem' : ℕ → ℕ) × ((16 % 8 ≡ 0) ⊎ (16 % 8 ≡ 4))
      × (d_memset counting 16 255 77 ≡ ok (mem', 16 + 77))
      × ((a : ℕ) → mem' a ≡ filled counting 16 255 77 a))
    ⊎ ((16 % 8 ≢ 0) × (16 % 8 ≢ 4) × (d_memset counting 16 255 77 ≡ undefined))
d_memset_lem_example = d_memset_lem counting 16 255 77 (omega arith)

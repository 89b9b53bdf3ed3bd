-- ===== src/Serde/TypeLaws.antt =====
-- The tables of the basic types against each other.
use dshuffle.Prelude.{
  ℕ, zero, suc, ◌%◌, ◌<◌, ◌≤◌, ◌≡◌, refl, true, false, ltb, ◌==◌, ◌||◌, if◌then◌else◌, arith, ◌⊎◌,
  inl, inr,
}
use dshuffle.Prelude.Outcome.{ok, undefined}
use dshuffle.Serde.Types.{
  is_primitive_type, is_reference_type, type_size, char2type, type2sig, t_illegal,
}

-- For every type code, either it is primitive, and its signature is a character that char2type takes
-- back to it, or it is not, and type2sig is undefined.
pub type2sig-char2type :
    (t : ℕ)
    → ((is_primitive_type t ≡ true) × (c : ℕ) × (type2sig t ≡ ok c) × (char2type c ≡ ok t))
      ⊎ ((is_primitive_type t ≡ false) × (type2sig t ≡ undefined))
unfolding is_primitive_type type2sig char2type
type2sig-char2type zero = inr (refl, refl)
type2sig-char2type (suc zero) = inr (refl, refl)
type2sig-char2type (suc (suc zero)) = inr (refl, refl)
type2sig-char2type (suc (suc (suc zero))) = inr (refl, refl)
type2sig-char2type (suc (suc (suc (suc zero)))) = inl (refl, 90, refl, refl)
type2sig-char2type (suc (suc (suc (suc (suc zero))))) = inl (refl, 67, refl, refl)
type2sig-char2type (suc (suc (suc (suc (suc (suc zero)))))) = inl (refl, 70, refl, refl)
type2sig-char2type (suc (suc (suc (suc (suc (suc (suc zero))))))) = inl (refl, 68, refl, refl)
type2sig-char2type (suc (suc (suc (suc (suc (suc (suc (suc zero)))))))) = inl (refl, 66, refl, refl)
type2sig-char2type (suc (suc (suc (suc (suc (suc (suc (suc (suc zero))))))))) =
    inl (refl, 83, refl, refl)
type2sig-char2type (suc (suc (suc (suc (suc (suc (suc (suc (suc (suc zero)))))))))) =
    inl (refl, 73, refl, refl)
type2sig-char2type (suc (suc (suc (suc (suc (suc (suc (suc (suc (suc (suc zero))))))))))) =
    inl (refl, 74, refl, refl)
type2sig-char2type (suc (suc (suc (suc (suc (suc (suc (suc (suc (suc (suc (suc t)))))))))))) =
    inr (ground arith, ground arith)

-- For every type code from 4 to 20, type_size returns a size, which is positive exactly for the
-- primitive and the reference types, and then divides 8.
pub type_size_lem :
    (t : ℕ)
    → 3 < t
    → t ≤ t_illegal
    → (n : ℕ) × (type_size t ≡ ok n)
      × ((is_primitive_type t || is_reference_type t) ≡ ltb 0 n)
      × (8 % (if n == 0 then 1 else n) ≡ 0)
unfolding is_primitive_type is_reference_type type_size
type_size_lem zero lo hi = absurd (omega arith)
type_size_lem (suc zero) lo hi = absurd (omega arith)
type_size_lem (suc (suc zero)) lo hi = absurd (omega arith)
type_size_lem (suc (suc (suc zero))) lo hi = absurd (omega arith)
type_size_lem (suc (suc (suc (suc zero)))) lo hi = (1, refl, refl, refl)
type_size_lem (suc (suc (suc (suc (suc zero))))) lo hi = (2, refl, refl, refl)
type_size_lem (suc (suc (suc (suc (suc (suc zero)))))) lo hi = (4, refl, refl, refl)
type_size_lem (suc (suc (suc (suc (suc (suc (suc zero))))))) lo hi = (8, refl, refl, refl)
type_size_lem (suc (suc (suc (suc (suc (suc (suc (suc zero)))))))) lo hi = (1, refl, refl, refl)
type_size_lem (suc (suc (suc (suc (suc (suc (suc (suc (suc zero))))))))) lo hi =
    (2, refl, refl, refl)
type_size_lem (suc (suc (suc (suc (suc (suc (suc (suc (suc (suc zero)))))))))) lo hi =
    (4, refl, refl, refl)
type_size_lem (suc (suc (suc (suc (suc (suc (suc (suc (suc (suc (suc zero))))))))))) lo hi =
    (8, refl, refl, refl)
type_size_lem (suc (suc (suc (suc (suc (suc (suc (suc (suc (suc (suc (suc zero)))))))))))) lo hi =
    (4, refl, refl, refl)
type_size_lem (suc (suc (suc (suc (suc (suc (suc (suc (suc (suc (suc (suc (suc zero))))))))))))) lo
      hi =
    (4, refl, refl, refl)
type_size_lem
      (suc (suc (suc (suc (suc (suc (suc (suc (suc (suc (suc (suc (suc (suc zero)))))))))))))) lo
      hi =
    (0, refl, refl, refl)
type_size_lem
      (suc (suc (suc (suc (suc (suc (suc (suc (suc (suc (suc (suc (suc (suc (suc zero)))))))))))))))
      lo hi =
    (0, refl, refl, refl)
type_size_lem
      (suc (
        suc
          (suc (suc (suc (suc (suc (suc (suc (suc (suc (suc (suc (suc (suc (suc zero))))))))))))))))
      lo hi =
    (0, refl, refl, refl)
type_size_lem
      (suc (
        suc (
          suc (
            suc
              (suc (suc (suc (suc (suc (suc (suc (suc (suc (suc (suc (suc (suc zero)))))))))))))))))
      lo hi =
    (0, refl, refl, refl)
type_size_lem
      (suc (
        suc (
          suc (
            suc (
              suc (
                suc
                  (suc (suc (suc (suc (suc (suc (suc (suc (suc (suc (suc (suc zero))))))))))))))))))
      lo hi =
    (0, refl, refl, refl)
type_size_lem
      (suc (
        suc (
          suc (
            suc (
              suc (
                suc (
                  suc (
                    suc
                      (suc (suc (suc (suc (suc (suc (suc (suc (suc (suc (suc zero)))))))))))))))))))
      lo hi =
    (0, refl, refl, refl)
type_size_lem
      (suc (
        suc (
          suc (
            suc (
              suc (
                suc (
                  suc (
                    suc (
                      suc (
                        suc
                          (suc (suc (suc (suc (suc (suc (suc (suc (suc (suc zero))))))))))))))))))))
      lo hi =
    (0, refl, refl, refl)
type_size_lem
      (suc (
        suc (
          suc (
            suc (
              suc (
                suc (
                  suc (
                    suc (
                      suc (
                        suc (
                          suc
                            (suc (suc (suc (suc (suc (suc (suc (suc (suc (suc t)))))))))))))))))))))
      lo hi =
    absurd (omega arith)

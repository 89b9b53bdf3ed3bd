-- ===== src/Serde/PointerLaws.antt =====
-- Round trips of compressed pointers.
use dshuffle.Prelude.{ℕ, ◌+◌, ◌-◌, ◌*◌, ◌/◌, ◌%◌, ◌^◌, ◌<◌, ◌≡◌, sym, ap, ◌∙◌, arith, inl, inr, ◌⊎◌}
use dshuffle.Prelude.Outcome.{ok, ◌>>=◌}
use dshuffle.Serde.Pointer.{
  parse_cptr, compress_ptr, mode_raw32, mode_zero_based, mode_non_zero_based,
}
use native.Mathlib.Nat.{mul-div_cancel, one-le-pow, add-mul, div-add-mod, mul_comm}

pow_positive : (k : ℕ) → 0 < 2 ^ k
pow_positive k = omega (arith, one-le-pow k 2 (omega arith))

-- In the raw and the zero-based mode, a 32-bit compressed pointer whose shifted value is below 2^64
-- is parsed and compressed back to itself.
pub parse_cptr-compress_ptr :
    (cptr base shift mode : ℕ)
    → cptr < 2 ^ 32
    → cptr * 2 ^ shift < 2 ^ 64
    → (mode ≡ mode_raw32) ⊎ (mode ≡ mode_zero_based)
    → (parse_cptr cptr base mode shift >>= λ p. compress_ptr p base mode shift) ≡ ok cptr
unfolding parse_cptr compress_ptr
parse_cptr-compress_ptr cptr base shift mode narrow room (inl raw) =
    let exact : cptr % 2 ^ 32 ≡ cptr = omega arith in rw (raw, exact)
parse_cptr-compress_ptr cptr base shift mode narrow room (inr zero_based) =
    let exact : cptr * 2 ^ shift % 2 ^ 64 ≡ cptr * 2 ^ shift = omega arith in
    let back : cptr * 2 ^ shift / 2 ^ shift ≡ cptr = mul-div_cancel cptr (pow_positive shift) in
    let narrow' : cptr % 2 ^ 32 ≡ cptr = omega arith in rw (zero_based, exact, back, narrow')

-- In the zero-based mode, a 64-bit pointer that is a multiple of 2^shift and whose quotient by it is
-- below 2^32 is compressed and parsed back to itself.
pub compress_ptr-parse_cptr :
    (ptr base shift : ℕ)
    → ptr < 2 ^ 64
    → ptr % 2 ^ shift ≡ 0
    → ptr / 2 ^ shift < 2 ^ 32
    → (compress_ptr ptr base mode_zero_based shift >>= λ c. parse_cptr c base mode_zero_based shift)
      ≡ ok ptr
unfolding parse_cptr compress_ptr
compress_ptr-parse_cptr ptr base shift wide aligned narrow =
    let narrow' : ptr / 2 ^ shift % 2 ^ 32 ≡ ptr / 2 ^ shift = omega arith in
    let back : ptr / 2 ^ shift * 2 ^ shift ≡ ptr =
      omega (arith, div-add-mod ptr (2 ^ shift), aligned, mul_comm (ptr / 2 ^ shift) (2 ^ shift)) in
    let wide' : ptr % 2 ^ 64 ≡ ptr = omega arith in rw (narrow', back, wide')

-- In the mode with a base, for a base that is a multiple b of 2^shift and an address below 2^64,
-- parsing a compressed pointer and compressing the result gives the pointer plus b minus the whole
-- base, modulo 2^64 and then 2^32.
pub parse_cptr-compress_ptr_non_zero :
    (cptr b shift : ℕ)
    → (cptr + b) * 2 ^ shift < 2 ^ 64
    → (parse_cptr cptr (b * 2 ^ shift) mode_non_zero_based shift >>= λ p.
        compress_ptr p (b * 2 ^ shift) mode_non_zero_based shift)
      ≡ ok ((cptr + b + (2 ^ 64 - b * 2 ^ shift)) % 2 ^ 64 % 2 ^ 32)
unfolding parse_cptr compress_ptr
parse_cptr-compress_ptr_non_zero cptr b shift room =
    let m = 2 ^ shift in
    let spread : (cptr + b) * m ≡ b * m + cptr * m = omega (arith, add-mul cptr b m) in
    let exact : cptr * m % 2 ^ 64 ≡ cptr * m = omega arith in
    let exact' : (b * m + cptr * m) % 2 ^ 64 ≡ b * m + cptr * m = omega arith in
    let back : (b * m + cptr * m) / m ≡ cptr + b =
      ap (λ k. k / m) (sym spread) ∙ mul-div_cancel (cptr + b) (pow_positive shift) in
    rw (exact, exact', back)

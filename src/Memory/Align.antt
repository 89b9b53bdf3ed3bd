-- ===== src/Memory/Align.antt =====
-- lib/util/upper_align.hxx, and `align_up_8` of lib/doca/kernel/helper.h.
use native.Mathlib.Nat.{div-mul-le_self, lt-div-mul-add, mul-mod_left}
use dshuffle.Prelude.{ℕ, ◌+◌, ◌-◌, ◌*◌, ◌/◌, ◌%◌, ◌^◌, ◌≤◌, ◌<◌, ◌≡◌, arith}

-- On `size_t`: the sum wraps, and so does the product.
unfoldable pub upper_align : ℕ → ℕ → ℕ
upper_align x align = (x + align + 2 ^ 64 - 1) % 2 ^ 64 / align * align % 2 ^ 64

-- `(((uintptr_t)x) + 7) & (~7ull)`: the three low bits are cleared.
unfoldable pub align_up_8 : ℕ → ℕ
align_up_8 x = let y = (x + 7) % 2 ^ 64 in y - y % 8

-- The least multiple of `align` that is not below `x`.
pub record IsAligned (x align r : ℕ) : Type 0 where
  pub above : x ≤ r
  pub tight : r < x + align
  pub multiple : r % align ≡ 0

upper_align-no_wrap :
    (x align : ℕ)
    → 0 < align
    → x + align < 2 ^ 64
    → upper_align x align ≡ (x + align - 1) / align * align
unfolding upper_align
upper_align-no_wrap x align pos fits =
    let y = x + align - 1 in
    let unwrapped : (x + align + 2 ^ 64 - 1) % 2 ^ 64 ≡ y = omega arith in
    rw unwrapped (omega (arith, div-mul-le_self y align))

-- For a positive alignment and a sum of value and alignment below 2^64, upper_align gives a multiple
-- of the alignment that is not below the value and less than one alignment above it.
pub upper_align-IsAligned :
    (x align : ℕ) → 0 < align → x + align < 2 ^ 64 → IsAligned x align (upper_align x align)
upper_align-IsAligned x align pos fits =
    let y = x + align - 1 in
    rw (upper_align-no_wrap x align pos fits) (record {
      above = omega (arith, lt-div-mul-add {a = y} pos);
      tight = omega (arith, div-mul-le_self y align);
      multiple = mul-mod_left (y / align) align;
    })

-- For a value whose sum with 8 is below 2^64, the kernel's macro align_up_8 gives the same as the
-- host's upper_align to 8.
pub align_up_8-upper_align : (x : ℕ) → x + 8 < 2 ^ 64 → align_up_8 x ≡ upper_align x 8
unfolding align_up_8 upper_align
align_up_8-upper_align x fits = omega arith

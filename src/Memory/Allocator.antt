-- ===== src/Memory/Allocator.antt =====
-- lib/memory/simple_allocator.hxx: `SimpleAllocator`, with its assertions in order.
use dshuffle.Prelude.{ℕ, ◌+◌, ◌%◌, ◌^◌, ◌≤◌, ◌<◌, ◌≡◌, refl, ◌==◌, ltb, leb, List, [], ◌∷◌, arith}
use dshuffle.Prelude.Outcome.{Outcome, ok, assert_failed, ◌>>=◌, ◌>>◌, check}
use dshuffle.Memory.Region.{MemoryRegion}
use dshuffle.Memory.Align.{upper_align, upper_align-IsAligned}

pub record SimpleAllocator : Type 0 where
  pub mr : MemoryRegion
  pub pos : ℕ
  pub lim : ℕ

abbrev pub alignment : ℕ
alignment = 8

-- the constructor
unfoldable pub over : MemoryRegion → SimpleAllocator
over mr = record { mr = mr; pos = 0; lim = mr.len }

unfoldable pub allocate : SimpleAllocator → ℕ → Outcome (ℕ × SimpleAllocator)
allocate a size = do
  check (ltb 0 size)
  check (ltb a.pos a.lim)
  let past = (a.pos + size) % 2 ^ 64
  let pos' = upper_align past alignment
  check (pos' % alignment == 0)
  check (ltb a.pos pos')
  check (leb past pos')
  check (leb past a.lim)
  ok ((a.mr.base + a.pos) % 2 ^ 64, record a { pos = pos' })

unfoldable pub allocated : SimpleAllocator → Outcome ℕ
allocated a = do check (a.pos % alignment == 0); ok a.pos

-- Successive calls, with the blocks that they return.
unfoldable pub allocate_all : SimpleAllocator → List ℕ → Outcome (List (ℕ × ℕ) × SimpleAllocator)
allocate_all a [] = ok ([], a)
allocate_all a (size ∷ sizes) = do
  (p, a₁) ← allocate a size
  (blocks, a₂) ← allocate_all a₁ sizes
  ok ((p, size) ∷ blocks, a₂)

-- The region is aligned and ends in the address space, and the position is a multiple of 8.
pub record IsValid (a : SimpleAllocator) : Type 0 where
  pub whole : a.lim ≡ a.mr.len
  pub fits : a.mr.base + a.lim + 8 < 2 ^ 64
  pub base_aligned : a.mr.base % 8 ≡ 0
  pub pos_aligned : a.pos % 8 ≡ 0
  pub pos_bound : a.pos < a.lim + 8

-- The blocks lie one after the other between the bounds, each on a multiple of 8.
abbrev pub Apart : ℕ → ℕ → List (ℕ × ℕ) → Type 0
Apart lo hi [] = Unit {0}
Apart lo hi ((p, size) ∷ blocks) =
    (lo ≤ p) × (p % 8 ≡ 0) × (p + size ≤ hi) × Apart (p + size) hi blocks

-- What one allocation gives.
pub record Allocates (a : SimpleAllocator) (size p : ℕ) (a' : SimpleAllocator) : Type 0 where
  pub address : p ≡ a.mr.base + a.pos
  pub inside : a.pos + size ≤ a.lim
  pub beyond : a.pos + size ≤ a'.pos
  pub tight : a'.pos < a.pos + size + 8
  pub same_lim : a'.lim ≡ a.lim
  pub same_base : a'.mr.base ≡ a.mr.base
  pub valid : IsValid a'

-- A request that fits is granted, on the next free multiple of 8.
pub allocate_lem :
    (a : SimpleAllocator) (size : ℕ)
    → IsValid a
    → 0 < size
    → a.pos + size ≤ a.lim
    → (r : ℕ × SimpleAllocator) × (allocate a size ≡ ok r) × Allocates a size r.0 r.1
unfolding allocate
allocate_lem a size v pos room =
    let fits = v.fits in
    let bound = v.pos_bound in
    let exact : (a.pos + size) % 2 ^ 64 ≡ a.pos + size = omega arith in
    let up = upper_align-IsAligned (a.pos + size) 8 (omega arith) (omega arith) in
    (
      (a.mr.base + a.pos, record a { pos = upper_align (a.pos + size) 8 }),
      rw exact (ground (arith, up.above, up.multiple)),
      record {
        address = refl;
        inside = room;
        beyond = up.above;
        tight = up.tight;
        same_lim = refl;
        same_base = refl;
        valid = record {
          whole = v.whole;
          fits = v.fits;
          base_aligned = v.base_aligned;
          pos_aligned = up.multiple;
          pos_bound = omega (arith, up.tight);
        };
      },
    )

-- From a valid allocator, a request that ends past the region fails an assertion, if the padded size
-- and the end of the block do not wrap at 64 bits.
pub allocate-fails :
    (a : SimpleAllocator) (size : ℕ)
    → IsValid a
    → size + 16 < 2 ^ 64
    → a.pos + size < 2 ^ 64
    → a.lim < a.pos + size
    → allocate a size ≡ assert_failed
unfolding allocate
allocate-fails a size v small sum over_lim =
    let exact : (a.pos + size) % 2 ^ 64 ≡ a.pos + size = omega arith in rw exact (ground arith)

-- The requests with the padding that each may need.
abbrev pub padded : List ℕ → ℕ
padded [] = 0
padded (size ∷ sizes) = size + 7 + padded sizes

abbrev pub AllPositive : List ℕ → Type 0
AllPositive [] = Unit {0}
AllPositive (size ∷ sizes) = (0 < size) × AllPositive sizes

Apart-mono :
    (lo lo' hi hi' : ℕ) (blocks : List (ℕ × ℕ))
    → lo' ≤ lo
    → hi ≤ hi'
    → Apart lo hi blocks
    → Apart lo' hi' blocks
Apart-mono lo lo' hi hi' [] le le' apart = tt
Apart-mono lo lo' hi hi' ((p, size) ∷ blocks) le le' apart = (
  omega arith,
  apart.1,
  omega arith,
  Apart-mono (p + size) (p + size) hi hi' blocks (omega arith) le' apart.3,
)

-- From a valid allocator, a sequence of positive requests whose sizes, each padded by 7 bytes, fit
-- in the rest of the region is granted in full; the blocks lie inside the region one behind the
-- other, so no two share a byte, each starts on a multiple of 8, and the allocator stays valid.
pub allocate_all-Apart :
    (a : SimpleAllocator) (sizes : List ℕ)
    → IsValid a
    → AllPositive sizes
    → a.pos + padded sizes ≤ a.lim
    → (r : List (ℕ × ℕ) × SimpleAllocator) × (allocate_all a sizes ≡ ok r)
      × Apart (a.mr.base + a.pos) (a.mr.base + a.lim) r.0
      × IsValid r.1
unfolding allocate_all
allocate_all-Apart a [] v pos fits = (([], a), refl, tt, v)
allocate_all-Apart a (size ∷ sizes) v pos fits =
    let ((p, a₁), run, step) = allocate_lem a size v pos.0 (omega arith) in
    let ((blocks, a₂), rest, apart, valid) =
      allocate_all-Apart a₁ sizes step.valid pos.1 (omega (arith, step.tight, step.same_lim)) in
    (
      ((p, size) ∷ blocks, a₂),
      rw (run, ◌>>=◌, rest),
      (
        omega (arith, step.address),
        omega (arith, step.address, v.base_aligned, v.pos_aligned),
        omega (arith, step.address, step.inside),
        Apart-mono _ (p + size) _ (a.mr.base + a.lim) blocks
            (omega (arith, step.address, step.beyond, step.same_base))
            (omega (arith, step.same_lim, step.same_base)) apart,
      ),
      valid,
    )

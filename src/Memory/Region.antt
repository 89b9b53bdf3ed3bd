-- ===== src/Memory/Region.antt =====
-- lib/memory/memory_region.hxx and local_buffer.hxx: `MemoryRegion`. Addresses and lengths are 64-bit
-- words, so an end address wraps.
use dshuffle.Prelude.{
  ℕ, ◌+◌, ◌-◌, ◌%◌, ◌^◌, ◌≤◌, ◌<◌, min, max, ◌≡◌, ◌↔◌, Bool, true, not, ◌&&◌, ◌==◌, leb, arith,
}

pub record MemoryRegion : Type 0 where
  pub base : ℕ
  pub len : ℕ

unfoldable pub is_overlap : ℕ → ℕ → ℕ → ℕ → Bool
is_overlap a a_len b b_len = leb (max a b) (min ((a + a_len) % 2 ^ 64) ((b + b_len) % 2 ^ 64))

unfoldable pub is_contain : ℕ → ℕ → ℕ → ℕ → Bool
is_contain a a_len b b_len = leb a b && leb ((b + b_len) % 2 ^ 64) ((a + a_len) % 2 ^ 64)

unfoldable pub empty : MemoryRegion → Bool
empty r = (r.base == 0) && (r.len == 0)

unfoldable pub contain : MemoryRegion → MemoryRegion → Bool
unfolding empty is_contain
contain r other =
    not (empty r) && (not (empty other) && is_contain r.base r.len other.base other.len)

unfoldable pub within : MemoryRegion → MemoryRegion → Bool
unfolding empty contain
within r other = not (empty r) && (not (empty other) && contain other r)

unfoldable pub overlap : MemoryRegion → MemoryRegion → Bool
unfolding empty is_overlap
overlap r other =
    not (empty r) && (not (empty other) && is_overlap r.base r.len other.base other.len)

-- `operator==`
unfoldable pub same_region : MemoryRegion → MemoryRegion → Bool
same_region r other = (r.base == other.base) && (r.len == other.len)

-- The addresses of a region.
abbrev pub In : ℕ → MemoryRegion → Type 0
In p r = (r.base ≤ p) × (p < r.base + r.len)

-- A region that ends within the address space.
abbrev pub Fits : MemoryRegion → Type 0
Fits r = r.base + r.len < 2 ^ 64

module _ (r other : MemoryRegion) (fits : Fits r) (other_fits : Fits other) where
  contain-bounds :
      contain r other ≡ true → (r.base ≤ other.base) × (other.base + other.len ≤ r.base + r.len)
  unfolding contain
  contain-bounds h = ground arith

  -- For two regions that end below 2^64, the second of at least one byte, contain holds exactly if
  -- every address of the second is an address of the first.
  pub contain-In : 0 < other.len → (contain r other ≡ true) ↔ ((p : ℕ) → In p other → In p r)
  unfolding contain
  contain-In some_bytes = (
    (λ h p inside. let bounds = contain-bounds h in omega arith),
    (λ all.
        let first = all other.base (omega arith) in
        let final = all (other.base + (other.len - 1)) (omega arith) in ground arith),
  )

  -- `within` is `contain` the other way round.
  pub within-contain : within other r ≡ contain r other
  unfolding within
  within-contain = ground arith

  -- Regions that share an address overlap.
  pub overlap_of_In : (p : ℕ) → In p r → In p other → overlap r other ≡ true
  unfolding overlap
  overlap_of_In p here there = ground arith

  -- For two regions of at least one byte each that end below 2^64, of which the second starts where
  -- the first ends, overlap holds although no address is in both.
  pub overlap_touching :
      0 < r.len
      → 0 < other.len
      → r.base + r.len ≡ other.base
      → (overlap r other ≡ true) × ((p : ℕ) → In p r → In p other → ⊥)
  unfolding overlap
  overlap_touching some_bytes other_bytes touching = (ground arith, λ p here there. omega arith)

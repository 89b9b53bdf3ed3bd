-- ===== src/Memory/BufferPool.antt =====
-- lib/memory/simple_buffer_pool.hxx: `BufferPool`, over `Buffers` of lib/memory/naive_buffer.hxx.
-- A reference to a buffer is its index; memory is a function from addresses to bytes. The lock that
-- `enable_mt` turns on makes the calls of several threads a sequence of these operations.
use dshuffle.Prelude.{
  ℕ, zero, suc, ◌+◌, ◌*◌, ◌%◌, ◌^◌, Bool, false, true, ◌&&◌, ltb, leb, ◌==◌, if◌then◌else◌, List,
  [], ◌∷◌, ◌++◌, Option, none, some, get_or, length,
}
use dshuffle.Prelude.Outcome.{Outcome, ok, ◌>>◌, check}
use dshuffle.Memory.Region.{MemoryRegion, empty}

pub record Buffers : Type 0 where
  pub region : MemoryRegion
  pub piece_len : ℕ
  pub handles : List MemoryRegion

-- `for (auto p = data(); p < data() + size(); p += piece_len) handles.emplace_back(p, piece_len);`
unfoldable pub carve : ℕ → ℕ → ℕ → ℕ → List MemoryRegion
carve zero p stop piece_len = []
carve (suc fuel) p stop piece_len =
    let rest = carve fuel (p + piece_len) stop piece_len in
    if ltb p stop then record { base = p; len = piece_len } ∷ rest else []

-- `Buffers(n, piece_len)`, at the address that the allocation returns. The size is a `size_t`; each round
-- moves on by a byte at least, so one round more than there are bytes is enough for the loop to end by its
-- test.
unfoldable pub buffers : ℕ → ℕ → ℕ → Buffers
unfolding carve
buffers base n piece_len =
    let size = piece_len * n % 2 ^ 64 in
    record {
      region = record { base = base; len = size };
      piece_len = piece_len;
      handles = carve (size + 1) base (base + size) piece_len;
    }

abbrev pub no_region : MemoryRegion
no_region = record { base = 0; len = 0 }

-- `bs[index]`, and `n_elements()`
abbrev pub piece : Buffers → ℕ → MemoryRegion
piece bs i = get_or bs.handles i no_region

abbrev pub n_elements : Buffers → ℕ
n_elements bs = length bs.handles

-- `LocalBuffer::reset`
unfoldable pub reset : MemoryRegion → (ℕ → ℕ) → ℕ → ℕ
unfolding empty
reset r mem =
    if empty r then mem else λ a. if leb r.base a && ltb a (r.base + r.len) then 0 else mem a

pub record BufferPool : Type 0 where
  pub bs : Buffers
  pub q : List ℕ
  pub mt : Bool
  pub mem : ℕ → ℕ

-- the constructor's loop: `n` rounds from buffer `i` on
unfoldable pub enqueue_all : ℕ → ℕ → BufferPool → BufferPool
unfolding reset
enqueue_all zero i p = p
enqueue_all (suc n) i p =
    enqueue_all n (i + 1) (record p { mem = reset (piece p.bs i) p.mem; q = p.q ++ i ∷ [] })

unfoldable pub pool : Buffers → (ℕ → ℕ) → BufferPool
unfolding enqueue_all
pool bs mem = enqueue_all (n_elements bs) 0 (record { bs = bs; q = []; mt = false; mem = mem })

unfoldable pub enable_mt : BufferPool → BufferPool
enable_mt p = record p { mt = true }

unfoldable pub acquire_one : BufferPool → Option ℕ × BufferPool
acquire_one p = elim p.q [ [] ↦ (none, p) | buf ∷ rest ↦ (some buf, record p { q = rest }) ]

-- The assertion of `_release_one`: the buffer is a piece that lies in the pool.
abbrev pub belongs : BufferPool → ℕ → Bool
belongs p i =
    let b = piece p.bs i in
    let r = p.bs.region in
    (b.len == p.bs.piece_len) && (leb r.base b.base && leb (b.base + b.len) (r.base + r.len))

unfoldable pub release_one : BufferPool → ℕ → Outcome BufferPool
unfolding reset
release_one p i = do
  check (belongs p i)
  ok (record p { mem = reset (piece p.bs i) p.mem; q = p.q ++ i ∷ [] })

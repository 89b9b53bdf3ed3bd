-- ===== src/Memory/Tests.antt =====
-- Regions, the allocator and the pools on small inputs.
use dshuffle.Prelude.{
  ℕ, ◌+◌, ◌<◌, ◌≡◌, ◌↔◌, refl, arith, Option, none, some, true, List, [], ◌∷◌, length,
}
use dshuffle.Prelude.Outcome.{ok, assert_failed}
use dshuffle.Memory.Region.{
  MemoryRegion, contain, overlap, In, contain-In, overlap_of_In, overlap_touching,
}
use dshuffle.Memory.Align.{upper_align, IsAligned, upper_align-IsAligned}
use dshuffle.Memory.Allocator
use dshuffle.Memory.Allocator.{SimpleAllocator, allocate, allocate_all, Apart, over}
use dshuffle.Memory.BufferPool.{BufferPool, buffers, piece, n_elements, acquire_one}
use dshuffle.Memory.Count.{count}
use dshuffle.Memory.Layout.{IsLaidOut, buffers-IsLaidOut}
use dshuffle.Memory.PoolHistory.{start, here, acquire_one-Reach, World}
use dshuffle.Memory.ObjectPool
use dshuffle.Memory.ObjectPool.{SimpleObjectPool}

abbrev outer : MemoryRegion
outer = record { base = 100; len = 50 }

abbrev inner : MemoryRegion
inner = record { base = 110; len = 20 }

abbrev behind : MemoryRegion
behind = record { base = 150; len = 8 }

contain-In_example : (contain outer inner ≡ true) ↔ ((p : ℕ) → In p inner → In p outer)
contain-In_example = contain-In outer inner (omega arith) (omega arith) (omega arith)

overlap_touching_example : (overlap outer behind ≡ true) × ((p : ℕ) → In p outer → In p behind → ⊥)
overlap_touching_example =
    overlap_touching outer behind (omega arith) (omega arith) (omega arith) (omega arith) refl

overlap_of_In_example : overlap outer inner ≡ true
overlap_of_In_example =
    overlap_of_In outer inner (omega arith) (omega arith) 111 (omega arith) (omega arith)

upper_align-IsAligned_example : IsAligned 13 8 (upper_align 13 8)
upper_align-IsAligned_example = upper_align-IsAligned 13 8 (omega arith) (omega arith)

abbrev arena : SimpleAllocator
arena = record { mr = record { base = 4096; len = 100 }; pos = 0; lim = 100 }

arena-IsValid : Allocator.IsValid arena
arena-IsValid = record {
  whole = refl;
  fits = omega arith;
  base_aligned = omega arith;
  pos_aligned = omega arith;
  pos_bound = omega arith;
}

allocate_all-Apart_example :
    (r : List (ℕ × ℕ) × SimpleAllocator) × (allocate_all arena (13 ∷ 20 ∷ []) ≡ ok r)
    × Apart (4096 + 0) (4096 + 100) r.0
    × Allocator.IsValid r.1
allocate_all-Apart_example =
    Allocator.allocate_all-Apart arena (13 ∷ 20 ∷ []) arena-IsValid (omega arith) (omega arith)

allocate-fails_example : allocate arena 101 ≡ assert_failed
allocate-fails_example =
    Allocator.allocate-fails arena 101 arena-IsValid (omega arith) (omega arith) (omega arith)

blank : ℕ → ℕ
blank a = 255

buffers-IsLaidOut_example : IsLaidOut (buffers 4096 3 64) × (n_elements (buffers 4096 3 64) ≡ 3)
buffers-IsLaidOut_example = buffers-IsLaidOut 4096 3 64 (omega arith) (omega arith) (omega arith)

acquired : (i : Option ℕ × BufferPool) → World
acquired i = record { pool = i.1; lent = 0 ∷ [] }

acquire_one-Reach_example :
    let w = start (buffers 4096 3 64) blank in
    ((i : ℕ) (p : BufferPool)
      → acquire_one w.pool ≡ (some i, p)
      → (i < n_elements w.pool.bs)
        × (count i w.lent ≡ 0)
        × ((a : ℕ) → In a (piece w.pool.bs i) → p.mem a ≡ 0))
    × ((p : BufferPool) → acquire_one w.pool ≡ (none, p) → length w.lent ≡ n_elements w.pool.bs)
acquire_one-Reach_example =
    acquire_one-Reach (buffers 4096 3 64) blank
      ((buffers-IsLaidOut 4096 3 64 (omega arith) (omega arith) (omega arith)).0) here

abbrev two_objects : SimpleObjectPool
two_objects = record { q = 7 ∷ []; allocated = 9 ∷ []; max_size = 2 }

two_objects-IsValid : ObjectPool.IsValid two_objects
two_objects-IsValid o = ground arith

release_twice_example :
    (p' : SimpleObjectPool) × (ObjectPool.release two_objects 9 ≡ ok p')
    × ((o : ℕ) → ObjectPool.holdings p' o ≡ ObjectPool.holdings two_objects o)
    × (ObjectPool.release p' 9 ≡ assert_failed)
release_twice_example = ObjectPool.release_twice two_objects 9 two_objects-IsValid (omega arith)

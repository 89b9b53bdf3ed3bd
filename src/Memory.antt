-- ===== src/Memory.antt =====
-- lib/memory and lib/util: regions, alignment, the bump allocator, and the two pools.
pub mod Region
pub mod Align
pub mod Allocator
pub mod BufferPool
pub mod Count
pub mod Layout
pub mod PoolHistory
pub mod ObjectPool
mod Tests

-- ===== src/Kernel.antt =====
-- lib/doca/kernel/mem.h: the copy and fill loops of the DPA kernel.
pub mod Copy
pub mod CopyLaws
pub mod Fill
pub mod FillLaws
mod Tests

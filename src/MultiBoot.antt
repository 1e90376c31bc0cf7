-- ===== src/MultiBoot.antt =====
-- What the loader and the kernel agree on: the kernel's header and the memory map.
pub mod Header
pub mod MemoryMap
pub mod Info
mod Tests

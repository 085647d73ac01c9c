-- ===== src/Memory.antt =====
-- Memory management: include/memory and src/memory.
pub mod Chunk
pub mod Buddy
pub mod System

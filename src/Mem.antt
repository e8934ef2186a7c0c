-- ===== src/Mem.antt =====
-- The memory of the specification (spec/mem).
pub mod Pointer
pub mod Basic
pub mod Interface

-- ===== src/Lang.antt =====
-- The language of the specification: its types and its abstract syntax.
pub mod Types
pub mod Syntax
pub mod Value
pub mod Endianness
pub mod Bytes
pub mod Representation

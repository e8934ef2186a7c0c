-- ===== src/Minimize.antt =====
-- tooling/minimize/src: the translation of Rust's MIR into MiniRust.
pub mod Chunks
mod Tests

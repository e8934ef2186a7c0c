-- ===== src/Build/Closed.antt =====
-- The control-flow graphs that `FunctionBuilder` builds (tooling/miniutil/src/build/mod.rs and
-- build/terminator.rs), and what makes one closed.
pub mod Invariant
pub mod Rules
pub mod Control
pub mod Locals
pub mod Methods
pub mod Client
pub mod Graph

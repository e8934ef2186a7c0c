-- ===== src/Build.antt =====
-- tooling/miniutil/src/build: the library that builds MiniRust programs.
pub mod Ty
pub mod TyConv
pub mod Expr
pub mod Terminator
pub mod State
pub mod Methods
pub mod Control
pub mod Program
pub mod Closed
mod Tests

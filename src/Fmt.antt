-- ===== src/Fmt.antt =====
-- The printer of programs (tooling/miniutil/src/fmt).
pub mod Comptypes
pub mod Ty
pub mod Expr
pub mod Function
pub mod Program
pub mod Table
pub mod Printable
mod Tests

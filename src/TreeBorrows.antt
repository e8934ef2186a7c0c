-- ===== src/TreeBorrows.antt =====
-- Tree Borrows (spec/mem/tree_borrows).
pub mod StateMachine
pub mod Tree

-- ===== src/TreeBorrows/StateMachine/Laws.antt =====
-- One transition of the state machine of a location: what it keeps, and what it refuses.
use minirust_contrib_fork.Prelude.{ℕ, ◌≤◌, Bool, true, false, ◌≡◌, arith, ◌≢◌}
pub use minirust_contrib_fork.Prelude.Outcome.{Safe, Safe-and_then, Safe-not_panics, Safe-ub}
use minirust_contrib_fork.TreeBorrows.StateMachine.{
  and_then, Permission, reserved, reserved_im, active, frozen, disabled, yes, LocationState,
  NodeRelation, child, foreign, AccessKind, read, write, child_read, child_write, foreign_read,
  foreign_write, permission_transition, accessed_transition, forbidden, checked, transition,
}

-- The combination that the code calls impossible: a protected location that was accessed and is disabled.
abbrev pub IsPossible : Bool → LocationState → Type 0
IsPossible protected s = protected ≡ true → s.accessed ≡ yes → s.permission ≢ disabled

-- A state that a protected write of a child leaves.
abbrev pub IsWritten : LocationState → Type 0
IsWritten s = (s.accessed ≡ yes) × (s.permission ≡ active)

-- A state that a protected access of a child leaves.
abbrev pub IsUsed : LocationState → Type 0
IsUsed s = (s.accessed ≡ yes) × (s.permission ≢ disabled) × (s.permission ≢ reserved_im)

abbrev pub IsPlain : LocationState → Type 0
IsPlain s = IsPossible true s × (s.permission ≢ reserved_im)

pub transition-IsPossible :
    (s : LocationState) (kind : AccessKind) (relation : NodeRelation) (protected : Bool)
    → IsPossible protected s
    → Safe (IsPossible protected) (transition s kind relation protected)
unfolding transition checked forbidden permission_transition accessed_transition child_read
    child_write foreign_read foreign_write and_then
transition-IsPossible s kind relation protected h = ground arith

pub transition-IsPlain :
    (s : LocationState) (kind : AccessKind) (relation : NodeRelation)
    → IsPlain s
    → Safe IsPlain (transition s kind relation true)
unfolding transition checked forbidden permission_transition accessed_transition child_read
    child_write foreign_read foreign_write and_then
transition-IsPlain s kind relation h = ground arith

pub child_write-IsWritten : (s : LocationState) → Safe IsWritten (transition s write child true)
unfolding transition checked forbidden permission_transition accessed_transition child_read
    child_write foreign_read foreign_write and_then
child_write-IsWritten s = ground arith

pub transition-IsWritten :
    (s : LocationState) (kind : AccessKind) (relation : NodeRelation)
    → IsWritten s
    → Safe IsWritten (transition s kind relation true)
unfolding transition checked forbidden permission_transition accessed_transition child_read
    child_write foreign_read foreign_write and_then
transition-IsWritten s kind relation h = ground arith

pub foreign-IsWritten :
    (s : LocationState) (kind : AccessKind)
    → IsWritten s
    → Safe (λ _. ⊥) (transition s kind foreign true)
unfolding transition checked forbidden permission_transition accessed_transition child_read
    child_write foreign_read foreign_write and_then
foreign-IsWritten s kind h = ground arith

pub child-IsUsed :
    (s : LocationState) (kind : AccessKind) → IsPlain s → Safe IsUsed (transition s kind child true)
unfolding transition checked forbidden permission_transition accessed_transition child_read
    child_write foreign_read foreign_write and_then
child-IsUsed s kind h = ground arith

pub transition-IsUsed :
    (s : LocationState) (kind : AccessKind) (relation : NodeRelation)
    → IsUsed s
    → Safe IsUsed (transition s kind relation true)
unfolding transition checked forbidden permission_transition accessed_transition child_read
    child_write foreign_read foreign_write and_then
transition-IsUsed s kind relation h = ground arith

pub foreign_write-IsUsed :
    (s : LocationState) → IsUsed s → Safe (λ _. ⊥) (transition s write foreign true)
unfolding transition checked forbidden permission_transition accessed_transition child_read
    child_write foreign_read foreign_write and_then
foreign_write-IsUsed s h = ground arith

pub reads_commute_at :
    (s : LocationState) (protected : Bool) (first second : NodeRelation)
    → IsPossible protected s
    → and_then (transition s read first protected) (λ t. transition t read second protected)
      ≡ and_then (transition s read second protected) (λ t. transition t read first protected)
unfolding transition checked forbidden permission_transition accessed_transition child_read
    child_write foreign_read foreign_write and_then
reads_commute_at s protected first second h = ground arith

-- The order in which permissions get weaker.
abbrev pub rank : Permission → ℕ
rank reserved_im = 0
rank (reserved false) = 1
rank (reserved true) = 2
rank active = 3
rank frozen = 4
rank disabled = 5

pub transition-rank :
    (n : ℕ) (s : LocationState) (kind : AccessKind) (relation : NodeRelation) (protected : Bool)
    → IsPossible protected s
    → n ≤ rank s.permission
    → Safe (λ t. n ≤ rank t.permission) (transition s kind relation protected)
unfolding transition checked forbidden permission_transition accessed_transition child_read
    child_write foreign_read foreign_write and_then
transition-rank n s kind relation protected h k = ground arith

-- ===== src/TreeBorrows/StateMachine/Tests.antt =====
-- Runs of the state machine, and instances of its theorems.
use minirust_contrib_fork.Prelude.{◌≤◌, true, false, List, [], ◌∷◌, ◌++◌, ◌≡◌, refl, arith, ◌≢◌}
use minirust_contrib_fork.Lang.Types.{Mutability, PointeeInfo, SizeStrategy}
use minirust_contrib_fork.TreeBorrows.StateMachine.{
  ret, ub, panics, and_then, reserved, reserved_im, active, frozen, yes, child, foreign, read,
  write, child_read, child_write, foreign_read, permission_transition, accessed_transition, checked,
  transition, fresh, default, strong, unprotected, is_protected,
}
use minirust_contrib_fork.TreeBorrows.StateMachine.Laws.{rank}
use minirust_contrib_fork.TreeBorrows.StateMachine.Accesses.{
  Access, accesses, accesses-not_panics, protected_write-exclusive, protected_access-unchanged,
  accesses-rank, reads_commute,
}

-- A pointee with interior mutability.
abbrev cell : PointeeInfo
cell = record {
  size = SizeStrategy.sized 4;
  align = 4;
  inhabited = true;
  freeze = false;
  unpin = true;
}

default_unprotected : default Mutability.mutable cell unprotected ≡ ret reserved_im
unfolding default is_protected
default_unprotected = refl

default_protected : default Mutability.mutable cell strong ≡ ret (reserved false)
unfolding default is_protected
default_protected = refl

-- A read, a foreign read, and a write of a node that is not protected.
abbrev borrow : List Access
borrow = (read, child) ∷ (read, foreign) ∷ (write, child) ∷ []

borrow_unprotected :
    accesses false (fresh (reserved false)) borrow
    ≡ ret (record { accessed = yes; permission = active })
unfolding accesses transition and_then permission_transition child_read foreign_read child_write
    checked accessed_transition
borrow_unprotected = refl

-- The foreign read makes the write of a protected node undefined behaviour.
borrow_protected : accesses true (fresh (reserved false)) borrow ≡ ub
unfolding accesses transition and_then permission_transition child_read foreign_read child_write
    checked accessed_transition
borrow_protected = refl

accesses-not_panics_example :
    and_then (accesses true (fresh active) borrow) (λ t. accesses false t borrow) ≢ panics
accesses-not_panics_example = accesses-not_panics active true borrow borrow

protected_write-exclusive_example :
    accesses true
      (fresh (reserved false))
      (((read, child) ∷ []) ++ (write, child) ∷ (((read, child) ∷ []) ++ (read, foreign) ∷ []))
    ≡ ub
protected_write-exclusive_example =
    protected_write-exclusive (reserved false) read ((read, child) ∷ []) ((read, child) ∷ []) []

frozen_plain : frozen ≢ reserved_im
frozen_plain = ground arith

protected_access-unchanged_example :
    accesses true
      (fresh frozen)
      ([] ++ (read, child) ∷ (((read, foreign) ∷ []) ++ (write, foreign) ∷ []))
    ≡ ub
protected_access-unchanged_example =
    protected_access-unchanged frozen read [] ((read, foreign) ∷ []) [] frozen_plain

accesses-rank_example : rank (reserved false) ≤ rank active
accesses-rank_example =
    accesses-rank (fresh (reserved false)) (record { accessed = yes; permission = active }) false
      borrow (ground arith) borrow_unprotected

reads_commute_example :
    accesses true (fresh active) ((read, foreign) ∷ (read, child) ∷ [])
    ≡ accesses true (fresh active) ((read, child) ∷ (read, foreign) ∷ [])
reads_commute_example = reads_commute (fresh active) true foreign child (ground arith)

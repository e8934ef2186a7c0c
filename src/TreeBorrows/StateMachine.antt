-- ===== src/TreeBorrows/StateMachine.antt =====
-- The state machine of one location in one node of Tree Borrows
-- (spec/mem/tree_borrows/state_machine.md, and the enums of spec/mem/tree_borrows/tree.md).
pub mod Laws
pub mod Accesses
mod Tests
use minirust_contrib_fork.Prelude.{
  ℕ, zero, suc, Bool, true, false, not, ◌&&◌, List, [], ◌∷◌, if◌then◌else◌, replicate,
}
pub use minirust_contrib_fork.Prelude.Outcome.{Outcome, ret, ub, panics}
unfoldable pub use minirust_contrib_fork.Prelude.Outcome.{and_then}
use minirust_contrib_fork.Lang.Types.{Mutability, PointeeInfo}

pub data Permission : Type 0 where
  reserved : (conflicted : Bool) → Permission
  reserved_im : Permission
  active : Permission
  frozen : Permission
  disabled : Permission

pub data Accessed : Type 0 where
  yes : Accessed
  no : Accessed

pub record LocationState : Type 0 where
  pub accessed : Accessed
  pub permission : Permission

pub data Protected : Type 0 where
  strong : Protected
  weak : Protected
  unprotected : Protected

pub data NodeRelation : Type 0 where
  child : NodeRelation
  foreign : NodeRelation

pub data AccessKind : Type 0 where
  read : AccessKind
  write : AccessKind

unfoldable pub is_protected : Protected → Bool
is_protected strong = true
is_protected weak = true
is_protected unprotected = false

unfoldable pub permission_of_shared : Bool → Outcome Permission
permission_of_shared true = ret frozen
permission_of_shared false = panics

unfoldable pub default : Mutability → PointeeInfo → Protected → Outcome Permission
default Mutability.mutable pointee protection =
    if not pointee.freeze && not (is_protected protection)
    then ret reserved_im
    else ret (reserved false)
default Mutability.immutable pointee _ = permission_of_shared pointee.freeze

unfoldable pub child_read : Permission → Outcome Permission
child_read disabled = ub
child_read (reserved conflicted) = ret (reserved conflicted)
child_read reserved_im = ret reserved_im
child_read active = ret active
child_read frozen = ret frozen

unfoldable pub child_write : Permission → Bool → Outcome Permission
child_write (reserved true) true = ub
child_write (reserved true) false = ret active
child_write (reserved false) protected = ret active
child_write frozen protected = ub
child_write disabled protected = ub
child_write reserved_im protected = ret active
child_write active protected = ret active

unfoldable pub foreign_read : Permission → Bool → Outcome Permission
foreign_read active true = ret disabled
foreign_read active false = ret frozen
foreign_read (reserved conflicted) true = ret (reserved true)
foreign_read (reserved conflicted) false = ret (reserved conflicted)
foreign_read reserved_im protected = ret reserved_im
foreign_read frozen protected = ret frozen
foreign_read disabled protected = ret disabled

unfoldable pub foreign_write : Permission → Outcome Permission
foreign_write reserved_im = ret reserved_im
foreign_write (reserved conflicted) = ret disabled
foreign_write active = ret disabled
foreign_write frozen = ret disabled
foreign_write disabled = ret disabled

unfoldable pub permission_transition :
    Permission → AccessKind → NodeRelation → Bool → Outcome Permission
permission_transition p read child protected = child_read p
permission_transition p write child protected = child_write p protected
permission_transition p read foreign protected = foreign_read p protected
permission_transition p write foreign protected = foreign_write p

unfoldable pub accessed_transition : Accessed → NodeRelation → Accessed
accessed_transition accessed foreign = accessed
accessed_transition accessed child = yes

unfoldable pub new_list : Permission → ℕ → List LocationState
new_list permission len = replicate len (record { accessed = no; permission = permission })

-- What the forbidden combination "Disabled, Accessed" of a protected node reports.
unfoldable pub forbidden : Permission → Outcome LocationState
forbidden disabled = panics
forbidden reserved_im = panics
forbidden active = ub
forbidden frozen = ub
forbidden (reserved conflicted) = ub

unfoldable pub checked : Permission → Bool → Permission → Accessed → Outcome LocationState
checked old_perm true disabled yes = forbidden old_perm
checked old_perm true disabled no = ret (record { accessed = no; permission = disabled })
checked old_perm true (reserved c) accessed =
    ret (record { accessed = accessed; permission = reserved c })
checked old_perm true reserved_im accessed =
    ret (record { accessed = accessed; permission = reserved_im })
checked old_perm true active accessed = ret (record { accessed = accessed; permission = active })
checked old_perm true frozen accessed = ret (record { accessed = accessed; permission = frozen })
checked old_perm false permission accessed =
    ret (record { accessed = accessed; permission = permission })

unfoldable pub transition : LocationState → AccessKind → NodeRelation → Bool → Outcome LocationState
transition state access_kind node_relation protected =
    and_then (permission_transition state.permission access_kind node_relation protected)
      λ permission.
        checked state.permission protected permission
          (accessed_transition state.accessed node_relation)

-- The state of each location of a new node.
abbrev pub fresh : Permission → LocationState
fresh permission = record { accessed = no; permission = permission }

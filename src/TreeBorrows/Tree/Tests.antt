-- ===== src/TreeBorrows/Tree/Tests.antt =====
-- Accesses of a tree, and instances of its theorems.
use minirust_contrib_fork.Prelude.{false, [], ◌∷◌, some, ◌≡◌, ◌≢◌, refl, arith}
use minirust_contrib_fork.TreeBorrows.StateMachine.{
  ret, panics, and_then, Permission, reserved, active, disabled, yes, write, child_write,
  foreign_write, permission_transition, accessed_transition, checked, transition, fresh,
  unprotected, is_protected,
}
use minirust_contrib_fork.TreeBorrows.Tree.{
  Node, node, no_node, and_node, mutate_at, node_transition, relation_of, sub_path, access,
  access_children,
}
use minirust_contrib_fork.TreeBorrows.Tree.{release_protector}
use minirust_contrib_fork.TreeBorrows.Tree.Release.{release_protector-IsWellFormed}
use minirust_contrib_fork.TreeBorrows.StateMachine.{strong, LocationState}
use minirust_contrib_fork.TreeBorrows.Tree.Safety.{IsWellFormed, access-IsWellFormed}

abbrev leaf : Permission → Node
leaf permission = node no_node (fresh permission ∷ fresh permission ∷ []) unprotected

-- An active root of two bytes with two mutable borrows.
abbrev tree : Node
tree =
    node (and_node (leaf (reserved false)) (and_node (leaf (reserved false)) no_node))
      (fresh active ∷ fresh active ∷ []) unprotected

-- Writing the second byte with the first borrow activates it there and disables the second borrow.
write_first :
    access tree (some (0 ∷ [])) write 1 1
    ≡ ret (
        node
          (and_node
            (node no_node
              (fresh (reserved false) ∷ (record { accessed = yes; permission = active }) ∷ [])
              unprotected)
            (and_node
              (node no_node (fresh (reserved false) ∷ fresh disabled ∷ []) unprotected)
              no_node))
          (fresh active ∷ (record { accessed = yes; permission = active }) ∷ [])
          unprotected)
unfolding access access_children sub_path relation_of node_transition mutate_at transition and_then
    permission_transition child_write foreign_write checked accessed_transition is_protected
write_first = refl

tree_wf : IsWellFormed 2 tree
unfolding is_protected
tree_wf = ground arith

access-IsWellFormed_example :
    (access tree (some (0 ∷ [])) write 1 1 ≢ panics)
    × ((r : Node) → access tree (some (0 ∷ [])) write 1 1 ≡ ret r → IsWellFormed 2 r)
access-IsWellFormed_example =
    access-IsWellFormed 2 tree (some (0 ∷ [])) write 1 1 (omega arith) tree_wf

-- The first borrow as an argument of a call, after a write, and the second beside it.
abbrev written : LocationState
written = record { accessed = yes; permission = active }

abbrev protected_tree : Node
protected_tree =
    node
      (and_node (node no_node (written ∷ fresh (reserved false) ∷ []) strong)
        (and_node (leaf (reserved false)) no_node))
      (written ∷ fresh active ∷ []) unprotected

protected_wf : IsWellFormed 2 protected_tree
unfolding is_protected
protected_wf = ground arith

release_protector-IsWellFormed_example :
    (release_protector protected_tree (some (0 ∷ [])) (written ∷ fresh (reserved false) ∷ [])
      ≢ panics)
    × ((r : Node)
        → release_protector protected_tree (some (0 ∷ [])) (written ∷ fresh (reserved false) ∷ [])
          ≡ ret r
        → IsWellFormed 2 r)
release_protector-IsWellFormed_example =
    release_protector-IsWellFormed 2 protected_tree (some (0 ∷ []))
      (written ∷ fresh (reserved false) ∷ []) (omega arith) protected_wf

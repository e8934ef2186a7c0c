-- ===== src/TreeBorrows/Tree/Release.antt =====
-- Releasing a protector and the well-formedness of the nodes (spec/mem/tree_borrows/tree.md).
use minirust_contrib_fork.Prelude.{
  ℕ, zero, suc, ◌+◌, ◌≤◌, Bool, true, false, List, [], ◌∷◌, Option, none, some, ◌≡◌, ◌≢◌, arith,
  length, All-weaken, subst,
}
use minirust_contrib_fork.TreeBorrows.StateMachine.{
  ret, panics, and_then, LocationState, is_protected, NodeRelation, child, foreign, Accessed, yes,
  no, Permission, transition,
}
use minirust_contrib_fork.TreeBorrows.StateMachine.Laws.{
  Safe, Safe-and_then, Safe-not_panics, IsPossible, transition-IsPossible,
}
use minirust_contrib_fork.TreeBorrows.Tree.{
  Node, Nodes, node, no_node, and_node, NodePath, sub_path, kind_of_release, release_location,
  release_locations, release_protector, release_children,
}
use minirust_contrib_fork.TreeBorrows.Tree.Safety.{
  StatesWf, IsWellFormed, AreWellFormed, mutate_at-Safe,
}

release_location-Safe :
    (n : ℕ) (accessed : Accessed) (permission : Permission) (states : List LocationState)
    (offset : ℕ) (relation : NodeRelation) (protected : Bool)
    → suc offset ≤ n
    → StatesWf n protected states
    → Safe
        (StatesWf n protected)
        (release_location accessed permission states offset relation protected)
unfolding release_location
release_location-Safe n no permission states offset relation protected le h = h
release_location-Safe n yes permission states offset relation protected le h =
    mutate_at-Safe n offset protected
      (λ s. transition s (kind_of_release permission) relation protected) states
      (λ s k. transition-IsPossible s (kind_of_release permission) relation protected k)
      (omega arith) h

release_locations-Safe :
    (n : ℕ) (rest states : List LocationState) (offset : ℕ) (relation : NodeRelation)
    (protected : Bool)
    → offset + length rest ≤ n
    → StatesWf n protected states
    → Safe (StatesWf n protected) (release_locations rest states offset relation protected)
unfolding release_locations
release_locations-Safe n [] states offset relation protected le h = h
release_locations-Safe n (s ∷ rest) states offset relation protected le h =
    Safe-and_then (StatesWf n protected) (StatesWf n protected)
      (release_location s.accessed s.permission states offset relation protected)
      (λ mutated. release_locations rest mutated (suc offset) relation protected)
      (release_location-Safe n s.accessed s.permission states offset relation protected
        (omega arith) h)
      (λ mutated k.
        release_locations-Safe n rest mutated (suc offset) relation protected (omega arith) k)

-- Without protection every state is possible.
StatesWf-unprotected :
    (n : ℕ) (protected : Bool) (states : List LocationState)
    → StatesWf n protected states
    → StatesWf n false states
StatesWf-unprotected n protected states h = (
  h.0,
  All-weaken (IsPossible protected) (IsPossible false) states (λ s k e. absurd (false_true e)) h.1,
)
  where
    false_true : false ≡ true → ⊥
    false_true e = ground arith

mutual
  unfolding release_protector release_children is_protected

  release_protector-Safe :
      (n : ℕ) (m : Node) (path : Option NodePath) (locations : List LocationState)
      → length locations ≤ n
      → IsWellFormed n m
      → Safe (IsWellFormed n) (release_protector m path locations)
  release_protector-Safe n (node children states protection) (some []) locations le h =
      (StatesWf-unprotected n (is_protected protection) states h.0, h.1)
  release_protector-Safe n (node children states protection) (some (i ∷ path)) locations le h =
      Safe-and_then (StatesWf n (is_protected protection)) (IsWellFormed n)
        (release_locations locations states zero child (is_protected protection))
        (λ mutated.
          and_then (release_children children zero (some (i ∷ path)) locations)
            λ released. ret (node released mutated protection))
        (release_locations-Safe n locations states zero child (is_protected protection)
          (omega arith) h.0)
        (λ mutated k.
          Safe-and_then (AreWellFormed n) (IsWellFormed n)
            (release_children children zero (some (i ∷ path)) locations)
            (λ released. ret (node released mutated protection))
            (release_children-Safe n children zero (some (i ∷ path)) locations le h.1)
            (λ released l. (k, l)))
  release_protector-Safe n (node children states protection) none locations le h =
      Safe-and_then (StatesWf n (is_protected protection)) (IsWellFormed n)
        (release_locations locations states zero foreign (is_protected protection))
        (λ mutated.
          and_then (release_children children zero none locations)
            λ released. ret (node released mutated protection))
        (release_locations-Safe n locations states zero foreign (is_protected protection)
          (omega arith) h.0)
        (λ mutated k.
          Safe-and_then (AreWellFormed n) (IsWellFormed n)
            (release_children children zero none locations)
            (λ released. ret (node released mutated protection))
            (release_children-Safe n children zero none locations le h.1) (λ released l. (k, l)))

  release_children-Safe :
      (n : ℕ) (nodes : Nodes) (child_id : ℕ) (path : Option NodePath)
      (locations : List LocationState)
      → length locations ≤ n
      → AreWellFormed n nodes
      → Safe (AreWellFormed n) (release_children nodes child_id path locations)
  release_children-Safe n no_node child_id path locations le h = tt
  release_children-Safe n (and_node m nodes) child_id path locations le h =
      Safe-and_then (IsWellFormed n) (AreWellFormed n)
        (release_protector m (sub_path path child_id) locations)
        (λ k.
          and_then (release_children nodes (suc child_id) path locations)
            λ rest. ret (and_node k rest))
        (release_protector-Safe n m (sub_path path child_id) locations le h.0)
        (λ k wf.
          Safe-and_then (AreWellFormed n) (AreWellFormed n)
            (release_children nodes (suc child_id) path locations) (λ rest. ret (and_node k rest))
            (release_children-Safe n nodes (suc child_id) path locations le h.1)
            (λ rest l. (wf, l)))

-- Releasing a protector, at any path, of a tree with one state per byte of the allocation in each
-- node and no protected node with an accessed and disabled location, by the states of at most as
-- many locations, never panics, and a tree that it returns is again such a tree.
pub release_protector-IsWellFormed :
    (n : ℕ) (m : Node) (path : Option NodePath) (locations : List LocationState)
    → length locations ≤ n
    → IsWellFormed n m
    → (release_protector m path locations ≢ panics)
      × ((r : Node) → release_protector m path locations ≡ ret r → IsWellFormed n r)
release_protector-IsWellFormed n m path locations le h = (
  Safe-not_panics (IsWellFormed n) (release_protector m path locations)
      (release_protector-Safe n m path locations le h),
  λ r e. subst (Safe (IsWellFormed n)) e (release_protector-Safe n m path locations le h),
)

-- ===== src/TreeBorrows/Tree/Safety.antt =====
-- Accesses of a tree and the well-formedness of its nodes (spec/mem/tree_borrows/tree.md).
use minirust_contrib_fork.Prelude.{
  ℕ, zero, suc, ◌+◌, ◌≤◌, ◌<◌, Bool, List, [], ◌∷◌, Option, ◌≡◌, refl, arith, length, All, ap, ◌∙◌,
  subst, ◌≢◌,
}
use minirust_contrib_fork.TreeBorrows.StateMachine.{
  Outcome, ret, panics, and_then, LocationState, is_protected, NodeRelation, AccessKind, transition,
}
use minirust_contrib_fork.TreeBorrows.StateMachine.Laws.{
  Safe, Safe-and_then, Safe-not_panics, IsPossible, transition-IsPossible,
}
use minirust_contrib_fork.TreeBorrows.Tree.{
  Node, Nodes, node, no_node, and_node, NodePath, mutate_at, node_transition, relation_of, sub_path,
  access, access_children,
}

-- The states of a node of an allocation of `n` bytes.
abbrev pub StatesWf : ℕ → Bool → List LocationState → Type 0
StatesWf n protected states = (length states ≡ n) × All (IsPossible protected) states

-- Every node of the tree has one state per byte, and none that the code calls impossible.
abbrev mutual
  pub IsWellFormed : ℕ → Node → Type 0
  IsWellFormed n (node children states protection) =
      StatesWf n (is_protected protection) states × AreWellFormed n children

  pub AreWellFormed : ℕ → Nodes → Type 0
  AreWellFormed n no_node = Unit
  AreWellFormed n (and_node m nodes) = IsWellFormed n m × AreWellFormed n nodes

tail_bound : {n k i : ℕ} → suc i < n → suc k ≡ n → i < k
tail_bound lt e = omega arith

pub mutate_at-Safe :
    (n i : ℕ) (protected : Bool) (f : LocationState → Outcome LocationState)
    (states : List LocationState)
    → ((s : LocationState) → IsPossible protected s → Safe (IsPossible protected) (f s))
    → i < n
    → StatesWf n protected states
    → Safe (StatesWf n protected) (mutate_at states i f)
unfolding mutate_at
mutate_at-Safe n i protected f [] step lt h = ground arith
mutate_at-Safe n zero protected f (s ∷ l) step lt h =
    Safe-and_then (IsPossible protected) (StatesWf n protected) (f s) (λ t. ret (t ∷ l))
      (step s h.1.0) (λ t k. (h.0, (k, h.1.1)))
mutate_at-Safe n (suc i) protected f (s ∷ l) step lt h =
    Safe-and_then (StatesWf (length l) protected) (StatesWf n protected) (mutate_at l i f)
      (λ m. ret (s ∷ m))
      (mutate_at-Safe (length l) i protected f l step (tail_bound lt h.0) (refl, h.1.1))
      (λ m k. (ap suc k.0 ∙ h.0, (h.1.0, k.1)))

node_transition-Safe :
    (n : ℕ) (states : List LocationState) (relation : NodeRelation) (kind : AccessKind)
    (offset size : ℕ) (protected : Bool)
    → offset + size ≤ n
    → StatesWf n protected states
    → Safe (StatesWf n protected) (node_transition states relation kind offset size protected)
unfolding node_transition
node_transition-Safe n states relation kind offset zero protected le h = h
node_transition-Safe n states relation kind offset (suc size) protected le h =
    Safe-and_then (StatesWf n protected) (StatesWf n protected)
      (mutate_at states offset λ s. transition s kind relation protected)
      (λ mutated. node_transition mutated relation kind (suc offset) size protected)
      (mutate_at-Safe n offset protected (λ s. transition s kind relation protected) states
        (λ s k. transition-IsPossible s kind relation protected k) (omega arith) h)
      (λ mutated k.
        node_transition-Safe n mutated relation kind (suc offset) size protected (omega arith) k)

mutual
  unfolding access access_children

  access-Safe :
      (n : ℕ) (m : Node) (path : Option NodePath) (kind : AccessKind) (offset size : ℕ)
      → offset + size ≤ n
      → IsWellFormed n m
      → Safe (IsWellFormed n) (access m path kind offset size)
  access-Safe n (node children states protection) path kind offset size le h =
      Safe-and_then (StatesWf n (is_protected protection)) (IsWellFormed n)
        (node_transition states (relation_of path) kind offset size (is_protected protection))
        (λ mutated.
          and_then (access_children children zero path kind offset size)
            λ accessed. ret (node accessed mutated protection))
        (node_transition-Safe n states (relation_of path) kind offset size (is_protected protection)
          le h.0)
        (λ mutated k.
          Safe-and_then (AreWellFormed n) (IsWellFormed n)
            (access_children children zero path kind offset size)
            (λ accessed. ret (node accessed mutated protection))
            (access_children-Safe n children zero path kind offset size le h.1)
            (λ accessed l. (k, l)))

  access_children-Safe :
      (n : ℕ) (nodes : Nodes) (child_id : ℕ) (path : Option NodePath) (kind : AccessKind)
      (offset size : ℕ)
      → offset + size ≤ n
      → AreWellFormed n nodes
      → Safe (AreWellFormed n) (access_children nodes child_id path kind offset size)
  access_children-Safe n no_node child_id path kind offset size le h = tt
  access_children-Safe n (and_node m nodes) child_id path kind offset size le h =
      Safe-and_then (IsWellFormed n) (AreWellFormed n)
        (access m (sub_path path child_id) kind offset size)
        (λ k.
          and_then (access_children nodes (suc child_id) path kind offset size)
            λ rest. ret (and_node k rest))
        (access-Safe n m (sub_path path child_id) kind offset size le h.0)
        (λ k wf.
          Safe-and_then (AreWellFormed n) (AreWellFormed n)
            (access_children nodes (suc child_id) path kind offset size)
            (λ rest. ret (and_node k rest))
            (access_children-Safe n nodes (suc child_id) path kind offset size le h.1)
            (λ rest l. (wf, l)))

-- An access within the bounds of an allocation, of a tree with one state per byte in each node and
-- no protected node with an accessed and disabled location, never panics, and a tree that it
-- returns is again such a tree.
pub access-IsWellFormed :
    (n : ℕ) (m : Node) (path : Option NodePath) (kind : AccessKind) (offset size : ℕ)
    → offset + size ≤ n
    → IsWellFormed n m
    → (access m path kind offset size ≢ panics)
      × ((r : Node) → access m path kind offset size ≡ ret r → IsWellFormed n r)
access-IsWellFormed n m path kind offset size le h = (
  Safe-not_panics (IsWellFormed n) (access m path kind offset size)
      (access-Safe n m path kind offset size le h),
  λ r e. subst (Safe (IsWellFormed n)) e (access-Safe n m path kind offset size le h),
)

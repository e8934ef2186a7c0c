-- ===== src/TreeBorrows/Tree.antt =====
-- The tree of an allocation (spec/mem/tree_borrows/tree.md): `Node`, the accesses
-- that walk it, and the release of a protector.
-- `children` is a data type of its own, a `Path` lists the index of a child at each level, and `mutate_at` of
-- `List`, which `libspecr` provides, panics out of range.
pub mod Safety
pub mod Release
mod Tests
use minirust_contrib_fork.Prelude.{
  ℕ, zero, suc, Bool, true, false, ◌||◌, List, [], ◌∷◌, Option, none, some, if◌then◌else◌, ◌==◌,
}
use minirust_contrib_fork.TreeBorrows.StateMachine.{
  Outcome, ret, panics, and_then, LocationState, Protected, strong, weak, unprotected, is_protected,
  NodeRelation, child, foreign, AccessKind, read, write, Permission, reserved, reserved_im, active,
  frozen, disabled, Accessed, yes, no, transition,
}

mutual
  pub data Node : Type 0 where
    node : Nodes → List LocationState → Protected → Node

  -- `List<Node>`
  pub data Nodes : Type 0 where
    no_node : Nodes
    and_node : Node → Nodes → Nodes

abbrev pub NodePath : Type 0
NodePath = List ℕ

unfoldable pub mutate_at :
    List LocationState → ℕ → (LocationState → Outcome LocationState) → Outcome (List LocationState)
mutate_at [] i f = panics
mutate_at (s ∷ l) zero f = and_then (f s) λ t. ret (t ∷ l)
mutate_at (s ∷ l) (suc i) f = and_then (mutate_at l i f) λ m. ret (s ∷ m)

-- The loop over `offset_start..offset_start + size.bytes()`, by recursion on the size.
unfoldable pub node_transition :
    List LocationState → NodeRelation → AccessKind → ℕ → ℕ → Bool → Outcome (List LocationState)
node_transition states node_relation access_kind offset zero protected = ret states
node_transition states node_relation access_kind offset (suc size) protected =
    and_then (mutate_at states offset λ s. transition s access_kind node_relation protected)
      λ mutated. node_transition mutated node_relation access_kind (suc offset) size protected

unfoldable pub relation_of : Option NodePath → NodeRelation
relation_of (some path) = child
relation_of none = foreign

unfoldable pub sub_path : Option NodePath → ℕ → Option NodePath
sub_path none child_id = none
sub_path (some []) child_id = none
sub_path (some (head ∷ tail)) child_id = if head == child_id then some tail else none

unfoldable mutual
  pub access : Node → Option NodePath → AccessKind → ℕ → ℕ → Outcome Node
  access (node children states protection) path access_kind offset size =
      and_then
        (node_transition states (relation_of path) access_kind offset size
          (is_protected protection))
        λ mutated.
          and_then (access_children children zero path access_kind offset size)
            λ accessed. ret (node accessed mutated protection)

  -- The loop over the children, from number `child_id`.
  pub access_children : Nodes → ℕ → Option NodePath → AccessKind → ℕ → ℕ → Outcome Nodes
  access_children no_node child_id path access_kind offset size = ret no_node
  access_children (and_node n nodes) child_id path access_kind offset size =
      and_then (access n (sub_path path child_id) access_kind offset size) λ m.
        and_then (access_children nodes (suc child_id) path access_kind offset size)
          λ rest. ret (and_node m rest)

unfoldable mutual
  pub contains_strong_protector : Node → Bool
  contains_strong_protector (node children states strong) = true
  contains_strong_protector (node children states weak) = any_strong_protector children
  contains_strong_protector (node children states unprotected) = any_strong_protector children

  pub any_strong_protector : Nodes → Bool
  any_strong_protector no_node = false
  any_strong_protector (and_node n nodes) =
      contains_strong_protector n || any_strong_protector nodes

unfoldable pub kind_of_release : Permission → AccessKind
kind_of_release active = write
kind_of_release (reserved conflicted) = read
kind_of_release reserved_im = read
kind_of_release frozen = read
kind_of_release disabled = read

-- The step for one location: nothing, where the protected node never accessed it.
unfoldable pub release_location :
    Accessed
    → Permission
    → List LocationState
    → ℕ
    → NodeRelation
    → Bool
    → Outcome (List LocationState)
release_location no permission states offset node_relation protected = ret states
release_location yes permission states offset node_relation protected =
    mutate_at states offset λ s. transition s (kind_of_release permission) node_relation protected

-- The loop over the locations of the protected node, from number `offset`.
unfoldable pub release_locations :
    List LocationState → List LocationState → ℕ → NodeRelation → Bool → Outcome (List LocationState)
release_locations [] states offset node_relation protected = ret states
release_locations (s ∷ rest) states offset node_relation protected =
    and_then (release_location s.accessed s.permission states offset node_relation protected)
      λ mutated. release_locations rest mutated (suc offset) node_relation protected

unfoldable mutual
  pub release_protector : Node → Option NodePath → List LocationState → Outcome Node
  release_protector (node children states protection) (some []) location_states =
      ret (node children states unprotected)
  release_protector (node children states protection) (some (i ∷ path)) location_states =
      and_then (release_locations location_states states zero child (is_protected protection))
        λ mutated.
          and_then (release_children children zero (some (i ∷ path)) location_states)
            λ released. ret (node released mutated protection)
  release_protector (node children states protection) none location_states =
      and_then (release_locations location_states states zero foreign (is_protected protection))
        λ mutated.
          and_then (release_children children zero none location_states)
            λ released. ret (node released mutated protection)

  -- The loop over the children, from number `child_id`.
  pub release_children : Nodes → ℕ → Option NodePath → List LocationState → Outcome Nodes
  release_children no_node child_id path location_states = ret no_node
  release_children (and_node n nodes) child_id path location_states =
      and_then (release_protector n (sub_path path child_id) location_states) λ m.
        and_then (release_children nodes (suc child_id) path location_states)
          λ rest. ret (and_node m rest)

-- ===== src/TreeBorrows/StateMachine/Accesses.antt =====
-- The accesses that a location of a node sees between the creation of the node and the end of its
-- protection, and after it.
use minirust_contrib_fork.Prelude.{
  ◌≤◌, Bool, true, false, List, [], ◌∷◌, ◌++◌, ◌≡◌, refl, arith, ◌≢◌, ap, sym, subst, fun_ext, ◌∙◌,
}
use minirust_contrib_fork.TreeBorrows.StateMachine.{
  Outcome, ret, ub, panics, and_then, Permission, reserved_im, LocationState, NodeRelation, child,
  foreign, AccessKind, read, write, transition, fresh,
}
use minirust_contrib_fork.TreeBorrows.StateMachine.Laws.{
  Safe, Safe-and_then, Safe-not_panics, Safe-ub, IsPossible, IsWritten, IsUsed, IsPlain,
  transition-IsPossible, transition-IsPlain, child_write-IsWritten, transition-IsWritten,
  foreign-IsWritten, child-IsUsed, transition-IsUsed, foreign_write-IsUsed, reads_commute_at, rank,
  transition-rank,
}

abbrev pub Access : Type 0
Access = AccessKind × NodeRelation

-- The accesses of a list, in order, while the protection of the node stays the same.
unfoldable pub accesses : Bool → LocationState → List Access → Outcome LocationState
accesses protected s [] = ret s
accesses protected s ((kind, relation) ∷ l) =
    and_then (transition s kind relation protected) (λ t. accesses protected t l)

accesses-Safe :
    (P : LocationState → Type 0) (protected : Bool)
    → ((s : LocationState) (kind : AccessKind) (relation : NodeRelation)
        → P s
        → Safe P (transition s kind relation protected))
    → (s : LocationState) (l : List Access) → P s
    → Safe P (accesses protected s l)
unfolding accesses
accesses-Safe P protected step s [] h = h
accesses-Safe P protected step s ((kind, relation) ∷ l) h =
    Safe-and_then P P (transition s kind relation protected) (λ t. accesses protected t l)
      (step s kind relation h) (λ t k. accesses-Safe P protected step t l k)

-- A list of accesses with two accesses singled out ends in undefined behaviour, where the first access leaves
-- a property that every access keeps and that makes the second one undefined behaviour.
accesses-conflict :
    (P Q : LocationState → Type 0) (e f : Access)
    → ((s : LocationState) (kind : AccessKind) (relation : NodeRelation)
        → P s
        → Safe P (transition s kind relation true))
    → ((s : LocationState) (kind : AccessKind) (relation : NodeRelation)
        → Q s
        → Safe Q (transition s kind relation true))
    → ((s : LocationState) → P s → Safe Q (transition s e.0 e.1 true))
    → ((s : LocationState) → Q s → Safe (λ _. ⊥) (transition s f.0 f.1 true))
    → (before middle after : List Access) (s : LocationState) → P s
    → Safe (λ _. ⊥) (accesses true s (before ++ e ∷ (middle ++ f ∷ after)))
unfolding accesses
accesses-conflict P Q e f p q first second [] middle after s h =
    Safe-and_then Q (λ _. ⊥) (transition s e.0 e.1 true)
      (λ t. accesses true t (middle ++ f ∷ after)) (first s h) (λ t k. second_access middle t k)
  where
    second_access :
        (middle : List Access) (t : LocationState)
        → Q t
        → Safe (λ _. ⊥) (accesses true t (middle ++ f ∷ after))
    second_access [] t k =
        Safe-and_then (λ _. ⊥) (λ _. ⊥) (transition t f.0 f.1 true) (λ u. accesses true u after)
          (second t k) (λ u z. elim z [ ])
    second_access ((kind, relation) ∷ l) t k =
        Safe-and_then Q (λ _. ⊥) (transition t kind relation true)
          (λ u. accesses true u (l ++ f ∷ after)) (q t kind relation k) (λ u z. second_access l u z)
accesses-conflict P Q e f p q first second ((kind, relation) ∷ l) middle after s h =
    Safe-and_then P (λ _. ⊥) (transition s kind relation true)
      (λ t. accesses true t (l ++ e ∷ (middle ++ f ∷ after))) (p s kind relation h)
      (λ t k. accesses-conflict P Q e f p q first second l middle after t k)

and_then-ret : (o : Outcome LocationState) → and_then o (λ t. ret t) ≡ o
unfolding and_then
and_then-ret (ret s) = refl
and_then-ret ub = refl
and_then-ret panics = refl

fresh-IsPossible : (p : Permission) (protected : Bool) → IsPossible protected (fresh p)
fresh-IsPossible p protected = ground arith

-- Whatever permission a node starts with and whatever accesses it sees, first with or without
-- protection, then without it, the state machine of a location does not panic.
pub accesses-not_panics :
    (p : Permission) (protected : Bool) (before after : List Access)
    → and_then (accesses protected (fresh p) before) (λ t. accesses false t after) ≢ panics
accesses-not_panics p protected before after =
    Safe-not_panics (IsPossible false)
      (and_then (accesses protected (fresh p) before) (λ t. accesses false t after))
      (Safe-and_then (IsPossible protected) (IsPossible false) (accesses protected (fresh p) before)
        (λ t. accesses false t after)
        (accesses-Safe (IsPossible protected) protected
          (λ s kind relation h. transition-IsPossible s kind relation protected h) (fresh p) before
          (fresh-IsPossible p protected))
        (λ t h.
          accesses-Safe (IsPossible false) false
            (λ s kind relation k. transition-IsPossible s kind relation false k) t after
            (ground arith)))

-- Once a child wrote to a location of a protected node, a later foreign access while the
-- protection lasts makes the list of accesses undefined behaviour, for any permission that the
-- node starts with, wherever the two accesses stand in the list.
pub protected_write-exclusive :
    (p : Permission) (kind : AccessKind) (before middle after : List Access)
    → accesses true (fresh p) (before ++ (write, child) ∷ (middle ++ (kind, foreign) ∷ after)) ≡ ub
protected_write-exclusive p kind before middle after =
    Safe-ub
      (accesses true (fresh p) (before ++ (write, child) ∷ (middle ++ (kind, foreign) ∷ after)))
      (accesses-conflict (IsPossible true) IsWritten (write, child) (kind, foreign)
        (λ s k r h. transition-IsPossible s k r true h) transition-IsWritten
        (λ s h. child_write-IsWritten s) (λ s h. foreign-IsWritten s kind h) before middle after
        (fresh p) (fresh-IsPossible p true))

-- Once a child accessed a location of a protected node whose permission did not start as
-- `reserved_im`, a later foreign write while the protection lasts makes the list of accesses
-- undefined behaviour, wherever the two accesses stand in the list.
pub protected_access-unchanged :
    (p : Permission) (kind : AccessKind) (before middle after : List Access)
    → p ≢ reserved_im
    → accesses true (fresh p) (before ++ (kind, child) ∷ (middle ++ (write, foreign) ∷ after)) ≡ ub
protected_access-unchanged p kind before middle after h =
    Safe-ub
      (accesses true (fresh p) (before ++ (kind, child) ∷ (middle ++ (write, foreign) ∷ after)))
      (accesses-conflict IsPlain IsUsed (kind, child) (write, foreign) transition-IsPlain
        transition-IsUsed (λ s k. child-IsUsed s kind k) foreign_write-IsUsed before middle after
        (fresh p) (fresh-IsPossible p true, h))

pub Safe-× :
    (P Q : LocationState → Type 0) (o : Outcome LocationState)
    → Safe P o
    → Safe Q o
    → Safe (λ s. P s × Q s) o
Safe-× P Q (ret s) h k = (h, k)
Safe-× P Q ub h k = tt
Safe-× P Q panics h k = h

-- Where a list of accesses returns, from any state but an accessed and disabled one of a protected
-- node, the rank of the permission (`reserved_im`, `reserved`, a conflicted `reserved`, `active`,
-- `frozen`, `disabled`) is at least what it was.
pub accesses-rank :
    (s t : LocationState) (protected : Bool) (l : List Access)
    → IsPossible protected s
    → accesses protected s l ≡ ret t
    → rank s.permission ≤ rank t.permission
accesses-rank s t protected l h e =
    (subst (λ o. Safe (λ u. IsPossible protected u × (rank s.permission ≤ rank u.permission)) o) e
      (accesses-Safe (λ u. IsPossible protected u × (rank s.permission ≤ rank u.permission))
        protected
        (λ u kind relation k.
          Safe-× (IsPossible protected) (λ v. rank s.permission ≤ rank v.permission)
            (transition u kind relation protected)
            (transition-IsPossible u kind relation protected k.0)
            (transition-rank (rank s.permission) u kind relation protected k.0 k.1))
        s l (h, omega arith))).1

-- Two reads of a location, each by a child or a foreign node, give the same outcome in either
-- order, from any state but an accessed and disabled one of a protected node.
pub reads_commute :
    (s : LocationState) (protected : Bool) (first second : NodeRelation)
    → IsPossible protected s
    → accesses protected s ((read, first) ∷ (read, second) ∷ [])
      ≡ accesses protected s ((read, second) ∷ (read, first) ∷ [])
unfolding accesses
reads_commute s protected first second h =
    ap (λ f. and_then (transition s read first protected) f)
      (fun_ext λ t. and_then-ret (transition t read second protected))
    ∙ reads_commute_at s protected first second h
    ∙ sym (
        ap (λ f. and_then (transition s read second protected) f)
          (fun_ext λ t. and_then-ret (transition t read first protected)))

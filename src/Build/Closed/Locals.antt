-- ===== src/Build/Closed/Locals.antt =====
-- Declaring locals keeps the invariant.
use minirust_contrib_fork.Prelude.{
  ℕ, ◌+◌, subst, sym, true, some, List, [], ◌∷◌, ◌++◌, ◌≡◌, arith, All-append, All-weaken, Bool,
}
use minirust_contrib_fork.Prelude.Map.{Map, contains_key, nat_eq}
use minirust_contrib_fork.Lang.Types.{Ty}
use minirust_contrib_fork.Lang.Syntax.{BbName, LocalName}
use minirust_contrib_fork.Build.TyConv.{RustTy, get_type}
use minirust_contrib_fork.Build.Expr.{local_by_name}
use minirust_contrib_fork.Build.State.{
  FunctionBuilder, fresh_local_name, insert_local, declare_local_with_ty, declare_local,
  declare_ret, declare_arg, set_ret, ret_is_unset, push_arg,
}
use minirust_contrib_fork.Build.Closed.Invariant.{Inv, AllKnown, option_list}
use minirust_contrib_fork.Build.Closed.Rules.{
  Yields, Yields-bind, Yields-lift, Yields-pure, Yields-strengthen, Keeps,
}

AllKnown-cons :
    (name : LocalName) (t : Ty) (m : Map LocalName Ty) (l : List LocalName)
    → AllKnown m l
    → AllKnown ((name, t) ∷ m) l
AllKnown-cons name t m l h = All-weaken _ _ l (λ x p. ground arith) h

module _ (s : FunctionBuilder) {s' : FunctionBuilder} where
  fresh_local_name-eq :
      {n : LocalName}
      → fresh_local_name s ≡ some (n, s')
      → s' ≡ record s { next_local = s.next_local + 1 }
  unfolding fresh_local_name
  fresh_local_name-eq e = ground arith

  insert_local-eq :
      (name : LocalName) (t : Ty)
      → insert_local name t s ≡ some (tt, s')
      → s' ≡ record s { locals = (name, t) ∷ s.locals }
  unfolding insert_local
  insert_local-eq name t e = ground arith

module _ {s' : FunctionBuilder} where
  set_ret-eq :
      (name : LocalName) (s : FunctionBuilder)
      → set_ret name s ≡ some (tt, s')
      → record s { ret = some name } ≡ s'
  set_ret-eq name s e = ground arith

  push_arg-eq :
      (name : LocalName) (s : FunctionBuilder)
      → push_arg name s ≡ some (tt, s')
      → record s { args = s.args ++ name ∷ [] } ≡ s'
  push_arg-eq name s e = ground arith

  ret_is_unset-eq : (s : FunctionBuilder) → ret_is_unset s ≡ some (tt, s') → s ≡ s'
  ret_is_unset-eq s e = ground arith

module _ {j : ℕ} {pending : BbName → Bool} where
  fresh-Inv :
      (s : FunctionBuilder) (n : ℕ) → Inv j pending s → Inv j pending (record s { next_local = n })
  fresh-Inv s n h = record {
    declared = h.declared;
    started = h.started;
    start_zero = h.start_zero;
    covered = h.covered;
    pending_below = h.pending_below;
    cur_below = h.cur_below;
    blocks_below = h.blocks_below;
    args_known = h.args_known;
    ret_known = h.ret_known;
  }

  inserted-Inv :
      (s : FunctionBuilder) (name : LocalName) (t : Ty)
      → Inv j pending s
      → Inv j pending (record s { locals = (name, t) ∷ s.locals })
  inserted-Inv s name t h = record {
    declared = h.declared;
    started = h.started;
    start_zero = h.start_zero;
    covered = h.covered;
    pending_below = h.pending_below;
    cur_below = h.cur_below;
    blocks_below = h.blocks_below;
    args_known = AllKnown-cons name t s.locals s.args h.args_known;
    ret_known = AllKnown-cons name t s.locals (option_list s.ret) h.ret_known;
  }

  fresh_local_name-Yields : Yields (Inv j pending) fresh_local_name (λ _ s. Inv j pending s)
  fresh_local_name-Yields = record {
    at = λ s h a s' e.
        subst (λ t. Inv j pending t) (sym (fresh_local_name-eq s e))
          (fresh-Inv s (s.next_local + 1) h);
  }

  insert_local-Yields :
      (name : LocalName) (t : Ty)
      → Yields
          (Inv j pending)
          (insert_local name t)
          (λ _ s. Inv j pending s × (contains_key name s.locals ≡ true))
  insert_local-Yields name t = record {
    at = λ s h a s' e.
        subst (λ t'. Inv j pending t' × (contains_key name t'.locals ≡ true))
          (sym (insert_local-eq s name t e)) (inserted-Inv s name t h, ground arith);
  }

  insert_local_only-Yields :
      (name : LocalName) (t : Ty)
      → Yields (Inv j pending) (insert_local name t) (λ _ s. Inv j pending s)
  insert_local_only-Yields name t = Yields-strengthen (insert_local-Yields name t) (λ _ s h. h.0)

  returned-Inv :
      (s : FunctionBuilder) (name : LocalName)
      → contains_key name s.locals ≡ true
      → Inv j pending s
      → Inv j pending (record s { ret = some name })
  returned-Inv s name known h = record {
    declared = h.declared;
    started = h.started;
    start_zero = h.start_zero;
    covered = h.covered;
    pending_below = h.pending_below;
    cur_below = h.cur_below;
    blocks_below = h.blocks_below;
    args_known = h.args_known;
    ret_known = (known, tt);
  }

  argued-Inv :
      (s : FunctionBuilder) (name : LocalName)
      → contains_key name s.locals ≡ true
      → Inv j pending s
      → Inv j pending (record s { args = s.args ++ name ∷ [] })
  argued-Inv s name known h = record {
    declared = h.declared;
    started = h.started;
    start_zero = h.start_zero;
    covered = h.covered;
    pending_below = h.pending_below;
    cur_below = h.cur_below;
    blocks_below = h.blocks_below;
    args_known = All-append _ s.args (name ∷ []) h.args_known (known, tt);
    ret_known = h.ret_known;
  }

  set_ret-Yields :
      (name : LocalName)
      → Yields
          (λ s. Inv j pending s × (contains_key name s.locals ≡ true))
          (set_ret name)
          (λ _ s. Inv j pending s)
  set_ret-Yields name = record {
    at = λ s h a s' e.
        subst (λ t. Inv j pending t) (set_ret-eq name s e) (returned-Inv s name h.1 h.0);
  }

  push_arg-Yields :
      (name : LocalName)
      → Yields
          (λ s. Inv j pending s × (contains_key name s.locals ≡ true))
          (push_arg name)
          (λ _ s. Inv j pending s)
  push_arg-Yields name = record {
    at = λ s h a s' e.
        subst (λ t. Inv j pending t) (push_arg-eq name s e) (argued-Inv s name h.1 h.0);
  }

  ret_is_unset-Yields : Yields (Inv j pending) ret_is_unset (λ _ s. Inv j pending s)
  ret_is_unset-Yields = record {
    at = λ s h a s' e. subst (λ t. Inv j pending t) (ret_is_unset-eq s e) h;
  }

-- Each declaration of a local keeps the invariant.
pub declare_local_with_ty-Keeps : (t : Ty) → Keeps 0 (declare_local_with_ty t)
unfolding declare_local_with_ty
declare_local_with_ty-Keeps t j _ pending =
    Yields-bind fresh_local_name-Yields
      λ name. Yields-bind (insert_local_only-Yields name t) λ _. Yields-pure (local_by_name name)

pub declare_local-Keeps : (t : RustTy) → Keeps 0 (declare_local t)
unfolding declare_local
declare_local-Keeps t j _ pending = Yields-bind fresh_local_name-Yields λ name.
    Yields-lift (get_type t)
      λ ty _. Yields-bind (insert_local_only-Yields name ty) λ _. Yields-pure (local_by_name name)

pub declare_ret-Keeps : (t : RustTy) → Keeps 0 (declare_ret t)
unfolding declare_ret
declare_ret-Keeps t j _ pending = Yields-bind ret_is_unset-Yields λ _.
    Yields-bind fresh_local_name-Yields λ name. Yields-lift (get_type t) λ ty _.
      Yields-bind (insert_local-Yields name ty)
        λ _. Yields-bind (set_ret-Yields name) λ _. Yields-pure (local_by_name name)

pub declare_arg-Keeps : (t : RustTy) → Keeps 0 (declare_arg t)
unfolding declare_arg
declare_arg-Keeps t j _ pending = Yields-bind fresh_local_name-Yields λ name.
    Yields-lift (get_type t) λ ty _.
      Yields-bind (insert_local-Yields name ty)
        λ _. Yields-bind (push_arg-Yields name) λ _. Yields-pure (local_by_name name)

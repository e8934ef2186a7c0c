-- ===== src/Build/Closed/Graph.antt =====
-- The function that a client of the builder ends with.
use minirust_contrib_fork.Prelude.{
  ◌<◌, Bool, true, false, Option, none, some, [], ◌≡◌, refl, arith, All, All-weaken, ◌>>=◌, subst,
  subst₂, sym, ◌∙◌, ◌⊎◌, inl, inr,
}
use minirust_contrib_fork.Prelude.Map.{contains_key, nat_eq}
use minirust_contrib_fork.Lang.Syntax.{BbName, FnName, PlaceExpr, Function}
use minirust_contrib_fork.Build.TyConv.{RustTy}
use minirust_contrib_fork.Build.State.{
  FunctionBuilder, new, declare_block, set_cur_block, new_cur_block, finish_function, declare_ret,
  default_ret, as_function, no_cur_block, fresh_local_name, insert_local, pure, ◌>>◌,
}
use minirust_contrib_fork.Build.Closed.Invariant.{Inv, successors, option_list, BlockBelow}
use minirust_contrib_fork.Build.Closed.Rules.{Yields, Yields-bind, Yields-pure}
use minirust_contrib_fork.Build.Closed.Locals.{declare_ret-Keeps}
use minirust_contrib_fork.Build.Closed.Client.{Calls, perform_all, calls-Keeps}

-- The start block and each block that a terminator names are blocks of the function; the
-- arguments and the return local are among its locals.
pub record IsClosed (f : Function) : Type 0 where
  pub start_known : contains_key f.start f.blocks ≡ true
  pub jumps_known :
      All (λ e. All (λ b. contains_key b f.blocks ≡ true) (successors e.1.terminator)) f.blocks
  pub args_known : All (λ l. contains_key l f.locals ≡ true) f.args
  pub ret_known : contains_key f.ret f.locals ≡ true

abbrev nothing_pending : BbName → Bool
nothing_pending n = false

abbrev fresh : FnName → FunctionBuilder
fresh name = record {
  name = name;
  locals = [];
  args = [];
  blocks = [];
  start = 0;
  ret = none;
  cur_block = some (record { statements = []; name = 0 });
  next_block = 1;
  next_local = 0;
}

new-eq : (name : FnName) → new name ≡ some (fresh name)
unfolding new declare_block set_cur_block new_cur_block
new-eq name = refl

fresh-Inv : (name : FnName) → Inv 0 nothing_pending (fresh name)
fresh-Inv name = record {
  declared = omega arith;
  started = omega arith;
  start_zero = refl;
  covered = λ n p. ground arith;
  pending_below = λ n p. cc;
  cur_below = λ n p. ground arith;
  blocks_below = tt;
  args_known = tt;
  ret_known = tt;
}

-- What `finish_function` starts from: no block is current, and the invariant holds.
abbrev Finished : FunctionBuilder → Type 0
Finished s = Inv 0 nothing_pending s × (s.cur_block ≡ none)

no_cur_block-eq :
    (s : FunctionBuilder) {s' : FunctionBuilder}
    → no_cur_block s ≡ some (tt, s')
    → (s ≡ s') × (s.cur_block ≡ none)
no_cur_block-eq s e = ground arith

cur_block-declare_ret :
    (t : RustTy) (s : FunctionBuilder) {p : PlaceExpr} {s' : FunctionBuilder}
    → declare_ret t s ≡ some (p, s')
    → s.cur_block ≡ s'.cur_block
unfolding declare_ret fresh_local_name insert_local
cur_block-declare_ret t s e = ground arith

declare_ret-Yields : (t : RustTy) → Yields Finished (declare_ret t) (λ _ s. Finished s)
declare_ret-Yields t = record {
  at = λ s h a s' e. (
    (declare_ret-Keeps t 0 (omega arith) nothing_pending).at s h.0 a s' e,
    sym (cur_block-declare_ret t s e) ∙ h.1,
  );
}

default_ret-eq :
    (s : FunctionBuilder) {s' : FunctionBuilder}
    → default_ret s ≡ some (tt, s')
    → (s ≡ s') ⊎ ((declare_ret RustTy.unit >> pure tt) s ≡ some (tt, s'))
default_ret-eq s e = ground arith

declared_ret-Yields : Yields Finished (declare_ret RustTy.unit >> pure tt) (λ _ s. Finished s)
declared_ret-Yields = Yields-bind (declare_ret-Yields RustTy.unit) (λ _. Yields-pure tt)

default_ret-Yields : Yields Finished default_ret (λ _ s. Finished s)
default_ret-Yields = record {
  at = λ s h a s' e. elim (default_ret-eq s e) [
    | inl same ↦ subst Finished same h
    | inr declared ↦ declared_ret-Yields.at s h tt s' declared
  ];
}

ending-Yields : Yields (Inv 0 nothing_pending) (no_cur_block >> default_ret) (λ _ s. Finished s)
ending-Yields =
    Yields-bind
      (record { at = λ s h a s' e. let q = no_cur_block-eq s e in subst Finished q.0 (h, q.1) })
      λ _. default_ret-Yields

-- Each declared block is there.
known_block :
    (s : FunctionBuilder)
    → Finished s
    → (n : BbName) → n < s.next_block
    → contains_key n s.blocks ≡ true
known_block s h n p = ground (arith, h.0.covered n)

as_function-eq :
    (s : FunctionBuilder) {f : Function}
    → as_function s ≡ some f
    → (s.locals ≡ f.locals)
      × (s.args ≡ f.args)
      × (s.ret ≡ some f.ret)
      × (s.blocks ≡ f.blocks)
      × (s.start ≡ f.start)
as_function-eq s e = ground arith

known_jumps :
    (s : FunctionBuilder)
    → Finished s
    → All (λ e. All (λ b. contains_key b s.blocks ≡ true) (successors e.1.terminator)) s.blocks
known_jumps s h =
    All-weaken (BlockBelow s.next_block) _ s.blocks
      (λ e p. All-weaken _ _ (successors e.1.terminator) (λ b q. known_block s h b q) p.1)
      h.0.blocks_below

as_function-IsClosed :
    (s : FunctionBuilder) {f : Function} → Finished s → as_function s ≡ some f → IsClosed f
as_function-IsClosed s h e =
    let q = as_function-eq s e in
    record {
      start_known =
          subst₂ (λ b m. contains_key b m ≡ true) q.4 q.3
            (known_block s h s.start (omega (arith, h.0.start_zero, h.0.started)));
      jumps_known =
          subst (λ m. All (λ e. All (λ b. contains_key b m ≡ true) (successors e.1.terminator)) m)
            q.3 (known_jumps s h);
      args_known = subst₂ (λ m l. All (λ l. contains_key l m ≡ true) l) q.0 q.1 h.0.args_known;
      ret_known =
          (subst₂ (λ m l. All (λ l. contains_key l m ≡ true) (option_list l)) q.0 q.2
            h.0.ret_known).0;
    }

finish_function-IsClosed :
    (s : FunctionBuilder) {f : Function}
    → Inv 0 nothing_pending s
    → finish_function s ≡ some f
    → IsClosed f
unfolding finish_function
finish_function-IsClosed s {f} h e = go ((no_cur_block >> default_ret) s) refl e
  where
    go :
        (r : Option (Unit × FunctionBuilder))
        → (no_cur_block >> default_ret) s ≡ r
        → (elim r [ none ↦ none | some (_, s') ↦ as_function s' ]) ≡ some f
        → IsClosed f
    go none q e' = cc
    go (some (a, s')) q e' = as_function-IsClosed s' (ending-Yields.at s h a s' q) e'

-- What a client does from `new` to `finish_function`.
unfoldable pub build : FnName → Calls → Option Function
build name calls = do s ← new name; done ← perform_all calls s; finish_function done.1

-- Whatever methods of a new `FunctionBuilder` a client calls, with closures for `if_`,
-- `switch_int` and `while_` that themselves call methods: if no call panics and `finish_function`
-- returns a function, then its start block and the blocks that its terminators name are blocks of
-- the function, and its arguments and its return local are among its locals.
pub build-IsClosed :
    (name : FnName) (calls : Calls) (f : Function) → build name calls ≡ some f → IsClosed f
unfolding build
build-IsClosed name calls f e = go (perform_all calls (fresh name)) refl (rw (new-eq name) at e)
  where
    go :
        (r : Option (Unit × FunctionBuilder))
        → perform_all calls (fresh name) ≡ r
        → (r >>= λ done. finish_function done.1) ≡ some f
        → IsClosed f
    go none q e' = cc
    go (some (a, s')) q e' =
        finish_function-IsClosed s'
          ((calls-Keeps calls 0 (omega arith) nothing_pending).at (fresh name) (fresh-Inv name) a s'
            q)
          e'

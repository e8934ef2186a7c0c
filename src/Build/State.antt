-- ===== src/Build/State.antt =====
-- The state of tooling/miniutil/src/build/mod.rs's `FunctionBuilder` and the operations that
-- the methods of build/statement.rs and build/terminator.rs are made of. A method is an action on
-- the builder; it yields `none` where the source panics. The counters are `u32`: one more than
-- `u32::MAX` panics.
use minirust_contrib_fork.Prelude.{
  ℕ, ◌+◌, ◌^◌, List, [], ◌∷◌, ◌++◌, Option, none, some, ltb, if◌then◌else◌,
}
use minirust_contrib_fork.Prelude.Map.{Map, contains_key, try_insert, nat_eq}
use minirust_contrib_fork.Lang.Types.{Ty}
use minirust_contrib_fork.Lang.Syntax.{
  FnName, LocalName, BbName, PlaceExpr, Statement, Terminator, BasicBlock, Function,
  CallingConvention,
}
use minirust_contrib_fork.Build.TyConv.{RustTy, get_type}
use minirust_contrib_fork.Build.Expr.{local_by_name}

pub record CurBlock : Type 0 where
  pub statements : List Statement
  pub name : BbName

pub record FunctionBuilder : Type 0 where
  pub name : FnName
  pub locals : Map LocalName Ty
  pub args : List LocalName
  pub blocks : Map BbName BasicBlock
  pub start : BbName
  pub ret : Option LocalName
  pub cur_block : Option CurBlock
  pub next_block : ℕ
  pub next_local : ℕ

abbrev pub Build : Type 0 → Type 0
Build A = FunctionBuilder → Option (A × FunctionBuilder)

module _ {A B : Type 0} where
  abbrev pub continue : Option (A × FunctionBuilder) → (A → Build B) → Option (B × FunctionBuilder)
  continue none f = none
  continue (some (a, s)) f = f a s

  infixl 5 ◌>>=◌ ◌>>◌
  abbrev pub ◌>>=◌ : Build A → (A → Build B) → Build B
  ◌>>=◌ m f s = continue (m s) f

  abbrev pub ◌>>◌ : Build A → Build B → Build B
  m >> k = m >>= λ _. k

abbrev pub pure : {A : Type 0} → A → Build A
pure a s = some (a, s)

-- A value that may be a panic.
abbrev pub lift : {A : Type 0} → Option A → Build A
lift none s = none
lift (some a) s = some (a, s)

-- `counter += 1` on a `u32`
abbrev pub bump : ℕ → Option ℕ
bump n = if ltb (n + 1) (2 ^ 32) then some (n + 1) else none

unfoldable pub declare_block : Build BbName
declare_block s = elim (bump s.next_block) [
  | none ↦ none
  | some n ↦ some (s.next_block, record s { next_block = n })
]

unfoldable pub new_cur_block : BbName → CurBlock
new_cur_block name = record { statements = []; name = name }

unfoldable pub set_cur_block : BbName → Build Unit
set_cur_block name s = if contains_key name s.blocks then none else elim s.cur_block [
  | none ↦ some (tt, record s { cur_block = some (new_cur_block name) })
  | some _ ↦ none
]

-- `self.cur_block().statements.push(statement)`
unfoldable pub push_statement : Statement → Build Unit
push_statement statement s = elim s.cur_block [
  | none ↦ none
  | some b ↦
      some (
        tt,
        record s { cur_block = some (record b { statements = b.statements ++ statement ∷ [] }) },
      )
]

unfoldable pub finish_block : Terminator → Build Unit
finish_block terminator s = elim s.cur_block [
  | none ↦ none
  | some b ↦
      elim (try_insert b.name (record { statements = b.statements; terminator = terminator })
        s.blocks) [
          | none ↦ none
          | some blocks ↦ some (tt, record s { blocks = blocks; cur_block = none })
        ]
]

unfoldable pub new : FnName → Option FunctionBuilder
new name =
    let fb : FunctionBuilder = record {
      name = name;
      locals = [];
      args = [];
      blocks = [];
      start = 0;
      ret = none;
      cur_block = none;
      next_block = 0;
      next_local = 0;
    } in
    elim ((do start_block ← declare_block; set_cur_block start_block) fb) [
      | none ↦ none
      | some (_, s) ↦ some s
    ]

unfoldable pub fresh_local_name : Build LocalName
fresh_local_name s = elim (bump s.next_local) [
  | none ↦ none
  | some n ↦ some (s.next_local, record s { next_local = n })
]

unfoldable pub insert_local : LocalName → Ty → Build Unit
insert_local name ty s = elim (try_insert name ty s.locals) [
  | none ↦ none
  | some locals ↦ some (tt, record s { locals = locals })
]

unfoldable pub declare_local_with_ty : Ty → Build PlaceExpr
declare_local_with_ty t = do name ← fresh_local_name; insert_local name t; pure (local_by_name name)

unfoldable pub declare_local : RustTy → Build PlaceExpr
declare_local t = do
  name ← fresh_local_name
  ty ← lift (get_type t)
  insert_local name ty
  pure (local_by_name name)

abbrev pub set_ret : LocalName → Build Unit
set_ret name s = some (tt, record s { ret = some name })

abbrev pub ret_is_unset : Build Unit
ret_is_unset s = elim s.ret [ none ↦ some (tt, s) | some _ ↦ none ]

unfoldable pub declare_ret : RustTy → Build PlaceExpr
declare_ret t = do
  ret_is_unset
  name ← fresh_local_name
  ty ← lift (get_type t)
  insert_local name ty
  set_ret name
  pure (local_by_name name)

abbrev pub push_arg : LocalName → Build Unit
push_arg name s = some (tt, record s { args = s.args ++ name ∷ [] })

unfoldable pub declare_arg : RustTy → Build PlaceExpr
declare_arg t = do
  name ← fresh_local_name
  ty ← lift (get_type t)
  insert_local name ty
  push_arg name
  pure (local_by_name name)

-- Defaults the return type to `()`.
abbrev pub default_ret : Build Unit
default_ret s = elim s.ret [ none ↦ (declare_ret RustTy.unit >> pure tt) s | some _ ↦ some (tt, s) ]

abbrev pub as_function : FunctionBuilder → Option Function
as_function s = elim s.ret [
  | none ↦ none
  | some ret ↦ some (record {
    locals = s.locals;
    args = s.args;
    ret = ret;
    calling_convention = CallingConvention.c;
    blocks = s.blocks;
    start = s.start;
  })
]

abbrev pub no_cur_block : Build Unit
no_cur_block s = elim s.cur_block [ none ↦ some (tt, s) | some _ ↦ none ]

unfoldable pub finish_function : FunctionBuilder → Option Function
finish_function s = elim ((no_cur_block >> default_ret) s) [
  | none ↦ none
  | some (_, s') ↦ as_function s'
]

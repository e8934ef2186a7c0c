-- ===== src/Build/Methods.antt =====
-- The methods of `FunctionBuilder` in tooling/miniutil/src/build/statement.rs and
-- build/terminator.rs that are no control structures.
use minirust_contrib_fork.Prelude.{List, none, some, Bool}
use minirust_contrib_fork.Prelude.Int.{ℤ}
use minirust_contrib_fork.Lang.Syntax.{
  FnName, BbName, ValueExpr, PlaceExpr, ArgumentExpr, Statement, Terminator, CallingConvention,
}
use minirust_contrib_fork.Build.Expr.{fn_ptr, unit_place}
use minirust_contrib_fork.Build.Terminator as Free
use minirust_contrib_fork.Build.Terminator.{FetchBinOp}
use minirust_contrib_fork.Build.State.{
  Build, ◌>>=◌, ◌>>◌, lift, declare_block, set_cur_block, push_statement, finish_block,
}

unfoldable pub assign : PlaceExpr → ValueExpr → Build Unit
assign destination source = push_statement (Statement.assign destination source)

unfoldable pub place_mention : PlaceExpr → Build Unit
place_mention place = push_statement (Statement.place_mention place)

unfoldable pub set_discriminant : PlaceExpr → ℤ → Build Unit
set_discriminant destination value = push_statement (Statement.set_discriminant destination value)

unfoldable pub validate : PlaceExpr → Bool → Build Unit
validate place fn_entry = push_statement (Statement.validate place fn_entry)

unfoldable pub storage_live : PlaceExpr → Build Unit
storage_live (PlaceExpr.local name) = push_statement (Statement.storage_live name)
storage_live _ = lift none

unfoldable pub storage_dead : PlaceExpr → Build Unit
storage_dead (PlaceExpr.local name) = push_statement (Statement.storage_dead name)
storage_dead _ = lift none

unfoldable pub exit : Build Unit
exit = do t ← lift Free.exit; finish_block t

unfoldable pub unreachable : Build Unit
unreachable = finish_block Terminator.unreachable

unfoldable pub goto : BbName → Build Unit
goto dest = finish_block (Terminator.goto dest)

unfoldable pub return_ : Build Unit
return_ = finish_block Terminator.return

unfoldable pub panic : Build Unit
panic = do t ← lift Free.panic; finish_block t

unfoldable pub call_noret : PlaceExpr → FnName → List ArgumentExpr → Build Unit
call_noret ret f args = finish_block (Terminator.call (fn_ptr f) CallingConvention.c args ret none)

unfoldable pub call : PlaceExpr → FnName → List ArgumentExpr → Build Unit
call ret f args = do
  next_block ← declare_block
  finish_block (Terminator.call (fn_ptr f) CallingConvention.c args ret (some next_block))
  set_cur_block next_block

unfoldable pub call_ignoreret : FnName → List ArgumentExpr → Build Unit
call_ignoreret f args = do
  next_block ← declare_block
  ret ← lift unit_place
  finish_block (Terminator.call (fn_ptr f) CallingConvention.c args ret (some next_block))
  set_cur_block next_block

unfoldable pub assume : ValueExpr → Build Unit
assume val = do
  next_block ← declare_block
  t ← lift (Free.assume val next_block)
  finish_block t
  set_cur_block next_block

unfoldable pub print : ValueExpr → Build Unit
print arg = do
  next_block ← declare_block
  t ← lift (Free.print arg next_block)
  finish_block t
  set_cur_block next_block

unfoldable pub eprint : ValueExpr → Build Unit
eprint arg = do
  next_block ← declare_block
  t ← lift (Free.eprint arg next_block)
  finish_block t
  set_cur_block next_block

unfoldable pub allocate : ValueExpr → ValueExpr → PlaceExpr → Build Unit
allocate size align ret_place = do
  next_block ← declare_block
  finish_block (Free.allocate size align ret_place next_block)
  set_cur_block next_block

unfoldable pub deallocate : ValueExpr → ValueExpr → ValueExpr → Build Unit
deallocate ptr size align = do
  next_block ← declare_block
  t ← lift (Free.deallocate ptr size align next_block)
  finish_block t
  set_cur_block next_block

unfoldable pub spawn : FnName → ValueExpr → PlaceExpr → Build Unit
spawn f data_ptr ret = do
  next_block ← declare_block
  finish_block (Free.spawn (fn_ptr f) data_ptr ret next_block)
  set_cur_block next_block

unfoldable pub join : ValueExpr → Build Unit
join thread_id = do
  next_block ← declare_block
  t ← lift (Free.join thread_id next_block)
  finish_block t
  set_cur_block next_block

unfoldable pub raw_eq : PlaceExpr → ValueExpr → ValueExpr → Build Unit
raw_eq dest left_ptr right_ptr = do
  next_block ← declare_block
  finish_block (Free.raw_eq dest left_ptr right_ptr next_block)
  set_cur_block next_block

unfoldable pub atomic_store : ValueExpr → ValueExpr → Build Unit
atomic_store ptr src = do
  next_block ← declare_block
  t ← lift (Free.atomic_store ptr src next_block)
  finish_block t
  set_cur_block next_block

unfoldable pub atomic_load : PlaceExpr → ValueExpr → Build Unit
atomic_load dest ptr = do
  next_block ← declare_block
  finish_block (Free.atomic_load dest ptr next_block)
  set_cur_block next_block

unfoldable pub atomic_fetch : FetchBinOp → PlaceExpr → ValueExpr → ValueExpr → Build Unit
atomic_fetch binop dest ptr other = do
  next_block ← declare_block
  finish_block (Free.atomic_fetch binop dest ptr other next_block)
  set_cur_block next_block

unfoldable pub compare_exchange : PlaceExpr → ValueExpr → ValueExpr → ValueExpr → Build Unit
compare_exchange dest ptr current next_val = do
  next_block ← declare_block
  finish_block (Free.compare_exchange dest ptr current next_val next_block)
  set_cur_block next_block

unfoldable pub expose_provenance : PlaceExpr → ValueExpr → Build Unit
expose_provenance dest ptr = do
  next_block ← declare_block
  finish_block (Free.expose_provenance dest ptr next_block)
  set_cur_block next_block

unfoldable pub with_exposed_provenance : PlaceExpr → ValueExpr → Build Unit
with_exposed_provenance dest addr = do
  next_block ← declare_block
  finish_block (Free.with_exposed_provenance dest addr next_block)
  set_cur_block next_block

unfoldable pub lock_create : PlaceExpr → Build Unit
lock_create ret = do
  next_block ← declare_block
  finish_block (Free.lock_create ret next_block)
  set_cur_block next_block

unfoldable pub lock_acquire : ValueExpr → Build Unit
lock_acquire lock_id = do
  next_block ← declare_block
  t ← lift (Free.lock_acquire lock_id next_block)
  finish_block t
  set_cur_block next_block

unfoldable pub lock_release : ValueExpr → Build Unit
lock_release lock_id = do
  next_block ← declare_block
  t ← lift (Free.lock_release lock_id next_block)
  finish_block t
  set_cur_block next_block

-- ===== src/Build/Terminator.antt =====
-- The free functions of tooling/miniutil/src/build/terminator.rs and build/statement.rs: statements
-- and terminators over the numbers of blocks and locals.
use minirust_contrib_fork.Prelude.{ℕ, List, [], ◌∷◌, Option, none, some, ◌>>=◌, Bool}
use minirust_contrib_fork.Prelude.Int.{ℤ, pos}
use minirust_contrib_fork.Prelude.Map.{collect, int_eq}
use minirust_contrib_fork.Lang.Syntax.{
  IntBinOp, IntrinsicOp, IntrinsicLockOp, ValueExpr, PlaceExpr, ArgumentExpr, Statement, Terminator,
  CallingConvention,
}
use minirust_contrib_fork.Build.TyConv.{RustTy}
use minirust_contrib_fork.Build.Expr.{bool_to_int, unit_place, fn_ptr_internal}

unfoldable pub assign : PlaceExpr → ValueExpr → Statement
assign destination source = Statement.assign destination source

unfoldable pub place_mention : PlaceExpr → Statement
place_mention place = Statement.place_mention place

unfoldable pub set_discriminant : PlaceExpr → ℤ → Statement
set_discriminant destination value = Statement.set_discriminant destination value

unfoldable pub validate : PlaceExpr → Bool → Statement
validate place fn_entry = Statement.validate place fn_entry

unfoldable pub storage_live : ℕ → Statement
storage_live x = Statement.storage_live x

unfoldable pub storage_dead : ℕ → Statement
storage_dead x = Statement.storage_dead x

unfoldable pub goto : ℕ → Terminator
goto x = Terminator.goto x

unfoldable pub if_ : ValueExpr → ℕ → ℕ → Option Terminator
unfolding bool_to_int
if_ condition then_blk else_blk = do
  value ← bool_to_int RustTy.u8 condition
  some (Terminator.switch value (collect ((pos 1, then_blk) ∷ [])) else_blk)

unfoldable pub switch_int : ValueExpr → List (ℤ × ℕ) → ℕ → Terminator
switch_int value cases fallback = Terminator.switch value (collect cases) fallback

unfoldable pub unreachable : Terminator
unreachable = Terminator.unreachable

unfoldable pub call : ℕ → List ArgumentExpr → PlaceExpr → Option ℕ → Terminator
unfolding fn_ptr_internal
call f args ret next = Terminator.call (fn_ptr_internal f) CallingConvention.c args ret next

unfoldable pub assume : ValueExpr → ℕ → Option Terminator
unfolding unit_place
assume val next = do
  ret ← unit_place
  some (Terminator.intrinsic IntrinsicOp.assume (val ∷ []) ret (some next))

unfoldable pub print : ValueExpr → ℕ → Option Terminator
unfolding unit_place
print arg next = do
  ret ← unit_place
  some (Terminator.intrinsic IntrinsicOp.print_stdout (arg ∷ []) ret (some next))

unfoldable pub eprint : ValueExpr → ℕ → Option Terminator
unfolding unit_place
eprint arg next = do
  ret ← unit_place
  some (Terminator.intrinsic IntrinsicOp.print_stderr (arg ∷ []) ret (some next))

unfoldable pub allocate : ValueExpr → ValueExpr → PlaceExpr → ℕ → Terminator
allocate size align ret_place next =
    Terminator.intrinsic IntrinsicOp.allocate (size ∷ align ∷ []) ret_place (some next)

unfoldable pub deallocate : ValueExpr → ValueExpr → ValueExpr → ℕ → Option Terminator
unfolding unit_place
deallocate ptr size align next = do
  ret ← unit_place
  some (Terminator.intrinsic IntrinsicOp.deallocate (ptr ∷ size ∷ align ∷ []) ret (some next))

unfoldable pub exit : Option Terminator
unfolding unit_place
exit = do ret ← unit_place; some (Terminator.intrinsic IntrinsicOp.exit ([]) ret none)

unfoldable pub panic : Option Terminator
unfolding unit_place
panic = do ret ← unit_place; some (Terminator.intrinsic IntrinsicOp.panic ([]) ret none)

unfoldable pub return_ : Terminator
return_ = Terminator.return

unfoldable pub spawn : ValueExpr → ValueExpr → PlaceExpr → ℕ → Terminator
spawn fn_ptr data_ptr ret next =
    Terminator.intrinsic IntrinsicOp.spawn (fn_ptr ∷ data_ptr ∷ []) ret (some next)

unfoldable pub join : ValueExpr → ℕ → Option Terminator
unfolding unit_place
join thread_id next = do
  ret ← unit_place
  some (Terminator.intrinsic IntrinsicOp.join (thread_id ∷ []) ret (some next))

unfoldable pub raw_eq : PlaceExpr → ValueExpr → ValueExpr → ℕ → Terminator
raw_eq ret left_ptr right_ptr next =
    Terminator.intrinsic IntrinsicOp.raw_eq (left_ptr ∷ right_ptr ∷ []) ret (some next)

unfoldable pub atomic_store : ValueExpr → ValueExpr → ℕ → Option Terminator
unfolding unit_place
atomic_store ptr src next = do
  ret ← unit_place
  some (Terminator.intrinsic IntrinsicOp.atomic_store (ptr ∷ src ∷ []) ret (some next))

unfoldable pub atomic_load : PlaceExpr → ValueExpr → ℕ → Terminator
atomic_load dest ptr next = Terminator.intrinsic IntrinsicOp.atomic_load (ptr ∷ []) dest (some next)

pub data FetchBinOp : Type 0 where
  add sub : FetchBinOp

abbrev pub fetch_op : FetchBinOp → IntBinOp
fetch_op FetchBinOp.add = IntBinOp.add
fetch_op FetchBinOp.sub = IntBinOp.sub

unfoldable pub atomic_fetch : FetchBinOp → PlaceExpr → ValueExpr → ValueExpr → ℕ → Terminator
atomic_fetch binop dest ptr other next =
    Terminator.intrinsic (IntrinsicOp.atomic_fetch_and_op (fetch_op binop)) (ptr ∷ other ∷ []) dest
      (some next)

unfoldable pub compare_exchange : PlaceExpr → ValueExpr → ValueExpr → ValueExpr → ℕ → Terminator
compare_exchange dest ptr current next_val next =
    Terminator.intrinsic IntrinsicOp.atomic_compare_exchange (ptr ∷ current ∷ next_val ∷ []) dest
      (some next)

unfoldable pub expose_provenance : PlaceExpr → ValueExpr → ℕ → Terminator
expose_provenance dest ptr next =
    Terminator.intrinsic IntrinsicOp.pointer_expose_provenance (ptr ∷ []) dest (some next)

unfoldable pub with_exposed_provenance : PlaceExpr → ValueExpr → ℕ → Terminator
with_exposed_provenance dest addr next =
    Terminator.intrinsic IntrinsicOp.pointer_with_exposed_provenance (addr ∷ []) dest (some next)

unfoldable pub lock_create : PlaceExpr → ℕ → Terminator
lock_create ret next =
    Terminator.intrinsic (IntrinsicOp.lock IntrinsicLockOp.create) ([]) ret (some next)

unfoldable pub lock_acquire : ValueExpr → ℕ → Option Terminator
unfolding unit_place
lock_acquire lock_id next = do
  ret ← unit_place
  some (
      Terminator.intrinsic (IntrinsicOp.lock IntrinsicLockOp.acquire) (lock_id ∷ []) ret
        (some next))

unfoldable pub lock_release : ValueExpr → ℕ → Option Terminator
unfolding unit_place
lock_release lock_id next = do
  ret ← unit_place
  some (
      Terminator.intrinsic (IntrinsicOp.lock IntrinsicLockOp.release) (lock_id ∷ []) ret
        (some next))

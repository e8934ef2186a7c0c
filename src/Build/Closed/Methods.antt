-- ===== src/Build/Closed/Methods.antt =====
-- Each public method of `FunctionBuilder` keeps the invariant. A method's terminator names no block
-- but the one that the method declares.
use minirust_contrib_fork.Prelude.{Bool, some, List, refl, arith}
use minirust_contrib_fork.Prelude.Int.{ℤ}
use minirust_contrib_fork.Lang.Syntax.{
  FnName, ValueExpr, PlaceExpr, ArgumentExpr, Terminator, CallingConvention,
}
use minirust_contrib_fork.Build.Expr.{fn_ptr, unit_place}
use minirust_contrib_fork.Build.Terminator as Free
use minirust_contrib_fork.Build.Terminator.{FetchBinOp}
use minirust_contrib_fork.Build.Methods
use minirust_contrib_fork.Build.Closed.Rules.{
  Yields-lift, Yields-bind, Yields-weaken, declare_block-Yields, set_cur_block-Yields,
  finish_block-Yields, Keeps, then_block-Keeps, then_block_lift-Keeps, end_block-Keeps,
  end_block_lift-Keeps, push_statement-Keeps,
}

pub assign-Keeps : (d : PlaceExpr) (v : ValueExpr) → Keeps 0 (Methods.assign d v)
unfolding Methods.assign
assign-Keeps d v = push_statement-Keeps _

pub place_mention-Keeps : (p : PlaceExpr) → Keeps 0 (Methods.place_mention p)
unfolding Methods.place_mention
place_mention-Keeps p = push_statement-Keeps _

pub set_discriminant-Keeps : (p : PlaceExpr) (d : ℤ) → Keeps 0 (Methods.set_discriminant p d)
unfolding Methods.set_discriminant
set_discriminant-Keeps p d = push_statement-Keeps _

pub validate-Keeps : (p : PlaceExpr) (e : Bool) → Keeps 0 (Methods.validate p e)
unfolding Methods.validate
validate-Keeps p e = push_statement-Keeps _

pub storage_live-Keeps : (p : PlaceExpr) → Keeps 0 (Methods.storage_live p)
unfolding Methods.storage_live
storage_live-Keeps (PlaceExpr.local name) j _ pending =
    push_statement-Keeps _ j (omega arith) pending
storage_live-Keeps _ j _ pending = record { at = λ s h a s' e. cc }

pub storage_dead-Keeps : (p : PlaceExpr) → Keeps 0 (Methods.storage_dead p)
unfolding Methods.storage_dead
storage_dead-Keeps (PlaceExpr.local name) j _ pending =
    push_statement-Keeps _ j (omega arith) pending
storage_dead-Keeps _ j _ pending = record { at = λ s h a s' e. cc }

pub exit-Keeps : Keeps 0 Methods.exit
unfolding Methods.exit Free.exit
exit-Keeps = end_block_lift-Keeps Free.exit λ t e. ground arith

pub panic-Keeps : Keeps 0 Methods.panic
unfolding Methods.panic Free.panic
panic-Keeps = end_block_lift-Keeps Free.panic λ t e. ground arith

pub unreachable-Keeps : Keeps 0 Methods.unreachable
unfolding Methods.unreachable
unreachable-Keeps = end_block-Keeps Terminator.unreachable refl

pub return_-Keeps : Keeps 0 Methods.return_
unfolding Methods.return_
return_-Keeps = end_block-Keeps Terminator.return refl

pub call_noret-Keeps :
    (ret : PlaceExpr) (f : FnName) (args : List ArgumentExpr)
    → Keeps 0 (Methods.call_noret ret f args)
unfolding Methods.call_noret
call_noret-Keeps ret f args = end_block-Keeps _ refl

pub call-Keeps :
    (ret : PlaceExpr) (f : FnName) (args : List ArgumentExpr) → Keeps 0 (Methods.call ret f args)
unfolding Methods.call
call-Keeps ret f args =
    then_block-Keeps (λ n. Terminator.call (fn_ptr f) CallingConvention.c args ret (some n))
      (λ n. refl)

pub call_ignoreret-Keeps :
    (f : FnName) (args : List ArgumentExpr) → Keeps 0 (Methods.call_ignoreret f args)
unfolding Methods.call_ignoreret
call_ignoreret-Keeps f args j _ pending = Yields-bind declare_block-Yields λ n.
    Yields-lift unit_place λ ret _.
      Yields-bind
        (Yields-weaken
          (finish_block-Yields (Terminator.call (fn_ptr f) CallingConvention.c args ret (some n)))
          (λ s p. (p.0, (p.1, tt))))
        λ _. set_cur_block-Yields n

pub assume-Keeps : (val : ValueExpr) → Keeps 0 (Methods.assume val)
unfolding Methods.assume Free.assume
assume-Keeps val = then_block_lift-Keeps (λ n. Free.assume val n) (λ n t e. ground arith)

pub print-Keeps : (arg : ValueExpr) → Keeps 0 (Methods.print arg)
unfolding Methods.print Free.print
print-Keeps arg = then_block_lift-Keeps (λ n. Free.print arg n) (λ n t e. ground arith)

pub eprint-Keeps : (arg : ValueExpr) → Keeps 0 (Methods.eprint arg)
unfolding Methods.eprint Free.eprint
eprint-Keeps arg = then_block_lift-Keeps (λ n. Free.eprint arg n) (λ n t e. ground arith)

pub allocate-Keeps :
    (size align : ValueExpr) (ret_place : PlaceExpr)
    → Keeps 0 (Methods.allocate size align ret_place)
unfolding Methods.allocate Free.allocate
allocate-Keeps size align ret_place =
    then_block-Keeps (λ n. Free.allocate size align ret_place n) (λ n. refl)

pub deallocate-Keeps : (ptr size align : ValueExpr) → Keeps 0 (Methods.deallocate ptr size align)
unfolding Methods.deallocate Free.deallocate
deallocate-Keeps ptr size align =
    then_block_lift-Keeps (λ n. Free.deallocate ptr size align n) (λ n t e. ground arith)

pub spawn-Keeps :
    (f : FnName) (data_ptr : ValueExpr) (ret : PlaceExpr) → Keeps 0 (Methods.spawn f data_ptr ret)
unfolding Methods.spawn Free.spawn
spawn-Keeps f data_ptr ret =
    then_block-Keeps (λ n. Free.spawn (fn_ptr f) data_ptr ret n) (λ n. refl)

pub join-Keeps : (thread_id : ValueExpr) → Keeps 0 (Methods.join thread_id)
unfolding Methods.join Free.join
join-Keeps thread_id = then_block_lift-Keeps (λ n. Free.join thread_id n) (λ n t e. ground arith)

pub raw_eq-Keeps : (dest : PlaceExpr) (l r : ValueExpr) → Keeps 0 (Methods.raw_eq dest l r)
unfolding Methods.raw_eq Free.raw_eq
raw_eq-Keeps dest l r = then_block-Keeps (λ n. Free.raw_eq dest l r n) (λ n. refl)

pub atomic_store-Keeps : (ptr src : ValueExpr) → Keeps 0 (Methods.atomic_store ptr src)
unfolding Methods.atomic_store Free.atomic_store
atomic_store-Keeps ptr src =
    then_block_lift-Keeps (λ n. Free.atomic_store ptr src n) (λ n t e. ground arith)

pub atomic_load-Keeps :
    (dest : PlaceExpr) (ptr : ValueExpr) → Keeps 0 (Methods.atomic_load dest ptr)
unfolding Methods.atomic_load Free.atomic_load
atomic_load-Keeps dest ptr = then_block-Keeps (λ n. Free.atomic_load dest ptr n) (λ n. refl)

pub atomic_fetch-Keeps :
    (op : FetchBinOp) (dest : PlaceExpr) (ptr other : ValueExpr)
    → Keeps 0 (Methods.atomic_fetch op dest ptr other)
unfolding Methods.atomic_fetch Free.atomic_fetch
atomic_fetch-Keeps op dest ptr other =
    then_block-Keeps (λ n. Free.atomic_fetch op dest ptr other n) (λ n. refl)

pub compare_exchange-Keeps :
    (dest : PlaceExpr) (ptr current next_val : ValueExpr)
    → Keeps 0 (Methods.compare_exchange dest ptr current next_val)
unfolding Methods.compare_exchange Free.compare_exchange
compare_exchange-Keeps dest ptr current next_val =
    then_block-Keeps (λ n. Free.compare_exchange dest ptr current next_val n) (λ n. refl)

pub expose_provenance-Keeps :
    (dest : PlaceExpr) (ptr : ValueExpr) → Keeps 0 (Methods.expose_provenance dest ptr)
unfolding Methods.expose_provenance Free.expose_provenance
expose_provenance-Keeps dest ptr =
    then_block-Keeps (λ n. Free.expose_provenance dest ptr n) (λ n. refl)

pub with_exposed_provenance-Keeps :
    (dest : PlaceExpr) (addr : ValueExpr) → Keeps 0 (Methods.with_exposed_provenance dest addr)
unfolding Methods.with_exposed_provenance Free.with_exposed_provenance
with_exposed_provenance-Keeps dest addr =
    then_block-Keeps (λ n. Free.with_exposed_provenance dest addr n) (λ n. refl)

pub lock_create-Keeps : (ret : PlaceExpr) → Keeps 0 (Methods.lock_create ret)
unfolding Methods.lock_create Free.lock_create
lock_create-Keeps ret = then_block-Keeps (λ n. Free.lock_create ret n) (λ n. refl)

pub lock_acquire-Keeps : (lock_id : ValueExpr) → Keeps 0 (Methods.lock_acquire lock_id)
unfolding Methods.lock_acquire Free.lock_acquire
lock_acquire-Keeps lock_id =
    then_block_lift-Keeps (λ n. Free.lock_acquire lock_id n) (λ n t e. ground arith)

pub lock_release-Keeps : (lock_id : ValueExpr) → Keeps 0 (Methods.lock_release lock_id)
unfolding Methods.lock_release Free.lock_release
lock_release-Keeps lock_id =
    then_block_lift-Keeps (λ n. Free.lock_release lock_id n) (λ n t e. ground arith)

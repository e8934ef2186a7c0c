-- ===== src/Build/Closed/Client.antt =====
-- A client of the builder: a list of calls of its public methods, with lists of calls for the
-- closures. The place that a declaration of a local returns is among the later calls' arguments.
use minirust_contrib_fork.Prelude.{Bool, List, [], ◌∷◌, All}
use minirust_contrib_fork.Prelude.Int.{ℤ}
use minirust_contrib_fork.Lang.Types.{Ty}
use minirust_contrib_fork.Lang.Syntax.{FnName, ValueExpr, PlaceExpr, ArgumentExpr}
use minirust_contrib_fork.Build.TyConv.{RustTy}
use minirust_contrib_fork.Build.Terminator.{FetchBinOp}
use minirust_contrib_fork.Build.State.{Build, ◌>>=◌, ◌>>◌, pure}
use minirust_contrib_fork.Build.State
use minirust_contrib_fork.Build.Methods
use minirust_contrib_fork.Build.Control
use minirust_contrib_fork.Build.Closed.Rules.{Keeps, Keeps-bind, Keeps-pure}
use minirust_contrib_fork.Build.Closed.Locals
use minirust_contrib_fork.Build.Closed.Methods as Laws
use minirust_contrib_fork.Build.Closed.Control as ControlLaws

mutual
  pub data Call : Type 0 where
    declare_local : RustTy → Call
    declare_local_with_ty : Ty → Call
    declare_ret : RustTy → Call
    declare_arg : RustTy → Call
    assign : PlaceExpr → ValueExpr → Call
    place_mention : PlaceExpr → Call
    set_discriminant : PlaceExpr → ℤ → Call
    validate : PlaceExpr → Bool → Call
    storage_live : PlaceExpr → Call
    storage_dead : PlaceExpr → Call
    exit : Call
    unreachable : Call
    return_ : Call
    panic : Call
    call_noret : PlaceExpr → FnName → List ArgumentExpr → Call
    call : PlaceExpr → FnName → List ArgumentExpr → Call
    call_ignoreret : FnName → List ArgumentExpr → Call
    assume : ValueExpr → Call
    print : ValueExpr → Call
    eprint : ValueExpr → Call
    allocate : ValueExpr → ValueExpr → PlaceExpr → Call
    deallocate : ValueExpr → ValueExpr → ValueExpr → Call
    spawn : FnName → ValueExpr → PlaceExpr → Call
    join : ValueExpr → Call
    raw_eq : PlaceExpr → ValueExpr → ValueExpr → Call
    atomic_store : ValueExpr → ValueExpr → Call
    atomic_load : PlaceExpr → ValueExpr → Call
    atomic_fetch : FetchBinOp → PlaceExpr → ValueExpr → ValueExpr → Call
    compare_exchange : PlaceExpr → ValueExpr → ValueExpr → ValueExpr → Call
    expose_provenance : PlaceExpr → ValueExpr → Call
    with_exposed_provenance : PlaceExpr → ValueExpr → Call
    lock_create : PlaceExpr → Call
    lock_acquire : ValueExpr → Call
    lock_release : ValueExpr → Call
    if_ : ValueExpr → Calls → Calls → Call
    switch_int : ValueExpr → Cases → Calls → Call
    while_ : ValueExpr → Calls → Call

  pub data Calls : Type 0 where
    done : Calls
    then : Call → Calls → Calls

  pub data Cases : Type 0 where
    no_case : Cases
    case : ℤ → Calls → Cases → Cases

unfoldable mutual
  pub perform : Call → Build Unit
  perform (declare_local a) = State.declare_local a >> pure tt
  perform (declare_local_with_ty a) = State.declare_local_with_ty a >> pure tt
  perform (declare_ret a) = State.declare_ret a >> pure tt
  perform (declare_arg a) = State.declare_arg a >> pure tt
  perform (assign a b) = Methods.assign a b
  perform (place_mention a) = Methods.place_mention a
  perform (set_discriminant a b) = Methods.set_discriminant a b
  perform (validate a b) = Methods.validate a b
  perform (storage_live a) = Methods.storage_live a
  perform (storage_dead a) = Methods.storage_dead a
  perform exit = Methods.exit
  perform unreachable = Methods.unreachable
  perform return_ = Methods.return_
  perform panic = Methods.panic
  perform (call_noret a b c) = Methods.call_noret a b c
  perform (call a b c) = Methods.call a b c
  perform (call_ignoreret a b) = Methods.call_ignoreret a b
  perform (assume a) = Methods.assume a
  perform (print a) = Methods.print a
  perform (eprint a) = Methods.eprint a
  perform (allocate a b c) = Methods.allocate a b c
  perform (deallocate a b c) = Methods.deallocate a b c
  perform (spawn a b c) = Methods.spawn a b c
  perform (join a) = Methods.join a
  perform (raw_eq a b c) = Methods.raw_eq a b c
  perform (atomic_store a b) = Methods.atomic_store a b
  perform (atomic_load a b) = Methods.atomic_load a b
  perform (atomic_fetch a b c d) = Methods.atomic_fetch a b c d
  perform (compare_exchange a b c d) = Methods.compare_exchange a b c d
  perform (expose_provenance a b) = Methods.expose_provenance a b
  perform (with_exposed_provenance a b) = Methods.with_exposed_provenance a b
  perform (lock_create a) = Methods.lock_create a
  perform (lock_acquire a) = Methods.lock_acquire a
  perform (lock_release a) = Methods.lock_release a
  perform (if_ a b c) = Control.if_ a (perform_all b) (perform_all c)
  perform (switch_int a b c) = Control.switch_int a (perform_cases b) (perform_all c)
  perform (while_ a b) = Control.while_ a (perform_all b)

  pub perform_all : Calls → Build Unit
  perform_all done = pure tt
  perform_all (then c cs) = perform c >> perform_all cs

  pub perform_cases : Cases → List (ℤ × Build Unit)
  perform_cases no_case = []
  perform_cases (case n cs rest) = (n, perform_all cs) ∷ perform_cases rest

mutual
  unfolding perform perform_all perform_cases

  perform-Keeps : (c : Call) → Keeps 0 (perform c)
  perform-Keeps (declare_local a) = Keeps-bind (Locals.declare_local-Keeps a) (λ _. Keeps-pure tt)
  perform-Keeps (declare_local_with_ty a) =
      Keeps-bind (Locals.declare_local_with_ty-Keeps a) (λ _. Keeps-pure tt)
  perform-Keeps (declare_ret a) = Keeps-bind (Locals.declare_ret-Keeps a) (λ _. Keeps-pure tt)
  perform-Keeps (declare_arg a) = Keeps-bind (Locals.declare_arg-Keeps a) (λ _. Keeps-pure tt)
  perform-Keeps (assign a b) = Laws.assign-Keeps a b
  perform-Keeps (place_mention a) = Laws.place_mention-Keeps a
  perform-Keeps (set_discriminant a b) = Laws.set_discriminant-Keeps a b
  perform-Keeps (validate a b) = Laws.validate-Keeps a b
  perform-Keeps (storage_live a) = Laws.storage_live-Keeps a
  perform-Keeps (storage_dead a) = Laws.storage_dead-Keeps a
  perform-Keeps exit = Laws.exit-Keeps
  perform-Keeps unreachable = Laws.unreachable-Keeps
  perform-Keeps return_ = Laws.return_-Keeps
  perform-Keeps panic = Laws.panic-Keeps
  perform-Keeps (call_noret a b c) = Laws.call_noret-Keeps a b c
  perform-Keeps (call a b c) = Laws.call-Keeps a b c
  perform-Keeps (call_ignoreret a b) = Laws.call_ignoreret-Keeps a b
  perform-Keeps (assume a) = Laws.assume-Keeps a
  perform-Keeps (print a) = Laws.print-Keeps a
  perform-Keeps (eprint a) = Laws.eprint-Keeps a
  perform-Keeps (allocate a b c) = Laws.allocate-Keeps a b c
  perform-Keeps (deallocate a b c) = Laws.deallocate-Keeps a b c
  perform-Keeps (spawn a b c) = Laws.spawn-Keeps a b c
  perform-Keeps (join a) = Laws.join-Keeps a
  perform-Keeps (raw_eq a b c) = Laws.raw_eq-Keeps a b c
  perform-Keeps (atomic_store a b) = Laws.atomic_store-Keeps a b
  perform-Keeps (atomic_load a b) = Laws.atomic_load-Keeps a b
  perform-Keeps (atomic_fetch a b c d) = Laws.atomic_fetch-Keeps a b c d
  perform-Keeps (compare_exchange a b c d) = Laws.compare_exchange-Keeps a b c d
  perform-Keeps (expose_provenance a b) = Laws.expose_provenance-Keeps a b
  perform-Keeps (with_exposed_provenance a b) = Laws.with_exposed_provenance-Keeps a b
  perform-Keeps (lock_create a) = Laws.lock_create-Keeps a
  perform-Keeps (lock_acquire a) = Laws.lock_acquire-Keeps a
  perform-Keeps (lock_release a) = Laws.lock_release-Keeps a
  perform-Keeps (if_ a b c) =
      ControlLaws.if_-Keeps 0 a (perform_all b) (perform_all c) (perform_all-Keeps b)
        (perform_all-Keeps c)
  perform-Keeps (switch_int a b c) =
      ControlLaws.switch_int-Keeps 0 a (perform_cases b) (perform_all c) (perform_cases-Keeps b)
        (perform_all-Keeps c)
  perform-Keeps (while_ a b) = ControlLaws.while_-Keeps a (perform_all b) (perform_all-Keeps b)

  perform_all-Keeps : (cs : Calls) → Keeps 0 (perform_all cs)
  perform_all-Keeps done = Keeps-pure tt
  perform_all-Keeps (then c cs) = Keeps-bind (perform-Keeps c) (λ _. perform_all-Keeps cs)

  perform_cases-Keeps : (cs : Cases) → All (λ (c : ℤ × Build Unit). Keeps 0 c.1) (perform_cases cs)
  perform_cases-Keeps no_case = tt
  perform_cases-Keeps (case n cs rest) = (perform_all-Keeps cs, perform_cases-Keeps rest)

-- Whatever a client calls, the invariant is kept.
pub calls-Keeps : (cs : Calls) → Keeps 0 (perform_all cs)
calls-Keeps cs = perform_all-Keeps cs

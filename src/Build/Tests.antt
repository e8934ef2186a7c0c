-- ===== src/Build/Tests.antt =====
-- Runs of the builder, and instances of its theorems.
use minirust_contrib_fork.Prelude.{true, Option, none, some, [], ◌≡◌, refl, length}
use minirust_contrib_fork.Lang.Types.{Ty}
use minirust_contrib_fork.Lang.Syntax.{Constant, ValueExpr, PlaceExpr, Function, CallingConvention}
use minirust_contrib_fork.Build.TyConv.{RustTy, get_type}
use minirust_contrib_fork.Build.Expr.{
  bool_to_int, int_cast, transmute, unit_place, fn_ptr, local_by_name,
}
use minirust_contrib_fork.Build.Terminator as Free
use minirust_contrib_fork.Build.State.{
  new, declare_block, set_cur_block, new_cur_block, push_statement, finish_block, finish_function,
  fresh_local_name, insert_local, declare_ret, declare_local,
}
use minirust_contrib_fork.Build.Methods
use minirust_contrib_fork.Build.Control
use minirust_contrib_fork.Build.Closed.Client.{Calls, Call, perform_all}
use minirust_contrib_fork.Build.Closed.Graph.{build, IsClosed, build-IsClosed}

abbrev condition : ValueExpr
condition = ValueExpr.constant (Constant.bool true) Ty.bool

-- let a : u8; while true { if true { return } else { f1() }; print(true) }; return
abbrev script : Calls
script = Calls.then (Call.declare_local RustTy.u8) (
    Calls.then (Call.storage_live (PlaceExpr.local 0)) (
      Calls.then
        (Call.while_ condition (
          Calls.then
            (Call.if_ condition (Calls.then Call.return_ Calls.done)
              (Calls.then (Call.call_ignoreret 1 []) Calls.done))
            (Calls.then (Call.print condition) Calls.done)))
        (Calls.then Call.return_ Calls.done)))

abbrev empty_function : Function
empty_function = record {
  locals = [];
  args = [];
  ret = 0;
  calling_convention = CallingConvention.c;
  blocks = [];
  start = 0;
}

abbrev or_empty : Option Function → Function
or_empty none = empty_function
or_empty (some f) = f

built : Function
unfolding build new declare_block set_cur_block new_cur_block push_statement finish_block
    finish_function fresh_local_name insert_local declare_ret declare_local local_by_name get_type
    bool_to_int int_cast transmute unit_place fn_ptr perform_all Methods.storage_live
    Methods.return_ Methods.goto Methods.call_ignoreret Methods.print Free.print Control.while_
    Control.if_ Control.switch_int Control.declare_cases Control.build_branches Control.join_after
    Control.jump_after Control.get_or_declare Control.set_after Control.loop_body Control.jump_back
built = or_empty (build 0 script)

script_builds : build 0 script ≡ some built
unfolding built
script_builds = refl

built_blocks : length built.blocks ≡ 10
unfolding built
built_blocks = refl

build-IsClosed_example : IsClosed built
build-IsClosed_example = build-IsClosed 0 script built script_builds

-- ===== src/Build/Program.antt =====
-- `ProgramBuilder`, `program_with_globals`, `program` and `small_program` of
-- tooling/miniutil/src/build/mod.rs, `function` and `block` of build/function.rs, and
-- build/global.rs.
use minirust_contrib_fork.Prelude.{
  ℕ, zero, suc, ◌+◌, ◌%◌, ◌^◌, List, [], ◌∷◌, Option, none, some, length, replicate, ltb,
  if◌then◌else◌,
}
use minirust_contrib_fork.Prelude.{◌>>=◌}
use minirust_contrib_fork.Prelude.Map.{Map, collect, try_insert, nat_eq}
use minirust_contrib_fork.Lang.Types.{Ty, expect_sized}
use minirust_contrib_fork.Lang.Syntax.{
  FnName, GlobalName, LocalName, PlaceExpr, Statement, Terminator, BasicBlock, Function, Global,
  Program, CallingConvention,
}
use minirust_contrib_fork.Build.TyConv.{RustTy, get_type, get_size, get_align}
use minirust_contrib_fork.Build.Expr.{global_by_name}
use minirust_contrib_fork.Build.Terminator.{exit}
use minirust_contrib_fork.Build.State.{FunctionBuilder, bump}
use minirust_contrib_fork.Build.State

-- `i as _`, from `usize` to `u32`
abbrev pub as_u32 : ℕ → ℕ
as_u32 i = i % 2 ^ 32

-- `iter().enumerate()` with each index turned into a name
abbrev pub named_from {ℓ} : {A : Type ℓ} → ℕ → List A → List (ℕ × A)
named_from i [] = []
named_from i (x ∷ xs) = (as_u32 i, x) ∷ named_from (i + 1) xs

pub data Ret : Type 0 where
  returns returns_not : Ret

abbrev pub arg_index : Ret → ℕ → ℕ
arg_index returns x = x + 1
arg_index returns_not x = x

abbrev pub args_from : Ret → ℕ → ℕ → List LocalName
args_from ret x zero = []
args_from ret x (suc n) = as_u32 (arg_index ret x) ∷ args_from ret (x + 1) n

-- The locals with the return local, and its name.
unfoldable pub ret_local : Ret → Map LocalName Ty → Option (Map LocalName Ty × LocalName)
unfolding get_type
ret_local returns locals = if ltb 0 (length locals) then some (locals, 0) else none
ret_local returns_not locals = do
  let name = as_u32 (length locals)
  ty ← get_type RustTy.unit
  locals' ← try_insert name ty locals
  some (locals', name)

unfoldable pub function : Ret → ℕ → List Ty → List BasicBlock → Option Function
unfolding ret_local
function ret num_args locals bbs = do
  with_ret ← ret_local ret (collect (named_from 0 locals))
  some (record {
    locals = with_ret.0;
    args = args_from ret 0 num_args;
    ret = with_ret.1;
    calling_convention = CallingConvention.c;
    blocks = collect (named_from 0 bbs);
    start = 0;
  })

unfoldable pub block : List Statement → Terminator → BasicBlock
block statements terminator = record { statements = statements; terminator = terminator }

unfoldable pub program_with_globals : List Function → List Global → Program
program_with_globals fns globals = record {
  functions = collect (named_from 0 fns);
  start = 0;
  globals = collect (named_from 0 globals);
}

unfoldable pub program : List Function → Program
unfolding program_with_globals
program fns = program_with_globals fns []

unfoldable pub small_program : List Ty → List Statement → Option Program
unfolding block exit function program
small_program locals statements = do
  t ← exit
  f ← function returns_not 0 locals (block statements t ∷ [])
  some (program (f ∷ []))

pub record ProgramBuilder : Type 0 where
  pub functions : Map FnName Function
  pub globals : Map GlobalName Global
  pub next_fn : ℕ
  pub next_global : ℕ

unfoldable pub new : ProgramBuilder
new = record { functions = []; globals = []; next_fn = 0; next_global = 0 }

unfoldable pub finish_program : ProgramBuilder → FnName → Program
finish_program p start_function = record {
  functions = p.functions;
  start = start_function;
  globals = p.globals;
}

unfoldable pub declare_function : ProgramBuilder → Option (FunctionBuilder × ProgramBuilder)
unfolding State.new
declare_function p = do
  n ← bump p.next_fn
  f ← State.new p.next_fn
  some (f, record p { next_fn = n })

unfoldable pub finish_function : ProgramBuilder → FunctionBuilder → Option (FnName × ProgramBuilder)
unfolding State.finish_function
finish_function p fb = do
  f ← State.finish_function fb
  functions ← try_insert fb.name f p.functions
  some (fb.name, record p { functions = functions })

-- A zeroed global of the size and alignment of the type.
unfoldable pub global_int : RustTy → Option Global
unfolding get_size get_align expect_sized
global_int t = do
  strategy ← get_size t
  bytes ← expect_sized strategy
  align ← get_align t
  some (record { bytes = replicate bytes (some 0); relocations = []; align = align })

unfoldable pub global_ptr : RustTy → Option Global
unfolding get_size get_align expect_sized
global_ptr t = do
  strategy ← get_size (RustTy.const_ptr t)
  bytes ← expect_sized strategy
  align ← get_align (RustTy.const_ptr t)
  some (record { bytes = replicate bytes (some 0); relocations = []; align = align })

unfoldable pub declare_global_zero_initialized :
    RustTy → ProgramBuilder → Option (PlaceExpr × ProgramBuilder)
unfolding get_size get_align expect_sized global_by_name
declare_global_zero_initialized t p = do
  strategy ← get_size t
  bytes ← expect_sized strategy
  align ← get_align t
  let global : Global = record { bytes = replicate bytes (some 0); relocations = []; align = align }
  n ← bump p.next_global
  globals ← try_insert p.next_global global p.globals
  place ← global_by_name t p.next_global
  some (place, record p { globals = globals; next_global = n })

-- ===== src/Fmt/Function.antt =====
-- tooling/miniutil/src/fmt/function.rs: the text of functions, blocks, statements and terminators.
use minirust_contrib_fork.Prelude.{
  ℕ, Bool, Option, none, some, List, [], ◌∷◌, map, if◌then◌else◌, ltb, ◌==◌,
}
use minirust_contrib_fork.Prelude.Int.{ℤ}
use minirust_contrib_fork.Prelude.Map.{Map}
use minirust_contrib_fork.Lang.Types.{Ty}
use minirust_contrib_fork.Lang.Syntax.{
  FnName, LocalName, BbName, IntBinOp, IntrinsicOp, IntrinsicLockOp, CallingConvention, ValueExpr,
  PlaceExpr, ArgumentExpr, Statement, Terminator, BasicBlock, Function, Program,
}
use minirust_contrib_fork.Fmt.Comptypes.{Host, Fmt, ◌>>=◌, pure}
use minirust_contrib_fork.Fmt.Ty.{to_string, to_atomic_string, show_ℕ, fmt_type}
use minirust_contrib_fork.Fmt.Expr.{
  fmt_local_name, fmt_fn_name, fmt_place_expr, fmt_value_expr, show_bool,
}
use Prim.Native.String.{String, ◌++◌}

-- `join` of a list of texts.
unfoldable pub join : String → List String → String
join separator [] = ""
join separator (s ∷ []) = s
join separator (s ∷ t ∷ l) = s ++ separator ++ join separator (t ∷ l)

-- `sort_by_key` by a name's number; it is stable.
module _ {ℓ} {A : Type ℓ} where
  unfoldable pub insert_by_key : ℕ × A → List (ℕ × A) → List (ℕ × A)
  insert_by_key e [] = e ∷ []
  insert_by_key e (x ∷ l) = if ltb e.0 x.0 then e ∷ x ∷ l else x ∷ insert_by_key e l

  unfoldable pub sort_onto : List (ℕ × A) → List (ℕ × A) → List (ℕ × A)
  sort_onto sorted [] = sorted
  sort_onto sorted (e ∷ l) = sort_onto (insert_by_key e sorted) l

  unfoldable pub sort_by_key : List (ℕ × A) → List (ℕ × A)
  sort_by_key l = sort_onto [] l

-- The loop that appends the text of each element.
module _ {ℓ} {A : Type ℓ} where
  unfoldable pub fmt_each : (A → Fmt String) → List A → Fmt String
  fmt_each fmt [] = pure ""
  fmt_each fmt (a ∷ l) = do first ← fmt a; rest ← fmt_each fmt l; pure (first ++ rest)

  unfoldable pub fmt_list : (A → Fmt String) → List A → Fmt (List String)
  fmt_list fmt [] = pure []
  fmt_list fmt (a ∷ l) = do first ← fmt a; rest ← fmt_list fmt l; pure (first ∷ rest)

unfoldable pub fmt_bb_name : Host → BbName → String
fmt_bb_name host bb = "bb" ++ show_ℕ host bb

unfoldable pub fmt_statement : Host → Statement → Fmt String
fmt_statement host (Statement.assign destination source) = do
  left ← fmt_place_expr host destination
  right ← fmt_value_expr host source
  pure ("    " ++ to_string left ++ " = " ++ to_string right ++ ";")
fmt_statement host (Statement.place_mention place) = do
  p ← fmt_place_expr host place
  pure ("    _ = " ++ to_string p ++ ";")
fmt_statement host (Statement.set_discriminant destination value) = do
  left ← fmt_place_expr host destination
  pure ("    discriminant(" ++ to_string left ++ ") = " ++ host.show value ++ ";")
fmt_statement host (Statement.validate place fn_entry) = do
  p ← fmt_place_expr host place
  pure ("    validate(" ++ to_string p ++ ", " ++ show_bool fn_entry ++ ");")
fmt_statement host (Statement.deinit place) = do
  p ← fmt_place_expr host place
  pure ("    deinit(" ++ to_string p ++ ");")
fmt_statement host (Statement.storage_live l) =
    pure ("    storage_live(" ++ fmt_local_name host l ++ ");")
fmt_statement host (Statement.storage_dead l) =
    pure ("    storage_dead(" ++ fmt_local_name host l ++ ");")

unfoldable pub fmt_next : Host → Option BbName → String
fmt_next host none = ""
fmt_next host (some next_block) = " -> " ++ fmt_bb_name host next_block

unfoldable pub fmt_convention : CallingConvention → String
fmt_convention CallingConvention.rust = ""
fmt_convention CallingConvention.c = "extern \"C\""

unfoldable pub fmt_call :
    Host → String → CallingConvention → String → PlaceExpr → Option BbName → Fmt String
fmt_call host callee conv args ret next_block = do
  r ← fmt_place_expr host ret
  pure (
      "    "
      ++ to_string r
      ++ " = "
      ++ fmt_convention conv
      ++ callee
      ++ "("
      ++ args
      ++ ")"
      ++ fmt_next host next_block
      ++ ";")

unfoldable pub fmt_fetch : IntBinOp → String
fmt_fetch IntBinOp.add = "atomic_fetch_add"
fmt_fetch IntBinOp.sub = "atomic_fetch_sub"
fmt_fetch op = "atomic_fetch_ILL_FORMED"

unfoldable pub fmt_intrinsic : IntrinsicOp → String
fmt_intrinsic IntrinsicOp.assume = "assume"
fmt_intrinsic IntrinsicOp.exit = "exit"
fmt_intrinsic IntrinsicOp.panic = "panic"
fmt_intrinsic IntrinsicOp.print_stdout = "print"
fmt_intrinsic IntrinsicOp.print_stderr = "eprint"
fmt_intrinsic IntrinsicOp.allocate = "allocate"
fmt_intrinsic IntrinsicOp.deallocate = "deallocate"
fmt_intrinsic IntrinsicOp.spawn = "spawn"
fmt_intrinsic IntrinsicOp.join = "join"
fmt_intrinsic IntrinsicOp.raw_eq = "raw_eq"
fmt_intrinsic IntrinsicOp.atomic_store = "atomic_store"
fmt_intrinsic IntrinsicOp.atomic_load = "atomic_load"
fmt_intrinsic IntrinsicOp.atomic_compare_exchange = "atomic_compare_exchange"
fmt_intrinsic (IntrinsicOp.atomic_fetch_and_op binop) = fmt_fetch binop
fmt_intrinsic (IntrinsicOp.lock IntrinsicLockOp.acquire) = "lock_acquire"
fmt_intrinsic (IntrinsicOp.lock IntrinsicLockOp.create) = "lock_create"
fmt_intrinsic (IntrinsicOp.lock IntrinsicLockOp.release) = "lock_release"
fmt_intrinsic IntrinsicOp.pointer_expose_provenance = "pointer_expose_provenance"
fmt_intrinsic IntrinsicOp.pointer_with_exposed_provenance = "pointer_with_exposed_provenance"

unfoldable pub fmt_argument : Host → ArgumentExpr → Fmt String
fmt_argument host (ArgumentExpr.by_value value) = do
  v ← fmt_value_expr host value
  pure ("by-value(" ++ to_string v ++ ")")
fmt_argument host (ArgumentExpr.in_place place) = do
  p ← fmt_place_expr host place
  pure ("in-place(" ++ to_string p ++ ")")

-- The text of a value as an argument of an intrinsic.
abbrev pub fmt_value : Host → ValueExpr → Fmt String
fmt_value host value = do v ← fmt_value_expr host value; pure (to_string v)

unfoldable pub fmt_case : Host → ℤ × BbName → String
fmt_case host (constant, successor) = host.show constant ++ ": " ++ fmt_bb_name host successor

-- The cases of a switch, and the fallback after them.
unfoldable pub fmt_cases : Host → Map ℤ BbName → BbName → List String
fmt_cases host [] fallback = ("otherwise: " ++ fmt_bb_name host fallback) ∷ []
fmt_cases host (c ∷ cases) fallback = fmt_case host c ∷ fmt_cases host cases fallback

unfoldable pub fmt_terminator : Host → Terminator → Fmt String
fmt_terminator host (Terminator.goto bb) = pure ("    goto -> " ++ fmt_bb_name host bb ++ ";")
fmt_terminator host (Terminator.switch value cases fallback) = do
  branch_expr ← fmt_value_expr host value
  pure (
      "    switch("
      ++ to_string branch_expr
      ++ ") -> [\n      "
      ++ join ",\n      " (fmt_cases host cases fallback)
      ++ "\n    ];")
fmt_terminator host Terminator.unreachable = pure "    unreachable;"
fmt_terminator host (Terminator.call callee conv arguments ret next_block) = do
  c ← fmt_value_expr host callee
  args ← fmt_list (fmt_argument host) arguments
  fmt_call host (to_atomic_string c) conv (join ", " args) ret next_block
fmt_terminator host Terminator.return = pure "    return;"
fmt_terminator host (Terminator.intrinsic intrinsic arguments ret next_block) = do
  args ← fmt_list (fmt_value host) arguments
  fmt_call host (fmt_intrinsic intrinsic) CallingConvention.rust (join ", " args) ret next_block

abbrev pub fmt_line : Host → Statement → Fmt String
fmt_line host st = do s ← fmt_statement host st; pure (s ++ "\n")

unfoldable pub fmt_bb : Host → BbName → BasicBlock → Bool → Fmt String
fmt_bb host bb_name bb start = do
  statements ← fmt_each (fmt_line host) bb.statements
  terminator ← fmt_terminator host bb.terminator
  pure (
      (if start then "  start bb" else "  bb")
      ++ show_ℕ host bb_name
      ++ ":\n"
      ++ statements
      ++ terminator
      ++ "\n")

abbrev pub fmt_local : Host → LocalName × Ty → Fmt String
fmt_local host (l, ty) = do
  t ← fmt_type host ty
  pure ("  let " ++ fmt_local_name host l ++ ": " ++ to_string t ++ ";\n")

abbrev pub fmt_block : Host → BbName → BbName × BasicBlock → Fmt String
fmt_block host start (bb_name, bb) = fmt_bb host bb_name bb (start == bb_name)

unfoldable pub fmt_function : Host → FnName → Function → Bool → Fmt String
fmt_function host fn_name f start = do
  locals ← fmt_each (fmt_local host) (sort_by_key f.locals)
  blocks ← fmt_each (fmt_block host f.start) (sort_by_key f.blocks)
  pure (
      (if start then "start fn " else "fn ")
      ++ fmt_fn_name host fn_name
      ++ "("
      ++ join ", " (map (fmt_local_name host) f.args)
      ++ ") -> "
      ++ fmt_local_name host f.ret
      ++ " {\n"
      ++ locals
      ++ blocks
      ++ "}\n\n")

abbrev pub fmt_named : Host → FnName → FnName × Function → Fmt String
fmt_named host start (fn_name, f) = fmt_function host fn_name f (start == fn_name)

unfoldable pub fmt_functions : Host → Program → Fmt String
fmt_functions host prog = fmt_each (fmt_named host prog.start) (sort_by_key prog.functions)

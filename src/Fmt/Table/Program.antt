-- ===== src/Fmt/Table/Program.antt =====
-- What printing the functions of a program does to the table of composite types.
use minirust_contrib_fork.Prelude.{Bool, Option, some, List, [], ◌∷◌, ◌≡◌, All, subst}
use minirust_contrib_fork.Lang.Types.{Ty}
use minirust_contrib_fork.Lang.Syntax.{
  ArgumentExpr, Statement, Terminator, BasicBlock, BbName, Function, FnName, Program,
  CallingConvention, PlaceExpr,
}
use minirust_contrib_fork.Fmt.Comptypes.{Host, Fmt}
use minirust_contrib_fork.Fmt.Ty.{fmt_type}
use minirust_contrib_fork.Fmt.Expr.{fmt_value_expr, fmt_place_expr}
use minirust_contrib_fork.Fmt.Function.{
  sort_by_key, fmt_each, fmt_list, fmt_statement, fmt_argument, fmt_value, fmt_call, fmt_terminator,
  fmt_line, fmt_bb, fmt_local, fmt_block, fmt_function, fmt_named, fmt_functions,
}
use minirust_contrib_fork.Fmt.Table.{
  Keeps, Keeps->>=, Keeps-map, Keeps-map₂, Good, Grown-IsUnique, Grown-All, here, IsUnique,
  IsComposite, fmt_type-Keeps, fmt_value_expr-Keeps, fmt_place_expr-Keeps,
}
use Prim.Native.String.{String}

module _ {ℓ} {A : Type ℓ} (host : Host) (fmt : A → Fmt String)
    (keeps : (a : A) → Keeps host (fmt a)) where
  fmt_each-Keeps : (l : List A) → Keeps host (fmt_each fmt l)
  unfolding fmt_each
  fmt_each-Keeps [] = λ l. here
  fmt_each-Keeps (a ∷ l) = Keeps-map₂ host (fmt a) (fmt_each fmt l) _ (keeps a) (fmt_each-Keeps l)

  fmt_list-Keeps : (l : List A) → Keeps host (fmt_list fmt l)
  unfolding fmt_list
  fmt_list-Keeps [] = λ l. here
  fmt_list-Keeps (a ∷ l) = Keeps-map₂ host (fmt a) (fmt_list fmt l) _ (keeps a) (fmt_list-Keeps l)

module _ (host : Host) where
  fmt_statement-Keeps : (st : Statement) → Keeps host (fmt_statement host st)
  unfolding fmt_statement
  fmt_statement-Keeps (Statement.assign destination source) =
      Keeps-map₂ host (fmt_place_expr host destination) (fmt_value_expr host source) _
        (fmt_place_expr-Keeps host destination) (fmt_value_expr-Keeps host source)
  fmt_statement-Keeps (Statement.place_mention place) =
      Keeps-map host (fmt_place_expr host place) _ (fmt_place_expr-Keeps host place)
  fmt_statement-Keeps (Statement.set_discriminant destination value) =
      Keeps-map host (fmt_place_expr host destination) _ (fmt_place_expr-Keeps host destination)
  fmt_statement-Keeps (Statement.validate place fn_entry) =
      Keeps-map host (fmt_place_expr host place) _ (fmt_place_expr-Keeps host place)
  fmt_statement-Keeps (Statement.deinit place) =
      Keeps-map host (fmt_place_expr host place) _ (fmt_place_expr-Keeps host place)
  fmt_statement-Keeps (Statement.storage_live l) = λ l. here
  fmt_statement-Keeps (Statement.storage_dead l) = λ l. here

  fmt_argument-Keeps : (arg : ArgumentExpr) → Keeps host (fmt_argument host arg)
  unfolding fmt_argument
  fmt_argument-Keeps (ArgumentExpr.by_value value) =
      Keeps-map host (fmt_value_expr host value) _ (fmt_value_expr-Keeps host value)
  fmt_argument-Keeps (ArgumentExpr.in_place place) =
      Keeps-map host (fmt_place_expr host place) _ (fmt_place_expr-Keeps host place)

  fmt_call-Keeps :
      (callee : String) (conv : CallingConvention) (args : String) (ret : PlaceExpr)
      (next : Option BbName)
      → Keeps host (fmt_call host callee conv args ret next)
  unfolding fmt_call
  fmt_call-Keeps callee conv args ret next =
      Keeps-map host (fmt_place_expr host ret) _ (fmt_place_expr-Keeps host ret)

  fmt_terminator-Keeps : (t : Terminator) → Keeps host (fmt_terminator host t)
  unfolding fmt_terminator
  fmt_terminator-Keeps (Terminator.goto bb) = λ l. here
  fmt_terminator-Keeps (Terminator.switch value cases fallback) =
      Keeps-map host (fmt_value_expr host value) _ (fmt_value_expr-Keeps host value)
  fmt_terminator-Keeps Terminator.unreachable = λ l. here
  fmt_terminator-Keeps (Terminator.call callee conv arguments ret next) =
      Keeps->>= host (fmt_value_expr host callee) _ (fmt_value_expr-Keeps host callee) λ c.
        Keeps->>= host (fmt_list (fmt_argument host) arguments) _
          (fmt_list-Keeps host (fmt_argument host) fmt_argument-Keeps arguments)
          λ args. fmt_call-Keeps _ conv _ ret next
  fmt_terminator-Keeps Terminator.return = λ l. here
  fmt_terminator-Keeps (Terminator.intrinsic intrinsic arguments ret next) =
      Keeps->>= host (fmt_list (fmt_value host) arguments) _
        (fmt_list-Keeps host (fmt_value host)
          (λ v. Keeps-map host (fmt_value_expr host v) _ (fmt_value_expr-Keeps host v)) arguments)
        λ args. fmt_call-Keeps _ CallingConvention.rust _ ret next

  fmt_bb-Keeps :
      (name : BbName) (bb : BasicBlock) (start : Bool) → Keeps host (fmt_bb host name bb start)
  unfolding fmt_bb
  fmt_bb-Keeps name bb start =
      Keeps-map₂ host (fmt_each (fmt_line host) bb.statements) (fmt_terminator host bb.terminator) _
        (fmt_each-Keeps host (fmt_line host)
          (λ st. Keeps-map host (fmt_statement host st) _ (fmt_statement-Keeps st)) bb.statements)
        (fmt_terminator-Keeps bb.terminator)

  fmt_function-Keeps :
      (name : FnName) (f : Function) (start : Bool) → Keeps host (fmt_function host name f start)
  unfolding fmt_function
  fmt_function-Keeps name f start =
      Keeps-map₂ host (fmt_each (fmt_local host) (sort_by_key f.locals))
        (fmt_each (fmt_block host f.start) (sort_by_key f.blocks)) _
        (fmt_each-Keeps host (fmt_local host)
          (λ e. Keeps-map host (fmt_type host e.1) _ (fmt_type-Keeps host e.1))
          (sort_by_key f.locals))
        (fmt_each-Keeps host (fmt_block host f.start) (λ e. fmt_bb-Keeps e.0 e.1 _)
          (sort_by_key f.blocks))

  fmt_functions-Keeps : (prog : Program) → Keeps host (fmt_functions host prog)
  unfolding fmt_functions
  fmt_functions-Keeps prog =
      fmt_each-Keeps host (fmt_named host prog.start) (λ e. fmt_function-Keeps e.0 e.1 _)
        (sort_by_key prog.functions)

-- Where printing the functions of a program from an empty table returns, no type of the table that
-- it leaves equals a later one, by the equality that the printer uses, and each is a tuple, union
-- or enum.
pub fmt_functions-IsUnique :
    (host : Host) (prog : Program) (text : String) (found : List Ty)
    → fmt_functions host prog [] ≡ some (text, found)
    → IsUnique host found × All IsComposite found
fmt_functions-IsUnique host prog text found e =
    let g = subst (Good host []) e (fmt_functions-Keeps host prog []) in
    (Grown-IsUnique host g tt, Grown-All host g tt)

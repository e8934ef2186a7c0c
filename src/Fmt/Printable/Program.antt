-- ===== src/Fmt/Printable/Program.antt =====
-- Printing the statements, terminators and functions of a printable program.
use minirust_contrib_fork.Prelude.{
  ℕ, Option, none, some, List, [], ◌∷◌, ◌≡◌, refl, arith, All, ltb, Bool-cases, inl, inr,
}
use minirust_contrib_fork.Lang.Types.{Ty}
use minirust_contrib_fork.Lang.Syntax.{
  ArgumentExpr, Statement, Terminator, BasicBlock, BbName, Function, FnName, Program,
  CallingConvention, PlaceExpr,
}
use minirust_contrib_fork.Fmt.Comptypes.{Host, Fmt}
use minirust_contrib_fork.Fmt.Ty.{fmt_type}
use minirust_contrib_fork.Fmt.Expr.{fmt_value_expr, fmt_place_expr}
use minirust_contrib_fork.Fmt.Function.{
  insert_by_key, sort_onto, sort_by_key, fmt_each, fmt_list, fmt_statement, fmt_argument, fmt_value,
  fmt_call, fmt_terminator, fmt_line, fmt_bb, fmt_local, fmt_block, fmt_function, fmt_named,
  fmt_functions,
}
use minirust_contrib_fork.Fmt.Program.{fmt_program, fmt_comptypes, fmt_globals}
use minirust_contrib_fork.Fmt.Table.Program.{fmt_functions-IsUnique}
use minirust_contrib_fork.Fmt.Table.Total.{fmt_comptypes_total}
use minirust_contrib_fork.Fmt.Printable.{
  IsPrintable, IsPrintablePlace, IsPrintableStatement, IsPrintableArgument, IsPrintableTerminator,
  IsPrintableBlock, IsPrintableFunction, Result, Returns, Returns->>=, Returns-map, Returns-map₂,
  fmt_type-Returns, fmt_place_expr-Returns, fmt_value_expr-Returns,
}
use Prim.Native.String.{String}
use Prim.Native.String as Text

module _ {ℓ κ} {A : Type ℓ} (P : ℕ × A → Type κ) where
  insert_by_key-All : (e : ℕ × A) (l : List (ℕ × A)) → P e → All P l → All P (insert_by_key e l)
  unfolding insert_by_key
  insert_by_key-All e [] p h = (p, tt)
  insert_by_key-All e (x ∷ l) p h = elim (Bool-cases (ltb e.0 x.0)) [
    | inl before ↦ rw before (p, h)
    | inr after ↦ rw after (h.0, insert_by_key-All e l p h.1)
  ]

  sort_onto-All : (sorted l : List (ℕ × A)) → All P sorted → All P l → All P (sort_onto sorted l)
  unfolding sort_onto
  sort_onto-All sorted [] h k = h
  sort_onto-All sorted (e ∷ l) h k =
      sort_onto-All (insert_by_key e sorted) l (insert_by_key-All e sorted k.0 h) k.1

  sort_by_key-All : (l : List (ℕ × A)) → All P l → All P (sort_by_key l)
  unfolding sort_by_key
  sort_by_key-All l h = sort_onto-All [] l tt h

module _ {ℓ κ} {A : Type ℓ} (P : A → Type κ) (fmt : A → Fmt String)
    (returns : (a : A) → P a → Returns (fmt a)) where
  fmt_each-Returns : (l : List A) → All P l → Returns (fmt_each fmt l)
  unfolding fmt_each
  fmt_each-Returns [] h = λ l. tt
  fmt_each-Returns (a ∷ l) h =
      Returns-map₂ (fmt a) (fmt_each fmt l) _ (returns a h.0) (fmt_each-Returns l h.1)

  fmt_list-Returns : (l : List A) → All P l → Returns (fmt_list fmt l)
  unfolding fmt_list
  fmt_list-Returns [] h = λ l. tt
  fmt_list-Returns (a ∷ l) h =
      Returns-map₂ (fmt a) (fmt_list fmt l) _ (returns a h.0) (fmt_list-Returns l h.1)

All-unit {ℓ} : {A : Type ℓ} (l : List A) → All (λ a. Unit {0}) l
All-unit [] = tt
All-unit (a ∷ l) = (tt, All-unit l)

module _ (host : Host) where
  fmt_statement-Returns :
      (st : Statement) → IsPrintableStatement st → Returns (fmt_statement host st)
  unfolding fmt_statement
  fmt_statement-Returns (Statement.assign destination source) h =
      Returns-map₂ (fmt_place_expr host destination) (fmt_value_expr host source) _
        (fmt_place_expr-Returns host destination h.0) (fmt_value_expr-Returns host source h.1)
  fmt_statement-Returns (Statement.place_mention place) h =
      Returns-map (fmt_place_expr host place) _ (fmt_place_expr-Returns host place h)
  fmt_statement-Returns (Statement.set_discriminant destination value) h =
      Returns-map (fmt_place_expr host destination) _ (fmt_place_expr-Returns host destination h)
  fmt_statement-Returns (Statement.validate place fn_entry) h =
      Returns-map (fmt_place_expr host place) _ (fmt_place_expr-Returns host place h)
  fmt_statement-Returns (Statement.deinit place) h =
      Returns-map (fmt_place_expr host place) _ (fmt_place_expr-Returns host place h)
  fmt_statement-Returns (Statement.storage_live l) h = λ l. tt
  fmt_statement-Returns (Statement.storage_dead l) h = λ l. tt

  fmt_argument-Returns :
      (arg : ArgumentExpr) → IsPrintableArgument arg → Returns (fmt_argument host arg)
  unfolding fmt_argument
  fmt_argument-Returns (ArgumentExpr.by_value value) h =
      Returns-map (fmt_value_expr host value) _ (fmt_value_expr-Returns host value h)
  fmt_argument-Returns (ArgumentExpr.in_place place) h =
      Returns-map (fmt_place_expr host place) _ (fmt_place_expr-Returns host place h)

  fmt_call-Returns :
      (callee : String) (conv : CallingConvention) (args : String) (ret : PlaceExpr)
      (next : Option BbName)
      → IsPrintablePlace ret
      → Returns (fmt_call host callee conv args ret next)
  unfolding fmt_call
  fmt_call-Returns callee conv args ret next h =
      Returns-map (fmt_place_expr host ret) _ (fmt_place_expr-Returns host ret h)

  fmt_terminator-Returns :
      (t : Terminator) → IsPrintableTerminator t → Returns (fmt_terminator host t)
  unfolding fmt_terminator
  fmt_terminator-Returns (Terminator.goto bb) h = λ l. tt
  fmt_terminator-Returns (Terminator.switch value cases fallback) h =
      Returns-map (fmt_value_expr host value) _ (fmt_value_expr-Returns host value h)
  fmt_terminator-Returns Terminator.unreachable h = λ l. tt
  fmt_terminator-Returns (Terminator.call callee conv arguments ret next) h =
      Returns->>= (fmt_value_expr host callee) _ (fmt_value_expr-Returns host callee h.0) λ c.
        Returns->>= (fmt_list (fmt_argument host) arguments) _
          (fmt_list-Returns IsPrintableArgument (fmt_argument host) fmt_argument-Returns arguments
            h.1)
          λ args. fmt_call-Returns _ conv _ ret next h.2
  fmt_terminator-Returns Terminator.return h = λ l. tt
  fmt_terminator-Returns (Terminator.intrinsic intrinsic arguments ret next) h =
      Returns->>= (fmt_list (fmt_value host) arguments) _
        (fmt_list-Returns IsPrintable (fmt_value host)
          (λ v k. Returns-map (fmt_value_expr host v) _ (fmt_value_expr-Returns host v k)) arguments
          h.0)
        λ args. fmt_call-Returns _ CallingConvention.rust _ ret next h.1

  fmt_block-Returns :
      (start : BbName) (e : BbName × BasicBlock)
      → IsPrintableBlock e
      → Returns (fmt_block host start e)
  unfolding fmt_bb
  fmt_block-Returns start (name, bb) h =
      Returns-map₂ (fmt_each (fmt_line host) bb.statements) (fmt_terminator host bb.terminator) _
        (fmt_each-Returns IsPrintableStatement (fmt_line host)
          (λ st k. Returns-map (fmt_statement host st) _ (fmt_statement-Returns st k)) bb.statements
          h.0)
        (fmt_terminator-Returns bb.terminator h.1)

  fmt_named-Returns :
      (start : FnName) (e : FnName × Function)
      → IsPrintableFunction e
      → Returns (fmt_named host start e)
  unfolding fmt_function
  fmt_named-Returns start (name, f) h =
      Returns-map₂ (fmt_each (fmt_local host) (sort_by_key f.locals))
        (fmt_each (fmt_block host f.start) (sort_by_key f.blocks)) _
        (fmt_each-Returns (λ e. Unit {0}) (fmt_local host)
          (λ e k. Returns-map (fmt_type host e.1) _ (fmt_type-Returns host e.1))
          (sort_by_key f.locals) (All-unit (sort_by_key f.locals)))
        (fmt_each-Returns IsPrintableBlock (fmt_block host f.start) (fmt_block-Returns f.start)
          (sort_by_key f.blocks) (sort_by_key-All IsPrintableBlock f.blocks h))

  fmt_functions-Returns :
      (prog : Program) → All IsPrintableFunction prog.functions → Returns (fmt_functions host prog)
  unfolding fmt_functions
  fmt_functions-Returns prog h =
      fmt_each-Returns IsPrintableFunction (fmt_named host prog.start)
        (fmt_named-Returns prog.start) (sort_by_key prog.functions)
        (sort_by_key-All IsPrintableFunction prog.functions h)

fmt_program-eq :
    (host : Host) (prog : Program) (s t : String) (found : List Ty)
    → fmt_functions host prog [] ≡ some (s, found)
    → fmt_comptypes host found ≡ some t
    → (text : String) × (fmt_program host prog ≡ some text)
unfolding fmt_program
fmt_program-eq host prog s t found e c =
    (Text.◌++◌ t (Text.◌++◌ s (fmt_globals host prog.globals)), ground arith)

-- A program whose functions have tuple expressions only at tuple and array types and take
-- addresses only as raw pointers and references is printed: `fmt_program` returns a text.
pub fmt_program_total :
    (host : Host) (prog : Program)
    → All IsPrintableFunction prog.functions
    → (text : String) × (fmt_program host prog ≡ some text)
fmt_program_total host prog h =
    go (fmt_functions host prog []) refl (fmt_functions-Returns host prog h [])
  where
    go :
        (o : Option (String × List Ty))
        → fmt_functions host prog [] ≡ o
        → Result o
        → (text : String) × (fmt_program host prog ≡ some text)
    go none e r = absurd r
    go (some (s, found)) e r =
        let printed =
          fmt_comptypes_total host found (fmt_functions-IsUnique host prog s found e).1 in
        fmt_program-eq host prog s printed.0 found e printed.1

-- ===== src/Fmt/Printable.antt =====
-- Which expressions and programs the printer has a text for (tooling/miniutil/src/fmt).
pub mod Program
use minirust_contrib_fork.Prelude.{
  ℕ, Bool, true, false, Option, none, some, List, [], ◌∷◌, ◌≡◌, refl, arith, All, ltb,
  if◌then◌else◌, Bool-cases, inl, inr,
}
use minirust_contrib_fork.Lang.Types.{Ty, PtrType, Mutability}
use minirust_contrib_fork.Lang.Syntax.{
  ArgumentExpr, Statement, Terminator, BasicBlock, BbName, Function, FnName, CallingConvention,
  PlaceExpr, ValueExpr, ValueExprs, UnOp, CastOp, IntUnOp,
}
use minirust_contrib_fork.Fmt.Comptypes.{Host, Fmt, ◌>>=◌, pure, position, get_comptype_index}
use minirust_contrib_fork.Fmt.Ty.{fmt_type, FmtExpr}
use minirust_contrib_fork.Fmt.Expr.{
  fmt_value_expr, fmt_place_expr, fmt_value_exprs, fmt_un_op, parens, parenthesised, signed_place,
  addr_of_sign,
}
use minirust_contrib_fork.Fmt.Function.{
  insert_by_key, sort_onto, sort_by_key, fmt_each, fmt_list, fmt_statement, fmt_argument, fmt_value,
  fmt_call, fmt_terminator, fmt_line, fmt_bb, fmt_local, fmt_block, fmt_function, fmt_named,
  fmt_functions,
}
use minirust_contrib_fork.Fmt.Program.{fmt_program, fmt_comptypes}
use minirust_contrib_fork.Fmt.Table.Program.{fmt_functions-IsUnique}
use minirust_contrib_fork.Fmt.Table.Total.{fmt_comptypes_total}
use Prim.Native.String.{String}
use Prim.Native.String as Text

-- The expressions that the printer has a text for: tuples of tuple and array types, addresses as raw pointers and
-- references.
abbrev IsSequence : Ty → Type 0
IsSequence (Ty.tuple fields n align) = Unit
IsSequence (Ty.array elem count) = Unit
IsSequence _ = ⊥

abbrev IsAddress : PtrType → Type 0
IsAddress (PtrType.raw kind) = Unit
IsAddress (PtrType.ref mutbl pointee) = Unit
IsAddress _ = ⊥

abbrev mutual
  pub IsPrintable : ValueExpr → Type 0
  IsPrintable (ValueExpr.constant c ty) = Unit
  IsPrintable (ValueExpr.tuple l t) = IsSequence t × ArePrintable l
  IsPrintable (ValueExpr.union field expr union_ty) = IsPrintable expr
  IsPrintable (ValueExpr.variant discriminant expr enum_ty) = IsPrintable expr
  IsPrintable (ValueExpr.get_discriminant place) = IsPrintablePlace place
  IsPrintable (ValueExpr.load source) = IsPrintablePlace source
  IsPrintable (ValueExpr.addr_of target ptr_ty) = IsAddress ptr_ty × IsPrintablePlace target
  IsPrintable (ValueExpr.un_op operator operand) = IsPrintable operand
  IsPrintable (ValueExpr.bin_op operator left right) = IsPrintable left × IsPrintable right

  pub ArePrintable : ValueExprs → Type 0
  ArePrintable ValueExprs.nil = Unit
  ArePrintable (ValueExprs.cons e l) = IsPrintable e × ArePrintable l

  pub IsPrintablePlace : PlaceExpr → Type 0
  IsPrintablePlace (PlaceExpr.local l) = Unit
  IsPrintablePlace (PlaceExpr.deref operand ty) = IsPrintable operand
  IsPrintablePlace (PlaceExpr.field root field) = IsPrintablePlace root
  IsPrintablePlace (PlaceExpr.index root index) = IsPrintablePlace root × IsPrintable index
  IsPrintablePlace (PlaceExpr.downcast root discriminant) = IsPrintablePlace root

abbrev pub IsPrintableStatement : Statement → Type 0
IsPrintableStatement (Statement.assign destination source) =
    IsPrintablePlace destination × IsPrintable source
IsPrintableStatement (Statement.place_mention place) = IsPrintablePlace place
IsPrintableStatement (Statement.set_discriminant destination value) = IsPrintablePlace destination
IsPrintableStatement (Statement.validate place fn_entry) = IsPrintablePlace place
IsPrintableStatement (Statement.deinit place) = IsPrintablePlace place
IsPrintableStatement _ = Unit

abbrev pub IsPrintableArgument : ArgumentExpr → Type 0
IsPrintableArgument (ArgumentExpr.by_value value) = IsPrintable value
IsPrintableArgument (ArgumentExpr.in_place place) = IsPrintablePlace place

abbrev pub IsPrintableTerminator : Terminator → Type 0
IsPrintableTerminator (Terminator.switch value cases fallback) = IsPrintable value
IsPrintableTerminator (Terminator.call callee conv arguments ret next) =
    IsPrintable callee × All IsPrintableArgument arguments × IsPrintablePlace ret
IsPrintableTerminator (Terminator.intrinsic intrinsic arguments ret next) =
    All IsPrintable arguments × IsPrintablePlace ret
IsPrintableTerminator _ = Unit

abbrev pub IsPrintableBlock : BbName × BasicBlock → Type 0
IsPrintableBlock (name, bb) =
    All IsPrintableStatement bb.statements × IsPrintableTerminator bb.terminator

abbrev pub IsPrintableFunction : FnName × Function → Type 0
IsPrintableFunction (name, f) = All IsPrintableBlock f.blocks

-- An action that does not panic.
abbrev pub Result {ℓ} : {A : Type ℓ} → Option (A × List Ty) → Type 0
Result none = ⊥
Result (some r) = Unit

abbrev pub Returns {ℓ} : {A : Type ℓ} → Fmt A → Type 0
Returns m = (l : List Ty) → Result (m l)

pub Returns->>= {ℓ κ} :
    {A : Type ℓ} {B : Type κ} (m : Fmt A) (f : A → Fmt B)
    → Returns m
    → ((a : A) → Returns (f a))
    → Returns (m >>= f)
Returns->>= {A} {B} m f hm hf l = go (m l) (hm l)
  where
    go :
        (o : Option (A × List Ty))
        → Result o
        → Result (elim o [ none ↦ none | some (a, k) ↦ f a k ])
    go none h = h
    go (some (a, k)) h = hf a k

pub Returns-map {ℓ κ} :
    {A : Type ℓ} {B : Type κ} (m : Fmt A) (f : A → B) → Returns m → Returns (m >>= λ a. pure (f a))
Returns-map m f h = Returns->>= m (λ a. pure (f a)) h (λ a l. tt)

pub Returns-map₂ {ℓ κ μ} :
    {A : Type ℓ} {B : Type κ} {C : Type μ} (m : Fmt A) (n : Fmt B) (f : A → B → C)
    → Returns m
    → Returns n
    → Returns (m >>= λ a. (n >>= λ b. pure (f a b)))
Returns-map₂ m n f hm hn =
    Returns->>= m (λ a. n >>= λ b. pure (f a b)) hm (λ a. Returns-map n (f a) hn)

get_comptype_index-Returns : (host : Host) (ty : Ty) → Returns (get_comptype_index host ty)
unfolding get_comptype_index
get_comptype_index-Returns host ty l = ground arith

pub fmt_type-Returns : (host : Host) (t : Ty) → Returns (fmt_type host t)
unfolding fmt_type
fmt_type-Returns host (Ty.tuple fields n align) =
    Returns-map _ _ (get_comptype_index-Returns host (Ty.tuple fields n align))
fmt_type-Returns host (Ty.union fields chunks n align) =
    Returns-map _ _ (get_comptype_index-Returns host (Ty.union fields chunks n align))
fmt_type-Returns host (Ty.enum variants t discriminator n align) =
    Returns-map _ _ (get_comptype_index-Returns host (Ty.enum variants t discriminator n align))
fmt_type-Returns host (Ty.array elem count) =
    Returns-map (fmt_type host elem) _ (fmt_type-Returns host elem)
fmt_type-Returns host (Ty.slice elem) =
    Returns-map (fmt_type host elem) _ (fmt_type-Returns host elem)
fmt_type-Returns host (Ty.int t) = λ l. tt
fmt_type-Returns host (Ty.ptr t) = λ l. tt
fmt_type-Returns host Ty.bool = λ l. tt

fmt_un_op-Returns :
    (host : Host) (op : UnOp) (operand : String) → Returns (fmt_un_op host op operand)
unfolding fmt_un_op
fmt_un_op-Returns host (UnOp.cast (CastOp.transmute t)) operand =
    Returns-map (fmt_type host t) _ (fmt_type-Returns host t)
fmt_un_op-Returns host (UnOp.cast (CastOp.int_to_int t)) operand = λ l. tt
fmt_un_op-Returns host (UnOp.int IntUnOp.neg) operand = λ l. tt
fmt_un_op-Returns host (UnOp.int IntUnOp.bit_not) operand = λ l. tt
fmt_un_op-Returns host UnOp.get_metadata operand = λ l. tt

parenthesised-Returns :
    (t : Ty) (m : Fmt String) → IsSequence t → Returns m → Returns (parenthesised (parens t) m)
parenthesised-Returns (Ty.tuple fields n align) m s h = Returns-map m _ h
parenthesised-Returns (Ty.array elem count) m s h = Returns-map m _ h
parenthesised-Returns _ m s h = absurd s

signed_place-Returns :
    (p : PtrType) (m : Fmt FmtExpr)
    → IsAddress p
    → Returns m
    → Returns (signed_place (addr_of_sign p) m)
unfolding addr_of_sign
signed_place-Returns (PtrType.raw kind) m s h = Returns-map m _ h
signed_place-Returns (PtrType.ref Mutability.mutable pointee) m s h = Returns-map m _ h
signed_place-Returns (PtrType.ref Mutability.immutable pointee) m s h = Returns-map m _ h
signed_place-Returns _ m s h = absurd s

mutual
  unfolding fmt_value_expr fmt_place_expr fmt_value_exprs

  pub fmt_place_expr-Returns :
      (host : Host) (p : PlaceExpr) → IsPrintablePlace p → Returns (fmt_place_expr host p)
  fmt_place_expr-Returns host (PlaceExpr.local l) h = λ l. tt
  fmt_place_expr-Returns host (PlaceExpr.deref operand ty) h =
      Returns-map₂ (fmt_type host ty) (fmt_value_expr host operand) _ (fmt_type-Returns host ty)
        (fmt_value_expr-Returns host operand h)
  fmt_place_expr-Returns host (PlaceExpr.field root field) h =
      Returns-map (fmt_place_expr host root) _ (fmt_place_expr-Returns host root h)
  fmt_place_expr-Returns host (PlaceExpr.index root index) h =
      Returns-map₂ (fmt_place_expr host root) (fmt_value_expr host index) _
        (fmt_place_expr-Returns host root h.0) (fmt_value_expr-Returns host index h.1)
  fmt_place_expr-Returns host (PlaceExpr.downcast root discriminant) h =
      Returns-map (fmt_place_expr host root) _ (fmt_place_expr-Returns host root h)

  pub fmt_value_expr-Returns :
      (host : Host) (v : ValueExpr) → IsPrintable v → Returns (fmt_value_expr host v)
  fmt_value_expr-Returns host (ValueExpr.constant c ty) h = λ l. tt
  fmt_value_expr-Returns host (ValueExpr.tuple l t) h =
      parenthesised-Returns t (fmt_value_exprs host l) h.0 (fmt_value_exprs-Returns host l h.1)
  fmt_value_expr-Returns host (ValueExpr.union field expr union_ty) h =
      Returns-map₂ (fmt_type host union_ty) (fmt_value_expr host expr) _
        (fmt_type-Returns host union_ty) (fmt_value_expr-Returns host expr h)
  fmt_value_expr-Returns host (ValueExpr.variant discriminant expr enum_ty) h =
      Returns-map₂ (fmt_type host enum_ty) (fmt_value_expr host expr) _
        (fmt_type-Returns host enum_ty) (fmt_value_expr-Returns host expr h)
  fmt_value_expr-Returns host (ValueExpr.get_discriminant place) h =
      Returns-map (fmt_place_expr host place) _ (fmt_place_expr-Returns host place h)
  fmt_value_expr-Returns host (ValueExpr.load source) h =
      Returns-map (fmt_place_expr host source) _ (fmt_place_expr-Returns host source h)
  fmt_value_expr-Returns host (ValueExpr.addr_of target ptr_ty) h =
      signed_place-Returns ptr_ty (fmt_place_expr host target) h.0
        (fmt_place_expr-Returns host target h.1)
  fmt_value_expr-Returns host (ValueExpr.un_op operator operand) h =
      Returns->>= (fmt_value_expr host operand) _ (fmt_value_expr-Returns host operand h)
        (λ e. fmt_un_op-Returns host operator _)
  fmt_value_expr-Returns host (ValueExpr.bin_op operator left right) h =
      Returns-map₂ (fmt_value_expr host left) (fmt_value_expr host right) _
        (fmt_value_expr-Returns host left h.0) (fmt_value_expr-Returns host right h.1)

  fmt_value_exprs-Returns :
      (host : Host) (l : ValueExprs) → ArePrintable l → Returns (fmt_value_exprs host l)
  fmt_value_exprs-Returns host ValueExprs.nil h = λ l. tt
  fmt_value_exprs-Returns host (ValueExprs.cons e l) h =
      Returns-map₂ (fmt_value_expr host e) (fmt_value_exprs host l) _
        (fmt_value_expr-Returns host e h.0) (fmt_value_exprs-Returns host l h.1)

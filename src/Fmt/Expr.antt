-- ===== src/Fmt/Expr.antt =====
-- tooling/miniutil/src/fmt/expr.rs and `fmt_relocation` of fmt/global.rs: the text of expressions.
use minirust_contrib_fork.Prelude.{Bool, true, false, Option, none, some, if◌then◌else◌, ◌==◌}
use minirust_contrib_fork.Prelude.Int.{pos, ◌==ℤ◌}
use minirust_contrib_fork.Lang.Types.{Ty, PtrType, Mutability}
use minirust_contrib_fork.Lang.Syntax.{
  LocalName, GlobalName, FnName, Relocation, Constant, IntUnOp, CastOp, UnOp, IntBinOp,
  IntBinOpWithOverflow, RelOp, BinOp, ValueExpr, ValueExprs, PlaceExpr,
}
use minirust_contrib_fork.Fmt.Comptypes.{Host, Fmt, ◌>>=◌, pure, panic}
use minirust_contrib_fork.Fmt.Ty.{
  FmtExpr, non_atomic, atomic, to_string, to_atomic_string, show_ℕ, fmt_int_type, fmt_type,
}
use Prim.Native.String.{String, ◌++◌}

unfoldable pub fmt_local_name : Host → LocalName → String
fmt_local_name host l = "_" ++ show_ℕ host l

unfoldable pub fmt_global_name : Host → GlobalName → String
fmt_global_name host g = "global(" ++ show_ℕ host g ++ ")"

unfoldable pub fmt_fn_name : Host → FnName → String
fmt_fn_name host fn_name = "f" ++ show_ℕ host fn_name

unfoldable pub fmt_relocation : Host → Relocation → FmtExpr
fmt_relocation host relocation =
    if relocation.offset == 0
    then atomic (fmt_global_name host relocation.name)
    else non_atomic (fmt_global_name host relocation.name ++ " + " ++ show_ℕ host relocation.offset)

abbrev pub show_bool : Bool → String
show_bool true = "true"
show_bool false = "false"

unfoldable pub fmt_constant : Host → Constant → FmtExpr
fmt_constant host (Constant.int int) = atomic (host.show int)
fmt_constant host (Constant.bool b) = atomic (show_bool b)
fmt_constant host (Constant.global_pointer relocation) = fmt_relocation host relocation
fmt_constant host (Constant.fn_pointer fn_name) = atomic (fmt_fn_name host fn_name)
fmt_constant host (Constant.pointer_without_provenance addr) =
    if addr ==ℤ pos 0 then atomic "nullptr" else atomic ("invalid_ptr(" ++ host.show addr ++ ")")

-- The text around the elements of a tuple or an array.
abbrev pub parens : Ty → Option (String × String)
parens (Ty.array elem count) = some ("[", "]")
parens (Ty.tuple fields n align) = some ("(", ")")
parens t = none

abbrev pub parenthesised : Option (String × String) → Fmt String → Fmt FmtExpr
parenthesised none m = panic
parenthesised (some (lparen, rparen)) m = do l ← m; pure (atomic (lparen ++ l ++ rparen))

abbrev pub call_of : String → String → String → FmtExpr
call_of name l r = atomic (name ++ "(" ++ l ++ ", " ++ r ++ ")")

abbrev pub infix_of : String → String → String → FmtExpr
infix_of op l r = non_atomic (l ++ " " ++ op ++ " " ++ r)

unfoldable pub fmt_int_op : IntBinOp → String → String → FmtExpr
fmt_int_op IntBinOp.add l r = infix_of "+" l r
fmt_int_op IntBinOp.sub l r = infix_of "-" l r
fmt_int_op IntBinOp.mul l r = infix_of "*" l r
fmt_int_op IntBinOp.div l r = infix_of "/" l r
fmt_int_op IntBinOp.rem l r = infix_of "%" l r
fmt_int_op IntBinOp.shl l r = infix_of "<<" l r
fmt_int_op IntBinOp.shr l r = infix_of ">>" l r
fmt_int_op IntBinOp.bit_and l r = infix_of "&" l r
fmt_int_op IntBinOp.bit_or l r = infix_of "|" l r
fmt_int_op IntBinOp.bit_xor l r = infix_of "^" l r
fmt_int_op IntBinOp.add_unchecked l r = call_of "AddUnchecked" l r
fmt_int_op IntBinOp.sub_unchecked l r = call_of "SubUnchecked" l r
fmt_int_op IntBinOp.mul_unchecked l r = call_of "MulUnchecked" l r
fmt_int_op IntBinOp.div_exact l r = call_of "DivExact" l r
fmt_int_op IntBinOp.shl_unchecked l r = call_of "ShlUnchecked" l r
fmt_int_op IntBinOp.shr_unchecked l r = call_of "ShrUnchecked" l r

unfoldable pub fmt_overflow_op : IntBinOpWithOverflow → String
fmt_overflow_op IntBinOpWithOverflow.add = "Add"
fmt_overflow_op IntBinOpWithOverflow.sub = "Sub"
fmt_overflow_op IntBinOpWithOverflow.mul = "Mul"

unfoldable pub fmt_rel_op : RelOp → String
fmt_rel_op RelOp.lt = "<"
fmt_rel_op RelOp.le = "<="
fmt_rel_op RelOp.gt = ">"
fmt_rel_op RelOp.ge = ">="
fmt_rel_op RelOp.eq = "=="
fmt_rel_op RelOp.ne = "!="
fmt_rel_op RelOp.cmp = "<=>"

unfoldable pub offset_name : Bool → String
offset_name true = "offset_inbounds"
offset_name false = "offset_wrapping"

unfoldable pub offset_from_name : Bool → Bool → String
offset_from_name inbounds nonneg =
    "offset_from_"
    ++ (if inbounds then "inbounds" else "wrapping")
    ++ (if nonneg then "_nonneg" else "")

-- Whether the operands of an operator stand alone, between commas, and what the operator makes of them.
unfoldable pub operand_text : BinOp → FmtExpr → String
operand_text (BinOp.int op) e = to_atomic_string e
operand_text (BinOp.int_with_overflow op) e = to_atomic_string e
operand_text (BinOp.rel op) e = to_atomic_string e
operand_text (BinOp.ptr_offset inbounds) e = to_string e
operand_text (BinOp.ptr_offset_from inbounds nonneg) e = to_string e

unfoldable pub fmt_bin_op : BinOp → String → String → FmtExpr
fmt_bin_op (BinOp.int op) l r = fmt_int_op op l r
fmt_bin_op (BinOp.int_with_overflow op) l r = call_of (fmt_overflow_op op ++ "WithOverflow") l r
fmt_bin_op (BinOp.rel op) l r = infix_of (fmt_rel_op op) l r
fmt_bin_op (BinOp.ptr_offset inbounds) l r = call_of (offset_name inbounds) l r
fmt_bin_op (BinOp.ptr_offset_from inbounds nonneg) l r =
    call_of (offset_from_name inbounds nonneg) l r

unfoldable pub fmt_un_op : Host → UnOp → String → Fmt FmtExpr
fmt_un_op host (UnOp.int IntUnOp.neg) operand = pure (non_atomic ("-(" ++ operand ++ ")"))
fmt_un_op host (UnOp.int IntUnOp.bit_not) operand = pure (non_atomic ("!(" ++ operand))
fmt_un_op host (UnOp.cast (CastOp.int_to_int int_ty)) operand =
    pure (atomic ("int2int<" ++ fmt_int_type host int_ty ++ ">(" ++ operand ++ ")"))
fmt_un_op host (UnOp.cast (CastOp.transmute new_ty)) operand = do
  ty ← fmt_type host new_ty
  pure (atomic ("transmute<" ++ to_string ty ++ ">(" ++ operand ++ ")"))
fmt_un_op host UnOp.get_metadata operand = pure (atomic ("get_metadata(" ++ operand ++ ")"))

-- The sign before the place that a pointer points to; there is none for the other kinds.
unfoldable pub addr_of_sign : PtrType → Option String
addr_of_sign (PtrType.raw kind) = some "&raw "
addr_of_sign (PtrType.ref Mutability.mutable pointee) = some "&mut "
addr_of_sign (PtrType.ref Mutability.immutable pointee) = some "&"
addr_of_sign (PtrType.box pointee) = none
addr_of_sign PtrType.fn_ptr = none

abbrev pub signed_place : Option String → Fmt FmtExpr → Fmt FmtExpr
signed_place none m = panic
signed_place (some sign) m = do target ← m; pure (non_atomic (sign ++ to_atomic_string target))

-- The separator before the other elements of a list.
abbrev pub separated : ValueExprs → String → String
separated ValueExprs.nil s = s
separated (ValueExprs.cons e l) s = ", " ++ s

unfoldable mutual
  pub fmt_place_expr : Host → PlaceExpr → Fmt FmtExpr
  fmt_place_expr host (PlaceExpr.local l) = pure (atomic (fmt_local_name host l))
  fmt_place_expr host (PlaceExpr.deref operand ty) = do
    ptype ← fmt_type host ty
    expr ← fmt_value_expr host operand
    pure (atomic ("deref<" ++ to_string ptype ++ ">(" ++ to_string expr ++ ")"))
  fmt_place_expr host (PlaceExpr.field root field) = do
    r ← fmt_place_expr host root
    pure (atomic (to_atomic_string r ++ "." ++ host.show field))
  fmt_place_expr host (PlaceExpr.index root index) = do
    r ← fmt_place_expr host root
    i ← fmt_value_expr host index
    pure (atomic (to_atomic_string r ++ "[" ++ to_string i ++ "]"))
  fmt_place_expr host (PlaceExpr.downcast root discriminant) = do
    r ← fmt_place_expr host root
    pure (non_atomic (to_atomic_string r ++ " as variant " ++ host.show discriminant))

  pub fmt_value_expr : Host → ValueExpr → Fmt FmtExpr
  fmt_value_expr host (ValueExpr.constant c ty) = pure (fmt_constant host c)
  fmt_value_expr host (ValueExpr.tuple l t) = parenthesised (parens t) (fmt_value_exprs host l)
  fmt_value_expr host (ValueExpr.union field expr union_ty) = do
    ty ← fmt_type host union_ty
    e ← fmt_value_expr host expr
    pure (non_atomic (to_string ty ++ " { field" ++ host.show field ++ ": " ++ to_string e ++ " }"))
  fmt_value_expr host (ValueExpr.variant discriminant data_expr enum_ty) = do
    ty ← fmt_type host enum_ty
    e ← fmt_value_expr host data_expr
    pure
        (non_atomic (to_string ty ++ "(variant " ++ host.show discriminant ++ "): " ++ to_string e))
  fmt_value_expr host (ValueExpr.get_discriminant place) = do
    p ← fmt_place_expr host place
    pure (atomic ("discriminant(" ++ to_string p ++ ")"))
  fmt_value_expr host (ValueExpr.load source) = do
    p ← fmt_place_expr host source
    pure (atomic ("load(" ++ to_string p ++ ")"))
  fmt_value_expr host (ValueExpr.addr_of target ptr_ty) =
      signed_place (addr_of_sign ptr_ty) (fmt_place_expr host target)
  fmt_value_expr host (ValueExpr.un_op operator operand) = do
    e ← fmt_value_expr host operand
    fmt_un_op host operator (to_string e)
  fmt_value_expr host (ValueExpr.bin_op operator left right) = do
    l ← fmt_value_expr host left
    r ← fmt_value_expr host right
    pure (fmt_bin_op operator (operand_text operator l) (operand_text operator r))

  -- The elements of a tuple, with commas between them.
  pub fmt_value_exprs : Host → ValueExprs → Fmt String
  fmt_value_exprs host ValueExprs.nil = pure ""
  fmt_value_exprs host (ValueExprs.cons e l) = do
    first ← fmt_value_expr host e
    rest ← fmt_value_exprs host l
    pure (to_string first ++ separated l rest)

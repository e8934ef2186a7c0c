-- ===== src/Fmt/Tests.antt =====
-- Texts of expressions, and instances of the theorem about the printer.
use minirust_contrib_fork.Prelude.{
  arith, Bool, true, false, some, none, All, [], ◌∷◌, ◌≡◌, refl, if◌then◌else◌, ◌==◌, ◌&&◌,
}
use minirust_contrib_fork.Prelude.Int.{ℤ, pos, negsuc}
use minirust_contrib_fork.Lang.Types.{Ty, Fields}
use minirust_contrib_fork.Lang.Syntax.{
  Constant, UnOp, CastOp, IntUnOp, IntBinOp, BinOp, ValueExpr, PlaceExpr,
}
use minirust_contrib_fork.Fmt.Comptypes.{Host, position, get_comptype_index}
use minirust_contrib_fork.Fmt.Ty.{
  non_atomic, to_string, to_atomic_string, fmt_comptype_index, fmt_type,
}
use minirust_contrib_fork.Fmt.Expr.{
  fmt_value_expr, fmt_value_exprs, fmt_place_expr, fmt_local_name, fmt_constant, fmt_un_op,
  fmt_bin_op, operand_text, fmt_int_op,
}
use minirust_contrib_fork.Fmt.Table.{IsUnique, Extends, fmt_value_expr-IsUnique}
use minirust_contrib_fork.Fmt.Expr.{fmt_fn_name, fmt_relocation, fmt_global_name}
use minirust_contrib_fork.Fmt.Ty.{fmt_comptype, fmt_comptype_fields}
use minirust_contrib_fork.Fmt.Function.{
  join, sort_by_key, sort_onto, insert_by_key, fmt_each, fmt_list, fmt_bb_name, fmt_statement,
  fmt_next, fmt_convention, fmt_call, fmt_intrinsic, fmt_terminator, fmt_bb, fmt_function,
  fmt_functions,
}
use minirust_contrib_fork.Fmt.Program.{
  fmt_byte, fmt_bytes, fmt_relocations, fmt_global, fmt_globals, comp_weight, fmt_comptypes_from,
  fmt_comptypes, fmt_program,
}
use minirust_contrib_fork.Fmt.Table.{IsComposite}
use minirust_contrib_fork.Fmt.Table.Program.{fmt_functions-IsUnique}
use minirust_contrib_fork.Fmt.Table.Total.{fmt_comptypes_total}
use minirust_contrib_fork.Fmt.Printable.Program.{fmt_program_total}
use minirust_contrib_fork.Lang.Syntax.{
  Statement, Terminator, IntrinsicOp, CallingConvention, Function, Program,
}
use Prim.Native.String.{String}

-- Enough of `Display` and of `==` for the runs below.
abbrev show_digit : ℤ → String
show_digit (pos n) = if n == 0 then "0" else (if n == 1 then "1" else "2")
show_digit (negsuc n) = "-1"

abbrev same_unit : Ty → Ty → Bool
same_unit (Ty.tuple Fields.no_field m align) (Ty.tuple Fields.no_field n align') =
    (m == n) && (align == align')
same_unit s t = false

abbrev host : Host
host = record { same = same_unit; show = show_digit }

abbrev unit_ty : Ty
unit_ty = Ty.tuple Fields.no_field 0 1

-- transmute<unit>(_1) as an operand of a product, then a second use of the same type
abbrev product : ValueExpr
product =
    ValueExpr.bin_op (BinOp.int IntBinOp.mul)
      (ValueExpr.un_op (UnOp.cast (CastOp.transmute unit_ty)) (ValueExpr.load (PlaceExpr.local 1)))
      (ValueExpr.bin_op (BinOp.int IntBinOp.add) (ValueExpr.constant (Constant.int (pos 2)) Ty.bool)
        (ValueExpr.load (PlaceExpr.deref (ValueExpr.load (PlaceExpr.local 0)) unit_ty)))

product_text :
    fmt_value_expr host product []
    ≡ some (non_atomic "transmute<T0>(load(_1)) * (2 + load(deref<T0>(load(_0))))", unit_ty ∷ [])
unfolding fmt_value_expr fmt_place_expr fmt_value_exprs fmt_local_name fmt_constant fmt_un_op
    fmt_bin_op operand_text fmt_int_op to_string to_atomic_string fmt_comptype_index fmt_type
    position get_comptype_index
product_text = refl

-- The text of a bitwise negation has no closing parenthesis.
bit_not_text :
    fmt_value_expr host
      (ValueExpr.un_op
        (UnOp.int IntUnOp.bit_not)
        (ValueExpr.constant (Constant.int (pos 2)) Ty.bool))
      []
    ≡ some (non_atomic "!(2", [])
unfolding fmt_value_expr fmt_place_expr fmt_value_exprs fmt_constant fmt_un_op to_string
bit_not_text = refl

fmt_value_expr-IsUnique_example : IsUnique host (unit_ty ∷ []) × Extends [] (unit_ty ∷ [])
fmt_value_expr-IsUnique_example =
    fmt_value_expr-IsUnique host product
      (non_atomic "transmute<T0>(load(_1)) * (2 + load(deref<T0>(load(_0))))") [] (unit_ty ∷ []) tt
      product_text

-- A tuple in a tuple, whose type the table meets only while it is printed.
abbrev nested_ty : Ty
nested_ty = Ty.tuple (Fields.field 0 (Ty.array unit_ty (pos 2)) Fields.no_field) 0 1

abbrev start_function : Function
start_function = record {
  locals = (1, Ty.bool) ∷ (0, nested_ty) ∷ [];
  args = [];
  ret = 0;
  calling_convention = CallingConvention.c;
  blocks =
      (
        0,
        record {
          statements =
              Statement.storage_live 1
              ∷ Statement.assign (PlaceExpr.local 1)
                  (ValueExpr.constant (Constant.bool true) Ty.bool)
              ∷ [];
          terminator =
              Terminator.intrinsic IntrinsicOp.print_stdout
                (ValueExpr.load (PlaceExpr.local 1) ∷ []) (PlaceExpr.local 0) (some 1);
        },
      )
      ∷ (1, record { statements = []; terminator = Terminator.return })
      ∷ [];
  start = 0;
}

abbrev one_function : Program
one_function = record {
  functions = (0, start_function) ∷ [];
  start = 0;
  globals =
      (
        1,
        record {
          bytes = some 161 ∷ none ∷ [];
          relocations = (0, record { name = 1; offset = 2 }) ∷ [];
          align = 1;
        },
      )
      ∷ [];
}

abbrev functions_text : String
functions_text =
    "start fn f0() -> _0 {\n  let _0: T0;\n  let _1: bool;\n  start bb0:\n    storage_live(_1);\n    _1 = true;\n    _0 = print(load(_1)) -> bb1;\n  bb1:\n    return;\n}\n\n"

-- The locals and blocks come in the order of their names.
one_function_text : fmt_functions host one_function [] ≡ some (functions_text, nested_ty ∷ [])
unfolding fmt_program fmt_functions fmt_comptypes fmt_comptypes_from fmt_function fmt_each fmt_list
    fmt_bb fmt_terminator fmt_statement fmt_call fmt_next fmt_convention fmt_intrinsic fmt_bb_name
    fmt_fn_name join sort_by_key sort_onto insert_by_key fmt_globals fmt_global fmt_relocations
    fmt_relocation fmt_global_name fmt_bytes fmt_byte fmt_comptype fmt_comptype_fields comp_weight
    fmt_value_expr fmt_place_expr fmt_value_exprs fmt_local_name fmt_constant to_string
    to_atomic_string fmt_comptype_index fmt_type position get_comptype_index
one_function_text = refl

-- The table of composite types comes first, and takes in the type of the elements while it is printed.
program_text :
    fmt_program host one_function
    ≡ some
        "tuple T0 (0 bytes, aligned 1 bytes) {\n  at byte 0: [T1; 2],\n}\n\ntuple T1 (0 bytes, aligned 1 bytes) {\n}\n\nstart fn f0() -> _0 {\n  let _0: T0;\n  let _1: bool;\n  start bb0:\n    storage_live(_1);\n    _1 = true;\n    _0 = print(load(_1)) -> bb1;\n  bb1:\n    return;\n}\n\nglobal(1) {\n  bytes = [a1 __],\n  align = 1 bytes,\n  at byte 0: global(1) + 2,\n}\n\n"
unfolding fmt_program fmt_functions fmt_comptypes fmt_comptypes_from fmt_function fmt_each fmt_list
    fmt_bb fmt_terminator fmt_statement fmt_call fmt_next fmt_convention fmt_intrinsic fmt_bb_name
    fmt_fn_name join sort_by_key sort_onto insert_by_key fmt_globals fmt_global fmt_relocations
    fmt_relocation fmt_global_name fmt_bytes fmt_byte fmt_comptype fmt_comptype_fields comp_weight
    fmt_value_expr fmt_place_expr fmt_value_exprs fmt_local_name fmt_constant to_string
    to_atomic_string fmt_comptype_index fmt_type position get_comptype_index
program_text = refl

fmt_functions-IsUnique_example : IsUnique host (nested_ty ∷ []) × All IsComposite (nested_ty ∷ [])
fmt_functions-IsUnique_example =
    fmt_functions-IsUnique host one_function functions_text (nested_ty ∷ []) one_function_text

fmt_comptypes_total_example : (out : String) × (fmt_comptypes host (nested_ty ∷ []) ≡ some out)
fmt_comptypes_total_example = fmt_comptypes_total host (nested_ty ∷ []) (tt, tt)

fmt_program_total_example : (out : String) × (fmt_program host one_function ≡ some out)
fmt_program_total_example = fmt_program_total host one_function (omega arith, tt)

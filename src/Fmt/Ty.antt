-- ===== src/Fmt/Ty.antt =====
-- tooling/miniutil/src/fmt/ty.rs: the text of a type, and `FmtExpr` of fmt/expr.rs.
use minirust_contrib_fork.Prelude.{ℕ, ◌*◌, Bool, true, false, List, [], ◌∷◌}
use minirust_contrib_fork.Prelude.Int.{pos}
use minirust_contrib_fork.Lang.Types.{
  Ty, IntType, Signedness, Mutability, PtrType, PointeeInfo, PointerMetaKind, SizeStrategy, Fields,
  Variants, meta_kind_of_size,
}
use minirust_contrib_fork.Fmt.Comptypes.{Host, Fmt, ◌>>=◌, pure, panic, get_comptype_index}
use Prim.Native.String.{String, ◌++◌}

pub data FmtExpr : Type 0 where
  non_atomic : String → FmtExpr
  atomic : String → FmtExpr

unfoldable pub to_string : FmtExpr → String
to_string (non_atomic s) = s
to_string (atomic s) = s

unfoldable pub to_atomic_string : FmtExpr → String
to_atomic_string (non_atomic s) = "(" ++ s ++ ")"
to_atomic_string (atomic s) = s

-- `Display` of a number that is no `Int`.
abbrev pub show_ℕ : Host → ℕ → String
show_ℕ host n = host.show (pos n)

unfoldable pub signed_str : Signedness → String
signed_str Signedness.signed = "i"
signed_str Signedness.unsigned = "u"

unfoldable pub fmt_int_type : Host → IntType → String
fmt_int_type host int_ty = signed_str int_ty.signed ++ show_ℕ host (int_ty.size * 8)

unfoldable pub fmt_meta_kind : PointerMetaKind → String
fmt_meta_kind PointerMetaKind.thin = "thin"
fmt_meta_kind PointerMetaKind.element_count = "meta=len"

unfoldable pub size_str : Host → SizeStrategy → String
size_str host (SizeStrategy.sized n) = show_ℕ host n
size_str host (SizeStrategy.slice_of n) = show_ℕ host n ++ "*len"

unfoldable pub uninhab_str : Bool → String
uninhab_str true = ""
uninhab_str false = ", uninhabited"

unfoldable pub freeze_str : Bool → String
freeze_str true = ", freeze"
freeze_str false = ""

unfoldable pub fmt_pointee_info : Host → PointeeInfo → String
fmt_pointee_info host pointee =
    "pointee_info("
    ++ fmt_meta_kind (meta_kind_of_size pointee.size)
    ++ ", size="
    ++ size_str host pointee.size
    ++ ", align="
    ++ show_ℕ host pointee.align
    ++ uninhab_str pointee.inhabited
    ++ freeze_str pointee.inhabited
    ++ ")"

unfoldable pub fmt_ptr_type : Host → PtrType → FmtExpr
fmt_ptr_type host (PtrType.ref Mutability.mutable pointee) =
    non_atomic ("&mut " ++ fmt_pointee_info host pointee)
fmt_ptr_type host (PtrType.ref Mutability.immutable pointee) =
    non_atomic ("&" ++ fmt_pointee_info host pointee)
fmt_ptr_type host (PtrType.box pointee) = atomic ("Box<" ++ fmt_pointee_info host pointee ++ ">")
fmt_ptr_type host (PtrType.raw kind) = non_atomic ("*raw(" ++ fmt_meta_kind kind ++ ")")
fmt_ptr_type host PtrType.fn_ptr = atomic "fn()"

unfoldable pub fmt_comptype_index : Host → ℕ → String
fmt_comptype_index host id = "T" ++ show_ℕ host id

abbrev pub fmt_comp : Host → Ty → Fmt FmtExpr
fmt_comp host t = do
  comptype_index ← get_comptype_index host t
  pure (atomic (fmt_comptype_index host comptype_index))

unfoldable pub fmt_type : Host → Ty → Fmt FmtExpr
fmt_type host (Ty.int int_ty) = pure (atomic (fmt_int_type host int_ty))
fmt_type host (Ty.ptr ptr_ty) = pure (fmt_ptr_type host ptr_ty)
fmt_type host Ty.bool = pure (atomic "bool")
fmt_type host (Ty.tuple fields n align) = fmt_comp host (Ty.tuple fields n align)
fmt_type host (Ty.union fields chunks n align) = fmt_comp host (Ty.union fields chunks n align)
fmt_type host (Ty.enum variants int_ty discriminator n align) =
    fmt_comp host (Ty.enum variants int_ty discriminator n align)
fmt_type host (Ty.array elem count) = do
  inner ← fmt_type host elem
  pure (atomic ("[" ++ to_string inner ++ "; " ++ host.show count ++ "]"))
fmt_type host (Ty.slice elem) = do
  inner ← fmt_type host elem
  pure (atomic ("[" ++ to_string inner ++ "]"))

unfoldable pub fmt_comptype_fields : Host → Fields → Fmt String
fmt_comptype_fields host Fields.no_field = pure ""
fmt_comptype_fields host (Fields.field offset f fields) = do
  ty ← fmt_type host f
  rest ← fmt_comptype_fields host fields
  pure ("  at byte " ++ show_ℕ host offset ++ ": " ++ to_string ty ++ ",\n" ++ rest)

unfoldable pub fmt_comptype_chunks : Host → List (ℕ × ℕ) → String
fmt_comptype_chunks host [] = ""
fmt_comptype_chunks host ((offset, n) ∷ chunks) =
    "  chunk(at="
    ++ show_ℕ host offset
    ++ ", size="
    ++ show_ℕ host n
    ++ "),\n"
    ++ fmt_comptype_chunks host chunks

unfoldable pub fmt_comptype_variants : Host → Variants → Fmt String
fmt_comptype_variants host Variants.no_variant = pure ""
fmt_comptype_variants host (Variants.variant discriminant ty tagger variants) = do
  typ ← fmt_type host ty
  rest ← fmt_comptype_variants host variants
  pure ("  Variant " ++ host.show discriminant ++ ": " ++ to_string typ ++ "\n" ++ rest)

-- The line above a composite type's parts.
abbrev pub comptype_header : Host → String → ℕ → ℕ → ℕ → String
comptype_header host keyword i n align =
    keyword
    ++ " "
    ++ fmt_comptype_index host i
    ++ " ("
    ++ show_ℕ host n
    ++ " bytes, aligned "
    ++ show_ℕ host align
    ++ " bytes) {\n"

unfoldable pub fmt_comptype : Host → ℕ → Ty → Fmt String
fmt_comptype host i (Ty.tuple fields n align) = do
  s ← fmt_comptype_fields host fields
  pure (comptype_header host "tuple" i n align ++ s ++ "}\n\n")
fmt_comptype host i (Ty.union fields chunks n align) = do
  s ← fmt_comptype_fields host fields
  pure (comptype_header host "union" i n align ++ s ++ fmt_comptype_chunks host chunks ++ "}\n\n")
fmt_comptype host i (Ty.enum variants discriminant_ty discriminator n align) = do
  s ← fmt_comptype_variants host variants
  pure (
      comptype_header host "enum" i n align
      ++ "  Discriminant: "
      ++ fmt_int_type host discriminant_ty
      ++ "\n"
      ++ s
      ++ "}\n\n")
fmt_comptype host i t = panic

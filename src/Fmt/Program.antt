-- ===== src/Fmt/Program.antt =====
-- tooling/miniutil/src/fmt/global.rs, `fmt_program` of fmt/mod.rs, and `fmt_comptypes` of fmt/ty.rs.
use minirust_contrib_fork.Prelude.{
  ℕ, zero, suc, ◌+◌, ◌/◌, ◌%◌, Option, none, some, List, [], ◌∷◌, map, get_elem?, get_or,
}
use minirust_contrib_fork.Prelude.Map.{Map}
use minirust_contrib_fork.Lang.Types.{Ty, Fields, Variants}
use minirust_contrib_fork.Lang.Syntax.{GlobalName, Relocation, Global, Program}
use minirust_contrib_fork.Fmt.Comptypes.{Host}
use minirust_contrib_fork.Fmt.Ty.{to_string, show_ℕ, fmt_comptype}
use minirust_contrib_fork.Fmt.Expr.{fmt_global_name, fmt_relocation}
use minirust_contrib_fork.Fmt.Function.{join, sort_by_key, fmt_functions}
use Prim.Native.String.{String, ◌++◌}

abbrev pub hex_digits : List String
hex_digits =
    "0" ∷ "1" ∷ "2" ∷ "3" ∷ "4" ∷ "5" ∷ "6" ∷ "7" ∷ "8" ∷ "9" ∷ "a" ∷ "b" ∷ "c" ∷ "d" ∷ "e" ∷ "f"
    ∷ []

-- `{:02x?}` of a `u8`, and `__` for an uninitialised byte.
unfoldable pub fmt_byte : Option ℕ → String
fmt_byte none = "__"
fmt_byte (some u) = get_or hex_digits (u / 16 % 16) "" ++ get_or hex_digits (u % 16) ""

unfoldable pub fmt_bytes : List (Option ℕ) → String
fmt_bytes bytes = join " " (map fmt_byte bytes)

unfoldable pub fmt_relocations : Host → List (ℕ × Relocation) → String
fmt_relocations host [] = ""
fmt_relocations host ((i, rel) ∷ relocations) =
    "  at byte "
    ++ show_ℕ host i
    ++ ": "
    ++ to_string (fmt_relocation host rel)
    ++ ",\n"
    ++ fmt_relocations host relocations

unfoldable pub fmt_global : Host → GlobalName → Global → String
fmt_global host gname global =
    fmt_global_name host gname
    ++ " {\n  bytes = ["
    ++ fmt_bytes global.bytes
    ++ "],\n  align = "
    ++ show_ℕ host global.align
    ++ " bytes,\n"
    ++ fmt_relocations host global.relocations
    ++ "}\n\n"

abbrev pub fmt_each_global : Host → List (GlobalName × Global) → String
fmt_each_global host [] = ""
fmt_each_global host ((gname, global) ∷ globals) =
    fmt_global host gname global ++ fmt_each_global host globals

unfoldable pub fmt_globals : Host → Map GlobalName Global → String
fmt_globals host globals = fmt_each_global host (sort_by_key globals)

-- The number of composite types in a type, with repetitions; a pointer's pointee is no part of its type.
unfoldable mutual
  pub comp_weight : Ty → ℕ
  comp_weight (Ty.int t) = 0
  comp_weight Ty.bool = 0
  comp_weight (Ty.ptr p) = 0
  comp_weight (Ty.tuple fields n align) = suc (fields_weight fields)
  comp_weight (Ty.union fields chunks n align) = suc (fields_weight fields)
  comp_weight (Ty.enum variants int_ty discriminator n align) = suc (variants_weight variants)
  comp_weight (Ty.array elem count) = comp_weight elem
  comp_weight (Ty.slice elem) = comp_weight elem

  pub fields_weight : Fields → ℕ
  fields_weight Fields.no_field = 0
  fields_weight (Fields.field offset t fields) = comp_weight t + fields_weight fields

  pub variants_weight : Variants → ℕ
  variants_weight Variants.no_variant = 0
  variants_weight (Variants.variant discriminant t tagger variants) =
      comp_weight t + variants_weight variants

abbrev pub table_weight : List Ty → ℕ
table_weight [] = 0
table_weight (t ∷ l) = comp_weight t + table_weight l

-- `while i < comptypes.len()`, with fuel; `none` is a panic, or that the fuel ran out.
unfoldable pub fmt_comptypes_from : ℕ → Host → ℕ → List Ty → Option String
fmt_comptypes_from zero host i comptypes = elim (get_elem? comptypes i) [
  | none ↦ some ""
  | some c ↦ none
]
fmt_comptypes_from (suc fuel) host i comptypes = elim (get_elem? comptypes i) [
  | none ↦ some ""
  | some c ↦ elim (fmt_comptype host i c comptypes) [
    | none ↦ none
    | some (s, found) ↦ elim (fmt_comptypes_from fuel host (suc i) found) [
      | none ↦ none
      | some rest ↦ some (s ++ rest)
    ]
  ]
]

-- The fuel is the number of composite types in the table's types.
unfoldable pub fmt_comptypes : Host → List Ty → Option String
fmt_comptypes host comptypes = fmt_comptypes_from (table_weight comptypes) host 0 comptypes

unfoldable pub fmt_program : Host → Program → Option String
fmt_program host prog = elim (fmt_functions host prog []) [
  | none ↦ none
  | some (functions_string, comptypes) ↦ elim (fmt_comptypes host comptypes) [
    | none ↦ none
    | some comptypes_string ↦
        some (comptypes_string ++ functions_string ++ fmt_globals host prog.globals)
  ]
]

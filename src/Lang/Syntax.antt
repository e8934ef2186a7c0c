-- ===== src/Lang/Syntax.antt =====
-- spec/lang/syntax.md: expressions, statements, terminators, functions and programs. The names of
-- functions, globals, locals and blocks are the `u32` inside `libspecr::Name`.
use minirust_contrib_fork.Prelude.{ℕ, Bool, Option, List, [], ◌∷◌}
use minirust_contrib_fork.Prelude.Int.{ℤ}
use minirust_contrib_fork.Prelude.Map.{Map}
use minirust_contrib_fork.Lang.Types.{Ty, IntType, PtrType}

abbrev pub FnName : Type 0
FnName = ℕ

abbrev pub GlobalName : Type 0
GlobalName = ℕ

abbrev pub LocalName : Type 0
LocalName = ℕ

abbrev pub BbName : Type 0
BbName = ℕ

pub record Relocation : Type 0 where
  pub name : GlobalName
  pub offset : ℕ

pub data Constant : Type 0 where
  int : ℤ → Constant
  bool : Bool → Constant
  global_pointer : Relocation → Constant
  fn_pointer : FnName → Constant
  pointer_without_provenance : ℤ → Constant

pub data IntUnOp : Type 0 where
  neg bit_not : IntUnOp

pub data CastOp : Type 0 where
  int_to_int : IntType → CastOp
  transmute : Ty → CastOp

pub data UnOp : Type 0 where
  int : IntUnOp → UnOp
  cast : CastOp → UnOp
  get_metadata : UnOp

pub data IntBinOp : Type 0 where
  add add_unchecked sub sub_unchecked mul mul_unchecked div div_exact rem : IntBinOp
  shl shl_unchecked shr shr_unchecked bit_and bit_or bit_xor : IntBinOp

pub data IntBinOpWithOverflow : Type 0 where
  add sub mul : IntBinOpWithOverflow

pub data RelOp : Type 0 where
  lt gt le ge eq ne cmp : RelOp

pub data BinOp : Type 0 where
  int : IntBinOp → BinOp
  int_with_overflow : IntBinOpWithOverflow → BinOp
  rel : RelOp → BinOp
  ptr_offset : Bool → BinOp
  ptr_offset_from : Bool → Bool → BinOp

mutual
  pub data ValueExpr : Type 0 where
    constant : Constant → Ty → ValueExpr
    tuple : ValueExprs → Ty → ValueExpr
    union : ℤ → ValueExpr → Ty → ValueExpr
    variant : ℤ → ValueExpr → Ty → ValueExpr
    get_discriminant : PlaceExpr → ValueExpr
    load : PlaceExpr → ValueExpr
    addr_of : PlaceExpr → PtrType → ValueExpr
    un_op : UnOp → ValueExpr → ValueExpr
    bin_op : BinOp → ValueExpr → ValueExpr → ValueExpr

  -- `List<ValueExpr>`
  pub data ValueExprs : Type 0 where
    nil : ValueExprs
    cons : ValueExpr → ValueExprs → ValueExprs

  pub data PlaceExpr : Type 0 where
    local : LocalName → PlaceExpr
    deref : ValueExpr → Ty → PlaceExpr
    field : PlaceExpr → ℤ → PlaceExpr
    index : PlaceExpr → ValueExpr → PlaceExpr
    downcast : PlaceExpr → ℤ → PlaceExpr

abbrev pub to_exprs : List ValueExpr → ValueExprs
to_exprs [] = nil
to_exprs (e ∷ l) = cons e (to_exprs l)

pub data Statement : Type 0 where
  assign : PlaceExpr → ValueExpr → Statement
  place_mention : PlaceExpr → Statement
  set_discriminant : PlaceExpr → ℤ → Statement
  validate : PlaceExpr → Bool → Statement
  deinit : PlaceExpr → Statement
  storage_live : LocalName → Statement
  storage_dead : LocalName → Statement

pub data ArgumentExpr : Type 0 where
  by_value : ValueExpr → ArgumentExpr
  in_place : PlaceExpr → ArgumentExpr

pub data CallingConvention : Type 0 where
  rust c : CallingConvention

pub data IntrinsicLockOp : Type 0 where
  acquire release create : IntrinsicLockOp

pub data IntrinsicOp : Type 0 where
  assume exit panic print_stdout print_stderr allocate deallocate spawn join raw_eq : IntrinsicOp
  atomic_store atomic_load atomic_compare_exchange : IntrinsicOp
  atomic_fetch_and_op : IntBinOp → IntrinsicOp
  lock : IntrinsicLockOp → IntrinsicOp
  pointer_expose_provenance pointer_with_exposed_provenance : IntrinsicOp

pub data Terminator : Type 0 where
  goto : BbName → Terminator
  switch : ValueExpr → Map ℤ BbName → BbName → Terminator
  unreachable : Terminator
  intrinsic : IntrinsicOp → List ValueExpr → PlaceExpr → Option BbName → Terminator
  call : ValueExpr → CallingConvention → List ArgumentExpr → PlaceExpr → Option BbName → Terminator
  return : Terminator

pub record BasicBlock : Type 0 where
  pub statements : List Statement
  pub terminator : Terminator

pub record Function : Type 0 where
  pub locals : Map LocalName Ty
  pub args : List LocalName
  pub ret : LocalName
  pub calling_convention : CallingConvention
  pub blocks : Map BbName BasicBlock
  pub start : BbName

-- An uninitialised byte is `none`.
pub record Global : Type 0 where
  pub bytes : List (Option ℕ)
  pub relocations : List (ℕ × Relocation)
  pub align : ℕ

pub record Program : Type 0 where
  pub functions : Map FnName Function
  pub start : FnName
  pub globals : Map GlobalName Global

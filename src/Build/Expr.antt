-- ===== src/Build/Expr.antt =====
-- tooling/miniutil/src/build/expr.rs and `fn_ptr` of build/function.rs: constructors of
-- expressions. A generic argument that converts into `Int` is that integer; a type argument is a
-- `RustTy`. `none` is a panic.
use minirust_contrib_fork.Prelude.{
  ℕ, suc, Bool, true, false, List, Option, none, some, ◌>>=◌, if◌then◌else◌, ◌==◌, length,
}
use minirust_contrib_fork.Prelude.Int.{ℤ, pos}
use minirust_contrib_fork.Lang.Types.{Ty, Signedness, Fields, PtrType, PointerMetaKind}
use minirust_contrib_fork.Lang.Syntax.{
  FnName, LocalName, GlobalName, Constant, UnOp, IntUnOp, CastOp, IntBinOp, IntBinOpWithOverflow,
  RelOp, BinOp, ValueExpr, ValueExprs, PlaceExpr, ArgumentExpr, to_exprs,
}
use minirust_contrib_fork.Build.Ty.{bool_ty, array_ty}
use minirust_contrib_fork.Build.TyConv.{RustTy, get_type}

unfoldable pub const_int : RustTy → ℤ → Option ValueExpr
unfolding get_type
const_int t i = do ty ← get_type t; some (ValueExpr.constant (Constant.int i) ty)

unfoldable pub const_int_typed : RustTy → ℤ → Option ValueExpr
unfolding get_type
const_int_typed t i = do ty ← get_type t; some (ValueExpr.constant (Constant.int i) ty)

unfoldable pub const_bool : Bool → ValueExpr
const_bool b = ValueExpr.constant (Constant.bool b) Ty.bool

abbrev pub fields_length : Fields → ℕ
fields_length Fields.no_field = 0
fields_length (Fields.field offset ty rest) = suc (fields_length rest)

unfoldable pub tuple : List ValueExpr → Ty → Option ValueExpr
tuple args (Ty.tuple fields size align) =
    if fields_length fields == length args
    then some (ValueExpr.tuple (to_exprs args) (Ty.tuple fields size align))
    else none
tuple args _ = none

unfoldable pub array : List ValueExpr → Ty → ValueExpr
unfolding array_ty
array args elem_ty = ValueExpr.tuple (to_exprs args) (array_ty elem_ty (pos (length args)))

unfoldable pub variant : ℤ → ValueExpr → Ty → ValueExpr
variant discriminant value enum_ty = ValueExpr.variant discriminant value enum_ty

unfoldable pub get_discriminant : PlaceExpr → ValueExpr
get_discriminant place = ValueExpr.get_discriminant place

unfoldable pub unit : Option ValueExpr
unfolding get_type
unit = do ty ← get_type RustTy.unit; some (ValueExpr.tuple ValueExprs.nil ty)

unfoldable pub null : Option ValueExpr
unfolding get_type
null = do
  ty ← get_type (RustTy.const_ptr RustTy.unit)
  some (ValueExpr.constant (Constant.pointer_without_provenance (pos 0)) ty)

unfoldable pub load : PlaceExpr → ValueExpr
load p = ValueExpr.load p

unfoldable pub addr_of : PlaceExpr → Ty → Option ValueExpr
addr_of target (Ty.ptr ptr_ty) = some (ValueExpr.addr_of target ptr_ty)
addr_of target _ = none

unfoldable pub neg : ValueExpr → ValueExpr
neg v = ValueExpr.un_op (UnOp.int IntUnOp.neg) v

unfoldable pub bit_not : ValueExpr → ValueExpr
bit_not v = ValueExpr.un_op (UnOp.int IntUnOp.bit_not) v

abbrev cast_to : ValueExpr → Ty → Option ValueExpr
cast_to v (Ty.int t) = some (ValueExpr.un_op (UnOp.cast (CastOp.int_to_int t)) v)
cast_to v _ = none

unfoldable pub int_cast : RustTy → ValueExpr → Option ValueExpr
unfolding get_type
int_cast t v = do ty ← get_type t; cast_to v ty

unfoldable pub transmute : ValueExpr → Ty → ValueExpr
transmute v t = ValueExpr.un_op (UnOp.cast (CastOp.transmute t)) v

unfoldable pub ptr_addr : ValueExpr → Option ValueExpr
unfolding get_type transmute
ptr_addr v = do ty ← get_type RustTy.usize; some (transmute v ty)

unfoldable pub ptr_to_ptr : ValueExpr → Ty → Option ValueExpr
unfolding transmute
ptr_to_ptr v (Ty.ptr p) = some (transmute v (Ty.ptr p))
ptr_to_ptr v _ = none

-- Equality of a type with `u8`.
abbrev is_u8 : Ty → Bool
is_u8 (Ty.int t) = elim t.signed [ Signedness.unsigned ↦ t.size == 1 | Signedness.signed ↦ false ]
is_u8 _ = false

unfoldable pub bool_to_int : RustTy → ValueExpr → Option ValueExpr
unfolding get_type transmute int_cast
bool_to_int t v = do
  t_u8 ← get_type RustTy.u8
  ty ← get_type t
  let as_u8 = transmute v t_u8
  if is_u8 ty then some as_u8 else int_cast t as_u8

unfoldable pub get_metadata : ValueExpr → ValueExpr
get_metadata v = ValueExpr.un_op UnOp.get_metadata v

unfoldable pub int_binop : IntBinOp → ValueExpr → ValueExpr → ValueExpr
int_binop op l r = ValueExpr.bin_op (BinOp.int op) l r

unfoldable pub add : ValueExpr → ValueExpr → ValueExpr
unfolding int_binop
add l r = int_binop IntBinOp.add l r

unfoldable pub add_unchecked : ValueExpr → ValueExpr → ValueExpr
unfolding int_binop
add_unchecked l r = int_binop IntBinOp.add_unchecked l r

unfoldable pub sub : ValueExpr → ValueExpr → ValueExpr
unfolding int_binop
sub l r = int_binop IntBinOp.sub l r

unfoldable pub sub_unchecked : ValueExpr → ValueExpr → ValueExpr
unfolding int_binop
sub_unchecked l r = int_binop IntBinOp.sub_unchecked l r

unfoldable pub mul : ValueExpr → ValueExpr → ValueExpr
unfolding int_binop
mul l r = int_binop IntBinOp.mul l r

unfoldable pub mul_unchecked : ValueExpr → ValueExpr → ValueExpr
unfolding int_binop
mul_unchecked l r = int_binop IntBinOp.mul_unchecked l r

unfoldable pub div : ValueExpr → ValueExpr → ValueExpr
unfolding int_binop
div l r = int_binop IntBinOp.div l r

unfoldable pub div_exact : ValueExpr → ValueExpr → ValueExpr
unfolding int_binop
div_exact l r = int_binop IntBinOp.div_exact l r

unfoldable pub rem : ValueExpr → ValueExpr → ValueExpr
unfolding int_binop
rem l r = int_binop IntBinOp.rem l r

unfoldable pub shl : ValueExpr → ValueExpr → ValueExpr
unfolding int_binop
shl l r = int_binop IntBinOp.shl l r

unfoldable pub shl_unchecked : ValueExpr → ValueExpr → ValueExpr
unfolding int_binop
shl_unchecked l r = int_binop IntBinOp.shl_unchecked l r

unfoldable pub shr : ValueExpr → ValueExpr → ValueExpr
unfolding int_binop
shr l r = int_binop IntBinOp.shr l r

unfoldable pub shr_unchecked : ValueExpr → ValueExpr → ValueExpr
unfolding int_binop
shr_unchecked l r = int_binop IntBinOp.shr_unchecked l r

unfoldable pub bit_and : ValueExpr → ValueExpr → ValueExpr
unfolding int_binop
bit_and l r = int_binop IntBinOp.bit_and l r

unfoldable pub bit_or : ValueExpr → ValueExpr → ValueExpr
unfolding int_binop
bit_or l r = int_binop IntBinOp.bit_or l r

unfoldable pub bit_xor : ValueExpr → ValueExpr → ValueExpr
unfolding int_binop
bit_xor l r = int_binop IntBinOp.bit_xor l r

unfoldable pub not : ValueExpr → Option ValueExpr
unfolding const_int bool_to_int sub transmute bool_ty
not v = do
  one ← const_int RustTy.u8 (pos 1)
  as_int ← bool_to_int RustTy.u8 v
  some (transmute (sub one as_int) bool_ty)

unfoldable pub int_overflow : IntBinOpWithOverflow → ValueExpr → ValueExpr → ValueExpr
int_overflow op l r = ValueExpr.bin_op (BinOp.int_with_overflow op) l r

unfoldable pub overflow_add : ValueExpr → ValueExpr → ValueExpr
unfolding int_overflow
overflow_add l r = int_overflow IntBinOpWithOverflow.add l r

unfoldable pub overflow_sub : ValueExpr → ValueExpr → ValueExpr
unfolding int_overflow
overflow_sub l r = int_overflow IntBinOpWithOverflow.sub l r

unfoldable pub overflow_mul : ValueExpr → ValueExpr → ValueExpr
unfolding int_overflow
overflow_mul l r = int_overflow IntBinOpWithOverflow.mul l r

unfoldable pub rel_op : RelOp → ValueExpr → ValueExpr → ValueExpr
rel_op op l r = ValueExpr.bin_op (BinOp.rel op) l r

unfoldable pub eq : ValueExpr → ValueExpr → ValueExpr
unfolding rel_op
eq l r = rel_op RelOp.eq l r

unfoldable pub ne : ValueExpr → ValueExpr → ValueExpr
unfolding rel_op
ne l r = rel_op RelOp.ne l r

unfoldable pub ge : ValueExpr → ValueExpr → ValueExpr
unfolding rel_op
ge l r = rel_op RelOp.ge l r

unfoldable pub gt : ValueExpr → ValueExpr → ValueExpr
unfolding rel_op
gt l r = rel_op RelOp.gt l r

unfoldable pub le : ValueExpr → ValueExpr → ValueExpr
unfolding rel_op
le l r = rel_op RelOp.le l r

unfoldable pub lt : ValueExpr → ValueExpr → ValueExpr
unfolding rel_op
lt l r = rel_op RelOp.lt l r

unfoldable pub cmp : ValueExpr → ValueExpr → ValueExpr
cmp l r = ValueExpr.bin_op (BinOp.rel RelOp.cmp) l r

unfoldable pub bool_and : ValueExpr → ValueExpr → Option ValueExpr
unfolding bool_to_int bit_and transmute bool_ty
bool_and l r = do
  l' ← bool_to_int RustTy.u8 l
  r' ← bool_to_int RustTy.u8 r
  some (transmute (bit_and l' r') bool_ty)

unfoldable pub bool_or : ValueExpr → ValueExpr → Option ValueExpr
unfolding bool_to_int bit_or transmute bool_ty
bool_or l r = do
  l' ← bool_to_int RustTy.u8 l
  r' ← bool_to_int RustTy.u8 r
  some (transmute (bit_or l' r') bool_ty)

unfoldable pub bool_xor : ValueExpr → ValueExpr → Option ValueExpr
unfolding bool_to_int bit_xor transmute bool_ty
bool_xor l r = do
  l' ← bool_to_int RustTy.u8 l
  r' ← bool_to_int RustTy.u8 r
  some (transmute (bit_xor l' r') bool_ty)

pub data InBounds : Type 0 where
  in_bounds any_bounds : InBounds

abbrev pub matches_yes : InBounds → Bool
matches_yes in_bounds = true
matches_yes any_bounds = false

unfoldable pub ptr_offset : ValueExpr → ValueExpr → InBounds → ValueExpr
ptr_offset l r inbounds = ValueExpr.bin_op (BinOp.ptr_offset (matches_yes inbounds)) l r

unfoldable pub ptr_offset_from : ValueExpr → ValueExpr → InBounds → ValueExpr
ptr_offset_from l r inbounds =
    ValueExpr.bin_op (BinOp.ptr_offset_from (matches_yes inbounds) false) l r

unfoldable pub ptr_offset_from_nonneg : ValueExpr → ValueExpr → InBounds → ValueExpr
ptr_offset_from_nonneg l r inbounds =
    ValueExpr.bin_op (BinOp.ptr_offset_from (matches_yes inbounds) true) l r

unfoldable pub local_by_name : LocalName → PlaceExpr
local_by_name name = PlaceExpr.local name

unfoldable pub local : ℕ → PlaceExpr
unfolding local_by_name
local x = local_by_name x

unfoldable pub deref : ValueExpr → Ty → PlaceExpr
deref operand ty = PlaceExpr.deref operand ty

unfoldable pub global_by_name : RustTy → GlobalName → Option PlaceExpr
unfolding get_type deref
global_by_name t name = do
  ty ← get_type t
  let relocation = Constant.global_pointer (record { name = name; offset = 0 })
  some (deref (ValueExpr.constant relocation (Ty.ptr (PtrType.raw PointerMetaKind.thin))) ty)

unfoldable pub global : RustTy → ℕ → Option PlaceExpr
unfolding global_by_name
global t x = global_by_name t x

unfoldable pub field : PlaceExpr → ℤ → PlaceExpr
field root f = PlaceExpr.field root f

unfoldable pub index : PlaceExpr → ValueExpr → PlaceExpr
index root i = PlaceExpr.index root i

unfoldable pub downcast : PlaceExpr → ℤ → PlaceExpr
downcast root discriminant = PlaceExpr.downcast root discriminant

-- A place suited for 1-aligned zero-sized accesses.
unfoldable pub unit_place : Option PlaceExpr
unfolding get_type
unit_place = do
  ptr_ty ← get_type (RustTy.const_ptr RustTy.unit)
  ty ← get_type RustTy.unit
  let address = Constant.pointer_without_provenance (pos 1)
  some (PlaceExpr.deref (ValueExpr.constant address ptr_ty) ty)

unfoldable pub by_value : ValueExpr → ArgumentExpr
by_value val = ArgumentExpr.by_value val

unfoldable pub in_place : PlaceExpr → ArgumentExpr
in_place arg = ArgumentExpr.in_place arg

unfoldable pub fn_ptr : FnName → ValueExpr
fn_ptr name = ValueExpr.constant (Constant.fn_pointer name) (Ty.ptr PtrType.fn_ptr)

unfoldable pub fn_ptr_internal : ℕ → ValueExpr
unfolding fn_ptr
fn_ptr_internal fn_name = fn_ptr fn_name

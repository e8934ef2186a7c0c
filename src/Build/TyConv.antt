-- ===== src/Build/TyConv.antt =====
-- tooling/miniutil/src/build/ty_conv.rs: the Rust types that convert to MiniRust types.
use minirust_contrib_fork.Prelude.{ℕ, Bool, true, Option, some, [], ◌>>=◌}
use minirust_contrib_fork.Prelude.Int.{pos}
use minirust_contrib_fork.Lang.Types.{
  Ty, Signedness, signed, unsigned, SizeStrategy, ptr_size, meta_kind,
}
use minirust_contrib_fork.Lang.Types
use minirust_contrib_fork.Build.Ty.{
  int_ty, bool_ty, ref_ty, ref_mut_ty, raw_ptr_ty, tuple_ty, array_ty, slice_ty,
}

-- The types that implement the trait `TypeConv`.
pub data RustTy : Type 0 where
  u8 u16 u32 u64 u128 i8 i16 i32 i64 i128 usize isize : RustTy
  const_ptr mut_ptr : RustTy → RustTy
  bool : RustTy
  shared_ref mut_ref : RustTy → RustTy
  array : RustTy → ℕ → RustTy
  slice : RustTy → RustTy
  unit : RustTy

-- No implementation overrides the defaults of the two constants.
abbrev pub freeze : RustTy → Bool
freeze t = true

abbrev pub unpin : RustTy → Bool
unpin t = true

-- `TypeConv::get_type`; `none` is a panic of `size` or `align`.
unfoldable pub get_type : RustTy → Option Ty
unfolding Types.size Types.align meta_kind int_ty bool_ty ref_ty ref_mut_ty raw_ptr_ty tuple_ty
    array_ty slice_ty
get_type u8 = some (int_ty unsigned 1)
get_type u16 = some (int_ty unsigned 2)
get_type u32 = some (int_ty unsigned 4)
get_type u64 = some (int_ty unsigned 8)
get_type u128 = some (int_ty unsigned 16)
get_type i8 = some (int_ty signed 1)
get_type i16 = some (int_ty signed 2)
get_type i32 = some (int_ty signed 4)
get_type i64 = some (int_ty signed 8)
get_type i128 = some (int_ty signed 16)
get_type usize = some (int_ty unsigned ptr_size)
get_type isize = some (int_ty signed ptr_size)
get_type (const_ptr t) = do ty ← get_type t; some (raw_ptr_ty (meta_kind ty))
get_type (mut_ptr t) = do ty ← get_type t; some (raw_ptr_ty (meta_kind ty))
get_type bool = some bool_ty
get_type (shared_ref t) = do
  ty ← get_type t
  size ← Types.size ty
  align ← Types.align ty
  some (
      ref_ty (record {
        size = size;
        align = align;
        inhabited = true;
        freeze = freeze t;
        unpin = unpin t;
      }))
get_type (mut_ref t) = do
  ty ← get_type t
  size ← Types.size ty
  align ← Types.align ty
  some (
      ref_mut_ty (record {
        size = size;
        align = align;
        inhabited = true;
        freeze = freeze t;
        unpin = unpin t;
      }))
get_type (array t n) = do ty ← get_type t; some (array_ty ty (pos n))
get_type (slice t) = do ty ← get_type t; some (slice_ty ty)
get_type unit = some (tuple_ty [] 0 1)

unfoldable pub get_size : RustTy → Option SizeStrategy
unfolding get_type
get_size t = do ty ← get_type t; Types.size ty

unfoldable pub get_align : RustTy → Option ℕ
unfolding get_type
get_align t = do ty ← get_type t; Types.align ty

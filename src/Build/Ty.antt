-- ===== src/Build/Ty.antt =====
-- tooling/miniutil/src/build/ty.rs: constructors of types, and `size`, `offset` and `align` of
-- build/mod.rs. A generic argument that converts into `Int` is that integer.
use minirust_contrib_fork.Prelude.{ℕ, List, [], ◌∷◌, Option, none, some, if◌then◌else◌, ◌&&◌}
use minirust_contrib_fork.Prelude.Int.{ℤ, pos, negsuc, ◌==ℤ◌}
use minirust_contrib_fork.Lang.Types.{
  Ty, Signedness, Mutability, PtrType, PointeeInfo, PointerMetaKind, Variant, Tagger, Variants,
  Discriminator, Children, to_fields, align_from_bytes,
}

unfoldable pub int_ty : Signedness → ℕ → Ty
int_ty signedness size = Ty.int (record { signed = signedness; size = size })

unfoldable pub bool_ty : Ty
bool_ty = Ty.bool

unfoldable pub ref_ty : PointeeInfo → Ty
ref_ty pointee = Ty.ptr (PtrType.ref Mutability.immutable pointee)

unfoldable pub ref_mut_ty : PointeeInfo → Ty
ref_mut_ty pointee = Ty.ptr (PtrType.ref Mutability.mutable pointee)

unfoldable pub box_ty : PointeeInfo → Ty
box_ty pointee = Ty.ptr (PtrType.box pointee)

unfoldable pub raw_ptr_ty : PointerMetaKind → Ty
raw_ptr_ty meta_kind = Ty.ptr (PtrType.raw meta_kind)

unfoldable pub raw_void_ptr_ty : Ty
unfolding raw_ptr_ty
raw_void_ptr_ty = raw_ptr_ty PointerMetaKind.thin

unfoldable pub tuple_ty : List (ℕ × Ty) → ℕ → ℕ → Ty
tuple_ty f size align = Ty.tuple (to_fields f) size align

unfoldable pub union_ty : List (ℕ × Ty) → ℕ → ℕ → Ty
union_ty f size align = Ty.union (to_fields f) ((0, size) ∷ []) size align

unfoldable pub array_ty : Ty → ℤ → Ty
array_ty elem count = Ty.array elem count

unfoldable pub slice_ty : Ty → Ty
slice_ty elem = Ty.slice elem

unfoldable pub enum_variant : Ty → Tagger → Variant
enum_variant ty tagger = record { ty = ty; tagger = tagger }

-- `collect` into a map: a later entry of one discriminant replaces the earlier one.
abbrev insert_variant : ℤ → Variant → Variants → Variants
insert_variant d v Variants.no_variant = Variants.variant d v.ty v.tagger Variants.no_variant
insert_variant d v (Variants.variant d' ty tagger rest) =
    if d ==ℤ d'
    then Variants.variant d v.ty v.tagger rest
    else Variants.variant d' ty tagger (insert_variant d v rest)

abbrev pub collect_variants : Variants → List (ℤ × Variant) → Variants
collect_variants m [] = m
collect_variants m ((d, v) ∷ l) = collect_variants (insert_variant d v m) l

-- The discriminant's type is given as the type that its Rust type converts to.
unfoldable pub enum_ty : Ty → List (ℤ × Variant) → Discriminator → ℕ → ℕ → Option Ty
enum_ty (Ty.int discriminant_ty) variants discriminator size align = some (
    Ty.enum (collect_variants Variants.no_variant variants) discriminant_ty discriminator size
      align)
enum_ty _ variants discriminator size align = none

unfoldable pub discriminator_invalid : Discriminator
discriminator_invalid = Discriminator.invalid

unfoldable pub discriminator_known : ℤ → Discriminator
discriminator_known discriminant = Discriminator.known discriminant

abbrev insert_child : ℤ × ℤ → Discriminator → Children → Children
insert_child r d Children.no_child = Children.child r d Children.no_child
insert_child (a, b) d (Children.child (a', b') d' rest) =
    if a ==ℤ a' && b ==ℤ b'
    then Children.child (a, b) d rest
    else Children.child (a', b') d' (insert_child (a, b) d rest)

abbrev pub collect_children : Children → List ((ℤ × ℤ) × Discriminator) → Children
collect_children m [] = m
collect_children m ((r, d) ∷ l) = collect_children (insert_child r d m) l

unfoldable pub discriminator_branch :
    Ty → ℕ → Discriminator → List ((ℤ × ℤ) × Discriminator) → Option Discriminator
discriminator_branch (Ty.int value_type) offset fallback children =
    some (
      Discriminator.branch offset value_type fallback (collect_children Children.no_child children))
discriminator_branch _ offset fallback children = none

-- `Size::from_bytes` refuses a negative number.
unfoldable pub size : ℤ → Option ℕ
size (pos bytes) = some bytes
size (negsuc bytes) = none

unfoldable pub offset : ℤ → Option ℕ
unfolding size
offset bytes = size bytes

unfoldable pub align : ℤ → Option ℕ
unfolding align_from_bytes
align (pos bytes) = align_from_bytes bytes
align (negsuc bytes) = none

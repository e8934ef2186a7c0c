-- ===== src/Lang/Types.antt =====
-- spec/lang/types.md, spec/mem/pointer.md and spec/prelude/target.md: the types of MiniRust and
-- their layout. A `Size`, an `Offset` and an `Align` is its number of bytes. `Map` and `List` of
-- types are data types of the block, since a data type holds no list of itself.
use minirust_contrib_fork.Prelude.{
  ℕ, ◌*◌, Bool, true, false, Option, none, some, List, [], ◌∷◌, ◌>>=◌, ltb, zero, suc, ◌/◌, ◌%◌,
  ◌==◌, if◌then◌else◌, min,
}
use minirust_contrib_fork.Prelude.Int.{ℤ, pos, negsuc}

pub data Signedness : Type 0 where
  signed unsigned : Signedness

pub data Mutability : Type 0 where
  mutable immutable : Mutability

pub record IntType : Type 0 where
  pub signed : Signedness
  pub size : ℕ

pub data PointerMetaKind : Type 0 where
  thin element_count : PointerMetaKind

pub data SizeStrategy : Type 0 where
  sized : ℕ → SizeStrategy
  slice_of : ℕ → SizeStrategy

pub record PointeeInfo : Type 0 where
  pub size : SizeStrategy
  pub align : ℕ
  pub inhabited : Bool
  pub freeze : Bool
  pub unpin : Bool

pub data PtrType : Type 0 where
  ref : Mutability → PointeeInfo → PtrType
  box : PointeeInfo → PtrType
  raw : PointerMetaKind → PtrType
  fn_ptr : PtrType

mutual
  pub data Discriminator : Type 0 where
    known : ℤ → Discriminator
    invalid : Discriminator
    branch : ℕ → IntType → Discriminator → Children → Discriminator

  -- `Map<(Int, Int), Discriminator>`
  pub data Children : Type 0 where
    no_child : Children
    child : ℤ × ℤ → Discriminator → Children → Children

-- `Map<Offset, (IntType, Int)>`
abbrev pub Tagger : Type 0
Tagger = List (ℕ × (IntType × ℤ))

mutual
  pub data Ty : Type 0 where
    int : IntType → Ty
    bool : Ty
    ptr : PtrType → Ty
    tuple : Fields → ℕ → ℕ → Ty
    array : Ty → ℤ → Ty
    slice : Ty → Ty
    union : Fields → List (ℕ × ℕ) → ℕ → ℕ → Ty
    enum : Variants → IntType → Discriminator → ℕ → ℕ → Ty

  -- `List<(Offset, Type)>`
  pub data Fields : Type 0 where
    no_field : Fields
    field : ℕ → Ty → Fields → Fields

  -- `Map<Int, Variant>`
  pub data Variants : Type 0 where
    no_variant : Variants
    variant : ℤ → Ty → Tagger → Variants → Variants

pub record Variant : Type 0 where
  pub ty : Ty
  pub tagger : Tagger

abbrev pub to_fields : List (ℕ × Ty) → Fields
to_fields [] = no_field
to_fields ((offset, ty) ∷ l) = field offset ty (to_fields l)

-- The target that the tools use, `x86_64`.
abbrev pub ptr_size : ℕ
ptr_size = 8

abbrev pub ptr_align : ℕ
ptr_align = 8

abbrev pub int_max_align : ℕ
int_max_align = 16

-- `SizeStrategy::expect_sized`
unfoldable pub expect_sized : SizeStrategy → Option ℕ
expect_sized (sized n) = some n
expect_sized (slice_of n) = none

unfoldable pub meta_kind_of_size : SizeStrategy → PointerMetaKind
meta_kind_of_size (sized n) = thin
meta_kind_of_size (slice_of n) = element_count

unfoldable pub meta_kind_of_ptr : PtrType → PointerMetaKind
unfolding meta_kind_of_size
meta_kind_of_ptr (ref mutbl pointee) = meta_kind_of_size pointee.size
meta_kind_of_ptr (box pointee) = meta_kind_of_size pointee.size
meta_kind_of_ptr (raw kind) = kind
meta_kind_of_ptr fn_ptr = thin

-- `Type::meta_kind`
unfoldable pub meta_kind : Ty → PointerMetaKind
meta_kind (slice elem) = element_count
meta_kind _ = thin

abbrev ptr_size_of : PointerMetaKind → ℕ
ptr_size_of thin = ptr_size
ptr_size_of element_count = 2 * ptr_size

-- A size times a count; a negative count panics, unless the product is zero.
abbrev pub scale : ℕ → ℤ → Option ℕ
scale n (pos k) = some (n * k)
scale n (negsuc k) = if ltb 0 n then none else some 0

-- `Type::size`; `none` is a panic.
unfoldable pub size : Ty → Option SizeStrategy
unfolding expect_sized meta_kind_of_ptr
size (int t) = some (sized t.size)
size bool = some (sized 1)
size (ptr p) = some (sized (ptr_size_of (meta_kind_of_ptr p)))
size (tuple fields n align) = some (sized n)
size (union fields chunks n align) = some (sized n)
size (enum variants discriminant_ty discriminator n align) = some (sized n)
size (array elem count) = do
  strategy ← size elem
  elem_size ← expect_sized strategy
  total ← scale elem_size count
  some (sized total)
size (slice elem) = do
  strategy ← size elem
  elem_size ← expect_sized strategy
  some (slice_of elem_size)

-- `Align::from_bytes` refuses what is no power of two.
unfoldable pub is_power_of_two : ℕ → ℕ → Bool
is_power_of_two zero n = false
is_power_of_two (suc fuel) n =
    let half = is_power_of_two fuel (n / 2) in
    if n == 1 then true else if n == 0 then false else if n % 2 == 1 then false else half

unfoldable pub align_from_bytes : ℕ → Option ℕ
unfolding is_power_of_two
align_from_bytes n = if is_power_of_two n n then some n else none

-- `IntType::align`; `none` is a panic.
unfoldable pub int_align : IntType → Option ℕ
unfolding align_from_bytes
int_align t = do natural_align ← align_from_bytes t.size; some (min natural_align int_max_align)

-- `Type::align`
unfoldable pub align : Ty → Option ℕ
unfolding int_align
align (int t) = int_align t
align bool = some 1
align (ptr p) = some ptr_align
align (tuple fields n a) = some a
align (union fields chunks n a) = some a
align (enum variants discriminant_ty discriminator n a) = some a
align (array elem count) = align elem
align (slice elem) = align elem

-- ===== src/Minimize/Chunks/Used.antt =====
-- Which bytes of a type hold data, said without markers.
use minirust_contrib_fork.Prelude.{
  ℕ, zero, suc, ◌+◌, ◌-◌, ◌*◌, Bool, false, ◌||◌, ◌&&◌, Option, none, some, List, [], ◌∷◌, ◌>>=◌,
  ◌≡◌, ltb, leb,
}
use minirust_contrib_fork.Lang.Types.{
  Ty, Fields, Variants, Tagger, Discriminator, Children, PointerMetaKind, thin, element_count, size,
  expect_sized, ptr_size, meta_kind_of_ptr,
}
use minirust_contrib_fork.Minimize.Chunks.{rounds}

abbrev pub shift : ℕ → (ℕ → Bool) → ℕ → Bool
shift o used i = leb o i && used (i - o)

abbrev pub below : ℕ → ℕ → Bool
below n i = ltb i n

-- The bytes of a pointer: a wide one also holds its metadata.
abbrev ptr_bytes : PointerMetaKind → ℕ
ptr_bytes thin = ptr_size
ptr_bytes element_count = 2 * ptr_size

abbrev pub used_chunks : List (ℕ × ℕ) → ℕ → Bool
used_chunks [] i = false
used_chunks ((offset, len) ∷ chunks) i = shift offset (below len) i || used_chunks chunks i

abbrev pub used_tagger : Tagger → ℕ → Bool
used_tagger [] i = false
used_tagger ((offset, (ity, value)) ∷ tagger) i =
    shift offset (below ity.size) i || used_tagger tagger i

unfoldable mutual
  pub used_discriminator : Discriminator → ℕ → Bool
  used_discriminator (Discriminator.known d) i = false
  used_discriminator Discriminator.invalid i = false
  used_discriminator (Discriminator.branch offset value_type fallback children) i =
      shift offset (below value_type.size) i
      || (used_discriminator fallback i || used_children children i)

  pub used_children : Children → ℕ → Bool
  used_children Children.no_child i = false
  used_children (Children.child range result children) i =
      used_discriminator result i || used_children children i

abbrev pub or_zero : Option ℕ → ℕ
or_zero none = 0
or_zero (some n) = n

-- The distance of the elements of an array.
abbrev pub stride : Ty → ℕ
stride elem = or_zero (size elem >>= expect_sized)

abbrev pub used_elems : ℕ → ℕ → ℕ → (ℕ → Bool) → ℕ → Bool
used_elems zero k elem_size used i = false
used_elems (suc count) k elem_size used i =
    shift (k * elem_size) used i || used_elems count (k + 1) elem_size used i

-- A byte of a type holds data, and is no padding.
unfoldable mutual
  pub used : Ty → ℕ → Bool
  used (Ty.int t) i = below t.size i
  used Ty.bool i = below 1 i
  used (Ty.ptr p) i = below (ptr_bytes (meta_kind_of_ptr p)) i
  used (Ty.tuple fields n align) i = used_fields fields i
  used (Ty.union fields chunks n align) i = used_chunks chunks i
  used (Ty.array elem count) i = used_elems (rounds count) 0 (stride elem) (used elem) i
  used (Ty.enum variants discriminant_ty discriminator n align) i =
      used_variants variants i || used_discriminator discriminator i
  used (Ty.slice elem) i = false

  pub used_fields : Fields → ℕ → Bool
  used_fields Fields.no_field i = false
  used_fields (Fields.field offset ty fields) i = shift offset (used ty) i || used_fields fields i

  pub used_variants : Variants → ℕ → Bool
  used_variants Variants.no_variant i = false
  used_variants (Variants.variant discriminant ty tagger variants) i =
      used ty i || (used_tagger tagger i || used_variants variants i)

-- No wide pointer stands in the type.
unfoldable mutual
  pub IsThin : Ty → Type 0
  IsThin (Ty.int t) = Unit
  IsThin Ty.bool = Unit
  IsThin (Ty.ptr p) = meta_kind_of_ptr p ≡ thin
  IsThin (Ty.tuple fields n align) = FieldsThin fields
  IsThin (Ty.union fields chunks n align) = Unit
  IsThin (Ty.array elem count) = IsThin elem
  IsThin (Ty.enum variants discriminant_ty discriminator n align) = VariantsThin variants
  IsThin (Ty.slice elem) = Unit

  pub FieldsThin : Fields → Type 0
  FieldsThin Fields.no_field = Unit
  FieldsThin (Fields.field offset ty fields) = IsThin ty × FieldsThin fields

  pub VariantsThin : Variants → Type 0
  VariantsThin Variants.no_variant = Unit
  VariantsThin (Variants.variant discriminant ty tagger variants) =
      IsThin ty × VariantsThin variants

-- ===== src/Lang/Representation.antt =====
-- spec/lang/representation.md: values as lists of bytes. A value is `ret`, the failure to decode is `ub`.
--
-- `decode_pair` and `encode_pair` are what the recursive calls on the type of `as_wide_pair` compute.
pub mod Order
pub mod Size
pub mod Scalars
pub mod Elements
pub mod Reads
pub mod Galois
pub mod More
pub mod Monotone
pub mod WellFormed
pub mod Decoded
mod Pointers
pub mod RoundTrip
mod Written
pub mod Laid
mod Little
mod Tests
use minirust_contrib_fork.Prelude.{
  ℕ, suc, ◌*◌, Bool, false, ◌&&◌, Option, none, some, List, [], ◌∷◌, length, replicate, ◌==◌,
  if◌then◌else◌,
}
use minirust_contrib_fork.Prelude.Int.{ℤ, pos, negsuc, ◌==ℤ◌, int_leb, int_ltb}
use minirust_contrib_fork.Prelude.Outcome.{Outcome, ret, ub, panics, ◌>>=◌, unwrap, or_throw}
use minirust_contrib_fork.Prelude.Slices.{index, subslice_with_length, write_subslice_at_index}
use minirust_contrib_fork.Lang.Types.{
  unsigned, IntType, PointerMetaKind, thin, element_count, PtrType, Discriminator, Children, Tagger,
  Ty, Fields, no_field, field, Variants, no_variant, variant, size, expect_sized, scale, ptr_size,
  ptr_align, meta_kind_of_ptr,
}
use minirust_contrib_fork.Lang.Value.{Value, Values, no_value, value, count_values, same_provenance}
use minirust_contrib_fork.Lang.Endianness.{Endianness}
use minirust_contrib_fork.Lang.Bytes.{
  common_provenance, all_data, with_provenance, decode_bool, from_value, chunks_from, read_chunks,
  write_chunks, decode_each, encode_each,
}
use minirust_contrib_fork.Mem.Pointer.{
  AbstractByte, uninit, init, byte_provenance, ThinPointer, Pointer, PointerMeta, count, widen,
  addr_valid,
}

abbrev pub count_fields : Fields → ℕ
count_fields no_field = 0
count_fields (field offset ty fs) = suc (count_fields fs)

-- The size of a type that has to be sized.
unfoldable pub sized_size : Ty → Outcome ℕ
unfolding size expect_sized
sized_size ty = unwrap (size ty) >>= λ strategy. unwrap (expect_sized strategy)

abbrev pub u_size : IntType
u_size = record { signed = unsigned; size = ptr_size }

abbrev pub thin_raw : PtrType
thin_raw = PtrType.raw thin

-- `PointerMetaKind::ty`
unfoldable pub meta_ty : PointerMetaKind → Option Ty
meta_ty thin = none
meta_ty element_count = some (Ty.int u_size)

abbrev pair_of : Option Ty → Option Ty
pair_of none = none
pair_of (some ty) =
    some
      (Ty.tuple (field 0 (Ty.ptr thin_raw) (field ptr_size ty no_field)) (2 * ptr_size) ptr_align)

unfoldable pub as_wide_pair : PtrType → Option Ty
unfolding meta_ty meta_kind_of_ptr
as_wide_pair p = pair_of (meta_ty (meta_kind_of_ptr p))

abbrev pub not_negative : ℤ → ℕ
not_negative (pos n) = n
not_negative (negsuc n) = 0

-- The `let ... else` of `decode_discriminant`.
abbrev pub or_invalid : Outcome ℤ → (ℤ → Outcome (Option ℤ)) → Outcome (Option ℤ)
or_invalid (ret val) f = f val
or_invalid ub f = ret none
or_invalid panics f = panics

module _ {P : Type 0} (E : Endianness) (same : P → P → Bool) where
  unfoldable pub decode_int : IntType → List (AbstractByte P) → Outcome ℤ
  decode_int t bytes =
      if length bytes == t.size
      then (all_data bytes >>= λ raw. ret (E.decode_bytes t.signed raw))
      else ub

  unfoldable pub encode_int : IntType → ℤ → Outcome (List (AbstractByte P))
  encode_int t i =
      unwrap (E.encode_bytes t.signed t.size i) >>= λ raw. ret (with_provenance none raw)

  unfoldable pub decode_ptr : List (AbstractByte P) → Outcome (ThinPointer P)
  unfolding byte_provenance
  decode_ptr bytes =
      if length bytes == ptr_size
      then (all_data bytes >>= λ raw.
          (index bytes 0 >>= λ b. ret (record {
            addr = E.decode_bytes unsigned raw;
            provenance = common_provenance same (byte_provenance b) bytes;
          })))
      else ub

  unfoldable pub encode_ptr : ThinPointer P → Outcome (List (AbstractByte P))
  encode_ptr ptr = unwrap (E.encode_bytes unsigned ptr_size ptr.addr) >>= λ raw.
      ret (with_provenance ptr.provenance raw)

  unfoldable pub decode_thin : PtrType → List (AbstractByte P) → Outcome (Value P)
  unfolding decode_ptr addr_valid widen
  decode_thin p bytes = decode_ptr bytes >>= λ ptr.
      if addr_valid p ptr.addr then ret (Value.ptr (widen ptr none)) else ub

  unfoldable pub decode_pair : List (AbstractByte P) → Outcome (Values P)
  unfolding decode_thin decode_int
  decode_pair bytes =
      if length bytes == 2 * ptr_size
      then (subslice_with_length bytes 0 ptr_size >>= λ part0.
          (decode_thin thin_raw part0 >>= λ v0.
          (subslice_with_length bytes ptr_size ptr_size >>= λ part1.
          (decode_int u_size part1 >>= λ i. ret (value v0 (value (Value.int i) no_value))))))
      else ub

  -- The pointer of a pair.
  abbrev pub wide_ptr : Values P → Outcome (Value P)
  wide_ptr (value (Value.ptr ptr) (value v1 no_value)) =
      unwrap (from_value v1) >>= λ meta. ret (Value.ptr (widen ptr.thin_pointer (some meta)))
  wide_ptr _ = panics

  abbrev pub decode_ptr_of : PointerMetaKind → PtrType → List (AbstractByte P) → Outcome (Value P)
  decode_ptr_of element_count p bytes = decode_pair bytes >>= λ parts. wide_ptr parts
  decode_ptr_of thin p bytes = decode_thin p bytes

  unfoldable pub encode_pair : ThinPointer P → PointerMeta → Outcome (List (AbstractByte P))
  unfolding encode_ptr encode_int
  encode_pair ptr (count i) = encode_ptr ptr >>= λ part0.
      (write_subslice_at_index (replicate (2 * ptr_size) uninit) 0 part0 >>= λ bytes.
      (encode_int u_size i >>= λ part1. write_subslice_at_index bytes ptr_size part1))

  abbrev pub encode_ptr_of : PointerMetaKind → Pointer P → Outcome (List (AbstractByte P))
  encode_ptr_of element_count p = unwrap p.metadata >>= λ meta. encode_pair p.thin_pointer meta
  encode_ptr_of thin p = elim p.metadata [ none ↦ encode_ptr p.thin_pointer | some meta ↦ panics ]

  unfoldable mutual
    unfolding decode_int

    pub decode_discriminant :
        (ℕ → ℕ → Outcome (List (AbstractByte P))) → Discriminator → Outcome (Option ℤ)
    decode_discriminant accessor (Discriminator.known val) = ret (some val)
    decode_discriminant accessor Discriminator.invalid = ret none
    decode_discriminant accessor (Discriminator.branch offset t fallback children) =
        accessor offset t.size >>= λ bytes.
        or_invalid (decode_int t bytes)
          (λ val. decode_child accessor children val (decode_discriminant accessor fallback))

    pub decode_child :
        (ℕ → ℕ → Outcome (List (AbstractByte P)))
        → Children
        → ℤ
        → Outcome (Option ℤ)
        → Outcome (Option ℤ)
    decode_child accessor Children.no_child val otherwise = otherwise
    decode_child accessor (Children.child (low, high) d children) val otherwise =
        if int_leb low val && int_ltb val high
        then decode_discriminant accessor d
        else decode_child accessor children val otherwise

  unfoldable pub encode_discriminant :
      {S : Type 0} → (ℕ → List (AbstractByte P) → S → Outcome S) → Tagger → S → Outcome S
  unfolding encode_int
  encode_discriminant accessor [] s = ret s
  encode_discriminant accessor ((offset, (t, i)) ∷ tagger) s = encode_int t i >>= λ bytes.
      (accessor offset bytes s >>= λ s'. encode_discriminant accessor tagger s')

  unfoldable mutual
    unfolding sized_size meta_kind_of_ptr decode_int decode_discriminant chunks_from read_chunks
        decode_each

    pub decode : Ty → List (AbstractByte P) → Outcome (Value P)
    decode Ty.bool bytes = decode_bool bytes
    decode (Ty.int t) bytes = decode_int t bytes >>= λ i. ret (Value.int i)
    decode (Ty.ptr p) bytes = decode_ptr_of (meta_kind_of_ptr p) p bytes
    decode (Ty.tuple fields n align) bytes =
        if length bytes == n
        then (decode_fields fields bytes >>= λ vs. ret (Value.tuple vs))
        else ub
    decode (Ty.array elem k) bytes = sized_size elem >>= λ n.
        (unwrap (scale n k) >>= λ full_size.
        if length bytes == full_size
        then (chunks_from 0 (not_negative k) n bytes >>= λ chunks.
            (decode_each (λ chunk. decode elem chunk) chunks >>= λ vs. ret (Value.tuple vs)))
        else ub)
    decode (Ty.union fields chunks n align) bytes =
        if length bytes == n
        then (read_chunks chunks bytes >>= λ raw. ret (Value.union raw))
        else ub
    decode (Ty.enum variants t discriminator n align) bytes =
        if length bytes == n
        then (decode_discriminant (λ offset len. subslice_with_length bytes offset len)
              discriminator
            >>= λ d.
                (or_throw d >>= λ discriminant.
                (decode_variant variants discriminant bytes >>= λ v.
                ret (Value.variant discriminant v))))
        else ub
    decode (Ty.slice elem) bytes = panics

    pub decode_fields : Fields → List (AbstractByte P) → Outcome (Values P)
    decode_fields no_field bytes = ret no_value
    decode_fields (field offset ty fs) bytes = sized_size ty >>= λ n.
        (subslice_with_length bytes offset n >>= λ part.
        (decode ty part >>= λ v. (decode_fields fs bytes >>= λ vs. ret (value v vs))))

    -- `variants[discriminant].ty.decode(bytes)`
    pub decode_variant : Variants → ℤ → List (AbstractByte P) → Outcome (Value P)
    decode_variant no_variant discriminant bytes = panics
    decode_variant (variant d ty tagger vs) discriminant bytes =
        if d ==ℤ discriminant then decode ty bytes else decode_variant vs discriminant bytes

  unfoldable mutual
    unfolding sized_size meta_kind_of_ptr encode_int encode_discriminant write_chunks encode_each

    pub encode : Ty → Value P → Outcome (List (AbstractByte P))
    encode Ty.bool (Value.bool b) = ret (init (if b then 1 else 0) none ∷ [])
    encode (Ty.int t) (Value.int i) = encode_int t i
    encode (Ty.ptr p) (Value.ptr ptr) = encode_ptr_of (meta_kind_of_ptr p) ptr
    encode (Ty.tuple fields n align) (Value.tuple vs) =
        if count_values vs == count_fields fields
        then encode_fields fields vs (replicate n uninit)
        else panics
    encode (Ty.array elem k) (Value.tuple vs) =
        if pos (count_values vs) ==ℤ k
        then encode_each (sized_size elem) (λ v. encode elem v) vs
        else panics
    encode (Ty.union fields chunks n align) (Value.union raw) =
        if length raw == length chunks then write_chunks chunks raw (replicate n uninit) else panics
    encode (Ty.enum variants t discriminator n align) (Value.variant discriminant raw) =
        encode_variant variants discriminant raw
    encode _ _ = panics

    pub encode_fields : Fields → Values P → List (AbstractByte P) → Outcome (List (AbstractByte P))
    encode_fields (field offset ty fs) (value v vs) bytes = encode ty v >>= λ part.
        (write_subslice_at_index bytes offset part >>= λ bytes'. encode_fields fs vs bytes')
    encode_fields no_field _ bytes = ret bytes
    encode_fields (field offset ty fs) no_value bytes = ret bytes

    pub encode_variant : Variants → ℤ → Value P → Outcome (List (AbstractByte P))
    encode_variant no_variant discriminant raw = panics
    encode_variant (variant d ty tagger vs) discriminant raw =
        if d ==ℤ discriminant
        then (encode ty raw >>= λ bytes.
            encode_discriminant (λ offset part b. write_subslice_at_index b offset part) tagger
              bytes)
        else encode_variant vs discriminant raw

  abbrev same_size : Outcome ℕ → Outcome ℕ → Bool
  same_size (ret m) (ret n) = m == n
  same_size _ _ = false

  unfoldable pub transmute : Value P → Ty → Ty → Outcome (Value P)
  unfolding decode encode sized_size
  transmute v type1 type2 =
      if same_size (sized_size type1) (sized_size type2)
      then (encode type1 v >>= λ bytes. decode type2 bytes)
      else panics

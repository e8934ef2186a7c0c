-- ===== src/Lang/Representation/Pointers.antt =====
-- Pointers that are encoded and decoded again (spec/lang/representation.md), and which of them are
-- well-formed (spec/lang/well-formed.md).
use minirust_contrib_fork.Prelude.{
  ℕ, suc, ==_refl, ◌*◌, Bool, true, false, ◌||◌, Option, none, some, List, [], ◌∷◌, ◌≡◌, ◌∙◌, refl,
  ap, arith, length, replicate, if◌then◌else◌,
}
use minirust_contrib_fork.Prelude.Int.{ℤ}
use minirust_contrib_fork.Prelude.Outcome.{ret, ub, ◌>>=◌}
use minirust_contrib_fork.Prelude.Slices.{
  index, subslice_with_length, write_total, length-write, subslice-write_self,
  subslice-write_before,
}
use minirust_contrib_fork.Mem.Pointer.{
  AbstractByte, uninit, init, byte_data, byte_provenance, ThinPointer, Pointer, PointerMeta, count,
  matches, safe_pointee, addr_valid, widen,
}
use minirust_contrib_fork.Lang.Types.{
  unsigned, IntType, PtrType, PointerMetaKind, thin, element_count, Ty, ptr_size, meta_kind_of_ptr,
}
use minirust_contrib_fork.Lang.Value.{Value, same_provenance}
use minirust_contrib_fork.Lang.Endianness.{Endianness, Laws}
use minirust_contrib_fork.Lang.Bytes.{all_data, with_provenance, common_provenance, from_value}
use minirust_contrib_fork.Lang.Representation.{
  thin_raw, u_size, decode_int, decode_ptr, decode_thin, decode_pair, decode_ptr_of, decode,
  wide_ptr, encode_int, encode_ptr, encode_pair, encode_ptr_of, encode,
}
use minirust_contrib_fork.Lang.Representation.Order.{IsEquality}
use minirust_contrib_fork.Lang.Representation.WellFormed.{check_wf}

abbrev pub is_wide : PointerMetaKind → Bool
is_wide thin = false
is_wide element_count = true

abbrev pub MetaInBounds : Endianness → Option PointerMeta → Type 0
MetaInBounds E none = Unit
MetaInBounds E (some (count i)) = E.in_bounds unsigned ptr_size i ≡ true

module _ {P : Type 0} where
  all_data-with_provenance :
      (provenance : Option P) (raw : List ℕ) → all_data (with_provenance provenance raw) ≡ ret raw
  unfolding all_data with_provenance byte_data
  all_data-with_provenance provenance [] = refl
  all_data-with_provenance provenance (d ∷ raw) = rw (all_data-with_provenance provenance raw) refl

  length-with_provenance :
      (provenance : Option P) (raw : List ℕ) → length (with_provenance provenance raw) ≡ length raw
  unfolding with_provenance
  length-with_provenance provenance [] = refl
  length-with_provenance provenance (d ∷ raw) = ap suc (length-with_provenance provenance raw)

  -- The provenance of the first byte.
  index-with_provenance :
      (provenance : Option P) (raw : List ℕ) (n : ℕ)
      → length raw ≡ suc n
      → (b : AbstractByte P) × (index (with_provenance provenance raw) 0 ≡ ret b)
        × (byte_provenance b ≡ provenance)
  unfolding index with_provenance byte_provenance
  index-with_provenance provenance [] n e = absurd (omega (arith, e))
  index-with_provenance provenance (d ∷ raw) n e = (init d provenance, refl, refl)

module _ {P : Type 0} (E : Endianness) (same : P → P → Bool) (laws : Laws E) where
  -- The integers that are encoded are in bounds.
  pub decode_int-encode_int :
      (t : IntType) (i : ℤ)
      → E.in_bounds t.signed t.size i ≡ true
      → (bytes : List (AbstractByte P)) × (encode_int E same t i ≡ ret bytes)
        × (length bytes ≡ t.size)
        × (decode_int E same t bytes ≡ ret i)
  unfolding encode_int decode_int
  decode_int-encode_int t i bound =
      let q = laws.encode_in_bounds t.signed t.size i bound in
      let len =
        length-with_provenance {P = P} none q.0 ∙ laws.encode_length t.signed t.size i q.1 in
      (
        with_provenance none q.0,
        rw q.1 refl,
        len,
        rw len (
            rw (==_refl t.size) (
              rw (all_data-with_provenance {P = P} none q.0)
                (ap ret (laws.decode_encode t.signed t.size i q.1)))),
      )

  module _ (eq : IsEquality same) where
    same_provenance_refl :
        (provenance : Option P) → same_provenance same provenance provenance ≡ true
    same_provenance_refl none = refl
    same_provenance_refl (some p) = (eq p p).1 refl

    common-with_provenance :
        (provenance : Option P) (raw : List ℕ)
        → common_provenance same provenance (with_provenance provenance raw) ≡ provenance
    unfolding common_provenance with_provenance byte_provenance
    common-with_provenance provenance [] = refl
    common-with_provenance provenance (d ∷ raw) =
        ap
          (λ test.
            common_provenance same (if test then provenance else none)
              (with_provenance provenance raw))
          (same_provenance_refl provenance)
        ∙ common-with_provenance provenance raw

    decode_ptr-encode_ptr :
        (ptr : ThinPointer P)
        → E.in_bounds unsigned ptr_size ptr.addr ≡ true
        → (bytes : List (AbstractByte P)) × (encode_ptr E same ptr ≡ ret bytes)
          × (length bytes ≡ ptr_size)
          × (decode_ptr E same bytes ≡ ret ptr)
    unfolding encode_ptr decode_ptr
    decode_ptr-encode_ptr ptr bound =
        let q = laws.encode_in_bounds unsigned ptr_size ptr.addr bound in
        let raw_len = laws.encode_length unsigned ptr_size ptr.addr q.1 in
        let len = length-with_provenance ptr.provenance q.0 ∙ raw_len in
        let first = index-with_provenance ptr.provenance q.0 7 raw_len in
        (
          with_provenance ptr.provenance q.0,
          rw q.1 refl,
          len,
          rw len (
              rw (all_data-with_provenance ptr.provenance q.0) (
                rw first.1 (
                  rw first.2 (
                    rw (common-with_provenance ptr.provenance q.0)
                      (rw (laws.decode_encode unsigned ptr_size ptr.addr q.1) refl))))),
        )

    decode_thin-encode_ptr :
        (p : PtrType) (ptr : ThinPointer P)
        → E.in_bounds unsigned ptr_size ptr.addr ≡ true
        → (bytes : List (AbstractByte P)) × (encode_ptr E same ptr ≡ ret bytes)
          × (length bytes ≡ ptr_size)
          × (decode_thin E same p bytes
              ≡ (if addr_valid p ptr.addr then ret (Value.ptr (widen ptr none)) else ub))
    unfolding decode_thin
    decode_thin-encode_ptr p ptr bound =
        let q = decode_ptr-encode_ptr ptr bound in (q.0, q.1, q.2, rw q.3 refl)

    -- Where the two halves of a wide pointer are.
    decode_pair-halves :
        (ptr : ThinPointer P) (i : ℤ) (bytes part0 part1 : List (AbstractByte P))
        → length bytes ≡ 2 * ptr_size
        → subslice_with_length bytes 0 ptr_size ≡ ret part0
        → subslice_with_length bytes ptr_size ptr_size ≡ ret part1
        → decode_thin E same thin_raw part0 ≡ ret (Value.ptr (widen ptr none))
        → decode_int E same u_size part1 ≡ ret i
        → (decode_pair E same bytes >>= λ parts. wide_ptr E same parts)
          ≡ ret (Value.ptr (widen ptr (some (count i))))
    unfolding decode_pair from_value widen
    decode_pair-halves ptr i bytes part0 part1 len at0 at1 thin_eq int_eq =
        rw len (rw at0 (rw thin_eq (rw at1 (rw int_eq refl))))

    decode_pair-encode_pair :
        (ptr : ThinPointer P) (i : ℤ)
        → E.in_bounds unsigned ptr_size ptr.addr ≡ true
        → E.in_bounds unsigned ptr_size i ≡ true
        → (bytes : List (AbstractByte P)) × (encode_pair E same ptr (count i) ≡ ret bytes)
          × ((decode_pair E same bytes >>= λ parts. wide_ptr E same parts)
              ≡ ret (Value.ptr (widen ptr (some (count i)))))
    unfolding encode_pair addr_valid safe_pointee
    decode_pair-encode_pair ptr i bound count_bound =
        let (part0, enc0, len0, dec0) = decode_thin-encode_ptr thin_raw ptr bound in
        let (part1, enc1, len1, dec1) = decode_int-encode_int u_size i count_bound in
        let blank : List (AbstractByte P) = replicate (2 * ptr_size) uninit in
        let blank_len : length blank ≡ 2 * ptr_size = refl in
        let (half, write0) = write_total blank 0 part0 (omega (arith, len0, blank_len)) in
        let half_len = length-write blank 0 part0 write0 in
        let (bytes, write1) =
          write_total half ptr_size part1 (omega (arith, len1, half_len, blank_len)) in
        let bytes_len = length-write half ptr_size part1 write1 in
        (
          bytes,
          rw enc0 (rw write0 (rw enc1 write1)),
          decode_pair-halves ptr i bytes part0 part1 (bytes_len ∙ half_len ∙ blank_len)
              (subslice-write_before half ptr_size part1 0 ptr_size (omega arith) write1
                ∙ (rw len0 at (subslice-write_self blank 0 part0 write0)))
              (rw len1 at (subslice-write_self half ptr_size part1 write1)) dec0 dec1,
        )

    kind_round_trip :
        (kind : PointerMetaKind) (p : PtrType) (ptr : ThinPointer P) (metadata : Option PointerMeta)
        → matches kind metadata ≡ true
        → E.in_bounds unsigned ptr_size ptr.addr ≡ true
        → MetaInBounds E metadata
        → (bytes : List (AbstractByte P)) × (encode_ptr_of E same kind (widen ptr metadata)
            ≡ ret bytes)
          × (decode_ptr_of E same kind p bytes ≡ (
              if is_wide kind || addr_valid p ptr.addr
              then ret (Value.ptr (widen ptr metadata))
              else ub))
    unfolding matches widen
    kind_round_trip thin p ptr none fits bound meta_bound =
        let q = decode_thin-encode_ptr p ptr bound in (q.0, q.1, q.3)
    kind_round_trip thin p ptr (some meta) fits bound meta_bound = cc
    kind_round_trip element_count p ptr none fits bound meta_bound = cc
    kind_round_trip element_count p ptr (some (count i)) fits bound meta_bound =
        let q = decode_pair-encode_pair ptr i bound meta_bound in (q.0, q.1, q.2)

-- For a byte order with the stated laws and an equality test of provenances: a pointer whose
-- address and element count are in bounds, and whose metadata are of the kind of its type, is
-- encoded. Its bytes decode to the same pointer, with its provenance, where its address is valid
-- for the type or the type is wide, and else decoding is undefined behaviour; it is well-formed
-- exactly where its address is valid.
pub pointer_round_trip :
    {P : Type 0} (E : Endianness) (same : P → P → Bool)
    → Laws E
    → IsEquality same
    → (p : PtrType) (ptr : Pointer P) → matches (meta_kind_of_ptr p) ptr.metadata ≡ true
    → E.in_bounds unsigned ptr_size (ptr.thin_pointer).addr ≡ true
    → MetaInBounds E ptr.metadata
    → (bytes : List (AbstractByte P)) × (encode E same (Ty.ptr p) (Value.ptr ptr) ≡ ret bytes)
      × (decode E same (Ty.ptr p) bytes ≡ (
          if is_wide (meta_kind_of_ptr p) || addr_valid p (ptr.thin_pointer).addr
          then ret (Value.ptr ptr)
          else ub))
      × (check_wf E (Value.ptr ptr) (Ty.ptr p) ≡ addr_valid p (ptr.thin_pointer).addr)
unfolding encode decode check_wf widen
pointer_round_trip E same laws eq p ptr fits bound meta_bound =
    let q =
      kind_round_trip E same laws eq (meta_kind_of_ptr p) p ptr.thin_pointer ptr.metadata fits bound
        meta_bound in
    (q.0, q.1, q.2, rw fits (rw bound (ground arith)))

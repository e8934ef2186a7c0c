-- ===== src/Lang/Representation/Decoded.antt =====
-- Decoded values are well-formed, where no wide pointer has to be valid.
use minirust_contrib_fork.Prelude.{
  ==_refl, ◌⊎◌, ℕ, zero, suc, Bool, true, none, List, [], ◌∷◌, ◌≡◌, refl, sym, ap, ◌∙◌, arith,
  length, Bool-cases, inl, inr,
}
use minirust_contrib_fork.Prelude.Int.{ℤ, pos, negsuc, ◌==ℤ◌, int_leb}
use minirust_contrib_fork.Prelude.Outcome.{Outcome, ret, ◌>>=◌, >>=-eq-ret, ret_inj}
use minirust_contrib_fork.Prelude.Slices.{subslice_with_length, length-subslice}
use minirust_contrib_fork.Mem.Pointer.{
  AbstractByte, uninit, init, ThinPointer, matches, safe_pointee, addr_valid, widen,
}
use minirust_contrib_fork.Lang.Types.{
  unsigned, IntType, PtrType, PointerMetaKind, thin, element_count, Ty, Fields, no_field, field,
  Variants, no_variant, variant, ptr_size, meta_kind_of_ptr,
}
use minirust_contrib_fork.Lang.Value.{Value, Values, value, count_values}
use minirust_contrib_fork.Lang.Endianness.{Endianness, Laws}
use minirust_contrib_fork.Lang.Bytes.{read_chunks, decode_each, decode_bool}
use minirust_contrib_fork.Lang.Representation.{
  decode_int, decode_ptr, decode_ptr_of, decode, decode_fields, decode_variant, count_fields,
}
use minirust_contrib_fork.Lang.Representation.Order.{
  ValidBytes, all_data-AllBytes, subslice-ValidBytes,
}
use minirust_contrib_fork.Lang.Representation.Size.{length_test}
use minirust_contrib_fork.Lang.Representation.Scalars.{
  decode_int-IntRead, decode_ptr-PtrRead, decode_thin-eq-ret, decode_pair-PairRead,
}
use minirust_contrib_fork.Lang.Representation.Elements.{scale_pos, AreChunks, chunks_from-AreChunks}
use minirust_contrib_fork.Lang.Representation.Reads.{
  decode-ArrayRead, decode_fields-FieldRead, decode-EnumRead,
}
use minirust_contrib_fork.Lang.Representation.WellFormed.{
  check_wf, check_fields, check_variant, chunk_sizes, all_values,
}

-- No wide pointer has to be valid, and no array has a negative number of elements.
abbrev mutual
  pub HasRawWide : Ty → Type 0
  HasRawWide (Ty.ptr p) = (meta_kind_of_ptr p ≡ thin) ⊎ (safe_pointee p ≡ none)
  HasRawWide (Ty.tuple fields n align) = HaveRawWide fields
  HasRawWide (Ty.array elem k) = (int_leb (pos 0) k ≡ true) × HasRawWide elem
  HasRawWide (Ty.enum variants t d n align) = VariantsHaveRawWide variants
  HasRawWide _ = Unit

  HaveRawWide : Fields → Type 0
  HaveRawWide no_field = Unit
  HaveRawWide (field offset ty fs) = HasRawWide ty × HaveRawWide fs

  VariantsHaveRawWide : Variants → Type 0
  VariantsHaveRawWide no_variant = Unit
  VariantsHaveRawWide (variant d ty tagger vs) = HasRawWide ty × VariantsHaveRawWide vs

module _ {P : Type 0} (E : Endianness) (same : P → P → Bool) (laws : Laws E) where
  int-IsWf :
      (t : IntType) (bytes : List (AbstractByte P)) {i : ℤ}
      → ValidBytes bytes
      → decode_int E same t bytes ≡ ret i
      → E.in_bounds t.signed t.size i ≡ true
  int-IsWf t bytes valid e =
      let r = decode_int-IntRead E same t bytes e in
      let (all, len) = all_data-AllBytes bytes valid r.raw_eq in
      let within = laws.decode_in_bounds t.signed r.raw all in
      rw (sym r.int_eq) (rw (len ∙ r.size_eq) at within)

  address-IsWf :
      (bytes : List (AbstractByte P)) {ptr : ThinPointer P}
      → ValidBytes bytes
      → decode_ptr E same bytes ≡ ret ptr
      → E.in_bounds unsigned ptr_size ptr.addr ≡ true
  address-IsWf bytes valid e =
      let r = decode_ptr-PtrRead E same bytes e in
      let (all, len) = all_data-AllBytes bytes valid r.raw_eq in
      let within = laws.decode_in_bounds unsigned r.raw all in
      rw r.ptr_eq (rw (len ∙ r.size_eq) at within)

  any_address : (p : PtrType) (addr : ℤ) → safe_pointee p ≡ none → addr_valid p addr ≡ true
  unfolding addr_valid
  any_address p addr raw = rw raw refl

  ptr-IsWf :
      (kind : PointerMetaKind) (p : PtrType) (bytes : List (AbstractByte P)) {v : Value P}
      → meta_kind_of_ptr p ≡ kind
      → (meta_kind_of_ptr p ≡ thin) ⊎ (safe_pointee p ≡ none)
      → ValidBytes bytes
      → decode_ptr_of E same kind p bytes ≡ ret v
      → check_wf E v (Ty.ptr p) ≡ true
  unfolding check_wf widen matches
  ptr-IsWf thin p bytes kind_eq raw valid e =
      let r = decode_thin-eq-ret E same p bytes e in
      rw r.3 (rw kind_eq (rw r.2 (address-IsWf bytes valid r.1)))
  ptr-IsWf element_count p bytes kind_eq (inl is_thin) valid e = cc
  ptr-IsWf element_count p bytes kind_eq (inr raw) valid e =
      let r = decode_pair-PairRead E same bytes e in
      rw r.v_eq (
        rw kind_eq (
          rw (any_address p (r.ptr).addr raw) (
            address-IsWf r.part0 (subslice-ValidBytes bytes 0 ptr_size valid r.part0_eq) r.ptr_eq)))

  bool-IsWf :
      (bytes : List (AbstractByte P)) {v : Value P}
      → decode_bool bytes ≡ ret v
      → check_wf E v Ty.bool ≡ true
  unfolding check_wf
  bool-IsWf [] e = cc
  bool-IsWf (uninit ∷ []) e = cc
  bool-IsWf (uninit ∷ x ∷ bytes) e = cc
  bool-IsWf (init zero p ∷ []) e = rw (sym (ret_inj e)) refl
  bool-IsWf (init (suc zero) p ∷ []) e = rw (sym (ret_inj e)) refl
  bool-IsWf (init (suc (suc n)) p ∷ []) e = cc
  bool-IsWf (init zero p ∷ x ∷ bytes) e = cc
  bool-IsWf (init (suc zero) p ∷ x ∷ bytes) e = cc
  bool-IsWf (init (suc (suc n)) p ∷ x ∷ bytes) e = cc

  chunks-IsWf :
      (chunks : List (ℕ × ℕ)) (bytes : List (AbstractByte P)) {cs : List (List (AbstractByte P))}
      → read_chunks chunks bytes ≡ ret cs
      → (length cs ≡ length chunks) × (chunk_sizes cs chunks ≡ true)
  unfolding read_chunks
  chunks-IsWf [] bytes e = rw (sym (ret_inj e)) (refl, refl)
  chunks-IsWf ((offset, n) ∷ chunks) bytes e =
      let c =
        >>=-eq-ret (subslice_with_length bytes offset n)
          (λ c. (read_chunks chunks bytes >>= λ cs. ret (c ∷ cs))) e in
      let cs = >>=-eq-ret (read_chunks chunks bytes) (λ cs. ret (c.0 ∷ cs)) c.2 in
      let rest = chunks-IsWf chunks bytes cs.1 in
      rw (sym (ret_inj cs.2))
        (ap suc rest.0, rw ((length-subslice bytes offset n c.1).0) (rw (==_refl n) rest.1))

  each-IsWf :
      (n : ℕ) (check : Value P → Bool) (dec : List (AbstractByte P) → Outcome (Value P))
      (cs : List (List (AbstractByte P))) {vs : Values P}
      → ((c : List (AbstractByte P)) (v : Value P) → ValidBytes c → dec c ≡ ret v → check v ≡ true)
      → AreChunks n cs
      → decode_each dec cs ≡ ret vs
      → (count_values vs ≡ length cs) × (all_values check vs ≡ true)
  unfolding decode_each
  each-IsWf n check dec [] one good e = rw (sym (ret_inj e)) (refl, refl)
  each-IsWf n check dec (c ∷ cs) one good e =
      let v = >>=-eq-ret (dec c) (λ v. (decode_each dec cs >>= λ vs. ret (value v vs))) e in
      let vs = >>=-eq-ret (decode_each dec cs) (λ vs. ret (value v.0 vs)) v.2 in
      let rest = each-IsWf n check dec cs one good.2 vs.1 in
      rw (sym (ret_inj vs.2)) (ap suc rest.0, rw (one c v.0 good.1 v.1) rest.1)

  mutual
    unfolding decode check_wf

    type-IsWf :
        (ty : Ty) (bytes : List (AbstractByte P)) (v : Value P)
        → HasRawWide ty
        → ValidBytes bytes
        → decode E same ty bytes ≡ ret v
        → check_wf E v ty ≡ true
    type-IsWf Ty.bool bytes v raw valid e = bool-IsWf bytes e
    type-IsWf (Ty.int t) bytes v raw valid e =
        let i = >>=-eq-ret (decode_int E same t bytes) (λ i. ret (Value.int i)) e in
        rw (sym (ret_inj i.2)) (int-IsWf t bytes valid i.1)
    type-IsWf (Ty.ptr p) bytes v raw valid e =
        ptr-IsWf (meta_kind_of_ptr p) p bytes refl raw valid e
    type-IsWf (Ty.tuple fields n align) bytes v raw valid e =
        let (len, rest) =
          length_test (length bytes) n
            (decode_fields E same fields bytes >>= λ vs. ret (Value.tuple vs)) e in
        let vs = >>=-eq-ret (decode_fields E same fields bytes) (λ vs. ret (Value.tuple vs)) rest in
        let (count_eq, wf) = fields-IsWf fields bytes vs.0 raw valid vs.1 in
        rw (sym (ret_inj vs.2)) (rw count_eq (rw (==_refl (count_fields fields)) wf))
    type-IsWf (Ty.array elem (negsuc k)) bytes v raw valid e = absurd (ground (arith, raw.0))
    type-IsWf (Ty.array elem (pos k)) bytes v raw valid e =
        let r = decode-ArrayRead E same elem (pos k) bytes e in
        let (count_eq, good, flat) =
          chunks_from-AreChunks 0 k r.elem_size bytes valid (scale_pos r.elem_size k r.total_eq)
            r.chunks_eq in
        let wf =
          each-IsWf r.elem_size (λ v. check_wf E v elem) (λ c. decode E same elem c) r.chunks
            (λ c v valid e. type-IsWf elem c v raw.1 valid e) good r.values_eq in
        rw r.v_eq (rw (wf.0 ∙ count_eq) (rw (==_refl k) wf.1))
    type-IsWf (Ty.union fields chunks n align) bytes v raw valid e =
        let (len, rest) =
          length_test (length bytes) n (read_chunks chunks bytes >>= λ cs. ret (Value.union cs))
            e in
        let cs = >>=-eq-ret (read_chunks chunks bytes) (λ cs. ret (Value.union cs)) rest in
        let wf = chunks-IsWf chunks bytes cs.1 in
        rw (sym (ret_inj cs.2)) (rw wf.0 (rw (==_refl (length chunks)) wf.1))
    type-IsWf (Ty.enum variants t discriminator n align) bytes v raw valid e =
        let r = decode-EnumRead E same variants t discriminator n align bytes e in
        rw r.v_eq (variant-IsWf variants r.discriminant bytes r.content raw valid r.content_eq)
    type-IsWf (Ty.slice elem) bytes v raw valid e = cc

    fields-IsWf :
        (fields : Fields) (bytes : List (AbstractByte P)) (vs : Values P)
        → HaveRawWide fields
        → ValidBytes bytes
        → decode_fields E same fields bytes ≡ ret vs
        → (count_values vs ≡ count_fields fields) × (check_fields E vs fields ≡ true)
    fields-IsWf no_field bytes vs raw valid e = rw (sym (ret_inj e)) (refl, refl)
    fields-IsWf (field offset ty fs) bytes vs raw valid e =
        let r = decode_fields-FieldRead E same offset ty fs bytes e in
        let wf =
          type-IsWf ty r.part r.v raw.0
            (subslice-ValidBytes bytes offset r.field_size valid r.part_eq) r.v_eq in
        let (count_eq, wf') = fields-IsWf fs bytes r.rest raw.1 valid r.rest_eq in
        rw r.vs_eq (ap suc count_eq, rw wf wf')

    variant-IsWf :
        (variants : Variants) (d : ℤ) (bytes : List (AbstractByte P)) (v : Value P)
        → VariantsHaveRawWide variants
        → ValidBytes bytes
        → decode_variant E same variants d bytes ≡ ret v
        → check_variant E d v variants ≡ true
    variant-IsWf no_variant d bytes v raw valid e = cc
    variant-IsWf (variant k ty tagger vs) d bytes v raw valid e = elim (Bool-cases (k ==ℤ d)) [
      | inl here ↦ rw here (type-IsWf ty bytes v raw.0 valid (rw here at e))
      | inr other ↦ rw other (variant-IsWf vs d bytes v raw.1 valid (rw other at e))
    ]

  -- For a byte order with the stated laws and a type in which every wide pointer is raw and no array
  -- has a negative length: a value that bytes, each below 256, decode to is well-formed for the
  -- type.
  pub decode-IsWf :
      (ty : Ty) (bytes : List (AbstractByte P)) (v : Value P)
      → HasRawWide ty
      → ValidBytes bytes
      → decode E same ty bytes ≡ ret v
      → check_wf E v ty ≡ true
  decode-IsWf ty bytes v raw valid e = type-IsWf ty bytes v raw valid e

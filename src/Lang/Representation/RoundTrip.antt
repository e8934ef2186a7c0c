-- ===== src/Lang/Representation/RoundTrip.antt =====
-- Well-formed values that are encoded and decoded again (spec/lang/representation.md).
use minirust_contrib_fork.Prelude.{
  ℕ, ◌*◌, Bool, true, false, none, List, [], ◌∷◌, ◌≡◌, ◌∙◌, refl, sym, ap, arith, length, replicate,
  length-replicate, ==_refl, subst,
}
use minirust_contrib_fork.Prelude.Int.{ℤ, pos, negsuc}
use minirust_contrib_fork.Prelude.Outcome.{ret, ret_inj}
use minirust_contrib_fork.Mem.Pointer.{AbstractByte, uninit, init, Pointer, addr_valid, matches}
use minirust_contrib_fork.Lang.Types.{
  Ty, Fields, field, no_field, unsigned, PtrType, ptr_size, meta_kind_of_ptr, IntType,
}
use minirust_contrib_fork.Lang.Value.{Value, Values, no_value, value, count_values}
use minirust_contrib_fork.Lang.Endianness.{Endianness, Laws}
use minirust_contrib_fork.Lang.Representation.{decode, encode, count_fields, sized_size}
use minirust_contrib_fork.Lang.Representation.Order.{IsEquality}
use minirust_contrib_fork.Lang.Representation.Size.{decode-size}
use minirust_contrib_fork.Lang.Representation.Elements.{flatten}
use minirust_contrib_fork.Lang.Representation.Written.{
  ChunksLaid, read-write_chunks, length-flatten, chunks-flatten, decode-encode_each,
}
use minirust_contrib_fork.Lang.Representation.WellFormed.{check_wf, check_fields}
use minirust_contrib_fork.Lang.Representation.Pointers.{
  MetaInBounds, pointer_round_trip, decode_int-encode_int,
}
use minirust_contrib_fork.Lang.Representation.Laid.{
  IsLaid, AreLaid, CountsFit, AllFit, ComesBack, WrittenFields, field-Written, no_field-Written,
  tuple-ComesBack,
}

module _ {P : Type 0} (E : Endianness) (same : P → P → Bool) (laws : Laws E)
    (eq : IsEquality same) where
  bool-ComesBack : (b : Bool) → ComesBack E same Ty.bool (Value.bool b)
  unfolding encode decode
  bool-ComesBack true = (init 1 none ∷ [], refl, refl)
  bool-ComesBack false = (init 0 none ∷ [], refl, refl)

  int-ComesBack :
      (t : IntType) (i : ℤ)
      → E.in_bounds t.signed t.size i ≡ true
      → ComesBack E same (Ty.int t) (Value.int i)
  unfolding encode decode
  int-ComesBack t i bound =
      let (bytes, enc, len, dec) = decode_int-encode_int E same laws t i bound in
      (bytes, enc, rw dec refl)

  ptr-ComesBack :
      (p : PtrType) (ptr : Pointer P)
      → check_wf E (Value.ptr ptr) (Ty.ptr p) ≡ true
      → MetaInBounds E ptr.metadata
      → ComesBack E same (Ty.ptr p) (Value.ptr ptr)
  unfolding check_wf
  ptr-ComesBack p ptr wf fit =
      let fits : matches (meta_kind_of_ptr p) ptr.metadata ≡ true = ground (arith, wf) in
      let valid : addr_valid p (ptr.thin_pointer).addr ≡ true = ground (arith, wf) in
      let bound : E.in_bounds unsigned ptr_size (ptr.thin_pointer).addr ≡ true =
        ground (arith, wf) in
      let q = pointer_round_trip E same laws eq p ptr fits bound fit in
      (q.0, q.1, ground (arith, q.2, valid))

  union-ComesBack :
      (fields : Fields) (chunks : List (ℕ × ℕ)) (n align : ℕ) (raw : List (List (AbstractByte P)))
      → ChunksLaid n chunks
      → check_wf E (Value.union raw) (Ty.union fields chunks n align) ≡ true
      → ComesBack E same (Ty.union fields chunks n align) (Value.union raw)
  unfolding check_wf encode decode
  union-ComesBack fields chunks n align raw laid wf =
      let count_eq : length raw ≡ length chunks = ground (arith, wf) in
      let blank : List (AbstractByte P) = replicate n uninit in
      let blank_len : length blank ≡ n = length-replicate n uninit in
      let r =
        read-write_chunks chunks raw blank (subst (λ k. ChunksLaid k chunks) (sym blank_len) laid)
          count_eq (ground (arith, wf)) in
      (
        r.after,
        rw count_eq (rw (==_refl (length chunks)) r.after_eq),
        rw (r.length_eq ∙ blank_len) (rw (==_refl n) (rw r.read_eq refl)),
      )

  array-ComesBack :
      (elem : Ty) (k n : ℕ) (vs : Values P)
      → sized_size elem ≡ ret n
      → ((v : Value P) → check_wf E v elem ≡ true → CountsFit E v → ComesBack E same elem v)
      → check_wf E (Value.tuple vs) (Ty.array elem (pos k)) ≡ true
      → AllFit E vs
      → ComesBack E same (Ty.array elem (pos k)) (Value.tuple vs)
  unfolding check_wf encode decode
  array-ComesBack elem k n vs size_eq each wf fit =
      let count_eq : count_values vs ≡ k = ground (arith, wf) in
      let (cs, enc, cs_len, long, dec) =
        decode-encode_each n (sized_size elem) (λ v. check_wf E v elem)
          (λ chunk. decode E same elem chunk) (λ v. encode E same elem v) (λ v. CountsFit E v)
          (λ l. AllFit E l) vs size_eq (λ v rest h. h)
          (λ v h fits.
            let (c, enc, dec) = each v h fits in
            (c, enc, ret_inj (sym (decode-size E same elem c v dec) ∙ size_eq), dec))
          (ground (arith, wf)) fit in
      let len : length (flatten cs) ≡ n * k =
        length-flatten n cs long ∙ ap (λ m. n * m) (cs_len ∙ count_eq) in
      let chunks = rw (cs_len ∙ count_eq) at (chunks-flatten n cs long) in
      (
        flatten cs,
        rw count_eq (rw (==_refl k) enc),
        rw size_eq (rw len (rw (==_refl (n * k)) (rw chunks (rw dec refl)))),
      )

  mutual
    unfolding check_wf check_fields

    type-ComesBack :
        (ty : Ty) (v : Value P)
        → IsLaid ty
        → check_wf E v ty ≡ true
        → CountsFit E v
        → ComesBack E same ty v
    type-ComesBack (Ty.int t) (Value.int i) laid wf fit = int-ComesBack t i wf
    type-ComesBack Ty.bool (Value.bool b) laid wf fit = bool-ComesBack b
    type-ComesBack (Ty.ptr p) (Value.ptr ptr) laid wf fit = ptr-ComesBack p ptr wf fit
    type-ComesBack (Ty.tuple fields n align) (Value.tuple vs) laid wf fit =
        let blank : List (AbstractByte P) = replicate n uninit in
        let blank_len : length blank ≡ n = length-replicate n uninit in
        tuple-ComesBack E same fields n align vs (ground (arith, wf)) (
          fields-Written fields vs blank (ground (arith, wf))
            (subst (λ k. AreLaid k fields) (sym blank_len) laid) (ground (arith, wf)) fit)
    type-ComesBack (Ty.array elem (pos k)) (Value.tuple vs) laid wf fit =
        array-ComesBack elem k laid.0 vs laid.1 (λ v h f. type-ComesBack elem v laid.2 h f) wf fit
    type-ComesBack (Ty.union fields chunks n align) (Value.union raw) laid wf fit =
        union-ComesBack fields chunks n align raw laid wf
    type-ComesBack (Ty.array elem (negsuc k)) (Value.tuple vs) laid wf fit = cc
    type-ComesBack (Ty.enum variants t discriminator n align) v laid wf fit = absurd laid
    type-ComesBack (Ty.slice elem) v laid wf fit = absurd laid
    type-ComesBack _ _ laid wf fit = cc

    fields-Written :
        (fs : Fields) (vs : Values P) (bytes : List (AbstractByte P))
        → count_values vs ≡ count_fields fs
        → AreLaid (length bytes) fs
        → check_fields E vs fs ≡ true
        → AllFit E vs
        → WrittenFields E same fs vs bytes
    fields-Written no_field no_value bytes count_eq laid wf fit = no_field-Written E same bytes
    fields-Written no_field (value v vs) bytes count_eq laid wf fit =
        absurd (omega (arith, count_eq))
    fields-Written (field o ty fs) no_value bytes count_eq laid wf fit =
        absurd (omega (arith, count_eq))
    fields-Written (field o ty fs) (value v vs) bytes count_eq laid wf fit =
        let rest_wf : check_fields E vs fs ≡ true = ground (arith, wf) in
        field-Written E same o laid.0 ty fs v vs bytes laid.1 laid.2 laid.3
          (type-ComesBack ty v laid.4 (ground (arith, wf)) fit.0)
          (λ half half_len.
            fields-Written fs vs half (omega (arith, count_eq))
              (subst (λ k. AreLaid k fs) (sym half_len) laid.5) rest_wf fit.1)

-- For a byte order with the stated laws and an equality test of provenances: where a type holds no
-- enum and no slice, the fields of its tuples and the chunks of its unions lie within them and do
-- not overlap, and the fields of its tuples and the elements of its arrays are sized, each value
-- that is well-formed for the type, with the element counts of its pointers in bounds, is encoded,
-- and its bytes decode to the same value.
pub decode-encode :
    {P : Type 0} (E : Endianness) (same : P → P → Bool)
    → Laws E
    → IsEquality same
    → (ty : Ty) (v : Value P) → IsLaid ty
    → check_wf E v ty ≡ true
    → CountsFit E v
    → (bytes : List (AbstractByte P)) × (encode E same ty v ≡ ret bytes)
      × (decode E same ty bytes ≡ ret v)
decode-encode E same laws eq ty v laid wf fit = type-ComesBack E same laws eq ty v laid wf fit

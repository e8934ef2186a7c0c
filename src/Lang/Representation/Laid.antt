-- ===== src/Lang/Representation/Laid.antt =====
-- Types whose parts do not overlap, and their fields, written and read again
-- (spec/lang/representation.md).
use minirust_contrib_fork.Prelude.{
  ℕ, ◌+◌, ◌≤◌, Bool, List, ◌≡◌, ◌∙◌, refl, sym, arith, length, replicate, length-replicate, ==_refl,
  subst,
}
use minirust_contrib_fork.Prelude.Outcome.{ret, ret_inj}
use minirust_contrib_fork.Prelude.Slices.{
  subslice_with_length, write_total, length-write, subslice-write_self,
}
use minirust_contrib_fork.Mem.Pointer.{AbstractByte, uninit}
use minirust_contrib_fork.Lang.Types.{Ty, Fields, field, no_field}
use minirust_contrib_fork.Lang.Value.{Value, Values, no_value, value, count_values}
use minirust_contrib_fork.Lang.Endianness.{Endianness}
use minirust_contrib_fork.Lang.Representation.{
  decode, decode_fields, encode, encode_fields, count_fields, sized_size,
}
use minirust_contrib_fork.Lang.Representation.Size.{decode-size}
use minirust_contrib_fork.Lang.Representation.Written.{AreApart, ChunksLaid, subslice-write_apart}
use minirust_contrib_fork.Lang.Representation.Pointers.{MetaInBounds}

abbrev pub FieldsApart : ℕ → ℕ → Fields → Type 0
FieldsApart o n no_field = Unit
FieldsApart o n (field p ty fs) =
    (k : ℕ) × (sized_size ty ≡ ret k) × AreApart o n p k × FieldsApart o n fs

-- The parts of tuples and unions lie within them and do not overlap, the elements of arrays are
-- sized, and there are no enums and slices.
abbrev mutual
  pub IsLaid : Ty → Type 0
  IsLaid (Ty.tuple fields n align) = AreLaid n fields
  IsLaid (Ty.union fields chunks n align) = ChunksLaid n chunks
  IsLaid (Ty.array elem k) = (n : ℕ) × (sized_size elem ≡ ret n) × IsLaid elem
  IsLaid (Ty.enum variants t discriminator n align) = ⊥
  IsLaid (Ty.slice elem) = ⊥
  IsLaid _ = Unit

  pub AreLaid : ℕ → Fields → Type 0
  AreLaid n no_field = Unit
  AreLaid n (field o ty fs) =
      (k : ℕ) × (sized_size ty ≡ ret k)
      × (o + k ≤ n)
      × FieldsApart o k fs
      × IsLaid ty
      × AreLaid n fs

-- The element counts of the pointers in a value are in bounds.
abbrev mutual
  pub CountsFit : {P : Type 0} → Endianness → Value P → Type 0
  CountsFit E (Value.ptr ptr) = MetaInBounds E ptr.metadata
  CountsFit E (Value.tuple vs) = AllFit E vs
  CountsFit E (Value.variant discriminant content) = CountsFit E content
  CountsFit E _ = Unit

  pub AllFit : {P : Type 0} → Endianness → Values P → Type 0
  AllFit E no_value = Unit
  AllFit E (value v vs) = CountsFit E v × AllFit E vs

module _ {P : Type 0} (E : Endianness) (same : P → P → Bool) where
  -- The value is encoded, and decoded again.
  abbrev pub ComesBack : Ty → Value P → Type 0
  ComesBack ty v =
      (bytes : List (AbstractByte P)) × (encode E same ty v ≡ ret bytes)
      × (decode E same ty bytes ≡ ret v)

  -- Fields that are written into bytes, and the ranges that they leave alone.
  pub record WrittenFields (fs : Fields) (vs : Values P) (bytes : List (AbstractByte P))
      : Type 0 where
    pub after : List (AbstractByte P)
    pub after_eq : encode_fields E same fs vs bytes ≡ ret after
    pub length_eq : length after ≡ length bytes
    pub kept :
        (o n : ℕ)
        → FieldsApart o n fs
        → subslice_with_length after o n ≡ subslice_with_length bytes o n
    pub read_eq : decode_fields E same fs after ≡ ret vs

  -- One field before the others.
  pub field-Written :
      (o k : ℕ) (ty : Ty) (fs : Fields) (v : Value P) (vs : Values P)
      (bytes : List (AbstractByte P))
      → sized_size ty ≡ ret k
      → o + k ≤ length bytes
      → FieldsApart o k fs
      → ComesBack ty v
      → ((half : List (AbstractByte P)) → length half ≡ length bytes → WrittenFields fs vs half)
      → WrittenFields (field o ty fs) (value v vs) bytes
  unfolding encode_fields decode_fields
  field-Written o k ty fs v vs bytes size_eq fits apart (part, enc, dec) others =
      let len : length part ≡ k = ret_inj (sym (decode-size E same ty part v dec) ∙ size_eq) in
      let (half, e) = write_total bytes o part (omega (arith, len, fits)) in
      let half_len = length-write bytes o part e in
      let r = others half half_len in
      let own = rw len at (subslice-write_self bytes o part e) in
      record {
        after = r.after;
        after_eq = rw enc (rw e r.after_eq);
        length_eq = r.length_eq ∙ half_len;
        kept = λ p n h.
            r.kept p n h.3
            ∙ subslice-write_apart bytes part o p n
                (subst (λ x. AreApart p n o x) (ret_inj (sym h.1 ∙ size_eq) ∙ sym len) h.2) e;
        read_eq = rw size_eq (rw (r.kept o k apart ∙ own) (rw dec (rw r.read_eq refl)));
      }

  pub no_field-Written : (bytes : List (AbstractByte P)) → WrittenFields no_field no_value bytes
  unfolding encode_fields decode_fields
  no_field-Written bytes = record {
    after = bytes;
    after_eq = refl;
    length_eq = refl;
    kept = λ o n h. refl;
    read_eq = refl;
  }

  pub tuple-ComesBack :
      (fields : Fields) (n align : ℕ) (vs : Values P)
      → count_values vs ≡ count_fields fields
      → WrittenFields fields vs (replicate n uninit)
      → ComesBack (Ty.tuple fields n align) (Value.tuple vs)
  unfolding encode decode
  tuple-ComesBack fields n align vs count_eq r = (
    r.after,
    rw count_eq (rw (==_refl (count_fields fields)) r.after_eq),
    rw (r.length_eq ∙ length-replicate n uninit) (rw (==_refl n) (rw r.read_eq refl)),
  )

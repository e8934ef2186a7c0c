-- ===== src/Lang/Representation/Reads.antt =====
-- What `decode` read of an array, of a tuple and of an enum.
use minirust_contrib_fork.Prelude.{
  ==_refl, Option, none, some, ℕ, Bool, List, ◌≡◌, refl, sym, ap, ◌∙◌, length, ◌==◌, if◌then◌else◌,
}
use minirust_contrib_fork.Prelude.Outcome.{
  ret, ub, ◌>>=◌, >>=-eq-ret, ret_inj, unwrap, unwrap-eq-ret, or_throw,
}
use minirust_contrib_fork.Prelude.Slices.{subslice_with_length}
use minirust_contrib_fork.Prelude.Int.{ℤ}
use minirust_contrib_fork.Lang.Types.{Ty, scale, Fields, field, Variants, Discriminator, IntType}
use minirust_contrib_fork.Lang.Endianness.{Endianness}
use minirust_contrib_fork.Lang.Representation.{
  decode, decode_fields, decode_discriminant, decode_variant, sized_size, not_negative,
}
use minirust_contrib_fork.Lang.Representation.Size.{length_test}
use minirust_contrib_fork.Mem.Pointer.{AbstractByte}
use minirust_contrib_fork.Lang.Value.{Value, Values, value}
use minirust_contrib_fork.Lang.Bytes.{chunks_from, decode_each}

or_throw-eq-ret : {A : Type 0} (o : Option A) {a : A} → or_throw o ≡ ret a → o ≡ some a
or_throw-eq-ret none e = cc
or_throw-eq-ret (some a) e = cc

module _ {P : Type 0} (E : Endianness) (same : P → P → Bool) where
  -- What `decode` read of an array.
  pub record ArrayRead (elem : Ty) (k : ℤ) (bytes : List (AbstractByte P)) (v : Value P)
      : Type 0 where
    pub elem_size : ℕ
    pub size_eq : sized_size elem ≡ ret elem_size
    pub total_eq : scale elem_size k ≡ some (length bytes)
    pub chunks : List (List (AbstractByte P))
    pub chunks_eq : chunks_from 0 (not_negative k) elem_size bytes ≡ ret chunks
    pub values : Values P
    pub values_eq : decode_each (λ c. decode E same elem c) chunks ≡ ret values
    pub v_eq : v ≡ Value.tuple values

  pub decode-ArrayRead :
      (elem : Ty) (k : ℤ) (bytes : List (AbstractByte P)) {v : Value P}
      → decode E same (Ty.array elem k) bytes ≡ ret v
      → ArrayRead elem k bytes v
  unfolding decode
  decode-ArrayRead elem k bytes {v} e =
      let n =
        >>=-eq-ret (sized_size elem)
          (λ n.
            (unwrap (scale n k) >>= λ total.
            if length bytes == total
            then (chunks_from 0 (not_negative k) n bytes >>= λ cs.
                (decode_each (λ c. decode E same elem c) cs >>= λ vs. ret (Value.tuple vs)))
            else ub))
          e in
      let total =
        >>=-eq-ret (unwrap (scale n.0 k))
          (λ total.
            if length bytes == total
            then (chunks_from 0 (not_negative k) n.0 bytes >>= λ cs.
                (decode_each (λ c. decode E same elem c) cs >>= λ vs. ret (Value.tuple vs)))
            else ub)
          n.2 in
      let (len, rest) =
        length_test (length bytes) total.0
          (chunks_from 0 (not_negative k) n.0 bytes >>= λ cs.
            (decode_each (λ c. decode E same elem c) cs >>= λ vs. ret (Value.tuple vs)))
          total.2 in
      let cs =
        >>=-eq-ret (chunks_from 0 (not_negative k) n.0 bytes)
          (λ cs. (decode_each (λ c. decode E same elem c) cs >>= λ vs. ret (Value.tuple vs)))
          rest in
      let vs =
        >>=-eq-ret (decode_each (λ c. decode E same elem c) cs.0) (λ vs. ret (Value.tuple vs))
          cs.2 in
      record {
        elem_size = n.0;
        size_eq = n.1;
        total_eq = rw len (unwrap-eq-ret (scale n.0 k) total.1);
        chunks = cs.0;
        chunks_eq = cs.1;
        values = vs.0;
        values_eq = vs.1;
        v_eq = sym (ret_inj vs.2);
      }

  -- What `decode` read of a tuple with at least one field.
  pub record FieldRead (offset : ℕ) (ty : Ty) (fs : Fields) (bytes : List (AbstractByte P))
      (vs : Values P) : Type 0 where
    pub field_size : ℕ
    pub size_eq : sized_size ty ≡ ret field_size
    pub part : List (AbstractByte P)
    pub part_eq : subslice_with_length bytes offset field_size ≡ ret part
    pub v : Value P
    pub v_eq : decode E same ty part ≡ ret v
    pub rest : Values P
    pub rest_eq : decode_fields E same fs bytes ≡ ret rest
    pub vs_eq : vs ≡ value v rest

  pub decode_fields-FieldRead :
      (offset : ℕ) (ty : Ty) (fs : Fields) (bytes : List (AbstractByte P)) {vs : Values P}
      → decode_fields E same (field offset ty fs) bytes ≡ ret vs
      → FieldRead offset ty fs bytes vs
  unfolding decode
  decode_fields-FieldRead offset ty fs bytes e =
      let n =
        >>=-eq-ret (sized_size ty)
          (λ n.
            (subslice_with_length bytes offset n >>= λ part.
            (decode E same ty part >>= λ v.
            (decode_fields E same fs bytes >>= λ vs. ret (value v vs)))))
          e in
      let part =
        >>=-eq-ret (subslice_with_length bytes offset n.0)
          (λ part.
            (decode E same ty part >>= λ v.
            (decode_fields E same fs bytes >>= λ vs. ret (value v vs))))
          n.2 in
      let v =
        >>=-eq-ret (decode E same ty part.0)
          (λ v. (decode_fields E same fs bytes >>= λ vs. ret (value v vs))) part.2 in
      let rest = >>=-eq-ret (decode_fields E same fs bytes) (λ vs. ret (value v.0 vs)) v.2 in
      record {
        field_size = n.0;
        size_eq = n.1;
        part = part.0;
        part_eq = part.1;
        v = v.0;
        v_eq = v.1;
        rest = rest.0;
        rest_eq = rest.1;
        vs_eq = sym (ret_inj rest.2);
      }

  pub FieldRead-decode_fields :
      (offset : ℕ) (ty : Ty) (fs : Fields) (bytes : List (AbstractByte P)) {n : ℕ}
      {part : List (AbstractByte P)} {v : Value P} {rest : Values P}
      → sized_size ty ≡ ret n
      → subslice_with_length bytes offset n ≡ ret part
      → decode E same ty part ≡ ret v
      → decode_fields E same fs bytes ≡ ret rest
      → decode_fields E same (field offset ty fs) bytes ≡ ret (value v rest)
  unfolding decode
  FieldRead-decode_fields offset ty fs bytes size_eq part_eq v_eq rest_eq =
      rw size_eq (rw part_eq (rw v_eq (rw rest_eq refl)))

  -- What `decode` read of an enum.
  pub record EnumRead (variants : Variants) (d : Discriminator) (n : ℕ)
      (bytes : List (AbstractByte P)) (v : Value P) : Type 0 where
    pub length_eq : length bytes ≡ n
    pub discriminant : ℤ
    pub discriminant_eq :
        decode_discriminant E same (λ offset len. subslice_with_length bytes offset len) d
        ≡ ret (some discriminant)
    pub content : Value P
    pub content_eq : decode_variant E same variants discriminant bytes ≡ ret content
    pub v_eq : v ≡ Value.variant discriminant content

  pub decode-EnumRead :
      (variants : Variants) (t : IntType) (d : Discriminator) (n align : ℕ)
      (bytes : List (AbstractByte P)) {v : Value P}
      → decode E same (Ty.enum variants t d n align) bytes ≡ ret v
      → EnumRead variants d n bytes v
  unfolding decode
  decode-EnumRead variants t d n align bytes e =
      let read =
        decode_discriminant E same (λ offset len. subslice_with_length bytes offset len) d in
      let (len, rest) =
        length_test (length bytes) n
          (read >>= λ d.
            (or_throw d >>= λ discriminant.
            (decode_variant E same variants discriminant bytes >>= λ v.
            ret (Value.variant discriminant v))))
          e in
      let q =
        >>=-eq-ret read
          (λ d.
            (or_throw d >>= λ discriminant.
            (decode_variant E same variants discriminant bytes >>= λ v.
            ret (Value.variant discriminant v))))
          rest in
      let i =
        >>=-eq-ret (or_throw q.0)
          (λ discriminant.
            (decode_variant E same variants discriminant bytes >>= λ v.
            ret (Value.variant discriminant v)))
          q.2 in
      let w =
        >>=-eq-ret (decode_variant E same variants i.0 bytes) (λ v. ret (Value.variant i.0 v))
          i.2 in
      record {
        length_eq = len;
        discriminant = i.0;
        discriminant_eq = q.1 ∙ ap ret (or_throw-eq-ret q.0 i.1);
        content = w.0;
        content_eq = w.1;
        v_eq = sym (ret_inj w.2);
      }

  pub EnumRead-decode :
      (variants : Variants) (t : IntType) (d : Discriminator) (n align : ℕ)
      (bytes : List (AbstractByte P)) {i : ℤ} {v : Value P}
      → length bytes ≡ n
      → decode_discriminant E same (λ offset len. subslice_with_length bytes offset len) d
        ≡ ret (some i)
      → decode_variant E same variants i bytes ≡ ret v
      → decode E same (Ty.enum variants t d n align) bytes ≡ ret (Value.variant i v)
  unfolding decode
  EnumRead-decode variants t d n align bytes len tag content =
      rw len (rw (==_refl n) (rw tag (rw content refl)))

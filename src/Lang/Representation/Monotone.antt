-- ===== src/Lang/Representation/Monotone.antt =====
-- Decoding more defined bytes gives a more defined value.
use minirust_contrib_fork.Prelude.{
  ==_refl, ℕ, zero, suc, ◌*◌, Bool, true, false, ◌&&◌, Option, none, some, List, [], ◌∷◌, ◌≡◌, refl,
  sym, ◌∙◌, arith, length, Bool-cases, inl, inr,
}
use minirust_contrib_fork.Prelude.Int.{==ℤ_refl, ℤ, ◌==ℤ◌, int_leb, int_ltb}
use minirust_contrib_fork.Prelude.Outcome.{Outcome, ret, ub, panics, ◌>>=◌, >>=-eq-ret, ret_inj}
use minirust_contrib_fork.Prelude.Slices.{subslice_with_length}
use minirust_contrib_fork.Mem.Pointer.{
  AbstractByte, uninit, init, ThinPointer, count, addr_valid, safe_pointee, widen,
}
use minirust_contrib_fork.Lang.Types.{
  Discriminator, Children, Ty, Fields, no_field, field, Variants, no_variant, variant, PtrType,
  PointerMetaKind, thin, element_count, ptr_size, scale, meta_kind_of_ptr,
}
use minirust_contrib_fork.Lang.Value.{
  Value, Values, no_value, value, le_defined, values_le_defined, chunks_le_defined,
}
use minirust_contrib_fork.Lang.Endianness.{Endianness}
use minirust_contrib_fork.Lang.Bytes.{
  chunks_from, read_chunks, decode_each, from_value, decode_bool,
}
use minirust_contrib_fork.Lang.Representation.{
  decode_int, decode_ptr, decode_thin, decode_pair, decode_ptr_of, wide_ptr, decode_discriminant,
  decode_child, decode, decode_fields, decode_variant, or_invalid, not_negative, thin_raw, u_size,
}
use minirust_contrib_fork.Lang.Representation.Order.{Le, IsEquality, length-Le, subslice-Le}
use minirust_contrib_fork.Lang.Representation.Size.{length_test}
use minirust_contrib_fork.Lang.Representation.Scalars.{
  PairRead, decode_pair-PairRead, decode_thin-eq-ret,
}
use minirust_contrib_fork.Lang.Representation.Reads.{
  decode-ArrayRead, decode_fields-FieldRead, FieldRead-decode_fields, decode-EnumRead,
  EnumRead-decode,
}
use minirust_contrib_fork.Lang.Representation.More.{init-Le, decode_int-Le, decode_ptr-Le}

-- A choice by an integer that was read from memory, or by nothing.
or_invalid-some :
    (o : Outcome ℤ) (f : ℤ → Outcome (Option ℤ)) {b : ℤ}
    → or_invalid o f ≡ ret (some b)
    → (a : ℤ) × (o ≡ ret a) × (f a ≡ ret (some b))
or_invalid-some (ret a) f e = (a, refl, e)
or_invalid-some ub f e = cc
or_invalid-some panics f e = cc

module _ {P : Type 0} (E : Endianness) (same : P → P → Bool) (eq : IsEquality same) where
  -- The second outcome is a value, and more defined than the first.
  abbrev Higher : Value P → Outcome (Value P) → Type 0
  Higher v o = (w : Value P) × (o ≡ ret w) × (le_defined same v w ≡ true)

  thin-Higher :
      (p : PtrType) (xs ys : List (AbstractByte P)) {v : Value P}
      → Le same xs ys
      → decode_thin E same p xs ≡ ret v
      → Higher v (decode_thin E same p ys)
  unfolding decode_thin widen
  thin-Higher p xs ys le e =
      let r = decode_thin-eq-ret E same p xs e in
      let q = decode_ptr-Le E same eq xs ys le r.1 in
      let valid : addr_valid p (q.0).addr ≡ true = rw q.2 r.2 in
      (
        Value.ptr (widen q.0 none),
        rw q.1 (rw valid refl),
        rw r.3 (rw q.2 (rw (==ℤ_refl (r.0).addr) (rw q.3 refl))),
      )

  thin_raw-again :
      (bytes : List (AbstractByte P)) {ptr : ThinPointer P}
      → decode_ptr E same bytes ≡ ret ptr
      → decode_thin E same thin_raw bytes ≡ ret (Value.ptr (widen ptr none))
  unfolding decode_thin addr_valid safe_pointee
  thin_raw-again bytes e = rw e refl

  chunks-Higher :
      (chunks : List (ℕ × ℕ)) (xs ys : List (AbstractByte P)) {cs : List (List (AbstractByte P))}
      → Le same xs ys
      → read_chunks chunks xs ≡ ret cs
      → (cs' : List (List (AbstractByte P))) × (read_chunks chunks ys ≡ ret cs')
        × (chunks_le_defined same cs cs' ≡ true)
  unfolding read_chunks
  chunks-Higher [] xs ys le e = ([], refl, rw (sym (ret_inj e)) refl)
  chunks-Higher ((offset, n) ∷ chunks) xs ys le e =
      let c =
        >>=-eq-ret (subslice_with_length xs offset n)
          (λ c. (read_chunks chunks xs >>= λ cs. ret (c ∷ cs))) e in
      let cs = >>=-eq-ret (read_chunks chunks xs) (λ cs. ret (c.0 ∷ cs)) c.2 in
      let c' = subslice-Le same xs ys offset n le c.1 in
      let cs' = chunks-Higher chunks xs ys le cs.1 in
      (c'.0 ∷ cs'.0, rw c'.1 (rw cs'.1 refl), rw (sym (ret_inj cs.2)) (rw c'.2 cs'.2))

  pair-Higher :
      (xs ys : List (AbstractByte P)) {v : Value P}
      → Le same xs ys
      → PairRead E same xs v
      → Higher v (decode_pair E same ys >>= λ parts. wide_ptr E same parts)
  unfolding decode_pair from_value widen
  pair-Higher xs ys le p =
      let part0' = subslice-Le same xs ys 0 ptr_size le p.part0_eq in
      let part1' = subslice-Le same xs ys ptr_size ptr_size le p.part1_eq in
      let q = decode_ptr-Le E same eq p.part0 part0'.0 part0'.2 p.ptr_eq in
      let again = thin_raw-again part0'.0 q.1 in
      let i' = decode_int-Le E same u_size p.part1 part1'.0 part1'.2 p.int_eq in
      let len : length ys ≡ 2 * ptr_size = sym (length-Le same xs ys le) ∙ p.size_eq in
      (
        Value.ptr (widen q.0 (some (count p.i))),
        rw len (rw part0'.1 (rw again (rw part1'.1 (rw i' refl)))),
        rw p.v_eq (rw q.2 (rw (==ℤ_refl (p.ptr).addr) (rw q.3 (==ℤ_refl p.i)))),
      )

  ptr-Higher :
      (kind : PointerMetaKind) (p : PtrType) (xs ys : List (AbstractByte P)) {v : Value P}
      → Le same xs ys
      → decode_ptr_of E same kind p xs ≡ ret v
      → Higher v (decode_ptr_of E same kind p ys)
  ptr-Higher thin p xs ys le e = thin-Higher p xs ys le e
  ptr-Higher element_count p xs ys le e = pair-Higher xs ys le (decode_pair-PairRead E same xs e)

  two_bytes :
      (d : ℕ) (p : Option P) (x : AbstractByte P) (xs : List (AbstractByte P)) {v : Value P}
      → decode_bool (init d p ∷ x ∷ xs) ≡ ret v
      → ⊥
  two_bytes zero p x xs e = cc
  two_bytes (suc zero) p x xs e = cc
  two_bytes (suc (suc n)) p x xs e = cc

  bool-Higher :
      (xs ys : List (AbstractByte P)) {v : Value P}
      → Le same xs ys
      → decode_bool xs ≡ ret v
      → Higher v (decode_bool ys)
  bool-Higher [] ys le e = cc
  bool-Higher (uninit ∷ []) ys le e = cc
  bool-Higher (uninit ∷ x ∷ xs) ys le e = cc
  bool-Higher (init d p ∷ x ∷ xs) ys le e = absurd (two_bytes d p x xs e)
  bool-Higher (init d p ∷ []) [] le e = cc
  bool-Higher (init d p ∷ []) (y ∷ z ∷ ys) le e = absurd (ground (arith, le))
  bool-Higher (init zero p ∷ []) (y ∷ []) le e =
      rw ((init-Le same 0 p y (ground (arith, le))).1)
        (Value.bool false, refl, rw (sym (ret_inj e)) refl)
  bool-Higher (init (suc zero) p ∷ []) (y ∷ []) le e =
      rw ((init-Le same 1 p y (ground (arith, le))).1)
        (Value.bool true, refl, rw (sym (ret_inj e)) refl)
  bool-Higher (init (suc (suc n)) p ∷ []) (y ∷ []) le e = cc

  -- Reading a tag again from more defined bytes gives the same discriminant.
  mutual
    unfolding decode_discriminant

    discriminant_again :
        (xs ys : List (AbstractByte P)) (d : Discriminator) {i : ℤ}
        → Le same xs ys
        → decode_discriminant E same (λ offset len. subslice_with_length xs offset len) d
          ≡ ret (some i)
        → decode_discriminant E same (λ offset len. subslice_with_length ys offset len) d
          ≡ ret (some i)
    discriminant_again xs ys (Discriminator.known val) le e = e
    discriminant_again xs ys Discriminator.invalid le e = e
    discriminant_again xs ys (Discriminator.branch offset t fallback children) le e =
        let part = >>=-eq-ret (subslice_with_length xs offset t.size) _ e in
        let val =
          or_invalid-some (decode_int E same t part.0)
            (λ val.
              decode_child E same (λ offset len. subslice_with_length xs offset len) children val
                (decode_discriminant E same (λ offset len. subslice_with_length xs offset len)
                  fallback))
            part.2 in
        let part' = subslice-Le same xs ys offset t.size le part.1 in
        rw part'.1 (
          rw (decode_int-Le E same t part.0 part'.0 part'.2 val.1) (
            child_again xs ys children val.0
              (decode_discriminant E same (λ offset len. subslice_with_length xs offset len)
                fallback)
              (decode_discriminant E same (λ offset len. subslice_with_length ys offset len)
                fallback)
              le (λ h. discriminant_again xs ys fallback le h) val.2))

    child_again :
        (xs ys : List (AbstractByte P)) (children : Children) (val : ℤ)
        (otherwise otherwise' : Outcome (Option ℤ)) {i : ℤ}
        → Le same xs ys
        → (otherwise ≡ ret (some i) → otherwise' ≡ ret (some i))
        → decode_child E same
            (λ offset len. subslice_with_length xs offset len)
            children
            val
            otherwise
          ≡ ret (some i)
        → decode_child E same
            (λ offset len. subslice_with_length ys offset len)
            children
            val
            otherwise'
          ≡ ret (some i)
    child_again xs ys Children.no_child val otherwise otherwise' le again e = again e
    child_again xs ys (Children.child (low, high) d children) val otherwise otherwise' le again e =
        elim (Bool-cases (int_leb low val && int_ltb val high)) [
          | inl here ↦ rw here (discriminant_again xs ys d le (rw here at e))
          | inr other ↦
              rw other
                (child_again xs ys children val otherwise otherwise' le again (rw other at e))
        ]

  -- The elements of an array.
  sublists-Higher :
      (i k n : ℕ) (xs ys : List (AbstractByte P)) {cs : List (List (AbstractByte P))}
      → Le same xs ys
      → chunks_from i k n xs ≡ ret cs
      → (cs' : List (List (AbstractByte P))) × (chunks_from i k n ys ≡ ret cs')
        × (chunks_le_defined same cs cs' ≡ true)
  unfolding chunks_from
  sublists-Higher i zero n xs ys le e = ([], refl, rw (sym (ret_inj e)) refl)
  sublists-Higher i (suc k) n xs ys le e =
      let c =
        >>=-eq-ret (subslice_with_length xs (i * n) n)
          (λ c. (chunks_from (suc i) k n xs >>= λ cs. ret (c ∷ cs))) e in
      let cs = >>=-eq-ret (chunks_from (suc i) k n xs) (λ cs. ret (c.0 ∷ cs)) c.2 in
      let c' = subslice-Le same xs ys (i * n) n le c.1 in
      let cs' = sublists-Higher (suc i) k n xs ys le cs.1 in
      (c'.0 ∷ cs'.0, rw c'.1 (rw cs'.1 refl), rw (sym (ret_inj cs.2)) (rw c'.2 cs'.2))

  each-Higher :
      (dec : List (AbstractByte P) → Outcome (Value P)) (cs cs' : List (List (AbstractByte P)))
      {vs : Values P}
      → ((xs ys : List (AbstractByte P)) (v : Value P)
          → Le same xs ys
          → dec xs ≡ ret v
          → Higher v (dec ys))
      → chunks_le_defined same cs cs' ≡ true
      → decode_each dec cs ≡ ret vs
      → (ws : Values P) × (decode_each dec cs' ≡ ret ws) × (values_le_defined same vs ws ≡ true)
  unfolding decode_each
  each-Higher dec [] [] one le e = (no_value, refl, rw (sym (ret_inj e)) refl)
  each-Higher dec [] (c' ∷ cs') one le e = cc
  each-Higher dec (c ∷ cs) [] one le e = cc
  each-Higher dec (c ∷ cs) (c' ∷ cs') one le e =
      let v = >>=-eq-ret (dec c) (λ v. (decode_each dec cs >>= λ vs. ret (value v vs))) e in
      let vs = >>=-eq-ret (decode_each dec cs) (λ vs. ret (value v.0 vs)) v.2 in
      let w = one c c' v.0 (ground (arith, le)) v.1 in
      let ws = each-Higher dec cs cs' one (ground (arith, le)) vs.1 in
      (value w.0 ws.0, rw w.1 (rw ws.1 refl), rw (sym (ret_inj vs.2)) (rw w.2 ws.2))

  more_values :
      (v w : Value P) (rest ws : Values P) {vs : Values P}
      → vs ≡ value v rest
      → le_defined same v w ≡ true
      → values_le_defined same rest ws ≡ true
      → values_le_defined same vs (value w ws) ≡ true
  more_values v w rest ws vs_eq le le' = rw vs_eq (rw le le')

  mutual
    unfolding decode

    type-Higher :
        (ty : Ty) (xs ys : List (AbstractByte P)) (v : Value P)
        → Le same xs ys
        → decode E same ty xs ≡ ret v
        → (w : Value P) × (decode E same ty ys ≡ ret w) × (le_defined same v w ≡ true)
    type-Higher Ty.bool xs ys v le e = bool-Higher xs ys le e
    type-Higher (Ty.int t) xs ys v le e =
        let i = >>=-eq-ret (decode_int E same t xs) (λ i. ret (Value.int i)) e in
        (
          Value.int i.0,
          rw (decode_int-Le E same t xs ys le i.1) refl,
          rw (sym (ret_inj i.2)) (==ℤ_refl i.0),
        )
    type-Higher (Ty.ptr p) xs ys v le e = ptr-Higher (meta_kind_of_ptr p) p xs ys le e
    type-Higher (Ty.tuple fields n align) xs ys v le e =
        let (len, rest) =
          length_test (length xs) n (decode_fields E same fields xs >>= λ vs. ret (Value.tuple vs))
            e in
        let vs = >>=-eq-ret (decode_fields E same fields xs) (λ vs. ret (Value.tuple vs)) rest in
        let ws = fields-Higher fields xs ys vs.0 le vs.1 in
        let len' : length ys ≡ n = sym (length-Le same xs ys le) ∙ len in
        (Value.tuple ws.0, rw len' (rw (==_refl n) (rw ws.1 refl)), rw (sym (ret_inj vs.2)) ws.2)
    type-Higher (Ty.array elem k) xs ys v le e =
        let r = decode-ArrayRead E same elem k xs e in
        let cs' = sublists-Higher 0 (not_negative k) r.elem_size xs ys le r.chunks_eq in
        let ws =
          each-Higher (λ c. decode E same elem c) r.chunks cs'.0
            (λ x y v le e. type-Higher elem x y v le e) cs'.2 r.values_eq in
        let total : scale r.elem_size k ≡ some (length ys) =
          rw (sym (length-Le same xs ys le)) r.total_eq in
        (
          Value.tuple ws.0,
          rw r.size_eq (rw total (rw (==_refl (length ys)) (rw cs'.1 (rw ws.1 refl)))),
          rw r.v_eq ws.2,
        )
    type-Higher (Ty.union fields chunks n align) xs ys v le e =
        let (len, rest) =
          length_test (length xs) n (read_chunks chunks xs >>= λ cs. ret (Value.union cs)) e in
        let cs = >>=-eq-ret (read_chunks chunks xs) (λ cs. ret (Value.union cs)) rest in
        let cs' = chunks-Higher chunks xs ys le cs.1 in
        let len' : length ys ≡ n = sym (length-Le same xs ys le) ∙ len in
        (Value.union cs'.0, rw len' (rw (==_refl n) (rw cs'.1 refl)), rw (sym (ret_inj cs.2)) cs'.2)
    type-Higher (Ty.enum variants t discriminator n align) xs ys v le e =
        let r = decode-EnumRead E same variants t discriminator n align xs e in
        let len : length ys ≡ n = sym (length-Le same xs ys le) ∙ r.length_eq in
        let w = variant-Higher variants r.discriminant xs ys r.content le r.content_eq in
        (
          Value.variant r.discriminant w.0,
          EnumRead-decode E same variants t discriminator n align ys len
              (discriminant_again xs ys discriminator le r.discriminant_eq) w.1,
          rw r.v_eq (rw (==ℤ_refl r.discriminant) w.2),
        )
    type-Higher (Ty.slice elem) xs ys v le e = cc

    fields-Higher :
        (fields : Fields) (xs ys : List (AbstractByte P)) (vs : Values P)
        → Le same xs ys
        → decode_fields E same fields xs ≡ ret vs
        → (ws : Values P) × (decode_fields E same fields ys ≡ ret ws)
          × (values_le_defined same vs ws ≡ true)
    fields-Higher no_field xs ys vs le e = (no_value, refl, rw (sym (ret_inj e)) refl)
    fields-Higher (field offset ty fs) xs ys vs le e =
        let r = decode_fields-FieldRead E same offset ty fs xs e in
        let part' = subslice-Le same xs ys offset r.field_size le r.part_eq in
        let w = type-Higher ty r.part part'.0 r.v part'.2 r.v_eq in
        let ws = fields-Higher fs xs ys r.rest le r.rest_eq in
        (
          value w.0 ws.0,
          FieldRead-decode_fields E same offset ty fs ys r.size_eq part'.1 w.1 ws.1,
          more_values r.v w.0 r.rest ws.0 r.vs_eq w.2 ws.2,
        )

    variant-Higher :
        (variants : Variants) (d : ℤ) (xs ys : List (AbstractByte P)) (v : Value P)
        → Le same xs ys
        → decode_variant E same variants d xs ≡ ret v
        → Higher v (decode_variant E same variants d ys)
    variant-Higher no_variant d xs ys v le e = cc
    variant-Higher (variant k ty tagger vs) d xs ys v le e = elim (Bool-cases (k ==ℤ d)) [
      | inl here ↦ rw here (type-Higher ty xs ys v le (rw here at e))
      | inr other ↦ rw other (variant-Higher vs d xs ys v le (rw other at e))
    ]

  -- For any byte order and an equality test of provenances: where bytes decode to a value at a type,
  -- more defined bytes decode to a more defined value at that type, enums included.
  pub decode-monotone :
      (ty : Ty) (xs ys : List (AbstractByte P)) (v : Value P)
      → Le same xs ys
      → decode E same ty xs ≡ ret v
      → (w : Value P) × (decode E same ty ys ≡ ret w) × (le_defined same v w ≡ true)
  decode-monotone ty xs ys v le e = type-Higher ty xs ys v le e

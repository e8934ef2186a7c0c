-- ===== src/Lang/Representation/Galois.antt =====
-- Decoding and encoding again makes the bytes less defined, and nothing else.
use minirust_contrib_fork.Prelude.{
  ==_refl, ℕ, zero, suc, ◌*◌, ◌+◌, Bool, true, none, some, List, [], ◌∷◌, ◌≡◌, refl, sym, subst, ap,
  ◌∙◌, arith, length, replicate,
}
use minirust_contrib_fork.Prelude.Int.{int_leb, ℤ, pos, negsuc}
use minirust_contrib_fork.Prelude.Outcome.{Outcome, ret, >>=-eq-ret, ret_inj}
use minirust_contrib_fork.Prelude.Slices.{subslice_with_length, length-subslice, subslice_all}
use minirust_contrib_fork.Mem.Pointer.{AbstractByte, uninit, init, Pointer, count, widen}
use minirust_contrib_fork.Lang.Types.{
  PtrType, PointerMetaKind, thin, element_count, Ty, Fields, field, no_field, ptr_size,
  meta_kind_of_ptr,
}
use minirust_contrib_fork.Lang.Value.{Value, Values, count_values}
use minirust_contrib_fork.Lang.Endianness.{Endianness, Laws}
use minirust_contrib_fork.Lang.Bytes.{read_chunks, write_chunks}
use minirust_contrib_fork.Lang.Representation.{
  u_size, decode_int, decode_ptr_of, encode_pair, encode_ptr_of, decode, decode_fields, encode,
  encode_fields, count_fields, sized_size,
}
use minirust_contrib_fork.Lang.Representation.Order.{
  ValidBytes, subslice-ValidBytes, Le, IsEquality, write-Le, replicate-Le, Le_refl,
}
use minirust_contrib_fork.Lang.Representation.Elements.{
  scale_pos, flatten, chunks_from-AreChunks, each-Lower,
}
use minirust_contrib_fork.Lang.Representation.Reads.{decode-ArrayRead}
use minirust_contrib_fork.Lang.Representation.Size.{length_test}
use minirust_contrib_fork.Lang.Representation.Scalars.{
  PairRead, decode_pair-PairRead, decode_thin-eq-ret, encode_decode_int, encode_decode_ptr,
}

-- The type holds no enum, and no array with a negative number of elements.
abbrev mutual
  pub IsPlain : Ty → Type 0
  IsPlain (Ty.tuple fields n align) = ArePlain fields
  IsPlain (Ty.array elem k) = (int_leb (pos 0) k ≡ true) × IsPlain elem
  IsPlain (Ty.enum variants t discriminator n align) = ⊥
  IsPlain _ = Unit

  ArePlain : Fields → Type 0
  ArePlain no_field = Unit
  ArePlain (field offset ty fs) = IsPlain ty × ArePlain fs

chunks_are_bytes :
    {P : Type 0} (k n : ℕ) (bytes all : List (AbstractByte P))
    → 0 * n + k * n ≡ length bytes
    → subslice_with_length bytes (0 * n) (k * n) ≡ ret all
    → all ≡ bytes
chunks_are_bytes k n bytes all total e =
    let at_0 : 0 * n ≡ 0 = omega arith in
    let len : k * n ≡ length bytes = omega arith in
    ret_inj (sym (rw len at (rw at_0 at e)) ∙ subslice_all bytes)

module _ {P : Type 0} (E : Endianness) (same : P → P → Bool) (laws : Laws E)
    (eq : IsEquality same) where
  -- What was written is less defined than what was read.
  abbrev Lower : Outcome (List (AbstractByte P)) → List (AbstractByte P) → Type 0
  Lower o bytes = (bytes' : List (AbstractByte P)) × (o ≡ ret bytes') × Le same bytes' bytes

  pair-Lower :
      (bytes : List (AbstractByte P)) {v : Value P}
      → ValidBytes bytes
      → (r : PairRead E same bytes v) → Lower (encode_pair E same r.ptr (count r.i)) bytes
  unfolding encode_pair
  pair-Lower bytes valid r =
      let low0 =
        encode_decode_ptr E same laws eq r.part0
          (subslice-ValidBytes bytes 0 ptr_size valid r.part0_eq) r.ptr_eq in
      let low1 =
        encode_decode_int E same laws eq u_size r.part1
          (subslice-ValidBytes bytes ptr_size ptr_size valid r.part1_eq) r.int_eq in
      let start =
        subst (λ n. Le same (replicate n uninit) bytes) r.size_eq (replicate-Le same bytes) in
      let w0 =
        write-Le same (replicate (2 * ptr_size) uninit) bytes 0 ptr_size low0.0 r.part0 start
          r.part0_eq low0.2 in
      let w1 = write-Le same w0.0 bytes ptr_size ptr_size low1.0 r.part1 w0.2 r.part1_eq low1.2 in
      (w1.0, rw low0.1 (rw w0.1 (rw low1.1 w1.1)), w1.2)

  ptr-Lower :
      (kind : PointerMetaKind) (p : PtrType) (bytes : List (AbstractByte P)) {v : Value P}
      → ValidBytes bytes
      → decode_ptr_of E same kind p bytes ≡ ret v
      → (ptr : Pointer P) × (v ≡ Value.ptr ptr) × Lower (encode_ptr_of E same kind ptr) bytes
  unfolding widen
  ptr-Lower thin p bytes valid e =
      let read = decode_thin-eq-ret E same p bytes e in
      (widen read.0 none, read.3, encode_decode_ptr E same laws eq bytes valid read.1)
  ptr-Lower element_count p bytes valid e =
      let r = decode_pair-PairRead E same bytes e in
      (widen r.ptr (some (count r.i)), r.v_eq, pair-Lower bytes valid r)

  bool-Lower :
      (bytes : List (AbstractByte P)) {v : Value P}
      → decode E same Ty.bool bytes ≡ ret v
      → Lower (encode E same Ty.bool v) bytes
  unfolding decode encode
  bool-Lower [] e = cc
  bool-Lower (uninit ∷ []) e = cc
  bool-Lower (uninit ∷ c ∷ bytes) e = cc
  bool-Lower (init zero p ∷ []) e = rw (sym (ret_inj e)) (init 0 none ∷ [], refl, refl)
  bool-Lower (init zero p ∷ c ∷ bytes) e = cc
  bool-Lower (init (suc zero) p ∷ []) e = rw (sym (ret_inj e)) (init 1 none ∷ [], refl, refl)
  bool-Lower (init (suc zero) p ∷ c ∷ bytes) e = cc
  bool-Lower (init (suc (suc n)) p ∷ []) e = cc
  bool-Lower (init (suc (suc n)) p ∷ c ∷ bytes) e = cc

  -- The chunks of a union, written over less defined bytes.
  chunks-Lower :
      (chunks : List (ℕ × ℕ)) (bytes cur : List (AbstractByte P))
      {data_of : List (List (AbstractByte P))}
      → read_chunks chunks bytes ≡ ret data_of
      → Le same cur bytes
      → (length data_of ≡ length chunks) × Lower (write_chunks chunks data_of cur) bytes
  unfolding read_chunks write_chunks
  chunks-Lower [] bytes cur e le = rw (sym (ret_inj e)) (refl, (cur, refl, le))
  chunks-Lower ((offset, n) ∷ chunks) bytes cur e le =
      let c = >>=-eq-ret (subslice_with_length bytes offset n) _ e in
      let cs = >>=-eq-ret (read_chunks chunks bytes) _ c.2 in
      let len = length-subslice bytes offset n c.1 in
      let w = write-Le same cur bytes offset n c.0 c.0 le c.1 (Le_refl same eq c.0) in
      let (len', low) = chunks-Lower chunks bytes w.0 cs.1 w.2 in
      rw (sym (ret_inj cs.2))
        (ap suc len', (low.0, rw len.0 (rw (==_refl n) (rw w.1 low.1)), low.2))

  array-Lower :
      (elem : Ty) (k : ℤ) (bytes : List (AbstractByte P)) {v : Value P}
      → int_leb (pos 0) k ≡ true
      → ((c : List (AbstractByte P)) (v : Value P)
          → ValidBytes c
          → decode E same elem c ≡ ret v
          → Lower (encode E same elem v) c)
      → ValidBytes bytes
      → decode E same (Ty.array elem k) bytes ≡ ret v
      → Lower (encode E same (Ty.array elem k) v) bytes
  unfolding decode encode
  array-Lower elem (negsuc k) bytes natural one valid e = absurd (ground (arith, natural))
  array-Lower elem (pos k) bytes {v} natural one valid e =
      let r = decode-ArrayRead E same elem (pos k) bytes e in
      let total_eq = scale_pos r.elem_size k r.total_eq in
      let (count_eq, good, flat) =
        chunks_from-AreChunks 0 k r.elem_size bytes valid total_eq r.chunks_eq in
      let low =
        each-Lower same r.elem_size (sized_size elem) (λ c. decode E same elem c)
          (λ v. encode E same elem v) r.chunks r.size_eq one good r.values_eq in
      let whole = chunks_are_bytes k r.elem_size bytes (flatten r.chunks) total_eq flat in
      let le = rw whole at low.3 in
      rw r.v_eq (rw (low.0 ∙ count_eq) (rw (==_refl k) (low.1, low.2, le)))

  mutual
    unfolding decode encode

    type-Lower :
        (ty : Ty) (bytes : List (AbstractByte P)) (v : Value P)
        → IsPlain ty
        → ValidBytes bytes
        → decode E same ty bytes ≡ ret v
        → (bytes' : List (AbstractByte P)) × (encode E same ty v ≡ ret bytes')
          × Le same bytes' bytes
    type-Lower Ty.bool bytes v plain valid e = bool-Lower bytes e
    type-Lower (Ty.int t) bytes v plain valid e =
        let i = >>=-eq-ret (decode_int E same t bytes) _ e in
        rw (sym (ret_inj i.2)) (encode_decode_int E same laws eq t bytes valid i.1)
    type-Lower (Ty.ptr p) bytes v plain valid e =
        let q = ptr-Lower (meta_kind_of_ptr p) p bytes valid e in rw q.1 q.2
    type-Lower (Ty.tuple fields n align) bytes v plain valid e =
        let (len, rest) = length_test (length bytes) n _ e in
        let vs = >>=-eq-ret (decode_fields E same fields bytes) _ rest in
        let start = subst (λ n. Le same (replicate n uninit) bytes) len (replicate-Le same bytes) in
        let (count_eq, low) =
          fields-Lower fields bytes (replicate n uninit) vs.0 plain valid start vs.1 in
        rw (sym (ret_inj vs.2)) (rw count_eq (rw (==_refl (count_fields fields)) low))
    type-Lower (Ty.array elem k) bytes v plain valid e =
        array-Lower elem k bytes plain.0 (λ c v valid e. type-Lower elem c v plain.1 valid e) valid
          e
    type-Lower (Ty.union fields chunks n align) bytes v plain valid e =
        let (len, rest) = length_test (length bytes) n _ e in
        let cs = >>=-eq-ret (read_chunks chunks bytes) _ rest in
        let start = subst (λ n. Le same (replicate n uninit) bytes) len (replicate-Le same bytes) in
        let (count_eq, low) = chunks-Lower chunks bytes (replicate n uninit) cs.1 start in
        rw (sym (ret_inj cs.2)) (rw count_eq (rw (==_refl (length chunks)) low))
    type-Lower (Ty.enum variants t discriminator n align) bytes v plain valid e = absurd plain
    type-Lower (Ty.slice elem) bytes v plain valid e = cc

    fields-Lower :
        (fields : Fields) (bytes cur : List (AbstractByte P)) (vs : Values P)
        → ArePlain fields
        → ValidBytes bytes
        → Le same cur bytes
        → decode_fields E same fields bytes ≡ ret vs
        → (count_values vs ≡ count_fields fields) × Lower (encode_fields E same fields vs cur) bytes
    fields-Lower no_field bytes cur vs plain valid le e =
        rw (sym (ret_inj e)) (refl, (cur, refl, le))
    fields-Lower (field offset ty fs) bytes cur vs plain valid le e =
        let n = >>=-eq-ret (sized_size ty) _ e in
        let part = >>=-eq-ret (subslice_with_length bytes offset n.0) _ n.2 in
        let v = >>=-eq-ret (decode E same ty part.0) _ part.2 in
        let rest = >>=-eq-ret (decode_fields E same fs bytes) _ v.2 in
        let low =
          type-Lower ty part.0 v.0 plain.0 (subslice-ValidBytes bytes offset n.0 valid part.1)
            v.1 in
        let w = write-Le same cur bytes offset n.0 low.0 part.0 le part.1 low.2 in
        let (count_eq, low') = fields-Lower fs bytes w.0 rest.0 plain.1 valid w.2 rest.1 in
        rw (sym (ret_inj rest.2)) (ap suc count_eq, (low'.0, rw low.1 (rw w.1 low'.1), low'.2))

  -- For a byte order with the stated laws, an equality test of provenances, and a type without enums
  -- and without arrays of a negative length: where bytes, each below 256, decode to a value,
  -- encoding the value returns bytes, and these are less or as defined as the first ones.
  pub encode-decode-Le :
      (ty : Ty) (bytes : List (AbstractByte P)) (v : Value P)
      → IsPlain ty
      → ValidBytes bytes
      → decode E same ty bytes ≡ ret v
      → (bytes' : List (AbstractByte P)) × (encode E same ty v ≡ ret bytes') × Le same bytes' bytes
  encode-decode-Le ty bytes v plain valid e = type-Lower ty bytes v plain valid e

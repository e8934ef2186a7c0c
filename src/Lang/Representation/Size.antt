-- ===== src/Lang/Representation/Size.antt =====
-- Decoded bytes have the size of the type.
use minirust_contrib_fork.Prelude.{
  ℕ, zero, suc, ◌*◌, Bool, none, some, List, [], ◌∷◌, ◌≡◌, refl, ap, ◌∙◌, arith, length, ◌==◌,
  if◌then◌else◌, Bool-cases, inl, inr,
}
use minirust_contrib_fork.Prelude.Outcome.{
  Outcome, ret, ub, ◌>>=◌, >>=-eq-ret, unwrap, unwrap-eq-ret,
}
use minirust_contrib_fork.Mem.Pointer.{
  AbstractByte, uninit, init, byte_provenance, addr_valid, widen,
}
use minirust_contrib_fork.Lang.Types.{
  unsigned, PtrType, PointerMetaKind, thin, element_count, Ty, size, expect_sized, scale, ptr_size,
  meta_kind_of_ptr, SizeStrategy,
}
use minirust_contrib_fork.Lang.Value.{Value, Values}
use minirust_contrib_fork.Lang.Endianness.{Endianness}
use minirust_contrib_fork.Prelude.Slices.{index}
use minirust_contrib_fork.Lang.Bytes.{all_data, common_provenance}
use minirust_contrib_fork.Lang.Representation.{
  sized_size, decode, decode_int, decode_ptr, decode_thin, decode_pair, decode_ptr_of, wide_ptr,
}

expect_sized-eq-some :
    (s : SizeStrategy) {n : ℕ} → expect_sized s ≡ some n → s ≡ SizeStrategy.sized n
unfolding expect_sized
expect_sized-eq-some (SizeStrategy.sized m) e = ground (arith, e)
expect_sized-eq-some (SizeStrategy.slice_of m) e = cc

-- A test of a length that was passed.
pub length_test {ℓ} :
    {A : Type ℓ} (m n : ℕ) (o : Outcome A) {a : A}
    → (if m == n then o else ub) ≡ ret a
    → (m ≡ n) × (o ≡ ret a)
length_test m n o e = elim (Bool-cases (m == n)) [
  | inl h ↦ ground (arith, h, e)
  | inr h ↦ absurd (ground (arith, h, e))
]

pub sized_size-eq-ret :
    (ty : Ty) {n : ℕ} → sized_size ty ≡ ret n → size ty ≡ some (SizeStrategy.sized n)
unfolding sized_size expect_sized
sized_size-eq-ret ty e =
    let q = >>=-eq-ret (unwrap (size ty)) (λ strategy. unwrap (expect_sized strategy)) e in
    let r = unwrap-eq-ret (size ty) q.1 in
    r ∙ ap some (expect_sized-eq-some q.0 (unwrap-eq-ret (expect_sized q.0) q.2))

module _ {P : Type 0} (E : Endianness) (same : P → P → Bool) where
  decode_bool-size :
      (bytes : List (AbstractByte P)) {v : Value P}
      → decode E same Ty.bool bytes ≡ ret v
      → length bytes ≡ 1
  unfolding decode
  decode_bool-size [] e = cc
  decode_bool-size (b ∷ []) e = refl
  decode_bool-size (uninit ∷ c ∷ bytes) e = cc
  decode_bool-size (init zero p ∷ c ∷ bytes) e = cc
  decode_bool-size (init (suc zero) p ∷ c ∷ bytes) e = cc
  decode_bool-size (init (suc (suc n)) p ∷ c ∷ bytes) e = cc

  decode_thin-size :
      (p : PtrType) (bytes : List (AbstractByte P)) {v : Value P}
      → decode_thin E same p bytes ≡ ret v
      → length bytes ≡ ptr_size
  unfolding decode_thin decode_ptr
  decode_thin-size p bytes e =
      let q =
        >>=-eq-ret (decode_ptr E same bytes)
          (λ ptr. if addr_valid p ptr.addr then ret (Value.ptr (widen ptr none)) else ub) e in
      (length_test (length bytes) ptr_size
        (all_data bytes >>= λ raw.
          (index bytes 0 >>= λ b. ret (record {
            addr = E.decode_bytes unsigned raw;
            provenance = common_provenance same (byte_provenance b) bytes;
          })))
        q.1).0

  pub decode_pair-size :
      (bytes : List (AbstractByte P)) {vs : Values P}
      → decode_pair E same bytes ≡ ret vs
      → length bytes ≡ 2 * ptr_size
  unfolding decode_pair
  decode_pair-size bytes e = (length_test (length bytes) (2 * ptr_size) _ e).0

  decode_ptr-size :
      (kind : PointerMetaKind) (p : PtrType) (bytes : List (AbstractByte P)) {v : Value P}
      → decode_ptr_of E same kind p bytes ≡ ret v
      → meta_kind_of_ptr p ≡ kind
      → sized_size (Ty.ptr p) ≡ ret (length bytes)
  unfolding sized_size size expect_sized decode_pair
  decode_ptr-size thin p bytes e k = rw k (rw (decode_thin-size p bytes e) refl)
  decode_ptr-size element_count p bytes e k =
      let q = >>=-eq-ret (decode_pair E same bytes) (λ parts. wide_ptr E same parts) e in
      rw k (rw (decode_pair-size bytes q.1) refl)

  -- For any byte order: where bytes decode to a value at a type, the type is sized, and its size is
  -- the number of the bytes.
  pub decode-size :
      (ty : Ty) (bytes : List (AbstractByte P)) (v : Value P)
      → decode E same ty bytes ≡ ret v
      → sized_size ty ≡ ret (length bytes)
  unfolding decode decode_int sized_size size expect_sized
  decode-size Ty.bool bytes v e = rw (decode_bool-size bytes e) refl
  decode-size (Ty.int t) bytes v e =
      let q = >>=-eq-ret (decode_int E same t bytes) (λ i. ret (Value.int i)) e in
      rw ((length_test (length bytes) t.size _ q.1).0) refl
  decode-size (Ty.ptr p) bytes v e = decode_ptr-size (meta_kind_of_ptr p) p bytes e refl
  decode-size (Ty.tuple fields n align) bytes v e = rw ((length_test (length bytes) n _ e).0) refl
  decode-size (Ty.array elem k) bytes v e =
      let q = >>=-eq-ret (sized_size elem) _ e in
      let r = >>=-eq-ret (unwrap (scale q.0 k)) _ q.2 in
      rw (sized_size-eq-ret elem q.1)
        (rw (unwrap-eq-ret (scale q.0 k) r.1) (rw ((length_test (length bytes) r.0 _ r.2).0) refl))
  decode-size (Ty.union fields chunks n align) bytes v e =
      rw ((length_test (length bytes) n _ e).0) refl
  decode-size (Ty.enum variants t discriminator n align) bytes v e =
      rw ((length_test (length bytes) n _ e).0) refl
  decode-size (Ty.slice elem) bytes v e = cc

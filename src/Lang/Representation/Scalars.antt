-- ===== src/Lang/Representation/Scalars.antt =====
-- Integers and pointers that were decoded are encoded to less defined bytes.
use minirust_contrib_fork.Prelude.{
  ℕ, ◌*◌, Bool, true, none, some, List, ◌≡◌, refl, sym, ap, ◌∙◌, arith, length, Bool-cases, inl,
  inr,
}
use minirust_contrib_fork.Prelude.Int.{ℤ}
use minirust_contrib_fork.Prelude.Outcome.{ret, ◌>>=◌, >>=-eq-ret, ret_inj}
use minirust_contrib_fork.Prelude.Slices.{index, subslice_with_length}
use minirust_contrib_fork.Mem.Pointer.{
  AbstractByte, byte_provenance, ThinPointer, count, addr_valid, widen,
}
use minirust_contrib_fork.Lang.Types.{unsigned, IntType, PtrType, ptr_size}
use minirust_contrib_fork.Lang.Value.{Value}
use minirust_contrib_fork.Lang.Endianness.{Endianness, Laws}
use minirust_contrib_fork.Lang.Bytes.{all_data, common_provenance, with_provenance, from_value}
use minirust_contrib_fork.Lang.Representation.{
  thin_raw, u_size, decode_int, decode_ptr, decode_thin, decode_pair, wide_ptr, encode_int,
  encode_ptr,
}
use minirust_contrib_fork.Lang.Representation.Order.{
  ValidBytes, all_data-AllBytes, Le, IsEquality, data_none-Le, ptr_bytes-Le,
}
use minirust_contrib_fork.Lang.Representation.Size.{length_test}

module _ {P : Type 0} (E : Endianness) (same : P → P → Bool) where
  -- What `decode_int` read.
  pub record IntRead (t : IntType) (bytes : List (AbstractByte P)) (i : ℤ) : Type 0 where
    pub size_eq : length bytes ≡ t.size
    pub raw : List ℕ
    pub raw_eq : all_data bytes ≡ ret raw
    pub int_eq : E.decode_bytes t.signed raw ≡ i

  pub decode_int-IntRead :
      (t : IntType) (bytes : List (AbstractByte P)) {i : ℤ}
      → decode_int E same t bytes ≡ ret i
      → IntRead t bytes i
  unfolding decode_int
  decode_int-IntRead t bytes e =
      let (size_eq, rest) = length_test (length bytes) t.size _ e in
      let q = >>=-eq-ret (all_data bytes) (λ raw. ret (E.decode_bytes t.signed raw)) rest in
      record { size_eq = size_eq; raw = q.0; raw_eq = q.1; int_eq = ret_inj q.2 }

  -- What `decode_ptr` read.
  pub record PtrRead (bytes : List (AbstractByte P)) (ptr : ThinPointer P) : Type 0 where
    pub size_eq : length bytes ≡ ptr_size
    pub raw : List ℕ
    pub raw_eq : all_data bytes ≡ ret raw
    pub first : AbstractByte P
    pub first_eq : index bytes 0 ≡ ret first
    pub ptr_eq : ptr ≡ record {
      addr = E.decode_bytes unsigned raw;
      provenance = common_provenance same (byte_provenance first) bytes;
    }

  pub decode_ptr-PtrRead :
      (bytes : List (AbstractByte P)) {ptr : ThinPointer P}
      → decode_ptr E same bytes ≡ ret ptr
      → PtrRead bytes ptr
  unfolding decode_ptr
  decode_ptr-PtrRead bytes e =
      let (size_eq, rest) = length_test (length bytes) ptr_size _ e in
      let q = >>=-eq-ret (all_data bytes) _ rest in
      let r = >>=-eq-ret (index bytes 0) _ q.2 in
      record {
        size_eq = size_eq;
        raw = q.0;
        raw_eq = q.1;
        first = r.0;
        first_eq = r.1;
        ptr_eq = sym (ret_inj r.2);
      }

  pub decode_thin-eq-ret :
      (p : PtrType) (bytes : List (AbstractByte P)) {v : Value P}
      → decode_thin E same p bytes ≡ ret v
      → (ptr : ThinPointer P) × (decode_ptr E same bytes ≡ ret ptr)
        × (addr_valid p ptr.addr ≡ true)
        × (v ≡ Value.ptr (widen ptr none))
  unfolding decode_thin
  decode_thin-eq-ret p bytes e =
      let q = >>=-eq-ret (decode_ptr E same bytes) _ e in
      elim (Bool-cases (addr_valid p (q.0).addr)) [
        | inl valid ↦ (q.0, q.1, valid, ground (arith, valid, q.2))
        | inr bad ↦ absurd (ground (arith, bad, q.2))
      ]

  -- What `decode` read of a wide pointer.
  pub record PairRead (bytes : List (AbstractByte P)) (v : Value P) : Type 0 where
    pub size_eq : length bytes ≡ 2 * ptr_size
    pub part0 : List (AbstractByte P)
    pub part0_eq : subslice_with_length bytes 0 ptr_size ≡ ret part0
    pub ptr : ThinPointer P
    pub thin_eq : decode_thin E same thin_raw part0 ≡ ret (Value.ptr (widen ptr none))
    pub ptr_eq : decode_ptr E same part0 ≡ ret ptr
    pub part1 : List (AbstractByte P)
    pub part1_eq : subslice_with_length bytes ptr_size ptr_size ≡ ret part1
    pub i : ℤ
    pub int_eq : decode_int E same u_size part1 ≡ ret i
    pub v_eq : v ≡ Value.ptr (widen ptr (some (count i)))

  pub decode_pair-PairRead :
      (bytes : List (AbstractByte P)) {v : Value P}
      → (decode_pair E same bytes >>= λ parts. wide_ptr E same parts) ≡ ret v
      → PairRead bytes v
  unfolding decode_pair from_value widen
  decode_pair-PairRead bytes e =
      let q = >>=-eq-ret (decode_pair E same bytes) (λ parts. wide_ptr E same parts) e in
      let (size_eq, rest) = length_test (length bytes) (2 * ptr_size) _ q.1 in
      let part0 = >>=-eq-ret (subslice_with_length bytes 0 ptr_size) _ rest in
      let v0 = >>=-eq-ret (decode_thin E same thin_raw part0.0) _ part0.2 in
      let part1 = >>=-eq-ret (subslice_with_length bytes ptr_size ptr_size) _ v0.2 in
      let i = >>=-eq-ret (decode_int E same u_size part1.0) _ part1.2 in
      let r = decode_thin-eq-ret thin_raw part0.0 v0.1 in
      record {
        size_eq = size_eq;
        part0 = part0.0;
        part0_eq = part0.1;
        ptr = r.0;
        thin_eq = v0.1 ∙ ap ret r.3;
        ptr_eq = r.1;
        part1 = part1.0;
        part1_eq = part1.1;
        i = i.0;
        int_eq = i.1;
        v_eq = sym (ret_inj (rw r.3 at (rw (sym (ret_inj i.2)) at q.2)));
      }

  -- The bytes are encoded again, and to less defined ones.
  module _ (laws : Laws E) (eq : IsEquality same) where
    pub encode_decode_int :
        (t : IntType) (bytes : List (AbstractByte P)) {i : ℤ}
        → ValidBytes bytes
        → decode_int E same t bytes ≡ ret i
        → (bytes' : List (AbstractByte P)) × (encode_int E same t i ≡ ret bytes')
          × Le same bytes' bytes
    unfolding encode_int
    encode_decode_int t bytes valid e =
        let r = decode_int-IntRead t bytes e in
        let (all, len) = all_data-AllBytes bytes valid r.raw_eq in
        let again = laws.encode_decode t.signed r.raw all in
        let again' = rw (len ∙ r.size_eq) at again in
        (
          with_provenance none r.raw,
          rw (sym r.int_eq) (rw again' refl),
          data_none-Le same bytes r.raw_eq,
        )

    pub encode_decode_ptr :
        (bytes : List (AbstractByte P)) {ptr : ThinPointer P}
        → ValidBytes bytes
        → decode_ptr E same bytes ≡ ret ptr
        → (bytes' : List (AbstractByte P)) × (encode_ptr E same ptr ≡ ret bytes')
          × Le same bytes' bytes
    unfolding encode_ptr
    encode_decode_ptr bytes valid e =
        let r = decode_ptr-PtrRead bytes e in
        let (all, len) = all_data-AllBytes bytes valid r.raw_eq in
        let again = laws.encode_decode unsigned r.raw all in
        let again' = rw (len ∙ r.size_eq) at again in
        (
          with_provenance (common_provenance same (byte_provenance r.first) bytes) r.raw,
          rw r.ptr_eq (rw again' refl),
          ptr_bytes-Le same eq bytes (byte_provenance r.first) r.raw_eq,
        )

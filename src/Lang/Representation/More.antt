-- ===== src/Lang/Representation/More.antt =====
-- More defined bytes have the same data, and at least the provenance.
use minirust_contrib_fork.Prelude.{
  ==_refl, ℕ, Bool, true, Option, Option-cases, none, some, List, [], ◌∷◌, ◌≡◌, refl, sym, ap, ◌∙◌,
  arith, length, inl, inr,
}
use minirust_contrib_fork.Prelude.Int.{ℤ}
use minirust_contrib_fork.Prelude.Outcome.{ret, >>=-eq-ret, ret_inj}
use minirust_contrib_fork.Prelude.Slices.{index, index_total}
use minirust_contrib_fork.Mem.Pointer.{
  AbstractByte, uninit, init, byte_data, byte_provenance, ThinPointer,
}
use minirust_contrib_fork.Lang.Types.{Signedness, IntType, ptr_size}
use minirust_contrib_fork.Lang.Value.{byte_le_defined, provenance_le_defined}
use minirust_contrib_fork.Lang.Endianness.{Endianness}
use minirust_contrib_fork.Lang.Bytes.{all_data, common_provenance, with_provenance}
use minirust_contrib_fork.Lang.Representation.{decode_int, decode_ptr}
use minirust_contrib_fork.Lang.Representation.Order.{Le, IsEquality, length-Le, common-Le}
use minirust_contrib_fork.Lang.Representation.Scalars.{decode_int-IntRead, decode_ptr-PtrRead}

module _ {P : Type 0} (same : P → P → Bool) where
  pub init-Le :
      (d : ℕ) (p : Option P) (y : AbstractByte P)
      → byte_le_defined same (init d p) y ≡ true
      → (p' : Option P) × (y ≡ init d p')
  init-Le d none uninit le = cc
  init-Le d none (init d' p') le = (p', ground (arith, le))
  init-Le d (some p) uninit le = cc
  init-Le d (some p) (init d' none) le = cc
  init-Le d (some p) (init d' (some p')) le = (some p', ground (arith, le))

  init_some-Le :
      IsEquality same
      → (d : ℕ) (p : P) (y : AbstractByte P) → byte_le_defined same (init d (some p)) y ≡ true
      → y ≡ init d (some p)
  init_some-Le eq d p uninit le = cc
  init_some-Le eq d p (init d' none) le = cc
  init_some-Le eq d p (init d' (some p')) le =
      let p_eq : p ≡ p' = (eq p p').0 (ground (arith, le)) in
      let d_eq : d ≡ d' = ground (arith, le) in rw p_eq (rw d_eq refl)

  pub all_data-Le :
      (xs ys : List (AbstractByte P)) {ds : List ℕ}
      → Le same xs ys
      → all_data xs ≡ ret ds
      → all_data ys ≡ ret ds
  unfolding all_data byte_data
  all_data-Le [] [] le e = e
  all_data-Le [] (y ∷ ys) le e = cc
  all_data-Le (x ∷ xs) [] le e = cc
  all_data-Le (uninit ∷ xs) (y ∷ ys) le e = cc
  all_data-Le (init d p ∷ xs) (y ∷ ys) le e =
      let q = >>=-eq-ret (all_data xs) (λ ds. ret (d ∷ ds)) e in
      let rest = all_data-Le xs ys (ground (arith, le)) q.1 in
      let y_eq = (init-Le d p y (ground (arith, le))).1 in rw y_eq (rw rest q.2)

  -- Bytes that all have one provenance keep it.
  all_same-Le :
      IsEquality same
      → (xs ys : List (AbstractByte P)) (ds : List ℕ) (p : P)
      → Le same (with_provenance (some p) ds) xs
      → Le same xs ys
      → Le same (with_provenance (some p) ds) ys
  unfolding with_provenance
  all_same-Le eq [] [] ds p kept le = kept
  all_same-Le eq [] (y ∷ ys) ds p kept le = cc
  all_same-Le eq (x ∷ xs) [] ds p kept le = cc
  all_same-Le eq (x ∷ xs) (y ∷ ys) [] p kept le = cc
  all_same-Le eq (x ∷ xs) (y ∷ ys) (d ∷ ds) p kept le =
      let x_eq = init_some-Le eq d p x (ground (arith, kept)) in
      let le' = rw x_eq at le in
      let rest = all_same-Le eq xs ys ds p (ground (arith, kept)) (ground (arith, le)) in
      ground (arith, le', rest)

  common_all :
      IsEquality same
      → (bytes : List (AbstractByte P)) (ds : List ℕ) {p : P}
      → Le same (with_provenance (some p) ds) bytes
      → common_provenance same (some p) bytes ≡ some p
  unfolding with_provenance common_provenance byte_provenance
  common_all eq [] ds le = refl
  common_all eq (b ∷ bytes) [] le = cc
  common_all eq (b ∷ bytes) (d ∷ ds) {p} le =
      let b_eq = init_some-Le eq d p b (ground (arith, le)) in
      rw b_eq (rw ((eq p p).1 refl) (common_all eq bytes ds (ground (arith, le))))

  first_all :
      IsEquality same
      → (bytes : List (AbstractByte P)) (ds : List ℕ) {p : P} {first : AbstractByte P}
      → Le same (with_provenance (some p) ds) bytes
      → index bytes 0 ≡ ret first
      → byte_provenance first ≡ some p
  unfolding with_provenance index byte_provenance
  first_all eq [] ds le e = cc
  first_all eq (b ∷ bytes) [] le e = cc
  first_all eq (b ∷ bytes) (d ∷ ds) {p} le e =
      let b_eq = init_some-Le eq d p b (ground (arith, le)) in rw (sym (ret_inj e)) (rw b_eq refl)

  pub common_provenance-Le :
      IsEquality same
      → (xs ys : List (AbstractByte P)) (first first' : AbstractByte P) {ds : List ℕ}
      → Le same xs ys
      → all_data xs ≡ ret ds
      → index ys 0 ≡ ret first'
      → provenance_le_defined same
          (common_provenance same (byte_provenance first) xs)
          (common_provenance same (byte_provenance first') ys)
        ≡ true
  common_provenance-Le eq xs ys first first' {ds} le e f =
      elim (Option-cases (common_provenance same (byte_provenance first) xs)) [
        | inl lost ↦ rw lost refl
        | inr (p, kept) ↦
            let below = (common-Le same eq xs (byte_provenance first) kept e).1 in
            let below' = all_same-Le eq xs ys ds p below le in
            rw kept
              (rw (first_all eq ys ds below' f) (rw (common_all eq ys ds below') ((eq p p).1 refl)))
      ]

module _ {P : Type 0} (E : Endianness) (same : P → P → Bool) where
  pub decode_int-Le :
      (t : IntType) (xs ys : List (AbstractByte P)) {i : ℤ}
      → Le same xs ys
      → decode_int E same t xs ≡ ret i
      → decode_int E same t ys ≡ ret i
  unfolding decode_int
  decode_int-Le t xs ys le e =
      let r = decode_int-IntRead E same t xs e in
      let len : length ys ≡ t.size = sym (length-Le same xs ys le) ∙ r.size_eq in
      rw len (rw (==_refl t.size) (rw (all_data-Le same xs ys le r.raw_eq) (ap ret r.int_eq)))

  pub decode_ptr-Le :
      IsEquality same
      → (xs ys : List (AbstractByte P)) {ptr : ThinPointer P} → Le same xs ys
      → decode_ptr E same xs ≡ ret ptr
      → (ptr' : ThinPointer P) × (decode_ptr E same ys ≡ ret ptr')
        × (ptr'.addr ≡ ptr.addr)
        × (provenance_le_defined same ptr.provenance ptr'.provenance ≡ true)
  unfolding decode_ptr
  decode_ptr-Le eq xs ys le e =
      let r = decode_ptr-PtrRead E same xs e in
      let len : length ys ≡ ptr_size = sym (length-Le same xs ys le) ∙ r.size_eq in
      let first = index_total ys 0 (omega (arith, len)) in
      (
        record {
          addr = E.decode_bytes Signedness.unsigned r.raw;
          provenance = common_provenance same (byte_provenance first.0) ys;
        },
        rw len (rw (all_data-Le same xs ys le r.raw_eq) (rw first.1 refl)),
        rw r.ptr_eq refl,
        rw r.ptr_eq (common_provenance-Le same eq xs ys r.first first.0 le r.raw_eq first.1),
      )

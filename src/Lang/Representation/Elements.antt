-- ===== src/Lang/Representation/Elements.antt =====
-- The elements of an array: the chunks are its bytes.
use minirust_contrib_fork.Prelude.{
  ==_refl, some, ℕ, zero, suc, ◌*◌, ◌+◌, Bool, List, [], ◌∷◌, ◌++◌, ◌≡◌, refl, sym, subst, ap, ◌∙◌,
  arith, length,
}
use minirust_contrib_fork.Prelude.Outcome.{Outcome, ret, >>=-eq-ret, ret_inj}
use minirust_contrib_fork.Prelude.Slices.{
  subslice_with_length, length-subslice, subslice-append, subslice_none,
}
use minirust_contrib_fork.Prelude.Int.{pos}
use minirust_contrib_fork.Lang.Types.{scale}
use minirust_contrib_fork.Mem.Pointer.{AbstractByte}
use minirust_contrib_fork.Lang.Value.{Value, Values, count_values}
use minirust_contrib_fork.Lang.Bytes.{chunks_from, decode_each, encode_each}
use minirust_contrib_fork.Lang.Representation.Order.{
  ValidBytes, subslice-ValidBytes, Le, append-Le, length-Le,
}

mul_suc : (i n : ℕ) → suc i * n ≡ i * n + n
mul_suc i n = omega arith

some_inj {ℓ} : {A : Type ℓ} {a b : A} → some a ≡ some b → a ≡ b
some_inj e = cc

-- The size of an array.
pub scale_pos : (n k : ℕ) {total : ℕ} → scale n (pos k) ≡ some total → 0 * n + k * n ≡ total
scale_pos n k e = let h : n * k ≡ _ = some_inj e in omega (arith, h)

module _ {P : Type 0} where
  abbrev pub flatten : List (List (AbstractByte P)) → List (AbstractByte P)
  flatten [] = []
  flatten (c ∷ cs) = c ++ flatten cs

  -- Each chunk has valid bytes, `n` of them.
  abbrev pub AreChunks : ℕ → List (List (AbstractByte P)) → Type 0
  AreChunks n [] = Unit
  AreChunks n (c ∷ cs) = (length c ≡ n) × ValidBytes c × AreChunks n cs

  pub chunks_from-AreChunks :
      (i k n : ℕ) (bytes : List (AbstractByte P)) {cs : List (List (AbstractByte P))}
      → ValidBytes bytes
      → i * n + k * n ≡ length bytes
      → chunks_from i k n bytes ≡ ret cs
      → (length cs ≡ k)
        × AreChunks n cs
        × (subslice_with_length bytes (i * n) (k * n) ≡ ret (flatten cs))
  unfolding chunks_from
  chunks_from-AreChunks i zero n bytes valid total e = rw (sym (ret_inj e)) (
    refl,
    tt,
    subst (λ m. subslice_with_length bytes (i * n) m ≡ ret []) (omega arith)
        (subslice_none bytes (i * n) (omega arith)),
  )
  chunks_from-AreChunks i (suc k) n bytes valid total e =
      let c = >>=-eq-ret (subslice_with_length bytes (i * n) n) _ e in
      let cs = >>=-eq-ret (chunks_from (suc i) k n bytes) _ c.2 in
      let (len, good, flat) =
        chunks_from-AreChunks (suc i) k n bytes valid (omega (arith, mul_suc i n, mul_suc k n))
          cs.1 in
      rw (sym (ret_inj cs.2)) (
        ap suc len,
        (
          (length-subslice bytes (i * n) n c.1).0,
          subslice-ValidBytes bytes (i * n) n valid c.1,
          good,
        ),
        subslice-append bytes (i * n) n (suc i * n) (k * n) (suc k * n) (mul_suc i n)
            (omega (arith, mul_suc k n)) c.1 flat,
      )

module _ {P : Type 0} (same : P → P → Bool) where
  pub each-Lower :
      (n : ℕ) (elem_size : Outcome ℕ) (dec : List (AbstractByte P) → Outcome (Value P))
      (enc : Value P → Outcome (List (AbstractByte P))) (cs : List (List (AbstractByte P)))
      {vs : Values P}
      → elem_size ≡ ret n
      → ((c : List (AbstractByte P)) (v : Value P)
          → ValidBytes c
          → dec c ≡ ret v
          → (bytes' : List (AbstractByte P)) × (enc v ≡ ret bytes') × Le same bytes' c)
      → AreChunks n cs
      → decode_each dec cs ≡ ret vs
      → (count_values vs ≡ length cs)
        × (bytes' : List (AbstractByte P)) × (encode_each elem_size enc vs ≡ ret bytes')
        × Le same bytes' (flatten cs)
  unfolding decode_each encode_each
  each-Lower n elem_size dec enc [] size_eq one good e = rw (sym (ret_inj e)) (refl, [], refl, refl)
  each-Lower n elem_size dec enc (c ∷ cs) size_eq one good e =
      let v = >>=-eq-ret (dec c) _ e in
      let vs = >>=-eq-ret (decode_each dec cs) _ v.2 in
      let low = one c v.0 good.1 v.1 in
      let rest = each-Lower n elem_size dec enc cs size_eq one good.2 vs.1 in
      let len : length low.0 ≡ n = length-Le same low.0 c low.2 ∙ good.0 in
      rw (sym (ret_inj vs.2)) (
        ap suc rest.0,
        low.0 ++ rest.1,
        rw low.1 (rw size_eq (rw len (rw (==_refl n) (rw rest.2 refl)))),
        append-Le same low.0 c rest.1 (flatten cs) low.2 rest.3,
      )

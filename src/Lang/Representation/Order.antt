-- ===== src/Lang/Representation/Order.antt =====
-- The order by definedness on lists of bytes.
use minirust_contrib_fork.Prelude.{
  ℕ, zero, suc, ◌<◌, Bool, true, Option, none, some, List, [], ◌∷◌, ◌++◌, ◌≡◌, ◌↔◌, refl, sym, ap,
  arith, length, replicate, Bool-cases, Option-cases, inl, inr, if◌then◌else◌,
}
use minirust_contrib_fork.Prelude.Outcome.{ret, >>=-eq-ret, ret_inj}
use minirust_contrib_fork.Prelude.Slices.{
  subslice_with_length, write_subslice_at_index, onto-eq-ret,
}
use minirust_contrib_fork.Mem.Pointer.{AbstractByte, uninit, init, byte_data, byte_provenance}
use minirust_contrib_fork.Lang.Endianness.{AllBytes}
use minirust_contrib_fork.Lang.Value.{byte_le_defined, bytes_le_defined, same_provenance}
use minirust_contrib_fork.Lang.Bytes.{all_data, with_provenance, common_provenance}

-- The data of each byte is a `u8`.
abbrev pub ValidBytes : {P : Type 0} → List (AbstractByte P) → Type 0
ValidBytes [] = Unit
ValidBytes (uninit ∷ bytes) = ValidBytes bytes
ValidBytes (init d provenance ∷ bytes) = (d < 256) × ValidBytes bytes

module _ {P : Type 0} where
  pub subslice-ValidBytes :
      (bytes : List (AbstractByte P)) (i n : ℕ) {part : List (AbstractByte P)}
      → ValidBytes bytes
      → subslice_with_length bytes i n ≡ ret part
      → ValidBytes part
  unfolding subslice_with_length
  subslice-ValidBytes bytes zero zero valid e = rw (sym (ret_inj e)) tt
  subslice-ValidBytes [] zero (suc n) valid e = cc
  subslice-ValidBytes (uninit ∷ bytes) zero (suc n) valid e =
      let q = onto-eq-ret uninit (subslice_with_length bytes zero n) e in
      rw q.2 (subslice-ValidBytes bytes zero n valid q.1)
  subslice-ValidBytes (init d provenance ∷ bytes) zero (suc n) valid e =
      let q = onto-eq-ret (init d provenance) (subslice_with_length bytes zero n) e in
      rw q.2 (valid.0, subslice-ValidBytes bytes zero n valid.1 q.1)
  subslice-ValidBytes [] (suc i) n valid e = cc
  subslice-ValidBytes (uninit ∷ bytes) (suc i) n valid e = subslice-ValidBytes bytes i n valid e
  subslice-ValidBytes (init d provenance ∷ bytes) (suc i) n valid e =
      subslice-ValidBytes bytes i n valid.1 e

  pub all_data-AllBytes :
      (bytes : List (AbstractByte P)) {ds : List ℕ}
      → ValidBytes bytes
      → all_data bytes ≡ ret ds
      → AllBytes ds × (length ds ≡ length bytes)
  unfolding all_data byte_data
  all_data-AllBytes [] valid e = rw (sym (ret_inj e)) (tt, refl)
  all_data-AllBytes (uninit ∷ bytes) valid e = cc
  all_data-AllBytes (init d provenance ∷ bytes) valid e =
      let q = >>=-eq-ret (all_data bytes) (λ ds. ret (d ∷ ds)) e in
      let r = all_data-AllBytes bytes valid.1 q.1 in
      rw (sym (ret_inj q.2)) ((valid.0, r.0), ap suc r.1)

module _ {P : Type 0} (same : P → P → Bool) where
  -- `xs` is less or as defined as `ys`.
  abbrev pub Le : List (AbstractByte P) → List (AbstractByte P) → Type 0
  Le xs ys = bytes_le_defined same xs ys ≡ true

  -- `same` is the equality of provenances.
  abbrev pub IsEquality : Type 0
  IsEquality = (p q : P) → (same p q ≡ true) ↔ (p ≡ q)

  pub length-Le : (xs ys : List (AbstractByte P)) → Le xs ys → length xs ≡ length ys
  length-Le [] [] le = refl
  length-Le [] (y ∷ ys) le = cc
  length-Le (x ∷ xs) [] le = cc
  length-Le (x ∷ xs) (y ∷ ys) le = ap suc (length-Le xs ys (ground (arith, le)))

  pub replicate-Le : (ys : List (AbstractByte P)) → Le (replicate (length ys) uninit) ys
  replicate-Le [] = refl
  replicate-Le (y ∷ ys) = replicate-Le ys

  byte_refl : IsEquality → (b : AbstractByte P) → byte_le_defined same b b ≡ true
  byte_refl eq uninit = refl
  byte_refl eq (init d none) = ground arith
  byte_refl eq (init d (some p)) = ground (arith, (eq p p).1 refl)

  pub Le_refl : IsEquality → (xs : List (AbstractByte P)) → Le xs xs
  Le_refl eq [] = refl
  Le_refl eq (x ∷ xs) = rw (byte_refl eq x) (Le_refl eq xs)

  pub append-Le :
      (xs xs' ys ys' : List (AbstractByte P)) → Le xs xs' → Le ys ys' → Le (xs ++ ys) (xs' ++ ys')
  append-Le [] [] ys ys' le le' = le'
  append-Le [] (x ∷ xs') ys ys' le le' = cc
  append-Le (x ∷ xs) [] ys ys' le le' = cc
  append-Le (x ∷ xs) (x' ∷ xs') ys ys' le le' =
      let rest = append-Le xs xs' ys ys' (ground (arith, le)) le' in ground (arith, le, rest)

  -- A write of less than what a list has there stays less than the list.
  pub write-Le :
      (xs ys : List (AbstractByte P)) (i n : ℕ) (part part' : List (AbstractByte P))
      → Le xs ys
      → subslice_with_length ys i n ≡ ret part'
      → Le part part'
      → (xs' : List (AbstractByte P)) × (write_subslice_at_index xs i part ≡ ret xs') × Le xs' ys
  unfolding write_subslice_at_index subslice_with_length
  write-Le xs ys zero zero [] part' le e le' = (xs, refl, le)
  write-Le xs ys zero zero (p ∷ part) part' le e le' =
      absurd (ground (arith, rw (sym (ret_inj e)) at le'))
  write-Le xs [] zero (suc n) part part' le e le' = cc
  write-Le [] (y ∷ ys) zero (suc n) part part' le e le' = cc
  write-Le (x ∷ xs) (y ∷ ys) zero (suc n) [] part' le e le' =
      let q = onto-eq-ret y (subslice_with_length ys zero n) e in
      absurd (ground (arith, rw q.2 at le'))
  write-Le (x ∷ xs) (y ∷ ys) zero (suc n) (p ∷ part) part' le e le' =
      let q = onto-eq-ret y (subslice_with_length ys zero n) e in
      let le_part = rw q.2 at le' in
      let r = write-Le xs ys zero n part q.0 (ground (arith, le)) q.1 (ground (arith, le_part)) in
      (p ∷ r.0, rw r.1 refl, ground (arith, le_part, r.2))
  write-Le xs [] (suc i) n part part' le e le' = cc
  write-Le [] (y ∷ ys) (suc i) n part part' le e le' = cc
  write-Le (x ∷ xs) (y ∷ ys) (suc i) n part part' le e le' =
      let q = write-Le xs ys i n part part' (ground (arith, le)) e le' in
      (x ∷ q.0, rw q.1 refl, ground (arith, le, q.2))

  -- Two lists that are related have related sublists.
  pub subslice-Le :
      (xs ys : List (AbstractByte P)) (i n : ℕ) {part : List (AbstractByte P)}
      → Le xs ys
      → subslice_with_length xs i n ≡ ret part
      → (part' : List (AbstractByte P)) × (subslice_with_length ys i n ≡ ret part') × Le part part'
  unfolding subslice_with_length
  subslice-Le xs ys zero zero le e = ([], refl, rw (sym (ret_inj e)) refl)
  subslice-Le [] ys zero (suc n) le e = cc
  subslice-Le (x ∷ xs) [] zero (suc n) le e = cc
  subslice-Le (x ∷ xs) (y ∷ ys) zero (suc n) le e =
      let q = onto-eq-ret x (subslice_with_length xs zero n) e in
      let r = subslice-Le xs ys zero n (ground (arith, le)) q.1 in
      (y ∷ r.0, rw r.1 refl, rw q.2 (ground (arith, le, r.2)))
  subslice-Le [] ys (suc i) n le e = cc
  subslice-Le (x ∷ xs) [] (suc i) n le e = cc
  subslice-Le (x ∷ xs) (y ∷ ys) (suc i) n le e = subslice-Le xs ys i n (ground (arith, le)) e

  pub data_none-Le :
      (bytes : List (AbstractByte P)) {ds : List ℕ}
      → all_data bytes ≡ ret ds
      → Le (with_provenance none ds) bytes
  unfolding all_data with_provenance byte_data
  data_none-Le [] e = rw (sym (ret_inj e)) refl
  data_none-Le (uninit ∷ bytes) e = cc
  data_none-Le (init d provenance ∷ bytes) e =
      let q = >>=-eq-ret (all_data bytes) (λ ds. ret (d ∷ ds)) e in
      let r = data_none-Le bytes q.1 in rw (sym (ret_inj q.2)) (ground (arith, r))

  same_some :
      IsEquality
      → (p q : Option P) {r : P} → (if same_provenance same p q then q else none) ≡ some r
      → (p ≡ some r) × (q ≡ some r)
  same_some eq none none e = cc
  same_some eq none (some y) e = cc
  same_some eq (some x) none e = cc
  same_some eq (some x) (some y) e = elim (Bool-cases (same x y)) [
    | inl h ↦ let h' = (eq x y).0 h in ground (arith, h, h', e)
    | inr h ↦ absurd (ground (arith, h, e))
  ]

  -- Where the loop ends with a provenance, it began with it and all bytes have it.
  pub common-Le :
      IsEquality
      → (bytes : List (AbstractByte P)) (start : Option P) {p : P} {ds : List ℕ}
      → common_provenance same start bytes ≡ some p
      → all_data bytes ≡ ret ds
      → (start ≡ some p) × Le (with_provenance (some p) ds) bytes
  unfolding all_data with_provenance common_provenance byte_data byte_provenance
  common-Le eq [] start e d = (e, rw (sym (ret_inj d)) refl)
  common-Le eq (uninit ∷ bytes) start e d = cc
  common-Le eq (init k provenance ∷ bytes) start {p} e d =
      let q = >>=-eq-ret (all_data bytes) (λ ds. ret (k ∷ ds)) d in
      let (went_on, rest) =
        common-Le eq bytes (if same_provenance same provenance start then start else none) e q.1 in
      let (here, began) = same_some eq provenance start went_on in
      (began, rw (sym (ret_inj q.2)) (rw here (ground (arith, rest, (eq p p).1 refl))))

  -- The bytes of a pointer whose provenance was read off them.
  pub ptr_bytes-Le :
      IsEquality
      → (bytes : List (AbstractByte P)) (start : Option P) {ds : List ℕ} → all_data bytes ≡ ret ds
      → Le (with_provenance (common_provenance same start bytes) ds) bytes
  ptr_bytes-Le eq bytes start d = elim (Option-cases (common_provenance same start bytes)) [
    | inl lost ↦ rw lost (data_none-Le bytes d)
    | inr (p, kept) ↦ rw kept ((common-Le eq bytes start kept d).1)
  ]

-- ===== src/Lang/Representation/Written.antt =====
-- Chunks and elements of arrays that are written and read again (spec/lang/representation.md).
use minirust_contrib_fork.Prelude.{
  ℕ, suc, ◌+◌, ◌*◌, ◌≤◌, Bool, true, List, [], ◌∷◌, ◌++◌, ◌≡◌, ◌⊎◌, inl, inr, ◌∙◌, refl, sym, ap,
  arith, length, length-append, ==_refl, subst,
}
use minirust_contrib_fork.Prelude.Outcome.{Outcome, ret}
use minirust_contrib_fork.Prelude.Slices.{
  onto, subslice_with_length, write_subslice_at_index, write_total, length-write,
  subslice-write_self, subslice-write_before, subslice-write_after,
}
use minirust_contrib_fork.Mem.Pointer.{AbstractByte}
use minirust_contrib_fork.Lang.Value.{Value, Values, no_value, value, count_values}
use minirust_contrib_fork.Lang.Bytes.{
  read_chunks, write_chunks, chunks_from, decode_each, encode_each,
}
use minirust_contrib_fork.Lang.Representation.Elements.{flatten}
use minirust_contrib_fork.Lang.Representation.WellFormed.{chunk_sizes, all_values}

-- Two ranges of bytes, one after the other.
abbrev pub AreApart : ℕ → ℕ → ℕ → ℕ → Type 0
AreApart o n p k = (o + n ≤ p) ⊎ (p + k ≤ o)

abbrev pub ChunksApart : ℕ → ℕ → List (ℕ × ℕ) → Type 0
ChunksApart o n [] = Unit
ChunksApart o n ((p, k) ∷ chunks) = AreApart o n p k × ChunksApart o n chunks

-- Chunks within so many bytes that do not overlap.
abbrev pub ChunksLaid : ℕ → List (ℕ × ℕ) → Type 0
ChunksLaid size [] = Unit
ChunksLaid size ((o, n) ∷ chunks) = (o + n ≤ size) × ChunksApart o n chunks × ChunksLaid size chunks

module _ {P : Type 0} where
  pub subslice-write_apart :
      (l part : List (AbstractByte P)) (p o n : ℕ) {m : List (AbstractByte P)}
      → AreApart o n p (length part)
      → write_subslice_at_index l p part ≡ ret m
      → subslice_with_length m o n ≡ subslice_with_length l o n
  subslice-write_apart l part p o n (inl before) e = subslice-write_before l p part o n before e
  subslice-write_apart l part p o n (inr after) e = subslice-write_after l p part o n after e

  -- What was written at some ranges of bytes, and what was not.
  pub record WrittenChunks (chunks : List (ℕ × ℕ)) (raw : List (List (AbstractByte P)))
      (bytes : List (AbstractByte P)) : Type 0 where
    pub after : List (AbstractByte P)
    pub after_eq : write_chunks chunks raw bytes ≡ ret after
    pub length_eq : length after ≡ length bytes
    pub kept :
        (o n : ℕ)
        → ChunksApart o n chunks
        → subslice_with_length after o n ≡ subslice_with_length bytes o n
    pub read_eq : read_chunks chunks after ≡ ret raw

  pub read-write_chunks :
      (chunks : List (ℕ × ℕ)) (raw : List (List (AbstractByte P))) (bytes : List (AbstractByte P))
      → ChunksLaid (length bytes) chunks
      → length raw ≡ length chunks
      → chunk_sizes raw chunks ≡ true
      → WrittenChunks chunks raw bytes
  unfolding write_chunks read_chunks
  read-write_chunks [] [] bytes laid len sizes = record {
    after = bytes;
    after_eq = refl;
    length_eq = refl;
    kept = λ o n h. refl;
    read_eq = refl;
  }
  read-write_chunks [] (c ∷ raw) bytes laid len sizes = absurd (omega (arith, len))
  read-write_chunks (chunk ∷ chunks) [] bytes laid len sizes = absurd (omega (arith, len))
  read-write_chunks ((o, n) ∷ chunks) (c ∷ raw) bytes laid len sizes =
      let size_eq : length c ≡ n = ground (arith, sizes) in
      let rest_sizes : chunk_sizes raw chunks ≡ true = ground (arith, sizes) in
      let (half, e) = write_total bytes o c (omega (arith, size_eq, laid.0)) in
      let half_len = length-write bytes o c e in
      let r =
        read-write_chunks chunks raw half (rw half_len laid.2) (omega (arith, len)) rest_sizes in
      let own = subslice-write_self bytes o c e in
      record {
        after = r.after;
        after_eq = rw size_eq (rw (==_refl n) (rw e r.after_eq));
        length_eq = r.length_eq ∙ half_len;
        kept = λ p k h.
            r.kept p k h.1
            ∙ subslice-write_apart bytes c o p k (subst (λ x. AreApart p k o x) (sym size_eq) h.0)
                e;
        read_eq = rw (r.kept o n laid.1 ∙ (rw size_eq at own)) (rw r.read_eq refl);
      }

  subslice-append_self :
      (before c r : List (AbstractByte P))
      → subslice_with_length (before ++ (c ++ r)) (length before) (length c) ≡ ret c
  unfolding subslice_with_length
  subslice-append_self [] [] r = refl
  subslice-append_self [] (x ∷ c) r = ap (onto x) (subslice-append_self [] c r)
  subslice-append_self (x ∷ before) c r = subslice-append_self before c r

  append_assoc : (a b c : List (AbstractByte P)) → a ++ (b ++ c) ≡ (a ++ b) ++ c
  append_assoc [] b c = refl
  append_assoc (x ∷ a) b c = ap (λ l. x ∷ l) (append_assoc a b c)

  abbrev pub AreLong : ℕ → List (List (AbstractByte P)) → Type 0
  AreLong n [] = Unit
  AreLong n (c ∷ cs) = (length c ≡ n) × AreLong n cs

  pub length-flatten :
      (n : ℕ) (cs : List (List (AbstractByte P)))
      → AreLong n cs
      → length (flatten cs) ≡ n * length cs
  length-flatten n [] long = omega arith
  length-flatten n (c ∷ cs) long =
      grind (arith, length-append c (flatten cs), long.0, length-flatten n cs long.1)

  chunks_from-flatten :
      (i n : ℕ) (before : List (AbstractByte P)) (cs : List (List (AbstractByte P)))
      → AreLong n cs
      → length before ≡ i * n
      → chunks_from i (length cs) n (before ++ flatten cs) ≡ ret cs
  unfolding chunks_from
  chunks_from-flatten i n before [] long len = refl
  chunks_from-flatten i n before (c ∷ cs) long len =
      let own = rw long.0 at (rw len at (subslice-append_self before c (flatten cs))) in
      let rest =
        chunks_from-flatten (suc i) n (before ++ c) cs long.1
          (grind (arith, length-append before c, long.0, len)) in
      let rest' = rw (sym (append_assoc before c (flatten cs))) at rest in rw own (rw rest' refl)

  pub chunks-flatten :
      (n : ℕ) (cs : List (List (AbstractByte P)))
      → AreLong n cs
      → chunks_from 0 (length cs) n (flatten cs) ≡ ret cs
  chunks-flatten n cs long = chunks_from-flatten 0 n [] cs long (omega arith)

  -- The elements, each encoded to so many bytes.
  pub decode-encode_each :
      (n : ℕ) (elem_size : Outcome ℕ) (check : Value P → Bool)
      (dec : List (AbstractByte P) → Outcome (Value P))
      (enc : Value P → Outcome (List (AbstractByte P))) (Fits : Value P → Type 0)
      (AllFit : Values P → Type 0) (vs : Values P)
      → elem_size ≡ ret n
      → ((v : Value P) (rest : Values P) → AllFit (value v rest) → Fits v × AllFit rest)
      → ((v : Value P)
          → check v ≡ true
          → Fits v
          → (c : List (AbstractByte P)) × (enc v ≡ ret c) × (length c ≡ n) × (dec c ≡ ret v))
      → all_values check vs ≡ true
      → AllFit vs
      → (cs : List (List (AbstractByte P))) × (encode_each elem_size enc vs ≡ ret (flatten cs))
        × (length cs ≡ count_values vs)
        × AreLong n cs
        × (decode_each dec cs ≡ ret vs)
  unfolding encode_each decode_each
  decode-encode_each n elem_size check dec enc Fits AllFit no_value size_eq each one all fit =
      ([], refl, refl, tt, refl)
  decode-encode_each n elem_size check dec enc Fits AllFit (value v vs) size_eq each one all fit =
      let (c, enc_eq, len, dec_eq) = one v (ground (arith, all)) (each v vs fit).0 in
      let (cs, encs, count_eq, long, decs) =
        decode-encode_each n elem_size check dec enc Fits AllFit vs size_eq each one
          (ground (arith, all)) (each v vs fit).1 in
      (
        c ∷ cs,
        rw enc_eq (rw size_eq (rw len (rw (==_refl n) (rw encs refl)))),
        ap suc count_eq,
        (len, long),
        rw dec_eq (rw decs refl),
      )

-- ===== src/Lang/Bytes.antt =====
-- spec/lang/representation.md: the parts of `decode` and `encode` that no byte order matters for: lists of
-- bytes, chunks, and the elements of an array.
use minirust_contrib_fork.Prelude.{
  Bool, ℕ, zero, suc, ◌*◌, true, false, Option, none, some, List, [], ◌∷◌, ◌++◌, map, length, ◌==◌,
  if◌then◌else◌,
}
use minirust_contrib_fork.Prelude.Outcome.{Outcome, ret, ub, panics, ◌>>=◌, or_throw}
use minirust_contrib_fork.Prelude.Slices.{subslice_with_length, write_subslice_at_index}
use minirust_contrib_fork.Lang.Value.{same_provenance, Value, Values, no_value, value}
use minirust_contrib_fork.Mem.Pointer.{
  AbstractByte, init, byte_data, byte_provenance, PointerMeta, count,
}

module _ {P : Type 0} where
  -- `bytes.try_map(|b| b.data())?`
  unfoldable pub all_data : List (AbstractByte P) → Outcome (List ℕ)
  unfolding byte_data
  all_data [] = ret []
  all_data (b ∷ bs) = or_throw (byte_data b) >>= λ d. (all_data bs >>= λ ds. ret (d ∷ ds))

  unfoldable pub with_provenance : Option P → List ℕ → List (AbstractByte P)
  with_provenance provenance raw = map (λ b. init b provenance) raw

  abbrev pub decode_bool : List (AbstractByte P) → Outcome (Value P)
  decode_bool (init zero provenance ∷ []) = ret (Value.bool false)
  decode_bool (init (suc zero) provenance ∷ []) = ret (Value.bool true)
  decode_bool _ = ub

  unfoldable pub from_value : Value P → Option PointerMeta
  from_value (Value.int i) = some (count i)
  from_value _ = none

  unfoldable pub into_value : PointerMeta → Value P
  into_value (count i) = Value.int i

  -- The sublists at `i * n`, `(i + 1) * n` and so on, `k` of them.
  unfoldable pub chunks_from :
      ℕ → ℕ → ℕ → List (AbstractByte P) → Outcome (List (List (AbstractByte P)))
  chunks_from i zero n bytes = ret []
  chunks_from i (suc k) n bytes = subslice_with_length bytes (i * n) n >>= λ c.
      (chunks_from (suc i) k n bytes >>= λ cs. ret (c ∷ cs))

  unfoldable pub read_chunks :
      List (ℕ × ℕ) → List (AbstractByte P) → Outcome (List (List (AbstractByte P)))
  read_chunks [] bytes = ret []
  read_chunks ((offset, n) ∷ chunks) bytes =
      subslice_with_length bytes offset n >>= λ c. (read_chunks chunks bytes >>= λ cs. ret (c ∷ cs))

  unfoldable pub write_chunks :
      List (ℕ × ℕ)
      → List (List (AbstractByte P))
      → List (AbstractByte P)
      → Outcome (List (AbstractByte P))
  write_chunks ((offset, n) ∷ chunks) (raw ∷ rest) bytes =
      if n == length raw
      then (write_subslice_at_index bytes offset raw >>= λ bytes'. write_chunks chunks rest bytes')
      else panics
  write_chunks [] _ bytes = ret bytes
  write_chunks (chunk ∷ chunks) [] bytes = ret bytes

  unfoldable pub decode_each :
      (List (AbstractByte P) → Outcome (Value P))
      → List (List (AbstractByte P))
      → Outcome (Values P)
  decode_each decode_elem [] = ret no_value
  decode_each decode_elem (chunk ∷ chunks) =
      decode_elem chunk >>= λ v. (decode_each decode_elem chunks >>= λ vs. ret (value v vs))

  unfoldable pub encode_each :
      Outcome ℕ
      → (Value P → Outcome (List (AbstractByte P)))
      → Values P
      → Outcome (List (AbstractByte P))
  encode_each elem_size encode_elem no_value = ret []
  encode_each elem_size encode_elem (value v vs) = encode_elem v >>= λ bytes.
      (elem_size >>= λ n.
      if length bytes == n
      then (encode_each elem_size encode_elem vs >>= λ rest. ret (bytes ++ rest))
      else panics)

module _ {P : Type 0} (same : P → P → Bool) where
  -- The loop over the provenances of the bytes.
  unfoldable pub common_provenance : Option P → List (AbstractByte P) → Option P
  unfolding byte_provenance
  common_provenance provenance [] = provenance
  common_provenance provenance (b ∷ bytes) =
      common_provenance
        (if same_provenance same (byte_provenance b) provenance then provenance else none) bytes

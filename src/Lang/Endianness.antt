-- ===== src/Lang/Endianness.antt =====
-- The parts of the specification language that `decode` and `encode` call: the byte order of the target and
-- the bounds of its integer types. They are parameters; `Laws` is what the specification relies on.
use minirust_contrib_fork.Prelude.{ℕ, ◌<◌, Bool, true, Option, some, List, [], ◌∷◌, ◌≡◌, length}
use minirust_contrib_fork.Prelude.Int.{ℤ}
use minirust_contrib_fork.Lang.Types.{Signedness}

pub record Endianness : Type 0 where
  pub decode_bytes : Signedness → List ℕ → ℤ
  pub encode_bytes : Signedness → ℕ → ℤ → Option (List ℕ)
  pub in_bounds : Signedness → ℕ → ℤ → Bool

abbrev pub AllBytes : List ℕ → Type 0
AllBytes [] = Unit
AllBytes (b ∷ bs) = (b < 256) × AllBytes bs

-- `encode` does the bounds check, gives as many bytes as it is asked for, and inverts `decode`.
pub record Laws (E : Endianness) : Type 0 where
  pub encode_length :
      (s : Signedness) (n : ℕ) (i : ℤ) {bs : List ℕ}
      → E.encode_bytes s n i ≡ some bs
      → length bs ≡ n
  pub decode_encode :
      (s : Signedness) (n : ℕ) (i : ℤ) {bs : List ℕ}
      → E.encode_bytes s n i ≡ some bs
      → E.decode_bytes s bs ≡ i
  pub encode_decode :
      (s : Signedness) (bs : List ℕ)
      → AllBytes bs
      → E.encode_bytes s (length bs) (E.decode_bytes s bs) ≡ some bs
  pub encode_in_bounds :
      (s : Signedness) (n : ℕ) (i : ℤ)
      → E.in_bounds s n i ≡ true
      → (bs : List ℕ) × (E.encode_bytes s n i ≡ some bs)
  pub decode_in_bounds :
      (s : Signedness) (bs : List ℕ)
      → AllBytes bs
      → E.in_bounds s (length bs) (E.decode_bytes s bs) ≡ true

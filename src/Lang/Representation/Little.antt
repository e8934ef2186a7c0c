-- ===== src/Lang/Representation/Little.antt =====
-- A byte order with the laws: little endian, two's complement.
use minirust_contrib_fork.Prelude.{
  ℕ, zero, suc, ◌+◌, ◌*◌, ◌-◌, ◌/◌, ◌%◌, ◌<◌, Bool, true, false, Option, none, some, List, [], ◌∷◌,
  ◌≡◌, refl, sym, ap, arith, length, ltb, if◌then◌else◌, Bool-cases, inl, inr,
}
use minirust_contrib_fork.Prelude.Int.{ℤ, pos, negsuc}
use minirust_contrib_fork.Lang.Types.{Signedness}
use minirust_contrib_fork.Lang.Endianness.{Endianness, Laws, AllBytes}

abbrev bound : ℕ → ℕ
bound zero = 1
bound (suc n) = 256 * bound n

abbrev digits : ℕ → ℕ → List ℕ
digits zero k = []
digits (suc n) k = k % 256 ∷ digits n (k / 256)

abbrev value_of : List ℕ → ℕ
value_of [] = 0
value_of (b ∷ bs) = b + 256 * value_of bs

abbrev encode_little : Signedness → ℕ → ℤ → Option (List ℕ)
encode_little Signedness.unsigned n (pos k) = if ltb k (bound n) then some (digits n k) else none
encode_little Signedness.unsigned n (negsuc k) = none
encode_little Signedness.signed n (pos k) =
    if ltb (2 * k) (bound n) then some (digits n k) else none
encode_little Signedness.signed n (negsuc k) =
    if ltb (2 * k + 1) (bound n) then some (digits n (bound n - 1 - k)) else none

abbrev decode_little : Signedness → List ℕ → ℤ
decode_little Signedness.unsigned bs = pos (value_of bs)
decode_little Signedness.signed bs =
    if ltb (2 * value_of bs) (bound (length bs))
    then pos (value_of bs)
    else negsuc (bound (length bs) - 1 - value_of bs)

abbrev little_in_bounds : Signedness → ℕ → ℤ → Bool
little_in_bounds Signedness.unsigned n (pos k) = ltb k (bound n)
little_in_bounds Signedness.unsigned n (negsuc k) = false
little_in_bounds Signedness.signed n (pos k) = ltb (2 * k) (bound n)
little_in_bounds Signedness.signed n (negsuc k) = ltb (2 * k + 1) (bound n)

abbrev pub little : Endianness
little = record {
  decode_bytes = decode_little;
  encode_bytes = encode_little;
  in_bounds = little_in_bounds;
}

length-digits : (n k : ℕ) → length (digits n k) ≡ n
length-digits zero k = refl
length-digits (suc n) k = ap suc (length-digits n (k / 256))

value-digits : (n k : ℕ) → k < bound n → value_of (digits n k) ≡ k
value-digits zero k h = omega arith
value-digits (suc n) k h = let q = value-digits n (k / 256) (omega arith) in omega (arith, q)

value_lt : (bs : List ℕ) → AllBytes bs → value_of bs < bound (length bs)
value_lt [] all = omega arith
value_lt (b ∷ bs) all = let q = value_lt bs all.1 in omega (arith, q, all.0)

head_of : (b v : ℕ) → b < 256 → (b + 256 * v) % 256 ≡ b
head_of b v h = omega arith

tail_of : (b v : ℕ) → b < 256 → (b + 256 * v) / 256 ≡ v
tail_of b v h = omega arith

digits-value : (bs : List ℕ) → AllBytes bs → digits (length bs) (value_of bs) ≡ bs
digits-value [] all = refl
digits-value (b ∷ bs) all =
    rw (head_of b (value_of bs) all.0)
      (rw (tail_of b (value_of bs) all.0) (ap (b ∷◌) (digits-value bs all.1)))

encoded :
    (n k : ℕ) (b : Bool) {bs : List ℕ}
    → (if b then some (digits n k) else none) ≡ some bs
    → (b ≡ true) × (digits n k ≡ bs)
encoded n k true e = (refl, cc)
encoded n k false e = cc

encode_length :
    (s : Signedness) (n : ℕ) (i : ℤ) {bs : List ℕ} → encode_little s n i ≡ some bs → length bs ≡ n
encode_length Signedness.unsigned n (pos k) e =
    rw (sym ((encoded n k (ltb k (bound n)) e).1)) (length-digits n k)
encode_length Signedness.unsigned n (negsuc k) e = cc
encode_length Signedness.signed n (pos k) e =
    rw (sym ((encoded n k (ltb (2 * k) (bound n)) e).1)) (length-digits n k)
encode_length Signedness.signed n (negsuc k) e =
    rw (sym ((encoded n (bound n - 1 - k) (ltb (2 * k + 1) (bound n)) e).1))
      (length-digits n (bound n - 1 - k))

decode_encode :
    (s : Signedness) (n : ℕ) (i : ℤ) {bs : List ℕ}
    → encode_little s n i ≡ some bs
    → decode_little s bs ≡ i
decode_encode Signedness.unsigned n (pos k) e =
    let (h, bs_eq) = encoded n k (ltb k (bound n)) e in
    rw (sym bs_eq) (ap pos (value-digits n k (ground (arith, h))))
decode_encode Signedness.unsigned n (negsuc k) e = cc
decode_encode Signedness.signed n (pos k) e =
    let (h, bs_eq) = encoded n k (ltb (2 * k) (bound n)) e in
    rw (sym bs_eq) (rw (value-digits n k (ground (arith, h))) (rw (length-digits n k) (rw h refl)))
decode_encode Signedness.signed n (negsuc k) e =
    let (h, bs_eq) = encoded n (bound n - 1 - k) (ltb (2 * k + 1) (bound n)) e in
    let high : ltb (2 * (bound n - 1 - k)) (bound n) ≡ false = ground (arith, h) in
    let back : bound n - 1 - (bound n - 1 - k) ≡ k = ground (arith, h) in
    rw (sym bs_eq) (
      rw (value-digits n (bound n - 1 - k) (ground (arith, h)))
        (rw (length-digits n (bound n - 1 - k)) (rw high (ap negsuc back))))

encode_decode :
    (s : Signedness) (bs : List ℕ)
    → AllBytes bs
    → encode_little s (length bs) (decode_little s bs) ≡ some bs
encode_decode Signedness.unsigned bs all =
    let h : ltb (value_of bs) (bound (length bs)) ≡ true = ground (arith, value_lt bs all) in
    rw h (ap some (digits-value bs all))
encode_decode Signedness.signed bs all =
    elim (Bool-cases (ltb (2 * value_of bs) (bound (length bs)))) [
      | inl low ↦ rw low (rw low (ap some (digits-value bs all)))
      | inr high ↦
          let lt = value_lt bs all in
          let fits : ltb (2 * (bound (length bs) - 1 - value_of bs) + 1) (bound (length bs))
              ≡ true =
            ground (arith, high, lt) in
          let back : bound (length bs) - 1 - (bound (length bs) - 1 - value_of bs) ≡ value_of bs =
            ground (arith, lt) in
          rw high (rw fits (rw back (ap some (digits-value bs all))))
    ]

encode_in_bounds :
    (s : Signedness) (n : ℕ) (i : ℤ)
    → little_in_bounds s n i ≡ true
    → (bs : List ℕ) × (encode_little s n i ≡ some bs)
encode_in_bounds Signedness.unsigned n (pos k) h = (digits n k, rw h refl)
encode_in_bounds Signedness.unsigned n (negsuc k) h = cc
encode_in_bounds Signedness.signed n (pos k) h = (digits n k, rw h refl)
encode_in_bounds Signedness.signed n (negsuc k) h = (digits n (bound n - 1 - k), rw h refl)

decode_in_bounds :
    (s : Signedness) (bs : List ℕ)
    → AllBytes bs
    → little_in_bounds s (length bs) (decode_little s bs) ≡ true
decode_in_bounds Signedness.unsigned bs all = ground (arith, value_lt bs all)
decode_in_bounds Signedness.signed bs all =
    elim (Bool-cases (ltb (2 * value_of bs) (bound (length bs)))) [
      | inl low ↦ rw low low
      | inr high ↦ rw high (ground (arith, high, value_lt bs all))
    ]

pub little-Laws : Laws little
little-Laws = record {
  encode_length = λ s n i e. encode_length s n i e;
  decode_encode = λ s n i e. decode_encode s n i e;
  encode_decode = encode_decode;
  encode_in_bounds = encode_in_bounds;
  decode_in_bounds = decode_in_bounds;
}

-- ===== src/Lang/Representation/Tests.antt =====
-- Decoding and encoding on `x86_64`, with numbers as provenances.
use minirust_contrib_fork.Prelude.{
  ℕ, Bool, true, false, some, none, List, [], ◌∷◌, ◌≡◌, ==_iff, refl, arith, ◌==◌, inl,
}
use minirust_contrib_fork.Prelude.Int.{pos}
use minirust_contrib_fork.Prelude.Outcome.{ret}
use minirust_contrib_fork.Prelude.Slices.{subslice_with_length, onto, index}
use minirust_contrib_fork.Mem.Pointer.{
  AbstractByte, uninit, init, byte_data, byte_provenance, Pointer, count, addr_valid, matches,
  widen, safe_pointee,
}
use minirust_contrib_fork.Lang.Types.{
  Signedness, Ty, no_field, field, PtrType, Mutability, SizeStrategy, size, expect_sized,
  meta_kind_of_ptr, meta_kind_of_size,
}
use minirust_contrib_fork.Lang.Value.{Value, no_value, value, le_defined}
use minirust_contrib_fork.Lang.Bytes.{
  all_data, chunks_from, decode_each, common_provenance, from_value,
}
use minirust_contrib_fork.Lang.Representation.{
  decode, decode_int, encode, sized_size, decode_pair, decode_thin, decode_ptr,
}
use minirust_contrib_fork.Lang.Representation.Little.{little, little-Laws}
use minirust_contrib_fork.Lang.Representation.Order.{Le}
use minirust_contrib_fork.Lang.Representation.Size.{decode-size}
use minirust_contrib_fork.Lang.Representation.Galois.{encode-decode-Le}
use minirust_contrib_fork.Lang.Representation.Monotone.{decode-monotone}
use minirust_contrib_fork.Lang.Representation.WellFormed.{check_wf}
use minirust_contrib_fork.Lang.Representation.Laid.{IsLaid}
use minirust_contrib_fork.Lang.Representation.RoundTrip.{decode-encode}
use minirust_contrib_fork.Lang.Representation.Pointers.{pointer_round_trip}
use minirust_contrib_fork.Lang.Representation.Decoded.{decode-IsWf}

abbrev same_number : ℕ → ℕ → Bool
same_number m n = m == n

abbrev u8 : Ty
u8 = Ty.int (record { signed = Signedness.unsigned; size = 1 })

-- A number, two Booleans and a byte of padding.
abbrev example_ty : Ty
example_ty = Ty.tuple (field 0 u8 (field 1 (Ty.array Ty.bool (pos 2)) no_field)) 4 1

abbrev example_bytes : List (AbstractByte ℕ)
example_bytes = init 7 none ∷ init 1 none ∷ init 0 none ∷ uninit ∷ []

-- The number has a provenance, and the padding is initialized.
abbrev more_bytes : List (AbstractByte ℕ)
more_bytes = init 7 (some 5) ∷ init 1 none ∷ init 0 none ∷ init 9 none ∷ []

abbrev example_value : Value ℕ
example_value = Value.tuple (
    value (Value.int (pos 7))
      (value (Value.tuple (value (Value.bool true) (value (Value.bool false) no_value))) no_value))

decode_run : decode little same_number example_ty example_bytes ≡ ret example_value
unfolding decode decode_int decode_each chunks_from all_data byte_data sized_size size expect_sized
    subslice_with_length onto
decode_run = refl

decode_more : decode little same_number example_ty more_bytes ≡ ret example_value
unfolding decode decode_int decode_each chunks_from all_data byte_data sized_size size expect_sized
    subslice_with_length onto
decode_more = refl

decode-size_example : sized_size example_ty ≡ ret 4
decode-size_example = decode-size little same_number example_ty more_bytes example_value decode_more

encode-decode-Le_example :
    (bytes' : List (AbstractByte ℕ)) × (encode little same_number example_ty example_value
      ≡ ret bytes')
    × Le same_number bytes' more_bytes
encode-decode-Le_example =
    encode-decode-Le little same_number little-Laws ==_iff example_ty more_bytes example_value
      (tt, ((refl, tt), tt)) (omega arith, (omega arith, (omega arith, (omega arith, tt))))
      decode_more

decode-monotone_example :
    (w : Value ℕ) × (decode little same_number example_ty more_bytes ≡ ret w)
    × (le_defined same_number example_value w ≡ true)
decode-monotone_example =
    decode-monotone little same_number ==_iff example_ty example_bytes more_bytes example_value refl
      decode_run

decode-IsWf_example : check_wf little example_value example_ty ≡ true
decode-IsWf_example =
    decode-IsWf little same_number little-Laws example_ty more_bytes example_value
      (tt, ((refl, tt), tt)) (omega arith, (omega arith, (omega arith, (omega arith, tt))))
      decode_more

example-IsLaid : IsLaid example_ty
unfolding sized_size size expect_sized
example-IsLaid = (
  1,
  refl,
  omega arith,
  (2, refl, inl (omega arith), tt),
  tt,
  (2, refl, omega arith, tt, (1, refl, tt), tt),
)

example_wf : check_wf little example_value example_ty ≡ true
unfolding check_wf
example_wf = refl

decode-encode_example :
    (bytes : List (AbstractByte ℕ)) × (encode little same_number example_ty example_value
      ≡ ret bytes)
    × (decode little same_number example_ty bytes ≡ ret example_value)
decode-encode_example =
    decode-encode little same_number little-Laws ==_iff example_ty example_value example-IsLaid
      example_wf (tt, ((tt, (tt, tt)), tt))

-- A reference to a slice, its null pointer with one element, and the bytes of that.
abbrev slice_ref : PtrType
slice_ref = PtrType.ref Mutability.immutable (record {
  size = SizeStrategy.slice_of 1;
  align = 1;
  inhabited = true;
  freeze = true;
  unpin = true;
})

abbrev null_slice : Pointer ℕ
null_slice = record {
  thin_pointer = record { addr = pos 0; provenance = none };
  metadata = some (count (pos 1));
}

abbrev null_bytes : List (AbstractByte ℕ)
null_bytes =
    init 0 none
    ∷ init 0 none
    ∷ init 0 none
    ∷ init 0 none
    ∷ init 0 none
    ∷ init 0 none
    ∷ init 0 none
    ∷ init 0 none
    ∷ init 1 none
    ∷ init 0 none
    ∷ init 0 none
    ∷ init 0 none
    ∷ init 0 none
    ∷ init 0 none
    ∷ init 0 none
    ∷ init 0 none
    ∷ []

-- The address is not tested.
null_ref : decode little same_number (Ty.ptr slice_ref) null_bytes ≡ ret (Value.ptr null_slice)
unfolding decode meta_kind_of_ptr meta_kind_of_size decode_pair decode_thin decode_ptr decode_int
    all_data byte_data byte_provenance common_provenance index subslice_with_length onto addr_valid
    safe_pointee widen from_value
null_ref = refl

pointer_round_trip_example :
    (bytes : List (AbstractByte ℕ)) × (encode little same_number
        (Ty.ptr slice_ref)
        (Value.ptr null_slice)
      ≡ ret bytes)
    × (decode little same_number (Ty.ptr slice_ref) bytes ≡ ret (Value.ptr null_slice))
    × (check_wf little (Value.ptr null_slice) (Ty.ptr slice_ref) ≡ false)
unfolding meta_kind_of_ptr meta_kind_of_size matches addr_valid safe_pointee
pointer_round_trip_example =
    pointer_round_trip little same_number little-Laws ==_iff slice_ref null_slice refl refl refl

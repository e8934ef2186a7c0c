-- ===== src/Minimize/Tests.antt =====
-- Runs of `calc_chunks`, and instances of its theorems.
use minirust_contrib_fork.Prelude.{ℕ, ◌^◌, true, none, some, List, [], ◌∷◌, ◌≡◌, refl, arith}
use minirust_contrib_fork.Prelude.Int.{pos}
use minirust_contrib_fork.Lang.Types.{
  Ty, Fields, PtrType, Signedness, Mutability, SizeStrategy, element_count, size, meta_kind_of_ptr,
  expect_sized,
}
use minirust_contrib_fork.Minimize.Chunks.{
  try_to_usize, new_markers, push_marker, mark_size_from, mark_from, mark_size, at_offset,
  mark_elems, mark_used_bytes, mark_fields, scan, calc_chunks,
}
use minirust_contrib_fork.Minimize.Chunks.Used.{used_chunks, used_fields, FieldsThin, IsThin}
use minirust_contrib_fork.Minimize.Chunks.Scan.{
  IsSeparated, calc_chunks-exact, calc_chunks-IsSeparated,
}
use minirust_contrib_fork.Minimize.Chunks.Wide.{wide_pointer_truncated}
use minirust_contrib_fork.Minimize.Chunks.Total.{FieldsFit, Fits, calc_chunks_total}

abbrev u16 : Ty
u16 = Ty.int (record { signed = Signedness.unsigned; size = 2 })

-- union { (u16 at 0, bool at 4), [u16; 2] at 6 } of 12 bytes
abbrev padded : Fields
padded =
    Fields.field 0 (Ty.tuple (Fields.field 0 u16 (Fields.field 4 Ty.bool Fields.no_field)) 6 2)
      (Fields.field 6 (Ty.array u16 (pos 2)) Fields.no_field)

padded_chunks : calc_chunks padded 12 ≡ some ((0, 2) ∷ (4, 1) ∷ (6, 4) ∷ [])
unfolding calc_chunks mark_fields mark_used_bytes mark_size at_offset mark_elems scan size
    expect_sized try_to_usize new_markers push_marker mark_size_from mark_from
padded_chunks = refl

-- A size that is no `usize` is a panic.
too_large : calc_chunks Fields.no_field (2 ^ 64) ≡ none
unfolding calc_chunks try_to_usize
too_large = refl

padded_thin : FieldsThin padded
unfolding FieldsThin IsThin
padded_thin = ((tt, (tt, tt)), (tt, tt))

calc_chunks-exact_example : used_chunks ((0, 2) ∷ (4, 1) ∷ (6, 4) ∷ []) 4 ≡ used_fields padded 4
calc_chunks-exact_example =
    calc_chunks-exact padded 12 ((0, 2) ∷ (4, 1) ∷ (6, 4) ∷ []) padded_thin padded_chunks 4

calc_chunks-IsSeparated_example : IsSeparated 0 12 ((0, 2) ∷ (4, 1) ∷ (6, 4) ∷ [])
calc_chunks-IsSeparated_example =
    calc_chunks-IsSeparated padded 12 ((0, 2) ∷ (4, 1) ∷ (6, 4) ∷ []) padded_thin padded_chunks

padded_fits : FieldsFit 12 padded
unfolding FieldsFit Fits size expect_sized
padded_fits = (
  omega arith,
  (omega arith, omega arith, (omega arith, omega arith, tt)),
  (omega arith, (2, refl, omega arith, omega arith), tt),
)

calc_chunks_total_example : (chunks : List (ℕ × ℕ)) × (calc_chunks padded 12 ≡ some chunks)
calc_chunks_total_example = calc_chunks_total padded 12 (omega arith) padded_fits

-- &[u16]
abbrev slice_ref : PtrType
slice_ref = PtrType.ref Mutability.immutable (record {
  size = SizeStrategy.slice_of 2;
  align = 2;
  inhabited = true;
  freeze = true;
  unpin = true;
})

slice_ref_wide : meta_kind_of_ptr slice_ref ≡ element_count
unfolding meta_kind_of_ptr
slice_ref_wide = refl

wide_pointer_truncated_example :
    (size (Ty.ptr slice_ref) ≡ some (SizeStrategy.sized 16))
    × (calc_chunks (Fields.field 0 (Ty.ptr slice_ref) Fields.no_field) 16 ≡ some ((0, 8) ∷ []))
wide_pointer_truncated_example =
    wide_pointer_truncated slice_ref 16 slice_ref_wide (omega arith) (omega arith)

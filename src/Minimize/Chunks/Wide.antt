-- ===== src/Minimize/Chunks/Wide.antt =====
-- Wide pointers in unions (tooling/minimize/src/chunks.rs).
use minirust_contrib_fork.Prelude.{
  ℕ, zero, suc, ◌+◌, ◌-◌, ◌≤◌, false, none, some, [], ◌∷◌, ◌++◌, ◌≡◌, refl, arith, replicate, subst,
  ap, ◌∙◌, true, ◌<◌, ◌^◌, length, length-replicate,
}
use minirust_contrib_fork.Lang.Types.{
  Ty, Fields, PtrType, element_count, meta_kind_of_ptr, size, SizeStrategy,
}
use minirust_contrib_fork.Minimize.Chunks.{
  scan, mark_fields, mark_used_bytes, mark_size, at_offset, calc_chunks, try_to_usize,
  mark_size_from, mark_from,
}
use minirust_contrib_fork.Minimize.Chunks.Capacity.{calc_chunks_fits}

scan_padding : (i k : ℕ) → scan i (replicate k false ++ false ∷ []) none ≡ []
unfolding scan
scan_padding i zero = refl
scan_padding i (suc k) = scan_padding (i + 1) k

scan_end : (k : ℕ) → scan 8 (replicate k false ++ false ∷ []) (some 0) ≡ (0, 8) ∷ []
unfolding scan
scan_end zero = refl
scan_end (suc k) = rw (scan_padding 9 k)

abbrev wide_fields : PtrType → Fields
wide_fields p = Fields.field 0 (Ty.ptr p) Fields.no_field

abbrev eight_more : ℕ → ℕ
eight_more k = suc (suc (suc (suc (suc (suc (suc (suc k)))))))

wide_marks :
    (p : PtrType) (k : ℕ)
    → mark_fields (wide_fields p) (replicate (eight_more k) false)
      ≡ some (replicate 8 true ++ replicate k false)
unfolding mark_fields mark_used_bytes mark_size mark_size_from mark_from at_offset try_to_usize
wide_marks p k = refl

wide_length : (k : ℕ) → length (replicate 8 true ++ replicate k false) ≡ eight_more k
wide_length k = omega (arith, length-replicate k false)

wide_scan :
    (k : ℕ) → scan 0 ((replicate 8 true ++ replicate k false) ++ false ∷ []) none ≡ (0, 8) ∷ []
unfolding scan
wide_scan k = scan_end k

wide_chunks :
    (p : PtrType) (k : ℕ)
    → eight_more k < 2 ^ 62
    → calc_chunks (wide_fields p) (eight_more k) ≡ some ((0, 8) ∷ [])
wide_chunks p k small =
    calc_chunks_fits (wide_fields p) (eight_more k) (replicate 8 true ++ replicate k false) small
      (wide_marks p k) (wide_length k)
    ∙ ap some (wide_scan k)

-- A pointer with an element count as its metadata has 16 bytes, and a union of at least 16 and
-- less than 2 ^ 62 bytes with such a pointer at offset 0 as its only field has one chunk, the
-- first 8 bytes.
pub wide_pointer_truncated :
    (p : PtrType) (n : ℕ)
    → meta_kind_of_ptr p ≡ element_count
    → 16 ≤ n
    → n < 2 ^ 62
    → (size (Ty.ptr p) ≡ some (SizeStrategy.sized 16))
      × (calc_chunks (Fields.field 0 (Ty.ptr p) Fields.no_field) n ≡ some ((0, 8) ∷ []))
unfolding size
wide_pointer_truncated p n wide fits small = (
  rw wide,
  subst (λ k. calc_chunks (Fields.field 0 (Ty.ptr p) Fields.no_field) k ≡ some ((0, 8) ∷ []))
      (omega arith) (wide_chunks p (n - 8) (omega arith)),
)

-- ===== src/Lang/Representation/WellFormed.antt =====
-- spec/lang/well-formed.md: well-formed values.
use minirust_contrib_fork.Prelude.{
  ℕ, Bool, true, false, ◌&&◌, List, ◌∷◌, length, ◌==◌, if◌then◌else◌,
}
use minirust_contrib_fork.Prelude.Int.{ℤ, pos, ◌==ℤ◌}
use minirust_contrib_fork.Mem.Pointer.{AbstractByte, matches, addr_valid}
use minirust_contrib_fork.Lang.Types.{
  unsigned, Ty, Fields, no_field, field, Variants, no_variant, variant, ptr_size, meta_kind_of_ptr,
}
use minirust_contrib_fork.Lang.Value.{Value, Values, no_value, value, count_values}
use minirust_contrib_fork.Lang.Endianness.{Endianness}
use minirust_contrib_fork.Lang.Representation.{count_fields}

-- `data.len() == size` of each chunk.
abbrev pub chunk_sizes : {P : Type 0} → List (List (AbstractByte P)) → List (ℕ × ℕ) → Bool
chunk_sizes (raw ∷ rest) ((offset, n) ∷ chunks) = length raw == n && chunk_sizes rest chunks
chunk_sizes _ _ = true

abbrev pub all_values : {P : Type 0} → (Value P → Bool) → Values P → Bool
all_values check no_value = true
all_values check (value v vs) = check v && all_values check vs

module _ {P : Type 0} (E : Endianness) where
  -- `Value::check_wf`, whether it passes.
  unfoldable mutual
    unfolding matches meta_kind_of_ptr addr_valid

    pub check_wf : Value P → Ty → Bool
    check_wf (Value.int i) (Ty.int t) = E.in_bounds t.signed t.size i
    check_wf (Value.bool b) Ty.bool = true
    check_wf (Value.ptr ptr) (Ty.ptr p) =
        matches (meta_kind_of_ptr p) ptr.metadata
        && (addr_valid p (ptr.thin_pointer).addr
            && E.in_bounds unsigned ptr_size (ptr.thin_pointer).addr)
    check_wf (Value.tuple vs) (Ty.tuple fields n align) =
        count_values vs == count_fields fields && check_fields vs fields
    check_wf (Value.tuple vs) (Ty.array elem k) =
        pos (count_values vs) ==ℤ k && all_values (λ v. check_wf v elem) vs
    check_wf (Value.union raw) (Ty.union fields chunks n align) =
        length raw == length chunks && chunk_sizes raw chunks
    check_wf (Value.variant discriminant content) (Ty.enum variants t d n align) =
        check_variant discriminant content variants
    check_wf _ _ = false

    pub check_fields : Values P → Fields → Bool
    check_fields (value v vs) (field offset ty fs) = check_wf v ty && check_fields vs fs
    check_fields no_value _ = true
    check_fields (value v vs) no_field = true

    pub check_variant : ℤ → Value P → Variants → Bool
    check_variant discriminant content no_variant = false
    check_variant discriminant content (variant d ty tagger vs) =
        if d ==ℤ discriminant then check_wf content ty else check_variant discriminant content vs

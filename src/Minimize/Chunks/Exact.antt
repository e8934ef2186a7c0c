-- ===== src/Minimize/Chunks/Exact.antt =====
-- `mark_used_bytes` against the description of the bytes that hold data.
use minirust_contrib_fork.Prelude.{
  ℕ, sym, Option-cases, inl, inr, >>=-assoc_some, >>=-assoc_none, zero, suc, ◌+◌, ◌*◌, Bool, none,
  some, List, [], ◌∷◌, ◌>>=◌, ◌≡◌, subst, ap, ◌∙◌,
}
use minirust_contrib_fork.Lang.Types.{
  Ty, Fields, Variants, Tagger, Discriminator, Children, size, expect_sized, ptr_size,
}
use minirust_contrib_fork.Minimize.Chunks.Used.{
  below, used_chunks, used_tagger, used_discriminator, used_children, stride, or_zero, used_elems,
  used, used_fields, used_variants, IsThin, FieldsThin, VariantsThin,
}
use minirust_contrib_fork.Minimize.Chunks.Marks.{
  Sets-none, Marks, Marks-none, Marks-both, mark_size-Marks, mark_from-Marks,
}
use minirust_contrib_fork.Minimize.Chunks.{
  Mark, mark_size, mark_from, mark_chunks, mark_tagger, mark_discriminator, mark_children,
  mark_elems, rounds, mark_used_bytes, mark_fields, mark_variants,
}

mark_chunks-Marks : (chunks : List (ℕ × ℕ)) → Marks (mark_chunks chunks) (used_chunks chunks)
unfolding mark_chunks
mark_chunks-Marks [] = Marks-none
mark_chunks-Marks ((offset, len) ∷ chunks) =
    Marks-both (mark_from offset (mark_size len)) (mark_chunks chunks) _ _
      (mark_from-Marks offset (mark_size len) (below len) (mark_size-Marks len))
      (mark_chunks-Marks chunks)

mark_tagger-Marks : (tagger : Tagger) → Marks (mark_tagger tagger) (used_tagger tagger)
unfolding mark_tagger
mark_tagger-Marks [] = Marks-none
mark_tagger-Marks ((offset, (ity, value)) ∷ tagger) =
    Marks-both (mark_from offset (mark_size ity.size)) (mark_tagger tagger) _ _
      (mark_from-Marks offset (mark_size ity.size) (below ity.size) (mark_size-Marks ity.size))
      (mark_tagger-Marks tagger)

mutual
  unfolding mark_discriminator mark_children used_discriminator used_children

  mark_discriminator-Marks :
      (d : Discriminator) → Marks (mark_discriminator d) (used_discriminator d)
  mark_discriminator-Marks (Discriminator.known d) = Marks-none
  mark_discriminator-Marks Discriminator.invalid = Marks-none
  mark_discriminator-Marks (Discriminator.branch offset value_type fallback children) =
      Marks-both (mark_from offset (mark_size value_type.size))
        (λ m. mark_discriminator fallback m >>= mark_children children) _ _
        (mark_from-Marks offset (mark_size value_type.size) (below value_type.size)
          (mark_size-Marks value_type.size))
        (Marks-both (mark_discriminator fallback) (mark_children children) _ _
          (mark_discriminator-Marks fallback) (mark_children-Marks children))

  mark_children-Marks : (c : Children) → Marks (mark_children c) (used_children c)
  mark_children-Marks Children.no_child = Marks-none
  mark_children-Marks (Children.child range result children) =
      Marks-both (mark_discriminator result) (mark_children children) _ _
        (mark_discriminator-Marks result) (mark_children-Marks children)

mark_elems-Marks :
    (count k n : ℕ) (elem : Ty) (mark : Mark) (u : ℕ → Bool)
    → (size elem >>= expect_sized) ≡ some n
    → Marks mark u
    → Marks (mark_elems count k elem mark) (used_elems count k n u)
unfolding mark_elems
mark_elems-Marks zero k n elem mark u sized h m m' e = Sets-none e
mark_elems-Marks (suc count) k n elem mark u sized h m m' e =
    Marks-both (mark_from (k * n) mark) (mark_elems count (k + 1) elem mark) _ _
      (mark_from-Marks (k * n) mark u h) (mark_elems-Marks count (k + 1) n elem mark u sized h) m m'
      (sym (>>=-assoc_some (size elem) expect_sized _ sized) ∙ e)

-- Without a size for the elements nothing is marked, or the code panics.
mark_elems_unsized :
    (count k : ℕ) (elem : Ty) (mark : Mark) (u : ℕ → Bool)
    → (size elem >>= expect_sized) ≡ none
    → Marks (mark_elems count k elem mark) (used_elems count k 0 u)
unfolding mark_elems
mark_elems_unsized zero k elem mark u unsized m m' e = Sets-none e
mark_elems_unsized (suc count) k elem mark u unsized m m' e = cc (
    >>=-assoc_none (size elem) expect_sized
      (λ n. mark_from (k * n) mark m >>= mark_elems count (k + 1) elem mark) unsized)

mark_array-Marks :
    (count : ℕ) (elem : Ty) (mark : Mark) (u : ℕ → Bool)
    → Marks mark u
    → Marks (mark_elems count 0 elem mark) (used_elems count 0 (stride elem) u)
mark_array-Marks count elem mark u h = elim (Option-cases (size elem >>= expect_sized)) [
  | inl unsized ↦
      subst (λ n. Marks (mark_elems count 0 elem mark) (used_elems count 0 n u))
        (sym (ap or_zero unsized)) (mark_elems_unsized count 0 elem mark u unsized)
  | inr (n, sized) ↦
      subst (λ n. Marks (mark_elems count 0 elem mark) (used_elems count 0 n u))
        (sym (ap or_zero sized)) (mark_elems-Marks count 0 n elem mark u sized h)
]

mutual
  unfolding mark_used_bytes mark_fields mark_variants used used_fields used_variants IsThin
      FieldsThin VariantsThin

  pub mark_used_bytes-Marks : (t : Ty) → IsThin t → Marks (mark_used_bytes t) (used t)
  mark_used_bytes-Marks (Ty.int t) h = mark_size-Marks t.size
  mark_used_bytes-Marks Ty.bool h = mark_size-Marks 1
  mark_used_bytes-Marks (Ty.ptr p) h = rw h (mark_size-Marks ptr_size)
  mark_used_bytes-Marks (Ty.tuple fields n align) h = mark_fields-Marks fields h
  mark_used_bytes-Marks (Ty.union fields chunks n align) h = mark_chunks-Marks chunks
  mark_used_bytes-Marks (Ty.array elem count) h =
      mark_array-Marks (rounds count) elem (mark_used_bytes elem) (used elem)
        (mark_used_bytes-Marks elem h)
  mark_used_bytes-Marks (Ty.enum variants discriminant_ty discriminator n align) h =
      Marks-both (mark_variants variants) (mark_discriminator discriminator) _ _
        (mark_variants-Marks variants h) (mark_discriminator-Marks discriminator)
  mark_used_bytes-Marks (Ty.slice elem) h = λ m m' e. absurd (cc e)

  pub mark_fields-Marks : (fs : Fields) → FieldsThin fs → Marks (mark_fields fs) (used_fields fs)
  mark_fields-Marks Fields.no_field h = Marks-none
  mark_fields-Marks (Fields.field offset ty fields) h =
      Marks-both (mark_from offset (mark_used_bytes ty)) (mark_fields fields) _ _
        (mark_from-Marks offset (mark_used_bytes ty) (used ty) (mark_used_bytes-Marks ty h.0))
        (mark_fields-Marks fields h.1)

  mark_variants-Marks :
      (vs : Variants) → VariantsThin vs → Marks (mark_variants vs) (used_variants vs)
  mark_variants-Marks Variants.no_variant h = Marks-none
  mark_variants-Marks (Variants.variant discriminant ty tagger variants) h =
      Marks-both (mark_used_bytes ty) (λ m. mark_tagger tagger m >>= mark_variants variants) _ _
        (mark_used_bytes-Marks ty h.0)
        (Marks-both (mark_tagger tagger) (mark_variants variants) _ _ (mark_tagger-Marks tagger)
          (mark_variants-Marks variants h.1))

-- ===== src/Minimize/Chunks/Total.antt =====
-- Where `calc_chunks` and its marks run without a panic.
use minirust_contrib_fork.Prelude.{
  ℕ, zero, suc, ◌+◌, ◌-◌, ◌*◌, ◌≤◌, ◌<◌, ◌^◌, true, false, none, some, List, [], ◌∷◌, ◌++◌, ◌>>=◌,
  ◌≡◌, refl, arith, ap, ◌∙◌, length, replicate, length-replicate, >>=-assoc_some,
}
use minirust_contrib_fork.Lang.Types.{
  Ty, Fields, Variants, Tagger, Discriminator, Children, size, expect_sized, ptr_size,
}
use minirust_contrib_fork.Minimize.Chunks.{
  Markers, Mark, mark_size_from, mark_size, at_offset, mark_from, mark_chunks, mark_tagger,
  mark_discriminator, mark_children, mark_elems, rounds, mark_used_bytes, mark_fields,
  mark_variants, scan, calc_chunks,
}
use minirust_contrib_fork.Minimize.Chunks.Capacity.{try_to_usize_fits, calc_chunks_fits}

abbrev pub ChunksFit : ℕ → List (ℕ × ℕ) → Type 0
ChunksFit n [] = Unit
ChunksFit n ((offset, len) ∷ chunks) = (offset + len ≤ n) × ChunksFit n chunks

abbrev pub TaggerFits : ℕ → Tagger → Type 0
TaggerFits n [] = Unit
TaggerFits n ((offset, (ity, value)) ∷ tagger) = (offset + ity.size ≤ n) × TaggerFits n tagger

unfoldable mutual
  pub DiscriminatorFits : ℕ → Discriminator → Type 0
  DiscriminatorFits n (Discriminator.known d) = Unit
  DiscriminatorFits n Discriminator.invalid = Unit
  DiscriminatorFits n (Discriminator.branch offset value_type fallback children) =
      (offset + value_type.size ≤ n) × DiscriminatorFits n fallback × ChildrenFit n children

  pub ChildrenFit : ℕ → Children → Type 0
  ChildrenFit n Children.no_child = Unit
  ChildrenFit n (Children.child range result children) =
      DiscriminatorFits n result × ChildrenFit n children

-- The type has no part that is a slice, and its parts lie within so many bytes.
unfoldable mutual
  pub Fits : ℕ → Ty → Type 0
  Fits n (Ty.int t) = t.size ≤ n
  Fits n Ty.bool = 1 ≤ n
  Fits n (Ty.ptr p) = ptr_size ≤ n
  Fits n (Ty.tuple fields size align) = FieldsFit n fields
  Fits n (Ty.union fields chunks size align) = ChunksFit n chunks
  Fits n (Ty.array elem count) =
      (k : ℕ) × ((size elem >>= expect_sized) ≡ some k) × (rounds count * k ≤ n) × Fits k elem
  Fits n (Ty.enum variants discriminant_ty discriminator size align) =
      VariantsFit n variants × DiscriminatorFits n discriminator
  Fits n (Ty.slice elem) = ⊥

  pub FieldsFit : ℕ → Fields → Type 0
  FieldsFit n Fields.no_field = Unit
  FieldsFit n (Fields.field offset ty fields) =
      (offset ≤ n) × Fits (n - offset) ty × FieldsFit n fields

  pub VariantsFit : ℕ → Variants → Type 0
  VariantsFit n Variants.no_variant = Unit
  VariantsFit n (Variants.variant discriminant ty tagger variants) =
      Fits n ty × TaggerFits n tagger × VariantsFit n variants

-- On enough bytes, and no more than a vector has, the mark does not panic.
abbrev Runs : ℕ → Mark → Type 0
Runs n mark =
    (m : Markers)
    → n ≤ length m
    → length m < 2 ^ 63
    → (m' : Markers) × (mark m ≡ some m') × (length m' ≡ length m)

Runs-none : (n : ℕ) → Runs n some
Runs-none n m le small = (m, refl, refl)

Runs-both :
    (n : ℕ) (mark mark' : Mark) → Runs n mark → Runs n mark' → Runs n (λ m. mark m >>= mark')
Runs-both n mark mark' h k m le small =
    let q = h m le small in
    let r = k q.0 (omega (arith, q.2)) (omega (arith, q.2)) in (r.0, rw q.1 r.1, r.2 ∙ q.2)

-- The bytes before number `i` count among the ones a vector has.
mark_size_from_runs :
    (i k : ℕ) (m : Markers)
    → k ≤ length m
    → i + length m < 2 ^ 63
    → (m' : Markers) × (mark_size_from i k m ≡ some m') × (length m' ≡ length m)
unfolding mark_size_from
mark_size_from_runs i zero m fits small = (m, refl, refl)
mark_size_from_runs i (suc k) [] fits small = absurd (omega arith)
mark_size_from_runs i (suc k) (b ∷ m) fits small =
    let q = mark_size_from_runs (i + 1) k m (omega arith) (omega arith) in
    (true ∷ q.0, rw (try_to_usize_fits i (omega arith)) (rw q.1), ap suc q.2)

mark_size-Runs : (k n : ℕ) → k ≤ n → Runs n (mark_size k)
unfolding mark_size
mark_size-Runs k n le m fits small = mark_size_from_runs 0 k m (omega arith) (omega arith)

at_offset-Runs : (o n : ℕ) (mark : Mark) → o ≤ n → Runs (n - o) mark → Runs n (at_offset o mark)
unfolding at_offset
at_offset-Runs zero n mark le h m fits small = h m (omega arith) small
at_offset-Runs (suc o) n mark le h [] fits small = absurd (omega arith)
at_offset-Runs (suc o) n mark le h (b ∷ m) fits small =
    let q =
      at_offset-Runs o (n - 1) mark (omega arith) (λ m' f. h m' (omega arith)) m (omega arith)
        (omega arith) in
    (b ∷ q.0, rw q.1, ap suc q.2)

mark_from-Runs : (o n : ℕ) (mark : Mark) → o ≤ n → Runs (n - o) mark → Runs n (mark_from o mark)
unfolding mark_from
mark_from-Runs o n mark le h m fits small =
    rw (try_to_usize_fits o (omega arith)) (at_offset-Runs o n mark le h m fits small)

mark_at-Runs : (o k n : ℕ) → o + k ≤ n → Runs n (mark_from o (mark_size k))
mark_at-Runs o k n le =
    mark_from-Runs o n (mark_size k) (omega arith) (mark_size-Runs k (n - o) (omega arith))

mark_chunks-Runs :
    (n : ℕ) (chunks : List (ℕ × ℕ)) → ChunksFit n chunks → Runs n (mark_chunks chunks)
unfolding mark_chunks
mark_chunks-Runs n [] h = Runs-none n
mark_chunks-Runs n ((offset, len) ∷ chunks) h =
    Runs-both n (mark_from offset (mark_size len)) (mark_chunks chunks)
      (mark_at-Runs offset len n h.0) (mark_chunks-Runs n chunks h.1)

mark_tagger-Runs : (n : ℕ) (tagger : Tagger) → TaggerFits n tagger → Runs n (mark_tagger tagger)
unfolding mark_tagger
mark_tagger-Runs n [] h = Runs-none n
mark_tagger-Runs n ((offset, (ity, value)) ∷ tagger) h =
    Runs-both n (mark_from offset (mark_size ity.size)) (mark_tagger tagger)
      (mark_at-Runs offset ity.size n h.0) (mark_tagger-Runs n tagger h.1)

mutual
  unfolding mark_discriminator mark_children DiscriminatorFits ChildrenFit

  mark_discriminator-Runs :
      (n : ℕ) (d : Discriminator) → DiscriminatorFits n d → Runs n (mark_discriminator d)
  mark_discriminator-Runs n (Discriminator.known d) h = Runs-none n
  mark_discriminator-Runs n Discriminator.invalid h = Runs-none n
  mark_discriminator-Runs n (Discriminator.branch offset value_type fallback children) h =
      Runs-both n (mark_from offset (mark_size value_type.size))
        (λ m. mark_discriminator fallback m >>= mark_children children)
        (mark_at-Runs offset value_type.size n h.0)
        (Runs-both n (mark_discriminator fallback) (mark_children children)
          (mark_discriminator-Runs n fallback h.1) (mark_children-Runs n children h.2))

  mark_children-Runs : (n : ℕ) (c : Children) → ChildrenFit n c → Runs n (mark_children c)
  mark_children-Runs n Children.no_child h = Runs-none n
  mark_children-Runs n (Children.child range result children) h =
      Runs-both n (mark_discriminator result) (mark_children children)
        (mark_discriminator-Runs n result h.0) (mark_children-Runs n children h.1)

mark_elems-Runs :
    (count i k n : ℕ) (elem : Ty) (mark : Mark)
    → (size elem >>= expect_sized) ≡ some k
    → (i + count) * k ≤ n
    → Runs k mark
    → Runs n (mark_elems count i elem mark)
unfolding mark_elems
mark_elems-Runs zero i k n elem mark sized le h m fits small = (m, refl, refl)
mark_elems-Runs (suc count) i k n elem mark sized le h m fits small =
    let q =
      Runs-both n (mark_from (i * k) mark) (mark_elems count (i + 1) elem mark)
        (mark_from-Runs (i * k) n mark (grind arith) (λ m' f. h m' (grind arith)))
        (mark_elems-Runs count (i + 1) k n elem mark sized (grind arith) h) m fits small in
    (q.0, >>=-assoc_some (size elem) expect_sized _ sized ∙ q.1, q.2)

mutual
  unfolding mark_used_bytes mark_fields mark_variants Fits FieldsFit VariantsFit

  mark_used_bytes-Runs : (n : ℕ) (t : Ty) → Fits n t → Runs n (mark_used_bytes t)
  mark_used_bytes-Runs n (Ty.int t) h = mark_size-Runs t.size n h
  mark_used_bytes-Runs n Ty.bool h = mark_size-Runs 1 n h
  mark_used_bytes-Runs n (Ty.ptr p) h = mark_size-Runs ptr_size n h
  mark_used_bytes-Runs n (Ty.tuple fields size align) h = mark_fields-Runs n fields h
  mark_used_bytes-Runs n (Ty.union fields chunks size align) h = mark_chunks-Runs n chunks h
  mark_used_bytes-Runs n (Ty.array elem count) h =
      mark_elems-Runs (rounds count) 0 h.0 n elem (mark_used_bytes elem) h.1 (omega (arith, h.2))
        (mark_used_bytes-Runs h.0 elem h.3)
  mark_used_bytes-Runs n (Ty.enum variants discriminant_ty discriminator size align) h =
      Runs-both n (mark_variants variants) (mark_discriminator discriminator)
        (mark_variants-Runs n variants h.0) (mark_discriminator-Runs n discriminator h.1)
  mark_used_bytes-Runs n (Ty.slice elem) h = absurd h

  mark_fields-Runs : (n : ℕ) (fs : Fields) → FieldsFit n fs → Runs n (mark_fields fs)
  mark_fields-Runs n Fields.no_field h = Runs-none n
  mark_fields-Runs n (Fields.field offset ty fields) h =
      Runs-both n (mark_from offset (mark_used_bytes ty)) (mark_fields fields)
        (mark_from-Runs offset n (mark_used_bytes ty) h.0
          (mark_used_bytes-Runs (n - offset) ty h.1))
        (mark_fields-Runs n fields h.2)

  mark_variants-Runs : (n : ℕ) (vs : Variants) → VariantsFit n vs → Runs n (mark_variants vs)
  mark_variants-Runs n Variants.no_variant h = Runs-none n
  mark_variants-Runs n (Variants.variant discriminant ty tagger variants) h =
      Runs-both n (mark_used_bytes ty) (λ m. mark_tagger tagger m >>= mark_variants variants)
        (mark_used_bytes-Runs n ty h.0)
        (Runs-both n (mark_tagger tagger) (mark_variants variants) (mark_tagger-Runs n tagger h.1)
          (mark_variants-Runs n variants h.2))

-- Where the fields fit into a union of less than 2 ^ 48 bytes, as do the parts of each, and no
-- slice is among the parts, `calc_chunks` returns chunks.
pub calc_chunks_total :
    (fields : Fields) (n : ℕ)
    → n < 2 ^ 48
    → FieldsFit n fields
    → (chunks : List (ℕ × ℕ)) × (calc_chunks fields n ≡ some chunks)
calc_chunks_total fields n small h =
    let len = length-replicate n false in
    let q =
      mark_fields-Runs n fields h (replicate n false) (omega (arith, len)) (omega (arith, len)) in
    (
      scan 0 (q.0 ++ false ∷ []) none,
      calc_chunks_fits fields n q.0 (omega arith) q.1 (omega (arith, len, q.2)),
    )

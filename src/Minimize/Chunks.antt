-- ===== src/Minimize/Chunks.antt =====
-- tooling/minimize/src/chunks.rs: which bytes of a union are kept. `none` is a panic, such as an
-- index past the end of the markers.
pub mod Used
mod Marks
pub mod Exact
pub mod Scan
mod Capacity
pub mod Wide
pub mod Total
use minirust_contrib_fork.Prelude.{
  ℕ, zero, suc, ◌+◌, ◌-◌, ◌*◌, Bool, true, false, Option, none, some, List, [], ◌∷◌, ◌++◌, ◌>>=◌,
  replicate, length, ltb, ◌^◌, if◌then◌else◌,
}
use minirust_contrib_fork.Prelude.Int.{ℤ, pos, negsuc}
use minirust_contrib_fork.Lang.Types.{
  Ty, Fields, Variants, Tagger, Discriminator, Children, size, expect_sized, ptr_size,
}

abbrev pub Markers : Type 0
Markers = List Bool

abbrev pub Mark : Type 0
Mark = Markers → Option Markers

-- `n.try_to_usize().unwrap()`, where a `usize` has 64 bits.
unfoldable pub try_to_usize : ℕ → Option ℕ
try_to_usize n = if ltb n (2 ^ 64) then some n else none

-- `vec![false; s]`: a vector has at most isize::MAX bytes.
unfoldable pub new_markers : ℕ → Option Markers
new_markers s = if ltb s (2 ^ 63) then some (replicate s false) else none

-- `markers.push(false)` on a full vector, whose capacity doubles.
unfoldable pub push_marker : Markers → Option Markers
push_marker markers =
    if ltb (2 * length markers) (2 ^ 63) then some (markers ++ false ∷ []) else none

-- The bytes from number `i` on, `count` of them.
unfoldable pub mark_size_from : ℕ → ℕ → Mark
mark_size_from i zero markers = some markers
mark_size_from i (suc count) [] = none
mark_size_from i (suc count) (b ∷ markers) = do
  index ← try_to_usize i
  marked ← mark_size_from (i + 1) count markers
  some (true ∷ marked)

-- Marks all bytes from 0 to the size.
unfoldable pub mark_size : ℕ → Mark
mark_size n = mark_size_from 0 n

-- A write through `&mut markers[offset..]`.
unfoldable pub at_offset : ℕ → Mark → Mark
at_offset zero mark markers = mark markers
at_offset (suc n) mark [] = none
at_offset (suc n) mark (b ∷ markers) = do marked ← at_offset n mark markers; some (b ∷ marked)

-- The offset as a `usize`, and a write through `&mut markers[offset..]`.
unfoldable pub mark_from : ℕ → Mark → Mark
mark_from offset mark markers = do o ← try_to_usize offset; at_offset o mark markers

unfoldable pub mark_chunks : List (ℕ × ℕ) → Mark
mark_chunks [] markers = some markers
mark_chunks ((offset, len) ∷ chunks) markers = do
  marked ← mark_from offset (mark_size len) markers
  mark_chunks chunks marked

unfoldable pub mark_tagger : Tagger → Mark
mark_tagger [] markers = some markers
mark_tagger ((offset, (ity, value)) ∷ tagger) markers = do
  marked ← mark_from offset (mark_size ity.size) markers
  mark_tagger tagger marked

unfoldable mutual
  pub mark_discriminator : Discriminator → Mark
  mark_discriminator (Discriminator.known d) markers = some markers
  mark_discriminator Discriminator.invalid markers = some markers
  mark_discriminator (Discriminator.branch offset value_type fallback children) markers = do
    marked ← mark_from offset (mark_size value_type.size) markers
    marked' ← mark_discriminator fallback marked
    mark_children children marked'

  pub mark_children : Children → Mark
  mark_children Children.no_child markers = some markers
  mark_children (Children.child range result children) markers = do
    marked ← mark_discriminator result markers
    mark_children children marked

-- The elements from number `i` on, `count` of them.
unfoldable pub mark_elems : ℕ → ℕ → Ty → Mark → Mark
mark_elems zero i elem mark markers = some markers
mark_elems (suc count) i elem mark markers = do
  strategy ← size elem
  elem_size ← expect_sized strategy
  marked ← mark_from (i * elem_size) mark markers
  mark_elems count (i + 1) elem mark marked

abbrev pub rounds : ℤ → ℕ
rounds (pos n) = n
rounds (negsuc n) = 0

unfoldable mutual
  pub mark_used_bytes : Ty → Mark
  mark_used_bytes (Ty.int t) markers = mark_size t.size markers
  mark_used_bytes Ty.bool markers = mark_size 1 markers
  mark_used_bytes (Ty.ptr p) markers = mark_size ptr_size markers
  mark_used_bytes (Ty.tuple fields n align) markers = mark_fields fields markers
  mark_used_bytes (Ty.union fields chunks n align) markers = mark_chunks chunks markers
  mark_used_bytes (Ty.array elem count) markers =
      mark_elems (rounds count) 0 elem (mark_used_bytes elem) markers
  mark_used_bytes (Ty.enum variants discriminant_ty discriminator n align) markers = do
    marked ← mark_variants variants markers
    mark_discriminator discriminator marked
  mark_used_bytes (Ty.slice elem) markers = none

  pub mark_fields : Fields → Mark
  mark_fields Fields.no_field markers = some markers
  mark_fields (Fields.field offset ty fields) markers = do
    marked ← mark_from offset (mark_used_bytes ty) markers
    mark_fields fields marked

  pub mark_variants : Variants → Mark
  mark_variants Variants.no_variant markers = some markers
  mark_variants (Variants.variant discriminant ty tagger variants) markers = do
    marked ← mark_used_bytes ty markers
    marked' ← mark_tagger tagger marked
    mark_variants variants marked'

-- The loop over the markers from number `i` on, with the start of the current chunk.
unfoldable pub scan : ℕ → Markers → Option ℕ → List (ℕ × ℕ)
scan i [] current = []
scan i (true ∷ markers) none = scan (i + 1) markers (some i)
scan i (false ∷ markers) (some s) = (s, i - s) ∷ scan (i + 1) markers none
scan i (b ∷ markers) current = scan (i + 1) markers current

unfoldable pub calc_chunks : Fields → ℕ → Option (List (ℕ × ℕ))
calc_chunks fields size = do
  s ← try_to_usize size
  markers ← new_markers s
  marked ← mark_fields fields markers
  pushed ← push_marker marked
  some (scan 0 pushed none)

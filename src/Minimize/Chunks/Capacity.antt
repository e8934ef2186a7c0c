-- ===== src/Minimize/Chunks/Capacity.antt =====
-- The numbers and the vectors of `calc_chunks` (tooling/minimize/src/chunks.rs) within their limits.
use minirust_contrib_fork.Prelude.{
  ℕ, ◌^◌, ◌<◌, false, none, some, [], ◌∷◌, ◌++◌, ◌≡◌, arith, length, replicate,
}
use minirust_contrib_fork.Lang.Types.{Fields}
use minirust_contrib_fork.Minimize.Chunks.{
  Markers, mark_fields, try_to_usize, new_markers, push_marker, scan, calc_chunks,
}

pub try_to_usize_fits : (n : ℕ) → n < 2 ^ 64 → try_to_usize n ≡ some n
unfolding try_to_usize
try_to_usize_fits n h = ground (arith, h)

new_markers_fits : (n : ℕ) → n < 2 ^ 63 → new_markers n ≡ some (replicate n false)
unfolding new_markers
new_markers_fits n h = ground (arith, h)

push_marker_fits : (m : Markers) → length m < 2 ^ 62 → push_marker m ≡ some (m ++ false ∷ [])
unfolding push_marker
push_marker_fits m h = ground (arith, h)

-- What `calc_chunks` returns where its fields are marked.
pub calc_chunks_fits :
    (fields : Fields) (n : ℕ) (m : Markers)
    → n < 2 ^ 62
    → mark_fields fields (replicate n false) ≡ some m
    → length m ≡ n
    → calc_chunks fields n ≡ some (scan 0 (m ++ false ∷ []) none)
unfolding calc_chunks
calc_chunks_fits fields n m h e len =
    rw (try_to_usize_fits n (omega arith))
      (rw (new_markers_fits n (omega arith)) (rw e (rw (push_marker_fits m (omega (arith, len))))))

-- ===== src/Minimize/Chunks/Scan.antt =====
-- The last loop of `calc_chunks`, which makes chunks of the marked bytes.
use minirust_contrib_fork.Prelude.{
  ℕ, zero, suc, ◌+◌, ◌-◌, ◌≤◌, ◌<◌, Bool, true, false, ◌||◌, ◌&&◌, Option, none, some, List, [],
  ◌∷◌, ◌++◌, ◌≡◌, refl, arith, ltb, leb, length, get_or, replicate, length-replicate, >>=-eq-some,
  subst, subst₂, ap, ◌∙◌,
}
use native.Mathlib.Nat.{sub-zero}
use minirust_contrib_fork.Lang.Types.{Fields}
use minirust_contrib_fork.Minimize.Chunks.{
  Markers, scan, mark_fields, try_to_usize, new_markers, push_marker, calc_chunks,
}
use minirust_contrib_fork.Minimize.Chunks.Marks.{try_to_usize-eq-some}
use minirust_contrib_fork.Minimize.Chunks.Used.{used_fields, used_chunks, FieldsThin}
use minirust_contrib_fork.Minimize.Chunks.Exact.{mark_fields-Marks}

-- The state of the loop before number `i` covers what was marked since the chunk's start.
abbrev open_chunk : Option ℕ → ℕ → ℕ → Bool
open_chunk none i j = false
open_chunk (some s) i j = leb s j && ltb j i

abbrev StartsBefore : Option ℕ → ℕ → Type 0
StartsBefore none i = Unit
StartsBefore (some s) i = s < i

scan-exact :
    (i : ℕ) (m : Markers) (current : Option ℕ) (j : ℕ)
    → StartsBefore current i
    → used_chunks (scan i (m ++ false ∷ []) current) j
      ≡ (open_chunk current i j || (leb i j && get_or m (j - i) false))
unfolding scan
scan-exact i [] none j h = ground arith
scan-exact i [] (some s) j h = ground arith
scan-exact i (true ∷ m) none j h = ground (arith, scan-exact (i + 1) m (some i) j)
scan-exact i (true ∷ m) (some s) j h = ground (arith, scan-exact (i + 1) m (some s) j)
scan-exact i (false ∷ m) none j h = ground (arith, scan-exact (i + 1) m none j)
scan-exact i (false ∷ m) (some s) j h = ground (arith, scan-exact (i + 1) m none j)

-- Non-empty chunks between two bounds, in order, with a gap after each.
abbrev pub IsSeparated : ℕ → ℕ → List (ℕ × ℕ) → Type 0
IsSeparated low high [] = Unit
IsSeparated low high ((start, len) ∷ chunks) =
    (low ≤ start) × (0 < len) × (start + len ≤ high) × IsSeparated (start + len + 1) high chunks

abbrev first_start : Option ℕ → ℕ → ℕ
first_start none i = i
first_start (some s) i = s

IsSeparated-weaken :
    (low low' high : ℕ) (l : List (ℕ × ℕ))
    → low' ≤ low
    → IsSeparated low high l
    → IsSeparated low' high l
IsSeparated-weaken low low' high [] le h = tt
IsSeparated-weaken low low' high ((s, n) ∷ l) le h = (omega arith, h.1, h.2, h.3)

suc_bound : (i n : ℕ) → i + suc n ≡ i + 1 + n
suc_bound i n = omega arith

scan-IsSeparated :
    (i : ℕ) (m : Markers) (current : Option ℕ)
    → StartsBefore current i
    → IsSeparated (first_start current i) (i + length m) (scan i (m ++ false ∷ []) current)
unfolding scan
scan-IsSeparated i [] none h = tt
scan-IsSeparated i [] (some s) h = (omega arith, omega arith, omega arith, tt)
scan-IsSeparated i (true ∷ m) none h =
    rw (suc_bound i (length m)) (scan-IsSeparated (i + 1) m (some i) (omega arith))
scan-IsSeparated i (true ∷ m) (some s) h =
    rw (suc_bound i (length m)) (scan-IsSeparated (i + 1) m (some s) (omega arith))
scan-IsSeparated i (false ∷ m) none h =
    IsSeparated-weaken (i + 1) i _ _ (omega arith)
      (rw (suc_bound i (length m)) (scan-IsSeparated (i + 1) m none tt))
scan-IsSeparated i (false ∷ m) (some s) h = (
  omega arith,
  omega arith,
  omega arith,
  IsSeparated-weaken (i + 1) (s + (i - s) + 1) _ _ (omega arith)
      (rw (suc_bound i (length m)) (scan-IsSeparated (i + 1) m none tt)),
)

get_or-replicate : (n j : ℕ) → get_or (replicate n false) j false ≡ false
get_or-replicate zero j = refl
get_or-replicate (suc n) zero = refl
get_or-replicate (suc n) (suc j) = get_or-replicate n j

some-eq : {l l' : List (ℕ × ℕ)} → some l ≡ some l' → l ≡ l'
some-eq e = cc

new_markers-eq-some : (n : ℕ) {m : Markers} → new_markers n ≡ some m → m ≡ replicate n false
unfolding new_markers
new_markers-eq-some n e = ground (arith, e)

push_marker-eq-some : (m : Markers) {m' : Markers} → push_marker m ≡ some m' → m' ≡ m ++ false ∷ []
unfolding push_marker
push_marker-eq-some m e = ground (arith, e)

-- What ran where `calc_chunks` returned.
calc_chunks-eq-some :
    (fields : Fields) (n : ℕ) {chunks : List (ℕ × ℕ)}
    → calc_chunks fields n ≡ some chunks
    → (m : Markers) × (mark_fields fields (replicate n false) ≡ some m)
      × (scan 0 (m ++ false ∷ []) none ≡ chunks)
unfolding calc_chunks
calc_chunks-eq-some fields n {chunks} e =
    let a = >>=-eq-some (try_to_usize n) _ e in
    let b = >>=-eq-some (new_markers a.0) _ a.2 in
    let c = >>=-eq-some (mark_fields fields b.0) _ b.2 in
    let d = >>=-eq-some (push_marker c.0) (λ l. some (scan 0 l none)) c.2 in
    (
      c.0,
      subst (λ l. mark_fields fields l ≡ some c.0)
          (new_markers-eq-some a.0 b.1 ∙ ap (λ k. replicate k false) (try_to_usize-eq-some n a.1))
          c.1,
      subst (λ l. scan 0 l none ≡ chunks) (push_marker-eq-some c.0 d.1) (some-eq d.2),
    )

-- Where no field has a part that is a wide pointer and `calc_chunks` returns, its chunks cover
-- exactly the bytes that hold data of some field: no byte of padding, and every other.
pub calc_chunks-exact :
    (fields : Fields) (n : ℕ) (chunks : List (ℕ × ℕ))
    → FieldsThin fields
    → calc_chunks fields n ≡ some chunks
    → (j : ℕ) → used_chunks chunks j ≡ used_fields fields j
calc_chunks-exact fields n chunks thin_fields e j =
    let q = calc_chunks-eq-some fields n e in
    let marked = mark_fields-Marks fields thin_fields (replicate n false) q.0 q.1 in
    let scanned = scan-exact 0 q.0 none j tt in
    subst (λ l. used_chunks l j ≡ used_fields fields j) q.2
      (ground (arith, scanned, marked.1 j, get_or-replicate n j, sub-zero j))

-- Where no field has a part that is a wide pointer and `calc_chunks` returns, its chunks are in
-- order, not empty, with a gap between them, and within the size of the union.
pub calc_chunks-IsSeparated :
    (fields : Fields) (n : ℕ) (chunks : List (ℕ × ℕ))
    → FieldsThin fields
    → calc_chunks fields n ≡ some chunks
    → IsSeparated 0 n chunks
calc_chunks-IsSeparated fields n chunks thin_fields e =
    let q = calc_chunks-eq-some fields n e in
    let marked = mark_fields-Marks fields thin_fields (replicate n false) q.0 q.1 in
    subst₂ (λ k l. IsSeparated 0 k l) (omega (arith, marked.0, length-replicate n false)) q.2
      (scan-IsSeparated 0 q.0 none tt)

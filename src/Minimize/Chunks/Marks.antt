-- ===== src/Minimize/Chunks/Marks.antt =====
-- What one mark does, and two marks one after the other.
use minirust_contrib_fork.Prelude.{
  ℕ, zero, suc, ◌+◌, Bool, true, false, ◌||◌, some, [], ◌∷◌, ◌>>=◌, ◌≡◌, refl, subst, ap, ◌∙◌,
  >>=-eq-some, arith, length, get_or,
}
use native.Mathlib.Nat.{sub-zero}
use minirust_contrib_fork.Minimize.Chunks.Used.{shift, below}
use minirust_contrib_fork.Minimize.Chunks.{
  Markers, Mark, try_to_usize, mark_size_from, mark_size, at_offset, mark_from,
}

-- `m'` is `m` with exactly the bytes of the set marked too.
abbrev pub Sets : Markers → Markers → (ℕ → Bool) → Type 0
Sets m m' u = (length m' ≡ length m) × ((i : ℕ) → get_or m' i false ≡ (get_or m i false || u i))

abbrev pub Marks : Mark → (ℕ → Bool) → Type 0
Marks mark u = (m m' : Markers) → mark m ≡ some m' → Sets m m' u

some-eq : {m m' : Markers} → some m ≡ some m' → m ≡ m'
some-eq e = cc

pub Sets-none : {m m' : Markers} → some m ≡ some m' → Sets m m' (λ _. false)
Sets-none {m} e = subst (λ x. Sets m x (λ _. false)) (some-eq e) (refl, λ i. ground arith)

pub Sets-both :
    (m m' m'' : Markers) (u u' : ℕ → Bool)
    → Sets m m' u
    → Sets m' m'' u'
    → Sets m m'' (λ i. u i || u' i)
Sets-both m m' m'' u u' h k = (k.0 ∙ h.0, λ i. ground (arith, h.1 i, k.1 i))

-- One mark after another.
pub Marks-both :
    (mark mark' : Mark) (u u' : ℕ → Bool)
    → Marks mark u
    → Marks mark' u'
    → Marks (λ m. mark m >>= mark') (λ i. u i || u' i)
Marks-both mark mark' u u' h k m m' e =
    let q = >>=-eq-some (mark m) mark' e in Sets-both m q.0 m' u u' (h m q.0 q.1) (k q.0 m' q.2)

mark_size_at :
    (n : ℕ) (b : Bool) (m t : Markers)
    → Sets m t (below n)
    → Sets (b ∷ m) (true ∷ t) (below (suc n))
mark_size_at n b m t h = (ap suc h.0, at)
  where
    at : (i : ℕ) → get_or (true ∷ t) i false ≡ (get_or (b ∷ m) i false || below (suc n) i)
    at zero = ground arith
    at (suc i) = ground (arith, h.1 i)

pub try_to_usize-eq-some : (n : ℕ) {k : ℕ} → try_to_usize n ≡ some k → k ≡ n
unfolding try_to_usize
try_to_usize-eq-some n e = ground (arith, e)

mark_size_from-Marks : (i n : ℕ) → Marks (mark_size_from i n) (below n)
unfolding mark_size_from
mark_size_from-Marks i zero m m' e = let q = Sets-none e in (q.0, λ j. ground (arith, q.1 j))
mark_size_from-Marks i (suc n) [] m' e = cc
mark_size_from-Marks i (suc n) (b ∷ m) m' e =
    let p = >>=-eq-some (try_to_usize i) _ e in
    let q = >>=-eq-some (mark_size_from (i + 1) n m) _ p.2 in
    subst (λ x. Sets (b ∷ m) x (below (suc n))) (some-eq q.2)
      (mark_size_at n b m q.0 (mark_size_from-Marks (i + 1) n m q.0 q.1))

pub mark_size-Marks : (n : ℕ) → Marks (mark_size n) (below n)
unfolding mark_size
mark_size-Marks n = mark_size_from-Marks 0 n

at_offset_at :
    (o : ℕ) (b : Bool) (m t : Markers) (u : ℕ → Bool)
    → Sets m t (shift o u)
    → Sets (b ∷ m) (b ∷ t) (shift (suc o) u)
at_offset_at o b m t u h = (ap suc h.0, at)
  where
    at : (i : ℕ) → get_or (b ∷ t) i false ≡ (get_or (b ∷ m) i false || shift (suc o) u i)
    at zero = ground arith
    at (suc i) = ground (arith, h.1 i)

at_offset-Marks :
    (o : ℕ) (mark : Mark) (u : ℕ → Bool) → Marks mark u → Marks (at_offset o mark) (shift o u)
unfolding at_offset
at_offset-Marks zero mark u h m m' e =
    ((h m m' e).0, λ i. rw sub-zero (ground (arith, (h m m' e).1 i)))
at_offset-Marks (suc o) mark u h [] m' e = cc
at_offset-Marks (suc o) mark u h (b ∷ m) m' e =
    let q = >>=-eq-some (at_offset o mark m) _ e in
    subst (λ x. Sets (b ∷ m) x (shift (suc o) u)) (some-eq q.2)
      (at_offset_at o b m q.0 u (at_offset-Marks o mark u h m q.0 q.1))

pub mark_from-Marks :
    (o : ℕ) (mark : Mark) (u : ℕ → Bool) → Marks mark u → Marks (mark_from o mark) (shift o u)
unfolding mark_from
mark_from-Marks o mark u h m m' e =
    let q = >>=-eq-some (try_to_usize o) (λ k. at_offset k mark m) e in
    at_offset-Marks o mark u h m m'
      (subst (λ k. at_offset k mark m ≡ some m') (try_to_usize-eq-some o q.1) q.2)

-- Nothing is marked.
pub Marks-none : Marks some (λ _. false)
Marks-none m m' e = Sets-none e

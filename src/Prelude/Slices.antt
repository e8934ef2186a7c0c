-- ===== src/Prelude/Slices.antt =====
-- `List` of the specification language as an array: elements and sublists read and written by
-- position. Out of range is a panic.
use minirust_contrib_fork.Prelude.Lists.{length}
use minirust_contrib_fork.Prelude.Outcome.{Outcome, ret, ub, panics, ret_inj}
use Prim.Native.Nat.{ℕ, zero, suc, ◌+◌, ◌≤◌, ◌<◌}
use mathlib.Core.Path.{◌≡◌, refl, sym, ap}
use mathlib.Core.Logic.{◌≢◌, ◌⊎◌, inl, inr}
use mathlib.Core.List.{List, [], ◌∷◌, ◌++◌}
use native.Mathlib.Omega.{arith}

module _ {ℓ} {A : Type ℓ} where
  -- Puts an element before a list that was made.
  unfoldable pub onto : A → Outcome (List A) → Outcome (List A)
  onto x (ret l) = ret (x ∷ l)
  onto x ub = ub
  onto x panics = panics

  -- `list[i]`
  unfoldable pub index : List A → ℕ → Outcome A
  index [] i = panics
  index (x ∷ xs) zero = ret x
  index (x ∷ xs) (suc i) = index xs i

  unfoldable pub set : List A → ℕ → A → Outcome (List A)
  unfolding onto
  set [] i v = panics
  set (x ∷ xs) zero v = ret (v ∷ xs)
  set (x ∷ xs) (suc i) v = onto x (set xs i v)

  unfoldable pub subslice_with_length : List A → ℕ → ℕ → Outcome (List A)
  unfolding onto
  subslice_with_length l zero zero = ret []
  subslice_with_length [] zero (suc n) = panics
  subslice_with_length (x ∷ l) zero (suc n) = onto x (subslice_with_length l zero n)
  subslice_with_length [] (suc i) n = panics
  subslice_with_length (x ∷ l) (suc i) n = subslice_with_length l i n

  unfoldable pub write_subslice_at_index : List A → ℕ → List A → Outcome (List A)
  unfolding onto
  write_subslice_at_index l zero [] = ret l
  write_subslice_at_index [] zero (b ∷ bs) = panics
  write_subslice_at_index (x ∷ l) zero (b ∷ bs) = onto b (write_subslice_at_index l zero bs)
  write_subslice_at_index [] (suc i) bs = panics
  write_subslice_at_index (x ∷ l) (suc i) bs = onto x (write_subslice_at_index l i bs)

  pub onto-eq-ret :
      (x : A) (o : Outcome (List A)) {m : List A}
      → onto x o ≡ ret m
      → (l : List A) × (o ≡ ret l) × (m ≡ x ∷ l)
  unfolding onto
  onto-eq-ret x (ret l) e = (l, refl, cc)
  onto-eq-ret x ub e = cc
  onto-eq-ret x panics e = cc

  pub index-set_self :
      (l : List A) (i : ℕ) (v : A) {m : List A} → set l i v ≡ ret m → index m i ≡ ret v
  unfolding index set
  index-set_self [] i v e = cc
  index-set_self (x ∷ l) zero v e = ground (arith, e)
  index-set_self (x ∷ l) (suc i) v e =
      let q = onto-eq-ret x (set l i v) e in ground (arith, q, index-set_self l i v q.1)

  pub index-set_other :
      (l : List A) (i j : ℕ) (v : A) {m : List A}
      → i ≢ j
      → set l i v ≡ ret m
      → index m j ≡ index l j
  unfolding index set
  index-set_other [] i j v ne e = cc
  index-set_other (x ∷ l) zero zero v ne e = absurd (ne refl)
  index-set_other (x ∷ l) zero (suc j) v ne e = ground (arith, e)
  index-set_other (x ∷ l) (suc i) zero v ne e =
      let q = onto-eq-ret x (set l i v) e in ground (arith, q)
  index-set_other (x ∷ l) (suc i) (suc j) v ne e =
      let q = onto-eq-ret x (set l i v) e in
      ground (arith, q, index-set_other l i j v (λ h. ne (ap suc h)) q.1)

  pub length-set :
      (l : List A) (i : ℕ) (v : A) {m : List A} → set l i v ≡ ret m → length m ≡ length l
  unfolding set
  length-set [] i v e = cc
  length-set (x ∷ l) zero v e = ground (arith, e)
  length-set (x ∷ l) (suc i) v e =
      let q = onto-eq-ret x (set l i v) e in ground (arith, q, length-set l i v q.1)

  pub set_total :
      (l : List A) (i : ℕ) (v : A) {a : A} → index l i ≡ ret a → (m : List A) × (set l i v ≡ ret m)
  unfolding index set
  set_total [] i v e = cc
  set_total (x ∷ l) zero v e = (v ∷ l, refl)
  set_total (x ∷ l) (suc i) v e = let q = set_total l i v e in (x ∷ q.0, rw q.1)

  pub length-write :
      (l : List A) (i : ℕ) (bs : List A) {m : List A}
      → write_subslice_at_index l i bs ≡ ret m
      → length m ≡ length l
  unfolding write_subslice_at_index
  length-write l zero [] e = ground (arith, e)
  length-write [] zero (b ∷ bs) e = cc
  length-write (x ∷ l) zero (b ∷ bs) e =
      let q = onto-eq-ret b (write_subslice_at_index l zero bs) e in
      ground (arith, q, length-write l zero bs q.1)
  length-write [] (suc i) bs e = cc
  length-write (x ∷ l) (suc i) bs e =
      let q = onto-eq-ret x (write_subslice_at_index l i bs) e in
      ground (arith, q, length-write l i bs q.1)

  pub subslice-write_self :
      (l : List A) (i : ℕ) (bs : List A) {m : List A}
      → write_subslice_at_index l i bs ≡ ret m
      → subslice_with_length m i (length bs) ≡ ret bs
  unfolding write_subslice_at_index subslice_with_length
  subslice-write_self l zero [] e = refl
  subslice-write_self [] zero (b ∷ bs) e = cc
  subslice-write_self (x ∷ l) zero (b ∷ bs) e =
      let q = onto-eq-ret b (write_subslice_at_index l zero bs) e in
      rw q.2 (rw (subslice-write_self l zero bs q.1))
  subslice-write_self [] (suc i) bs e = cc
  subslice-write_self (x ∷ l) (suc i) bs e =
      let q = onto-eq-ret x (write_subslice_at_index l i bs) e in
      rw q.2 (subslice-write_self l i bs q.1)

  -- A write leaves a sublist alone that ends before it or starts after it.
  pub subslice-write_before :
      (l : List A) (i : ℕ) (bs : List A) (j n : ℕ) {m : List A}
      → j + n ≤ i
      → write_subslice_at_index l i bs ≡ ret m
      → subslice_with_length m j n ≡ subslice_with_length l j n
  unfolding write_subslice_at_index subslice_with_length
  subslice-write_before l zero bs zero zero le e = refl
  subslice-write_before l zero bs zero (suc n) le e = absurd (omega arith)
  subslice-write_before l zero bs (suc j) n le e = absurd (omega arith)
  subslice-write_before [] (suc i) bs j n le e = cc
  subslice-write_before (x ∷ l) (suc i) bs zero zero le e = refl
  subslice-write_before (x ∷ l) (suc i) bs zero (suc n) le e =
      let q = onto-eq-ret x (write_subslice_at_index l i bs) e in
      rw q.2 (ap (onto x) (subslice-write_before l i bs zero n (omega arith) q.1))
  subslice-write_before (x ∷ l) (suc i) bs (suc j) n le e =
      let q = onto-eq-ret x (write_subslice_at_index l i bs) e in
      rw q.2 (subslice-write_before l i bs j n (omega arith) q.1)

  pub subslice-write_after :
      (l : List A) (i : ℕ) (bs : List A) (j n : ℕ) {m : List A}
      → i + length bs ≤ j
      → write_subslice_at_index l i bs ≡ ret m
      → subslice_with_length m j n ≡ subslice_with_length l j n
  unfolding write_subslice_at_index subslice_with_length
  subslice-write_after l zero [] j n le e = ground (arith, e)
  subslice-write_after [] zero (b ∷ bs) j n le e = cc
  subslice-write_after (x ∷ l) zero (b ∷ bs) zero n le e = absurd (omega arith)
  subslice-write_after (x ∷ l) zero (b ∷ bs) (suc j) n le e =
      let q = onto-eq-ret b (write_subslice_at_index l zero bs) e in
      rw q.2 (subslice-write_after l zero bs j n (omega arith) q.1)
  subslice-write_after [] (suc i) bs j n le e = cc
  subslice-write_after (x ∷ l) (suc i) bs zero n le e = absurd (omega arith)
  subslice-write_after (x ∷ l) (suc i) bs (suc j) n le e =
      let q = onto-eq-ret x (write_subslice_at_index l i bs) e in
      rw q.2 (subslice-write_after l i bs j n (omega arith) q.1)

  pub subslice_total :
      (l : List A) (i n : ℕ)
      → i + n ≤ length l
      → (r : List A) × (subslice_with_length l i n ≡ ret r)
  unfolding subslice_with_length
  subslice_total l zero zero le = ([], refl)
  subslice_total [] zero (suc n) le = absurd (omega arith)
  subslice_total (x ∷ l) zero (suc n) le =
      let q = subslice_total l zero n (omega arith) in (x ∷ q.0, rw q.1)
  subslice_total [] (suc i) n le = absurd (omega arith)
  subslice_total (x ∷ l) (suc i) n le = subslice_total l i n (omega arith)

  pub write_total :
      (l : List A) (i : ℕ) (bs : List A)
      → i + length bs ≤ length l
      → (m : List A) × (write_subslice_at_index l i bs ≡ ret m)
  unfolding write_subslice_at_index
  write_total l zero [] le = (l, refl)
  write_total [] zero (b ∷ bs) le = absurd (omega arith)
  write_total (x ∷ l) zero (b ∷ bs) le =
      let q = write_total l zero bs (omega arith) in (b ∷ q.0, rw q.1)
  write_total [] (suc i) bs le = absurd (omega arith)
  write_total (x ∷ l) (suc i) bs le = let q = write_total l i bs (omega arith) in (x ∷ q.0, rw q.1)

  pub length-subslice :
      (l : List A) (i n : ℕ) {r : List A}
      → subslice_with_length l i n ≡ ret r
      → (length r ≡ n) × (i + n ≤ length l)
  unfolding subslice_with_length
  length-subslice l zero zero e = ground (arith, e)
  length-subslice [] zero (suc n) e = cc
  length-subslice (x ∷ l) zero (suc n) e =
      let q = onto-eq-ret x (subslice_with_length l zero n) e in
      ground (arith, q, length-subslice l zero n q.1)
  length-subslice [] (suc i) n e = cc
  length-subslice (x ∷ l) (suc i) n e = ground (arith, length-subslice l i n e)

  pub index-append : (l r : List A) (i : ℕ) {v : A} → index l i ≡ ret v → index (l ++ r) i ≡ ret v
  unfolding index
  index-append [] r i e = cc
  index-append (x ∷ l) r zero e = e
  index-append (x ∷ l) r (suc i) e = index-append l r i e

  -- An element of a list that was extended by one is an old one or the new one.
  pub index-append_cases :
      (l : List A) (x : A) (i : ℕ) {v : A}
      → index (l ++ x ∷ []) i ≡ ret v
      → (index l i ≡ ret v) ⊎ ((i ≡ length l) × (v ≡ x))
  unfolding index
  index-append_cases [] x zero e = inr (refl, ground (arith, e))
  index-append_cases [] x (suc i) e = cc
  index-append_cases (y ∷ l) x zero e = inl e
  index-append_cases (y ∷ l) x (suc i) e = elim (index-append_cases l x i e) [
    | inl old ↦ inl old
    | inr new ↦ inr (ap suc new.0, new.1)
  ]

  pub index-lt : (l : List A) (i : ℕ) {v : A} → index l i ≡ ret v → i < length l
  unfolding index
  index-lt [] i e = cc
  index-lt (x ∷ l) zero e = omega arith
  index-lt (x ∷ l) (suc i) e = let q = index-lt l i e in omega arith

  pub index-append_end : (l : List A) (x : A) → index (l ++ x ∷ []) (length l) ≡ ret x
  unfolding index
  index-append_end [] x = refl
  index-append_end (y ∷ l) x = index-append_end l x

  pub index_total : (l : List A) (i : ℕ) → i < length l → (a : A) × (index l i ≡ ret a)
  unfolding index
  index_total [] i h = absurd (omega arith)
  index_total (x ∷ l) zero h = (x, refl)
  index_total (x ∷ l) (suc i) h = index_total l i (omega arith)

  pub subslice_all : (l : List A) → subslice_with_length l 0 (length l) ≡ ret l
  unfolding subslice_with_length
  subslice_all [] = refl
  subslice_all (x ∷ l) = ap (onto x) (subslice_all l)

  -- Two sublists of which one ends where the other begins.
  pub subslice-append :
      (l : List A) (i a j b n : ℕ) {p q : List A}
      → j ≡ i + a
      → n ≡ a + b
      → subslice_with_length l i a ≡ ret p
      → subslice_with_length l j b ≡ ret q
      → subslice_with_length l i n ≡ ret (p ++ q)
  unfolding subslice_with_length onto
  subslice-append l zero zero j b n at len e e' =
      let j_eq : j ≡ 0 = omega arith in
      let n_eq : b ≡ n = omega arith in rw (sym (ret_inj e)) (rw n_eq at (rw j_eq at e'))
  subslice-append [] zero (suc a) j b n at len e e' = cc
  subslice-append (x ∷ l) zero (suc a) zero b n at len e e' = absurd (omega arith)
  subslice-append (x ∷ l) zero (suc a) (suc j) b zero at len e e' = absurd (omega arith)
  subslice-append (x ∷ l) zero (suc a) (suc j) b (suc n) at len e e' =
      let q = onto-eq-ret x (subslice_with_length l zero a) e in
      rw (subslice-append l zero a j b n (omega arith) (omega arith) q.1 e') (rw q.2 refl)
  subslice-append [] (suc i) a j b n at len e e' = cc
  subslice-append (x ∷ l) (suc i) a zero b n at len e e' = absurd (omega arith)
  subslice-append (x ∷ l) (suc i) a (suc j) b n at len e e' =
      subslice-append l i a j b n (omega arith) len e e'

  pub subslice_none : (l : List A) (i : ℕ) → i ≤ length l → subslice_with_length l i 0 ≡ ret []
  unfolding subslice_with_length
  subslice_none l zero le = refl
  subslice_none [] (suc i) le = absurd (omega arith)
  subslice_none (x ∷ l) (suc i) le = subslice_none l i (omega arith)

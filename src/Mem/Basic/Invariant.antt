-- ===== src/Mem/Basic/Invariant.antt =====
-- The invariant of the memory that `Allocation` documents, and the one that `pick` is for: live
-- allocations do not overlap.
use minirust_contrib_fork.Prelude.{
  ℕ, zero, suc, [], ◌∷◌, ◌++◌, ◌≡◌, ◌≢◌, ◌==◌, ◌∙◌, ◌||◌, Bool, true, false, refl, sym, arith,
  length, Bool-cases, inl, inr, if◌then◌else◌, length-replicate,
}
use minirust_contrib_fork.Prelude.Int.{ℤ, pos, ◌+ℤ◌, int_leb, int_ltb, ==ℤ_comm, not-int_leb}
use minirust_contrib_fork.Prelude.Outcome.{ret}
use minirust_contrib_fork.Prelude.Slices.{
  index, set, index-set_self, index-set_other, index-append_cases,
}
use minirust_contrib_fork.Mem.Pointer.{AbstractByte, uninit, AllocationKind, is_aligned, fits_usize}
use minirust_contrib_fork.Mem.Basic.{
  AllocId, Allocation, Memory, new_allocation, overlaps, any_overlap, is_good,
}
use minirust_contrib_fork.Mem.Basic.Steps.{
  Steps, start, go_on, Later, Change, same, added, changed, Step-Change,
}

or_comm :
    (x y : Bool) {c d : Bool} → c ≡ d → (if x || y then c else true) ≡ (if y || x then d else true)
or_comm false false e = refl
or_comm true false e = e
or_comm false true e = e
or_comm true true e = e

module _ {PE AE : Type 0} where
  -- The address is never 0 and a multiple of the alignment, and the end fits into a `usize`.
  pub record Placed (a : Allocation PE AE) : Type 0 where
    pub positive : int_ltb (pos 0) a.addr ≡ true
    pub multiple : is_aligned a.align a.addr ≡ true
    pub fits : fits_usize (a.addr +ℤ pos (length a.contents)) ≡ true

  pub record IsValid (m : Memory PE AE) : Type 0 where
    pub placed : (i : AllocId) (a : Allocation PE AE) → index m i ≡ ret a → Placed a
    pub disjoint :
        (i j : AllocId) (a b : Allocation PE AE)
        → i ≢ j
        → index m i ≡ ret a
        → index m j ≡ ret b
        → a.live ≡ true
        → b.live ≡ true
        → overlaps a b.addr (length b.contents) ≡ false

  overlaps_sym :
      (a b : Allocation PE AE)
      → overlaps a b.addr (length b.contents) ≡ false
      → overlaps b a.addr (length a.contents) ≡ false
  unfolding overlaps
  overlaps_sym a b e =
      or_comm (int_leb (b.addr +ℤ pos (length b.contents)) a.addr)
        (int_leb (a.addr +ℤ pos (length a.contents)) b.addr) (==ℤ_comm b.addr a.addr)
      ∙ e

  any_overlap-false :
      (m : Memory PE AE) (addr : ℤ) (size i : ℕ) {a : Allocation PE AE}
      → any_overlap m addr size ≡ false
      → index m i ≡ ret a
      → a.live ≡ true
      → overlaps a addr size ≡ false
  unfolding any_overlap index
  any_overlap-false [] addr size i none_overlaps found live = cc
  any_overlap-false (x ∷ m) addr size zero none_overlaps found live =
      ground (arith, found, live, none_overlaps)
  any_overlap-false (x ∷ m) addr size (suc i) none_overlaps found live =
      any_overlap-false m addr size i (ground (arith, none_overlaps)) found live

  -- What `pick` tested of the address of a new allocation.
  is_good-Placed :
      (m : Memory PE AE) (kind : AllocationKind) (addr : ℤ) (size align : ℕ) (extra : AE)
      → is_good m addr size align ≡ true
      → Placed (new_allocation kind size align extra addr) × (any_overlap m addr size ≡ false)
  unfolding is_good new_allocation
  is_good-Placed m kind addr size align extra good = (
    record {
      positive = not-int_leb addr (pos 0) (ground (arith, good));
      multiple = ground (arith, good);
      fits =
          rw (length-replicate {A = AbstractByte (AllocId × PE)} size uninit)
            (ground (arith, good));
    },
    ground (arith, good),
  )

  Later-Placed : (a b : Allocation PE AE) → Later a b → Placed a → Placed b
  Later-Placed a b later placed = record {
    positive = rw later.addr_eq placed.positive;
    multiple = rw later.addr_eq (rw later.align_eq placed.multiple);
    fits = rw later.addr_eq (rw later.length_eq placed.fits);
  }

  Later-overlaps :
      (a a' b b' : Allocation PE AE)
      → Later a a'
      → Later b b'
      → overlaps a' b'.addr (length b'.contents) ≡ overlaps a b.addr (length b.contents)
  unfolding overlaps
  Later-overlaps a a' b b' later later' =
      rw later.addr_eq (rw later.length_eq (rw later'.addr_eq (rw later'.length_eq refl)))

  -- Where an allocation was changed, each allocation was there before.
  changed-Later :
      (m m' : Memory PE AE) (id : AllocId) (a b : Allocation PE AE)
      → index m id ≡ ret a
      → Later a b
      → set m id b ≡ ret m'
      → (i : AllocId) (x : Allocation PE AE) → index m' i ≡ ret x
      → (y : Allocation PE AE) × (index m i ≡ ret y) × Later y x
  changed-Later m m' id a b found later s i x at_i = elim (Bool-cases (id == i)) [
    | inl here ↦
        let id_eq : id ≡ i = ground (arith, here) in
        let b_eq : b ≡ x = ground (arith, id_eq, at_i, index-set_self m id b s) in
        (a, rw (sym id_eq) found, rw (sym b_eq) later)
    | inr other ↦ (
      x,
      sym (index-set_other m id i b (ground (arith, other)) s) ∙ at_i,
      record { addr_eq = refl; align_eq = refl; length_eq = refl; live_if = λ h. h },
    )
  ]

  -- A new allocation does not overlap the live ones.
  added-clear :
      (m : Memory PE AE) (kind : AllocationKind) (size align : ℕ) (extra : AE) (addr : ℤ)
      → is_good m addr size align ≡ true
      → (i : AllocId) (a x : Allocation PE AE) → index m i ≡ ret a
      → a.live ≡ true
      → x ≡ new_allocation kind size align extra addr
      → overlaps a x.addr (length x.contents) ≡ false
  unfolding new_allocation
  added-clear m kind size align extra addr good i a x at_i live x_eq = rw x_eq (
      rw (length-replicate {A = AbstractByte (AllocId × PE)} size uninit) (
        any_overlap-false m addr size i ((is_good-Placed m kind addr size align extra good).1) at_i
          live))

  added-disjoint :
      (m : Memory PE AE) (kind : AllocationKind) (size align : ℕ) (extra : AE) (addr : ℤ)
      → IsValid m
      → is_good m addr size align ≡ true
      → (i j : AllocId) (a b : Allocation PE AE) → i ≢ j
      → index (m ++ new_allocation kind size align extra addr ∷ []) i ≡ ret a
      → index (m ++ new_allocation kind size align extra addr ∷ []) j ≡ ret b
      → a.live ≡ true
      → b.live ≡ true
      → overlaps a b.addr (length b.contents) ≡ false
  added-disjoint m kind size align extra addr valid good i j a b ne at_i at_j live_a live_b =
      let x = new_allocation kind size align extra addr in
      elim (index-append_cases m x i at_i) [
        | inl old_i ↦ elim (index-append_cases m x j at_j) [
          | inl old_j ↦ valid.disjoint i j a b ne old_i old_j live_a live_b
          | inr new_j ↦ added-clear m kind size align extra addr good i a b old_i live_a new_j.1
        ]
        | inr new_i ↦ elim (index-append_cases m x j at_j) [
          | inl old_j ↦
              overlaps_sym b a
                (added-clear m kind size align extra addr good j b a old_j live_b new_i.1)
          | inr new_j ↦ absurd (ne (new_i.0 ∙ sym new_j.0))
        ]
      ]

  Change-IsValid : (m m' : Memory PE AE) → Change m m' → IsValid m → IsValid m'
  Change-IsValid m m' (same e) valid = rw e valid
  Change-IsValid m m' (added kind size align extra addr good e) valid = rw e (record {
    placed = λ i a at_i.
        elim (index-append_cases m (new_allocation kind size align extra addr) i at_i) [
          | inl old ↦ valid.placed i a old
          | inr new ↦ rw new.1 ((is_good-Placed m kind addr size align extra good).0)
        ];
    disjoint = added-disjoint m kind size align extra addr valid good;
  })
  Change-IsValid m m' (changed id a b found later s) valid = record {
    placed = λ i x at_i.
        let (y, at_y, l) = changed-Later m m' id a b found later s i x at_i in
        Later-Placed y x l (valid.placed i y at_y);
    disjoint = λ i j x x' ne at_i at_j live live'.
        let (y, at_y, l) = changed-Later m m' id a b found later s i x at_i in
        let (y', at_y', l') = changed-Later m m' id a b found later s j x' at_j in
        Later-overlaps y x y' x' l l'
        ∙ valid.disjoint i j y y' ne at_y at_y' (l.live_if live) (l'.live_if live');
  }

  -- In a memory that is reached from the empty one by any sequence of successful allocations,
  -- deallocations, stores and loads, with any arguments and handlers of the extra data, each
  -- allocation has an address above 0 that is a multiple of its alignment and an end that fits into
  -- a `usize`, and two live allocations do not overlap, not even in the sense of having one address.
  pub Steps-IsValid : (m : Memory PE AE) → Steps [] m → IsValid m
  unfolding index
  Steps-IsValid m start = record { placed = λ i a e. cc; disjoint = λ i j a b ne e e' l l'. cc }
  Steps-IsValid m (go_on m' _ steps step) =
      Change-IsValid m' m (Step-Change m' m step) (Steps-IsValid m' steps)

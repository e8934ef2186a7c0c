-- ===== src/Mem/Basic/Freed.antt =====
-- Memory that was freed stays freed.
use minirust_contrib_fork.Prelude.{
  ℕ, suc, List, [], ◌∷◌, ◌≡◌, ◌==◌, some, false, refl, sym, arith, length, Bool-cases, inl, inr,
}
use minirust_contrib_fork.Prelude.Outcome.{Outcome, ret, ub}
use minirust_contrib_fork.Prelude.Slices.{index, index-set_self, index-set_other, index-append}
use minirust_contrib_fork.Mem.Pointer.{AbstractByte, AllocationKind, ThinPointer, is_aligned}
use minirust_contrib_fork.Mem.Basic.{
  AllocId, Allocation, Memory, deallocate, may_deallocate, store, load, new_allocation, check_ptr,
}
use minirust_contrib_fork.Mem.Basic.Steps.{
  Steps, start, go_on, Change, same, added, changed, deallocate-Freed, Step-Change,
}

module _ {PE AE : Type 0} where
  -- The allocation with this number is dead.
  IsDead : Memory PE AE → AllocId → Type 0
  IsDead m id = (a : Allocation PE AE) × (index m id ≡ ret a) × (a.live ≡ false)

  Change-IsDead : (m m' : Memory PE AE) (id : AllocId) → Change m m' → IsDead m id → IsDead m' id
  unfolding IsDead
  Change-IsDead m m' id (same e) dead = rw e dead
  Change-IsDead m m' id (added kind size align extra addr good e) dead =
      rw e
        (dead.0, index-append m (new_allocation kind size align extra addr ∷ []) id dead.1, dead.2)
  Change-IsDead m m' id (changed id' a b found later s) dead = elim (Bool-cases (id' == id)) [
    | inl here ↦
        let id_eq : id' ≡ id = ground (arith, here) in
        let a_eq : a ≡ dead.0 = ground (arith, id_eq, found, dead.1) in
        (
          b,
          rw (sym id_eq) (index-set_self m id' b s),
          elim (Bool-cases b.live) [
            | inl live ↦ absurd (ground (arith, later.live_if live, a_eq, dead.2))
            | inr gone ↦ gone
          ],
        )
    | inr other ↦ (dead.0, rw (index-set_other m id' id b (ground (arith, other)) s) dead.1, dead.2)
  ]

  Steps-IsDead : (m m' : Memory PE AE) (id : AllocId) → Steps m m' → IsDead m id → IsDead m' id
  Steps-IsDead m m' id start dead = dead
  Steps-IsDead m m' id (go_on m₁ _ steps step) dead =
      Change-IsDead m₁ m' id (Step-Change m₁ m' step) (Steps-IsDead m m₁ id steps dead)

  IsDead-check_ptr :
      (m : Memory PE AE) (ptr : ThinPointer (AllocId × PE)) (n : ℕ) (id : AllocId) (prov_extra : PE)
      → IsDead m id
      → ptr.provenance ≡ some (id, prov_extra)
      → check_ptr m ptr (suc n) ≡ ub
  unfolding check_ptr IsDead
  IsDead-check_ptr m ptr n id prov_extra dead p = rw p (rw dead.1 (rw dead.2 refl))

  -- Once a deallocation through a pointer succeeded, then after any sequence of operations, new
  -- allocations at the same address included, a load or a store of at least one byte and a
  -- deallocation through any pointer with the provenance of that allocation is undefined behaviour.
  pub freed-ub :
      (ptr q : ThinPointer (AllocId × PE)) (kind kind' : AllocationKind)
      (size size' align align' : ℕ) (handle_extra handle_extra' : AE → PE → Outcome AE)
      (m m' m'' : Memory PE AE) (id : AllocId) (x y : PE) (n : ℕ) (b : AbstractByte (AllocId × PE))
      (bs : List (AbstractByte (AllocId × PE))) (on_access : AE → PE → ℕ → Outcome AE)
      → deallocate ptr kind size align handle_extra m ≡ ret m'
      → Steps m' m''
      → ptr.provenance ≡ some (id, x)
      → q.provenance ≡ some (id, y)
      → (load q (suc n) align' on_access m'' ≡ ub)
        × (store q (b ∷ bs) align' on_access m'' ≡ ub)
        × (deallocate q kind' size' align' handle_extra' m'' ≡ ub)
  unfolding load store deallocate may_deallocate IsDead
  freed-ub ptr q kind kind' size size' align align' handle_extra handle_extra' m m' m'' id x y n b
        bs on_access e steps p r =
      let f = deallocate-Freed ptr kind size align handle_extra m e in
      let id_eq : f.id ≡ id = ground (arith, f.prov_eq, p) in
      let dead_then = Steps-IsDead m' m'' f.id steps (
        record f.alloc { extra = f.extra; live = false },
        index-set_self m f.id (record f.alloc { extra = f.extra; live = false }) f.set_eq,
        refl,
      ) in
      let dead = rw id_eq at dead_then in
      let refused = IsDead-check_ptr m'' q n id y dead r in
      let refused' = IsDead-check_ptr m'' q (length bs) id y dead r in
      (
        elim (Bool-cases (is_aligned align' q.addr)) [
          | inl aligned ↦ rw aligned (rw refused refl)
          | inr off ↦ rw off refl
        ],
        elim (Bool-cases (is_aligned align' q.addr)) [
          | inl aligned ↦ rw aligned (rw refused' refl)
          | inr off ↦ rw off refl
        ],
        rw r (rw dead.1 (rw dead.2 refl)),
      )

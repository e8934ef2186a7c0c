-- ===== src/Mem/Basic/Found.antt =====
-- What `check_ptr`, `store` and `load` found out where they return.
use minirust_contrib_fork.Prelude.{
  ℕ, suc, true, Option, some, ◌≡◌, arith, length, Bool-cases, inl, inr, Option-cases,
}
use minirust_contrib_fork.Prelude.Int.{ℤ, ◌-ℤ◌}
use minirust_contrib_fork.Prelude.Outcome.{ret, >>=-eq-ret}
use minirust_contrib_fork.Prelude.Slices.{index}
use minirust_contrib_fork.Mem.Pointer.{ThinPointer}
use minirust_contrib_fork.Mem.Basic.{
  AllocId, Allocation, Memory, offset_in, check_allocation, check_ptr,
}

module _ {PE AE : Type 0} where
  -- The allocation and the offset that a pointer leads to.
  pub record Found (m : Memory PE AE) (ptr : ThinPointer (AllocId × PE)) (len : ℕ) : Type 0 where
    pub id : AllocId
    pub prov_extra : PE
    pub offset : ℕ
    pub alloc : Allocation PE AE
    pub prov_eq : ptr.provenance ≡ some (id, prov_extra)
    pub index_eq : index m id ≡ ret alloc
    pub live_eq : alloc.live ≡ true
    pub offset_eq : offset_in (ptr.addr -ℤ alloc.addr) len (length alloc.contents) ≡ some offset

  check_allocation-eq-ret :
      (a : Allocation PE AE) (p : AllocId × PE) (addr : ℤ) (len : ℕ)
      {found : Option (AllocId × PE × ℕ)}
      → check_allocation a p addr len ≡ ret found
      → (a.live ≡ true)
        × (offset : ℕ) × (offset_in (addr -ℤ a.addr) len (length a.contents) ≡ some offset)
        × (found ≡ some (p.0, p.1, offset))
  check_allocation-eq-ret a p addr len e = elim (Bool-cases a.live) [
    | inr dead ↦ absurd (ground (arith, dead, e))
    | inl live ↦ elim (Option-cases (offset_in (addr -ℤ a.addr) len (length a.contents))) [
      | inl out ↦ absurd (ground (arith, live, out, e))
      | inr (offset, inside) ↦ (live, offset, inside, ground (arith, live, inside, e))
    ]
  ]

  pub check_ptr-Found :
      (m : Memory PE AE) (ptr : ThinPointer (AllocId × PE)) (n : ℕ)
      {found : Option (AllocId × PE × ℕ)}
      → check_ptr m ptr (suc n) ≡ ret found
      → (f : Found m ptr (suc n)) × (found ≡ some (f.id, f.prov_extra, f.offset))
  unfolding check_ptr
  check_ptr-Found m ptr n {found} e = elim (Option-cases ptr.provenance) [
    | inl gone ↦ absurd (ground (arith, gone, e))
    | inr ((id, prov_extra), p) ↦
        let q =
          >>=-eq-ret (index m id) (λ a. check_allocation a (id, prov_extra) ptr.addr (suc n))
            (rw p at e) in
        let r = check_allocation-eq-ret q.0 (id, prov_extra) ptr.addr (suc n) q.2 in
        (
          record {
            id = id;
            prov_extra = prov_extra;
            offset = r.1;
            alloc = q.0;
            prov_eq = p;
            index_eq = q.1;
            live_eq = r.0;
            offset_eq = r.2;
          },
          r.3,
        )
  ]

  pub Found-check_ptr :
      (m : Memory PE AE) (ptr : ThinPointer (AllocId × PE)) (n : ℕ) (f : Found m ptr (suc n))
      → check_ptr m ptr (suc n) ≡ ret (some (f.id, f.prov_extra, f.offset))
  unfolding check_ptr
  Found-check_ptr m ptr n f = rw f.prov_eq (rw f.index_eq (rw f.live_eq (rw f.offset_eq)))

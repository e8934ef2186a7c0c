-- ===== src/Mem/Basic/Fresh.antt =====
-- What a new allocation can be used for.
use minirust_contrib_fork.Prelude.{
  ℕ, zero, suc, ◌+◌, [], ◌∷◌, ◌++◌, ◌≡◌, some, true, false, refl, arith, length, subst, Bool-cases,
  inl, inr, length-replicate, replicate,
}
use minirust_contrib_fork.Prelude.Int.{ℤ, ◌-ℤ◌, sub_ℕ-parts, pos_part, neg_part, ==ℤ_iff}
use minirust_contrib_fork.Prelude.Outcome.{Outcome, ret}
use minirust_contrib_fork.Prelude.Slices.{
  set_total, index-append_end, subslice_all, subslice_with_length,
}
use minirust_contrib_fork.Mem.Pointer.{
  AbstractByte, uninit, AllocationKind, stack, heap, global, function, ThinPointer, is_aligned,
}
use minirust_contrib_fork.Mem.Basic.{
  AllocId, Memory, allocate, deallocate, may_deallocate, load, new_allocation, is_good, valid_size,
  same_kind, offset_in, check_ptr,
}
use minirust_contrib_fork.Mem.Basic.Found.{Found}
use minirust_contrib_fork.Mem.Basic.Access.{load-Found}

offset_self : (a : ℤ) (n : ℕ) → offset_in (a -ℤ a) n n ≡ some 0
unfolding ◌-ℤ◌
offset_self a n = ground (arith, sub_ℕ-parts (pos_part a + neg_part a) (neg_part a + pos_part a))

same_kind_refl : (k : AllocationKind) → same_kind k k ≡ true
same_kind_refl stack = refl
same_kind_refl heap = refl
same_kind_refl global = refl
same_kind_refl function = refl

module _ {PE AE : Type 0} where
  -- What a successful allocation did.
  allocate-eq-ret :
      (kind : AllocationKind) (size align : ℕ) (prov_extra : PE) (alloc_extra : AE) (addr : ℤ)
      (m : Memory PE AE) {ptr : ThinPointer (AllocId × PE)} {m' : Memory PE AE}
      → allocate kind size align prov_extra alloc_extra addr m ≡ some (ret (ptr, m'))
      → (is_good m addr size align ≡ true)
        × (ptr ≡ record { addr = addr; provenance = some (length m, prov_extra) })
        × (m' ≡ m ++ new_allocation kind size align alloc_extra addr ∷ [])
  unfolding allocate
  allocate-eq-ret kind size align prov_extra alloc_extra addr m e =
      elim (Bool-cases (valid_size size)) [
        | inr large ↦ absurd (ground (arith, large, e))
        | inl fits ↦ elim (Bool-cases (is_good m addr size align)) [
          | inr bad ↦ absurd (ground (arith, fits, bad, e))
          | inl good ↦ ground (arith, fits, good, e)
        ]
      ]

  fresh_pointer : PE → ℤ → Memory PE AE → ThinPointer (AllocId × PE)
  fresh_pointer prov_extra addr m = record { addr = addr; provenance = some (length m, prov_extra) }

  fresh-Found :
      (kind : AllocationKind) (size align : ℕ) (prov_extra : PE) (alloc_extra : AE) (addr : ℤ)
      (m : Memory PE AE)
      → Found
          (m ++ new_allocation kind size align alloc_extra addr ∷ [])
          (fresh_pointer prov_extra addr m)
          size
  unfolding new_allocation fresh_pointer
  fresh-Found kind size align prov_extra alloc_extra addr m = record {
    id = length m;
    prov_extra = prov_extra;
    offset = 0;
    alloc = new_allocation kind size align alloc_extra addr;
    prov_eq = refl;
    index_eq = index-append_end m (new_allocation kind size align alloc_extra addr);
    live_eq = refl;
    offset_eq =
        rw (length-replicate {A = AbstractByte (AllocId × PE)} size uninit) (offset_self addr size);
  }

  load-fresh :
      (kind : AllocationKind) (size align : ℕ) (prov_extra : PE) (alloc_extra : AE) (addr : ℤ)
      (m : Memory PE AE) (on_load : AE → PE → ℕ → Outcome AE) {extra : AE}
      → is_aligned align addr ≡ true
      → on_load alloc_extra prov_extra 0 ≡ ret extra
      → (m' : Memory PE AE) × (load
            (fresh_pointer prov_extra addr m)
            size
            align
            on_load
            (m ++ new_allocation kind size align alloc_extra addr ∷ [])
          ≡ ret (replicate size uninit, m'))
  unfolding load check_ptr fresh_pointer fresh-Found new_allocation
  load-fresh kind zero align prov_extra alloc_extra addr m on_load aligned loads =
      (m ++ new_allocation kind 0 align alloc_extra addr ∷ [], rw aligned refl)
  load-fresh kind (suc n) align prov_extra alloc_extra addr m on_load aligned loads =
      load-Found (fresh_pointer prov_extra addr m) n align on_load
        (m ++ new_allocation kind (suc n) align alloc_extra addr ∷ [])
        (fresh-Found kind (suc n) align prov_extra alloc_extra addr m) aligned loads
        (subst
          (λ k.
            subslice_with_length {A = AbstractByte (AllocId × PE)} (replicate (suc n) uninit) 0 k
            ≡ ret (replicate (suc n) uninit))
          (length-replicate {A = AbstractByte (AllocId × PE)} (suc n) uninit)
          (subslice_all (replicate {A = AbstractByte (AllocId × PE)} (suc n) uninit)))

  deallocate-fresh :
      (kind : AllocationKind) (size align : ℕ) (prov_extra : PE) (alloc_extra : AE) (addr : ℤ)
      (m : Memory PE AE) (on_free : AE → PE → Outcome AE) {extra : AE}
      → on_free alloc_extra prov_extra ≡ ret extra
      → (m' : Memory PE AE) × (deallocate
            (fresh_pointer prov_extra addr m)
            kind
            size
            align
            on_free
            (m ++ new_allocation kind size align alloc_extra addr ∷ [])
          ≡ ret m')
  unfolding deallocate may_deallocate fresh_pointer new_allocation
  deallocate-fresh kind size align prov_extra alloc_extra addr m on_free {extra} frees =
      let x = new_allocation kind size align alloc_extra addr in
      let at_end = index-append_end m x in
      let q =
        set_total (m ++ x ∷ []) (length m) (record x { extra = extra; live = false }) at_end in
      let may : may_deallocate x addr kind size align ≡ true =
        rw (length-replicate {A = AbstractByte (AllocId × PE)} size uninit)
          (ground (arith, (==ℤ_iff addr addr).1 refl, same_kind_refl kind)) in
      (q.0, rw at_end (rw may (rw frees q.1)))

  -- After a successful allocation, where the handlers of the extra data return for the new
  -- allocation, a load of the whole allocation through the returned pointer gives uninitialized
  -- bytes, and a deallocation with the kind, size and alignment of the allocation succeeds.
  pub allocate-usable :
      (kind : AllocationKind) (size align : ℕ) (prov_extra : PE) (alloc_extra : AE) (addr : ℤ)
      (m m' : Memory PE AE) (ptr : ThinPointer (AllocId × PE)) (on_load : AE → PE → ℕ → Outcome AE)
      (on_free : AE → PE → Outcome AE) (extra extra' : AE)
      → allocate kind size align prov_extra alloc_extra addr m ≡ some (ret (ptr, m'))
      → on_load alloc_extra prov_extra 0 ≡ ret extra
      → on_free alloc_extra prov_extra ≡ ret extra'
      → (loaded : Memory PE AE) × (freed : Memory PE AE) × (load ptr size align on_load m'
          ≡ ret (replicate size uninit, loaded))
        × (deallocate ptr kind size align on_free m' ≡ ret freed)
  unfolding is_good fresh_pointer
  allocate-usable kind size align prov_extra alloc_extra addr m m' ptr on_load on_free extra extra'
        e loads frees =
      let (good, ptr_eq, m_eq) = allocate-eq-ret kind size align prov_extra alloc_extra addr m e in
      let aligned : is_aligned align addr ≡ true = ground (arith, good) in
      let l = load-fresh kind size align prov_extra alloc_extra addr m on_load aligned loads in
      let d = deallocate-fresh kind size align prov_extra alloc_extra addr m on_free frees in
      (l.0, d.0, rw ptr_eq (rw m_eq l.1), rw ptr_eq (rw m_eq d.1))

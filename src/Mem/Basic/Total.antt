-- ===== src/Mem/Basic/Total.antt =====
-- The operations do not panic: an `AllocId` cannot be faked, and an access that passed `check_ptr` lies within
-- its allocation.
use minirust_contrib_fork.Prelude.{
  ℕ, zero, suc, ◌+◌, ◌≤◌, ◌<◌, List, ◌≡◌, ◌≢◌, some, none, Option, Option-cases, false, refl,
  length, Bool-cases, inl, inr,
}
use minirust_contrib_fork.Prelude.Int.{ℤ, ◌-ℤ◌}
use minirust_contrib_fork.Prelude.Outcome.{Outcome, ret, ub, panics, ◌>>=◌}
use minirust_contrib_fork.Prelude.Slices.{
  index, set, set_total, index_total, subslice_total, write_total, subslice_with_length,
  write_subslice_at_index,
}
use minirust_contrib_fork.Mem.Pointer.{AbstractByte, AllocationKind, ThinPointer, is_aligned}
use minirust_contrib_fork.Mem.Basic.{
  AllocId, Allocation, Memory, check_ptr, check_provenance, store, store_at, load, load_at,
  deallocate, deallocate_at, may_deallocate, offset_in,
}
use minirust_contrib_fork.Mem.Basic.Offsets.{access-offset}

-- No panic comes out of a chain whose parts do not panic.
>>=-no_panic {ℓ κ} :
    {A : Type ℓ} {B : Type κ} (o : Outcome A) (f : A → Outcome B)
    → o ≢ panics
    → ((a : A) → o ≡ ret a → f a ≢ panics)
    → (o >>= f) ≢ panics
>>=-no_panic (ret a) f calm calm' e = calm' a refl e
>>=-no_panic ub f calm calm' e = cc
>>=-no_panic panics f calm calm' e = absurd (calm refl)

ret-no_panic {ℓ} : {A : Type ℓ} {a : A} → ret a ≢ panics
ret-no_panic e = cc

-- An outcome that is a value is no panic.
eq-ret-no_panic {ℓ} : {A : Type ℓ} (o : Outcome A) → ((a : A) × (o ≡ ret a)) → o ≢ panics
eq-ret-no_panic o q e = cc

module _ {PE AE : Type 0} where
  -- The pointer has no provenance, or that of an allocation that the memory has.
  abbrev pub IsKnown : Memory PE AE → Option (AllocId × PE) → Type 0
  IsKnown m none = Unit
  IsKnown m (some (id, prov_extra)) = id < length m

  found_calm {κ} :
      {B : Type κ} (m : Memory PE AE) (ptr : ThinPointer (AllocId × PE)) (len : ℕ)
      (k : Option (AllocId × PE × ℕ) → Outcome B)
      → IsKnown m ptr.provenance
      → k none ≢ panics
      → ((id : AllocId) (prov_extra : PE) (offset : ℕ) (a : Allocation PE AE)
          → index m id ≡ ret a
          → offset + len ≤ length a.contents
          → k (some (id, prov_extra, offset)) ≢ panics)
      → (check_ptr m ptr len >>= k) ≢ panics
  unfolding check_ptr
  found_calm m ptr zero k known at_none at_some = at_none
  found_calm m ptr (suc n) k known at_none at_some = go ptr.provenance known
    where
      go :
          (p : Option (AllocId × PE))
          → IsKnown m p
          → (check_provenance m p ptr.addr (suc n) >>= k) ≢ panics
      go none known = λ e. cc
      go (some (id, prov_extra)) known =
          let (a, at_id) = index_total m id known in
          elim (Bool-cases a.live) [
            | inr dead ↦ rw at_id (rw dead (λ e. cc))
            | inl live ↦
                elim (Option-cases (offset_in (ptr.addr -ℤ a.addr) (suc n) (length a.contents))) [
                  | inl outside ↦ rw at_id (rw live (rw outside (λ e. cc)))
                  | inr (offset, inside) ↦ rw at_id (
                      rw live (
                        rw inside (
                          at_some id prov_extra offset a at_id (
                            (access-offset ptr.addr a.addr (suc n) (length a.contents) inside).0))))
                ]
          ]

  store_at_calm :
      (m : Memory PE AE) (bytes : List (AbstractByte (AllocId × PE)))
      (handle_extra : AE → PE → ℕ → Outcome AE) (id : AllocId) (prov_extra : PE) (offset : ℕ)
      (a : Allocation PE AE)
      → ((extra : AE) (prov_extra : PE) (offset : ℕ)
          → handle_extra extra prov_extra offset ≢ panics)
      → index m id ≡ ret a
      → offset + length bytes ≤ length a.contents
      → store_at (some (id, prov_extra, offset)) bytes handle_extra m ≢ panics
  store_at_calm m bytes handle_extra id prov_extra offset a calm at_id inside = rw at_id (
      >>=-no_panic (handle_extra a.extra prov_extra offset)
        (λ extra.
          (write_subslice_at_index a.contents offset bytes >>= λ contents.
          set m id (record a { extra = extra; contents = contents })))
        (calm a.extra prov_extra offset)
        (λ extra h.
          let w = write_total a.contents offset bytes inside in
          let s = set_total m id (record a { extra = extra; contents = w.0 }) at_id in
          rw w.1 (rw s.1 ret-no_panic)))

  load_at_calm :
      (m : Memory PE AE) (len : ℕ) (handle_extra : AE → PE → ℕ → Outcome AE) (id : AllocId)
      (prov_extra : PE) (offset : ℕ) (a : Allocation PE AE)
      → ((extra : AE) (prov_extra : PE) (offset : ℕ)
          → handle_extra extra prov_extra offset ≢ panics)
      → index m id ≡ ret a
      → offset + len ≤ length a.contents
      → load_at (some (id, prov_extra, offset)) len handle_extra m ≢ panics
  load_at_calm m len handle_extra id prov_extra offset a calm at_id inside = rw at_id (
      >>=-no_panic (handle_extra a.extra prov_extra offset)
        (λ extra.
          (set m id (record a { extra = extra }) >>= λ m'.
          (subslice_with_length a.contents offset len >>= λ bytes. ret (bytes, m'))))
        (calm a.extra prov_extra offset)
        (λ extra h.
          let s = set_total m id (record a { extra = extra }) at_id in
          let w = subslice_total a.contents offset len inside in rw s.1 (rw w.1 ret-no_panic)))

  deallocate_at_calm :
      (m : Memory PE AE) (p : Option (AllocId × PE)) (addr : ℤ) (kind : AllocationKind)
      (size align : ℕ) (handle_extra : AE → PE → Outcome AE)
      → ((extra : AE) (prov_extra : PE) → handle_extra extra prov_extra ≢ panics)
      → IsKnown m p
      → deallocate_at p addr kind size align handle_extra m ≢ panics
  deallocate_at_calm m none addr kind size align handle_extra calm known = λ e. cc
  deallocate_at_calm m (some (id, prov_extra)) addr kind size align handle_extra calm known =
      let (a, at_id) = index_total m id known in
      elim (Bool-cases (may_deallocate a addr kind size align)) [
        | inr refused ↦ rw at_id (rw refused (λ e. cc))
        | inl may ↦ rw at_id (
            rw may (
              >>=-no_panic (handle_extra a.extra prov_extra)
                (λ extra. set m id (record a { extra = extra; live = false }))
                (calm a.extra prov_extra)
                (λ extra h.
                  eq-ret-no_panic (set m id (record a { extra = extra; live = false }))
                    (set_total m id (record a { extra = extra; live = false }) at_id))))
      ]

  -- A store, a load and a deallocation through a pointer without provenance or with that of an
  -- allocation that the memory has, live or dead, do not panic, if the handlers of the extra data do
  -- not.
  pub operations-no_panic :
      (m : Memory PE AE) (ptr : ThinPointer (AllocId × PE))
      (bytes : List (AbstractByte (AllocId × PE))) (kind : AllocationKind) (len align : ℕ)
      (on_access : AE → PE → ℕ → Outcome AE) (on_free : AE → PE → Outcome AE)
      → ((extra : AE) (prov_extra : PE) (offset : ℕ) → on_access extra prov_extra offset ≢ panics)
      → ((extra : AE) (prov_extra : PE) → on_free extra prov_extra ≢ panics)
      → IsKnown m ptr.provenance
      → (store ptr bytes align on_access m ≢ panics)
        × (load ptr len align on_access m ≢ panics)
        × (deallocate ptr kind len align on_free m ≢ panics)
  unfolding store load deallocate
  operations-no_panic m ptr bytes kind len align on_access on_free calm calm' known = (
    elim (Bool-cases (is_aligned align ptr.addr)) [
      | inr off ↦ rw off (λ e. cc)
      | inl aligned ↦ rw aligned (
          found_calm m ptr (length bytes) (λ found. store_at found bytes on_access m) known
            (λ e. cc)
            (λ id x offset a at_id inside.
              store_at_calm m bytes on_access id x offset a calm at_id inside))
    ],
    elim (Bool-cases (is_aligned align ptr.addr)) [
      | inr off ↦ rw off (λ e. cc)
      | inl aligned ↦ rw aligned (
          found_calm m ptr len (λ found. load_at found len on_access m) known (λ e. cc)
            (λ id x offset a at_id inside.
              load_at_calm m len on_access id x offset a calm at_id inside))
    ],
    deallocate_at_calm m ptr.provenance ptr.addr kind len align on_free calm' known,
  )

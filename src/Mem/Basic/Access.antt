-- ===== src/Mem/Basic/Access.antt =====
-- What a load reads after a store.
use minirust_contrib_fork.Prelude.{
  ℕ, suc, true, List, [], ◌∷◌, ◌≡◌, refl, arith, length, Bool-cases, inl, inr,
}
use minirust_contrib_fork.Prelude.Outcome.{Outcome, ret, ◌>>=◌, >>=-eq-ret}
use minirust_contrib_fork.Prelude.Slices.{
  set, subslice_with_length, write_subslice_at_index, index-set_self, length-write,
  subslice-write_self, set_total,
}
use minirust_contrib_fork.Mem.Pointer.{AbstractByte, ThinPointer, is_aligned}
use minirust_contrib_fork.Mem.Basic.{AllocId, Memory, check_ptr, store_at, store, load_at, load}
use minirust_contrib_fork.Mem.Basic.Found.{Found, check_ptr-Found, Found-check_ptr}

module _ {PE AE : Type 0} where
  -- What a store of at least one byte did.
  pub record Stored (ptr : ThinPointer (AllocId × PE)) (bytes : List (AbstractByte (AllocId × PE)))
      (align : ℕ) (handle_extra : AE → PE → ℕ → Outcome AE) (m m' : Memory PE AE) : Type 0 where
    pub aligned : is_aligned align ptr.addr ≡ true
    pub found : Found m ptr (length bytes)
    pub extra : AE
    pub extra_eq : handle_extra found.alloc.extra found.prov_extra found.offset ≡ ret extra
    pub contents : List (AbstractByte (AllocId × PE))
    pub contents_eq : write_subslice_at_index found.alloc.contents found.offset bytes ≡ ret contents
    pub set_eq : set m found.id (record found.alloc { extra = extra; contents = contents }) ≡ ret m'

  pub store-Stored :
      (ptr : ThinPointer (AllocId × PE)) (b : AbstractByte (AllocId × PE))
      (bs : List (AbstractByte (AllocId × PE))) (align : ℕ)
      (handle_extra : AE → PE → ℕ → Outcome AE) (m : Memory PE AE) {m' : Memory PE AE}
      → store ptr (b ∷ bs) align handle_extra m ≡ ret m'
      → Stored ptr (b ∷ bs) align handle_extra m m'
  unfolding store
  store-Stored ptr b bs align handle_extra m e = elim (Bool-cases (is_aligned align ptr.addr)) [
    | inr misaligned ↦ absurd (ground (arith, misaligned, e))
    | inl aligned ↦
        let q =
          >>=-eq-ret (check_ptr m ptr (suc (length bs)))
            (λ found. store_at found (b ∷ bs) handle_extra m) (rw aligned at e) in
        let (f, found_eq) = check_ptr-Found m ptr (length bs) q.1 in
        let at_found = rw found_eq at q.2 in
        let at_alloc = rw f.index_eq at at_found in
        let r =
          >>=-eq-ret (handle_extra f.alloc.extra f.prov_extra f.offset)
            (λ extra.
              (write_subslice_at_index f.alloc.contents f.offset (b ∷ bs) >>= λ contents.
              set m f.id (record f.alloc { extra = extra; contents = contents })))
            at_alloc in
        let s =
          >>=-eq-ret (write_subslice_at_index f.alloc.contents f.offset (b ∷ bs))
            (λ contents. set m f.id (record f.alloc { extra = r.0; contents = contents })) r.2 in
        record {
          aligned = aligned;
          found = f;
          extra = r.0;
          extra_eq = r.1;
          contents = s.0;
          contents_eq = s.1;
          set_eq = s.2;
        }
  ]

  -- The allocation of a store is found again after it.
  abbrev Stored-Found :
      {ptr : ThinPointer (AllocId × PE)} {bytes : List (AbstractByte (AllocId × PE))} {align : ℕ}
      {handle_extra : AE → PE → ℕ → Outcome AE} {m m' : Memory PE AE}
      (s : Stored ptr bytes align handle_extra m m')
      → Found m' ptr (length bytes)
  Stored-Found {ptr} {bytes} {align} {handle_extra} {m} s = record {
    id = s.found.id;
    prov_extra = s.found.prov_extra;
    offset = s.found.offset;
    alloc = record s.found.alloc { extra = s.extra; contents = s.contents };
    prov_eq = s.found.prov_eq;
    index_eq =
        index-set_self m s.found.id
          (record s.found.alloc { extra = s.extra; contents = s.contents }) s.set_eq;
    live_eq = s.found.live_eq;
    offset_eq =
        rw (length-write s.found.alloc.contents s.found.offset bytes s.contents_eq)
          s.found.offset_eq;
  }

  -- What a load of at least one byte did.
  pub record Loaded (ptr : ThinPointer (AllocId × PE)) (len align : ℕ)
      (handle_extra : AE → PE → ℕ → Outcome AE) (m : Memory PE AE)
      (bytes : List (AbstractByte (AllocId × PE))) (m' : Memory PE AE) : Type 0 where
    pub aligned : is_aligned align ptr.addr ≡ true
    pub found : Found m ptr len
    pub extra : AE
    pub extra_eq : handle_extra found.alloc.extra found.prov_extra found.offset ≡ ret extra
    pub bytes_eq : subslice_with_length found.alloc.contents found.offset len ≡ ret bytes
    pub set_eq : set m found.id (record found.alloc { extra = extra }) ≡ ret m'

  pub load-Loaded :
      (ptr : ThinPointer (AllocId × PE)) (n align : ℕ) (handle_extra : AE → PE → ℕ → Outcome AE)
      (m : Memory PE AE) {bytes : List (AbstractByte (AllocId × PE))} {m' : Memory PE AE}
      → load ptr (suc n) align handle_extra m ≡ ret (bytes, m')
      → Loaded ptr (suc n) align handle_extra m bytes m'
  unfolding load
  load-Loaded ptr n align handle_extra m {bytes} {m'} e =
      elim (Bool-cases (is_aligned align ptr.addr)) [
        | inr misaligned ↦ absurd (ground (arith, misaligned, e))
        | inl aligned ↦
            let q =
              >>=-eq-ret (check_ptr m ptr (suc n)) (λ found. load_at found (suc n) handle_extra m)
                (rw aligned at e) in
            let (f, found_eq) = check_ptr-Found m ptr n q.1 in
            let at_alloc = rw f.index_eq at (rw found_eq at q.2) in
            let r =
              >>=-eq-ret (handle_extra f.alloc.extra f.prov_extra f.offset)
                (λ extra.
                  (set m f.id (record f.alloc { extra = extra }) >>= λ m'.
                  (subslice_with_length f.alloc.contents f.offset (suc n) >>= λ bytes.
                  ret (bytes, m'))))
                at_alloc in
            let s =
              >>=-eq-ret (set m f.id (record f.alloc { extra = r.0 }))
                (λ m'.
                  (subslice_with_length f.alloc.contents f.offset (suc n) >>= λ bytes.
                  ret (bytes, m')))
                r.2 in
            let t =
              >>=-eq-ret (subslice_with_length f.alloc.contents f.offset (suc n))
                (λ bytes. ret (bytes, s.0)) s.2 in
            record {
              aligned = aligned;
              found = f;
              extra = r.0;
              extra_eq = r.1;
              bytes_eq = ground (arith, t);
              set_eq = ground (arith, t, s);
            }
      ]

  -- A load whose handler returns ends with the bytes of the allocation that was found.
  pub load-Found :
      (ptr : ThinPointer (AllocId × PE)) (n align : ℕ) (handle_extra : AE → PE → ℕ → Outcome AE)
      (m : Memory PE AE) (f : Found m ptr (suc n)) {extra : AE}
      {bytes : List (AbstractByte (AllocId × PE))}
      → is_aligned align ptr.addr ≡ true
      → handle_extra f.alloc.extra f.prov_extra f.offset ≡ ret extra
      → subslice_with_length f.alloc.contents f.offset (suc n) ≡ ret bytes
      → (m' : Memory PE AE) × (load ptr (suc n) align handle_extra m ≡ ret (bytes, m'))
  unfolding load
  load-Found ptr n align handle_extra m f {extra} {bytes} aligned handled sliced =
      let q = set_total m f.id (record f.alloc { extra = extra }) f.index_eq in
      (
        q.0,
        rw aligned
            (rw (Found-check_ptr m ptr n f) (rw f.index_eq (rw handled (rw q.1 (rw sliced refl))))),
      )

  -- After a store through a pointer succeeded, a load of as many bytes through that pointer, with
  -- the same alignment and a handler of the extra data that always returns, gives the bytes that
  -- were stored.
  pub load-store :
      (ptr : ThinPointer (AllocId × PE)) (bytes : List (AbstractByte (AllocId × PE))) (align : ℕ)
      (on_store on_load : AE → PE → ℕ → Outcome AE) (m m' : Memory PE AE)
      → ((extra : AE) (prov_extra : PE) (offset : ℕ)
          → (extra' : AE) × (on_load extra prov_extra offset ≡ ret extra'))
      → store ptr bytes align on_store m ≡ ret m'
      → (m'' : Memory PE AE) × (load ptr (length bytes) align on_load m' ≡ ret (bytes, m''))
  unfolding store load check_ptr
  load-store ptr [] align on_store on_load m m' loads e =
      elim (Bool-cases (is_aligned align ptr.addr)) [
        | inr misaligned ↦ absurd (ground (arith, misaligned, e))
        | inl aligned ↦ (m', rw aligned refl)
      ]
  load-store ptr (b ∷ bs) align on_store on_load m m' loads e =
      let s = store-Stored ptr b bs align on_store m e in
      load-Found ptr (length bs) align on_load m' (Stored-Found s) s.aligned
        ((loads s.extra s.found.prov_extra s.found.offset).1)
        (subslice-write_self s.found.alloc.contents s.found.offset (b ∷ bs) s.contents_eq)

  -- An access to no bytes changes nothing.
  pub store_nothing :
      (ptr : ThinPointer (AllocId × PE)) (align : ℕ) (handle_extra : AE → PE → ℕ → Outcome AE)
      (m : Memory PE AE) {m' : Memory PE AE}
      → store ptr [] align handle_extra m ≡ ret m'
      → m' ≡ m
  unfolding store check_ptr
  store_nothing ptr align handle_extra m e = elim (Bool-cases (is_aligned align ptr.addr)) [
    | inr misaligned ↦ absurd (ground (arith, misaligned, e))
    | inl aligned ↦ ground (arith, aligned, e)
  ]

  pub load_nothing :
      (ptr : ThinPointer (AllocId × PE)) (align : ℕ) (handle_extra : AE → PE → ℕ → Outcome AE)
      (m : Memory PE AE) {bytes : List (AbstractByte (AllocId × PE))} {m' : Memory PE AE}
      → load ptr 0 align handle_extra m ≡ ret (bytes, m')
      → (bytes ≡ []) × (m' ≡ m) × (is_aligned align ptr.addr ≡ true)
  unfolding load check_ptr
  load_nothing ptr align handle_extra m e = elim (Bool-cases (is_aligned align ptr.addr)) [
    | inr misaligned ↦ absurd (ground (arith, misaligned, e))
    | inl aligned ↦ ground (arith, aligned, e)
  ]

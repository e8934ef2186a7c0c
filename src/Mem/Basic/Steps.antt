-- ===== src/Mem/Basic/Steps.antt =====
-- The runs of the memory: sequences of the operations that change it. Each may be called with
-- any arguments and any handler of the extra data.
use minirust_contrib_fork.Prelude.{
  ℕ, zero, suc, ◌++◌, Option-cases, Bool-cases, inl, inr, if◌then◌else◌, List, [], ◌∷◌, ◌≡◌, some,
  true, false, refl, arith, length,
}
use minirust_contrib_fork.Prelude.Int.{ℤ}
use minirust_contrib_fork.Prelude.Outcome.{Outcome, ret, ub, ◌>>=◌, >>=-eq-ret}
use minirust_contrib_fork.Prelude.Slices.{index, set, length-write}
use minirust_contrib_fork.Mem.Pointer.{AbstractByte, AllocationKind, ThinPointer}
use minirust_contrib_fork.Mem.Basic.{
  AllocId, Allocation, Memory, allocate, deallocate, store, load, is_good, new_allocation,
  valid_size, may_deallocate,
}
use minirust_contrib_fork.Mem.Basic.Access.{store-Stored, load-Loaded, store_nothing, load_nothing}

pub data Step {PE AE : Type 0} (m m' : Memory PE AE) : Type 0 where
  allocating :
      (kind : AllocationKind) (size align : ℕ) (prov_extra : PE) (alloc_extra : AE) (addr : ℤ)
      (ptr : ThinPointer (AllocId × PE))
      → allocate kind size align prov_extra alloc_extra addr m ≡ some (ret (ptr, m'))
      → Step m m'
  deallocating :
      (ptr : ThinPointer (AllocId × PE)) (kind : AllocationKind) (size align : ℕ)
      (handle_extra : AE → PE → Outcome AE)
      → deallocate ptr kind size align handle_extra m ≡ ret m'
      → Step m m'
  storing :
      (ptr : ThinPointer (AllocId × PE)) (bytes : List (AbstractByte (AllocId × PE))) (align : ℕ)
      (handle_extra : AE → PE → ℕ → Outcome AE)
      → store ptr bytes align handle_extra m ≡ ret m'
      → Step m m'
  loading :
      (ptr : ThinPointer (AllocId × PE)) (len align : ℕ) (handle_extra : AE → PE → ℕ → Outcome AE)
      (bytes : List (AbstractByte (AllocId × PE)))
      → load ptr len align handle_extra m ≡ ret (bytes, m')
      → Step m m'

pub data Steps {PE AE : Type 0} (m : Memory PE AE) : Memory PE AE → Type 0 where
  start : Steps m m
  go_on : (m' m'' : Memory PE AE) → Steps m m' → Step m' m'' → Steps m m''

module _ {PE AE : Type 0} where
  -- Two states of one allocation: its place is the same, and a dead one stays dead.
  pub record Later (a b : Allocation PE AE) : Type 0 where
    pub addr_eq : b.addr ≡ a.addr
    pub align_eq : b.align ≡ a.align
    pub length_eq : length b.contents ≡ length a.contents
    pub live_if : b.live ≡ true → a.live ≡ true

  -- What a step did: nothing, one allocation more, or one allocation changed.
  pub data Change (m m' : Memory PE AE) : Type 0 where
    same : m' ≡ m → Change m m'
    added :
        (kind : AllocationKind) (size align : ℕ) (extra : AE) (addr : ℤ)
        → is_good m addr size align ≡ true
        → m' ≡ m ++ new_allocation kind size align extra addr ∷ []
        → Change m m'
    changed :
        (id : AllocId) (a b : Allocation PE AE)
        → index m id ≡ ret a
        → Later a b
        → set m id b ≡ ret m'
        → Change m m'

  -- What a deallocation did.
  pub record Freed (ptr : ThinPointer (AllocId × PE)) (m m' : Memory PE AE) : Type 0 where
    pub id : AllocId
    pub prov_extra : PE
    pub prov_eq : ptr.provenance ≡ some (id, prov_extra)
    pub alloc : Allocation PE AE
    pub index_eq : index m id ≡ ret alloc
    pub live_eq : alloc.live ≡ true
    pub extra : AE
    pub set_eq : set m id (record alloc { extra = extra; live = false }) ≡ ret m'

  pub deallocate-Freed :
      (ptr : ThinPointer (AllocId × PE)) (kind : AllocationKind) (size align : ℕ)
      (handle_extra : AE → PE → Outcome AE) (m : Memory PE AE) {m' : Memory PE AE}
      → deallocate ptr kind size align handle_extra m ≡ ret m'
      → Freed ptr m m'
  unfolding deallocate may_deallocate
  deallocate-Freed ptr kind size align handle_extra m e = elim (Option-cases ptr.provenance) [
    | inl gone ↦ absurd (ground (arith, gone, e))
    | inr ((id, prov_extra), p) ↦
        let q =
          >>=-eq-ret (index m id)
            (λ a.
              if may_deallocate a ptr.addr kind size align
              then (handle_extra a.extra prov_extra >>= λ extra.
                  set m id (record a { extra = extra; live = false }))
              else ub)
            (rw p at e) in
        elim (Bool-cases (may_deallocate q.0 ptr.addr kind size align)) [
          | inr refused ↦ absurd (ground (arith, refused, q))
          | inl may ↦
              let r =
                >>=-eq-ret (handle_extra (q.0).extra prov_extra)
                  (λ extra. set m id (record q.0 { extra = extra; live = false }))
                  (rw may at q.2) in
              record {
                id = id;
                prov_extra = prov_extra;
                prov_eq = p;
                alloc = q.0;
                index_eq = q.1;
                live_eq = ground (arith, may);
                extra = r.0;
                set_eq = r.2;
              }
        ]
  ]

  pub Step-Change : (m m' : Memory PE AE) → Step m m' → Change m m'
  unfolding allocate store load
  Step-Change m m' (allocating kind size align prov_extra alloc_extra addr ptr e) =
      elim (Bool-cases (valid_size size)) [
        | inr large ↦ absurd (ground (arith, large, e))
        | inl fits ↦ elim (Bool-cases (is_good m addr size align)) [
          | inr bad ↦ absurd (ground (arith, fits, bad, e))
          | inl good ↦ added kind size align alloc_extra addr good (ground (arith, fits, good, e))
        ]
      ]
  Step-Change m m' (deallocating ptr kind size align handle_extra e) =
      let f = deallocate-Freed ptr kind size align handle_extra m e in
      changed f.id f.alloc (record f.alloc { extra = f.extra; live = false }) f.index_eq
        (record { addr_eq = refl; align_eq = refl; length_eq = refl; live_if = λ _. f.live_eq })
        f.set_eq
  Step-Change m m' (storing ptr [] align handle_extra e) =
      same (store_nothing ptr align handle_extra m e)
  Step-Change m m' (storing ptr (b ∷ bs) align handle_extra e) =
      let s = store-Stored ptr b bs align handle_extra m e in
      changed s.found.id s.found.alloc
        (record s.found.alloc { extra = s.extra; contents = s.contents }) s.found.index_eq
        (record {
          addr_eq = refl;
          align_eq = refl;
          length_eq = length-write s.found.alloc.contents s.found.offset (b ∷ bs) s.contents_eq;
          live_if = λ h. h;
        })
        s.set_eq
  Step-Change m m' (loading ptr zero align handle_extra bytes e) =
      same ((load_nothing ptr align handle_extra m e).1)
  Step-Change m m' (loading ptr (suc n) align handle_extra bytes e) =
      let l = load-Loaded ptr n align handle_extra m e in
      changed l.found.id l.found.alloc (record l.found.alloc { extra = l.extra }) l.found.index_eq
        (record { addr_eq = refl; align_eq = refl; length_eq = refl; live_if = λ h. h }) l.set_eq

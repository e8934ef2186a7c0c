-- ===== src/Mem/Basic/Frame.antt =====
-- A store leaves the other memory alone.
use minirust_contrib_fork.Prelude.{
  ℕ, zero, suc, true, some, List, [], ◌∷◌, ◌≡◌, refl, sym, arith, length, Bool-cases, inl, inr, ◌⊎◌,
  ◌∙◌, ◌==◌,
}
use minirust_contrib_fork.Prelude.Int.{ℤ, pos, ◌+ℤ◌, int_leb, ◌-ℤ◌}
use minirust_contrib_fork.Prelude.Outcome.{Outcome, ret}
use minirust_contrib_fork.Prelude.Slices.{
  subslice_with_length, write_subslice_at_index, index-set_self, index-set_other, length-write,
  subslice-write_before, subslice-write_after,
}
use minirust_contrib_fork.Mem.Pointer.{AbstractByte, ThinPointer}
use minirust_contrib_fork.Mem.Basic.{AllocId, Memory, offset_in, check_ptr, store, load}
use minirust_contrib_fork.Mem.Basic.Found.{Found}
use minirust_contrib_fork.Mem.Basic.Offsets.{apart_offsets}
use minirust_contrib_fork.Mem.Basic.Access.{
  Stored, store-Stored, Loaded, load-Loaded, load-Found, store_nothing, load_nothing,
}

-- Two address ranges that do not meet.
abbrev pub Apart : ℤ → ℕ → ℤ → ℕ → Type 0
Apart p len_p q len_q = (int_leb (p +ℤ pos len_p) q ≡ true) ⊎ (int_leb (q +ℤ pos len_q) p ≡ true)

slice-write-Apart :
    {P : Type 0} (p q base : ℤ) (len_q size : ℕ) (l written : List (AbstractByte P))
    {m : List (AbstractByte P)} {at_p at_q : ℕ}
    → Apart p (length written) q len_q
    → offset_in (p -ℤ base) (length written) size ≡ some at_p
    → offset_in (q -ℤ base) len_q size ≡ some at_q
    → write_subslice_at_index l at_p written ≡ ret m
    → subslice_with_length m at_q len_q ≡ subslice_with_length l at_q len_q
slice-write-Apart p q base len_q size l written {m} {at_p} {at_q} apart e e' w = elim apart [
  | inl before ↦
      subslice-write_after l at_p written at_q len_q
        (apart_offsets p q base (length written) len_q size e e' before) w
  | inr after ↦
      subslice-write_before l at_p written at_q len_q
        (apart_offsets q p base len_q (length written) size e' e after) w
]

module _ {PE AE : Type 0} where
  -- An access that was possible before a store elsewhere finds the same bytes after it.
  record Kept (m : Memory PE AE) (q : ThinPointer (AllocId × PE)) (len : ℕ)
      (bytes : List (AbstractByte (AllocId × PE))) : Type 0 where
    found : Found m q len
    bytes_eq : subslice_with_length found.alloc.contents found.offset len ≡ ret bytes

  Stored-Kept :
      (p q : ThinPointer (AllocId × PE)) (written : List (AbstractByte (AllocId × PE)))
      (n align align' : ℕ) (on_store on_load : AE → PE → ℕ → Outcome AE) (m : Memory PE AE)
      {m' m_load : Memory PE AE} {bytes : List (AbstractByte (AllocId × PE))}
      → Apart p.addr (length written) q.addr n
      → Stored p written align on_store m m'
      → Loaded q n align' on_load m bytes m_load
      → Kept m' q n bytes
  Stored-Kept p q written n align align' on_store on_load m {m'} {m_load} {bytes} apart s l =
      elim (Bool-cases (s.found.id == l.found.id)) [
        | inl same ↦
            let id_eq : s.found.id ≡ l.found.id = ground (arith, same) in
            let alloc_eq : s.found.alloc ≡ l.found.alloc =
              ground (arith, id_eq, s.found.index_eq, l.found.index_eq) in
            record {
              found = record {
                id = l.found.id;
                prov_extra = l.found.prov_extra;
                offset = l.found.offset;
                alloc = record s.found.alloc { extra = s.extra; contents = s.contents };
                prov_eq = l.found.prov_eq;
                index_eq = rw (sym id_eq) (
                    index-set_self m s.found.id
                      (record s.found.alloc { extra = s.extra; contents = s.contents }) s.set_eq);
                live_eq = s.found.live_eq;
                offset_eq =
                    rw (length-write s.found.alloc.contents s.found.offset written s.contents_eq)
                      (rw alloc_eq l.found.offset_eq);
              };
              bytes_eq =
                  slice-write-Apart p.addr q.addr s.found.alloc.addr n
                    (length s.found.alloc.contents) s.found.alloc.contents written apart
                    s.found.offset_eq (rw alloc_eq l.found.offset_eq) s.contents_eq
                  ∙ rw alloc_eq l.bytes_eq;
            }
        | inr other ↦ record {
          found = record {
            id = l.found.id;
            prov_extra = l.found.prov_extra;
            offset = l.found.offset;
            alloc = l.found.alloc;
            prov_eq = l.found.prov_eq;
            index_eq =
                index-set_other m s.found.id l.found.id
                  (record s.found.alloc { extra = s.extra; contents = s.contents })
                  (ground (arith, other)) s.set_eq
                ∙ l.found.index_eq;
            live_eq = l.found.live_eq;
            offset_eq = l.found.offset_eq;
          };
          bytes_eq = l.bytes_eq;
        }
      ]

  -- Where a load succeeded before a store, through any pointer and of an address range apart from
  -- that of the store, it succeeds after the store with the same bytes, if the handler of the extra
  -- data always returns.
  pub load-store-Apart :
      (p q : ThinPointer (AllocId × PE)) (written : List (AbstractByte (AllocId × PE)))
      (len align align' : ℕ) (on_store on_load : AE → PE → ℕ → Outcome AE)
      (m m' m_load : Memory PE AE) (bytes : List (AbstractByte (AllocId × PE)))
      → ((extra : AE) (prov_extra : PE) (offset : ℕ)
          → (extra' : AE) × (on_load extra prov_extra offset ≡ ret extra'))
      → Apart p.addr (length written) q.addr len
      → load q len align' on_load m ≡ ret (bytes, m_load)
      → store p written align on_store m ≡ ret m'
      → (m'' : Memory PE AE) × (load q len align' on_load m' ≡ ret (bytes, m''))
  unfolding load check_ptr
  load-store-Apart p q written zero align align' on_store on_load m m' m_load bytes loads apart
        loaded stored =
      let l = load_nothing q align' on_load m loaded in (m', rw l.2 (rw l.0 refl))
  load-store-Apart p q [] (suc n) align align' on_store on_load m m' m_load bytes loads apart loaded
        stored =
      (m_load, rw (store_nothing p align on_store m stored) loaded)
  load-store-Apart p q (b ∷ bs) (suc n) align align' on_store on_load m m' m_load bytes loads apart
        loaded stored =
      let s = store-Stored p b bs align on_store m stored in
      let l = load-Loaded q n align' on_load m loaded in
      let k = Stored-Kept p q (b ∷ bs) (suc n) align align' on_store on_load m apart s l in
      load-Found q n align' on_load m' k.found l.aligned
        ((loads k.found.alloc.extra k.found.prov_extra k.found.offset).1) k.bytes_eq

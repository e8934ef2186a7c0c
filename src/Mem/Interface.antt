-- ===== src/Mem/Interface.antt =====
-- spec/mem/interface.md: what the interface derives from the operations of a memory, for the basic memory
-- without extra data.
use minirust_contrib_fork.Prelude.{
  ℕ, zero, suc, true, Option, none, some, List, [], ◌≡◌, sym, refl, length,
}
use minirust_contrib_fork.Prelude.Int.{ℤ, pos, negsuc, ◌+ℤ◌}
use minirust_contrib_fork.Prelude.Outcome.{Outcome, ret, ◌>>=◌, >>=-eq-ret, ret_inj}
use minirust_contrib_fork.Prelude.Slices.{subslice_total}
use minirust_contrib_fork.Lang.Types.{PointeeInfo, PtrType}
use minirust_contrib_fork.Mem.Pointer.{
  AbstractByte, ThinPointer, Pointer, safe_pointee, compute, is_aligned,
}
use minirust_contrib_fork.Mem.Basic.{AllocId, Memory, check_ptr, load}
use minirust_contrib_fork.Mem.Basic.Found.{check_ptr-Found}
use minirust_contrib_fork.Mem.Basic.Offsets.{access-offset}
use minirust_contrib_fork.Mem.Basic.Access.{load-Found}

abbrev pub None : Type 0
None = Unit

-- `ret` where the pointer is dereferenceable.
unfoldable pub dereferenceable : Memory None None → ThinPointer (AllocId × None) → ℕ → Outcome None
dereferenceable m ptr len = check_ptr m ptr len >>= λ found. ret tt

abbrev pub size_before : ℤ → ℕ
size_before (pos n) = 0
size_before (negsuc n) = suc n

-- With a signed length.
unfoldable pub signed_dereferenceable :
    Memory None None → ThinPointer (AllocId × None) → ℤ → Outcome None
unfolding dereferenceable
signed_dereferenceable m ptr (pos (suc n)) = dereferenceable m ptr (suc n)
signed_dereferenceable m ptr len =
    dereferenceable m (record ptr { addr = ptr.addr +ℤ len }) (size_before len)

abbrev retag_at :
    Memory None None
    → Pointer (AllocId × None)
    → Option PointeeInfo
    → Outcome (Pointer (AllocId × None))
retag_at m ptr none = ret ptr
retag_at m ptr (some layout) = compute layout.size ptr.metadata >>= λ len.
    (dereferenceable m ptr.thin_pointer len >>= λ done. ret ptr)

unfoldable pub retag_ptr :
    Memory None None → Pointer (AllocId × None) → PtrType → Outcome (Pointer (AllocId × None))
unfolding safe_pointee
retag_ptr m ptr ptr_type = retag_at m ptr (safe_pointee ptr_type)

dereferenceable-load :
    (m : Memory None None) (ptr : ThinPointer (AllocId × None)) (len align : ℕ)
    → dereferenceable m ptr len ≡ ret tt
    → is_aligned align ptr.addr ≡ true
    → (bytes : List (AbstractByte (AllocId × None))) × (m' : Memory None None) × (load ptr len align
          (λ extra prov_extra offset. ret tt)
          m
        ≡ ret (bytes, m'))
unfolding dereferenceable load check_ptr
dereferenceable-load m ptr zero align ok aligned = ([], m, rw aligned refl)
dereferenceable-load m ptr (suc n) align ok aligned =
    let q = >>=-eq-ret (check_ptr m ptr (suc n)) (λ found. ret tt) ok in
    let (f, found_eq) = check_ptr-Found m ptr n q.1 in
    let inside =
      (access-offset ptr.addr (f.alloc).addr (suc n) (length (f.alloc).contents) f.offset_eq).0 in
    let part = subslice_total (f.alloc).contents f.offset (suc n) inside in
    let l = load-Found ptr n align (λ extra prov_extra offset. ret tt) m f aligned refl part.1 in
    (part.0, l.0, l.1)

-- In the basic memory without extra data: where retagging a safe pointer succeeds, it returns the
-- pointer unchanged, and if the address is a multiple of the alignment of the pointee, a load of
-- the computed size of the pointee through the pointer succeeds.
pub retag_ptr-load :
    (m : Memory None None) (ptr q : Pointer (AllocId × None)) (ptr_type : PtrType)
    (layout : PointeeInfo)
    → safe_pointee ptr_type ≡ some layout
    → is_aligned layout.align (ptr.thin_pointer).addr ≡ true
    → retag_ptr m ptr ptr_type ≡ ret q
    → (q ≡ ptr)
      × (len : ℕ) × (bytes : List (AbstractByte (AllocId × None))) × (m' : Memory None None)
      × (compute layout.size ptr.metadata ≡ ret len)
      × (load q.thin_pointer len layout.align (λ extra prov_extra offset. ret tt) m
          ≡ ret (bytes, m'))
unfolding retag_ptr
retag_ptr-load m ptr q ptr_type layout safe aligned e =
    let at_layout = rw safe at e in
    let len =
      >>=-eq-ret (compute layout.size ptr.metadata)
        (λ len. (dereferenceable m ptr.thin_pointer len >>= λ done. ret ptr)) at_layout in
    let done = >>=-eq-ret (dereferenceable m ptr.thin_pointer len.0) (λ done. ret ptr) len.2 in
    let l = dereferenceable-load m ptr.thin_pointer len.0 layout.align done.1 aligned in
    let q_eq : q ≡ ptr = sym (ret_inj done.2) in (q_eq, len.0, l.0, l.1, len.1, rw q_eq l.2)

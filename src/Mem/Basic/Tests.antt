-- ===== src/Mem/Basic/Tests.antt =====
-- Runs of the basic memory without extra data.
use minirust_contrib_fork.Prelude.{
  ℕ, List, [], ◌∷◌, ◌≡◌, ◌≢◌, some, none, Bool, true, false, refl, arith, inr, replicate,
}
use minirust_contrib_fork.Prelude.Int.{pos, ◌+ℤ◌, ◌-ℤ◌, ◌==ℤ◌}
use minirust_contrib_fork.Prelude.Outcome.{Outcome, ret, ub, panics}
use minirust_contrib_fork.Prelude.Slices.{index, set, subslice_with_length, write_subslice_at_index}
use minirust_contrib_fork.Mem.Pointer.{
  AbstractByte, uninit, init, heap, ThinPointer, Pointer, safe_pointee, compute, is_aligned,
  fits_usize,
}
use minirust_contrib_fork.Mem.Basic.{
  AllocId, Allocation, Memory, allocate, deallocate, may_deallocate, load, store, new_allocation,
  is_good, valid_size, check_ptr, any_overlap, overlaps, leak_check,
}
use minirust_contrib_fork.Lang.Types.{PointeeInfo, PtrType, SizeStrategy}
use minirust_contrib_fork.Mem.Interface.{dereferenceable, retag_ptr, retag_ptr-load}
use minirust_contrib_fork.Mem.Basic.Steps.{Steps, start, go_on, allocating}
use minirust_contrib_fork.Mem.Basic.Access.{load-store}
use minirust_contrib_fork.Mem.Basic.Frame.{load-store-Apart}
use minirust_contrib_fork.Mem.Basic.Freed.{freed-ub}
use minirust_contrib_fork.Mem.Basic.Fresh.{allocate-usable}
use minirust_contrib_fork.Mem.Basic.Total.{operations-no_panic}
use minirust_contrib_fork.Mem.Basic.Invariant.{IsValid, Steps-IsValid}
use minirust_contrib_fork.Mem.Basic.Disjoint.{Within, Steps-disjoint}

abbrev None : Type 0
None = Unit

abbrev Byte : Type 0
Byte = AbstractByte (AllocId × None)

abbrev at : ℕ → ℕ → ThinPointer (AllocId × None)
at id addr = record { addr = pos addr; provenance = some (id, tt) }

abbrev block : List Byte → Bool → Allocation None None
block contents live = record {
  contents = contents;
  addr = pos 16;
  align = 4;
  kind = heap;
  live = live;
  extra = tt;
}

abbrev allowed : None → None → ℕ → Outcome None
allowed extra prov_extra offset = ret tt

abbrev may_free : None → None → Outcome None
may_free extra prov_extra = ret tt

abbrev bytes : List Byte
bytes = init 1 none ∷ init 2 (some (0, tt)) ∷ []

abbrev m_new : Memory None None
m_new = block (replicate 4 uninit) true ∷ []

abbrev m_stored : Memory None None
m_stored = block (uninit ∷ uninit ∷ init 1 none ∷ init 2 (some (0, tt)) ∷ []) true ∷ []

abbrev m_freed : Memory None None
m_freed = block (replicate 4 uninit) false ∷ []

-- The same address is used again.
abbrev m_reused : Memory None None
m_reused = block (replicate 4 uninit) false ∷ block (replicate 4 uninit) true ∷ []

allocate_run : allocate heap 4 4 tt tt (pos 16) [] ≡ some (ret (at 0 16, m_new))
unfolding allocate new_allocation is_good is_aligned fits_usize any_overlap valid_size overlaps ◌+ℤ◌
allocate_run = refl

store_run : store (at 0 18) bytes 2 allowed m_new ≡ ret m_stored
unfolding store is_aligned check_ptr index ◌-ℤ◌ write_subslice_at_index set
store_run = refl

load_run : load (at 0 16) 2 1 allowed m_new ≡ ret (uninit ∷ uninit ∷ [], m_new)
unfolding load is_aligned check_ptr index ◌-ℤ◌ set subslice_with_length
load_run = refl

free_run : deallocate (at 0 16) heap 4 4 may_free m_new ≡ ret m_freed
unfolding deallocate may_deallocate index set
free_run = refl

allocate_again : allocate heap 4 4 tt tt (pos 16) m_freed ≡ some (ret (at 1 16, m_reused))
unfolding allocate new_allocation is_good is_aligned fits_usize any_overlap valid_size overlaps ◌+ℤ◌
allocate_again = refl

leak_run : leak_check m_reused ≡ false
unfolding leak_check
leak_run = refl

run_to_new : Steps [] m_new
run_to_new = go_on [] m_new start (allocating heap 4 4 tt tt (pos 16) (at 0 16) allocate_run)

reuse : Steps m_freed m_reused
reuse = go_on m_freed m_reused start (allocating heap 4 4 tt tt (pos 16) (at 1 16) allocate_again)

load-store_example :
    (m'' : Memory None None) × (load (at 0 18) 2 2 allowed m_stored ≡ ret (bytes, m''))
load-store_example =
    load-store (at 0 18) bytes 2 allowed allowed m_new m_stored (λ x y o. (tt, refl)) store_run

load-store-Apart_example :
    (m'' : Memory None None) × (load (at 0 16) 2 1 allowed m_stored
      ≡ ret (uninit ∷ uninit ∷ [], m''))
unfolding ◌+ℤ◌
load-store-Apart_example =
    load-store-Apart (at 0 18) (at 0 16) bytes 2 2 1 allowed allowed m_new m_stored m_new
      (uninit ∷ uninit ∷ []) (λ x y o. (tt, refl)) (inr refl) load_run store_run

freed-ub_example :
    (load (at 0 17) 1 1 allowed m_reused ≡ ub)
    × (store (at 0 17) (uninit ∷ []) 1 allowed m_reused ≡ ub)
    × (deallocate (at 0 17) heap 4 1 may_free m_reused ≡ ub)
freed-ub_example =
    freed-ub (at 0 16) (at 0 17) heap heap 4 4 4 1 may_free may_free m_new m_freed m_reused 0 tt tt
      0 uninit [] allowed free_run reuse refl refl

allocate-usable_example :
    (loaded : Memory None None) × (freed : Memory None None) × (load (at 0 16) 4 4 allowed m_new
      ≡ ret (replicate 4 uninit, loaded))
    × (deallocate (at 0 16) heap 4 4 may_free m_new ≡ ret freed)
allocate-usable_example =
    allocate-usable heap 4 4 tt tt (pos 16) [] m_new (at 0 16) allowed may_free tt tt allocate_run
      refl refl

operations-no_panic_example :
    (store (at 0 18) bytes 2 allowed m_new ≢ panics)
    × (load (at 0 18) 2 2 allowed m_new ≢ panics)
    × (deallocate (at 0 18) heap 2 2 may_free m_new ≢ panics)
operations-no_panic_example =
    operations-no_panic m_new (at 0 18) bytes heap 2 2 allowed may_free (λ x y o e. cc)
      (λ x y e. cc) (omega arith)

Steps-IsValid_example : IsValid m_new
Steps-IsValid_example = Steps-IsValid m_new run_to_new

-- A second allocation directly after the first.
abbrev next_block : Allocation None None
next_block = record (block (replicate 4 uninit) true) { addr = pos 20 }

abbrev m_two : Memory None None
m_two = block (replicate 4 uninit) true ∷ next_block ∷ []

allocate_next : allocate heap 4 4 tt tt (pos 20) m_new ≡ some (ret (at 1 20, m_two))
unfolding allocate new_allocation is_good is_aligned fits_usize any_overlap valid_size overlaps ◌+ℤ◌
allocate_next = refl

Steps-disjoint_example :
    ((pos 16 ==ℤ pos 20) ≡ false) × (¬ (Within (pos 20) (pos 16) 4 × Within (pos 20) (pos 20) 4))
unfolding index
Steps-disjoint_example =
    Steps-disjoint m_two 0 1 (block (replicate 4 uninit) true) next_block (pos 20)
      (go_on m_new m_two run_to_new (allocating heap 4 4 tt tt (pos 20) (at 1 20) allocate_next))
      (ground arith) refl refl refl refl

abbrev pair_layout : PointeeInfo
pair_layout = record {
  size = SizeStrategy.sized 2;
  align = 2;
  inhabited = true;
  freeze = true;
  unpin = true;
}

abbrev pair_ref : Pointer (AllocId × None)
pair_ref = record { thin_pointer = at 0 18; metadata = none }

retag_run : retag_ptr m_new pair_ref (PtrType.box pair_layout) ≡ ret pair_ref
unfolding retag_ptr dereferenceable check_ptr index ◌-ℤ◌ safe_pointee compute
retag_run = refl

retag_ptr-load_example :
    (pair_ref ≡ pair_ref)
    × (len : ℕ) × (bytes : List Byte) × (m' : Memory None None) × (compute
          (SizeStrategy.sized 2)
          none
        ≡ ret len)
    × (load (at 0 18) len 2 (λ extra prov_extra offset. ret tt) m_new ≡ ret (bytes, m'))
unfolding safe_pointee is_aligned
retag_ptr-load_example =
    retag_ptr-load m_new pair_ref pair_ref (PtrType.box pair_layout) pair_layout refl refl retag_run

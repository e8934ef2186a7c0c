-- ===== src/Mem/Basic.antt =====
-- spec/mem/basic.md: the basic memory model, with extra data in each provenance (`PE`) and each
-- allocation (`AE`); the interface of spec/mem/interface.md has the operations without extra data.
--
-- `pick` chooses the address of an allocation among those that pass its tests; the choice is an
-- argument here, and `none` is an address that `pick` cannot choose.
pub mod Offsets
pub mod Found
pub mod Invariant
pub mod Access
pub mod Frame
pub mod Steps
pub mod Fresh
pub mod Total
pub mod Freed
pub mod Disjoint
mod Tests
use minirust_contrib_fork.Prelude.{
  ℕ, zero, suc, ◌+◌, ◌^◌, Bool, true, false, not, ◌&&◌, ◌||◌, Option, none, some, List, [], ◌∷◌,
  ◌++◌, if◌then◌else◌, ltb, ◌==◌, length, replicate,
}
use minirust_contrib_fork.Prelude.Int.{ℤ, pos, negsuc, ◌+ℤ◌, ◌-ℤ◌, ◌==ℤ◌, int_leb}
use minirust_contrib_fork.Prelude.Outcome.{Outcome, ret, ub, panics, ◌>>=◌}
use minirust_contrib_fork.Prelude.Slices.{index, set, subslice_with_length, write_subslice_at_index}
use minirust_contrib_fork.Mem.Pointer.{
  AbstractByte, uninit, AllocationKind, stack, heap, global, function, ThinPointer, is_aligned,
  fits_usize,
}

abbrev pub AllocId : Type 0
AllocId = ℕ

abbrev pub Provenance : Type 0 → Type 0
Provenance PE = AllocId × PE

pub record Allocation (PE AE : Type 0) : Type 0 where
  pub contents : List (AbstractByte (AllocId × PE))
  pub addr : ℤ
  pub align : ℕ
  pub kind : AllocationKind
  pub live : Bool
  pub extra : AE

abbrev pub Memory : Type 0 → Type 0 → Type 0
Memory PE AE = List (Allocation PE AE)

-- `Target::valid_size` of `x86_64`
unfoldable pub valid_size : ℕ → Bool
valid_size n = ltb n (2 ^ 63)

abbrev pub same_kind : AllocationKind → AllocationKind → Bool
same_kind stack stack = true
same_kind heap heap = true
same_kind global global = true
same_kind function function = true
same_kind _ _ = false

-- The offset of an access in an allocation, if it lies within it.
abbrev pub offset_in : ℤ → ℕ → ℕ → Option ℕ
offset_in (negsuc n) len size = none
offset_in (pos offset) len size = if ltb size (offset + len) then none else some offset

module _ {PE AE : Type 0} where
  unfoldable pub overlaps : Allocation PE AE → ℤ → ℕ → Bool
  overlaps a other_addr other_size =
      if int_leb (a.addr +ℤ pos (length a.contents)) other_addr
        || int_leb (other_addr +ℤ pos other_size) a.addr
      then a.addr ==ℤ other_addr
      else true

  unfoldable pub any_overlap : Memory PE AE → ℤ → ℕ → Bool
  any_overlap [] addr size = false
  any_overlap (a ∷ m) addr size = (a.live && overlaps a addr size) || any_overlap m addr size

  -- The tests that `pick` makes of an address.
  unfoldable pub is_good : Memory PE AE → ℤ → ℕ → ℕ → Bool
  is_good m addr size align =
      not (int_leb addr (pos 0))
      && (is_aligned align addr && (fits_usize (addr +ℤ pos size) && not (any_overlap m addr size)))

  unfoldable pub new_allocation : AllocationKind → ℕ → ℕ → AE → ℤ → Allocation PE AE
  new_allocation kind size align extra addr = record {
    contents = replicate size uninit;
    addr = addr;
    align = align;
    kind = kind;
    live = true;
    extra = extra;
  }

  unfoldable pub allocate :
      AllocationKind
      → ℕ
      → ℕ
      → PE
      → AE
      → ℤ
      → Memory PE AE
      → Option (Outcome (ThinPointer (AllocId × PE) × Memory PE AE))
  allocate kind size align prov_extra alloc_extra addr m =
      if not (valid_size size)
      then some ub
      else if is_good m addr size align
      then some (
          ret (
            record { addr = addr; provenance = some (length m, prov_extra) },
            m ++ new_allocation kind size align alloc_extra addr ∷ [],
          ))
      else none

  -- The checks of `deallocate` before the extra ones.
  unfoldable pub may_deallocate : Allocation PE AE → ℤ → AllocationKind → ℕ → ℕ → Bool
  may_deallocate a addr kind size align =
      a.live
      && (addr ==ℤ a.addr
          && (same_kind kind a.kind && (size == length a.contents && align == a.align)))

  abbrev pub deallocate_at :
      Option (AllocId × PE)
      → ℤ
      → AllocationKind
      → ℕ
      → ℕ
      → (AE → PE → Outcome AE)
      → Memory PE AE
      → Outcome (Memory PE AE)
  deallocate_at none addr kind size align handle_extra m = ub
  deallocate_at (some (id, prov_extra)) addr kind size align handle_extra m = index m id >>= λ a.
      if may_deallocate a addr kind size align
      then (handle_extra a.extra prov_extra >>= λ extra.
          set m id (record a { extra = extra; live = false }))
      else ub

  unfoldable pub deallocate :
      ThinPointer (AllocId × PE)
      → AllocationKind
      → ℕ
      → ℕ
      → (AE → PE → Outcome AE)
      → Memory PE AE
      → Outcome (Memory PE AE)
  deallocate ptr kind size align handle_extra m =
      deallocate_at ptr.provenance ptr.addr kind size align handle_extra m

  abbrev pub check_allocation :
      Allocation PE AE → AllocId × PE → ℤ → ℕ → Outcome (Option (AllocId × PE × ℕ))
  check_allocation a (id, prov_extra) addr len =
      if a.live
      then elim (offset_in (addr -ℤ a.addr) len (length a.contents)) [
        | none ↦ ub
        | some offset ↦ ret (some (id, prov_extra, offset))
      ]
      else ub

  abbrev pub check_provenance :
      Memory PE AE → Option (AllocId × PE) → ℤ → ℕ → Outcome (Option (AllocId × PE × ℕ))
  check_provenance m none addr len = ub
  check_provenance m (some (id, prov_extra)) addr len =
      index m id >>= λ a. check_allocation a (id, prov_extra) addr len

  unfoldable pub check_ptr :
      Memory PE AE → ThinPointer (AllocId × PE) → ℕ → Outcome (Option (AllocId × PE × ℕ))
  check_ptr m ptr zero = ret none
  check_ptr m ptr (suc n) = check_provenance m ptr.provenance ptr.addr (suc n)

  -- What `store` does where `check_ptr` returned.
  abbrev pub store_at :
      Option (AllocId × PE × ℕ)
      → List (AbstractByte (AllocId × PE))
      → (AE → PE → ℕ → Outcome AE)
      → Memory PE AE
      → Outcome (Memory PE AE)
  store_at none bytes handle_extra m = ret m
  store_at (some (id, prov_extra, offset)) bytes handle_extra m = index m id >>= λ a.
      (handle_extra a.extra prov_extra offset >>= λ extra.
      (write_subslice_at_index a.contents offset bytes >>= λ contents.
      set m id (record a { extra = extra; contents = contents })))

  unfoldable pub store :
      ThinPointer (AllocId × PE)
      → List (AbstractByte (AllocId × PE))
      → ℕ
      → (AE → PE → ℕ → Outcome AE)
      → Memory PE AE
      → Outcome (Memory PE AE)
  store ptr bytes align handle_extra m =
      if is_aligned align ptr.addr
      then (check_ptr m ptr (length bytes) >>= λ found. store_at found bytes handle_extra m)
      else ub

  abbrev pub load_at :
      Option (AllocId × PE × ℕ)
      → ℕ
      → (AE → PE → ℕ → Outcome AE)
      → Memory PE AE
      → Outcome (List (AbstractByte (AllocId × PE)) × Memory PE AE)
  load_at none len handle_extra m = ret ([], m)
  load_at (some (id, prov_extra, offset)) len handle_extra m = index m id >>= λ a.
      (handle_extra a.extra prov_extra offset >>= λ extra.
      (set m id (record a { extra = extra }) >>= λ m'.
      (subslice_with_length a.contents offset len >>= λ bytes. ret (bytes, m'))))

  unfoldable pub load :
      ThinPointer (AllocId × PE)
      → ℕ
      → ℕ
      → (AE → PE → ℕ → Outcome AE)
      → Memory PE AE
      → Outcome (List (AbstractByte (AllocId × PE)) × Memory PE AE)
  load ptr len align handle_extra m =
      if is_aligned align ptr.addr
      then (check_ptr m ptr len >>= λ found. load_at found len handle_extra m)
      else ub

  abbrev pub is_leaked : Allocation PE AE → Bool
  is_leaked a = a.live && same_kind a.kind heap

  -- Whether the check passes; where it fails the code throws that memory leaked.
  unfoldable pub leak_check : Memory PE AE → Bool
  leak_check [] = true
  leak_check (a ∷ m) = if is_leaked a then false else leak_check m

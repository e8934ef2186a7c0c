-- ===== src/Mem/Pointer.antt =====
-- spec/mem/pointer.md: pointers and their metadata, and `AbstractByte` and `AllocationKind` of
-- spec/mem/interface.md. `P` is the type of provenances.
use minirust_contrib_fork.Prelude.{
  ℕ, ◌%◌, Bool, true, false, not, ◌&&◌, Option, none, some, ◌==◌, ◌^◌, suc, ltb,
}
use minirust_contrib_fork.Prelude.Int.{ℤ, pos, negsuc, ◌==ℤ◌}
use minirust_contrib_fork.Prelude.Outcome.{Outcome, ret, panics, unwrap}
use minirust_contrib_fork.Lang.Types.{
  PointerMetaKind, thin, element_count, PointeeInfo, PtrType, SizeStrategy, scale,
}

pub data AbstractByte {ℓ} (P : Type ℓ) : Type ℓ where
  uninit : AbstractByte P
  init : ℕ → Option P → AbstractByte P

-- `AbstractByte::data` and `AbstractByte::provenance`
unfoldable pub byte_data {ℓ} : {P : Type ℓ} → AbstractByte P → Option ℕ
byte_data uninit = none
byte_data (init n provenance) = some n

unfoldable pub byte_provenance {ℓ} : {P : Type ℓ} → AbstractByte P → Option P
byte_provenance uninit = none
byte_provenance (init n provenance) = provenance

pub data AllocationKind : Type 0 where
  stack heap global function : AllocationKind

pub record ThinPointer {ℓ} (P : Type ℓ) : Type ℓ where
  pub addr : ℤ
  pub provenance : Option P

pub data PointerMeta : Type 0 where
  count : ℤ → PointerMeta

pub record Pointer {ℓ} (P : Type ℓ) : Type ℓ where
  pub thin_pointer : ThinPointer P
  pub metadata : Option PointerMeta

unfoldable pub widen {ℓ} : {P : Type ℓ} → ThinPointer P → Option PointerMeta → Pointer P
widen p metadata = record { thin_pointer = p; metadata = metadata }

-- `PointerMetaKind::matches`
unfoldable pub matches : PointerMetaKind → Option PointerMeta → Bool
matches thin none = true
matches element_count (some (count n)) = true
matches _ _ = false

unfoldable pub safe_pointee : PtrType → Option PointeeInfo
safe_pointee (PtrType.ref mutbl pointee) = some pointee
safe_pointee (PtrType.box pointee) = some pointee
safe_pointee (PtrType.raw kind) = none
safe_pointee PtrType.fn_ptr = none

-- `Align::is_aligned`: an address is a multiple of the alignment.
unfoldable pub is_aligned : ℕ → ℤ → Bool
is_aligned align (pos n) = n % align == 0
is_aligned align (negsuc n) = suc n % align == 0

-- `PtrType::addr_valid`
abbrev pub addr_valid_at : Option PointeeInfo → ℤ → Bool
addr_valid_at none addr = true
addr_valid_at (some layout) addr =
    not (addr ==ℤ pos 0) && (is_aligned layout.align addr && layout.inhabited)

unfoldable pub addr_valid : PtrType → ℤ → Bool
addr_valid ptr_type addr = addr_valid_at (safe_pointee ptr_type) addr

-- `SizeStrategy::compute`; a negative count panics, unless the product is zero.
unfoldable pub compute : SizeStrategy → Option PointerMeta → Outcome ℕ
compute (SizeStrategy.sized n) none = ret n
compute (SizeStrategy.slice_of n) (some (count k)) = unwrap (scale n k)
compute _ _ = panics

-- `Int::in_bounds` for an unsigned integer of 8 bytes, the addresses of the target.
unfoldable pub fits_usize : ℤ → Bool
fits_usize (pos n) = ltb n (2 ^ 64)
fits_usize (negsuc n) = false

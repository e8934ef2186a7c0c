-- ===== src/Mem/Basic/Disjoint.antt =====
-- The addresses that live allocations take up (spec/mem/basic.md).
use minirust_contrib_fork.Prelude.{
  [], ◌≡◌, ◌≢◌, true, false, arith, length, ℕ, Bool-cases, inl, inr,
}
use minirust_contrib_fork.Prelude.Int.{ℤ, pos, ◌+ℤ◌, ◌==ℤ◌, int_leb, int_ltb}
use minirust_contrib_fork.Prelude.Outcome.{ret}
use minirust_contrib_fork.Prelude.Slices.{index}
use minirust_contrib_fork.Mem.Basic.{AllocId, Allocation, Memory, overlaps}
use minirust_contrib_fork.Mem.Basic.Steps.{Steps}
use minirust_contrib_fork.Mem.Basic.Invariant.{Steps-IsValid}

-- The address lies in a range of so many bytes.
abbrev pub Within : ℤ → ℤ → ℕ → Type 0
Within x addr size = (int_leb addr x ≡ true) × (int_ltb x (addr +ℤ pos size) ≡ true)

-- No address is before and not before another.
before_and_after : (x a b : ℤ) → int_ltb x a ≡ true → int_leb a b ≡ true → ¬ (int_leb b x ≡ true)
before_and_after x a b h k l = ground (arith, h, k, l)

module _ {PE AE : Type 0} where
  overlaps-false :
      (a : Allocation PE AE) (addr : ℤ) (size : ℕ) (x : ℤ)
      → overlaps a addr size ≡ false
      → ((a.addr ==ℤ addr) ≡ false) × (¬ (Within x a.addr (length a.contents) × Within x addr size))
  unfolding overlaps
  overlaps-false a addr size x e =
      let end_addr = a.addr +ℤ pos (length a.contents) in
      let other_end_addr = addr +ℤ pos size in
      elim (Bool-cases (int_leb end_addr addr)) [
        | inl h ↦ (ground (arith, h, e), λ w. before_and_after x end_addr addr (w.0).1 h (w.1).0)
        | inr h ↦ elim (Bool-cases (int_leb other_end_addr a.addr)) [
          | inl h' ↦ (
            ground (arith, h, h', e),
            λ w. before_and_after x other_end_addr a.addr (w.1).1 h' (w.0).0,
          )
          | inr h' ↦ absurd (ground (arith, h, h', e))
        ]
      ]

  -- In a memory that is reached from the empty one by any sequence of successful allocations,
  -- deallocations, stores and loads, two live allocations with different identifiers have different
  -- addresses, and no address lies in the bytes of both.
  pub Steps-disjoint :
      (m : Memory PE AE) (i j : AllocId) (a b : Allocation PE AE) (x : ℤ)
      → Steps [] m
      → i ≢ j
      → index m i ≡ ret a
      → index m j ≡ ret b
      → a.live ≡ true
      → b.live ≡ true
      → ((a.addr ==ℤ b.addr) ≡ false)
        × (¬ (Within x a.addr (length a.contents) × Within x b.addr (length b.contents)))
  Steps-disjoint m i j a b x steps ne at_i at_j live_a live_b =
      overlaps-false a b.addr (length b.contents) x
        ((Steps-IsValid m steps).disjoint i j a b ne at_i at_j live_a live_b)

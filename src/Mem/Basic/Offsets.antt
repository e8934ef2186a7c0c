-- ===== src/Mem/Basic/Offsets.antt =====
-- Addresses and the offsets of accesses in an allocation.
use minirust_contrib_fork.Prelude.{ℕ, ◌+◌, ◌≤◌, true, some, ◌≡◌, arith}
use minirust_contrib_fork.Prelude.Int.{
  ℤ, pos, negsuc, pos_part, neg_part, sub_ℕ-parts, ◌+ℤ◌, ◌-ℤ◌, int_leb,
}
use minirust_contrib_fork.Mem.Basic.{offset_in}

-- Where an access lies in its allocation.
offset_in-eq-some :
    (z : ℤ) (len size : ℕ) {offset : ℕ}
    → offset_in z len size ≡ some offset
    → (offset + len ≤ size) × (z ≡ pos offset)
offset_in-eq-some (pos n) len size e = ground (arith, e)
offset_in-eq-some (negsuc n) len size e = ground (arith, e)

pub access-offset :
    (address base : ℤ) (len size : ℕ) {offset : ℕ}
    → offset_in (address -ℤ base) len size ≡ some offset
    → (offset + len ≤ size)
      × (pos_part address + neg_part base ≡ pos_part base + neg_part address + offset)
unfolding ◌-ℤ◌
access-offset address base len size e =
    let q = offset_in-eq-some (address -ℤ base) len size e in
    let parts = sub_ℕ-parts (pos_part address + neg_part base) (neg_part address + pos_part base) in
    (q.0, omega (arith, rw q.1 at parts))

pub end-leb :
    (p q : ℤ) (n : ℕ)
    → int_leb (p +ℤ pos n) q ≡ true
    → pos_part p + n + neg_part q ≤ pos_part q + neg_part p
unfolding ◌+ℤ◌
end-leb p q n le =
    let parts = sub_ℕ-parts (pos_part p + n) (neg_part p) in ground (arith, parts, le)

pub apart_offsets :
    (p q base : ℤ) (len_p len_q size : ℕ) {at_p at_q : ℕ}
    → offset_in (p -ℤ base) len_p size ≡ some at_p
    → offset_in (q -ℤ base) len_q size ≡ some at_q
    → int_leb (p +ℤ pos len_p) q ≡ true
    → at_p + len_p ≤ at_q
apart_offsets p q base len_p len_q size e e' le =
    let (x, y) = access-offset p base len_p size e in
    let (z, w) = access-offset q base len_q size e' in let v = end-leb p q len_p le in omega arith

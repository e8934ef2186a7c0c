-- ===== src/Prelude/Outcome.antt =====
-- `Result` of the specification: a value, undefined behaviour, whose message is left out, or a panic of the
-- specification itself. A failure that `throw!()` raises is `ub` too.
use mathlib.Core.Path.{◌≡◌, refl}
use mathlib.Core.Logic.{◌≢◌}
use mathlib.Core.Option.{Option, none, some}
use native.Mathlib.Omega.{arith}

pub data Outcome {ℓ} (A : Type ℓ) : Type ℓ where
  ret : A → Outcome A
  ub : Outcome A
  panics : Outcome A

-- The operator `?`.
unfoldable pub and_then {ℓ ℓ'} :
    {A : Type ℓ} {B : Type ℓ'} → Outcome A → (A → Outcome B) → Outcome B
and_then (ret a) k = k a
and_then ub k = ub
and_then panics k = panics

infixl 5 ◌>>=◌
abbrev pub ◌>>=◌ {ℓ ℓ'} : {A : Type ℓ} {B : Type ℓ'} → Outcome A → (A → Outcome B) → Outcome B
ret a >>= k = k a
ub >>= k = ub
panics >>= k = panics

-- `unwrap`
abbrev pub unwrap {ℓ} : {A : Type ℓ} → Option A → Outcome A
unwrap none = panics
unwrap (some a) = ret a

-- `?` on an `Option`
abbrev pub or_throw {ℓ} : {A : Type ℓ} → Option A → Outcome A
or_throw none = ub
or_throw (some a) = ret a

pub >>=-eq-ret {ℓ κ} :
    {A : Type ℓ} {B : Type κ} (o : Outcome A) (k : A → Outcome B) {b : B}
    → (o >>= k) ≡ ret b
    → (a : A) × (o ≡ ret a) × (k a ≡ ret b)
>>=-eq-ret (ret a) k h = (a, refl, h)
>>=-eq-ret ub k h = cc
>>=-eq-ret panics k h = cc

-- The outcome is no panic, and a value that is returned has a property.
abbrev pub Safe {ℓ} : {A : Type ℓ} → (A → Type 0) → Outcome A → Type 0
Safe P (ret s) = P s
Safe P ub = Unit
Safe P panics = ⊥

pub Safe-and_then {ℓ κ} :
    {A : Type ℓ} {B : Type κ} (P : A → Type 0) (Q : B → Type 0) (o : Outcome A) (f : A → Outcome B)
    → Safe P o
    → ((s : A) → P s → Safe Q (f s))
    → Safe Q (and_then o f)
unfolding and_then
Safe-and_then P Q (ret s) f h k = k s h
Safe-and_then P Q ub f h k = tt
Safe-and_then P Q panics f h k = elim h [ ]

pub Safe-not_panics {ℓ} : {A : Type ℓ} (P : A → Type 0) (o : Outcome A) → Safe P o → o ≢ panics
Safe-not_panics P (ret s) h e = ground (arith, e)
Safe-not_panics P ub h e = ground (arith, e)
Safe-not_panics P panics h e = h

pub Safe-ub {ℓ} : {A : Type ℓ} (o : Outcome A) → Safe (λ _. ⊥) o → o ≡ ub
Safe-ub (ret s) h = elim h [ ]
Safe-ub ub h = refl
Safe-ub panics h = elim h [ ]

pub ret_inj {ℓ} : {A : Type ℓ} {a b : A} → ret a ≡ ret b → a ≡ b
ret_inj e = cc

pub unwrap-eq-ret {ℓ} : {A : Type ℓ} (o : Option A) {a : A} → unwrap o ≡ ret a → o ≡ some a
unwrap-eq-ret none e = cc
unwrap-eq-ret (some a) e = cc

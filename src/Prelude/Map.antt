-- ===== src/Prelude/Map.antt =====
-- `Map` of the specification language: finite maps, as association lists with the newest entry
-- first.
use minirust_contrib_fork.Prelude.Tests.{◌==◌, ==_iff, if◌then◌else◌}
use minirust_contrib_fork.Prelude.Int.{ℤ, ◌==ℤ◌, ==ℤ_iff}
use Prim.Native.Nat.{ℕ}
use mathlib.Core.Path.{◌≡◌}
use mathlib.Core.Logic.{◌↔◌}
use mathlib.Core.Bool.{Bool, true, false, ◌||◌}
use mathlib.Core.Option.{Option, none, some}
use mathlib.Core.List.{List, [], ◌∷◌}

pub record Eq {ℓ} (A : Type ℓ) : Type ℓ where
  pub beq : A → A → Bool
  pub beq_iff : (a b : A) → (beq a b ≡ true) ↔ (a ≡ b)

instance abbrev pub nat_eq : Eq ℕ
nat_eq = record { beq = ◌==◌; beq_iff = ==_iff }

instance abbrev pub int_eq : Eq ℤ
int_eq = record { beq = ◌==ℤ◌; beq_iff = ==ℤ_iff }

abbrev pub Map {ℓ κ} : Type ℓ → Type κ → Type (ℓ ⊔ κ)
Map K V = List (K × V)

module _ {ℓ κ} {K : Type ℓ} ⦃e : Eq K⦄ {V : Type κ} where
  abbrev pub contains_key : K → Map K V → Bool
  contains_key k [] = false
  contains_key k ((j, v) ∷ m) = e.beq j k || contains_key k m

  abbrev pub get : K → Map K V → Option V
  get k [] = none
  get k ((j, v) ∷ m) = if e.beq j k then some v else get k m

  -- Replaces the value of a key that is there.
  abbrev pub insert : K → V → Map K V → Map K V
  insert k v [] = (k, v) ∷ []
  insert k v ((j, w) ∷ m) = if e.beq j k then (k, v) ∷ m else (j, w) ∷ insert k v m

  -- Refuses a key that is there.
  abbrev pub try_insert : K → V → Map K V → Option (Map K V)
  try_insert k v m = if contains_key k m then none else some ((k, v) ∷ m)

  -- `collect` of an iterator of pairs: a later pair replaces an earlier one.
  abbrev pub collect_onto : Map K V → List (K × V) → Map K V
  collect_onto m [] = m
  collect_onto m ((k, v) ∷ l) = collect_onto (insert k v m) l

  abbrev pub collect : List (K × V) → Map K V
  collect l = collect_onto [] l

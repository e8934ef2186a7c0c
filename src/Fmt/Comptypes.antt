-- ===== src/Fmt/Comptypes.antt =====
-- The table of composite types that the printer fills (tooling/miniutil/src/fmt/ty.rs). A function
-- with an argument `comptypes: &mut Vec<CompType>` is an action on the table; `none` is a panic.
use minirust_contrib_fork.Prelude.{
  ℕ, suc, Bool, Option, none, some, List, [], ◌∷◌, ◌++◌, length, if◌then◌else◌,
}
use minirust_contrib_fork.Prelude.Int.{ℤ}
use minirust_contrib_fork.Lang.Types.{Ty}
use Prim.Native.String.{String}

-- What the printer uses and does not define: the derived `==` of `Type`, and `Display` of `Int`.
pub record Host : Type 0 where
  pub same : Ty → Ty → Bool
  pub show : ℤ → String

abbrev pub Fmt {ℓ} : Type ℓ → Type ℓ
Fmt A = List Ty → Option (A × List Ty)

infixl 5 ◌>>=◌
abbrev pub ◌>>=◌ {ℓ κ} : {A : Type ℓ} {B : Type κ} → Fmt A → (A → Fmt B) → Fmt B
(m >>= k) comptypes = elim (m comptypes) [ none ↦ none | some (a, found) ↦ k a found ]

abbrev pub pure {ℓ} : {A : Type ℓ} → A → Fmt A
pure a comptypes = some (a, comptypes)

abbrev pub panic {ℓ} : {A : Type ℓ} → Fmt A
panic comptypes = none

abbrev pub next : Option ℕ → Option ℕ
next none = none
next (some i) = some (suc i)

-- `comptypes.iter().position(|x| *x == ty)`
unfoldable pub position : Host → Ty → List Ty → Option ℕ
position host ty [] = none
position host ty (x ∷ l) = if host.same x ty then some 0 else next (position host ty l)

unfoldable pub get_comptype_index : Host → Ty → Fmt ℕ
get_comptype_index host ty comptypes = elim (position host ty comptypes) [
  | some i ↦ some (i, comptypes)
  | none ↦ some (length comptypes, comptypes ++ ty ∷ [])
]

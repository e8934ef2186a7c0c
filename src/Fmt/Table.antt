-- ===== src/Fmt/Table.antt =====
-- What printing a type or an expression does to the table of composite types (tooling/miniutil/src/fmt).
pub mod Program
pub mod Total
use minirust_contrib_fork.Prelude.{
  ℕ, false, Option, none, some, List, [], ◌∷◌, ◌++◌, ◌≡◌, refl, arith, All, All-append, length, sym,
  subst, ap, ◌∙◌,
}
use minirust_contrib_fork.Lang.Types.{Ty}
use minirust_contrib_fork.Lang.Syntax.{ValueExpr, ValueExprs, PlaceExpr, UnOp, CastOp, IntUnOp}
use minirust_contrib_fork.Fmt.Comptypes.{Host, Fmt, ◌>>=◌, pure, position, get_comptype_index}
use minirust_contrib_fork.Fmt.Ty.{FmtExpr, fmt_type, fmt_comptype_index}
use minirust_contrib_fork.Fmt.Expr.{
  fmt_value_expr, fmt_value_exprs, fmt_place_expr, fmt_un_op, signed_place, parenthesised, parens,
  addr_of_sign,
}
use Prim.Native.String.{String}

-- No type of the table equals a later one.
abbrev pub IsUnique : Host → List Ty → Type 0
IsUnique host [] = Unit
IsUnique host (x ∷ l) = All (λ y. host.same x y ≡ false) l × IsUnique host l

-- The second table has the first one's types at the same numbers.
abbrev pub Extends : List Ty → List Ty → Type 0
Extends l m = (added : List Ty) × (m ≡ l ++ added)

-- The types that the table is for.
abbrev pub IsComposite : Ty → Type 0
IsComposite (Ty.tuple fields n align) = Unit
IsComposite (Ty.union fields chunks n align) = Unit
IsComposite (Ty.enum variants int_ty discriminator n align) = Unit
IsComposite _ = ⊥

-- A table that some appends lead to, each of a composite type that the table lacked.
pub data Grown (host : Host) (l : List Ty) : List Ty → Type 0 where
  here : Grown host l l
  push :
      {k n : List Ty}
      → Grown host l k
      → (ty : Ty) → IsComposite ty
      → position host ty k ≡ none
      → n ≡ k ++ ty ∷ []
      → Grown host l n

pub Grown-trans : (host : Host) {l k n : List Ty} → Grown host l k → Grown host k n → Grown host l n
Grown-trans host g here = g
Grown-trans host g (push h ty c p e) = push (Grown-trans host g h) ty c p e

abbrev pub Good {ℓ} : {A : Type ℓ} → Host → List Ty → Option (A × List Ty) → Type 0
Good host l none = Unit
Good host l (some (a, k)) = Grown host l k

-- An action adds to the table only what it lacks.
abbrev pub Keeps {ℓ} : {A : Type ℓ} → Host → Fmt A → Type 0
Keeps host m = (l : List Ty) → Good host l (m l)

++-nil : (l : List Ty) → l ++ [] ≡ l
++-nil [] = refl
++-nil (x ∷ l) = ap (λ m. x ∷ m) (++-nil l)

++-assoc : (l m n : List Ty) → (l ++ m) ++ n ≡ l ++ (m ++ n)
++-assoc [] m n = refl
++-assoc (x ∷ l) m n = ap (λ k. x ∷ k) (++-assoc l m n)

Grown-Extends : (host : Host) {l k : List Ty} → Grown host l k → Extends l k
Grown-Extends host {l} here = ([], sym (++-nil l))
Grown-Extends host {l} (push g ty c p e) =
    let (added, q) = Grown-Extends host g in
    (added ++ ty ∷ [], e ∙ ap (λ k. k ++ ty ∷ []) q ∙ ++-assoc l added (ty ∷ []))

pub Grown-All :
    (host : Host) {l k : List Ty} → Grown host l k → All IsComposite l → All IsComposite k
Grown-All host here h = h
Grown-All host (push g ty c p e) h =
    subst (All IsComposite) (sym e)
      (All-append IsComposite _ (ty ∷ []) (Grown-All host g h) (c, tt))

Good-trans {ℓ} :
    {A : Type ℓ} (host : Host) (l k : List Ty) (o : Option (A × List Ty))
    → Grown host l k
    → Good host k o
    → Good host l o
Good-trans host l k none e g = tt
Good-trans host l k (some (a, n)) e g = Grown-trans host e g

unchanged : (host : Host) (l : List Ty) → Grown host l l
unchanged host l = here

pub Keeps-pure {ℓ} : {A : Type ℓ} (host : Host) (a : A) → Keeps host (pure a)
Keeps-pure host a l = here

Good->>= {ℓ κ} :
    {A : Type ℓ} {B : Type κ} (host : Host) (l : List Ty) (o : Option (A × List Ty)) (f : A → Fmt B)
    → Good host l o
    → ((a : A) → Keeps host (f a))
    → Good host l (elim o [ none ↦ none | some (a, k) ↦ f a k ])
Good->>= host l none f g h = tt
Good->>= host l (some (a, k)) f g h = Good-trans host l k (f a k) g (h a k)

pub Keeps->>= {ℓ κ} :
    {A : Type ℓ} {B : Type κ} (host : Host) (m : Fmt A) (f : A → Fmt B)
    → Keeps host m
    → ((a : A) → Keeps host (f a))
    → Keeps host (m >>= f)
Keeps->>= host m f hm hf l = Good->>= host l (m l) f (hm l) hf

pub Keeps-map {ℓ κ} :
    {A : Type ℓ} {B : Type κ} (host : Host) (m : Fmt A) (f : A → B)
    → Keeps host m
    → Keeps host (m >>= λ a. pure (f a))
Keeps-map host m f hm = Keeps->>= host m (λ a. pure (f a)) hm (λ a. Keeps-pure host (f a))

pub Keeps-map₂ {ℓ κ μ} :
    {A : Type ℓ} {B : Type κ} {C : Type μ} (host : Host) (m : Fmt A) (n : Fmt B) (f : A → B → C)
    → Keeps host m
    → Keeps host n
    → Keeps host (m >>= λ a. (n >>= λ b. pure (f a b)))
Keeps-map₂ host m n f hm hn =
    Keeps->>= host m (λ a. n >>= λ b. pure (f a b)) hm (λ a. Keeps-map host n (f a) hn)

position-none :
    (host : Host) (ty : Ty) (l : List Ty)
    → position host ty l ≡ none
    → All (λ x. host.same x ty ≡ false) l
unfolding position
position-none host ty [] e = tt
position-none host ty (x ∷ l) e = (ground arith, position-none host ty l (ground arith))

IsUnique-push :
    (host : Host) (ty : Ty) (l : List Ty)
    → IsUnique host l
    → All (λ x. host.same x ty ≡ false) l
    → IsUnique host (l ++ ty ∷ [])
IsUnique-push host ty [] h k = (tt, tt)
IsUnique-push host ty (x ∷ l) h k = (
  All-append (λ y. host.same x y ≡ false) l (ty ∷ []) h.0 (k.0, tt),
  IsUnique-push host ty l h.1 k.1,
)

pub Grown-IsUnique :
    (host : Host) {l k : List Ty} → Grown host l k → IsUnique host l → IsUnique host k
Grown-IsUnique host here h = h
Grown-IsUnique host (push g ty c p e) h =
    subst (IsUnique host) (sym e)
      (IsUnique-push host ty _ (Grown-IsUnique host g h) (position-none host ty _ p))

get_comptype_index-Keeps :
    (host : Host) (ty : Ty) → IsComposite ty → Keeps host (get_comptype_index host ty)
unfolding get_comptype_index
get_comptype_index-Keeps host ty c l = found (position host ty l) refl
  where
    found :
        (o : Option ℕ)
        → position host ty l ≡ o
        → Good host l (elim o [ some i ↦ some (i, l) | none ↦ some (length l, l ++ ty ∷ []) ])
    found (some i) e = here
    found none e = push here ty c e refl

fmt_comp-Keeps :
    (host : Host) (ty : Ty)
    → IsComposite ty
    → Keeps host
        (get_comptype_index host ty >>= λ i. pure (FmtExpr.atomic (fmt_comptype_index host i)))
fmt_comp-Keeps host ty c =
    Keeps-map host (get_comptype_index host ty) (λ i. FmtExpr.atomic (fmt_comptype_index host i))
      (get_comptype_index-Keeps host ty c)

pub fmt_type-Keeps : (host : Host) (t : Ty) → Keeps host (fmt_type host t)
unfolding fmt_type
fmt_type-Keeps host (Ty.int t) = unchanged host
fmt_type-Keeps host (Ty.ptr t) = unchanged host
fmt_type-Keeps host Ty.bool = unchanged host
fmt_type-Keeps host (Ty.tuple fields n align) = fmt_comp-Keeps host (Ty.tuple fields n align) tt
fmt_type-Keeps host (Ty.union fields chunks n align) =
    fmt_comp-Keeps host (Ty.union fields chunks n align) tt
fmt_type-Keeps host (Ty.enum variants t discriminator n align) =
    fmt_comp-Keeps host (Ty.enum variants t discriminator n align) tt
fmt_type-Keeps host (Ty.array elem count) =
    Keeps-map host (fmt_type host elem) _ (fmt_type-Keeps host elem)
fmt_type-Keeps host (Ty.slice elem) =
    Keeps-map host (fmt_type host elem) _ (fmt_type-Keeps host elem)

fmt_un_op-Keeps :
    (host : Host) (op : UnOp) (operand : String) → Keeps host (fmt_un_op host op operand)
unfolding fmt_un_op
fmt_un_op-Keeps host (UnOp.int IntUnOp.neg) operand = unchanged host
fmt_un_op-Keeps host (UnOp.int IntUnOp.bit_not) operand = unchanged host
fmt_un_op-Keeps host (UnOp.cast (CastOp.int_to_int t)) operand = unchanged host
fmt_un_op-Keeps host (UnOp.cast (CastOp.transmute t)) operand =
    Keeps-map host (fmt_type host t) _ (fmt_type-Keeps host t)
fmt_un_op-Keeps host UnOp.get_metadata operand = unchanged host

signed_place-Keeps :
    (host : Host) (sign : Option String) (m : Fmt FmtExpr)
    → Keeps host m
    → Keeps host (signed_place sign m)
signed_place-Keeps host none m h = λ l. tt
signed_place-Keeps host (some sign) m h = Keeps-map host m _ h

parenthesised-Keeps :
    (host : Host) (p : Option (String × String)) (m : Fmt String)
    → Keeps host m
    → Keeps host (parenthesised p m)
parenthesised-Keeps host none m h = λ l. tt
parenthesised-Keeps host (some (lparen, rparen)) m h = Keeps-map host m _ h

mutual
  unfolding fmt_value_expr fmt_place_expr fmt_value_exprs

  pub fmt_place_expr-Keeps : (host : Host) (p : PlaceExpr) → Keeps host (fmt_place_expr host p)
  fmt_place_expr-Keeps host (PlaceExpr.local l) = unchanged host
  fmt_place_expr-Keeps host (PlaceExpr.deref operand ty) =
      Keeps-map₂ host (fmt_type host ty) (fmt_value_expr host operand) _ (fmt_type-Keeps host ty)
        (fmt_value_expr-Keeps host operand)
  fmt_place_expr-Keeps host (PlaceExpr.field root field) =
      Keeps-map host (fmt_place_expr host root) _ (fmt_place_expr-Keeps host root)
  fmt_place_expr-Keeps host (PlaceExpr.index root index) =
      Keeps-map₂ host (fmt_place_expr host root) (fmt_value_expr host index) _
        (fmt_place_expr-Keeps host root) (fmt_value_expr-Keeps host index)
  fmt_place_expr-Keeps host (PlaceExpr.downcast root discriminant) =
      Keeps-map host (fmt_place_expr host root) _ (fmt_place_expr-Keeps host root)

  pub fmt_value_expr-Keeps : (host : Host) (v : ValueExpr) → Keeps host (fmt_value_expr host v)
  fmt_value_expr-Keeps host (ValueExpr.constant c ty) = unchanged host
  fmt_value_expr-Keeps host (ValueExpr.tuple l t) =
      parenthesised-Keeps host (parens t) (fmt_value_exprs host l) (fmt_value_exprs-Keeps host l)
  fmt_value_expr-Keeps host (ValueExpr.union field expr union_ty) =
      Keeps-map₂ host (fmt_type host union_ty) (fmt_value_expr host expr) _
        (fmt_type-Keeps host union_ty) (fmt_value_expr-Keeps host expr)
  fmt_value_expr-Keeps host (ValueExpr.variant discriminant expr enum_ty) =
      Keeps-map₂ host (fmt_type host enum_ty) (fmt_value_expr host expr) _
        (fmt_type-Keeps host enum_ty) (fmt_value_expr-Keeps host expr)
  fmt_value_expr-Keeps host (ValueExpr.get_discriminant place) =
      Keeps-map host (fmt_place_expr host place) _ (fmt_place_expr-Keeps host place)
  fmt_value_expr-Keeps host (ValueExpr.load source) =
      Keeps-map host (fmt_place_expr host source) _ (fmt_place_expr-Keeps host source)
  fmt_value_expr-Keeps host (ValueExpr.addr_of target ptr_ty) =
      signed_place-Keeps host (addr_of_sign ptr_ty) (fmt_place_expr host target)
        (fmt_place_expr-Keeps host target)
  fmt_value_expr-Keeps host (ValueExpr.un_op operator operand) =
      Keeps->>= host (fmt_value_expr host operand) _ (fmt_value_expr-Keeps host operand)
        (λ e. fmt_un_op-Keeps host operator _)
  fmt_value_expr-Keeps host (ValueExpr.bin_op operator left right) =
      Keeps-map₂ host (fmt_value_expr host left) (fmt_value_expr host right) _
        (fmt_value_expr-Keeps host left) (fmt_value_expr-Keeps host right)

  fmt_value_exprs-Keeps : (host : Host) (l : ValueExprs) → Keeps host (fmt_value_exprs host l)
  fmt_value_exprs-Keeps host ValueExprs.nil = unchanged host
  fmt_value_exprs-Keeps host (ValueExprs.cons e l) =
      Keeps-map₂ host (fmt_value_expr host e) (fmt_value_exprs host l) _
        (fmt_value_expr-Keeps host e) (fmt_value_exprs-Keeps host l)

-- Where printing an expression returns and no type of the table of composite types equals a later
-- one, by the equality that the printer uses, the same holds for the table that it leaves, which
-- is the old one with types appended.
pub fmt_value_expr-IsUnique :
    (host : Host) (v : ValueExpr) (text : FmtExpr) (comptypes found : List Ty)
    → IsUnique host comptypes
    → fmt_value_expr host v comptypes ≡ some (text, found)
    → IsUnique host found × Extends comptypes found
fmt_value_expr-IsUnique host v text comptypes found h e =
    let g = subst (Good host comptypes) e (fmt_value_expr-Keeps host v comptypes) in
    (Grown-IsUnique host g h, Grown-Extends host g)

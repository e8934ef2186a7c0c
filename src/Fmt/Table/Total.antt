-- ===== src/Fmt/Table/Total.antt =====
-- Printing the table of composite types itself, which grows while it is printed.
use minirust_contrib_fork.Prelude.{
  ℕ, zero, suc, ◌+◌, ◌≤◌, ◌-◌, Option, none, some, List, [], ◌∷◌, ◌++◌, ◌≡◌, refl, arith, All,
  length, get_elem?, subst, sym, ap, ◌∙◌, All-append, ◌<◌, subst₂,
}
use minirust_contrib_fork.Lang.Types.{Ty, Fields, Variants}
use minirust_contrib_fork.Fmt.Comptypes.{Host, Fmt, ◌>>=◌, pure, position, get_comptype_index}
use minirust_contrib_fork.Fmt.Ty.{
  fmt_type, fmt_comptype, fmt_comptype_fields, fmt_comptype_variants,
}
use minirust_contrib_fork.Fmt.Program.{
  comp_weight, fields_weight, variants_weight, table_weight, fmt_comptypes_from, fmt_comptypes,
}
use minirust_contrib_fork.Fmt.Table.{IsComposite}
use Prim.Native.String.{String}
use Prim.Native.String as Text

-- An action returns, and appends composite types of a limited weight.
abbrev Good {ℓ} : {A : Type ℓ} → List Ty → ℕ → Option (A × List Ty) → Type 0
Good l b none = ⊥
Good l b (some (a, k)) =
    (added : List Ty) × (k ≡ l ++ added) × All IsComposite added × (table_weight added ≤ b)

abbrev Adds {ℓ} : {A : Type ℓ} → ℕ → Fmt A → Type 0
Adds b m = (l : List Ty) → Good l b (m l)

++-nil : (l : List Ty) → l ++ [] ≡ l
++-nil [] = refl
++-nil (x ∷ l) = ap (λ m. x ∷ m) (++-nil l)

++-assoc : (l m n : List Ty) → (l ++ m) ++ n ≡ l ++ (m ++ n)
++-assoc [] m n = refl
++-assoc (x ∷ l) m n = ap (λ k. x ∷ k) (++-assoc l m n)

table_weight-append : (l m : List Ty) → table_weight (l ++ m) ≡ table_weight l + table_weight m
table_weight-append [] m = omega arith
table_weight-append (t ∷ l) m = omega (arith, table_weight-append l m)

unchanged :
    (b : ℕ) (l : List Ty)
    → (added : List Ty) × (l ≡ l ++ added) × All IsComposite added × (table_weight added ≤ b)
unchanged b l = ([], sym (++-nil l), tt, omega arith)

Good-trans {ℓ} :
    {A : Type ℓ} (l added : List Ty) (b c d : ℕ) (o : Option (A × List Ty))
    → All IsComposite added
    → table_weight added ≤ b
    → b + c ≤ d
    → Good (l ++ added) c o
    → Good l d o
Good-trans l added b c d none h w le g = g
Good-trans l added b c d (some (a, k)) h w le g = (
  added ++ g.0,
  g.1 ∙ ++-assoc l added g.0,
  All-append IsComposite added g.0 h g.2,
  omega (arith, table_weight-append added g.0, g.3, w, le),
)

Adds->>= {ℓ κ} :
    {A : Type ℓ} {B : Type κ} (b c d : ℕ) (m : Fmt A) (f : A → Fmt B)
    → b + c ≤ d
    → Adds b m
    → ((a : A) → Adds c (f a))
    → Adds d (m >>= f)
Adds->>= {A} {B} b c d m f le hm hf l = go (m l) (hm l)
  where
    go :
        (o : Option (A × List Ty))
        → Good l b o
        → Good l d (elim o [ none ↦ none | some (a, k) ↦ f a k ])
    go none g = g
    go (some (a, k)) g =
        Good-trans l g.0 b c d (f a k) g.2 g.3 le (subst (λ k'. Good k' c (f a k)) g.1 (hf a k))

Adds-map {ℓ κ} :
    {A : Type ℓ} {B : Type κ} (b : ℕ) (m : Fmt A) (f : A → B)
    → Adds b m
    → Adds b (m >>= λ a. pure (f a))
Adds-map b m f h = Adds->>= b 0 b m (λ a. pure (f a)) (omega arith) h (λ a l. unchanged 0 l)

Adds-weaken {ℓ} : {A : Type ℓ} (m : Fmt A) (b c : ℕ) → b ≤ c → Adds b m → Adds c m
Adds-weaken {A} m b c le h l = go (m l) (h l)
  where
    go : (o : Option (A × List Ty)) → Good l b o → Good l c o
    go none g = g
    go (some (a, k)) g = (g.0, g.1, g.2, omega (arith, g.3, le))

get_comptype_index-Adds :
    (host : Host) (ty : Ty) → IsComposite ty → Adds (comp_weight ty) (get_comptype_index host ty)
unfolding get_comptype_index
get_comptype_index-Adds host ty c l = found (position host ty l)
  where
    found :
        (o : Option ℕ)
        → Good l
            (comp_weight ty)
            (elim o [ some i ↦ some (i, l) | none ↦ some (length l, l ++ ty ∷ []) ])
    found (some i) = unchanged (comp_weight ty) l
    found none = (ty ∷ [], refl, (c, tt), omega arith)

fmt_type-Adds : (host : Host) (t : Ty) → Adds (comp_weight t) (fmt_type host t)
unfolding fmt_type comp_weight
fmt_type-Adds host (Ty.int t) = unchanged 0
fmt_type-Adds host (Ty.ptr t) = unchanged 0
fmt_type-Adds host Ty.bool = unchanged 0
fmt_type-Adds host (Ty.tuple fields n align) =
    Adds-map _ _ _ (get_comptype_index-Adds host (Ty.tuple fields n align) tt)
fmt_type-Adds host (Ty.union fields chunks n align) =
    Adds-map _ _ _ (get_comptype_index-Adds host (Ty.union fields chunks n align) tt)
fmt_type-Adds host (Ty.enum variants t discriminator n align) =
    Adds-map _ _ _ (get_comptype_index-Adds host (Ty.enum variants t discriminator n align) tt)
fmt_type-Adds host (Ty.array elem count) =
    Adds-map (comp_weight elem) (fmt_type host elem) _ (fmt_type-Adds host elem)
fmt_type-Adds host (Ty.slice elem) =
    Adds-map (comp_weight elem) (fmt_type host elem) _ (fmt_type-Adds host elem)

fmt_comptype_fields-Adds :
    (host : Host) (fs : Fields) → Adds (fields_weight fs) (fmt_comptype_fields host fs)
unfolding fmt_comptype_fields fields_weight
fmt_comptype_fields-Adds host Fields.no_field = unchanged 0
fmt_comptype_fields-Adds host (Fields.field offset t fields) =
    Adds->>= (comp_weight t) (fields_weight fields) (comp_weight t + fields_weight fields)
      (fmt_type host t) _ (omega arith) (fmt_type-Adds host t)
      (λ ty.
        Adds-map (fields_weight fields) (fmt_comptype_fields host fields) _
          (fmt_comptype_fields-Adds host fields))

fmt_comptype_variants-Adds :
    (host : Host) (vs : Variants) → Adds (variants_weight vs) (fmt_comptype_variants host vs)
unfolding fmt_comptype_variants variants_weight
fmt_comptype_variants-Adds host Variants.no_variant = unchanged 0
fmt_comptype_variants-Adds host (Variants.variant discriminant t tagger variants) =
    Adds->>= (comp_weight t) (variants_weight variants) (comp_weight t + variants_weight variants)
      (fmt_type host t) _ (omega arith) (fmt_type-Adds host t)
      (λ ty.
        Adds-map (variants_weight variants) (fmt_comptype_variants host variants) _
          (fmt_comptype_variants-Adds host variants))

-- What the entry's own composite type weighs is used up.
fmt_comptype-Adds :
    (host : Host) (i : ℕ) (t : Ty)
    → IsComposite t
    → (0 < comp_weight t) × Adds (comp_weight t - 1) (fmt_comptype host i t)
unfolding fmt_comptype comp_weight
fmt_comptype-Adds host i (Ty.int t) c = absurd c
fmt_comptype-Adds host i (Ty.ptr t) c = absurd c
fmt_comptype-Adds host i Ty.bool c = absurd c
fmt_comptype-Adds host i (Ty.array elem count) c = absurd c
fmt_comptype-Adds host i (Ty.slice elem) c = absurd c
fmt_comptype-Adds host i (Ty.tuple fields n align) c = (
  omega arith,
  Adds-weaken _ (fields_weight fields) _ (omega arith) (
      Adds-map (fields_weight fields) (fmt_comptype_fields host fields) _
        (fmt_comptype_fields-Adds host fields)),
)
fmt_comptype-Adds host i (Ty.union fields chunks n align) c = (
  omega arith,
  Adds-weaken _ (fields_weight fields) _ (omega arith) (
      Adds-map (fields_weight fields) (fmt_comptype_fields host fields) _
        (fmt_comptype_fields-Adds host fields)),
)
fmt_comptype-Adds host i (Ty.enum variants t discriminator n align) c = (
  omega arith,
  Adds-weaken _ (variants_weight variants) _ (omega arith) (
      Adds-map (variants_weight variants) (fmt_comptype_variants host variants) _
        (fmt_comptype_variants-Adds host variants)),
)

get_elem?-append_end : (done : List Ty) → get_elem? (done ++ []) (length done) ≡ none
get_elem?-append_end [] = refl
get_elem?-append_end (x ∷ done) = get_elem?-append_end done

get_elem?-append :
    (done : List Ty) (c : Ty) (rest : List Ty) → get_elem? (done ++ c ∷ rest) (length done) ≡ some c
get_elem?-append [] c rest = refl
get_elem?-append (x ∷ done) c rest = get_elem?-append done c rest

length-snoc : (done : List Ty) (c : Ty) → length (done ++ c ∷ []) ≡ suc (length done)
length-snoc [] c = refl
length-snoc (x ∷ done) c = ap suc (length-snoc done c)

loop_end :
    (fuel : ℕ) (host : Host) (i : ℕ) (l : List Ty)
    → get_elem? l i ≡ none
    → fmt_comptypes_from fuel host i l ≡ some ""
unfolding fmt_comptypes_from
loop_end zero host i l e = ground arith
loop_end (suc fuel) host i l e = ground arith

loop_next :
    (fuel : ℕ) (host : Host) (i : ℕ) (l found : List Ty) (c : Ty) (s rest : String)
    → get_elem? l i ≡ some c
    → fmt_comptype host i c l ≡ some (s, found)
    → fmt_comptypes_from fuel host (suc i) found ≡ some rest
    → (out : String) × (fmt_comptypes_from (suc fuel) host i l ≡ some out)
unfolding fmt_comptypes_from
loop_next fuel host i l found c s rest e p q = (Text.◌++◌ s rest, ground arith)

-- An action that returns, with what it returns.
Good-some {ℓ} :
    {A : Type ℓ} (l : List Ty) (b : ℕ) (o : Option (A × List Ty))
    → Good l b o
    → (a : A) × (added : List Ty) × (o ≡ some (a, l ++ added))
      × All IsComposite added
      × (table_weight added ≤ b)
Good-some l b none g = absurd g
Good-some l b (some (a, k)) g = (a, g.0, ap (λ k'. some (a, k')) g.1, g.2, g.3)

-- The loop after the types `done`, with those of `rest` still to print.
fmt_comptypes_from-some :
    (fuel : ℕ) (host : Host) (i : ℕ) (l done rest : List Ty)
    → l ≡ done ++ rest
    → i ≡ length done
    → All IsComposite rest
    → table_weight rest ≤ fuel
    → (out : String) × (fmt_comptypes_from fuel host i l ≡ some out)
fmt_comptypes_from-some fuel host i l done [] e n h le = (
  "",
  loop_end fuel host i l
      (subst₂ (λ k j. get_elem? k j ≡ none) (sym e) (sym n) (get_elem?-append_end done)),
)
fmt_comptypes_from-some zero host i l done (c ∷ rest) e n h le =
    absurd (omega (arith, (fmt_comptype-Adds host 0 c h.0).0))
fmt_comptypes_from-some (suc fuel) host i l done (c ∷ rest) e n h le =
    let step = fmt_comptype-Adds host i c h.0 in
    let g = Good-some l (comp_weight c - 1) (fmt_comptype host i c l) (step.1 l) in
    let later =
      fmt_comptypes_from-some fuel host (suc i) (l ++ g.1) (done ++ c ∷ []) (rest ++ g.1)
        (ap (λ k. k ++ g.1) e
          ∙ ++-assoc done (c ∷ rest) g.1
          ∙ sym (++-assoc done (c ∷ []) (rest ++ g.1)))
        (ap suc n ∙ sym (length-snoc done c)) (All-append IsComposite rest g.1 h.1 g.3)
        (omega (arith, table_weight-append rest g.1, g.4, step.0)) in
    loop_next fuel host i l (l ++ g.1) c g.0 later.0
      (subst₂ (λ k j. get_elem? k j ≡ some c) (sym e) (sym n) (get_elem?-append done c rest)) g.2
      later.1

-- Where each entry of the table is a tuple, union or enum, the loop over the table, which grows
-- while it runs, ends with a text: the number of composite types in the entries, with repetitions,
-- is enough fuel.
pub fmt_comptypes_total :
    (host : Host) (comptypes : List Ty)
    → All IsComposite comptypes
    → (out : String) × (fmt_comptypes host comptypes ≡ some out)
unfolding fmt_comptypes
fmt_comptypes_total host comptypes h =
    fmt_comptypes_from-some (table_weight comptypes) host 0 comptypes [] comptypes refl refl h
      (omega arith)

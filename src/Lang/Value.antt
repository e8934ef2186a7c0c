-- ===== src/Lang/Value.antt =====
-- spec/lang/values.md, and the order by definedness of spec/lang/representation.md. `P` is the type of
-- provenances and `same` its equality. `List<Value>` is a data type of the block.
use minirust_contrib_fork.Prelude.{
  Bool, true, false, ◌&&◌, Option, none, some, List, [], ◌∷◌, ◌==◌, ℕ, suc,
}
use minirust_contrib_fork.Prelude.Int.{ℤ, ◌==ℤ◌}
use minirust_contrib_fork.Mem.Pointer.{
  AbstractByte, uninit, init, Pointer, ThinPointer, PointerMeta, count,
}

mutual
  pub data Value (P : Type 0) : Type 0 where
    int : ℤ → Value P
    bool : Bool → Value P
    ptr : Pointer P → Value P
    tuple : Values P → Value P
    variant : ℤ → Value P → Value P
    union : List (List (AbstractByte P)) → Value P

  pub data Values (P : Type 0) : Type 0 where
    no_value : Values P
    value : Value P → Values P → Values P

abbrev pub count_values : {P : Type 0} → Values P → ℕ
count_values no_value = 0
count_values (value v vs) = suc (count_values vs)

abbrev pub same_bool : Bool → Bool → Bool
same_bool true b = b
same_bool false true = false
same_bool false false = true

abbrev pub same_meta : Option PointerMeta → Option PointerMeta → Bool
same_meta none none = true
same_meta (some (count m)) (some (count n)) = m ==ℤ n
same_meta _ _ = false

module _ {P : Type 0} (same : P → P → Bool) where
  abbrev pub same_provenance : Option P → Option P → Bool
  same_provenance none none = true
  same_provenance (some p) (some q) = same p q
  same_provenance _ _ = false

  abbrev pub provenance_le_defined : Option P → Option P → Bool
  provenance_le_defined none q = true
  provenance_le_defined (some p) (some q) = same p q
  provenance_le_defined (some p) none = false

  abbrev pub byte_le_defined : AbstractByte P → AbstractByte P → Bool
  byte_le_defined uninit b = true
  byte_le_defined (init data1 none) (init data2 q) = data1 == data2
  byte_le_defined (init data1 (some provenance1)) (init data2 (some provenance2)) =
      data1 == data2 && same provenance1 provenance2
  byte_le_defined _ _ = false

  abbrev pub thin_le_defined : ThinPointer P → ThinPointer P → Bool
  thin_le_defined p q = p.addr ==ℤ q.addr && provenance_le_defined p.provenance q.provenance

  abbrev pub ptr_le_defined : Pointer P → Pointer P → Bool
  ptr_le_defined p q =
      thin_le_defined p.thin_pointer q.thin_pointer && same_meta p.metadata q.metadata

  abbrev pub bytes_le_defined : List (AbstractByte P) → List (AbstractByte P) → Bool
  bytes_le_defined [] [] = true
  bytes_le_defined (b ∷ bs) (c ∷ cs) = byte_le_defined b c && bytes_le_defined bs cs
  bytes_le_defined _ _ = false

  abbrev pub chunks_le_defined : List (List (AbstractByte P)) → List (List (AbstractByte P)) → Bool
  chunks_le_defined [] [] = true
  chunks_le_defined (b ∷ bs) (c ∷ cs) = bytes_le_defined b c && chunks_le_defined bs cs
  chunks_le_defined _ _ = false

  abbrev mutual
    pub le_defined : Value P → Value P → Bool
    le_defined (Value.int i) (Value.int j) = i ==ℤ j
    le_defined (Value.bool b) (Value.bool c) = same_bool b c
    le_defined (Value.ptr p) (Value.ptr q) = ptr_le_defined p q
    le_defined (Value.tuple vs) (Value.tuple ws) = values_le_defined vs ws
    le_defined (Value.variant discriminant1 data1) (Value.variant discriminant2 data2) =
        discriminant1 ==ℤ discriminant2 && le_defined data1 data2
    le_defined (Value.union bs) (Value.union cs) = chunks_le_defined bs cs
    le_defined _ _ = false

    pub values_le_defined : Values P → Values P → Bool
    values_le_defined no_value no_value = true
    values_le_defined (value v vs) (value w ws) = le_defined v w && values_le_defined vs ws
    values_le_defined _ _ = false

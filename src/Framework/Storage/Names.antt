-- ===== src/Framework/Storage/Names.antt =====
-- The names of tables and columns.
use srcport_substrate.Base.{
  ℕ, ◌<◌, ◌+◌, ◌≡◌, refl, ap, ◌⊎◌, inl, inr, Bool, true, false, ◌||◌, List, [], ◌∷◌, ◌++◌, Str,
  Bytes, lit, ◌==◌, eq_iff, subst, All, any, filter, length, arith, if◌then◌else◌, Bool-cases,
}
use srcport_substrate.Framework.Storage.{
  per_run, ColumnDef, TableSchema, identity_columns, add_columns, with_identity_columns, joined,
  physical_name,
}

-- No underscore.
abbrev pub IsPlain : Str → Type 0
IsPlain s = All (λ c. (c < 95) ⊎ (95 < c)) s

split_underscore :
    (a b x y : Bytes) → IsPlain a → IsPlain b → a ++ 95 ∷ x ≡ b ++ 95 ∷ y → (a ≡ b) × (x ≡ y)
split_underscore [] [] x y ha hb e = (refl, cc)
split_underscore [] (d ∷ b) x y ha hb e = absurd (grind arith)
split_underscore (c ∷ a) [] x y ha hb e = absurd (grind arith)
split_underscore (c ∷ a) (d ∷ b) x y ha hb e =
    let h = split_underscore a b x y ha.1 hb.1 (cc) in (cc (h.0), h.1)

joined-injective :
    (a b x y : Str) → IsPlain a → IsPlain b → joined a x ≡ joined b y → (a ≡ b) × (x ≡ y)
unfolding lit
joined-injective a b x y ha hb e =
    let h = split_underscore a b (95 ∷ x) (95 ∷ y) ha hb e in (h.0, cc (h.1))

-- With no underscore in run ids and module names, two tables of runs of their own have one physical
-- name only when they have one run, module and logical name.
pub physical_name-injective :
    (run module_name name run' module_name' name' : Str)
    → IsPlain run × IsPlain run'
    → IsPlain module_name × IsPlain module_name'
    → physical_name per_run run module_name name ≡ physical_name per_run run' module_name' name'
    → (run ≡ run') × (module_name ≡ module_name') × (name ≡ name')
unfolding physical_name
physical_name-injective run m n run' m' n' hr hm e =
    let a = joined-injective run run' _ _ hr.0 hr.1 e in
    let b = joined-injective m m' _ _ hm.0 hm.1 a.1 in (a.0, b.0, b.1)

abbrev pub has_column : Str → List ColumnDef → Bool
has_column name = any (λ c. c.name == name)

abbrev pub columns_named : Str → List ColumnDef → ℕ
columns_named name cs = length (filter (λ c. c.name == name) cs)

has_column-append :
    (name : Str) (cs : List ColumnDef) (c : ColumnDef)
    → has_column name (cs ++ c ∷ []) ≡ (has_column name cs || c.name == name)
has_column-append name [] c = ground arith
has_column-append name (d ∷ cs) c = ground (arith, has_column-append name cs c)

columns_named-append :
    (name : Str) (cs : List ColumnDef) (c : ColumnDef)
    → columns_named name (cs ++ c ∷ []) ≡ columns_named name cs + (if c.name == name then 1 else 0)
columns_named-append name [] c = ground arith
columns_named-append name (d ∷ cs) c = ground (arith, columns_named-append name cs c)

columns_named-absent :
    (name : Str) (cs : List ColumnDef) → has_column name cs ≡ false → columns_named name cs ≡ 0
columns_named-absent name [] h = refl
columns_named-absent name (c ∷ cs) h = ground (arith, columns_named-absent name cs)

has_column-same :
    (a b : Str) (cs : List ColumnDef) → a == b ≡ true → has_column a cs ≡ has_column b cs
has_column-same a b cs e = ap (λ n. has_column n cs) ((eq_iff a b).0 e)

columns_named-add_columns :
    (name : Str) (columns cs : List ColumnDef)
    → columns_named name (add_columns columns cs) ≡ (
        if has_column name columns
        then columns_named name columns
        else if has_column name cs
        then 1
        else 0)
unfolding add_columns
columns_named-add_columns name columns [] = ground (arith, columns_named-absent name columns)
columns_named-add_columns name columns (c ∷ cs) = elim (Bool-cases (has_column c.name columns)) [
  | inl old ↦ rw old (
      ground
        (arith, columns_named-add_columns name columns cs, has_column-same c.name name columns))
  | inr new ↦ rw new (
      ground (
        arith,
        columns_named-add_columns name (columns ++ c ∷ []) cs,
        has_column-append name columns c,
        columns_named-append name columns c,
        columns_named-absent name columns,
        has_column-same c.name name columns,
      ))
]

IsOnce : Str → Type 0
IsOnce name =
    columns_named name identity_columns ≡ (if has_column name identity_columns then 1 else 0)

names-IsOnce : IsOnce (lit "_run_id") × IsOnce (lit "_work_id") × IsOnce (lit "_node_id")
unfolding identity_columns IsOnce lit ◌==◌
names-IsOnce = (refl, refl, refl)

module-IsOnce :
    (name : Str)
    → lit "_run_id" == name ≡ false
    → lit "_work_id" == name ≡ false
    → lit "_node_id" == name ≡ false
    → IsOnce name
unfolding identity_columns IsOnce
module-IsOnce name a b c = ground (arith, a, b, c)

column-IsOnce : (name : Str) → IsOnce name
column-IsOnce name = elim (Bool-cases (lit "_run_id" == name)) [
  | inl e ↦ subst IsOnce ((eq_iff _ name).0 e) names-IsOnce.0
  | inr a ↦ elim (Bool-cases (lit "_work_id" == name)) [
    | inl e ↦ subst IsOnce ((eq_iff _ name).0 e) names-IsOnce.1
    | inr b ↦ elim (Bool-cases (lit "_node_id" == name)) [
      | inl e ↦ subst IsOnce ((eq_iff _ name).0 e) names-IsOnce.2
      | inr c ↦ module-IsOnce name a b c
    ]
  ]
]

-- A module's table has each identity column and each column of its schema, under one column of that
-- name, and no other.
pub columns_named-with_identity_columns :
    (schema : TableSchema) (name : Str)
    → columns_named name (with_identity_columns schema).columns
      ≡ (if has_column name identity_columns || has_column name schema.columns then 1 else 0)
unfolding with_identity_columns IsOnce
columns_named-with_identity_columns schema name =
    ground
      (arith, columns_named-add_columns name identity_columns schema.columns, column-IsOnce name)

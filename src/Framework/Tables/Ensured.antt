-- ===== src/Framework/Tables/Ensured.antt =====
-- What `ensure_table` leaves in the tables.
use srcport_substrate.Base.{
  ◌≡◌, subst, refl, true, inl, inr, Option, none, some, List, [], ◌∷◌, Str, ◌==◌, eq_iff, eq_refl,
  arith, if◌then◌else◌, Bool-cases,
}
use srcport_substrate.Base.Map
use srcport_substrate.Base.Map.{Map}
use srcport_substrate.Framework.Error.{ok, ok_inj}
use srcport_substrate.Framework.Storage.{ColumnDef, same_columns, QualifiedTable}
use srcport_substrate.Framework.Foreign.{Foreign}
use srcport_substrate.Framework.Tables.{
  StoreRow, MemTable, Tables, ensure_found, ensure_table, get_rows,
}

same_columns_refl : (cs : List ColumnDef) → same_columns cs cs ≡ true
same_columns_refl [] = refl
same_columns_refl (c ∷ cs) = ground (arith, eq_refl c.name, same_columns_refl cs)

module _ ⦃f : Foreign⦄ where
  abbrev pub rows_of : Option (List StoreRow) → List StoreRow
  rows_of none = []
  rows_of (some rows) = rows

  -- What `ensure_table` promises of the rows and of a second call.
  IsEnsured : QualifiedTable → Tables → Tables → Type 0
  IsEnsured t before after =
      (ensure_table t after ≡ ok after)
      × ((name : Str)
          → get_rows name after ≡ (
              if t.physical_name == name
              then some (rows_of (get_rows name before))
              else get_rows name before))

  found_lem :
      (t : QualifiedTable) (old : MemTable) (before : Tables)
      → Map.lookup t.physical_name before ≡ some old
      → same_columns old.schema.columns t.schema.columns ≡ true
      → IsEnsured t before before
  unfolding ensure_table ensure_found get_rows IsEnsured
  found_lem t old before e same =
      (rw e (rw same refl), λ name. ground (arith, eq_iff t.physical_name name, e))

  added_lem :
      (t : QualifiedTable) (before : Tables)
      → Map.lookup t.physical_name before ≡ none
      → IsEnsured t before (
          Map.insert t.physical_name
            (record { schema = t.schema; mode = t.mode; rows = [] })
            before)
  unfolding ensure_table ensure_found get_rows IsEnsured
  added_lem t before e =
      let new : MemTable = record { schema = t.schema; mode = t.mode; rows = [] } in
      (
        rw (Map.lookup-insert t.physical_name t.physical_name new before)
            (rw eq_refl (rw same_columns_refl refl)),
        λ name. ground (
          arith,
          eq_iff t.physical_name name,
          Map.lookup-insert t.physical_name name new before,
          e,
        ),
      )

  ensure_found_lem :
      (t : QualifiedTable) (found : Option MemTable) (before after : Tables)
      → Map.lookup t.physical_name before ≡ found
      → ensure_found t found before ≡ ok after
      → IsEnsured t before after
  unfolding ensure_found
  ensure_found_lem t (some old) before after e h =
      elim (Bool-cases (same_columns old.schema.columns t.schema.columns)) [
        | inl same ↦
            subst (IsEnsured t before) (ok_inj (rw same at h)) (found_lem t old before e same)
        | inr differ ↦ (let stop = rw differ at h in absurd (cc))
      ]
  ensure_found_lem t none before after e h =
      subst (IsEnsured t before) (ok_inj h) (added_lem t before e)

  -- A table that was ensured is there, with the rows that it had or with none, and ensuring it
  -- again changes nothing; the rows of other tables stay.
  pub ensure_table_lem :
      (t : QualifiedTable) (before after : Tables) (name : Str)
      → ensure_table t before ≡ ok after
      → (ensure_table t after ≡ ok after)
        × (get_rows name after ≡ (
            if t.physical_name == name
            then some (rows_of (get_rows name before))
            else get_rows name before))
  unfolding ensure_table IsEnsured
  ensure_table_lem t before after name h =
      let done = ensure_found_lem t _ before after refl h in (done.0, done.1 name)

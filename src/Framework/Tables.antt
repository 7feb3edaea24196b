-- ===== src/Framework/Tables.antt =====
-- framework/sdk/rust/src/storage.rs: rows, and the tables of `MemoryStorage`.
pub mod Rows
pub mod Ensured
use srcport_substrate.Base.{
  ℕ, eqb, Bool, true, false, not, ◌&&◌, ◌||◌, Option, none, some, List, [], ◌∷◌, ◌++◌, Str, Bytes,
  lit, ◌==◌, is_nil, if◌then◌else◌, filter, any, all, map, utf8_sort,
}
use srcport_substrate.Base.Int.{ℤ, eqb_ℤ}
use srcport_substrate.Base.Map
use srcport_substrate.Base.Map.{Map}
use srcport_substrate.Framework.Error.{Result, ok, err, invalid, ◌>>=◌}
use srcport_substrate.Framework.Foreign.{Foreign}
use srcport_substrate.Framework.Storage.{
  StorageMode, off, per_run, shared, ColumnDef, same_columns, WriteMode, append, upsert, replace,
  TableSchema, QualifiedTable,
}

pub data StoreValue (F J : Type 0) : Type 0 where
  null : StoreValue F J
  boolean : Bool → StoreValue F J
  integer : ℤ → StoreValue F J
  real : F → StoreValue F J
  text : Str → StoreValue F J
  json : J → StoreValue F J
  bytes : Bytes → StoreValue F J

module _ ⦃f : Foreign⦄ where
  abbrev pub Value : Type 0
  Value = StoreValue f.Float f.Json

  abbrev pub StoreRow : Type 0
  StoreRow = Map Value

  pub record StoreWrite : Type 0 where
    pub mode : Option WriteMode
    pub rows : List StoreRow

  -- `append`, `upsert` and `replace`.
  abbrev pub write : WriteMode → List StoreRow → StoreWrite
  write mode rows = record { mode = some mode; rows = rows }

  abbrev pub one_row : WriteMode → StoreRow → StoreWrite
  one_row mode row = write mode (row ∷ [])

  -- The pairs, of which a later one replaces an earlier one of its name.
  unfoldable pub collect_row : List (Str × Value) → StoreRow → StoreRow
  unfolding Map.insert
  collect_row [] row = row
  collect_row ((k, v) ∷ pairs) row = collect_row pairs (Map.insert k v row)

  unfoldable pub store_row : List (Str × Value) → StoreRow
  unfolding collect_row
  store_row pairs = collect_row pairs []

  -- `==` of values; a float may differ from itself.
  unfoldable pub same_value : Value → Value → Bool
  same_value StoreValue.null StoreValue.null = true
  same_value (StoreValue.boolean a) (StoreValue.boolean b) = if a then b else not b
  same_value (StoreValue.integer a) (StoreValue.integer b) = eqb_ℤ a b
  same_value (StoreValue.real a) (StoreValue.real b) = f.float_eq a b
  same_value (StoreValue.text a) (StoreValue.text b) = a == b
  same_value (StoreValue.json a) (StoreValue.json b) = f.json_eq a b
  same_value (StoreValue.bytes a) (StoreValue.bytes b) = a == b
  same_value _ _ = false

  -- `==` of the values under one column.
  unfoldable pub same_cell : Option Value → Option Value → Bool
  same_cell none none = true
  same_cell (some a) (some b) = same_value a b
  same_cell _ _ = false

  unfoldable pub inject_identity : Str → Str → Str → Str → StoreRow → StoreRow
  unfolding Map.or_insert
  inject_identity run_id work_id node_id module_name row =
      Map.or_insert (lit "_module") (StoreValue.text module_name) (
        Map.or_insert (lit "_node_id") (StoreValue.text node_id) (
          Map.or_insert (lit "_work_id") (StoreValue.text work_id)
            (Map.or_insert (lit "_run_id") (StoreValue.text run_id) row)))

  pub record MemTable : Type 0 where
    pub schema : TableSchema
    pub mode : StorageMode
    pub rows : List StoreRow

  -- `MemoryStorage`
  abbrev pub Tables : Type 0
  Tables = Map MemTable

  unfoldable pub ensure_found : QualifiedTable → Option MemTable → Tables → Result Tables
  ensure_found table (some existing) tables =
      if not (same_columns existing.schema.columns table.schema.columns)
      then err (invalid (lit "storage schema mismatch for table " ++ table.physical_name))
      else ok tables
  ensure_found table none tables = ok (
      Map.insert table.physical_name
        (record { schema = table.schema; mode = table.mode; rows = [] }) tables)

  unfoldable pub ensure_table : QualifiedTable → Tables → Result Tables
  unfolding ensure_found
  ensure_table table tables = ensure_found table (Map.lookup table.physical_name tables) tables

  -- The row's own run, of the identity columns or of the step log.
  unfoldable pub run_of_row : StoreRow → Option Value
  run_of_row r = elim (Map.lookup (lit "_run_id") r) [
    | some v ↦ some v
    | none ↦ Map.lookup (lit "run_id") r
  ]

  -- The `matches!` test.
  unfoldable pub names_run : Str → Option Value → Bool
  names_run run_id (some (StoreValue.text id)) = id == run_id
  names_run run_id _ = false

  unfoldable pub is_of_run : Str → StoreRow → Bool
  unfolding run_of_row names_run
  is_of_run run_id r = names_run run_id (run_of_row r)

  -- The rows that a replace keeps.
  unfoldable pub kept_rows : StorageMode → Str → List StoreRow → List StoreRow
  kept_rows shared run_id rows = filter (λ r. not (is_of_run run_id r)) rows
  kept_rows per_run run_id rows = []
  kept_rows off run_id rows = []

  unfoldable pub same_key : List Str → StoreRow → StoreRow → Bool
  unfolding Map.lookup
  same_key primary_key existing row =
      all (λ k. same_cell (Map.lookup k existing) (Map.lookup k row)) primary_key

  -- The first row with the same key is replaced, or the row is added.
  unfoldable pub upsert_row : List Str → StoreRow → List StoreRow → List StoreRow
  upsert_row primary_key row [] = row ∷ []
  upsert_row primary_key row (r ∷ rows) =
      let rest = upsert_row primary_key row rows in
      if same_key primary_key r row then row ∷ rows else r ∷ rest

  unfoldable pub upsert_rows : List Str → List StoreRow → List StoreRow → List StoreRow
  upsert_rows primary_key [] rows = rows
  upsert_rows primary_key (row ∷ new) rows =
      upsert_rows primary_key new (upsert_row primary_key row rows)

  unfoldable pub rows_after :
      Str → WriteMode → List StoreRow → List Str → Str → MemTable → Result (List StoreRow)
  unfolding kept_rows upsert_rows
  rows_after table append new primary_key run_id t = ok (t.rows ++ new)
  rows_after table replace new primary_key run_id t = ok (kept_rows t.mode run_id t.rows ++ new)
  rows_after table upsert new primary_key run_id t =
      if is_nil primary_key
      then err (invalid (lit "upsert on " ++ (table ++ lit " requires primary_key on TableSchema")))
      else ok (upsert_rows primary_key new t.rows)

  -- The table with its new rows.
  put_rows : Str → MemTable → Tables → Result (List StoreRow) → Result Tables
  put_rows table t tables r = r >>= λ rows. ok (Map.insert table (record t { rows = rows }) tables)

  unfoldable pub write_rows :
      Str → WriteMode → List StoreRow → List Str → Str → Tables → Result Tables
  unfolding rows_after put_rows
  write_rows table mode new primary_key run_id tables = elim (Map.lookup table tables) [
    | none ↦ err (invalid (lit "storage table not ensured: " ++ table))
    | some t ↦ put_rows table t tables (rows_after table mode new primary_key run_id t)
  ]

  unfoldable pub drop_table : Str → Tables → Tables
  unfolding Map.remove
  drop_table table tables = Map.remove table tables

  unfoldable pub table_exists : Str → Tables → Bool
  unfolding Map.contains_key
  table_exists table tables = Map.contains_key table tables

  unfoldable pub get_rows : Str → Tables → Option (List StoreRow)
  get_rows table tables = elim (Map.lookup table tables) [ none ↦ none | some t ↦ some t.rows ]

  unfoldable pub table_names : Tables → List Str
  unfolding utf8_sort
  table_names tables = utf8_sort (Map.keys tables)

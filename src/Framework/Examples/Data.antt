-- ===== src/Framework/Examples/Data.antt =====
-- The theorems on memo keys, records, tables and names, applied.
use srcport_substrate.Base.{
  none, is_empty, if◌then◌else◌, ℕ, ◌<◌, ◌≡◌, ◌⊎◌, refl, false, some, List, [], ◌∷◌, ◌++◌, Str, lit,
  ◌==◌, eqb, filter, arith, All,
}
use srcport_substrate.Base.Int.{pos}
use srcport_substrate.Base.Map
use srcport_substrate.Proto.{WorkItem}
use srcport_substrate.Kernel.Digest.Tamper.{Collision}
use srcport_substrate.Kernel.Examples.{example_platform, input_x}
use srcport_substrate.Framework.Error.{ok}
use srcport_substrate.Framework.Memo.{record_to_named_outputs, build_record}
use srcport_substrate.Framework.Memo.Key.{KeyParts, AreClean, memo_key-injective}
use srcport_substrate.Framework.Memo.Laws.{last_id, build_record_lem}
use srcport_substrate.Framework.Storage.{shared, replace, TableSchema, QualifiedTable}
use srcport_substrate.Framework.Storage.Names.{physical_name-injective}
use srcport_substrate.Framework.Tables
use srcport_substrate.Framework.Foreign.{Foreign}
use srcport_substrate.Framework.Tables.{
  StoreValue, StoreRow, MemTable, Tables, is_of_run, same_key, upsert_row, write_rows, get_rows,
  ensure_table,
}
use srcport_substrate.Framework.Tables.Rows.{names, named_run, is_missing, write_rows_replace}

abbrev parts : KeyParts
parts = record {
  module_name = lit "m";
  module_version = lit "1";
  module_digest = lit "d";
  capability = lit "c";
  inputs = (lit "in", lit "id") ∷ [];
}

parts_clean : AreClean parts
unfolding lit
parts_clean = ground arith

memo_key-injective_example : Collision ⊎ (parts ≡ parts)
memo_key-injective_example = memo_key-injective parts parts parts_clean parts_clean refl

abbrev item : WorkItem
item = record {
  id = lit "w";
  run_id = lit "r";
  node_id = lit "a";
  module_name = lit "m";
  module_version = lit "1";
  capability = lit "c";
  inputs = input_x ∷ [];
  unit_key = [];
  attempt = 1;
  lease_until_unix_ms = pos 9;
}

build_record_lem_example :
    last_id
      (lit "x")
      (record_to_named_outputs (build_record (lit "k") item (lit "d") (input_x ∷ []) (lit "r")))
    ≡ (if is_empty (lit "x") then none else last_id (lit "x") (input_x ∷ []))
build_record_lem_example =
    build_record_lem (lit "k") item (lit "d") (input_x ∷ []) (lit "r") (lit "x")

plain_r : All (λ c. (c < 95) ⊎ (95 < c)) (lit "r")
unfolding lit
plain_r = ground arith

physical_name-injective_example : (lit "r" ≡ lit "r") × (lit "r" ≡ lit "r") × (lit "t" ≡ lit "t")
physical_name-injective_example =
    physical_name-injective (lit "r") (lit "r") (lit "t") (lit "r") (lit "r") (lit "t")
      (plain_r, plain_r) (plain_r, plain_r) refl

-- Natural numbers in place of floats and JSON.
instance abbrev pub example_foreign : Foreign
example_foreign = record { Float = ℕ; Json = ℕ; float_eq = eqb; json_eq = eqb; float_one = 1 }

abbrev pub row_of : Str → ℕ → StoreRow
row_of run n = (lit "_run_id", StoreValue.text run) ∷ (lit "n", StoreValue.json n) ∷ []

abbrev pub schema : TableSchema
schema = record { name = lit "t"; columns = []; primary_key = lit "n" ∷ []; write_mode = replace }

abbrev pub table : MemTable
table = record {
  schema = schema;
  mode = shared;
  rows = row_of (lit "a") 1 ∷ row_of (lit "b") 2 ∷ [];
}

abbrev pub tables : Tables
tables = (lit "t", table) ∷ []

table_there : Map.lookup (lit "t") tables ≡ some table
unfolding Map.lookup lit ◌==◌
table_there = refl

runs_differ : lit "a" == lit "b" ≡ false
unfolding lit ◌==◌
runs_differ = refl

write_rows_replace_example :
    (after : Tables) × (rows : List StoreRow) × (write_rows
        (lit "t")
        replace
        (row_of (lit "a") 3 ∷ [])
        []
        (lit "a")
        tables
      ≡ ok after)
    × (get_rows (lit "t") after ≡ some rows)
    × (filter (names (lit "b")) rows
        ≡ filter (names (lit "b")) table.rows ++ filter (names (lit "b")) (row_of (lit "a") 3 ∷ []))
    × (filter (λ r. is_missing (named_run r)) rows
        ≡ filter (λ r. is_missing (named_run r)) table.rows
          ++ filter (λ r. is_missing (named_run r)) (row_of (lit "a") 3 ∷ []))
    × (filter (names (lit "a")) rows ≡ filter (names (lit "a")) (row_of (lit "a") 3 ∷ []))
write_rows_replace_example =
    write_rows_replace (lit "t") table tables [] (lit "a") (lit "b") (row_of (lit "a") 3 ∷ [])
      table_there refl runs_differ

abbrev qualified : QualifiedTable
qualified = record {
  physical_name = lit "t";
  module_name = lit "m";
  logical_name = lit "t";
  schema = schema;
  mode = shared;
}

ensured : ensure_table qualified tables ≡ ok tables
unfolding ensure_table Tables.ensure_found Map.lookup lit ◌==◌
ensured = refl

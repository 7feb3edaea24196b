-- ===== src/Framework/Storage.antt =====
-- framework/sdk/rust/src/storage.rs: table plans, schemas and the names of tables.
pub mod Names
use srcport_substrate.Base.{
  ℕ, eqb, Bool, true, false, not, ◌&&◌, ◌||◌, Option, none, some, List, [], ◌∷◌, ◌++◌, Str, Bytes,
  lit, ◌==◌, is_nil, if◌then◌else◌, filter, any, all, map, utf8_sort,
}
use srcport_substrate.Base.Int.{ℤ, eqb_ℤ}
use srcport_substrate.Base.Map
use srcport_substrate.Base.Map.{Map}
use srcport_substrate.Framework.Error.{Result, ok, err, invalid, ◌>>=◌}

abbrev pub step_log_table : Str
unfolding lit
step_log_table = lit "_srcport_step_log"

pub data StorageMode : Type 0 where
  off per_run shared : StorageMode

pub data StorageRetention : Type 0 where
  drop_on_end keep : StorageRetention

pub record StoragePlan : Type 0 where
  pub mode : StorageMode
  pub step_log : Bool
  pub retention : StorageRetention

abbrev pub plan : StorageMode → Bool → StorageRetention → StoragePlan
plan mode step_log retention = record { mode = mode; step_log = step_log; retention = retention }

abbrev pub off_plan : StoragePlan
off_plan = plan off false drop_on_end

abbrev pub per_run_plan : StoragePlan
per_run_plan = plan per_run false drop_on_end

abbrev pub per_run_keep : StoragePlan
per_run_keep = plan per_run false keep

abbrev pub shared_plan : StoragePlan
shared_plan = plan shared false keep

abbrev pub step_log_only : StoragePlan
step_log_only = plan off true keep

abbrev pub per_run_with_step_log : StoragePlan
per_run_with_step_log = plan per_run true drop_on_end

abbrev pub with_step_log : StoragePlan → StoragePlan
with_step_log self = record self { step_log = true }

abbrev pub with_retention : StorageRetention → StoragePlan → StoragePlan
with_retention retention self = record self { retention = retention }

abbrev pub module_tables : StoragePlan → Bool
module_tables self = elim self.mode [ off ↦ false | per_run ↦ true | shared ↦ true ]

abbrev pub enabled : StoragePlan → Bool
enabled self = module_tables self || self.step_log

pub data ColumnType : Type 0 where
  text integer real boolean json bytes : ColumnType

pub record ColumnDef : Type 0 where
  pub name : Str
  pub ty : ColumnType
  pub nullable : Bool

abbrev pub required : Str → ColumnType → ColumnDef
required name ty = record { name = name; ty = ty; nullable = false }

abbrev pub optional : Str → ColumnType → ColumnDef
optional name ty = record { name = name; ty = ty; nullable = true }

abbrev type_number : ColumnType → ℕ
type_number text = 0
type_number integer = 1
type_number real = 2
type_number boolean = 3
type_number json = 4
type_number bytes = 5

-- `==` of columns and of lists of columns.
abbrev pub same_column : ColumnDef → ColumnDef → Bool
same_column c d =
    c.name == d.name
    && (eqb (type_number c.ty) (type_number d.ty)
        && (if c.nullable then d.nullable else not d.nullable))

abbrev pub same_columns : List ColumnDef → List ColumnDef → Bool
same_columns [] [] = true
same_columns (c ∷ cs) (d ∷ ds) = same_column c d && same_columns cs ds
same_columns _ _ = false

pub data WriteMode : Type 0 where
  append upsert replace : WriteMode

pub record TableSchema : Type 0 where
  pub name : Str
  pub columns : List ColumnDef
  pub primary_key : List Str
  pub write_mode : WriteMode

abbrev pub new_schema : Str → TableSchema
new_schema name = record { name = name; columns = []; primary_key = []; write_mode = append }

abbrev pub column : ColumnDef → TableSchema → TableSchema
column col self = record self { columns = self.columns ++ col ∷ [] }

abbrev pub with_primary_key : List Str → TableSchema → TableSchema
with_primary_key keys self = record self { primary_key = keys }

abbrev pub with_write_mode : WriteMode → TableSchema → TableSchema
with_write_mode mode self = record self { write_mode = mode }

pub record QualifiedTable : Type 0 where
  pub physical_name : Str
  pub module_name : Str
  pub logical_name : Str
  pub schema : TableSchema
  pub mode : StorageMode

unfoldable pub identity_columns : List ColumnDef
unfolding lit
identity_columns =
    required (lit "_run_id") text
    ∷ required (lit "_work_id") text
    ∷ required (lit "_node_id") text
    ∷ required (lit "_module") text
    ∷ []

-- The loop that adds the module's columns, those with a new name.
unfoldable pub add_columns : List ColumnDef → List ColumnDef → List ColumnDef
add_columns columns [] = columns
add_columns columns (c ∷ cs) =
    add_columns (if any (λ x. x.name == c.name) columns then columns else columns ++ c ∷ []) cs

unfoldable pub with_identity_columns : TableSchema → TableSchema
unfolding add_columns identity_columns
with_identity_columns schema = record schema {
  columns = add_columns identity_columns schema.columns;
}

abbrev pub joined : Str → Str → Str
joined a b = a ++ (lit "__" ++ b)

unfoldable pub physical_name : StorageMode → Str → Str → Str → Str
physical_name off run_id module_name name = name
physical_name per_run run_id module_name name = joined run_id (joined module_name name)
physical_name shared run_id module_name name = joined module_name name

unfoldable pub qualify_table : StorageMode → Str → Str → TableSchema → QualifiedTable
unfolding with_identity_columns physical_name
qualify_table mode run_id module_name schema = record {
  physical_name = physical_name mode run_id module_name schema.name;
  module_name = module_name;
  logical_name = schema.name;
  schema = with_identity_columns schema;
  mode = mode;
}

step_log_schema : TableSchema
step_log_schema = record {
  name = step_log_table;
  columns =
      required (lit "run_id") text
      ∷ required (lit "work_id") text
      ∷ required (lit "node_id") text
      ∷ required (lit "module") text
      ∷ required (lit "capability") text
      ∷ required (lit "ok") boolean
      ∷ optional (lit "error") text
      ∷ optional (lit "output_ports") json
      ∷ [];
  primary_key = [];
  write_mode = append;
}

unfoldable pub step_log_qualified : StorageMode → Str → QualifiedTable
unfolding step_log_schema
step_log_qualified mode run_id = record {
  physical_name = elim mode [ per_run ↦ joined run_id step_log_table | _ ↦ step_log_table ];
  module_name = [];
  logical_name = step_log_table;
  schema = step_log_schema;
  mode = elim mode [ off ↦ shared | other ↦ other ];
}

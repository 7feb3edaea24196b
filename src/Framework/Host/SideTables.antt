-- ===== src/Framework/Host/SideTables.antt =====
-- The storage helpers of `Host`: a run's tables, the rows of its steps, and the end of a run.
pub mod Finish
use srcport_substrate.Base.{
  Bool, true, false, not, ◌&&◌, Option, none, some, List, [], ◌∷◌, ◌++◌, map, Str, lit, is_nil,
  unwrap_or, if◌then◌else◌,
}
use srcport_substrate.Base.Map
use srcport_substrate.Base.Map.{Map}
use srcport_substrate.Proto.{NamedArtifact}
use srcport_substrate.Framework.Error.{
  FrameworkError, invalid, no_plugin, Result, ok, err, panic, ok_or,
}
use srcport_substrate.Framework.Foreign.{Foreign}
use srcport_substrate.Framework.Outside.{Outside, ModulePlugin}
use srcport_substrate.Framework.Presentation.{StepResult}
use srcport_substrate.Framework.Step.{StepContext}
use srcport_substrate.Framework.Policy.{FrameworkPolicy}
use srcport_substrate.Framework.Storage
use srcport_substrate.Framework.Storage.{
  StorageMode, off, per_run, shared, StorageRetention, drop_on_end, keep, StoragePlan, TableSchema,
  QualifiedTable, append, enabled, module_tables, qualify_table, step_log_qualified,
}
use srcport_substrate.Framework.Tables
use srcport_substrate.Framework.Tables.{
  StoreValue, StoreRow, StoreWrite, inject_identity, ensure_table, write_rows, drop_table,
}
use srcport_substrate.Framework.Host.{
  Host, H, pure, lift, gets, modify, refuse_if, ◌>>=◌, ◌>>◌, ask,
}

abbrev pub is_drop : StorageRetention → Bool
is_drop drop_on_end = true
is_drop keep = false

abbrev pub is_per_run : StorageMode → Bool
is_per_run off = false
is_per_run per_run = true
is_per_run shared = false

module _ ⦃f : Foreign⦄ ⦃o : Outside⦄ where
  unfoldable pub put_backend : Result Tables.Tables → H (Unit {0})
  put_backend (ok tables) = modify (λ h. record h { storage = some tables })
  put_backend (err e) = lift (err e)
  put_backend panic = lift panic

  unfoldable pub on_backend :
      Option Tables.Tables → FrameworkError → (Tables.Tables → Result Tables.Tables) → H (Unit {0})
  on_backend none missing change = lift (err missing)
  on_backend (some tables) missing change = put_backend (change tables)

  -- A call of the storage backend.
  unfoldable pub with_backend :
      FrameworkError → (Tables.Tables → Result Tables.Tables) → H (Unit {0})
  unfolding on_backend put_backend
  with_backend missing change = do
    backend ← gets (λ h. h.storage)
    on_backend backend missing change

  -- `to_ensure`
  unfoldable pub run_plan : Str → StoragePlan → Map TableSchema → List QualifiedTable
  run_plan run_id plan schemas =
      (if module_tables plan then map (λ e. qualify_table plan.mode run_id e.0 e.1) schemas else [])
      ++ (if plan.step_log then step_log_qualified plan.mode run_id ∷ [] else [])

  unfoldable pub ensure_all : List QualifiedTable → H (Unit {0})
  unfolding with_backend
  ensure_all [] = pure tt
  ensure_all (q ∷ qs) = do
    with_backend (invalid (lit "storage enabled without backend")) (ensure_table q)
    ensure_all qs

  unfoldable pub ensure_listed : Str → List QualifiedTable → H (Unit {0})
  unfolding ensure_all
  ensure_listed run_id qs = do
    ensure_all qs
    modify (λ h. if is_nil qs then h else record h {
      run_tables = Map.insert run_id (map (λ q. q.physical_name) qs) h.run_tables;
    })

  unfoldable pub has_backend : Option Tables.Tables → Bool
  has_backend none = false
  has_backend (some tables) = true

  unfoldable pub ensure_enabled : Str → StoragePlan → H (Unit {0})
  unfolding ensure_listed has_backend
  ensure_enabled run_id plan = do
    there ← gets (λ h. has_backend h.storage)
    refuse_if (not there) (invalid (lit "storage enabled without backend"))
    schemas ← gets (λ h. h.storage_schemas)
    ensure_listed run_id (run_plan run_id plan schemas)

  unfoldable pub ensure_run_storage : Str → FrameworkPolicy → H (Unit {0})
  unfolding ensure_enabled
  ensure_run_storage run_id policy =
      if enabled policy.storage then ensure_enabled run_id policy.storage else pure tt

  -- The write of a module's rows.
  unfoldable pub apply_write :
      Str → Str → StepContext → StorageMode → TableSchema → Option StoreWrite → H (Unit {0})
  apply_write run_id module_name step mode schema none = pure tt
  apply_write run_id module_name step mode schema (some write) =
      if is_nil write.rows
      then pure tt
      else with_backend (invalid (lit "storage missing at write")) (
          write_rows (qualify_table mode run_id module_name schema).physical_name
            (unwrap_or write.mode schema.write_mode)
            (map (inject_identity run_id step.work.id step.work.node_id module_name) write.rows)
            schema.primary_key run_id)

  unfoldable pub write_module :
      Str → Str → StepContext → StepResult → StorageMode → Option TableSchema → H (Unit {0})
  unfolding apply_write
  write_module run_id module_name step result mode none = pure tt
  write_module run_id module_name step result mode (some schema) = do
    found ← gets (λ h. Map.lookup module_name h.plugins)
    plugin ← lift (ok_or found (no_plugin module_name))
    write ← ask (plugin.on_store step result)
    apply_write run_id module_name step mode schema write

  unfoldable pub insert_error : Option Str → StoreRow → StoreRow
  insert_error none row = row
  insert_error (some e) row = Map.insert (lit "error") (StoreValue.text e) row

  -- The row of the step log.
  unfoldable pub log_row : Str → Str → StepContext → StepResult → StoreRow
  unfolding Map.insert insert_error
  log_row run_id module_name step result =
      Map.insert (lit "output_ports")
        (StoreValue.json (o.to_value (map (λ na. na.name) result.outputs)))
        (insert_error result.error (
          Map.insert (lit "ok") (StoreValue.boolean result.is_ok) (
            Map.insert (lit "capability") (StoreValue.text step.work.capability) (
              Map.insert (lit "module") (StoreValue.text module_name) (
                Map.insert (lit "node_id") (StoreValue.text step.work.node_id) (
                  Map.insert (lit "work_id") (StoreValue.text step.work.id)
                    (Map.insert (lit "run_id") (StoreValue.text run_id) [])))))))

  unfoldable pub write_log : Str → Str → StepContext → StepResult → StorageMode → H (Unit {0})
  unfolding log_row
  write_log run_id module_name step result mode = do
    let q = step_log_qualified mode run_id
    let missing = invalid (lit "storage missing at step_log write")
    with_backend missing (ensure_table q)
    with_backend missing
        (write_rows q.physical_name append (log_row run_id module_name step result ∷ []) [] run_id)

  unfoldable pub write_step : Str → Str → StepContext → StepResult → StoragePlan → H (Unit {0})
  unfolding write_module write_log
  write_step run_id module_name step result plan = do
    schema ← gets (λ h. Map.lookup module_name h.storage_schemas)
    if module_tables plan
        then write_module run_id module_name step result plan.mode schema
        else pure tt
    if plan.step_log then write_log run_id module_name step result plan.mode else pure tt

  unfoldable pub write_under :
      Str → Str → StepContext → StepResult → Option FrameworkPolicy → H (Unit {0})
  unfolding write_step
  write_under run_id module_name step result none = pure tt
  write_under run_id module_name step result (some policy) =
      if enabled policy.storage
      then write_step run_id module_name step result policy.storage
      else pure tt

  unfoldable pub apply_step_storage : Str → Str → StepContext → StepResult → H (Unit {0})
  unfolding write_under
  apply_step_storage run_id module_name step result = do
    found ← gets (λ h. Map.lookup run_id h.run_policies)
    write_under run_id module_name step result found

  unfoldable pub drop_all : List Str → Tables.Tables → Tables.Tables
  unfolding drop_table
  drop_all [] tables = tables
  drop_all (t ∷ ts) tables = drop_all ts (drop_table t tables)

  -- The tables of a run are dropped at its end.
  abbrev pub drops_tables : Option FrameworkPolicy → Bool
  drops_tables none = false
  drops_tables (some policy) = is_drop policy.storage.retention && is_per_run policy.storage.mode

  abbrev pub drop_from : List Str → Option Tables.Tables → Option Tables.Tables
  drop_from names none = none
  drop_from names (some tables) = some (drop_all names tables)

  abbrev pub storage_after : Str → Host → Option Tables.Tables
  storage_after run_id h =
      if drops_tables (Map.lookup run_id h.run_policies)
      then drop_from (unwrap_or (Map.lookup run_id h.run_tables) []) h.storage
      else h.storage

  unfoldable pub finish_run_storage : Str → Host → Host
  unfolding drop_all Map.remove
  finish_run_storage run_id h = record h {
    storage = storage_after run_id h;
    run_tables = Map.remove run_id h.run_tables;
    run_policies = Map.remove run_id h.run_policies;
  }

-- ===== src/Framework/Host/Upholds/Sides.antt =====
-- The side tables, the views and the registration of plugins, for every relation that the calls and
-- writes respect.
use srcport_substrate.Base.{ℕ, Option, none, some, List, [], ◌∷◌, Str, ◌⊎◌, inl, inr}
use srcport_substrate.Proto.{ModuleManifest, ArtifactStorePolicy}
use srcport_substrate.Kernel.Platform.{Platform}
use srcport_substrate.Framework.Error.{FrameworkError, Result, ok, err, panic}
use srcport_substrate.Framework.Foreign.{Foreign}
use srcport_substrate.Framework.Outside.{Outside, ModulePlugin}
use srcport_substrate.Framework.Presentation.{Presentation, StepResult}
use srcport_substrate.Framework.Step.{StepContext}
use srcport_substrate.Framework.Policy.{FrameworkPolicy}
use srcport_substrate.Framework.Storage.{StorageMode, StoragePlan, TableSchema, QualifiedTable}
use srcport_substrate.Framework.Tables
use srcport_substrate.Framework.Tables.{StoreWrite}
use srcport_substrate.Framework.Host.{
  Host, keep_schema, get_run_ctx, get_run, register_plugin, accept_plugin, put_view, maybe_put_ui,
  emit_presentation,
}
use srcport_substrate.Framework.Host.SideTables.{
  put_backend, on_backend, with_backend, ensure_all, ensure_listed, ensure_enabled,
  ensure_run_storage, apply_write, write_module, write_log, write_step, write_under,
  apply_step_storage,
}
use srcport_substrate.Framework.Host.Upholds.Rules.{IsUpheld, Upholds, Upholds-bind, uphold_rules}

module _ ⦃f : Foreign⦄ ⦃o : Outside⦄ ⦃p : Platform⦄ {policy : ArtifactStorePolicy}
    {R : Host → Host → Type 0} (st : IsUpheld policy R) where
  put_backend-R : (r : Result Tables.Tables) → Upholds R (put_backend r)
  unfolding put_backend
  put_backend-R (ok tables) = search (uphold_rules, st, st.on_storage)
  put_backend-R (err e) = search (uphold_rules, st)
  put_backend-R panic = search (uphold_rules, st)

  on_backend-R :
      (b : Option Tables.Tables) (e : FrameworkError)
      (change : Tables.Tables → Result Tables.Tables)
      → Upholds R (on_backend b e change)
  unfolding on_backend
  on_backend-R none e change = search (uphold_rules, st)
  on_backend-R (some tables) e change = put_backend-R _

  with_backend-R :
      (e : FrameworkError) (change : Tables.Tables → Result Tables.Tables)
      → Upholds R (with_backend e change)
  unfolding with_backend
  with_backend-R e change = search (uphold_rules, st, on_backend-R)

  ensure_all-R : (qs : List QualifiedTable) → Upholds R (ensure_all qs)
  unfolding ensure_all
  ensure_all-R [] = search (uphold_rules, st)
  ensure_all-R (q ∷ qs) = Upholds-bind st _ _ (with_backend-R _ _) (λ u. ensure_all-R qs)

  ensure_listed-R : (run_id : Str) (qs : List QualifiedTable) → Upholds R (ensure_listed run_id qs)
  unfolding ensure_listed
  ensure_listed-R run_id [] = search (uphold_rules, st, ensure_all-R, st.on_tables, st.refl_R)
  ensure_listed-R run_id (q ∷ qs) = search (uphold_rules, st, ensure_all-R, st.on_tables, st.refl_R)

  ensure_enabled-R : (run_id : Str) (plan : StoragePlan) → Upholds R (ensure_enabled run_id plan)
  unfolding ensure_enabled
  ensure_enabled-R run_id plan = search (uphold_rules, st, ensure_listed-R) depth 20

  pub ensure_run_storage-R :
      (run_id : Str) (plan : FrameworkPolicy) → Upholds R (ensure_run_storage run_id plan)
  unfolding ensure_run_storage
  ensure_run_storage-R run_id plan = search (uphold_rules, st, ensure_enabled-R)

  apply_write-R :
      (run_id m : Str) (step : StepContext) (mode : StorageMode) (schema : TableSchema)
      (w : Option StoreWrite)
      → Upholds R (apply_write run_id m step mode schema w)
  unfolding apply_write
  apply_write-R run_id m step mode schema none = search (uphold_rules, st)
  apply_write-R run_id m step mode schema (some w) = search (uphold_rules, st, with_backend-R)

  write_module-R :
      (run_id m : Str) (step : StepContext) (r : StepResult) (mode : StorageMode)
      (schema : Option TableSchema)
      → Upholds R (write_module run_id m step r mode schema)
  unfolding write_module
  write_module-R run_id m step r mode none = search (uphold_rules, st)
  write_module-R run_id m step r mode (some schema) =
      search (uphold_rules, st, apply_write-R) depth 20

  write_log-R :
      (run_id m : Str) (step : StepContext) (r : StepResult) (mode : StorageMode)
      → Upholds R (write_log run_id m step r mode)
  unfolding write_log
  write_log-R run_id m step r mode = search (uphold_rules, st, with_backend-R)

  write_step-R :
      (run_id m : Str) (step : StepContext) (r : StepResult) (plan : StoragePlan)
      → Upholds R (write_step run_id m step r plan)
  unfolding write_step
  write_step-R run_id m step r plan =
      search (uphold_rules, st, write_module-R, write_log-R) depth 20

  write_under-R :
      (run_id m : Str) (step : StepContext) (r : StepResult) (plan : Option FrameworkPolicy)
      → Upholds R (write_under run_id m step r plan)
  unfolding write_under
  write_under-R run_id m step r none = search (uphold_rules, st)
  write_under-R run_id m step r (some plan) = search (uphold_rules, st, write_step-R)

  pub apply_step_storage-R :
      (run_id m : Str) (step : StepContext) (r : StepResult)
      → Upholds R (apply_step_storage run_id m step r)
  unfolding apply_step_storage
  apply_step_storage-R run_id m step r = search (uphold_rules, st, write_under-R)

  keep_schema-R : (name : Str) (s : Option TableSchema) → Upholds R (keep_schema name s)
  unfolding keep_schema
  keep_schema-R name none = search (uphold_rules, st)
  keep_schema-R name (some schema) = search (uphold_rules, st, st.on_schemas)

  pub get_run-R : (run_id : Str) → Upholds R (get_run run_id)
  unfolding get_run get_run_ctx
  get_run-R run_id = search (uphold_rules, st) depth 12

  put_view-R :
      (m contract : Str) (body : Str ⊎ List ℕ) → Upholds R (put_view policy m contract body)
  unfolding put_view
  put_view-R m contract (inl e) = search (uphold_rules, st)
  put_view-R m contract (inr body) = search (uphold_rules, st) depth 20

  maybe_put_ui-R :
      (m contract : Str) (view : Presentation) → Upholds R (maybe_put_ui policy m contract view)
  unfolding maybe_put_ui
  maybe_put_ui-R m contract view = search (uphold_rules, st, put_view-R) depth 20

  pub emit_presentation-R :
      (m : Str) (view : Presentation) → Upholds R (emit_presentation policy m view)
  unfolding emit_presentation
  emit_presentation-R m view = search (uphold_rules, st, maybe_put_ui-R, st.on_events) depth 20

  pub registered-R :
      ((manifest : ModuleManifest) (plugin : ModulePlugin)
        → Upholds R (accept_plugin policy manifest plugin))
      → (plugin : ModulePlugin) → Upholds R (register_plugin policy plugin)
  unfolding register_plugin
  registered-R on_accept plugin = search (uphold_rules, st, keep_schema-R, on_accept) depth 30

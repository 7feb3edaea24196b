-- ===== src/Framework/Host.antt =====
-- `Host` of framework/sdk/rust/src/lib.rs over the kernel in memory and the tables and memo records
-- in memory. A method that takes `&mut self` is an action on the host.
pub mod SideTables
pub mod Start
pub mod Steps
pub mod Waves
pub mod Drive
pub mod Calls
pub mod Upholds
pub mod Plugins
pub mod Named
use srcport_substrate.Base.{
  ℕ, Bool, true, false, Option, none, some, List, [], ◌∷◌, ◌++◌, Str, lit, is_empty, if◌then◌else◌,
  ◌⊎◌, inl, inr,
}
use srcport_substrate.Base.Int.{ℤ, pos}
use srcport_substrate.Base.Map
use srcport_substrate.Base.Map.{Map}
use srcport_substrate.Proto.{RequestContext, ModuleManifest, ArtifactStorePolicy, Run}
use srcport_substrate.Kernel.Platform.{Platform}
use srcport_substrate.Kernel.State.{State, M}
use srcport_substrate.Kernel.Bag.{artifact_with_trait}
use srcport_substrate.Kernel.Api.{checked}
use srcport_substrate.Kernel.Registry
use srcport_substrate.Kernel.Store
use srcport_substrate.Kernel.Runs
use srcport_substrate.Framework.Error
use srcport_substrate.Framework.Error.{FrameworkError, invalid, Result, ok, err, panic, from_kernel}
use srcport_substrate.Framework.Foreign.{Foreign}
use srcport_substrate.Framework.Outside.{Outside, ModulePlugin}
use srcport_substrate.Framework.Presentation.{Presentation, StepEvent, contract_ref}
use srcport_substrate.Framework.Policy.{FrameworkPolicy}
use srcport_substrate.Framework.Storage.{TableSchema}
use srcport_substrate.Framework.Tables
use srcport_substrate.Framework.Memo

pub data UiPersist : Type 0 where
  local_only artifacts : UiPersist

abbrev pub persists : UiPersist → Bool
persists local_only = false
persists artifacts = true

abbrev pub default_context : RequestContext
unfolding lit
default_context = record {
  caller = lit "srcport-framework";
  request_key = [];
  deadline_unix_ms = pos 0;
  correlation_id = [];
}

module _ ⦃f : Foreign⦄ ⦃o : Outside⦄ where
  pub record Host : Type 0 where
    pub kernel : State
    pub plugins : Map ModulePlugin
    pub ctx : RequestContext
    pub ui_persist : UiPersist
    pub step_events : List StepEvent
    pub run_policies : Map FrameworkPolicy
    pub storage : Option Tables.Tables
    pub storage_schemas : Map TableSchema
    pub run_tables : Map (List Str)
    pub memo : Option Memo.Store
    pub execute_count : ℕ
    pub memo_hit_count : ℕ
    pub world : o.World

  -- `Host::new` over a kernel.
  abbrev pub new_host : State → o.World → Host
  new_host kernel world = record {
    kernel = kernel;
    plugins = [];
    ctx = default_context;
    ui_persist = local_only;
    step_events = [];
    run_policies = [];
    storage = none;
    storage_schemas = [];
    run_tables = [];
    memo = none;
    execute_count = 0;
    memo_hit_count = 0;
    world = world;
  }

  -- An action on the host.
  abbrev pub H : Type 0 → Type 0
  H A = Host → Result A × Host

  unfoldable pub pure : {A : Type 0} → A → H A
  pure a h = (ok a, h)

  unfoldable pub lift : {A : Type 0} → Result A → H A
  lift r h = (r, h)

  unfoldable pub gets : {A : Type 0} → (Host → A) → H A
  gets read h = (ok (read h), h)

  unfoldable pub modify : (Host → Host) → H (Unit {0})
  modify change h = (ok tt, change h)

  unfoldable pub refuse_if : Bool → FrameworkError → H (Unit {0})
  refuse_if test e h = (Error.refuse_if test e, h)

  abbrev pub continue : {A B : Type 0} → Result A → (A → H B) → H B
  continue (ok a) next h = next a h
  continue (err e) next h = (err e, h)
  continue panic next h = (panic, h)

  infixl 5 ◌>>=◌ ◌>>◌
  unfoldable pub ◌>>=◌ : {A B : Type 0} → H A → (A → H B) → H B
  unfolding pure lift gets modify refuse_if
  ◌>>=◌ m next h = let (r, h') = m h in continue r next h'

  abbrev pub ◌>>◌ : {B : Type 0} → H (Unit {0}) → H B → H B
  check >> rest = check >>= λ u. rest

  -- A call outside of the host.
  unfoldable pub ask : {A : Type 0} → (o.World → A × o.World) → H A
  ask call h = let (a, world) = call h.world in (ok a, record h { world = world })

  -- A call of the kernel.
  unfoldable pub kernel_call : {A : Type 0} → M A → H A
  unfolding from_kernel
  kernel_call call h =
      let (r, state) = call h.kernel in (from_kernel r, record h { kernel = state })

  unfoldable pub with_context : RequestContext → Host → Host
  with_context ctx self = record self { ctx = ctx }

  unfoldable pub with_ui_persist : UiPersist → Host → Host
  with_ui_persist mode self = record self { ui_persist = mode }

  unfoldable pub with_host_storage : Tables.Tables → Host → Host
  with_host_storage backend self = record self { storage = some backend }

  unfoldable pub with_host_memo : Memo.Store → Host → Host
  with_host_memo store self = record self { memo = some store }

  unfoldable pub take_step_events : H (List StepEvent)
  take_step_events self = (ok self.step_events, record self { step_events = [] })

  -- What the plugin's schema leaves among the schemas.
  unfoldable pub keep_schema : Str → Option TableSchema → H (Unit {0})
  keep_schema name none = pure tt
  keep_schema name (some schema) = do
    refuse_if (is_empty schema.name)
        (invalid (lit "plugin " ++ (name ++ lit " storage_schema.name must be non-empty")))
    modify (λ h. record h { storage_schemas = Map.insert name schema h.storage_schemas })

  unfoldable pub get_run_ctx : ℤ → Str → RequestContext → M Run
  get_run_ctx now id ctx = checked now ctx (Runs.get_run id)

  unfoldable pub get_run : Str → H Run
  unfolding get_run_ctx
  get_run run_id = do
    now ← ask o.now
    ctx ← gets (λ h. h.ctx)
    kernel_call (get_run_ctx now run_id ctx)

  module _ ⦃p : Platform⦄ (policy : ArtifactStorePolicy) where
    unfoldable pub accept_plugin : ModuleManifest → ModulePlugin → H (Unit {0})
    accept_plugin manifest plugin = do
      generation ← kernel_call (Registry.register_ctx manifest)
      modify (λ h. record h { plugins = Map.insert manifest.name plugin h.plugins })

    unfoldable pub register_plugin : ModulePlugin → H (Unit {0})
    unfolding keep_schema accept_plugin
    register_plugin plugin = do
      manifest ← ask plugin.manifest
      refuse_if (is_empty manifest.name) (invalid (lit "plugin manifest.name must be non-empty"))
      known ← gets (λ h. Map.contains_key manifest.name h.plugins)
      refuse_if known (invalid (lit "plugin already registered: " ++ manifest.name))
      schema ← ask plugin.storage_schema
      keep_schema manifest.name schema
      accept_plugin manifest plugin

    unfoldable pub put_view : Str → Str → Str ⊎ List ℕ → H Str
    put_view module_name contract (inl e) =
        lift (err (invalid (lit "serialize presentation: " ++ e)))
    put_view module_name contract (inr body) = do
      now ← ask o.now
      ctx ← gets (λ h. h.ctx)
      r ← kernel_call (
          Store.put_artifact_ctx policy now
            (record (artifact_with_trait contract body) { produced_by = module_name }) ctx)
      pure r.id

    unfoldable pub maybe_put_ui : Str → Str → Presentation → H Str
    unfolding put_view
    maybe_put_ui module_name contract view = do
      mode ← gets (λ h. h.ui_persist)
      if persists mode then put_view module_name contract (o.to_vec view) else pure []

    unfoldable pub emit_presentation : Str → Presentation → H (Unit {0})
    unfolding maybe_put_ui
    emit_presentation module_name presentation = do
      id ← maybe_put_ui module_name (contract_ref presentation.stage) presentation
      modify (λ h. record h {
        step_events =
            h.step_events
            ++ (record {
              stage = presentation.stage;
              presentation = presentation;
              artifact_id = id;
            })
              ∷ [];
      })

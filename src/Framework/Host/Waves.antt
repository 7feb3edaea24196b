-- ===== src/Framework/Host/Waves.antt =====
-- `drive_claim_wave`: the claim of a batch of work, and its steps one by one or in parallel.
pub mod Failures
use srcport_substrate.Base.{
  ℕ, suc, Bool, true, false, ◌||◌, Option, none, some, List, [], ◌∷◌, ◌++◌, map, filter, Str,
  length, leb, ltb, contains, if◌then◌else◌,
}
use srcport_substrate.Base.Map
use srcport_substrate.Base.Map.{Map}
use srcport_substrate.Proto.{ArtifactStorePolicy, NamedArtifact, WorkItem, ClaimRequest}
use srcport_substrate.Kernel.Platform.{Platform}
use srcport_substrate.Kernel.Api.{checked}
use srcport_substrate.Kernel.Lease
use srcport_substrate.Framework.Error.{Result, panic}
use srcport_substrate.Framework.Foreign.{Foreign}
use srcport_substrate.Framework.Outside.{Outside, ModulePlugin, Threads}
use srcport_substrate.Framework.Presentation.{Presentation}
use srcport_substrate.Framework.Step.{StepOutput, StepContext, take_progress}
use srcport_substrate.Framework.Policy.{
  FrameworkPolicy, default_concurrency, max_1, effective_concurrency, effective_claim_batch,
}
use srcport_substrate.Framework.Host.{
  Host, H, ◌>>=◌, ◌>>◌, pure, lift, gets, modify, ask, kernel_call,
}
use srcport_substrate.Framework.Host.Steps.{count_up, find_plugin, load_step, try_memo_hit}
use srcport_substrate.Framework.Host.Steps.Finish.{
  init_view, emit_optional, emit_all, optional_map, end_step, commit_memo_hit, finish_work_unit,
}

-- `conc`
unfoldable pub wave_concurrency : Option FrameworkPolicy → ℕ
unfolding effective_concurrency
wave_concurrency none = max_1 default_concurrency
wave_concurrency (some policy) = max_1 (effective_concurrency policy)

-- `max_items`
unfoldable pub wave_items : Bool → Option FrameworkPolicy → ℕ
unfolding wave_concurrency effective_claim_batch
wave_items one_pass policy =
    let conc = wave_concurrency policy in
    let batch = max_1 (elim policy [ none ↦ conc | some p ↦ effective_claim_batch p ]) in
    if one_pass then batch else if ltb batch conc then batch else conc

abbrev pub claim_filter : Option FrameworkPolicy → Option (List Str)
claim_filter none = none
claim_filter (some policy) = policy.claim_modules

-- `claim_module_names` of the plugins' names.
unfoldable pub allowed_names : Option (List Str) → List Str → List Str
allowed_names none names = names
allowed_names (some allow) names = filter (contains allow) names

-- The modules that a wave names in its claim.
unfoldable pub wave_modules : Option (List Str) → List Str → List Str
unfolding allowed_names
wave_modules none names = allowed_names none names
wave_modules (some modules) names = modules

-- One module goes into `module` and several into `modules`.
unfoldable pub claim_for : Str → ℕ → List Str → ClaimRequest
claim_for run_id max_items [] = record {
  run_id = run_id;
  module_name = [];
  node_ids = [];
  max_items = max_items;
  modules = [];
}
claim_for run_id max_items (m ∷ []) = record {
  run_id = run_id;
  module_name = m;
  node_ids = [];
  max_items = max_items;
  modules = [];
}
claim_for run_id max_items (m ∷ n ∷ modules) = record {
  run_id = run_id;
  module_name = [];
  node_ids = [];
  max_items = max_items;
  modules = m ∷ n ∷ modules;
}

module _ ⦃f : Foreign⦄ ⦃o : Outside⦄ where
  -- A work item that waits for its thread.
  pub record Deferred : Type 0 where
    pub work : WorkItem
    pub plugin : ModulePlugin
    pub step : StepContext
    pub init : Option Presentation

  -- What the threads return, in order.
  unfoldable pub outcomes :
      ℕ
      → (ℕ → Result StepOutput × StepContext)
      → List Deferred
      → List (Deferred × (Result StepOutput × StepContext))
  outcomes i returned [] = []
  outcomes i returned (d ∷ ds) = (d, returned i) ∷ outcomes (suc i) returned ds

  -- expect("worker thread panicked")
  unfoldable pub join_threads :
      List Deferred
      → Option (ℕ → Result StepOutput × StepContext)
      → H (List (Deferred × (Result StepOutput × StepContext)))
  unfolding outcomes
  join_threads ds none = lift panic
  join_threads ds (some returned) = pure (outcomes 0 returned ds)

  unfoldable pub claim_module_names : Str → Host → List Str
  unfolding allowed_names
  claim_module_names run_id h =
      allowed_names (claim_filter (Map.lookup run_id h.run_policies)) (Map.keys h.plugins)

  unfoldable pub wave_claim : Str → Bool → Host → ClaimRequest
  unfolding wave_items wave_modules claim_for
  wave_claim run_id one_pass h =
      let policy = Map.lookup run_id h.run_policies in
      claim_for run_id (wave_items one_pass policy)
        (wave_modules (claim_filter policy) (Map.keys h.plugins))

  module _ ⦃p : Platform⦄ (policy : ArtifactStorePolicy) where
    unfoldable pub finish_each : Str → List WorkItem → H (Unit {0})
    unfolding finish_work_unit
    finish_each run_id [] = pure tt
    finish_each run_id (work ∷ items) = do
      finish_work_unit policy run_id work
      finish_each run_id items

    -- A hit is committed at once, and other work waits.
    unfoldable pub defer_or_commit :
        Str → WorkItem → Option (Str × List NamedArtifact × Str) → H (List Deferred)
    unfolding commit_memo_hit
    defer_or_commit run_id work (some (key, outputs, source_run)) = do
      step ← load_step run_id work
      commit_memo_hit policy run_id work.module_name work step key outputs source_run
      pure []
    defer_or_commit run_id work none = do
      plugin ← find_plugin work.module_name
      step ← load_step run_id work
      init ← ask (plugin.on_init step)
      pure (record { work = work; plugin = plugin; step = step; init = init } ∷ [])

    -- The loop before the threads.
    unfoldable pub defer_all : Str → List WorkItem → H (List Deferred)
    unfolding defer_or_commit
    defer_all run_id [] = pure []
    defer_all run_id (work ∷ items) = do
      hit ← try_memo_hit run_id work.module_name work
      first ← defer_or_commit run_id work hit
      rest ← defer_all run_id items
      pure (first ++ rest)

    unfoldable pub settle : Str → Deferred → Result StepOutput → StepContext → H (Unit {0})
    unfolding init_view emit_optional emit_all optional_map end_step take_progress
    settle run_id d result step = do
      modify (λ h. record h { execute_count = count_up h.execute_count })
      emit_optional policy d.work.module_name (optional_map policy (init_view run_id d.work) d.init)
      emit_all policy d.work.module_name (take_progress step).0
      end_step policy run_id d.work.module_name d.work (take_progress step).1 result

    -- The loop after the threads.
    unfoldable pub settle_all :
        Str → List (Deferred × (Result StepOutput × StepContext)) → H (Unit {0})
    unfolding settle
    settle_all run_id [] = pure tt
    settle_all run_id ((d, (result, step)) ∷ rest) = do
      settle run_id d result step
      settle_all run_id rest

  module _ ⦃p : Platform⦄ ⦃t : Threads⦄ (policy : ArtifactStorePolicy) where
    unfoldable pub finish_work_units_parallel : Str → List WorkItem → H (Unit {0})
    unfolding defer_all join_threads settle_all
    finish_work_units_parallel run_id items = do
      deferred ← defer_all policy run_id items
      returned ← ask (t.scope (map (λ d. (d.plugin, d.step)) deferred))
      done ← join_threads deferred returned
      settle_all policy run_id done

    unfoldable pub finish_items : Str → ℕ → List WorkItem → H Bool
    unfolding finish_each finish_work_units_parallel
    finish_items run_id conc [] = pure false
    finish_items run_id conc (work ∷ items) = do
      if leb conc 1 || leb (length (work ∷ items)) 1
          then finish_each policy run_id (work ∷ items)
          else finish_work_units_parallel run_id (work ∷ items)
      pure true

    unfoldable pub drive_claim_wave : Str → Bool → H Bool
    unfolding wave_claim finish_items
    drive_claim_wave run_id one_pass = do
      claim ← gets (wave_claim run_id one_pass)
      conc ← gets (λ h. wave_concurrency (Map.lookup run_id h.run_policies))
      at ← ask o.now
      now ← ask o.now
      ctx ← gets (λ h. h.ctx)
      items ← kernel_call (checked at ctx (Lease.claim_ready now claim))
      finish_items run_id conc items

-- ===== src/Framework/Host/Steps/Finish.antt =====
-- `finish_work_unit` and `try_step`, with the commit or failure of the step.
use srcport_substrate.Base.{
  Bool, true, false, Option, none, some, List, [], ◌∷◌, ◌++◌, map, Str, lit, is_nil, if◌then◌else◌,
}
use srcport_substrate.Base.Map
use srcport_substrate.Base.Map.{Map}
use srcport_substrate.Proto.{
  Artifact, ArtifactRef, ArtifactStorePolicy, NamedArtifact, WorkItem, ClaimRequest,
}
use srcport_substrate.Kernel.Platform.{Platform}
use srcport_substrate.Kernel.Api.{checked}
use srcport_substrate.Kernel.Bag.{unstored}
use srcport_substrate.Kernel.Store
use srcport_substrate.Kernel.Lease
use srcport_substrate.Kernel.Commit
use srcport_substrate.Framework.Error.{FrameworkError, step_failed, display, Result, ok, err, panic}
use srcport_substrate.Framework.Foreign.{Foreign}
use srcport_substrate.Framework.Outside.{Outside}
use srcport_substrate.Framework.Presentation.{
  StepStage, finished, PresentationStatus, Presentation, StepResult, final_failed,
  cached_presentation, fill_identity,
}
use srcport_substrate.Framework.Step.{PortBody, StepOutput, StepContext, take_progress}
use srcport_substrate.Framework.Host.{
  H, pure, lift, gets, modify, ◌>>=◌, ◌>>◌, ask, kernel_call, emit_presentation,
}
use srcport_substrate.Framework.Host.SideTables.{apply_step_storage}
use srcport_substrate.Framework.Host.Steps.{
  count_up, port_traits, submission, find_plugin, succeeds, load_step, try_memo_hit,
  store_memo_after_success,
}

abbrev pub port_names : List NamedArtifact → List Str
port_names = map (λ na. na.name)

abbrev pub good_result : List NamedArtifact → StepResult
good_result outputs = record { is_ok = true; outputs = outputs; error = none }

abbrev pub bad_result : Str → StepResult
bad_result message = record { is_ok = false; outputs = []; error = some message }

-- `Artifact { traits, produced_by, entity_id, ..Default::default() }`
unfoldable pub artifact_of : Str → PortBody → Artifact
unfolding port_traits
artifact_of module_name out = record (unstored (port_traits out.traits [])) {
  produced_by = module_name;
  entity_id = out.entity_id;
}

-- A claim of one item for a module.
abbrev pub claim_one : Str → Str → ClaimRequest
claim_one run_id module_name = record {
  run_id = run_id;
  module_name = module_name;
  node_ids = [];
  max_items = 1;
  modules = [];
}

module _ ⦃f : Foreign⦄ ⦃o : Outside⦄ where
  unfoldable pub init_view : Str → WorkItem → Presentation → Presentation
  unfolding fill_identity
  init_view run_id work view = fill_identity run_id work (record view { stage = StepStage.init })

  unfoldable pub final_view : Str → WorkItem → List NamedArtifact → Presentation → Presentation
  unfolding fill_identity
  final_view run_id work outputs view =
      let filled = fill_identity run_id work (record view { stage = finished }) in
      if is_nil filled.output_ports
      then record filled { output_ports = port_names outputs }
      else filled

  unfoldable pub failed_view : Str → WorkItem → Presentation → Presentation
  unfolding fill_identity
  failed_view run_id work view =
      fill_identity run_id work
        (record view { stage = finished; status = PresentationStatus.failed })

  unfoldable pub cached_view : Str → WorkItem → Str → List NamedArtifact → Str → Presentation
  unfolding fill_identity Map.insert
  cached_view run_id work key outputs source_run =
      let filled = fill_identity run_id work (
        cached_presentation (lit "Cached " ++ work.node_id)
          (lit "memo hit; outputs from run " ++ source_run)) in
      record filled {
        output_ports = port_names outputs;
        meta =
            Map.insert (lit "memo_source_run") source_run
              (Map.insert (lit "memo_key") key (Map.insert (lit "memo") (lit "hit") filled.meta));
      }

  -- The final view of a failed step, or the default one.
  abbrev pub or_failed : Str → Option Presentation → Presentation
  or_failed message none = final_failed (lit "Step failed") message
  or_failed message (some view) = view

  module _ ⦃p : Platform⦄ (policy : ArtifactStorePolicy) where
    unfoldable pub emit_optional : Str → Option Presentation → H (Unit {0})
    emit_optional module_name none = pure tt
    emit_optional module_name (some view) = emit_presentation policy module_name view

    unfoldable pub emit_all : Str → List Presentation → H (Unit {0})
    emit_all module_name [] = pure tt
    emit_all module_name (view ∷ views) = do
      emit_presentation policy module_name view
      emit_all module_name views

    unfoldable pub optional_map :
        (Presentation → Presentation) → Option Presentation → Option Presentation
    optional_map change none = none
    optional_map change (some view) = some (change view)

    unfoldable pub put_output : Str → PortBody → H ArtifactRef
    put_output module_name out = do
      now ← ask o.now
      ctx ← gets (λ h. h.ctx)
      kernel_call (Store.put_artifact_ctx policy now (artifact_of module_name out) ctx)

    -- The loop that puts the outputs.
    unfoldable pub put_outputs : Str → List PortBody → H (List NamedArtifact)
    unfolding put_output
    put_outputs module_name [] = pure []
    put_outputs module_name (out ∷ outs) = do
      r ← put_output module_name out
      rest ← put_outputs module_name outs
      pure (record { name = out.port; artifact = some r } ∷ rest)

    unfoldable pub commit_outputs : Str → WorkItem → List NamedArtifact → H (Unit {0})
    commit_outputs run_id work outputs = do
      at ← ask o.now
      now ← ask o.now
      ctx ← gets (λ h. h.ctx)
      run ← kernel_call (Commit.commit_ctx at now (submission run_id work outputs) ctx)
      pure tt

    unfoldable pub commit_step_success :
        Str → Str → WorkItem → StepContext → StepOutput → H (Unit {0})
    unfolding put_outputs commit_outputs final_view emit_optional optional_map
    commit_step_success run_id module_name work step output = do
      outputs ← put_outputs module_name output
      plugin ← find_plugin module_name
      view ← ask (plugin.on_final step (good_result outputs))
      emit_optional module_name (optional_map (final_view run_id work outputs) view)
      commit_outputs run_id work outputs
      store_memo_after_success run_id module_name work outputs
      apply_step_storage run_id module_name step (good_result outputs)

    unfoldable pub release : Str → WorkItem → Str → H (Unit {0})
    release run_id work message = do
      at ← ask o.now
      now ← ask o.now
      ctx ← gets (λ h. h.ctx)
      run ← kernel_call (
          checked at ctx (
            Commit.fail_work now
              (record { run_id = run_id; work_id = work.id; reason = message; terminal = false })))
      pure tt

    -- The errors of the view, the storage and the kernel are dropped.
    unfoldable pub fail_step : Str → Str → WorkItem → StepContext → FrameworkError → H (Unit {0})
    unfolding failed_view release succeeds display
    fail_step run_id module_name work step e = do
      let message = display e
      plugin ← find_plugin module_name
      view ← ask (plugin.on_final step (bad_result message))
      shown ←
          succeeds (
            emit_presentation policy module_name (failed_view run_id work (or_failed message view)))
      stored ← succeeds (apply_step_storage run_id module_name step (bad_result message))
      released ← succeeds (release run_id work message)
      lift (err (step_failed message))

    unfoldable pub commit_memo_hit :
        Str → Str → WorkItem → StepContext → Str → List NamedArtifact → Str → H (Unit {0})
    unfolding cached_view commit_outputs
    commit_memo_hit run_id module_name work step key outputs source_run = do
      emit_presentation policy module_name (cached_view run_id work key outputs source_run)
      commit_outputs run_id work outputs
      modify (λ h. record h { memo_hit_count = count_up h.memo_hit_count })
      apply_step_storage run_id module_name step (good_result outputs)

    unfoldable pub end_step : Str → Str → WorkItem → StepContext → Result StepOutput → H (Unit {0})
    unfolding commit_step_success fail_step
    end_step run_id module_name work step (ok output) =
        commit_step_success run_id module_name work step output
    end_step run_id module_name work step (err e) = fail_step run_id module_name work step e
    end_step run_id module_name work step panic = lift panic

    unfoldable pub execute_step : Str → WorkItem → StepContext → H (Unit {0})
    unfolding end_step init_view take_progress emit_optional emit_all optional_map
    execute_step run_id work step = do
      plugin ← find_plugin work.module_name
      view ← ask (plugin.on_init step)
      emit_optional work.module_name (optional_map (init_view run_id work) view)
      (result, step') ← ask (plugin.execute step)
      modify (λ h. record h { execute_count = count_up h.execute_count })
      emit_all work.module_name (take_progress step').0
      end_step run_id work.module_name work (take_progress step').1 result

    unfoldable pub end_unit :
        Str → WorkItem → StepContext → Option (Str × List NamedArtifact × Str) → H (Unit {0})
    unfolding execute_step commit_memo_hit
    end_unit run_id work step none = execute_step run_id work step
    end_unit run_id work step (some (key, outputs, source_run)) =
        commit_memo_hit run_id work.module_name work step key outputs source_run

    unfoldable pub finish_work_unit : Str → WorkItem → H (Unit {0})
    unfolding end_unit
    finish_work_unit run_id work = do
      step ← load_step run_id work
      hit ← try_memo_hit run_id work.module_name work
      end_unit run_id work step hit

    unfoldable pub first_unit : Str → List WorkItem → H Bool
    first_unit run_id [] = pure false
    first_unit run_id (work ∷ rest) = do finish_work_unit run_id work; pure true

    unfoldable pub try_step : Str → Str → H Bool
    unfolding first_unit
    try_step run_id module_name = do
      at ← ask o.now
      now ← ask o.now
      ctx ← gets (λ h. h.ctx)
      items ← kernel_call (checked at ctx (Lease.claim_ready now (claim_one run_id module_name)))
      first_unit run_id items

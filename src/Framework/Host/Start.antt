-- ===== src/Framework/Host/Start.antt =====
-- `start_pipeline`, `resume_after`, `cancel` and the reading of runs. The readings of the clock come
-- from outside of the host.
pub mod Policies
use srcport_substrate.Base.{
  Bool, true, false, not, ◌&&◌, Option, none, some, List, [], ◌∷◌, ◌++◌, map, filter, Str, lit,
  ◌==◌, is_empty, is_nil, contains, if◌then◌else◌,
}
use srcport_substrate.Base.Map
use srcport_substrate.Base.Map.{Map}
use srcport_substrate.Proto.{Assembly, NamedArtifact, ArtifactStorePolicy, Run, RunRequest}
use srcport_substrate.Kernel.Platform.{Platform}
use srcport_substrate.Kernel.Api.{checked}
use srcport_substrate.Kernel.Runs
use srcport_substrate.Framework.Error.{FrameworkError, invalid, Result, ok, err, ok_or}
use srcport_substrate.Framework.Foreign.{Foreign}
use srcport_substrate.Framework.Outside.{Outside}
use srcport_substrate.Framework.Presentation.{Presentation, skipped_presentation}
use srcport_substrate.Framework.Policy.{
  RunMode, converge, stream, dedupe_stream, selective, manual, NodePlan, FrameworkPolicy,
  apply_to_run_request,
}
use srcport_substrate.Framework.Policy
use srcport_substrate.Framework.Storage.{enabled}
use srcport_substrate.Framework.Cut.{
  SeedSpec, SkippedNode, AssemblyCut, is_all, is_seed_input_name, materialize_cut,
}
use srcport_substrate.Framework.Seeds.{merge_inputs, validate_seeds_present, seeds_from_run}
use srcport_substrate.Framework.Host.{
  Host, H, pure, lift, gets, modify, refuse_if, ◌>>=◌, ◌>>◌, ask, kernel_call, get_run,
  emit_presentation,
}
use srcport_substrate.Framework.Host.SideTables.{ensure_run_storage, finish_run_storage}

abbrev pub is_selective : RunMode → Bool
is_selective converge = false
is_selective stream = false
is_selective dedupe_stream = false
is_selective selective = true
is_selective (manual closure) = false

abbrev pub is_none {ℓ} : {A : Type ℓ} → Option A → Bool
is_none none = true
is_none (some a) = false

-- join(", ")
unfoldable pub join_commas : List Str → Str
join_commas [] = []
join_commas (s ∷ []) = s
join_commas (s ∷ t ∷ rest) = s ++ (lit ", " ++ join_commas (t ∷ rest))

-- The seeds of a node, as `seed_by_node` holds them.
abbrev pub seeds_of : AssemblyCut → Str → List SeedSpec
seeds_of cut node = filter (λ s. s.from_node == node) cut.required_seeds

unfoldable pub skip_detail : List SeedSpec → Str
unfolding join_commas lit
skip_detail seeds =
    if is_nil seeds
    then lit "skipped (no outputs required by kept nodes)"
    else lit "skipped (seeded ports: "
      ++ (join_commas (map (λ s. s.from_port) seeds) ++ lit "); cut from run")

unfoldable pub seed_meta : List SeedSpec → Map Str → Map Str
unfolding Map.insert
seed_meta [] meta = meta
seed_meta (s ∷ seeds) meta =
    seed_meta seeds (Map.insert (lit "seed:" ++ s.from_port) s.input_name meta)

module _ ⦃f : Foreign⦄ ⦃o : Outside⦄ where
  unfoldable pub skip_presentation : Str → AssemblyCut → SkippedNode → Presentation
  unfolding skip_detail seed_meta
  skip_presentation run_id cut skipped =
      let seeds = seeds_of cut skipped.node_id in
      record (skipped_presentation (lit "Skip " ++ skipped.node_id) (skip_detail seeds)) {
        run_id = run_id;
        node_id = skipped.node_id;
        module_name = skipped.module_name;
        capability = skipped.capability;
        meta = seed_meta seeds (Map.insert (lit "cut") (lit "true") []);
      }

  -- `RunRequest { id, assembly, inputs, ..Default::default() }`
  abbrev pub request_for : Str → Assembly → List NamedArtifact → RunRequest
  request_for run_id assembly inputs = record {
    id = run_id;
    assembly = some assembly;
    inputs = inputs;
    limits = none;
    policy = none;
    include_nodes = [];
  }

  abbrev pub without_nodes : FrameworkPolicy → FrameworkPolicy
  without_nodes policy = record policy { nodes = NodePlan.all }

  module _ ⦃p : Platform⦄ (policy : ArtifactStorePolicy) where
    unfoldable pub emit_skips : Str → AssemblyCut → List SkippedNode → H (Unit {0})
    unfolding skip_presentation emit_presentation
    emit_skips run_id cut [] = pure tt
    emit_skips run_id cut (skipped ∷ rest) = do
      emit_presentation policy skipped.module_name (skip_presentation run_id cut skipped)
      emit_skips run_id cut rest

    unfoldable pub emit_skip_events : Str → AssemblyCut → H (Unit {0})
    unfolding emit_skips
    emit_skip_events run_id cut = emit_skips run_id cut cut.skipped

    -- The tests before the cut.
    unfoldable pub check_start : Str → FrameworkPolicy → H (Unit {0})
    check_start run_id plan = do
      refuse_if (is_selective plan.mode && is_all plan.nodes)
          (invalid (lit "RunMode::Selective requires NodePlan::Only, After, or From"))
      refuse_if (is_empty run_id) (invalid (lit "run_id must be non-empty"))
      known ← gets (λ h. Map.contains_key run_id h.run_policies)
      refuse_if known (invalid (lit "pipeline policy already registered for run_id " ++ run_id))
      storage ← gets (λ h. h.storage)
      refuse_if (enabled plan.storage && is_none storage) (
          invalid
            (lit "StoragePlan enabled but host has no StorageBackend (use Host::with_storage)"))
      memo ← gets (λ h. h.memo)
      refuse_if (plan.memo.enabled && is_none memo)
          (invalid (lit "MemoPlan enabled but host has no MemoStore (use Host::with_memo)"))

    -- The kernel's run, its tables and its policy.
    unfoldable pub begin_cut : Str → AssemblyCut → List NamedArtifact → FrameworkPolicy → H Run
    begin_cut run_id cut inputs plan = do
      now ← ask o.now
      ctx ← gets (λ h. h.ctx)
      run ← kernel_call (
          Runs.start_run_ctx now
            (apply_to_run_request (request_for run_id cut.assembly inputs) (without_nodes plan))
            ctx)
      ensure_run_storage run_id plan
      modify (λ h. record h { run_policies = Map.insert run_id plan h.run_policies })
      pure run

    -- What follows the tests.
    unfoldable pub start_cut : Str → AssemblyCut → List NamedArtifact → FrameworkPolicy → H Run
    unfolding emit_skip_events begin_cut
    start_cut run_id cut inputs plan = do
      emit_skip_events run_id cut
      begin_cut run_id cut inputs plan

    unfoldable pub start_pipeline : Str → Assembly → List NamedArtifact → FrameworkPolicy → H Run
    unfolding check_start start_cut
    start_pipeline run_id assembly inputs plan = do
      check_start run_id plan
      cut ← lift (materialize_cut assembly plan.nodes)
      lift (validate_seeds_present cut inputs)
      start_cut run_id cut inputs plan

    -- The nodes whose outputs are seeded.
    abbrev pub cut_nodes_of : AssemblyCut → Str → List Str
    cut_nodes_of cut after_node =
        let skipped = map (λ s. s.node_id) cut.skipped in
        if contains skipped after_node then skipped else skipped ++ after_node ∷ []

    unfoldable pub resume_after : Str → Str → Str → FrameworkPolicy → H Run
    unfolding start_pipeline
    resume_after new_run_id prior_run_id after_node plan = do
      prior ← get_run prior_run_id
      assembly ← lift (ok_or prior.assembly (invalid (lit "prior run has no assembly")))
      cut ← lift (materialize_cut assembly (Policy.after after_node))
      now ← ask o.now
      ctx ← gets (λ h. h.ctx)
      h ← gets (λ h. h)
      seeds ← lift (
          seeds_from_run (checked now ctx (Runs.list_derivations prior_run_id) h.kernel).0
            prior_run_id (cut_nodes_of cut after_node))
      start_pipeline new_run_id assembly
          (merge_inputs (filter (λ i. not (is_seed_input_name i.name)) prior.inputs) seeds)
          (record plan { nodes = Policy.after after_node })

    unfoldable pub start_run : RunRequest → H Run
    start_run req = do
      now ← ask o.now
      ctx ← gets (λ h. h.ctx)
      kernel_call (Runs.start_run_ctx now req ctx)

    unfoldable pub cancel : Str → H Run
    unfolding finish_run_storage
    cancel run_id = do
      now ← ask o.now
      ctx ← gets (λ h. h.ctx)
      run ← kernel_call (checked now ctx (Runs.cancel_run run_id))
      modify (finish_run_storage run_id)
      pure run

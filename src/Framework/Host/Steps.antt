-- ===== src/Framework/Host/Steps.antt =====
-- One step of a run: the memo hit, or the plugin's execution with its commit or failure.
pub mod Finish
use srcport_substrate.Base.{
  ℕ, ◌+◌, ◌^◌, ◌-◌, Bool, true, false, not, ◌&&◌, Option, none, some, List, [], ◌∷◌, ◌++◌, map, Str,
  lit, is_empty, is_nil, ltb, if◌then◌else◌, Bytes,
}
use srcport_substrate.Base.Int.{ℤ}
use srcport_substrate.Base.Map
use srcport_substrate.Base.Map.{Map}
use srcport_substrate.Proto.{
  Artifact, ArtifactRef, ArtifactStorePolicy, NamedArtifact, Trait, WorkItem, Derivation,
  FailWorkRequest, ClaimRequest,
}
use srcport_substrate.Kernel.Platform.{Platform}
use srcport_substrate.Kernel.Api.{checked}
use srcport_substrate.Kernel.Bag.{unstored}
use srcport_substrate.Kernel.Store
use srcport_substrate.Kernel.Lease
use srcport_substrate.Kernel.Commit
use srcport_substrate.Framework.Error.{
  FrameworkError, no_plugin, step_failed, display, Result, ok, err, panic, ok_or,
}
use srcport_substrate.Framework.Foreign.{Foreign}
use srcport_substrate.Framework.Outside.{Outside, ModulePlugin}
use srcport_substrate.Framework.Presentation.{
  StepStage, finished, PresentationStatus, Presentation, StepResult, final_failed,
  cached_presentation, fill_identity,
}
use srcport_substrate.Framework.Step.{PortBody, StepOutput, StepContext, take_progress}
use srcport_substrate.Framework.Policy.{FrameworkPolicy}
use srcport_substrate.Framework.Memo
use srcport_substrate.Framework.Memo.{
  MemoRecord, allows, memo_key, input_fingerprint_map, record_to_named_outputs, build_record,
}
use srcport_substrate.Framework.Host.{
  Host, H, pure, lift, gets, modify, ◌>>=◌, ◌>>◌, ask, kernel_call, emit_presentation,
}
use srcport_substrate.Framework.Host.SideTables.{apply_step_storage}

-- saturating_add(1) on a `u64`
abbrev pub count_up : ℕ → ℕ
count_up n = if ltb n (2 ^ 64 - 1) then n + 1 else n

abbrev pub inline_trait : Bytes → Trait
inline_trait body = record { body = body; object = none }

-- The traits of an output.
unfoldable pub port_traits : List (Str × Bytes) → Map Trait → Map Trait
unfolding Map.insert
port_traits [] traits = traits
port_traits ((contract, body) ∷ rest) traits =
    port_traits rest (Map.insert contract (inline_trait body) traits)

-- filter(|d| !d.is_empty())
abbrev pub nonempty_digest : Option Str → Option Str
nonempty_digest none = none
nonempty_digest (some d) = if is_empty d then none else some d

-- `Derivation { run_id, work_id, node_id, outputs, ..Default::default() }`
abbrev pub submission : Str → WorkItem → List NamedArtifact → Derivation
submission run_id work outputs = record {
  id = [];
  run_id = run_id;
  work_id = work.id;
  node_id = work.node_id;
  module_name = [];
  module_version = [];
  capability = [];
  inputs = [];
  outputs = outputs;
}

abbrev pub memo_allows : Str → Option FrameworkPolicy → Bool
memo_allows node_id none = false
memo_allows node_id (some policy) = policy.memo.enabled && allows policy.memo.nodes node_id

module _ ⦃f : Foreign⦄ ⦃o : Outside⦄ where
  unfoldable pub find_plugin : Str → H ModulePlugin
  find_plugin module_name = do
    found ← gets (λ h. Map.lookup module_name h.plugins)
    lift (ok_or found (no_plugin module_name))

  unfoldable pub ask_digest : Option ModulePlugin → H (Option Str)
  ask_digest none = pure none
  ask_digest (some plugin) = do digest ← ask plugin.module_digest; pure (nonempty_digest digest)

  -- The module's digest, when the run's policy allows the node to be cached.
  unfoldable pub cache_digest : Str → Str → Str → H (Option Str)
  unfolding ask_digest
  cache_digest run_id module_name node_id = do
    policy ← gets (λ h. Map.lookup run_id h.run_policies)
    plugin ← gets (λ h. Map.lookup module_name h.plugins)
    if memo_allows node_id policy then ask_digest plugin else pure none

  -- `is_err()` of a reply that is dropped.
  unfoldable pub exists_after : {A : Type 0} → Result A → Host → Result Bool × Host
  exists_after (ok a) h = (ok true, h)
  exists_after (err e) h = (ok false, h)
  exists_after panic h = (panic, h)

  unfoldable pub succeeds : {A : Type 0} → H A → H Bool
  unfolding exists_after
  succeeds m h = let (r, h') = m h in exists_after r h'

  module _ ⦃p : Platform⦄ where
    unfoldable pub fetch : ArtifactRef → H Artifact
    fetch ref = do
      now ← ask o.now
      ctx ← gets (λ h. h.ctx)
      kernel_call (checked now ctx (Store.get_artifact ref))

    unfoldable pub load_inputs : List NamedArtifact → Map Artifact → H (Map Artifact)
    load_inputs [] inputs = pure inputs
    load_inputs (na ∷ nas) inputs = elim na.artifact [
      | none ↦ load_inputs nas inputs
      | some r ↦ do art ← fetch r; load_inputs nas (Map.insert na.name art inputs)
    ]

    unfoldable pub load_step : Str → WorkItem → H StepContext
    unfolding load_inputs
    load_step run_id work = do
      inputs ← load_inputs work.inputs []
      pure (record { run_id = run_id; work = work; inputs = inputs; progress_buf = [] })

    -- Whether every output of a record is still in the kernel.
    unfoldable pub all_there : List NamedArtifact → H Bool
    unfolding succeeds fetch
    all_there [] = pure true
    all_there (na ∷ nas) = elim na.artifact [
      | none ↦ pure false
      | some r ↦ do
        there ← succeeds (fetch r)
        let rest = all_there nas
        if there then rest else pure false
    ]

    unfoldable pub key_of_work : Str → WorkItem → Str → Str
    key_of_work module_name work digest =
        memo_key module_name work.module_version digest work.capability (input_fingerprint_map work)

    -- A record whose outputs are all there.
    unfoldable pub hit_of : Str → MemoRecord → H (Option (Str × List NamedArtifact × Str))
    hit_of key r = do
      let named = record_to_named_outputs r
      there ← all_there named
      if there && not (is_nil named && not (is_nil r.outputs))
          then pure (some (key, named, r.source_run_id))
          else pure none

    unfoldable pub look_up : Str → Option Memo.Store → H (Option (Str × List NamedArtifact × Str))
    unfolding hit_of
    look_up key none = pure none
    look_up key (some store) = elim (Memo.get key store) [
      | none ↦ pure none
      | some r ↦ hit_of key r
    ]

    unfoldable pub hit_with :
        Str → WorkItem → Option Str → H (Option (Str × List NamedArtifact × Str))
    unfolding look_up key_of_work
    hit_with module_name work none = pure none
    hit_with module_name work (some digest) = do
      store ← gets (λ h. h.memo)
      look_up (key_of_work module_name work digest) store

    unfoldable pub try_memo_hit : Str → Str → WorkItem → H (Option (Str × List NamedArtifact × Str))
    unfolding hit_with
    try_memo_hit run_id module_name work = do
      digest ← cache_digest run_id module_name work.node_id
      hit_with module_name work digest

    unfoldable pub put_record : Option Memo.Store → MemoRecord → Host → Host
    put_record none r h = h
    put_record (some store) r h = record h { memo = some (Memo.put r store) }

    unfoldable pub store_with :
        Str → Str → WorkItem → List NamedArtifact → Option Str → H (Unit {0})
    unfolding put_record key_of_work
    store_with run_id module_name work outputs none = pure tt
    store_with run_id module_name work outputs (some digest) = modify (λ h.
        put_record h.memo
          (build_record (key_of_work module_name work digest) work digest outputs run_id) h)

    unfoldable pub store_memo_after_success :
        Str → Str → WorkItem → List NamedArtifact → H (Unit {0})
    unfolding store_with
    store_memo_after_success run_id module_name work outputs = do
      digest ← cache_digest run_id module_name work.node_id
      store_with run_id module_name work outputs digest

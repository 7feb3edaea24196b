-- ===== src/Kernel/Traverse.antt =====
-- Every call respects every relation that the writes of the kernel respect.
mod Writes
use srcport_substrate.Base.{Option, none, some, List, [], ◌∷◌, Str}
use srcport_substrate.Base.Int.{ℤ}
use srcport_substrate.Proto.{
  ModuleManifest, Contract, Event, Artifact, ArtifactStorePolicy, PutBlobRequest, GetBlobRequest,
  ArtifactRef, RequestContext, Derivation, TransitionRequest, AppendRequest, RunRequest,
  InjectInputRequest, ClaimRequest, HeartbeatRequest, FailWorkRequest,
}
use srcport_substrate.Kernel.Platform.{Platform}
use srcport_substrate.Kernel.State.{State, RunSlot, ClaimedSlot, IdempotentResult, artifact_ref, M}
use srcport_substrate.Kernel.State
use srcport_substrate.Kernel.Registry.{
  register_ctx, transition_req, store_contract, put_over, put_contract, publish, append,
}
use srcport_substrate.Kernel.Store.{put_fresh, put_unless_replayed, put_artifact_ctx, get_artifact}
use srcport_substrate.Kernel.Blobs.{put_blob, check_stored, get_blob}
use srcport_substrate.Kernel.Runs.{
  running_slot, start_fresh, start_unless_replayed, start_run_ctx, inject_input_ctx, cancel_run,
  get_run, list_derivations,
}
use srcport_substrate.Kernel.Lease.{claim_ready, heartbeat}
use srcport_substrate.Kernel.Commit.{
  fail_work, commit_claimed, commit_fresh, commit_unless_replayed, commit_ctx,
}
use srcport_substrate.Kernel.Api.{checked, void, perform, serve, Call}
use srcport_substrate.Kernel.Keeps.{Keeps, IsPassive, IsStable, keeps_rules, Keeps-modify}
use Writes.{write_rules}

module _ ⦃p : Platform⦄ {R : State → State → Type 0} (st : IsPassive R) where
  open st use {on_append}

  pub register-R : (m : ModuleManifest) → Keeps R (register_ctx m)
  unfolding register_ctx
  register-R m = search (keeps_rules, st, st.on_capabilities, st.on_module, on_append) depth 12

  pub transition-R :
      (now : ℤ) (req : TransitionRequest) (ctx : RequestContext)
      → Keeps R (transition_req now req ctx)
  unfolding transition_req
  transition-R now req ctx = search (keeps_rules, st, st.on_advance) depth 20

  pub publish-R : (e : Event) → Keeps R (publish e)
  unfolding publish
  publish-R e = search (keeps_rules, st, st.on_publish) depth 20

  pub append-R : (req : AppendRequest) → Keeps R (append req)
  unfolding append
  append-R req = search (keeps_rules, st, on_append) depth 20

  put_fresh-R : (a : Artifact) (ctx : RequestContext) → Keeps R (put_fresh a ctx)
  unfolding put_fresh
  put_fresh-R a ctx = search (keeps_rules, st, st.on_artifact, st.on_reply) depth 20

  put_unless_replayed-R :
      (a : Artifact) (ctx : RequestContext) (o : Option IdempotentResult)
      → Keeps R (put_unless_replayed a ctx o)
  unfolding put_unless_replayed
  put_unless_replayed-R a ctx none = put_fresh-R a ctx
  put_unless_replayed-R a ctx (some (State.artifact_ref r)) = search (keeps_rules, st)
  put_unless_replayed-R a ctx (some (State.run r)) = put_fresh-R a ctx

  pub put_artifact-R :
      (policy : ArtifactStorePolicy) (now : ℤ) (a : Artifact) (ctx : RequestContext)
      → Keeps R (put_artifact_ctx policy now a ctx)
  unfolding put_artifact_ctx
  put_artifact-R policy now a ctx = search (keeps_rules, st, put_unless_replayed-R) depth 20

  pub get_artifact-R : (r : ArtifactRef) → Keeps R (get_artifact r)
  unfolding get_artifact
  get_artifact-R r = search (keeps_rules, st) depth 20

  pub put_blob-R :
      (policy : ArtifactStorePolicy) (req : PutBlobRequest) → Keeps R (put_blob policy req)
  unfolding put_blob
  put_blob-R policy req = search (keeps_rules, st, st.on_blob) depth 20

  pub get_blob-R : (req : GetBlobRequest) → Keeps R (get_blob req)
  unfolding get_blob check_stored
  get_blob-R req = search (keeps_rules, st) depth 20

  running_slot-R : (id : Str) → Keeps R (running_slot id)
  unfolding running_slot
  running_slot-R id = search (keeps_rules, st) depth 20

  pub get_run-R : (id : Str) → Keeps R (get_run id)
  unfolding get_run
  get_run-R id = search (keeps_rules, st) depth 20

  pub list-R : (id : Str) → Keeps R (list_derivations id)
  unfolding list_derivations
  list-R id = search (keeps_rules, st) depth 20

  pub checked-R :
      {A : Type 0} (now : ℤ) (ctx : RequestContext) (m : M A)
      → Keeps R m
      → Keeps R (checked now ctx m)
  unfolding checked
  checked-R now ctx m h = search (keeps_rules, st) depth 12

  pub void-R : {A : Type 0} (m : M A) → Keeps R m → Keeps R (void m)
  unfolding void
  void-R m h = search (keeps_rules, st) depth 12

module _ ⦃p : Platform⦄ {R : State → State → Type 0} (st : IsPassive R)
    (on_contract : (c : Contract) (s : State) → R s (store_contract c s)) where
  put_over-R : (c : Contract) (o : Option Contract) → Keeps R (put_over c o)
  unfolding put_over
  put_over-R c none = search (keeps_rules, st, on_contract) depth 12
  put_over-R c (some e) = search (keeps_rules, st, on_contract) depth 12

  -- A relation that the write of a contract respects, whatever it replaces.
  pub put_contract-R : (c : Contract) → Keeps R (put_contract c)
  unfolding put_contract
  put_contract-R c = search (keeps_rules, st, put_over-R) depth 20

pub ruleset store_rules = (
  register-R, transition-R, publish-R, append-R, put_artifact-R, get_artifact-R, put_blob-R,
  get_blob-R, get_run-R, list-R, checked-R, void-R,
)

module _ ⦃p : Platform⦄ {R : State → State → Type 0} (st : IsStable R) where
  open st use {passive, on_slot}
  open passive use {on_append}

  start_fresh-R : (req : RunRequest) (ctx : RequestContext) → Keeps R (start_fresh req ctx)
  unfolding start_fresh
  start_fresh-R req ctx =
      search (keeps_rules, write_rules, passive, st, on_slot, passive.on_reply) depth 40

  start_unless_replayed-R :
      (req : RunRequest) (ctx : RequestContext) (o : Option IdempotentResult)
      → Keeps R (start_unless_replayed req ctx o)
  unfolding start_unless_replayed
  start_unless_replayed-R req ctx none = start_fresh-R req ctx
  start_unless_replayed-R req ctx (some (State.run r)) = search (keeps_rules, passive)
  start_unless_replayed-R req ctx (some (State.artifact_ref r)) = start_fresh-R req ctx

  start_run-R :
      (now : ℤ) (req : RunRequest) (ctx : RequestContext) → Keeps R (start_run_ctx now req ctx)
  unfolding start_run_ctx
  start_run-R now req ctx = search (keeps_rules, passive, start_unless_replayed-R) depth 20

  inject-R :
      (now : ℤ) (req : InjectInputRequest) (ctx : RequestContext)
      → Keeps R (inject_input_ctx now req ctx)
  unfolding inject_input_ctx
  inject-R now req ctx = search (keeps_rules, passive, running_slot-R, on_slot, on_append) depth 40

  cancel-R : (id : Str) → Keeps R (cancel_run id)
  unfolding cancel_run
  cancel-R id = search (keeps_rules, write_rules, passive, st, running_slot-R, on_slot) depth 40

  claim-R : (now : ℤ) (req : ClaimRequest) → Keeps R (claim_ready now req)
  unfolding claim_ready
  claim-R now req = search (keeps_rules, write_rules, passive, st, running_slot-R, on_slot) depth 40

  heartbeat-R : (now : ℤ) (req : HeartbeatRequest) → Keeps R (heartbeat now req)
  unfolding heartbeat
  heartbeat-R now req =
      search (keeps_rules, write_rules, passive, st, running_slot-R, on_slot) depth 40

  fail_work-R : (now : ℤ) (req : FailWorkRequest) → Keeps R (fail_work now req)
  unfolding fail_work
  fail_work-R now req =
      search (keeps_rules, write_rules, passive, st, running_slot-R, on_slot, on_append) depth 40

  commit_claimed-R :
      (d : Derivation) (ctx : RequestContext) (slot : RunSlot) (c : ClaimedSlot)
      → Keeps R (commit_claimed d ctx slot c)
  unfolding commit_claimed
  commit_claimed-R d ctx slot c = search (keeps_rules, write_rules, passive, st) depth 40

  commit_fresh-R :
      (now : ℤ) (d : Derivation) (ctx : RequestContext) → Keeps R (commit_fresh now d ctx)
  unfolding commit_fresh
  commit_fresh-R now d ctx =
      search (keeps_rules, write_rules, passive, st, running_slot-R, commit_claimed-R) depth 40

  commit_unless_replayed-R :
      (now : ℤ) (d : Derivation) (ctx : RequestContext) (o : Option IdempotentResult)
      → Keeps R (commit_unless_replayed now d ctx o)
  unfolding commit_unless_replayed
  commit_unless_replayed-R now d ctx none = commit_fresh-R now d ctx
  commit_unless_replayed-R now d ctx (some (State.run r)) = search (keeps_rules, passive)
  commit_unless_replayed-R now d ctx (some (State.artifact_ref r)) = commit_fresh-R now d ctx

  commit-R :
      (at now : ℤ) (d : Derivation) (ctx : RequestContext) → Keeps R (commit_ctx at now d ctx)
  unfolding commit_ctx
  commit-R at now d ctx = search (keeps_rules, passive, commit_unless_replayed-R) depth 20

ruleset run_rules = (start_run-R, inject-R, cancel-R, claim-R, heartbeat-R, fail_work-R, commit-R)

module _ ⦃p : Platform⦄ {R : State → State → Type 0} (st : IsStable R)
    (on_put : (c : Contract) → Keeps R (put_contract c)) where
  pub perform-R : (policy : ArtifactStorePolicy) (c : Call) → Keeps R (perform policy c)
  unfolding perform
  perform-R policy (Call.subscribe topics) =
      Keeps-modify st.passive _ (st.passive.on_subscribe topics)
  perform-R policy c = search (keeps_rules, store_rules, run_rules, on_put, st.passive, st)

  pub serve-R :
      (policy : ArtifactStorePolicy) (cs : List Call) (s : State) → R s (serve policy cs s)
  unfolding serve
  serve-R policy [] s = st.passive.refl_R s
  serve-R policy (c ∷ cs) s =
      st.passive.trans_R s _ _ ((perform-R policy c).at s) (serve-R policy cs _)

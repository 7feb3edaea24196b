-- ===== src/Kernel/Api.antt =====
-- `impl KernelApi for MemoryKernel`: the calls, with the deadline checks that it adds, and the
-- kernel as a machine that performs them. A call carries the readings of the clock that it makes.
use srcport_substrate.Base.{List, Str}
use srcport_substrate.Base.Int.{ℤ}
use srcport_substrate.Proto.{
  ModuleManifest, Contract, Artifact, ArtifactRef, ArtifactStorePolicy, PutBlobRequest,
  GetBlobRequest, Event, TransitionRequest, AppendRequest, RunRequest, InjectInputRequest,
  ClaimRequest, HeartbeatRequest, FailWorkRequest, Derivation, RequestContext,
}
use srcport_substrate.Kernel.Platform.{Platform}
use srcport_substrate.Kernel.State.{State, M, ◌>>=◌, ◌>>◌, pure, lift, gets, modify, check_deadline}
use srcport_substrate.Kernel.Registry
use srcport_substrate.Kernel.Store
use srcport_substrate.Kernel.Blobs
use srcport_substrate.Kernel.Runs
use srcport_substrate.Kernel.Lease
use srcport_substrate.Kernel.Commit

-- `check_deadline(ctx)?` before the method.
unfoldable pub checked : {A : Type 0} → ℤ → RequestContext → M A → M A
checked now ctx m = do lift (check_deadline now ctx); m

pub data Call : Type 0 where
  register : ModuleManifest → Call
  transition : ℤ → TransitionRequest → RequestContext → Call
  put_artifact : ℤ → Artifact → RequestContext → Call
  get_artifact : ℤ → ArtifactRef → RequestContext → Call
  put_blob : PutBlobRequest → Call
  get_blob : ℤ → GetBlobRequest → RequestContext → Call
  has_blob : GetBlobRequest → Call
  put_contract : ℤ → Contract → RequestContext → Call
  publish : Event → Call
  append : AppendRequest → Call
  snapshot : Call
  subscribe : List Str → Call
  start_run : ℤ → RunRequest → RequestContext → Call
  inject_input : ℤ → InjectInputRequest → RequestContext → Call
  claim_ready : ℤ → ℤ → ClaimRequest → RequestContext → Call
  heartbeat : ℤ → ℤ → HeartbeatRequest → RequestContext → Call
  fail_work : ℤ → ℤ → FailWorkRequest → RequestContext → Call
  commit : ℤ → ℤ → Derivation → RequestContext → Call
  get_run : ℤ → Str → RequestContext → Call
  cancel_run : ℤ → Str → RequestContext → Call
  list_derivations : ℤ → Str → RequestContext → Call

-- The call with its reply dropped.
unfoldable pub void : {A : Type 0} → M A → M (Unit {0})
void m = do reply ← m; pure tt

module _ ⦃p : Platform⦄ (policy : ArtifactStorePolicy) where
  unfoldable pub perform : Call → M (Unit {0})
  perform (register manifest) = void (Registry.register_ctx manifest)
  perform (transition now req ctx) = void (Registry.transition_req now req ctx)
  perform (put_artifact now a ctx) = void (Store.put_artifact_ctx policy now a ctx)
  perform (get_artifact now ref ctx) = void (checked now ctx (Store.get_artifact ref))
  perform (put_blob req) = void (Blobs.put_blob policy req)
  perform (get_blob now req ctx) = void (checked now ctx (Blobs.get_blob req))
  perform (has_blob req) = void (gets (Blobs.has_blob req))
  perform (put_contract now c ctx) = void (checked now ctx (Registry.put_contract c))
  perform (publish e) = void (Registry.publish e)
  perform (append req) = void (Registry.append req)
  perform snapshot = void (gets (Registry.snapshot policy))
  perform (subscribe topics) = modify (Registry.subscribe topics)
  perform (start_run now req ctx) = void (Runs.start_run_ctx now req ctx)
  perform (inject_input now req ctx) = void (Runs.inject_input_ctx now req ctx)
  perform (claim_ready at now req ctx) = void (checked at ctx (Lease.claim_ready now req))
  perform (heartbeat at now req ctx) = void (checked at ctx (Lease.heartbeat now req))
  perform (fail_work at now req ctx) = void (checked at ctx (Commit.fail_work now req))
  perform (commit at now submitted ctx) = void (Commit.commit_ctx at now submitted ctx)
  perform (get_run now id ctx) = void (checked now ctx (Runs.get_run id))
  perform (cancel_run now id ctx) = void (checked now ctx (Runs.cancel_run id))
  perform (list_derivations now id ctx) = void (checked now ctx (Runs.list_derivations id))

  -- The state that a call leaves, whatever it returns.
  abbrev pub after : Call → State → State
  after c s = (perform c s).1

  unfoldable pub serve : List Call → State → State
  serve List.[] s = s
  serve (List.◌∷◌ c cs) s = serve cs (after c s)

-- ===== src/Framework/Host/Upholds/Rules.antt =====
-- Relations between the hosts before and after an action, with one rule for each way to build an
-- action, one for each call of the kernel and one for each write of the host.
use srcport_substrate.Base.{
  ◌≡◌, refl, sym, subst, Bool, true, false, Option, List, Str, if◌then◌else◌,
}
use srcport_substrate.Base.Int.{ℤ}
use srcport_substrate.Proto.{
  ModuleManifest, Artifact, ArtifactRef, ArtifactStorePolicy, RequestContext, RunRequest,
  InjectInputRequest, ClaimRequest, FailWorkRequest, Derivation,
}
use srcport_substrate.Kernel.Platform.{Platform}
use srcport_substrate.Kernel.Error
use srcport_substrate.Kernel.State.{State, M}
use srcport_substrate.Kernel.State
use srcport_substrate.Kernel.Api.{Call, checked, void, perform, after}
use srcport_substrate.Kernel.Registry
use srcport_substrate.Kernel.Store
use srcport_substrate.Kernel.Runs
use srcport_substrate.Kernel.Lease
use srcport_substrate.Kernel.Commit
use srcport_substrate.Framework.Error.{FrameworkError, Result, ok, err, panic}
use srcport_substrate.Framework.Foreign.{Foreign}
use srcport_substrate.Framework.Outside.{Outside}
use srcport_substrate.Framework.Tables
use srcport_substrate.Framework.Memo
use srcport_substrate.Framework.Presentation.{StepEvent}
use srcport_substrate.Framework.Storage.{TableSchema}
use srcport_substrate.Framework.Policy.{FrameworkPolicy}
use srcport_substrate.Framework.Cut.{AssemblyCut}
use srcport_substrate.Base.Map.{Map}
use srcport_substrate.Framework.Host.Steps.{count_up}
use srcport_substrate.Framework.Host.Start.{begin_cut}
use srcport_substrate.Framework.Host.SideTables.{finish_run_storage}
use srcport_substrate.Framework.Outside.{ModulePlugin}
use srcport_substrate.Proto.{NamedArtifact}
use srcport_substrate.Framework.Host.{
  Host, H, pure, register_plugin, lift, gets, modify, refuse_if, ◌>>=◌, ask, kernel_call,
}

-- The state after dropping a reply.
dropped : {A : Type 0} (r : Error.Result A) (s : State) → (void (State.lift r) s).1 ≡ s
unfolding void State.◌>>=◌
dropped (Error.ok a) s = refl
dropped (Error.err e) s = refl
dropped Error.panic s = refl

void-state : {A : Type 0} (m : M A) (s : State) → (void m s).1 ≡ (m s).1
unfolding void State.◌>>=◌
void-state m s = dropped (m s).0 (m s).1

module _ ⦃f : Foreign⦄ ⦃o : Outside⦄ where
  -- The action takes each host to one that it is related to.
  pub record Upholds {A : Type 0} (R : Host → Host → Type 0) (m : H A) : Type 0 where
    pub at : (h : Host) → R h (m h).1

  -- A preorder that the calls of the kernel and the writes of the side tables respect.
  pub record IsUpheld ⦃p : Platform⦄ (policy : ArtifactStorePolicy) (R : Host → Host → Type 0)
      : Type 0 where
    pub refl_R : (h : Host) → R h h
    pub trans_R : (h i j : Host) → R h i → R i j → R h j
    pub on_world : (w : o.World) (h : Host) → R h (record h { world = w })
    pub on_call : (c : Call) (h : Host) → R h (record h { kernel = after policy c h.kernel })
    pub on_events : (es : List StepEvent) (h : Host) → R h (record h { step_events = es })
    pub on_storage : (t : Option Tables.Tables) (h : Host) → R h (record h { storage = t })
    pub on_tables : (m : Map (List Str)) (h : Host) → R h (record h { run_tables = m })
    pub on_schemas : (m : Map TableSchema) (h : Host) → R h (record h { storage_schemas = m })
    pub on_memo : (m : Option Memo.Store) (h : Host) → R h (record h { memo = m })
    pub on_execute : (h : Host) → R h (record h { execute_count = count_up h.execute_count })
    pub on_hit : (h : Host) → R h (record h { memo_hit_count = count_up h.memo_hit_count })
    pub on_finish : (run_id : Str) (h : Host) → R h (finish_run_storage run_id h)

  -- The two actions that put a plugin or a policy under a name.
  pub record IsWholly ⦃p : Platform⦄ (policy : ArtifactStorePolicy) (R : Host → Host → Type 0)
      : Type 0 where
    pub upheld : IsUpheld policy R
    pub on_plugin : (plugin : ModulePlugin) → Upholds R (register_plugin policy plugin)
    pub on_begin :
        (run_id : Str) (cut : AssemblyCut) (inputs : List NamedArtifact) (plan : FrameworkPolicy)
        → Upholds R (begin_cut policy run_id cut inputs plan)

  module _ ⦃p : Platform⦄ {policy : ArtifactStorePolicy} {R : Host → Host → Type 0}
      (st : IsUpheld policy R) where
    open st use {refl_R, trans_R}

    pub Upholds-pure : {A : Type 0} (a : A) → Upholds R (pure a)
    unfolding pure
    Upholds-pure a = record { at = refl_R }

    pub Upholds-lift : {A : Type 0} (r : Result A) → Upholds R (lift r)
    unfolding lift
    Upholds-lift r = record { at = refl_R }

    pub Upholds-gets : {A : Type 0} (read : Host → A) → Upholds R (gets read)
    unfolding gets
    Upholds-gets read = record { at = refl_R }

    pub Upholds-refuse_if : (b : Bool) (e : FrameworkError) → Upholds R (refuse_if b e)
    unfolding refuse_if
    Upholds-refuse_if b e = record { at = refl_R }

    pub Upholds-ask : {A : Type 0} (call : o.World → A × o.World) → Upholds R (ask call)
    unfolding ask
    Upholds-ask call = record { at = λ h. st.on_world (call h.world).1 h }

    pub Upholds-modify :
        (change : Host → Host) → ((h : Host) → R h (change h)) → Upholds R (modify change)
    unfolding modify
    Upholds-modify change k = record { at = k }

    Upholds-run :
        {A B : Type 0} (r : Result A) (next : A → H B)
        → ((a : A) → Upholds R (next a))
        → (h : Host) → R h ((lift r >>= next) h).1
    unfolding ◌>>=◌
    Upholds-run (ok a) next k h = (k a).at h
    Upholds-run (err e) next k h = refl_R h
    Upholds-run panic next k h = refl_R h

    pub Upholds-bind :
        {A B : Type 0} (m : H A) (next : A → H B)
        → Upholds R m
        → ((a : A) → Upholds R (next a))
        → Upholds R (m >>= next)
    unfolding ◌>>=◌
    Upholds-bind m next km k = record {
      at = λ h. trans_R h (m h).1 _ (km.at h) (Upholds-run (m h).0 next k (m h).1);
    }

    pub Upholds-if :
        {A : Type 0} (b : Bool) (m n : H A)
        → Upholds R m
        → Upholds R n
        → Upholds R (if b then m else n)
    Upholds-if true m n km kn = km
    Upholds-if false m n km kn = kn

    Upholds-call :
        {A : Type 0} (c : Call) (m : M A)
        → ((s : State) → (m s).1 ≡ (perform policy c s).1)
        → Upholds R (kernel_call m)
    unfolding kernel_call
    Upholds-call c m e = record {
      at = λ h. subst (λ k. R h (record h { kernel = k })) (sym (e h.kernel)) (st.on_call c h);
    }

    -- An action of the kernel that does what a call does.
    Upholds-void :
        {A : Type 0} (c : Call) (m : M A) → perform policy c ≡ void m → Upholds R (kernel_call m)
    Upholds-void c m e = Upholds-call c m (λ s. rw e (sym (void-state m s)))

    pub Upholds-register : (m : ModuleManifest) → Upholds R (kernel_call (Registry.register_ctx m))
    unfolding perform
    Upholds-register m = Upholds-void (Call.register m) _ refl

    pub Upholds-put_artifact :
        (now : ℤ) (a : Artifact) (ctx : RequestContext)
        → Upholds R (kernel_call (Store.put_artifact_ctx policy now a ctx))
    unfolding perform
    Upholds-put_artifact now a ctx = Upholds-void (Call.put_artifact now a ctx) _ refl

    pub Upholds-get_artifact :
        (now : ℤ) (r : ArtifactRef) (ctx : RequestContext)
        → Upholds R (kernel_call (checked now ctx (Store.get_artifact r)))
    unfolding perform
    Upholds-get_artifact now r ctx = Upholds-void (Call.get_artifact now r ctx) _ refl

    pub Upholds-start_run :
        (now : ℤ) (req : RunRequest) (ctx : RequestContext)
        → Upholds R (kernel_call (Runs.start_run_ctx now req ctx))
    unfolding perform
    Upholds-start_run now req ctx = Upholds-void (Call.start_run now req ctx) _ refl

    pub Upholds-inject :
        (now : ℤ) (req : InjectInputRequest) (ctx : RequestContext)
        → Upholds R (kernel_call (Runs.inject_input_ctx now req ctx))
    unfolding perform
    Upholds-inject now req ctx = Upholds-void (Call.inject_input now req ctx) _ refl

    pub Upholds-claim :
        (at now : ℤ) (req : ClaimRequest) (ctx : RequestContext)
        → Upholds R (kernel_call (checked at ctx (Lease.claim_ready now req)))
    unfolding perform
    Upholds-claim at now req ctx = Upholds-void (Call.claim_ready at now req ctx) _ refl

    pub Upholds-fail_work :
        (at now : ℤ) (req : FailWorkRequest) (ctx : RequestContext)
        → Upholds R (kernel_call (checked at ctx (Commit.fail_work now req)))
    unfolding perform
    Upholds-fail_work at now req ctx = Upholds-void (Call.fail_work at now req ctx) _ refl

    pub Upholds-commit :
        (at now : ℤ) (d : Derivation) (ctx : RequestContext)
        → Upholds R (kernel_call (Commit.commit_ctx at now d ctx))
    unfolding perform
    Upholds-commit at now d ctx = Upholds-void (Call.commit at now d ctx) _ refl

    pub Upholds-cancel :
        (now : ℤ) (id : Str) (ctx : RequestContext)
        → Upholds R (kernel_call (checked now ctx (Runs.cancel_run id)))
    unfolding perform
    Upholds-cancel now id ctx = Upholds-void (Call.cancel_run now id ctx) _ refl

    pub Upholds-get_run :
        (now : ℤ) (id : Str) (ctx : RequestContext)
        → Upholds R (kernel_call (checked now ctx (Runs.get_run id)))
    unfolding perform
    Upholds-get_run now id ctx = Upholds-void (Call.get_run now id ctx) _ refl

pub ruleset uphold_rules = (
  Upholds-pure, Upholds-lift, Upholds-gets, Upholds-refuse_if, Upholds-ask, Upholds-modify,
  Upholds-bind, Upholds-if, Upholds-register, Upholds-put_artifact, Upholds-get_artifact,
  Upholds-start_run, Upholds-inject, Upholds-claim, Upholds-fail_work, Upholds-commit,
  Upholds-cancel, Upholds-get_run,
)

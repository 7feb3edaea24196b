-- ===== src/Framework/Host/Named.antt =====
-- What a host keeps under the names of plugins and runs, and what its kernel knows of them.
mod Views
use srcport_substrate.Base.{◌≡◌, refl, true, some, List, [], ◌∷◌, Str, is_empty, contains}
use srcport_substrate.Base.Map
use srcport_substrate.Base.Map.{Map}
use srcport_substrate.Proto.{ArtifactStorePolicy, ModuleManifest, NamedArtifact, Run}
use srcport_substrate.Kernel.Platform.{Platform}
use srcport_substrate.Kernel.Error
use srcport_substrate.Kernel.State
use srcport_substrate.Kernel.Api.{serve}
use srcport_substrate.Kernel.Registry
use srcport_substrate.Kernel.Runs
use srcport_substrate.Kernel.Known.{names_of, IsKept-serve}
use srcport_substrate.Kernel.Known.Started.{start_run_ctx-known, register_ctx-known}
use srcport_substrate.Framework.Error.{Result, ok, err, panic, from_kernel}
use srcport_substrate.Framework.Foreign.{Foreign}
use srcport_substrate.Framework.Outside.{Outside, ModulePlugin, Threads}
use srcport_substrate.Framework.Policy.{FrameworkPolicy, apply_to_run_request}
use srcport_substrate.Framework.Cut.{AssemblyCut}
use srcport_substrate.Framework.Host.{
  Host, pure, lift, modify, ◌>>=◌, ◌>>◌, ask, gets, kernel_call, new_host, default_context,
  accept_plugin,
}
use srcport_substrate.Framework.Host.SideTables.{ensure_run_storage}
use srcport_substrate.Framework.Host.Start.{begin_cut, request_for, without_nodes}
use srcport_substrate.Framework.Host.Calls.{HostCall, host_serve}
use srcport_substrate.Framework.Host.Upholds.Rules.{IsUpheld, IsWholly, Upholds, Upholds-start_run}
use srcport_substrate.Framework.Host.Upholds.Sides.{ensure_run_storage-R, registered-R}
use srcport_substrate.Framework.Host.Upholds.{host_serve-R}
use Views.{
  view, IsNamed, Follows, Follows-refl, Follows-trans, known-Follows, finish-Follows,
  policy-Follows, plugin-Follows,
}

module _ ⦃f : Foreign⦄ ⦃o : Outside⦄ where
  module _ ⦃p : Platform⦄ (policy : ArtifactStorePolicy) where
    Follows-IsUpheld : IsUpheld policy (λ h i. Follows (view h) (view i))
    unfolding serve
    Follows-IsUpheld = record {
      refl_R = λ h. Follows-refl (view h);
      trans_R = λ h i j. Follows-trans (view h) (view i) (view j);
      on_world = λ w h. Follows-refl (view h);
      on_call = λ c h. known-Follows (view h) _ (IsKept-serve policy (c ∷ []) h.kernel);
      on_events = λ es h. Follows-refl (view h);
      on_storage = λ t h. Follows-refl (view h);
      on_tables = λ m h. Follows-refl (view h);
      on_schemas = λ m h. Follows-refl (view h);
      on_memo = λ m h. Follows-refl (view h);
      on_execute = λ h. Follows-refl (view h);
      on_hit = λ h. Follows-refl (view h);
      on_finish = finish-Follows;
    }

    plugin-R :
        (manifest : ModuleManifest) (plugin : ModulePlugin)
        → Upholds (λ h i. Follows (view h) (view i)) (accept_plugin policy manifest plugin)
    unfolding accept_plugin ◌>>=◌ kernel_call from_kernel modify Registry.register_ctx State.◌>>=◌
    plugin-R manifest plugin = record {
      at = λ h.
          let kept = register_ctx-known manifest h.kernel in
          plugin-Follows (view h) _ manifest.name plugin kept.0 kept.1;
    }

    -- What follows a kernel that knows the run.
    saved-R :
        (h i : Host) (r : Result (Unit {0})) (run_id : Str) (plan : FrameworkPolicy) (run : Run)
        → Follows (view h) (view i)
        → (is_empty h.ctx.request_key ≡ true → Map.contains_key run_id i.kernel.runs ≡ true)
        → Follows (view h) (
            view
              ((do
                lift r
                modify (λ h. record h { run_policies = Map.insert run_id plan h.run_policies })
                pure run)
                i).1)
    unfolding ◌>>=◌
    saved-R h i (ok tt) run_id plan run g k = policy-Follows (view h) (view i) run_id plan g k
    saved-R h i (err e) run_id plan run g k = g
    saved-R h i panic run_id plan run g k = g

    begun-R :
        (h i : Host) (r : Error.Result Run) (run_id : Str) (plan : FrameworkPolicy)
        → Follows (view h) (view i)
        → ((run : Run)
            → r ≡ Error.ok run
            → is_empty h.ctx.request_key ≡ true
            → Map.contains_key run_id i.kernel.runs ≡ true)
        → Follows (view h) (
            view
              ((do
                run ← lift (from_kernel r)
                ensure_run_storage run_id plan
                modify (λ h. record h { run_policies = Map.insert run_id plan h.run_policies })
                pure run)
                i).1)
    unfolding ◌>>=◌ from_kernel
    begun-R h i (Error.ok run) run_id plan g k =
        let stored = (ensure_run_storage-R Follows-IsUpheld run_id plan).at i in
        let j = (ensure_run_storage run_id plan i).1 in
        saved-R h j (ensure_run_storage run_id plan i).0 run_id plan run
          (Follows-trans _ _ _ g stored) (λ e. stored.kernel_kept.runs_kept run_id (k run refl e))
    begun-R h i (Error.err e) run_id plan g k = g
    begun-R h i Error.panic run_id plan g k = g

    begin-R :
        (run_id : Str) (cut : AssemblyCut) (inputs : List NamedArtifact) (plan : FrameworkPolicy)
        → Upholds (λ h i. Follows (view h) (view i)) (begin_cut policy run_id cut inputs plan)
    unfolding begin_cut ◌>>=◌ kernel_call ask gets apply_to_run_request
    begin-R run_id cut inputs plan = record {
      at = λ h.
          let req =
            apply_to_run_request (request_for run_id cut.assembly inputs) (without_nodes plan) in
          let asked = o.now h.world in
          let started = Runs.start_run_ctx asked.0 req h.ctx h.kernel in
          begun-R h (record h { kernel = started.1; world = asked.1 }) started.0 run_id plan
            ((Upholds-start_run Follows-IsUpheld asked.0 req h.ctx).at
              (record h { world = asked.1 }))
            (λ run e key. start_run_ctx-known asked.0 req h.ctx h.kernel run key e);
    }

    Follows-IsWholly : IsWholly policy (λ h i. Follows (view h) (view i))
    Follows-IsWholly = record {
      upheld = Follows-IsUpheld;
      on_plugin = registered-R Follows-IsUpheld plugin-R;
      on_begin = begin-R;
    }

    module _ ⦃t : Threads⦄ where
      new-IsNamed : (s : State.State) (w : o.World) → IsNamed (view (new_host s w))
      unfolding Map.lookup
      new-IsNamed s w = record {
        plugins_known = λ n q l. absurd cc;
        policies_known = λ id q l. absurd cc;
      }

      -- Whatever methods a program calls on a new host, the kernel has a module under the name of
      -- each plugin that the host holds, and a run under the id of each policy that it holds.
      pub known-host_serve :
          (cs : List HostCall) (s : State.State) (w : o.World) (name id : Str)
          (plugin : ModulePlugin) (plan : FrameworkPolicy)
          → Map.lookup name (host_serve policy cs (new_host s w)).plugins ≡ some plugin
          → Map.lookup id (host_serve policy cs (new_host s w)).run_policies ≡ some plan
          → let kernel = (host_serve policy cs (new_host s w)).kernel in
            (contains (names_of kernel.modules) name ≡ true)
            × (Map.contains_key id kernel.runs ≡ true)
      unfolding default_context
      known-host_serve cs s w name id plugin plan e k =
          let named =
            (host_serve-R Follows-IsWholly cs (new_host s w)).named refl (new-IsNamed s w) in
          (named.plugins_known name plugin e, named.policies_known id plan k)

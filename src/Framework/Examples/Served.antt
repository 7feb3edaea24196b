-- ===== src/Framework/Examples/Served.antt =====
-- The theorems on the calls of a host, applied.
use srcport_substrate.Base.{ℕ, ◌≡◌, ◌++◌, refl, true, none, some, List, [], ◌∷◌, lit, contains}
use srcport_substrate.Base.Map
use srcport_substrate.Proto.{ModuleManifest, WorkItem}
use srcport_substrate.Kernel.State.{default_state}
use srcport_substrate.Kernel.Registry.{verify_ledger}
use srcport_substrate.Kernel.Known.{names_of}
use srcport_substrate.Kernel.Examples.{
  example_platform, example_policy, pipeline, input_x, ready_state,
}
use srcport_substrate.Framework.Error.{ok, err, no_plugin}
use srcport_substrate.Base.Int.{pos}
use srcport_substrate.Framework.Step.{StepContext}
use srcport_substrate.Framework.Host.Waves.{Deferred, settle_all}
use srcport_substrate.Framework.Host.Waves.Failures.{settle_all_failed}
use srcport_substrate.Framework.Outside.{ModulePlugin, Threads}
use srcport_substrate.Framework.Policy.{converge_policy}
use srcport_substrate.Framework.Host.{new_host}
use srcport_substrate.Framework.Host.Calls.{HostCall, host_serve}
use srcport_substrate.Framework.Host.Plugins.{plugins-host_serve}
use srcport_substrate.Framework.Host.Named.{known-host_serve}
use srcport_substrate.Framework.Examples.Data.{example_foreign}
use srcport_substrate.Framework.Examples.Hosts.{example_outside, fresh}

instance abbrev example_threads : Threads
example_threads = record { scope = λ ds w. (none, w) }

abbrev example_manifest : ModuleManifest
example_manifest = record { name = lit "p"; version = []; provides = []; requires = [] }

abbrev example_plugin : ModulePlugin
example_plugin = record {
  manifest = λ w. (example_manifest, w);
  module_digest = λ w. (none, w);
  execute = λ step w. ((ok [], step), w);
  on_init = λ step w. (none, w);
  on_final = λ step result w. (none, w);
  storage_schema = λ w. (none, w);
  on_store = λ step result w. (none, w);
}

abbrev host_calls : List HostCall
host_calls =
    HostCall.register_plugin example_plugin
    ∷ HostCall.start_pipeline (lit "r") pipeline (input_x ∷ []) converge_policy
    ∷ []

holds :
    (Map.lookup (lit "p") (host_serve example_policy host_calls fresh).plugins
      ≡ some example_plugin)
    × (Map.lookup (lit "r") (host_serve example_policy host_calls fresh).run_policies
        ≡ some converge_policy)
unfolding host_serve srcport_substrate.Framework.Host.Calls.host_after
    srcport_substrate.Framework.Host.register_plugin srcport_substrate.Framework.Host.accept_plugin
    srcport_substrate.Kernel.Registry.register_ctx
    srcport_substrate.Kernel.Registry.register_capabilities
    srcport_substrate.Kernel.Registry.add_module srcport_substrate.Kernel.State.append_locked
    srcport_substrate.Framework.Host.Start.begin_cut
    srcport_substrate.Framework.Host.Start.start_pipeline srcport_substrate.Framework.Host.◌>>=◌
    Map.contains_key Map.lookup Map.insert srcport_substrate.Framework.Cut.materialize_cut
    srcport_substrate.Framework.Error.◌>>=◌ srcport_substrate.Framework.Cut.resolve_kept_nodes
    srcport_substrate.Framework.Error.ok_or srcport_substrate.Base.◌==◌
    srcport_substrate.Framework.Cut.kept_by srcport_substrate.Framework.Seeds.validate_seeds_present
    srcport_substrate.Framework.Host.ask srcport_substrate.Framework.Host.kernel_call
    srcport_substrate.Kernel.Runs.start_run_ctx srcport_substrate.Kernel.State.◌>>=◌
    srcport_substrate.Kernel.State.check_deadline
    srcport_substrate.Kernel.Runs.start_unless_replayed
    srcport_substrate.Kernel.State.idempotent_get srcport_substrate.Kernel.Runs.start_fresh lit
    srcport_substrate.Kernel.Error.◌>>=◌ srcport_substrate.Kernel.Assembly.check_nodes
    srcport_substrate.Kernel.Assembly.capability_for_node
    srcport_substrate.Kernel.Assembly.matching_capabilities
    srcport_substrate.Kernel.Assembly.check_terminal srcport_substrate.Kernel.Assembly.node_by_id
    srcport_substrate.Kernel.Assembly.port srcport_substrate.Kernel.Assembly.check_inputs
    srcport_substrate.Kernel.Assembly.materialize_assembly
    srcport_substrate.Kernel.Validate.validate_assembly
    srcport_substrate.Kernel.Validate.check_bindings srcport_substrate.Kernel.Validate.check_binding
    srcport_substrate.Kernel.Validate.binding_target srcport_substrate.Kernel.Bag.has_traits
    srcport_substrate.Kernel.Bag.trait_set_covers srcport_substrate.Kernel.Validate.check_arities
    srcport_substrate.Kernel.Cycle.search_order srcport_substrate.Kernel.Cycle.targets
    srcport_substrate.Kernel.Cycle.visit srcport_substrate.Kernel.Cycle.visit_list
    srcport_substrate.Kernel.Validate.bound_count srcport_substrate.Kernel.Validate.check_arity
    srcport_substrate.Kernel.Validate.edges_of
    srcport_substrate.Framework.Policy.apply_to_run_request
    srcport_substrate.Framework.Policy.execution_policy_for
    srcport_substrate.Framework.Policy.firing_fields srcport_substrate.Framework.Policy.closure
    srcport_substrate.Framework.Policy.default_max_steps srcport_substrate.Kernel.Runs.new_run
    srcport_substrate.Framework.Host.SideTables.ensure_run_storage
    srcport_substrate.Framework.Cut.cut_to srcport_substrate.Base.utf8_sort
    srcport_substrate.Base.dedup srcport_substrate.Framework.Host.Start.check_start
    srcport_substrate.Framework.Host.Start.start_cut
    srcport_substrate.Framework.Host.Start.emit_skip_events
holds = (refl, refl)

known-host_serve_example :
    let kernel = (host_serve example_policy host_calls fresh).kernel in
    (contains (names_of kernel.modules) (lit "p") ≡ true)
    × (Map.contains_key (lit "r") kernel.runs ≡ true)
known-host_serve_example =
    known-host_serve example_policy host_calls ready_state 0 (lit "p") (lit "r") example_plugin
      converge_policy holds.0 holds.1

plugins-host_serve_example :
    Map.lookup
      (lit "p")
      (host_serve example_policy host_calls (host_serve example_policy host_calls fresh)).plugins
    ≡ some example_plugin
plugins-host_serve_example =
    plugins-host_serve example_policy host_calls (host_serve example_policy host_calls fresh)
      (lit "p") example_plugin holds.0

abbrev example_work : WorkItem
example_work = record {
  id = lit "work:r/a";
  run_id = lit "r";
  node_id = lit "a";
  module_name = lit "p";
  module_version = [];
  capability = lit "copy";
  inputs = [];
  unit_key = lit "once:a";
  attempt = 1;
  lease_until_unix_ms = pos 0;
}

abbrev example_step : StepContext
example_step = record { run_id = lit "r"; work = example_work; inputs = []; progress_buf = [] }

abbrev waiting : Deferred
waiting = record { work = example_work; plugin = example_plugin; step = example_step; init = none }

settle_all_failed_example :
    settle_all example_policy
      (lit "r")
      ((waiting, (err (no_plugin (lit "q")), example_step)) ∷ (waiting, (ok [], example_step)) ∷ [])
      fresh
    ≡ settle_all example_policy
        (lit "r")
        ((waiting, (err (no_plugin (lit "q")), example_step)) ∷ [])
        fresh
settle_all_failed_example =
    settle_all_failed example_policy (lit "r") waiting (no_plugin (lit "q")) example_step
      ((waiting, (ok [], example_step)) ∷ []) [] fresh

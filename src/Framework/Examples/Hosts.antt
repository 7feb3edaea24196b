-- ===== src/Framework/Examples/Hosts.antt =====
-- The theorems on hosts, applied.
use srcport_substrate.Base.{
  ℕ, ◌≡◌, refl, true, false, none, some, [], ◌∷◌, lit, ◌==◌, all, utf8_sort, dedup, contains, inr,
  if◌then◌else◌,
}
use srcport_substrate.Base.Int.{pos}
use srcport_substrate.Base.Map
use srcport_substrate.Proto.{Run, RunState}
use srcport_substrate.Kernel.Examples.{
  example_platform, example_policy, pipeline, input_x, ready_state,
}
use srcport_substrate.Framework.Error.{ok}
use srcport_substrate.Framework.Outside.{Outside}
use srcport_substrate.Framework.Policy.{FrameworkPolicy, stream_policy, converge_policy}
use srcport_substrate.Framework.Storage
use srcport_substrate.Framework.Tables
use srcport_substrate.Framework.Cut.{AssemblyCut, materialize_cut}
use srcport_substrate.Framework.Seeds.Present.{is_provided}
use srcport_substrate.Framework.Host.{Host, new_host}
use srcport_substrate.Framework.Host.SideTables.{finish_run_storage, drops_tables}
use srcport_substrate.Framework.Host.SideTables.Finish.{run_only_tables, finish_run_storage_lem}
use srcport_substrate.Framework.Host.Start.{start_pipeline}
use srcport_substrate.Framework.Host.Start.Policies.{start_pipeline_lem}
use srcport_substrate.Framework.Examples.Data.{example_foreign, tables}

instance abbrev pub example_outside : Outside
example_outside = record {
  World = ℕ;
  now = λ w. (pos 1, w);
  to_vec = λ view. inr [];
  to_value = λ l. 0;
}

abbrev kept_policy : FrameworkPolicy
kept_policy = record stream_policy { storage = Storage.per_run_plan }

abbrev ending : Host
ending = record (new_host ready_state 0) {
  storage = some tables;
  run_policies = (lit "r", kept_policy) ∷ [];
  run_tables = (lit "r", lit "t" ∷ []) ∷ [];
}

finish_run_storage_lem_example :
    (Map.lookup (lit "q") (finish_run_storage (lit "r") ending).run_policies
      ≡ (if lit "r" == lit "q" then none else Map.lookup (lit "q") ending.run_policies))
    × (Map.lookup (lit "q") (finish_run_storage (lit "r") ending).run_tables
        ≡ (if lit "r" == lit "q" then none else Map.lookup (lit "q") ending.run_tables))
    × (left : Tables.Tables) × ((finish_run_storage (lit "r") ending).storage ≡ some left)
    × (Map.lookup (lit "t") left ≡ (
        if contains
          (run_only_tables
            (Map.lookup (lit "r") ending.run_policies)
            (Map.lookup (lit "r") ending.run_tables))
          (lit "t")
        then none
        else Map.lookup (lit "t") tables))
finish_run_storage_lem_example =
    finish_run_storage_lem ending tables (lit "r") (lit "q") (lit "t") refl

abbrev pub fresh : Host
fresh = new_host ready_state 0

abbrev outcome : Host
outcome = (start_pipeline example_policy (lit "r") pipeline (input_x ∷ []) converge_policy fresh).1

abbrev started_run : Run
started_run = record {
  id = lit "r";
  assembly = some pipeline;
  inputs = input_x ∷ [];
  state = RunState.running;
  answer = none;
  steps = 0;
  max_steps = 2;
  reason = [];
  policy = some (record { default = pos 0; by_node = []; closure = pos 1 });
}

started :
    start_pipeline example_policy (lit "r") pipeline (input_x ∷ []) converge_policy fresh
    ≡ (ok started_run, outcome)
unfolding start_pipeline srcport_substrate.Framework.Host.◌>>=◌ Map.contains_key Map.lookup
    Map.insert materialize_cut srcport_substrate.Framework.Error.◌>>=◌
    srcport_substrate.Framework.Cut.resolve_kept_nodes srcport_substrate.Framework.Error.ok_or ◌==◌
    srcport_substrate.Framework.Cut.kept_by srcport_substrate.Framework.Seeds.validate_seeds_present
    srcport_substrate.Framework.Host.ask srcport_substrate.Framework.Host.kernel_call
    srcport_substrate.Kernel.Runs.start_run_ctx srcport_substrate.Kernel.State.◌>>=◌
    srcport_substrate.Kernel.State.check_deadline
    srcport_substrate.Kernel.Runs.start_unless_replayed
    srcport_substrate.Kernel.State.idempotent_get srcport_substrate.Kernel.Runs.start_fresh lit
    srcport_substrate.Kernel.Error.◌>>=◌ srcport_substrate.Kernel.Assembly.check_nodes
    srcport_substrate.Kernel.Assembly.capability_for_node
    srcport_substrate.Kernel.Assembly.matching_capabilities
    srcport_substrate.Kernel.Assembly.check_terminal srcport_substrate.Kernel.Assembly.node_by_id
    srcport_substrate.Kernel.Assembly.port srcport_substrate.Kernel.Assembly.check_inputs
    srcport_substrate.Kernel.Assembly.materialize_assembly
    srcport_substrate.Kernel.Validate.validate_assembly
    srcport_substrate.Kernel.Validate.check_bindings srcport_substrate.Kernel.Validate.check_binding
    srcport_substrate.Kernel.Validate.binding_target srcport_substrate.Kernel.Bag.has_traits
    srcport_substrate.Kernel.Bag.trait_set_covers srcport_substrate.Kernel.Validate.check_arities
    srcport_substrate.Kernel.Cycle.search_order srcport_substrate.Kernel.Cycle.targets
    srcport_substrate.Kernel.Cycle.visit srcport_substrate.Kernel.Cycle.visit_list
    srcport_substrate.Kernel.Validate.bound_count srcport_substrate.Kernel.Validate.check_arity
    srcport_substrate.Kernel.Validate.edges_of
    srcport_substrate.Framework.Policy.apply_to_run_request
    srcport_substrate.Framework.Policy.execution_policy_for
    srcport_substrate.Framework.Policy.firing_fields srcport_substrate.Framework.Policy.closure
    srcport_substrate.Framework.Policy.default_max_steps srcport_substrate.Kernel.Runs.new_run
    srcport_substrate.Framework.Host.SideTables.ensure_run_storage
    srcport_substrate.Framework.Cut.cut_to utf8_sort dedup
    srcport_substrate.Framework.Host.Start.check_start
    srcport_substrate.Framework.Host.Start.start_cut
    srcport_substrate.Framework.Host.Start.emit_skip_events
started = refl

start_pipeline_lem_example :
    (cut : AssemblyCut) × (materialize_cut pipeline converge_policy.nodes ≡ ok cut)
    × (all (is_provided (input_x ∷ [])) cut.required_seeds ≡ true)
    × (Map.contains_key (lit "r") fresh.run_policies ≡ false)
    × (Map.lookup (lit "r") outcome.run_policies ≡ some converge_policy)
start_pipeline_lem_example =
    start_pipeline_lem example_policy (lit "r") pipeline (input_x ∷ []) converge_policy fresh
      outcome started_run started

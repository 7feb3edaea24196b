-- ===== src/Kernel/Examples/Frozen.antt =====
-- The theorems on runs under any calls, applied.
use srcport_substrate.Base.{◌≤◌, ◌≡◌, refl, false, none, some, List, [], ◌∷◌, lit, ◌==◌}
use srcport_substrate.Base.Int.{pos}
use srcport_substrate.Base.Map
use srcport_substrate.Proto.{RunRequest}
use srcport_substrate.Kernel.State.{
  RunSlot, ◌>>=◌, append_locked, check_deadline, idempotent_get, idempotent_put,
}
use srcport_substrate.Kernel.Error
use srcport_substrate.Kernel.Runs.{
  new_run, new_slot, cancel_slot, start_fresh, start_unless_replayed, start_run_ctx, running_slot,
  set_slot, log_run,
}
use srcport_substrate.Kernel.Runs
use srcport_substrate.Kernel.Api.{Call, checked, void, perform, serve}
use srcport_substrate.Kernel.Sound.{steps-serve, closed_run-serve}
use srcport_substrate.Kernel.Examples.{
  example_platform, example_policy, keyed, pipeline, input_x, ready_state,
}

abbrev request : RunRequest
request = record {
  id = lit "r";
  assembly = some pipeline;
  inputs = input_x ∷ [];
  limits = none;
  policy = none;
  include_nodes = [];
}

abbrev until_cancelled : List Call
until_cancelled =
    Call.start_run (pos 1) request keyed ∷ Call.cancel_run (pos 1) (lit "r") keyed ∷ []

abbrev cancelled_slot : RunSlot
cancelled_slot = cancel_slot (new_slot request (new_run request pipeline))

holds_cancelled :
    Map.lookup (lit "r") (serve example_policy until_cancelled ready_state).runs
    ≡ some cancelled_slot
unfolding serve perform void checked ◌>>=◌ append_locked check_deadline idempotent_get
    idempotent_put start_run_ctx start_unless_replayed start_fresh Runs.cancel_run running_slot
    set_slot log_run new_run new_slot cancel_slot Map.lookup Map.insert Map.contains_key lit ◌==◌
    srcport_substrate.Kernel.Error.◌>>=◌ srcport_substrate.Kernel.Assembly.check_nodes
    srcport_substrate.Kernel.Assembly.capability_for_node
    srcport_substrate.Kernel.Assembly.matching_capabilities
    srcport_substrate.Kernel.Assembly.check_terminal srcport_substrate.Kernel.Assembly.node_by_id
    srcport_substrate.Kernel.Assembly.port srcport_substrate.Kernel.Assembly.check_inputs
    srcport_substrate.Kernel.Assembly.materialize_assembly
    srcport_substrate.Kernel.Validate.validate_assembly
    srcport_substrate.Kernel.Validate.check_bindings srcport_substrate.Kernel.Validate.check_binding
    srcport_substrate.Kernel.Validate.binding_target srcport_substrate.Kernel.Bag.has_traits
    srcport_substrate.Kernel.Bag.trait_set_covers srcport_substrate.Kernel.Validate.check_arities
    srcport_substrate.Kernel.Cycle.search_order srcport_substrate.Kernel.Cycle.targets
    srcport_substrate.Kernel.Cycle.visit srcport_substrate.Kernel.Cycle.visit_list
    srcport_substrate.Kernel.Validate.bound_count srcport_substrate.Kernel.Validate.check_arity
    srcport_substrate.Kernel.Validate.edges_of
holds_cancelled = refl

steps-serve_example : cancelled_slot.run.steps ≤ cancelled_slot.run.max_steps
steps-serve_example =
    steps-serve example_policy until_cancelled ready_state (lit "r") cancelled_slot refl
      holds_cancelled

stopped : Runs.is_running cancelled_slot.run.state ≡ false
unfolding cancel_slot
stopped = refl

closed_run-serve_example :
    Map.lookup
      (lit "r")
      (serve example_policy
        (Call.cancel_run (pos 1) (lit "r") keyed ∷ [])
        (serve example_policy until_cancelled ready_state)).runs
    ≡ some cancelled_slot
closed_run-serve_example =
    closed_run-serve example_policy until_cancelled (Call.cancel_run (pos 1) (lit "r") keyed ∷ [])
      ready_state (lit "r") cancelled_slot refl holds_cancelled stopped

-- ===== src/Kernel/Examples/Work.antt =====
-- The theorems on bags, policies, assemblies and runs, applied.
use srcport_substrate.Base.{
  starts_with, ◌≤◌, ◌≡◌, ◌⊎◌, refl, true, false, none, some, List, [], ◌∷◌, ◌++◌, Str, lit, ◌==◌,
  length, eqb, All, contains, arith, if◌then◌else◌,
}
use srcport_substrate.Base.Int.{pos, saturating_add_i64, u64_as_i64}
use srcport_substrate.Base.Map
use srcport_substrate.Base.Map.{Map, HasUniqueKeys}
use srcport_substrate.Proto.{
  RunState, Trait, Artifact, ArtifactStorePolicy, ClaimRequest, WorkItem, firing_of,
}
use srcport_substrate.Kernel.Error
use srcport_substrate.Kernel.Bag
use srcport_substrate.Kernel.Assembly
use srcport_substrate.Kernel.Validate
use srcport_substrate.Kernel.Cycle
use srcport_substrate.Kernel.Error.{Result, ok, err, run_closed, invalid}
use srcport_substrate.Kernel.State.{State, RunSlot}
use srcport_substrate.Kernel.Bag.{get_trait, has_traits, merge_traits, project_traits}
use srcport_substrate.Kernel.Bag.Laws.{project_traits_lem}
use srcport_substrate.Kernel.Store.{normalize_store_policy}
use srcport_substrate.Kernel.Store.Policy.{IsNormal, normalize_store_policy_total}
use srcport_substrate.Kernel.Assembly.{node_ids}
use srcport_substrate.Kernel.Cycle.{Edge, targets, search_order}
use srcport_substrate.Kernel.Cycle.Order.{IsOrdered}
use srcport_substrate.Kernel.Validate.{validate_assembly, edges_of}
use srcport_substrate.Kernel.Validate.Acyclic.{validate_assembly-IsOrdered}
use srcport_substrate.Kernel.Ready.{Candidate}
use srcport_substrate.Kernel.Runs.{or_default, cancel_run}
use srcport_substrate.Kernel.Lease.{claim_ready, ready_candidates}
use srcport_substrate.Kernel.Lease
use srcport_substrate.Kernel.Ready
use srcport_substrate.Kernel.Runs
use srcport_substrate.Kernel.State
use srcport_substrate.Kernel.Lease.Bounds.{claim_bounds}
use srcport_substrate.Kernel.Examples.{
  example_platform, note, pipeline, input_x, ready_state, run_in,
}

abbrev other_trait : Trait
other_trait = record { body = 9 ∷ []; object = none }

abbrev labelled : Artifact
labelled = record note { traits = (lit "l", other_trait) ∷ [] }

label_unique : HasUniqueKeys labelled.traits
unfolding Map.lookup
label_unique = (refl, tt)

project_traits_lem_example :
    ((has_traits note (lit "t" ∷ []) ≡ true)
      × (m : Map Trait) × (project_traits note (lit "t" ∷ [])
          ≡ ok (record note { id = []; traits = m }))
      × ((k : Str)
          → Map.lookup k m ≡ (if contains (lit "t" ∷ []) k then get_trait note k else none)))
    ⊎ ((has_traits note (lit "t" ∷ []) ≡ false)
        × (c : Str) × (project_traits note (lit "t" ∷ [])
            ≡ err (invalid (lit "artifact missing trait " ++ c)))
        × (contains (lit "t" ∷ []) c ≡ true)
        × (get_trait note c ≡ none))
project_traits_lem_example = project_traits_lem note (lit "t" ∷ [])

abbrev strange_policy : ArtifactStorePolicy
strange_policy = record {
  max_inline_bytes = 0;
  max_blob_bytes = 5;
  ingest_mode = pos 9;
  durability = pos 0;
}

normalize_store_policy_total_example :
    IsNormal strange_policy (normalize_store_policy strange_policy)
normalize_store_policy_total_example = normalize_store_policy_total strange_policy

pipeline_valid : validate_assembly ready_state pipeline (input_x ∷ []) ≡ ok tt
unfolding validate_assembly Error.◌>>=◌ lit Assembly.check_nodes Assembly.capability_for_node
    Assembly.matching_capabilities ◌==◌ Assembly.check_terminal Assembly.node_by_id Assembly.port
    Assembly.check_inputs Map.contains_key Validate.check_bindings Validate.check_binding
    Validate.binding_target has_traits Bag.trait_set_covers Validate.check_arities Map.lookup
    Cycle.search_order Cycle.targets Cycle.visit Cycle.visit_list Validate.bound_count
    Validate.check_arity edges_of
pipeline_valid = refl

validate_assembly-IsOrdered_example :
    (order : List Str) × IsOrdered (edges_of pipeline.bindings) order
    × All (λ n. contains order n ≡ true) (node_ids pipeline.nodes)
validate_assembly-IsOrdered_example =
    validate_assembly-IsOrdered ready_state pipeline (input_x ∷ []) pipeline_valid

abbrev claim : ClaimRequest
claim = record { run_id = lit "r"; module_name = []; node_ids = []; max_items = 5; modules = [] }

abbrev running_state : State
running_state = record ready_state { runs = (lit "r", run_in RunState.running) ∷ [] }

running_there : Map.lookup (lit "r") running_state.runs ≡ some (run_in RunState.running)
unfolding Map.lookup lit ◌==◌
running_there = refl

abbrev claimed_state : State
claimed_state = (claim_ready (pos 1) claim running_state).1

abbrev first_item : WorkItem
first_item = record {
  id = lit "work:r/a";
  run_id = lit "r";
  node_id = lit "a";
  module_name = lit "copier";
  module_version = lit "1";
  capability = lit "copy";
  inputs = record { name = lit "in"; artifact = some (record { id = lit "note" }) } ∷ [];
  unit_key = lit "once:a";
  attempt = 1;
  lease_until_unix_ms = pos 1001;
}

claimed_one : claim_ready (pos 1) claim running_state ≡ (ok (first_item ∷ []), claimed_state)
unfolding claim_ready ready_candidates lit Map.lookup State.◌>>=◌ Runs.running_slot ◌==◌
    Lease.reap_expired_locked Lease.log_expired Runs.set_slot Map.insert Lease.expire_all
    Lease.claim_all Lease.want Ready.in_flight_capacity Ready.node_matches_claim_filter
    Ready.candidate Ready.resolve_inputs Ready.delivered Ready.effective_firing Ready.work_unit_key
    Ready.unit_is_claimed Lease.claim_item Lease.claim_slot Lease.claim_work_id
    Assembly.capability_for_node Assembly.matching_capabilities Lease.stall_idle Lease.log_claims
    Ready.assembly_any_ready Ready.any_candidate saturating_add_i64 u64_as_i64 firing_of starts_with
claimed_one = refl

claim_bounds_example :
    (length (first_item ∷ []) ≤ (if eqb claim.max_items 0 then 1 else claim.max_items))
    × (after : RunSlot) × (Map.lookup (lit "r") claimed_state.runs ≡ some after)
    × (length after.claimed ≤ (run_in RunState.running).max_in_flight)
claim_bounds_example =
    claim_bounds (pos 1) claim running_state claimed_state (run_in RunState.running)
      (first_item ∷ []) claimed_one running_there (omega arith) (omega arith)

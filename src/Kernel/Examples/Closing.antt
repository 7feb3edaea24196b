-- ===== src/Kernel/Examples/Closing.antt =====
-- The theorems on leases, commits and the search for cycles, applied.
use srcport_substrate.Base.{
  ℕ, ◌≤◌, ◌<◌, is_nil, ◌≡◌, ◌⊎◌, refl, true, false, none, some, List, [], ◌∷◌, Str, lit, ◌==◌, All,
  contains, arith,
}
use srcport_substrate.Base.Int.{pos}
use srcport_substrate.Base.Map
use srcport_substrate.Base.Map.{Map, HasUniqueKeys}
use srcport_substrate.Proto.{RunState, Run, Derivation}
use srcport_substrate.Kernel.State.{State, RunSlot, ClaimedSlot}
use srcport_substrate.Kernel.Cycle.{Edge, targets, search_order}
use srcport_substrate.Kernel.Cycle.Order.{IsOrdered}
use srcport_substrate.Kernel.Cycle.Complete.{search_order_finds}
use srcport_substrate.Kernel.Commit.Progress.{HasReady}
use srcport_substrate.Kernel.Commit.{answer_of, answer_slot, exhaust_slot, close_slot}
use srcport_substrate.Kernel.Ready.{is_open_closure}
use srcport_substrate.Kernel.Lease.{reap_expired_locked}
use srcport_substrate.Kernel.Lease.Expiry.{reap_claim}
use srcport_substrate.Kernel.Examples.{example_platform, keyed, ready_state, run_in}
use srcport_substrate.Kernel.Error.{Result, ok}
use srcport_substrate.Kernel.Commit
use srcport_substrate.Kernel.State
use srcport_substrate.Kernel.Runs
use srcport_substrate.Kernel.Lease
use srcport_substrate.Kernel.Assembly
use srcport_substrate.Kernel.Validate
use srcport_substrate.Kernel.Ready
use srcport_substrate.Kernel.Commit.{commit_fresh}
use srcport_substrate.Kernel.Commit.Whole.{commit_progress}

abbrev work : Derivation
work = record {
  id = [];
  run_id = lit "r";
  work_id = lit "w";
  node_id = [];
  module_name = [];
  module_version = [];
  capability = [];
  inputs = [];
  outputs = [];
}

abbrev leased : ClaimedSlot
leased = record {
  work = record {
    id = lit "w";
    run_id = lit "r";
    node_id = lit "a";
    module_name = lit "copier";
    module_version = lit "1";
    capability = lit "copy";
    inputs = [];
    unit_key = lit "once:a";
    attempt = 1;
    lease_until_unix_ms = pos 10;
  };
  unit_key = lit "once:a";
  lease_until_ms = pos 10;
  attempt = 1;
}

abbrev claimed_slot : RunSlot
claimed_slot = record (run_in RunState.running) { claimed = (lit "w", leased) ∷ [] }

claimed_unique : HasUniqueKeys claimed_slot.claimed
unfolding Map.lookup
claimed_unique = (refl, tt)

claimed_there : Map.lookup (lit "w") claimed_slot.claimed ≡ some leased
unfolding Map.lookup lit ◌==◌
claimed_there = refl

abbrev leased_state : State
leased_state = record ready_state { runs = (lit "r", claimed_slot) ∷ [] }

leased_there : Map.lookup (lit "r") leased_state.runs ≡ some claimed_slot
unfolding Map.lookup lit ◌==◌
leased_there = refl

reap_claim_example :
    (after : RunSlot) × (Map.lookup
        (lit "r")
        (reap_expired_locked (lit "r") (pos 11) leased_state).runs
      ≡ some after)
    × (((Map.lookup (lit "w") after.claimed ≡ none) × (0 < 10) × (10 ≤ 11))
        ⊎ ((Map.lookup (lit "w") after.claimed ≡ some leased) × ((◌≡◌ {A = ℕ} 10 0) ⊎ (11 < 10))))
reap_claim_example =
    reap_claim (lit "r") (lit "w") 11 10 leased_state claimed_slot leased leased_there
      claimed_unique claimed_there refl

abbrev diamond : List Edge
diamond = (lit "a", lit "b") ∷ (lit "a", lit "c") ∷ (lit "b", lit "d") ∷ (lit "c", lit "d") ∷ []

abbrev letters : List Str
letters = lit "a" ∷ lit "b" ∷ lit "c" ∷ lit "d" ∷ []

diamond-IsOrdered : IsOrdered diamond letters
unfolding targets lit ◌==◌
diamond-IsOrdered = ground arith

letters_there : All (λ n. contains letters n ≡ true) letters
unfolding lit ◌==◌
letters_there = ground arith

search_order_finds_example : (found : List Str) × (search_order letters diamond ≡ some found)
search_order_finds_example =
    search_order_finds letters letters diamond diamond-IsOrdered letters_there (omega arith)

abbrev copied : Derivation
copied = record work {
  outputs = record { name = lit "out"; artifact = some (record { id = lit "note" }) } ∷ [];
}

abbrev committed_run : Run
committed_run = record (run_in RunState.running).run { steps = 1 }

abbrev committed_state : State
committed_state = (commit_fresh (pos 1) copied keyed leased_state).1

committed : commit_fresh (pos 1) copied keyed leased_state ≡ (ok committed_run, committed_state)
unfolding commit_fresh Commit.commit_claimed State.◌>>=◌ Runs.running_slot Lease.reap_expired_locked
    Lease.log_expired Lease.expire_all Lease.is_expired Runs.set_slot Map.insert Map.lookup
    Map.remove lit ◌==◌ Assembly.capability_for_node Assembly.capability_for_work
    Assembly.matching_capabilities Validate.validate_outputs Commit.close_slot Commit.answer_of
    Commit.answer_slot Commit.exhaust_slot Commit.commit_slot Commit.derive Ready.is_open_closure
    Ready.assembly_any_ready Ready.any_candidate Ready.candidate Ready.resolve_inputs
    Ready.delivered Ready.effective_firing Ready.work_unit_key Ready.unit_is_claimed
    srcport_substrate.Kernel.Error.◌>>=◌ srcport_substrate.Kernel.Assembly.port
    srcport_substrate.Kernel.Bag.has_traits srcport_substrate.Base.Map.contains_key
    srcport_substrate.Proto.firing_of
committed = refl

commit_progress_example :
    (id : Str) × (after : RunSlot) × (Map.lookup id committed_state.runs ≡ some after)
    × (after.run ≡ committed_run)
    × ((is_open_closure after ≡ true)
        ⊎ ((after.run.steps < after.run.max_steps)
            × ((is_nil after.claimed ≡ false) ⊎ HasReady committed_state after)))
commit_progress_example =
    commit_progress (pos 1) copied keyed leased_state committed_state committed_run committed refl

-- ===== src/Kernel/Commit.antt =====
-- Failing and committing claimed work.
pub mod Progress
mod Chain
pub mod Whole
use srcport_substrate.Base.{
  ◌+◌, ◌%◌, ◌^◌, Bool, true, false, not, ◌&&◌, ◌||◌, Option, none, some, List, [], ◌∷◌, ◌++◌, Str,
  no_bytes, lit, is_empty, ◌==◌, leb, if◌then◌else◌, is_nil, find,
}
use srcport_substrate.Base.Int.{ℤ}
use srcport_substrate.Base.Map
use srcport_substrate.Proto.{
  RunState, NamedArtifact, ArtifactRef, NodeOutput, WorkItem, WorkFailure, Run, FailWorkRequest,
  Derivation, RequestContext,
}
use srcport_substrate.Kernel.Platform.{Platform, work_failure, derivation}
use srcport_substrate.Kernel.Error.{invalid, conflict, run_closed}
use srcport_substrate.Kernel.Digest.{derivation_id}
use srcport_substrate.Kernel.State
use srcport_substrate.Kernel.State.{
  State, ClaimedSlot, RunSlot, IdempotentResult, M, ◌>>=◌, ◌>>◌, pure, lift, gets, modify, ok_or,
  unwrap, refuse_if, check_deadline, idempotent_get, idempotent_put, append_locked,
}
use srcport_substrate.Kernel.Assembly.{capability_for_work}
use srcport_substrate.Kernel.Validate.{validate_outputs}
use srcport_substrate.Kernel.Ready.{assembly_any_ready, is_open_closure}
use srcport_substrate.Kernel.Runs.{running_slot, set_slot, log_run}
use srcport_substrate.Kernel.Lease.{insert_unit, reap_expired_locked, stall, stalled_slot}

-- The slot without a claim that failed; a terminal failure makes the unit DONE.
unfoldable pub fail_slot : Str → ClaimedSlot → Bool → RunSlot → RunSlot
unfolding insert_unit
fail_slot work_id c terminal slot = record slot {
  claimed = Map.remove work_id slot.claimed;
  done_units = if terminal then insert_unit c.unit_key slot.done_units else slot.done_units;
}

unfoldable pub failure_of : FailWorkRequest → ClaimedSlot → Bool → WorkFailure
failure_of req c terminal = record {
  run_id = req.run_id;
  work_id = req.work_id;
  unit_key = c.unit_key;
  reason = if is_empty req.reason then lit "failed" else req.reason;
  terminal = terminal;
  attempt = c.attempt;
}

-- The derivation of a claim and its outputs, before its id.
abbrev draft : WorkItem → List NamedArtifact → Derivation
draft work outputs = record {
  id = no_bytes;
  run_id = work.run_id;
  work_id = work.id;
  node_id = work.node_id;
  module_name = work.module_name;
  module_version = work.module_version;
  capability = work.capability;
  inputs = work.inputs;
  outputs = outputs;
}

-- The slot after a commit, before the run's closure is decided.
unfoldable pub commit_slot : ClaimedSlot → Derivation → RunSlot → RunSlot
unfolding insert_unit
commit_slot c d slot = record slot {
  run = record slot.run { steps = (slot.run.steps + 1) % 2 ^ 64 };
  claimed = Map.remove c.work.id slot.claimed;
  done_units = insert_unit c.unit_key slot.done_units;
  latest = Map.insert c.work.node_id d slot.latest;
  node_commits =
      Map.insert c.work.node_id ((Map.get_or c.work.node_id 0 slot.node_commits + 1) % 2 ^ 64)
        slot.node_commits;
}

-- The artifact of the terminal output, if this work produced it.
unfoldable pub answer_of : NodeOutput → Derivation → Option ArtifactRef
answer_of terminal d =
    if terminal.node == d.node_id
    then elim (find (λ o. o.name == terminal.port) d.outputs) [ none ↦ none | some o ↦ o.artifact ]
    else none

unfoldable pub answer_slot : Option ArtifactRef → RunSlot → RunSlot
answer_slot none slot = slot
answer_slot (some answer) slot =
    if is_open_closure slot
    then record slot { run = record slot.run { answer = some answer } }
    else record slot { run = record slot.run { answer = some answer; state = RunState.completed } }

is_completed : RunState → Bool
is_completed RunState.completed = true
is_completed _ = false

unfoldable pub exhaust_slot : RunSlot → RunSlot
unfolding is_completed
exhaust_slot slot =
    if not (is_completed slot.run.state) && leb slot.run.max_steps slot.run.steps
    then record slot {
      run = record slot.run {
        state = RunState.failed;
        reason = lit "max_steps exhausted before the terminal output";
      };
    }
    else slot

abbrev is_closed : RunState → Bool
is_closed RunState.running = false
is_closed _ = true

closing_kind : RunState → Str
closing_kind RunState.completed = lit "run.completed"
closing_kind RunState.stalled = lit "run.stalled"
closing_kind RunState.failed = lit "run.failed"
closing_kind _ = lit "run.progressed"

module _ ⦃p : Platform⦄ where
  unfoldable pub stall_failed : Str → RunSlot → State → State
  stall_failed run_id slot state =
      if not (is_open_closure slot) && (is_nil slot.claimed && not (assembly_any_ready state slot))
      then stall run_id slot state
      else state

  unfoldable pub fail_work : ℤ → FailWorkRequest → M Run
  fail_work now req = do
    checked ← running_slot req.run_id
    modify (reap_expired_locked req.run_id now)
    found ← gets (λ s. Map.lookup req.run_id s.runs)
    slot ← unwrap found
    c ← ok_or (Map.lookup req.work_id slot.claimed) (conflict (lit "work was not claimed"))
    let terminal = req.terminal || leb slot.max_attempts c.attempt
    let slot' = fail_slot req.work_id c terminal slot
    modify (set_slot req.run_id slot')
    modify (
        append_locked (lit "work.failed") req.work_id
          (p.encode_to_vec (work_failure (failure_of req c terminal))))
    modify (stall_failed req.run_id slot')
    reread ← gets (λ s. Map.lookup req.run_id s.runs)
    after ← unwrap reread
    pure after.run

  unfoldable pub stall_committed : State → RunSlot → RunSlot
  stall_committed state slot =
      if not (is_closed slot.run.state)
        && (not (is_open_closure slot)
            && (is_nil slot.claimed && not (assembly_any_ready state slot)))
      then stalled_slot slot
      else slot

  -- The closure of a run after a commit: completed, exhausted, stalled or none.
  unfoldable pub close_slot : NodeOutput → Derivation → State → RunSlot → RunSlot
  unfolding stall_committed
  close_slot terminal d state slot =
      stall_committed state (exhaust_slot (answer_slot (answer_of terminal d) slot))

  unfoldable pub derive : WorkItem → List NamedArtifact → Derivation
  derive work outputs = record (draft work outputs) { id = derivation_id (draft work outputs) }

  -- What `commit` writes after its checks: the slot, the derivation, two ledger entries.
  unfoldable pub record_commit : Str → RunSlot → Derivation → RequestContext → State → State
  unfolding closing_kind
  record_commit run_id slot d ctx state = idempotent_put (lit "commit") ctx (State.run slot.run) (
      log_run (closing_kind slot.run.state) slot.run (
        append_locked (lit "derivation.committed") d.id (p.encode_to_vec (derivation d)) (
          let placed = set_slot run_id slot state in
          record placed { derivations = placed.derivations ++ d ∷ [] })))

  -- From the claim on, when the lease has been checked.
  unfoldable pub commit_claimed : Derivation → RequestContext → RunSlot → ClaimedSlot → M Run
  commit_claimed submitted ctx slot c = do
    refuse_if (not (is_empty submitted.node_id) && not (submitted.node_id == c.work.node_id))
        (invalid (lit "node_id does not match the claim"))
    refuse_if (leb slot.run.max_steps slot.run.steps) (run_closed RunState.failed)
    capability ← gets (λ s. capability_for_work s c.work)
    cap ← lift capability
    valid ← gets (λ s. validate_outputs s cap submitted.outputs)
    lift valid
    let d = derive c.work submitted.outputs
    target ← gets (λ s. Map.lookup c.work.run_id s.runs)
    slot' ← unwrap target
    assembly ← unwrap slot'.run.assembly
    terminal ← unwrap assembly.terminal
    closed ← gets (λ s. close_slot terminal d s (commit_slot c d slot'))
    modify (record_commit c.work.run_id closed d ctx)
    pure closed.run

  unfoldable pub commit_fresh : ℤ → Derivation → RequestContext → M Run
  commit_fresh now submitted ctx = do
    checked ← running_slot submitted.run_id
    modify (reap_expired_locked submitted.run_id now)
    found ← gets (λ s. Map.lookup submitted.run_id s.runs)
    slot ← unwrap found
    c ← ok_or (Map.lookup submitted.work_id slot.claimed) (conflict (lit "work was not claimed"))
    commit_claimed submitted ctx slot c

  unfoldable pub commit_unless_replayed :
      ℤ → Derivation → RequestContext → Option IdempotentResult → M Run
  commit_unless_replayed now submitted ctx (some (State.run r)) = pure r
  commit_unless_replayed now submitted ctx _ = commit_fresh now submitted ctx

  -- `deadline_now` and `now` are the two readings of the clock.
  unfoldable pub commit_ctx : ℤ → ℤ → Derivation → RequestContext → M Run
  commit_ctx deadline_now now submitted ctx = do
    lift (check_deadline deadline_now ctx)
    replay ← gets (idempotent_get (lit "commit") ctx)
    commit_unless_replayed now submitted ctx replay

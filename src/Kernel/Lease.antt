-- ===== src/Kernel/Lease.antt =====
-- Leases: reaping, claiming and renewing claims.
pub mod Expiry
pub mod Bounds
use srcport_substrate.Base.{
  ℕ, ◌+◌, ◌%◌, ◌^◌, Bool, true, false, not, ◌&&◌, Option, none, some, List, [], ◌∷◌, ◌++◌, Str,
  Bytes, no_bytes, lit, is_empty, ◌==◌, length, ltb, leb, eqb, if◌then◌else◌, is_nil, find, filter,
  filter_map, take, contains, starts_with,
}
use srcport_substrate.Base.Int.{ℤ, pos, ltb_ℤ, leb_ℤ, saturating_add_i64, u64_as_i64}
use srcport_substrate.Base.Map
use srcport_substrate.Base.Map.{Map}
use srcport_substrate.Proto.{
  RunState, Assembly, WorkItem, WorkFailure, Run, ClaimRequest, HeartbeatRequest, HeartbeatResponse,
}
use srcport_substrate.Kernel.Platform.{Platform, work_item, work_failure}
use srcport_substrate.Kernel.State.{
  State, ClaimedSlot, RunSlot, M, ◌>>=◌, ◌>>◌, pure, gets, modify, unwrap, append_locked,
}
use srcport_substrate.Kernel.Ready.{
  Candidate, candidate, in_flight_capacity, node_matches_claim_filter, assembly_any_ready,
  is_open_closure,
}
use srcport_substrate.Kernel.Runs.{running_slot, set_slot, log_run, or_default}

-- Insertion into the set of the units that are done.
unfoldable pub insert_unit : Str → List Str → List Str
insert_unit k units = if contains units k then units else k ∷ units

unfoldable pub is_expired : ℤ → ClaimedSlot → Bool
is_expired now c = ltb_ℤ (pos 0) c.lease_until_ms && leb_ℤ c.lease_until_ms now

abbrev pub expired : ℤ → Map ClaimedSlot → Map ClaimedSlot
expired now = filter (λ e. is_expired now e.1)

-- The loop of `reap_expired_locked` on the slot.
unfoldable pub expire_all : Map ClaimedSlot → RunSlot → RunSlot
unfolding insert_unit
expire_all [] slot = slot
expire_all ((id, c) ∷ rest) slot = expire_all rest (record slot {
  claimed = Map.remove id slot.claimed;
  done_units =
      if leb slot.max_attempts c.attempt
      then insert_unit c.unit_key slot.done_units
      else slot.done_units;
})

unfoldable pub ledger_work_item : WorkItem → WorkItem
ledger_work_item work = record work { lease_until_unix_ms = pos 0 }

unfoldable pub claim_work_id : Str → Str → Str → Str
claim_work_id run_id node_id unit_key =
    lit "work:"
    ++ (run_id ++ (lit "/" ++ (if starts_with unit_key (lit "once:") then node_id else unit_key)))

-- The claim of one ready candidate.
unfoldable pub claim_item : ℤ → Str → RunSlot → Candidate → WorkItem
claim_item now run_id slot c = record {
  id = claim_work_id run_id c.node.id c.unit_key;
  run_id = run_id;
  node_id = c.node.id;
  module_name = c.node.module_name;
  module_version = c.node.module_version;
  capability = c.node.capability;
  inputs = c.inputs;
  unit_key = c.unit_key;
  attempt = (Map.get_or c.unit_key 0 slot.claim_attempts + 1) % 2 ^ 32;
  lease_until_unix_ms = saturating_add_i64 now (u64_as_i64 slot.default_lease_ms);
}

unfoldable pub claim_slot : WorkItem → RunSlot → RunSlot
claim_slot work slot = record slot {
  claim_attempts = Map.insert work.unit_key work.attempt slot.claim_attempts;
  claimed =
      Map.insert work.id
        (record {
          work = work;
          unit_key = work.unit_key;
          lease_until_ms = work.lease_until_unix_ms;
          attempt = work.attempt;
        })
        slot.claimed;
}

-- The loop over the candidates that are taken: the items and the slot after them.
unfoldable pub claim_all : ℤ → Str → List Candidate → RunSlot → List WorkItem × RunSlot
claim_all now run_id [] slot = ([], slot)
claim_all now run_id (c ∷ cs) slot =
    let work = claim_item now run_id slot c in
    let (items, slot') = claim_all now run_id cs (claim_slot work slot) in (work ∷ items, slot')

unfoldable pub stalled_slot : RunSlot → RunSlot
stalled_slot slot = record slot {
  run = record slot.run {
    state = RunState.stalled;
    reason = lit "no node is ready and no work is in flight";
  };
}

-- The loop of `heartbeat` over the ids.
unfoldable pub renew_all : ℤ → List Str → RunSlot → HeartbeatResponse × RunSlot
renew_all until [] slot = (record { renewed_work_ids = []; lost_work_ids = [] }, slot)
renew_all until (id ∷ ids) slot = elim (Map.lookup id slot.claimed) [
  | none ↦
      (let (r, slot') = renew_all until ids slot in
        (record r { lost_work_ids = id ∷ r.lost_work_ids }, slot'))
  | some c ↦
      (let (r, slot') = renew_all until ids (record slot {
        claimed =
            Map.insert id
              (record c {
                lease_until_ms = until;
                work = record c.work { lease_until_unix_ms = until };
              })
              slot.claimed;
      }) in
        (record r { renewed_work_ids = id ∷ r.renewed_work_ids }, slot'))
]

module _ ⦃p : Platform⦄ where
  unfoldable pub log_exhausted : Str → Str → ClaimedSlot → State → State
  log_exhausted run_id id c state =
      append_locked (lit "work.failed") id
        (p.encode_to_vec (
          work_failure (record {
            run_id = run_id;
            work_id = id;
            unit_key = c.unit_key;
            reason = lit "lease expired; max_attempts exhausted";
            terminal = true;
            attempt = c.attempt;
          })))
        state

  -- The ledger events of `reap_expired_locked`.
  unfoldable pub log_expired : Str → ℕ → Map ClaimedSlot → State → State
  log_expired run_id max_attempts [] state = state
  log_expired run_id max_attempts ((id, c) ∷ rest) state =
      let state' =
        append_locked (lit "work.expired") id
          (p.encode_to_vec (work_item (ledger_work_item c.work))) state in
      log_expired run_id max_attempts rest
        (if leb max_attempts c.attempt then log_exhausted run_id id c state' else state')

  unfoldable pub reap_found : Str → ℤ → Option RunSlot → State → State
  reap_found run_id now none state = state
  reap_found run_id now (some slot) state =
      log_expired run_id slot.max_attempts (expired now slot.claimed)
        (set_slot run_id (expire_all (expired now slot.claimed) slot) state)

  unfoldable pub reap_expired_locked : Str → ℤ → State → State
  unfolding reap_found
  reap_expired_locked run_id now state = reap_found run_id now (Map.lookup run_id state.runs) state

  unfoldable pub log_claims : List WorkItem → State → State
  log_claims [] state = state
  log_claims (work ∷ items) state = log_claims items (
      append_locked (lit "work.claimed") work.id
        (p.encode_to_vec (work_item (ledger_work_item work))) state)

  unfoldable pub ready_candidates : ClaimRequest → State → RunSlot → Assembly → List Candidate
  ready_candidates req state slot assembly =
      filter_map (candidate state slot) (filter (node_matches_claim_filter req) assembly.nodes)

  -- The slot of a run after it has closed as STALLED.
  unfoldable pub stall : Str → RunSlot → State → State
  stall run_id slot state =
      let slot' = stalled_slot slot in
      log_run (lit "run.stalled") slot'.run (set_slot run_id slot' state)

  unfoldable pub want : ClaimRequest → RunSlot → ℕ
  want req slot =
      let max_items = or_default 1 req.max_items in
      let capacity = in_flight_capacity slot in
      if ltb max_items capacity then max_items else capacity

  unfoldable pub stall_idle : ClaimRequest → List WorkItem → RunSlot → State → State
  stall_idle req items slot state =
      if is_nil items
        && (not (assembly_any_ready state slot)
            && (is_nil slot.claimed && not (is_open_closure slot)))
      then stall req.run_id slot state
      else state

  unfoldable pub claim_ready : ℤ → ClaimRequest → M (List WorkItem)
  claim_ready now req = do
    checked ← running_slot req.run_id
    modify (reap_expired_locked req.run_id now)
    found ← gets (λ s. Map.lookup req.run_id s.runs)
    slot ← unwrap found
    assembly ← unwrap slot.run.assembly
    candidates ← gets (λ s. ready_candidates req s slot assembly)
    let (items, slot') = claim_all now req.run_id (take (want req slot) candidates) slot
    modify (set_slot req.run_id slot')
    modify (log_claims items)
    modify (stall_idle req items slot')
    pure items

  unfoldable pub heartbeat : ℤ → HeartbeatRequest → M HeartbeatResponse
  heartbeat now req = do
    slot ← running_slot req.run_id
    let extend = or_default slot.default_lease_ms req.extend_lease_ms
    let until = saturating_add_i64 now (u64_as_i64 extend)
    let (response, slot') = renew_all until req.work_ids slot
    modify (set_slot req.run_id slot')
    modify (reap_expired_locked req.run_id now)
    pure response

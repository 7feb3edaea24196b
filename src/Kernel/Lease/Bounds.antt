-- ===== src/Kernel/Lease/Bounds.antt =====
-- How much a claim takes.
use srcport_substrate.Base.{
  suc, ◌+◌, ◌≤◌, ◌<◌, ◌≡◌, refl, subst, ap, ◌∙◌, sym, Bool-cases, Option-cases, inl, inr, true, not,
  ◌&&◌, some, eqb, leb, is_nil, if◌then◌else◌, List, [], ◌∷◌, Str, arith, length, take,
  length-take-le,
}
use srcport_substrate.Base.Int.{ℤ}
use srcport_substrate.Base.Map
use srcport_substrate.Base.Map.{Map, length-insert-le, length-remove-le}
use srcport_substrate.Proto.{Assembly, ClaimRequest, WorkItem}
use srcport_substrate.Kernel.Platform.{Platform}
use srcport_substrate.Kernel.Error.{Result, ok}
use srcport_substrate.Kernel.State.{State, RunSlot, ClaimedSlot, ◌>>=◌, append_locked}
use srcport_substrate.Kernel.Ready.{
  Candidate, in_flight_capacity, assembly_any_ready, is_open_closure,
}
use srcport_substrate.Kernel.Runs.{is_running, running_slot, set_slot, log_run}
use srcport_substrate.Kernel.Lease.{
  insert_unit, expired, expire_all, reap_expired_locked, claim_item, claim_slot, claim_all, want,
  log_claims, ready_candidates, stalled_slot, stall, stall_idle, claim_ready,
}
use srcport_substrate.Kernel.Lease.Expiry.{lookup-reaped}
use srcport_substrate.Kernel.Sound.Rules.{runs-log_claims, lookup-set_slot}

length-claim_slot :
    (w : WorkItem) (slot : RunSlot) → length (claim_slot w slot).claimed ≤ length slot.claimed + 1
unfolding claim_slot
length-claim_slot w slot = length-insert-le w.id _ slot.claimed

claim_all-length :
    (now : ℤ) (id : Str) (cs : List Candidate) (slot : RunSlot)
    → (length (claim_all now id cs slot).0 ≡ length cs)
      × (length (claim_all now id cs slot).1.claimed ≤ length slot.claimed + length cs)
      × ((claim_all now id cs slot).1.max_in_flight ≡ slot.max_in_flight)
unfolding claim_all claim_slot
claim_all-length now id [] slot = (refl, omega arith, refl)
claim_all-length now id (c ∷ cs) slot =
    let work = claim_item now id slot c in
    let rest = claim_all-length now id cs (claim_slot work slot) in
    (ap suc rest.0, omega (arith, rest, length-claim_slot work slot), rest.2)

expire_all-length :
    (es : Map ClaimedSlot) (slot : RunSlot)
    → (length (expire_all es slot).claimed ≤ length slot.claimed)
      × ((expire_all es slot).max_in_flight ≡ slot.max_in_flight)
unfolding expire_all
expire_all-length [] slot = (omega arith, refl)
expire_all-length ((j, c) ∷ es) slot =
    let rest = expire_all-length es (record slot {
      claimed = Map.remove j slot.claimed;
      done_units =
          if leb slot.max_attempts c.attempt
          then insert_unit c.unit_key slot.done_units
          else slot.done_units;
    }) in
    (omega (arith, rest, length-remove-le j slot.claimed), rest.1)

-- The slot of the run with as many claims as this one.
HasClaims : Str → RunSlot → State → Type 0
HasClaims id slot s =
    (after : RunSlot) × (Map.lookup id s.runs ≡ some after) × (after.claimed ≡ slot.claimed)

module _ ⦃p : Platform⦄ where
  claim_all-bounds :
      (now : ℤ) (req : ClaimRequest) (slot : RunSlot) (ready : List Candidate)
      → length slot.claimed ≤ slot.max_in_flight
      → 0 < slot.max_in_flight
      → let (items, slot') = claim_all now req.run_id (take (want req slot) ready) slot in
        (length items ≤ (if eqb req.max_items 0 then 1 else req.max_items))
        × (length slot'.claimed ≤ slot.max_in_flight)
  unfolding want in_flight_capacity
  claim_all-bounds now req slot ready h pos = ground (
    arith,
    claim_all-length now req.run_id (take (want req slot) ready) slot,
    length-take-le (want req slot) ready,
  )

  stall_idle-HasClaims :
      (req : ClaimRequest) (items : List WorkItem) (slot : RunSlot) (s : State)
      → Map.lookup req.run_id s.runs ≡ some slot
      → HasClaims req.run_id slot (stall_idle req items slot s)
  unfolding stall_idle stall stalled_slot log_run append_locked HasClaims
  stall_idle-HasClaims req items slot s h =
      elim (Bool-cases (
        is_nil items
        && (not (assembly_any_ready s slot)
            && (is_nil slot.claimed && not (is_open_closure slot))))) [
              | inl idle ↦
                  rw idle
                    (stalled_slot slot, lookup-set_slot req.run_id (stalled_slot slot) s, refl)
              | inr busy ↦ rw busy (slot, h, refl)
            ]

  -- What a claim does once the run and its assembly are there.
  claim_lem :
      (now : ℤ) (req : ClaimRequest) (s : State) (old slot : RunSlot) (a : Assembly)
      → Map.lookup req.run_id s.runs ≡ some old
      → is_running old.run.state ≡ true
      → Map.lookup req.run_id (reap_expired_locked req.run_id now s).runs ≡ some slot
      → slot.run.assembly ≡ some a
      → let s1 = reap_expired_locked req.run_id now s in
        let (items, slot') =
          claim_all now req.run_id (take (want req slot) (ready_candidates req s1 slot a)) slot in
        claim_ready now req s
        ≡ (ok items, stall_idle req items slot' (log_claims items (set_slot req.run_id slot' s1)))
  unfolding claim_ready running_slot ◌>>=◌
  claim_lem now req s old slot a e running f g =
      rw (e, running_slot) (rw running (rw f (rw g refl)))

  items_of :
      {items items' : List WorkItem} {s s' : State}
      → ◌≡◌ {A = Result (List WorkItem) × State} (ok items, s) (ok items', s')
      → items ≡ items'
  items_of h = cc

  -- A claim that succeeds has found the run RUNNING, with an assembly.
  claim_found :
      (now : ℤ) (req : ClaimRequest) (s s' : State) (slot : RunSlot) (items : List WorkItem)
      → claim_ready now req s ≡ (ok items, s')
      → Map.lookup req.run_id s.runs ≡ some slot
      → (is_running slot.run.state ≡ true)
        × (a : Assembly) × ((expire_all (expired now slot.claimed) slot).run.assembly ≡ some a)
  unfolding claim_ready running_slot ◌>>=◌
  claim_found now req s s' slot items h found = elim (Bool-cases (is_running slot.run.state)) [
    | inr stopped ↦ absurd (let no = rw (found, stopped) at h in cc)
    | inl running ↦ elim (Option-cases (expire_all (expired now slot.claimed) slot).run.assembly) [
      | inl none_there ↦ absurd (
          let no =
            rw (found, running, lookup-reaped req.run_id now s slot found, none_there) at h in
          cc)
      | inr (a, there) ↦ (running, a, there)
    ]
  ]

  -- On a run with an in-flight limit, not 0, that its claims keep, a `claim_ready` that succeeds
  -- hands out no more items than it asks for, where 0 asks for one, and leaves the run with no more
  -- claims than the limit.
  pub claim_bounds :
      (now : ℤ) (req : ClaimRequest) (s s' : State) (slot : RunSlot) (items : List WorkItem)
      → claim_ready now req s ≡ (ok items, s')
      → Map.lookup req.run_id s.runs ≡ some slot
      → length slot.claimed ≤ slot.max_in_flight
      → 0 < slot.max_in_flight
      → (length items ≤ (if eqb req.max_items 0 then 1 else req.max_items))
        × (after : RunSlot) × (Map.lookup req.run_id s'.runs ≡ some after)
        × (length after.claimed ≤ slot.max_in_flight)
  unfolding HasClaims
  claim_bounds now req s s' slot items h found kept limited =
      let (running, a, there) = claim_found now req s s' slot items h found in
      let claims = expired now slot.claimed in
      let reaped = expire_all claims slot in
      let s1 = reap_expired_locked req.run_id now s in
      let (fewer, same) = expire_all-length claims slot in
      let ready = ready_candidates req s1 reaped a in
      let taken = claim_all now req.run_id (take (want req reaped) ready) reaped in
      let (few, bounded) =
        claim_all-bounds now req reaped ready (omega (arith, fewer, same, kept))
          (omega (arith, same, limited)) in
      let done =
        sym h
        ∙ claim_lem now req s slot reaped a found running
            (lookup-reaped req.run_id now s slot found) there in
      let (after, left, claimed) = stall_idle-HasClaims req taken.0 taken.1 _ (
        ap (Map.lookup req.run_id) (runs-log_claims taken.0 (set_slot req.run_id taken.1 s1))
        ∙ lookup-set_slot req.run_id taken.1 s1) in
      (
        subst (λ l. length l ≤ (if eqb req.max_items 0 then 1 else req.max_items))
            (sym (items_of done)) few,
        after,
        ap (λ r. Map.lookup req.run_id r.1.runs) done ∙ left,
        omega (arith, ap length claimed, bounded, same),
      )

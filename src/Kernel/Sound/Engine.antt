-- ===== src/Kernel/Sound/Engine.antt =====
-- The calls that work on a run keep runs sound and closed runs as they are.
use srcport_substrate.Base.{◌≡◌, refl, ap, ◌∙◌, true, some, List, Str}
use srcport_substrate.Base.Int.{ℤ, saturating_add_i64, u64_as_i64}
use srcport_substrate.Base.Map
use srcport_substrate.Proto.{
  RequestContext, InjectInputRequest, ClaimRequest, HeartbeatRequest, FailWorkRequest, WorkItem,
}
use srcport_substrate.Kernel.Platform.{Platform}
use srcport_substrate.Kernel.State.{State, RunSlot, ◌>>◌, modify, pure, append_locked}
use srcport_substrate.Kernel.Runs.{
  is_running, or_default, set_slot, log_run, inject_slot, cancel_slot, inject_input_ctx, cancel_run,
}
use srcport_substrate.Kernel.Lease.{log_claims, renew_all, claim_ready, heartbeat, stall_idle}
use srcport_substrate.Kernel.Commit.{fail_slot, fail_work, stall_failed}
use srcport_substrate.Kernel.Sound.Slots.{
  IsSound, inject_slot-IsSound, cancel_slot-IsSound, fail_slot-IsSound, claim_all-run,
  claim_all-IsSound, renew_all-IsSound, renew_all-run,
}
use srcport_substrate.Kernel.Sound.Rules.{
  Safe, if-Safe, Safe-refl, Safe-same, Safe-write, From, at-pure, at-gets, at-lift, at-ok_or,
  at-unwrap, at-refuse_if, at-modify, at-running, lookup-set_slot, reap-lem, stall-Safe,
  runs-log_claims, reap-running,
}

module _ ⦃p : Platform⦄ where
  pub inject-From :
      (now : ℤ) (req : InjectInputRequest) (ctx : RequestContext) (s : State)
      → From (inject_input_ctx now req ctx) s
  unfolding inject_input_ctx append_locked
  inject-From now req ctx s = at-lift _ s _ (λ u d. at-ok_or _ s _ _ (λ input i.
      at-refuse_if s _ _ _ (λ n. at-ok_or _ s _ _ (λ r a. at-gets _ s _ (
        at-refuse_if s _ _ _ (λ m. at-running s req.run_id _ (λ slot e running.
          at-refuse_if s _ _ _ (λ b.
            at-modify s _ _
              (Safe-write req.run_id slot (inject_slot input slot) s e running
                (inject_slot-IsSound req.run_id input slot))
              (at-modify _ _ _ (Safe-same _ _ refl) (at-pure _ _))))))))))

  pub cancel-From : (id : Str) (s : State) → From (cancel_run id) s
  unfolding cancel_run append_locked log_run
  cancel-From id s = at-running s id _ (λ slot e running.
      at-modify s _ _
        (Safe-write id slot (cancel_slot slot) s e running (cancel_slot-IsSound id slot))
        (at-modify _ _ _ (Safe-same _ _ refl) (at-pure _ _)))

  stall_idle-Safe :
      (req : ClaimRequest) (items : List WorkItem) (slot : RunSlot) (s : State)
      → Map.lookup req.run_id s.runs ≡ some slot
      → is_running slot.run.state ≡ true
      → Safe s (stall_idle req items slot s)
  unfolding stall_idle
  stall_idle-Safe req items slot s e running =
      if-Safe _ s _ _ (stall-Safe req.run_id slot s e running) (Safe-refl s)

  -- The writes of a claim.
  claims-From :
      (req : ClaimRequest) (items : List WorkItem) (old slot : RunSlot) (s : State)
      → Map.lookup req.run_id s.runs ≡ some old
      → is_running old.run.state ≡ true
      → slot.run ≡ old.run
      → (IsSound req.run_id old → IsSound req.run_id slot)
      → From
          (do
            modify (set_slot req.run_id slot)
            modify (log_claims items)
            modify (stall_idle req items slot)
            pure items)
          s
  claims-From req items old slot s e running same sound =
      let id = req.run_id in
      let logged = runs-log_claims items (set_slot id slot s) in
      at-modify s _ _ (Safe-write id old slot s e running sound) (
        at-modify _ _ _ (Safe-same _ _ logged) (
          at-modify _ _ _
            (stall_idle-Safe req items slot _
              (ap (Map.lookup id) logged ∙ lookup-set_slot id slot s) (rw same running))
            (at-pure _ _)))

  pub claim-From : (now : ℤ) (req : ClaimRequest) (s : State) → From (claim_ready now req) s
  unfolding claim_ready
  claim-From now req s = at-running s req.run_id _ (λ old e running.
      let id = req.run_id in
      at-modify s _ _ (reap-lem id now old s e running).0 (
        at-gets _ _ _ (
          at-unwrap _ _ _ (λ slot f. at-unwrap _ _ _ (λ assembly g. at-gets _ _ _ (
            claims-From req _ slot _ _ f (reap-running id now old slot s e running f)
              (claim_all-run now id _ slot) (claim_all-IsSound now id _ slot)))))))

  pub heartbeat-From : (now : ℤ) (req : HeartbeatRequest) (s : State) → From (heartbeat now req) s
  unfolding heartbeat
  heartbeat-From now req s = at-running s req.run_id _ (λ slot e running.
      let until =
        saturating_add_i64 now
          (u64_as_i64 (or_default slot.default_lease_ms req.extend_lease_ms)) in
      let slot' = (renew_all until req.work_ids slot).1 in
      at-modify s _ _
        (Safe-write req.run_id slot slot' s e running
          (renew_all-IsSound until req.run_id req.work_ids slot))
        (at-modify _ _ _
          (reap-lem req.run_id now slot' _ (lookup-set_slot req.run_id slot' s)
            (rw (renew_all-run until req.work_ids slot) running)).0
          (at-pure _ _)))

  stall_failed-Safe :
      (id : Str) (slot : RunSlot) (s : State)
      → Map.lookup id s.runs ≡ some slot
      → is_running slot.run.state ≡ true
      → Safe s (stall_failed id slot s)
  unfolding stall_failed
  stall_failed-Safe id slot s e running =
      if-Safe _ s _ _ (stall-Safe id slot s e running) (Safe-refl s)

  pub fail_work-From : (now : ℤ) (req : FailWorkRequest) (s : State) → From (fail_work now req) s
  unfolding fail_work append_locked fail_slot
  fail_work-From now req s = at-running s req.run_id _ (λ old e running.
      let id = req.run_id in
      at-modify s _ _ (reap-lem id now old s e running).0 (
        at-gets _ _ _ (
          at-unwrap _ _ _ (λ slot f. at-ok_or _ _ _ _ (λ c g.
            let open_run = reap-running id now old slot s e running f in
            at-modify _ _ _
              (Safe-write id slot _ _ f open_run (fail_slot-IsSound id req.work_id c _ slot))
              (at-modify _ _ _ (Safe-same _ _ refl) (
                at-modify _ _ _ (stall_failed-Safe id _ _ (lookup-set_slot id _ _) open_run)
                  (at-gets _ _ _ (at-unwrap _ _ _ (λ after h. at-pure _ _))))))))))

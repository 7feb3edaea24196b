-- ===== src/Kernel/Traverse/Writes.antt =====
-- The writes of several steps respect every relation that the single writes respect.
use srcport_substrate.Base.{ℕ, Option, none, some, List, [], ◌∷◌, Str, leb}
use srcport_substrate.Base.Int.{ℤ}
use srcport_substrate.Base.Map.{Map}
use srcport_substrate.Proto.{RequestContext, Derivation, ClaimRequest, WorkItem, Run}
use srcport_substrate.Kernel.Platform.{Platform}
use srcport_substrate.Kernel.State.{State, RunSlot, ClaimedSlot}
use srcport_substrate.Kernel.Runs.{log_run}
use srcport_substrate.Kernel.Lease.{
  log_exhausted, log_expired, reap_found, reap_expired_locked, log_claims, stall, stall_idle,
}
use srcport_substrate.Kernel.Commit.{stall_failed, record_commit}
use srcport_substrate.Kernel.Keeps.{IsStable, if-R}

module _ ⦃p : Platform⦄ {R : State → State → Type 0} (st : IsStable R) where
  open st use {passive, on_slot}
  open passive use {refl_R, trans_R, on_append}

  pub log_run-R : (kind : Str) (r : Run) (s : State) → R s (log_run kind r s)
  unfolding log_run
  log_run-R kind r s = on_append kind r.id _ s

  log_exhausted-R : (id w : Str) (c : ClaimedSlot) (s : State) → R s (log_exhausted id w c s)
  unfolding log_exhausted
  log_exhausted-R id w c s = on_append _ w _ s

  log_expired-R :
      (id : Str) (n : ℕ) (cs : Map ClaimedSlot) (s : State) → R s (log_expired id n cs s)
  unfolding log_expired
  log_expired-R id n [] s = refl_R s
  log_expired-R id n ((w, c) ∷ cs) s =
      trans_R s _ _
        (trans_R s _ _ (on_append _ w _ s)
          (if-R passive (leb n c.attempt) _ _ _ (log_exhausted-R id w c _) (refl_R _)))
        (log_expired-R id n cs _)

  reap_found-R : (id : Str) (now : ℤ) (o : Option RunSlot) (s : State) → R s (reap_found id now o s)
  unfolding reap_found
  reap_found-R id now none s = refl_R s
  reap_found-R id now (some slot) s =
      trans_R s _ _ (on_slot id _ s) (log_expired-R id slot.max_attempts _ _)

  pub reap-R : (id : Str) (now : ℤ) (s : State) → R s (reap_expired_locked id now s)
  unfolding reap_expired_locked
  reap-R id now s = reap_found-R id now _ s

  pub log_claims-R : (items : List WorkItem) (s : State) → R s (log_claims items s)
  unfolding log_claims
  log_claims-R [] s = refl_R s
  log_claims-R (w ∷ ws) s = trans_R s _ _ (on_append _ w.id _ s) (log_claims-R ws _)

  pub stall-R : (id : Str) (slot : RunSlot) (s : State) → R s (stall id slot s)
  unfolding stall
  stall-R id slot s = trans_R s _ _ (on_slot id _ s) (log_run-R _ _ _)

  pub stall_idle-R :
      (req : ClaimRequest) (items : List WorkItem) (slot : RunSlot) (s : State)
      → R s (stall_idle req items slot s)
  unfolding stall_idle
  stall_idle-R req items slot s = if-R passive _ s _ _ (stall-R req.run_id slot s) (refl_R s)

  pub stall_failed-R : (id : Str) (slot : RunSlot) (s : State) → R s (stall_failed id slot s)
  unfolding stall_failed
  stall_failed-R id slot s = if-R passive _ s _ _ (stall-R id slot s) (refl_R s)

  pub record_commit-R :
      (id : Str) (slot : RunSlot) (d : Derivation) (ctx : RequestContext) (s : State)
      → R s (record_commit id slot d ctx s)
  unfolding record_commit
  record_commit-R id slot d ctx s = trans_R s _ _ (on_slot id slot s) (
      trans_R _ _ _ (passive.on_derivation d _) (
        trans_R _ _ _ (on_append _ d.id _ _)
          (trans_R _ _ _ (log_run-R _ slot.run _) (passive.on_reply _ ctx _ _))))

pub ruleset write_rules =
    (log_run-R, reap-R, log_claims-R, stall-R, stall_idle-R, stall_failed-R, record_commit-R)

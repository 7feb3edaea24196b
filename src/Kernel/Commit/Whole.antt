-- ===== src/Kernel/Commit/Whole.antt =====
-- What a whole commit leaves of its run.
use srcport_substrate.Base.{
  ◌<◌, ◌≡◌, refl, ap, sym, subst, ◌∙◌, Bool, true, false, ◌⊎◌, inl, inr, Option, none, some,
  Bool-cases, Option-cases, Str, is_nil, arith,
}
use srcport_substrate.Base.Int.{ℤ}
use srcport_substrate.Base.Map
use srcport_substrate.Proto.{
  RunState, Run, RequestContext, NodeOutput, Derivation, ArtifactRef, AssemblyNode, ExecutionPolicy,
  closure_of,
}
use srcport_substrate.Kernel.Platform.{Platform}
use srcport_substrate.Kernel.Error.{ok}
use srcport_substrate.Kernel.State.{
  State, RunSlot, ClaimedSlot, IdempotentResult, idempotent_put, idempotency_key, append_locked,
}
use srcport_substrate.Kernel.Assembly.{capability_for_node}
use srcport_substrate.Kernel.Runs.{set_slot, log_run}
use srcport_substrate.Kernel.Ready.{candidate, is_open, is_open_closure}
use srcport_substrate.Kernel.Commit.{
  answer_slot, answer_of, exhaust_slot, close_slot, stall_committed, commit_slot, record_commit,
  derive, commit_claimed, commit_fresh,
}
use srcport_substrate.Kernel.Lease.{stalled_slot}
use srcport_substrate.Kernel.Sound.Rules.{lookup-set_slot}
use srcport_substrate.Kernel.Commit.Progress.{HasReady, close_slot_progress}
use srcport_substrate.Kernel.Commit.Chain.{
  Done, past_lift, past_unwrap, past_ok_or, past_refuse_if, past_gets, past_modify, past_any,
}

same_policy : (a b : RunSlot) → a.run.policy ≡ b.run.policy → is_open_closure a ≡ is_open_closure b
unfolding is_open_closure
same_policy a b e =
    ap
      (λ (o : Option ExecutionPolicy).
        let r : Bool = elim o [ none ↦ false | some p ↦ is_open (closure_of p.closure) ] in r)
      e

policy-answer_slot :
    (o : Option ArtifactRef) (slot : RunSlot) → (answer_slot o slot).run.policy ≡ slot.run.policy
unfolding answer_slot
policy-answer_slot none slot = refl
policy-answer_slot (some a) slot = ground arith

idempotent_put-same :
    (op : Str) (ctx : RequestContext) (v : IdempotentResult) (s : State)
    → ((idempotent_put op ctx v s).runs ≡ s.runs)
      × ((idempotent_put op ctx v s).modules ≡ s.modules)
unfolding idempotent_put
idempotent_put-same op ctx v s = elim (Option-cases (idempotency_key op ctx)) [
  | inl e ↦ rw (e, idempotent_put) (refl, refl)
  | inr (k, e) ↦ rw (e, idempotent_put) (refl, refl)
]

module _ ⦃p : Platform⦄ where
  policy-close_slot :
      (terminal : NodeOutput) (d : Derivation) (s : State) (slot : RunSlot)
      → (close_slot terminal d s slot).run.policy ≡ slot.run.policy
  unfolding close_slot stall_committed exhaust_slot stalled_slot
  policy-close_slot terminal d s slot =
      ground (arith, policy-answer_slot (answer_of terminal d) slot)

  candidate-modules :
      (s t : State) (slot : RunSlot) (n : AssemblyNode)
      → s.modules ≡ t.modules
      → candidate s slot n ≡ candidate t slot n
  unfolding candidate capability_for_node
  candidate-modules s t slot n e =
      subst (λ ms. candidate s slot n ≡ candidate (record s { modules = ms }) slot n) e refl

  HasReady-modules :
      (s t : State) (slot : RunSlot) → s.modules ≡ t.modules → HasReady s slot → HasReady t slot
  HasReady-modules s t slot e (a, before, after, n, c, there, listed, ready) =
      (a, before, after, n, c, there, listed, sym (candidate-modules s t slot n e) ∙ ready)

  record_commit-same :
      (id : Str) (slot : RunSlot) (d : Derivation) (ctx : RequestContext) (s : State)
      → (Map.lookup id (record_commit id slot d ctx s).runs ≡ some slot)
        × ((record_commit id slot d ctx s).modules ≡ s.modules)
  unfolding record_commit log_run append_locked set_slot
  record_commit-same id slot d ctx s =
      let same = idempotent_put-same _ ctx _ _ in
      (ap (Map.lookup id) same.0 ∙ lookup-set_slot id slot s, same.1)

  -- The reason for which a run goes on.
  abbrev pub GoesOn : State → RunSlot → Type 0
  GoesOn s slot =
      (is_open_closure slot ≡ true)
      ⊎ ((slot.run.steps < slot.run.max_steps) × ((is_nil slot.claimed ≡ false) ⊎ HasReady s slot))

  HasReady-same :
      (s t : State) (a b : RunSlot)
      → s.modules ≡ t.modules
      → a ≡ b
      → (is_nil a.claimed ≡ false) ⊎ HasReady s a
      → (is_nil b.claimed ≡ false) ⊎ HasReady t b
  HasReady-same s t a b m e (inl busy) = inl (ap (λ (x : RunSlot). is_nil x.claimed) (sym e) ∙ busy)
  HasReady-same s t a b m e (inr ready) =
      inr (subst (HasReady t) e (HasReady-modules s t a m ready))

  close_slot-GoesOn :
      (terminal : NodeOutput) (d : Derivation) (s t : State) (slot : RunSlot)
      → s.modules ≡ t.modules
      → (close_slot terminal d s slot).run.state ≡ RunState.running
      → GoesOn t (close_slot terminal d s slot)
  close_slot-GoesOn terminal d s t slot m running =
      let after = close_slot terminal d s slot in
      let same = same_policy after slot (policy-close_slot terminal d s slot) in
      elim (Bool-cases (is_open_closure slot)) [
        | inl unbounded ↦ inl (same ∙ unbounded)
        | inr bounded ↦
            (let (unanswered, whole, left, more) =
                close_slot_progress terminal d s slot bounded running in
              inr (
                subst (λ (x : RunSlot). x.run.steps < x.run.max_steps) (sym whole) left,
                HasReady-same s t slot after m (sym whole) more,
              ))
      ]

  claimed_lem :
      (submitted : Derivation) (ctx : RequestContext) (slot : RunSlot) (c : ClaimedSlot)
      (s s' : State) (run : Run)
      → Done (commit_claimed submitted ctx slot c) s run s'
      → run.state ≡ RunState.running
      → (id : Str) × (after : RunSlot) × (Map.lookup id s'.runs ≡ some after)
        × (after.run ≡ run)
        × GoesOn s' after
  unfolding commit_claimed Done
  claimed_lem submitted ctx slot c s s' run h running =
      let h1 = past_refuse_if _ _ _ s s' run h in
      let h2 = past_refuse_if _ _ _ s s' run h1 in
      let (cap, h3) = past_lift _ _ s s' run (past_gets _ _ s s' run h2) in
      let (u, h4) = past_lift _ _ s s' run (past_gets _ _ s s' run h3) in
      let (target, h5) = past_unwrap _ _ s s' run (past_gets _ _ s s' run h4) in
      let (assembly, h6) = past_unwrap _ _ s s' run h5 in
      let (terminal, h7) = past_unwrap _ _ s s' run h6 in
      let d = derive c.work submitted.outputs in
      let after = close_slot terminal d s (commit_slot c d target) in
      let (reply, left) = past_modify _ _ s s' run (past_gets _ _ s s' run h7) in
      let (there, modules) = record_commit-same c.work.run_id after d ctx s in
      (
        c.work.run_id,
        after,
        subst (λ (x : State). Map.lookup c.work.run_id x.runs ≡ some after) left there,
        reply,
        close_slot-GoesOn terminal d s s' (commit_slot c d target)
            (sym modules ∙ ap (λ (x : State). x.modules) left)
            (ap (λ (x : Run). x.state) reply ∙ running),
      )

  -- If the run that a commit, not replayed, returns is RUNNING, the kernel then holds a slot with
  -- that run, and the run has an open closure, or it has steps left and has work in flight or a node
  -- of its assembly that is a candidate for a claim.
  pub commit_progress :
      (now : ℤ) (submitted : Derivation) (ctx : RequestContext) (s s' : State) (run : Run)
      → commit_fresh now submitted ctx s ≡ (ok run, s')
      → run.state ≡ RunState.running
      → (id : Str) × (after : RunSlot) × (Map.lookup id s'.runs ≡ some after)
        × (after.run ≡ run)
        × ((is_open_closure after ≡ true)
            ⊎ ((after.run.steps < after.run.max_steps)
                × ((is_nil after.claimed ≡ false) ⊎ HasReady s' after)))
  unfolding commit_fresh Done
  commit_progress now submitted ctx s s' run h running =
      let (checked, h1) = past_any _ _ s s' run h in
      let (u, h2) = past_any _ _ _ s' run h1 in
      let (slot, h3) = past_unwrap _ _ _ s' run (past_gets _ _ _ s' run h2) in
      let (c, h4) = past_ok_or _ _ _ _ s' run h3 in
      claimed_lem submitted ctx slot c _ s' run h4 running

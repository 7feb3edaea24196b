-- ===== src/Kernel/Commit/Progress.antt =====
-- How `commit_ctx` closes a run.
use srcport_substrate.Base.{
  ◌<◌, ◌≡◌, refl, ap, sym, ◌∙◌, true, false, not, ◌&&◌, ◌⊎◌, inl, inr, Bool, Option, none, some,
  Bool-cases, Option-cases, List, [], ◌∷◌, ◌++◌, is_nil, leb, arith,
}
use srcport_substrate.Proto.{AssemblyNode, Assembly, RunState, NodeOutput, Derivation, ArtifactRef}
use srcport_substrate.Kernel.Platform.{Platform}
use srcport_substrate.Kernel.State.{State, RunSlot}
use srcport_substrate.Kernel.Ready.{
  Candidate, candidate, any_candidate, is_open_closure, assembly_any_ready,
}
use srcport_substrate.Kernel.Lease.{stalled_slot}
use srcport_substrate.Kernel.Commit.{
  answer_of, answer_slot, is_completed, exhaust_slot, is_closed, close_slot, stall_committed,
}

closed_not_running : (r : RunState) → is_closed r ≡ true → r ≡ RunState.running → ⊥
closed_not_running r h e = cc (ap is_closed e, h)

completed_not_running : (r : RunState) → is_completed r ≡ true → r ≡ RunState.running → ⊥
unfolding is_completed
completed_not_running r h e = cc (ap is_completed e, h)

stalled_not_running : RunState.stalled ≡ RunState.running → ⊥
stalled_not_running h = cc

failed_not_running : RunState.failed ≡ RunState.running → ⊥
failed_not_running h = cc

module _ ⦃p : Platform⦄ where
  stall_committed_progress :
      (s : State) (slot : RunSlot)
      → is_open_closure slot ≡ false
      → (stall_committed s slot).run.state ≡ RunState.running
      → (stall_committed s slot ≡ slot)
        × ((is_nil slot.claimed ≡ false) ⊎ (assembly_any_ready s slot ≡ true))
  unfolding stall_committed stalled_slot
  stall_committed_progress s slot bounded h = elim (Bool-cases (is_nil slot.claimed)) [
    | inr busy ↦ (ground (arith, busy), inl busy)
    | inl idle ↦ elim (Bool-cases (assembly_any_ready s slot)) [
      | inl ready ↦ (ground (arith, ready), inr ready)
      | inr none_ready ↦ elim (Bool-cases (is_closed slot.run.state)) [
        | inl closed ↦ absurd (closed_not_running slot.run.state closed (rw closed at h))
        | inr live ↦ absurd (stalled_not_running (rw (live, bounded, idle, none_ready) at h))
      ]
    ]
  ]

  exhaust_progress :
      (slot : RunSlot)
      → (exhaust_slot slot).run.state ≡ RunState.running
      → (exhaust_slot slot ≡ slot) × (slot.run.steps < slot.run.max_steps)
  unfolding exhaust_slot is_completed
  exhaust_progress slot h = elim (Bool-cases (is_completed slot.run.state)) [
    | inl done ↦ absurd (completed_not_running slot.run.state done (rw done at h))
    | inr more ↦ elim (Bool-cases (leb slot.run.max_steps slot.run.steps)) [
      | inl spent ↦ absurd (failed_not_running (rw (more, spent) at h))
      | inr left ↦ (rw (more, left) refl, ground (arith, left))
    ]
  ]

  is_open_closure-exhaust_slot :
      (slot : RunSlot) → is_open_closure (exhaust_slot slot) ≡ is_open_closure slot
  unfolding exhaust_slot is_open_closure
  is_open_closure-exhaust_slot slot =
      elim (Bool-cases
        (not (is_completed slot.run.state) && leb slot.run.max_steps slot.run.steps)) [
          | inl spent ↦ rw spent refl
          | inr left ↦ rw left refl
        ]

  is_open_closure-answered :
      (slot : RunSlot) (a : ArtifactRef)
      → is_open_closure
          (record slot { run = record slot.run { answer = some a; state = RunState.completed } })
        ≡ is_open_closure slot
  unfolding is_open_closure
  is_open_closure-answered slot a = refl

  answer_progress :
      (o : Option ArtifactRef) (slot : RunSlot)
      → is_open_closure slot ≡ false
      → (is_open_closure (answer_slot o slot) ≡ false)
        × (((o ≡ none) × (answer_slot o slot ≡ slot))
            ⊎ ((answer_slot o slot).run.state ≡ RunState.completed))
  unfolding answer_slot
  answer_progress none slot bounded = (bounded, inl (refl, refl))
  answer_progress (some a) slot bounded =
      rw bounded (is_open_closure-answered slot a ∙ bounded, inr refl)

  any_candidate-found :
      (s : State) (slot : RunSlot) (nodes : List AssemblyNode)
      → any_candidate s slot nodes ≡ true
      → (before after : List AssemblyNode) × (n : AssemblyNode) × (c : Candidate) × (nodes
          ≡ before ++ n ∷ after)
        × (candidate s slot n ≡ some c)
  unfolding any_candidate
  any_candidate-found s slot [] h = absurd (cc)
  any_candidate-found s slot (n ∷ nodes) h = elim (Option-cases (candidate s slot n)) [
    | inr (c, e) ↦ ([], nodes, n, c, refl, e)
    | inl e ↦
        (let rest = any_candidate-found s slot nodes (rw (e, any_candidate) at h) in
          (n ∷ rest.0, rest.1, rest.2, rest.3, ap (λ l. n ∷ l) rest.4, rest.5))
  ]

  -- A node of the run's assembly is ready.
  abbrev pub HasReady : State → RunSlot → Type 0
  HasReady s slot =
      (a : Assembly) × (before after : List AssemblyNode) × (n : AssemblyNode) × (c : Candidate)
      × (slot.run.assembly ≡ some a)
      × (a.nodes ≡ before ++ n ∷ after)
      × (candidate s slot n ≡ some c)

  assembly_any_ready-found :
      (s : State) (slot : RunSlot) → assembly_any_ready s slot ≡ true → HasReady s slot
  unfolding assembly_any_ready
  assembly_any_ready-found s slot h = elim (Option-cases slot.run.assembly) [
    | inl e ↦ absurd (ground (arith, e, h))
    | inr (a, e) ↦
        (let any_of : Option Assembly → Bool =
            λ o. elim o [ none ↦ false | some b ↦ any_candidate s slot b.nodes ] in
          let (before, after, n, c, there, ready) =
            any_candidate-found s slot a.nodes (sym (ap any_of e) ∙ h) in
          (a, before, after, n, c, e, there, ready))
  ]

  progress-HasReady :
      (s : State) (slot : RunSlot)
      → (is_nil slot.claimed ≡ false) ⊎ (assembly_any_ready s slot ≡ true)
      → (is_nil slot.claimed ≡ false) ⊎ HasReady s slot
  progress-HasReady s slot (inl busy) = inl busy
  progress-HasReady s slot (inr ready) = inr (assembly_any_ready-found s slot ready)

  -- The closing step of a commit leaves no slot of a bounded closure RUNNING without a reason: if
  -- the slot that it returns is RUNNING, the work has not produced the answer and the slot is the
  -- one that the step was given, there are steps left, and some work is in flight or a node of the
  -- run's assembly is a candidate for a claim.
  pub close_slot_progress :
      (terminal : NodeOutput) (d : Derivation) (s : State) (slot : RunSlot)
      → is_open_closure slot ≡ false
      → (close_slot terminal d s slot).run.state ≡ RunState.running
      → (answer_of terminal d ≡ none)
        × (close_slot terminal d s slot ≡ slot)
        × (slot.run.steps < slot.run.max_steps)
        × ((is_nil slot.claimed ≡ false) ⊎ HasReady s slot)
  unfolding close_slot is_completed
  close_slot_progress terminal d s slot bounded h =
      let answered = answer_slot (answer_of terminal d) slot in
      let ans = answer_progress (answer_of terminal d) slot bounded in
      let live =
        stall_committed_progress s (exhaust_slot answered)
          (is_open_closure-exhaust_slot answered ∙ ans.0) h in
      let left = exhaust_progress answered (rw live.0 at h) in
      elim ans.1 [
        | inl (unanswered, same) ↦
            (let whole : exhaust_slot answered ≡ slot = left.0 ∙ same in
              (
                unanswered,
                live.0 ∙ whole,
                rw same at left.1,
                progress-HasReady s slot (rw whole at live.1),
              ))
        | inr done ↦ absurd (
            completed_not_running _ (ap is_completed done)
              (ap (λ (x : RunSlot). x.run.state) (sym left.0 ∙ sym live.0) ∙ h))
      ]

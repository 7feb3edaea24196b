-- ===== src/Kernel/Sound/Slots.antt =====
-- Slots of runs whose claims are their own and whose steps are within the limit.
use srcport_substrate.Base.{
  ℕ, ◌≤◌, ◌≡◌, refl, sym, ap, subst, ◌∙◌, Bool, false, Option, none, some, List, [], ◌∷◌, Str, leb,
  arith, Bool-cases, Option-cases, inl, inr,
}
use srcport_substrate.Base.Int.{ℤ}
use srcport_substrate.Base.Map
use srcport_substrate.Base.Map.{Map, lookup-insert, lookup-remove}
use srcport_substrate.Proto.{NamedArtifact, ArtifactRef, NodeOutput, WorkItem, Derivation}
use srcport_substrate.Kernel.Platform.{Platform}
use srcport_substrate.Kernel.State.{State, ClaimedSlot, RunSlot}
use srcport_substrate.Kernel.Ready.{Candidate, is_open_closure}
use srcport_substrate.Kernel.Runs.{inject_slot, cancel_slot}
use srcport_substrate.Kernel.Lease.{
  expire_all, claim_item, claim_slot, claim_all, renew_all, stalled_slot,
}
use srcport_substrate.Kernel.Commit.{
  fail_slot, commit_slot, answer_slot, exhaust_slot, stall_committed, close_slot, answer_of,
}

pub record IsOwn (id : Str) (cs : Map ClaimedSlot) : Type 0 where
  pub own : (w : Str) (c : ClaimedSlot) → Map.lookup w cs ≡ some c → c.work.run_id ≡ id

pub record IsSound (id : Str) (slot : RunSlot) : Type 0 where
  pub claims : IsOwn id slot.claimed
  pub bounded : slot.run.steps ≤ slot.run.max_steps

pub no-IsOwn : (id : Str) → IsOwn id []
unfolding Map.lookup
no-IsOwn id = record { own = λ w c e. absurd cc }

insert-IsOwn :
    (id w : Str) (c : ClaimedSlot) (cs : Map ClaimedSlot)
    → c.work.run_id ≡ id
    → IsOwn id cs
    → IsOwn id (Map.insert w c cs)
insert-IsOwn id w c cs e h = record {
  own = λ v d l. ground (arith, h.own v d, lookup-insert w v c cs);
}

remove-IsOwn : (id w : Str) (cs : Map ClaimedSlot) → IsOwn id cs → IsOwn id (Map.remove w cs)
remove-IsOwn id w cs h = record { own = λ v d l. h.own v d (ground (arith, lookup-remove w v cs)) }

pub inject_slot-IsSound :
    (id : Str) (input : NamedArtifact) (slot : RunSlot)
    → IsSound id slot
    → IsSound id (inject_slot input slot)
unfolding inject_slot
inject_slot-IsSound id input slot h = record { claims = h.claims; bounded = h.bounded }

pub cancel_slot-IsSound :
    (id : Str) (slot : RunSlot) → IsSound id slot → IsSound id (cancel_slot slot)
unfolding cancel_slot
cancel_slot-IsSound id slot h = record { claims = no-IsOwn id; bounded = h.bounded }

pub stalled_slot-IsSound :
    (id : Str) (slot : RunSlot) → IsSound id slot → IsSound id (stalled_slot slot)
unfolding stalled_slot
stalled_slot-IsSound id slot h = record { claims = h.claims; bounded = h.bounded }

pub fail_slot-IsSound :
    (id w : Str) (c : ClaimedSlot) (terminal : Bool) (slot : RunSlot)
    → IsSound id slot
    → IsSound id (fail_slot w c terminal slot)
unfolding fail_slot
fail_slot-IsSound id w c terminal slot h = record {
  claims = remove-IsOwn id w slot.claimed h.claims;
  bounded = h.bounded;
}

-- Reaping touches no run.
pub expire_all-run : (es : Map ClaimedSlot) (slot : RunSlot) → (expire_all es slot).run ≡ slot.run
unfolding expire_all
expire_all-run [] slot = refl
expire_all-run ((w, c) ∷ es) slot = expire_all-run es _

pub expire_all-IsSound :
    (id : Str) (es : Map ClaimedSlot) (slot : RunSlot)
    → IsSound id slot
    → IsSound id (expire_all es slot)
unfolding expire_all
expire_all-IsSound id [] slot h = h
expire_all-IsSound id ((w, c) ∷ es) slot h =
    expire_all-IsSound id es _
      (record { claims = remove-IsOwn id w slot.claimed h.claims; bounded = h.bounded })

pub claim_all-run :
    (now : ℤ) (id : Str) (cs : List Candidate) (slot : RunSlot)
    → (claim_all now id cs slot).1.run ≡ slot.run
unfolding claim_all claim_slot
claim_all-run now id [] slot = refl
claim_all-run now id (c ∷ cs) slot = claim_all-run now id cs _

claim_slot-IsSound :
    (id : Str) (w : WorkItem) (slot : RunSlot)
    → w.run_id ≡ id
    → IsSound id slot
    → IsSound id (claim_slot w slot)
unfolding claim_slot
claim_slot-IsSound id w slot e h = record {
  claims = insert-IsOwn id w.id _ slot.claimed e h.claims;
  bounded = h.bounded;
}

pub claim_all-IsSound :
    (now : ℤ) (id : Str) (cs : List Candidate) (slot : RunSlot)
    → IsSound id slot
    → IsSound id (claim_all now id cs slot).1
unfolding claim_all claim_item
claim_all-IsSound now id [] slot h = h
claim_all-IsSound now id (c ∷ cs) slot h =
    let w = claim_item now id slot c in
    claim_all-IsSound now id cs (claim_slot w slot) (claim_slot-IsSound id w slot refl h)

pub renew_all-run :
    (until : ℤ) (ws : List Str) (slot : RunSlot) → (renew_all until ws slot).1.run ≡ slot.run
unfolding renew_all
renew_all-run until [] slot = refl
renew_all-run until (w ∷ ws) slot = elim (Option-cases (Map.lookup w slot.claimed)) [
  | inl absent ↦ rw (absent, renew_all) (renew_all-run until ws slot)
  | inr (c, e) ↦ rw (e, renew_all) (renew_all-run until ws _)
]

pub renew_all-IsSound :
    (until : ℤ) (id : Str) (ws : List Str) (slot : RunSlot)
    → IsSound id slot
    → IsSound id (renew_all until ws slot).1
unfolding renew_all
renew_all-IsSound until id [] slot h = h
renew_all-IsSound until id (w ∷ ws) slot h = elim (Option-cases (Map.lookup w slot.claimed)) [
  | inl absent ↦ rw (absent, renew_all) (renew_all-IsSound until id ws slot h)
  | inr (c, e) ↦
      rw (e, renew_all)
        (renew_all-IsSound until id ws _ (record {
          claims = insert-IsOwn id w _ slot.claimed (h.claims.own w c e) h.claims;
          bounded = h.bounded;
        }))
]

-- What a slot's soundness depends on.
abbrev core : RunSlot → Map ClaimedSlot × ℕ × ℕ
core slot = (slot.claimed, slot.run.steps, slot.run.max_steps)

core-IsSound : (id : Str) (s t : RunSlot) → core t ≡ core s → IsSound id s → IsSound id t
core-IsSound id s t e h = record {
  claims = subst (IsOwn id) (sym (ap (λ c. c.0) e)) h.claims;
  bounded = rw (ap (λ c. c.1) e) (rw (ap (λ c. c.2) e) h.bounded);
}

commit_slot-IsSound :
    (id : Str) (d : Derivation) (c : ClaimedSlot) (slot : RunSlot)
    → leb slot.run.max_steps slot.run.steps ≡ false
    → IsSound id slot
    → IsSound id (commit_slot c d slot)
unfolding commit_slot
commit_slot-IsSound id d c slot left h = record {
  claims = remove-IsOwn id c.work.id slot.claimed h.claims;
  bounded = ground arith;
}

answer_slot-IsSound :
    (id : Str) (o : Option ArtifactRef) (slot : RunSlot)
    → IsSound id slot
    → IsSound id (answer_slot o slot)
unfolding answer_slot
answer_slot-IsSound id none slot h = h
answer_slot-IsSound id (some a) slot h = elim (Bool-cases (is_open_closure slot)) [
  | inl open_one ↦ rw open_one (record { claims = h.claims; bounded = h.bounded })
  | inr shut ↦ rw shut (record { claims = h.claims; bounded = h.bounded })
]

core-exhaust_slot : (slot : RunSlot) → core (exhaust_slot slot) ≡ core slot
unfolding exhaust_slot
core-exhaust_slot slot = ground arith

core-stall_committed :
    ⦃p : Platform⦄ (s : State) (slot : RunSlot) → core (stall_committed s slot) ≡ core slot
unfolding stall_committed stalled_slot
core-stall_committed s slot = ground arith

-- The close of a run after a commit, with a step left before it.
pub close_slot-IsSound :
    ⦃p : Platform⦄ (id : Str) (terminal : NodeOutput) (d : Derivation) (s : State) (c : ClaimedSlot)
    (slot : RunSlot)
    → leb slot.run.max_steps slot.run.steps ≡ false
    → IsSound id slot
    → IsSound id (close_slot terminal d s (commit_slot c d slot))
unfolding close_slot
close_slot-IsSound id terminal d s c slot left h =
    let answered =
      answer_slot-IsSound id (answer_of terminal d) _ (commit_slot-IsSound id d c slot left h) in
    core-IsSound id _ _ (core-stall_committed s _ ∙ core-exhaust_slot _) answered

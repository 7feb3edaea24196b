-- ===== src/Kernel/Sound/Commits.antt =====
-- The start of a run and the commit of work keep runs sound and closed runs as they are.
use srcport_substrate.Base.{◌≡◌, refl, ap, subst, true, false, leb, Option, none, some, Str, arith}
use srcport_substrate.Base.Int.{ℤ}
use srcport_substrate.Base.Map
use srcport_substrate.Proto.{RequestContext, RunRequest, Derivation, Assembly}
use srcport_substrate.Kernel.Platform.{Platform}
use srcport_substrate.Kernel.State
use srcport_substrate.Kernel.State.{
  State, RunSlot, ClaimedSlot, IdempotentResult, append_locked, idempotent_put,
}
use srcport_substrate.Kernel.Runs.{
  is_running, new_run, new_slot, log_run, start_fresh, start_unless_replayed, start_run_ctx,
}
use srcport_substrate.Kernel.Commit.{
  record_commit, commit_claimed, commit_fresh, commit_unless_replayed, commit_ctx,
}
use srcport_substrate.Kernel.Known.{Known, known-reply}
use srcport_substrate.Kernel.Sound.Slots.{IsSound, no-IsOwn, close_slot-IsSound}
use srcport_substrate.Kernel.Sound.Rules.{
  IsAllSound, Safe, Safe-trans, Safe-same, Safe-assume, Safe-slot, Safe-write, From, at-pure,
  at-gets, at-lift, at-ok_or, at-unwrap, at-refuse_if, at-modify, at-running, reap-lem,
  reap-running,
}

module _ ⦃p : Platform⦄ where
  new_slot-IsSound :
      (id : Str) (req : RunRequest) (a : Assembly) → IsSound id (new_slot req (new_run req a))
  unfolding new_slot new_run
  new_slot-IsSound id req a = record { claims = no-IsOwn id; bounded = omega arith }

  reply-Safe :
      (op : Str) (ctx : RequestContext) (v : IdempotentResult) (s : State)
      → Safe s (idempotent_put op ctx v s)
  reply-Safe op ctx v s = Safe-same _ _ (ap (λ (k : Known). k.runs) (known-reply op ctx v s))

  start_fresh-From :
      (req : RunRequest) (ctx : RequestContext) (s : State) → From (start_fresh req ctx) s
  unfolding start_fresh append_locked log_run new_run
  start_fresh-From req ctx s = at-refuse_if s _ _ _ (λ n. at-gets _ s _ (
      at-refuse_if s _ _ _ (λ known. at-ok_or _ s _ _ (λ requested r. at-lift _ s _ (λ assembly a.
        at-gets _ s _ (
          at-lift _ s _ (λ valid v. at-refuse_if s _ _ _ (λ m.
            at-modify s _ _
              (Safe-slot req.id _ s (λ all. new_slot-IsSound req.id req assembly)
                (λ old l. absurd (let e = Map.contains_key-none req.id s.runs known in cc)))
              (at-modify _ _ _ (Safe-same _ _ refl)
                (at-modify _ _ _ (reply-Safe _ ctx _ _) (at-pure _ _)))))))))))

  start_unless_replayed-From :
      (req : RunRequest) (ctx : RequestContext) (o : Option IdempotentResult) (s : State)
      → From (start_unless_replayed req ctx o) s
  unfolding start_unless_replayed
  start_unless_replayed-From req ctx none s = start_fresh-From req ctx s
  start_unless_replayed-From req ctx (some (State.run r)) s = at-pure r s
  start_unless_replayed-From req ctx (some (State.artifact_ref r)) s = start_fresh-From req ctx s

  pub start_run-From :
      (now : ℤ) (req : RunRequest) (ctx : RequestContext) (s : State)
      → From (start_run_ctx now req ctx) s
  unfolding start_run_ctx
  start_run-From now req ctx s =
      at-lift _ s _ (λ u e. at-gets _ s _ (start_unless_replayed-From req ctx _ s))

  record_commit-Safe :
      (id : Str) (old slot : RunSlot) (d : Derivation) (ctx : RequestContext) (s : State)
      → Map.lookup id s.runs ≡ some old
      → is_running old.run.state ≡ true
      → (IsSound id old → IsSound id slot)
      → Safe s (record_commit id slot d ctx s)
  unfolding record_commit append_locked log_run
  record_commit-Safe id old slot d ctx s e running h =
      Safe-trans s _ _ (Safe-write id old slot s e running h)
        (Safe-trans _ _ _ (Safe-same _ _ refl) (reply-Safe _ ctx _ _))

  commit_claimed-From :
      (submitted : Derivation) (ctx : RequestContext) (slot : RunSlot) (c : ClaimedSlot) (s : State)
      → Map.lookup submitted.run_id s.runs ≡ some slot
      → is_running slot.run.state ≡ true
      → c.work.run_id ≡ submitted.run_id
      → From (commit_claimed submitted ctx slot c) s
  unfolding commit_claimed
  commit_claimed-From submitted ctx slot c s e running own = at-refuse_if s _ _ _ (λ n.
      at-refuse_if s _ _ _ (λ left. at-gets _ s _ (
        at-lift _ s _ (λ cap k. at-gets _ s _ (
          at-lift _ s _ (λ valid v. at-gets _ s _ (
            at-unwrap _ s _ (λ slot' f. at-unwrap _ s _ (λ assembly a.
              at-unwrap _ s _ (λ terminal t. at-gets _ s _ (
                let same : slot ≡ slot' = ground (arith, e, f, own) in
                let running' =
                  subst (λ (x : RunSlot). is_running x.run.state ≡ true) same running in
                let left' =
                  subst (λ (x : RunSlot). leb x.run.max_steps x.run.steps ≡ false) same left in
                at-modify s _ _
                  (record_commit-Safe c.work.run_id slot' _ _ ctx s f running'
                    (close_slot-IsSound c.work.run_id terminal _ s c slot' left'))
                  (at-pure _ _))))))))))))

  at-assume : {A : Type 0} (m : State.M A) (s : State) → (IsAllSound s → From m s) → From m s
  at-assume m s h = record { at = Safe-assume s _ (λ a. (h a).at) }

  commit_fresh-From :
      (now : ℤ) (submitted : Derivation) (ctx : RequestContext) (s : State)
      → From (commit_fresh now submitted ctx) s
  unfolding commit_fresh
  commit_fresh-From now submitted ctx s = at-running s submitted.run_id _ (λ old e running.
      let id = submitted.run_id in
      at-modify s _ _ (reap-lem id now old s e running).0 (
        at-gets _ _ _ (
          at-unwrap _ _ _ (λ slot f. at-ok_or _ _ _ _ (λ c g. at-assume _ _ (λ all.
            commit_claimed-From submitted ctx slot c _ f
              (reap-running id now old slot s e running f)
              ((all.sound id slot f).claims.own submitted.work_id c g)))))))

  commit_unless_replayed-From :
      (now : ℤ) (d : Derivation) (ctx : RequestContext) (o : Option IdempotentResult) (s : State)
      → From (commit_unless_replayed now d ctx o) s
  unfolding commit_unless_replayed
  commit_unless_replayed-From now d ctx none s = commit_fresh-From now d ctx s
  commit_unless_replayed-From now d ctx (some (State.run r)) s = at-pure r s
  commit_unless_replayed-From now d ctx (some (State.artifact_ref r)) s =
      commit_fresh-From now d ctx s

  pub commit-From :
      (at now : ℤ) (d : Derivation) (ctx : RequestContext) (s : State)
      → From (commit_ctx at now d ctx) s
  unfolding commit_ctx
  commit-From at now d ctx s =
      at-lift _ s _ (λ u e. at-gets _ s _ (commit_unless_replayed-From now d ctx _ s))

-- ===== src/Framework/Host/Upholds/Drives.antt =====
-- Claim waves and the drive loops, for every relation that the calls and writes respect.
use srcport_substrate.Base.{
  ℕ, zero, suc, Bool, true, false, Option, none, some, List, [], ◌∷◌, Str, if◌then◌else◌,
}
use srcport_substrate.Proto.{ArtifactStorePolicy, NamedArtifact, WorkItem, Run}
use srcport_substrate.Kernel.Platform.{Platform}
use srcport_substrate.Framework.Error.{Result}
use srcport_substrate.Framework.Foreign.{Foreign}
use srcport_substrate.Framework.Outside.{Outside, Threads}
use srcport_substrate.Framework.Step.{StepOutput, StepContext}
use srcport_substrate.Framework.Policy.{DrivePlan, DriveAfter, until_idle_then_wait, never}
use srcport_substrate.Framework.Host.{Host, H}
use srcport_substrate.Framework.Host.Waves.{
  Deferred, finish_each, defer_or_commit, defer_all, join_threads, settle, settle_all,
  finish_work_units_parallel, finish_items, drive_claim_wave,
}
use srcport_substrate.Framework.Host.Drive.{
  if_progressed, last_run, round_with, drive_until_idle, one_wave, drive_one_pass, drive_loop,
  drive_with, drive, drive_after, inject,
}
use srcport_substrate.Framework.Host.SideTables.{finish_run_storage}
use srcport_substrate.Framework.Host.Upholds.Rules.{
  IsUpheld, Upholds, Upholds-pure, Upholds-bind, Upholds-if, uphold_rules,
}
use srcport_substrate.Framework.Host.Upholds.Sides.{get_run-R}
use srcport_substrate.Framework.Host.Upholds.Work.{
  find_plugin-R, load_step-R, try_memo_hit-R, emit_optional-R, emit_all-R, commit_memo_hit-R,
  end_step-R, finish_work_unit-R,
}

module _ ⦃f : Foreign⦄ ⦃o : Outside⦄ ⦃p : Platform⦄ {policy : ArtifactStorePolicy}
    {R : Host → Host → Type 0} (st : IsUpheld policy R) where
  finish_each-R :
      (run_id : Str) (items : List WorkItem) → Upholds R (finish_each policy run_id items)
  unfolding finish_each
  finish_each-R run_id [] = search (uphold_rules, st)
  finish_each-R run_id (work ∷ items) =
      Upholds-bind st _ _ (finish_work_unit-R st run_id work) (λ u. finish_each-R run_id items)

  defer_or_commit-R :
      (run_id : Str) (work : WorkItem) (hit : Option (Str × List NamedArtifact × Str))
      → Upholds R (defer_or_commit policy run_id work hit)
  unfolding defer_or_commit
  defer_or_commit-R run_id work none =
      search (uphold_rules, st, find_plugin-R, load_step-R) depth 20
  defer_or_commit-R run_id work (some (key, outputs, source)) =
      search (uphold_rules, st, load_step-R, commit_memo_hit-R) depth 20

  defer_all-R : (run_id : Str) (items : List WorkItem) → Upholds R (defer_all policy run_id items)
  unfolding defer_all
  defer_all-R run_id [] = search (uphold_rules, st)
  defer_all-R run_id (work ∷ items) =
      Upholds-bind st _ _ (try_memo_hit-R st run_id work.module_name work) (λ hit.
        Upholds-bind st _ _ (defer_or_commit-R run_id work hit)
          (λ first. Upholds-bind st _ _ (defer_all-R run_id items) (λ rest. Upholds-pure st _)))

  join-R :
      (ds : List Deferred) (returned : Option (ℕ → Result StepOutput × StepContext))
      → Upholds R (join_threads ds returned)
  unfolding join_threads
  join-R ds none = search (uphold_rules, st)
  join-R ds (some returned) = search (uphold_rules, st)

  settled-R :
      (run_id : Str) (d : Deferred) (result : Result StepOutput) (step : StepContext)
      → Upholds R (settle policy run_id d result step)
  unfolding settle
  settled-R run_id d result step =
      search (uphold_rules, st, emit_optional-R, emit_all-R, end_step-R, st.on_execute) depth 20

  settle_all-R :
      (run_id : Str) (done : List (Deferred × (Result StepOutput × StepContext)))
      → Upholds R (settle_all policy run_id done)
  unfolding settle_all
  settle_all-R run_id [] = search (uphold_rules, st)
  settle_all-R run_id ((d, (result, step)) ∷ rest) =
      Upholds-bind st _ _ (settled-R run_id d result step) (λ u. settle_all-R run_id rest)

  module _ ⦃t : Threads⦄ where
    parallel-R :
        (run_id : Str) (items : List WorkItem)
        → Upholds R (finish_work_units_parallel policy run_id items)
    unfolding finish_work_units_parallel
    parallel-R run_id items = search (uphold_rules, st, defer_all-R, join-R, settle_all-R) depth 20

    finish_items-R :
        (run_id : Str) (conc : ℕ) (items : List WorkItem)
        → Upholds R (finish_items policy run_id conc items)
    unfolding finish_items
    finish_items-R run_id conc [] = search (uphold_rules, st)
    finish_items-R run_id conc (work ∷ items) =
        search (uphold_rules, st, finish_each-R, parallel-R) depth 20

    wave-R : (run_id : Str) (b : Bool) → Upholds R (drive_claim_wave policy run_id b)
    unfolding drive_claim_wave
    wave-R run_id b = search (uphold_rules, st, finish_items-R) depth 20

    last_run-R : (run_id : Str) → Upholds R (last_run policy run_id)
    unfolding last_run
    last_run-R run_id = search (uphold_rules, st, get_run-R)

    if_progressed-R :
        {A : Type 0} (again stop : H A) (b : Bool)
        → Upholds R again
        → Upholds R stop
        → Upholds R (if_progressed policy again stop b)
    if_progressed-R again stop true k l = k
    if_progressed-R again stop false k l = l

    round-R :
        (again : H (Option Run)) (run_id : Str)
        → Upholds R again
        → Upholds R (round_with policy again run_id)
    unfolding round_with
    round-R again run_id k =
        Upholds-bind st _ _ (wave-R run_id false)
          (λ b. if_progressed-R again _ b k (last_run-R run_id))

    until_idle-R : (fuel : ℕ) (run_id : Str) → Upholds R (drive_until_idle policy fuel run_id)
    unfolding drive_until_idle
    until_idle-R zero run_id = search (uphold_rules, st)
    until_idle-R (suc fuel) run_id = Upholds-bind st _ _ (get_run-R st run_id) (λ run.
        Upholds-if st _ _ _ (round-R _ run_id (until_idle-R fuel run_id)) (Upholds-pure st _))

    one_wave-R : (run_id : Str) → Upholds R (one_wave policy run_id)
    unfolding one_wave
    one_wave-R run_id = search (uphold_rules, st, wave-R, last_run-R)

    one_pass-R : (run_id : Str) → Upholds R (drive_one_pass policy run_id)
    unfolding drive_one_pass
    one_pass-R run_id = search (uphold_rules, st, get_run-R, one_wave-R)

    loop-R :
        (fuel : ℕ) (run_id : Str) (plan : DrivePlan)
        → Upholds R (drive_loop policy fuel run_id plan)
    unfolding drive_loop
    loop-R fuel run_id DrivePlan.until_idle = until_idle-R fuel run_id
    loop-R fuel run_id DrivePlan.one_pass = one_pass-R run_id
    loop-R fuel run_id until_idle_then_wait = until_idle-R fuel run_id

    finished-R :
        (b : Bool) (run_id : Str) (h : Host) → R h (if b then finish_run_storage run_id h else h)
    finished-R true run_id h = st.on_finish run_id h
    finished-R false run_id h = st.refl_R h

    pub drive_with-R :
        (fuel : ℕ) (run_id : Str) (plan : DrivePlan)
        → Upholds R (drive_with policy fuel run_id plan)
    unfolding drive_with
    drive_with-R fuel run_id plan = search (uphold_rules, st, loop-R, finished-R)

    pub drive-R : (fuel : ℕ) (run_id : Str) → Upholds R (drive policy fuel run_id)
    unfolding drive
    drive-R fuel run_id = search (uphold_rules, st, drive_with-R)

    drive_after-R :
        (fuel : ℕ) (run_id : Str) (run : Run) (after : DriveAfter)
        → Upholds R (drive_after policy fuel run_id run after)
    unfolding drive_after
    drive_after-R fuel run_id run never = search (uphold_rules, st)
    drive_after-R fuel run_id run DriveAfter.until_idle =
        drive_with-R fuel run_id DrivePlan.until_idle
    drive_after-R fuel run_id run DriveAfter.one_pass = drive_with-R fuel run_id DrivePlan.one_pass

    pub inject-R :
        (fuel : ℕ) (run_id : Str) (input : NamedArtifact) (after : DriveAfter)
        → Upholds R (inject policy fuel run_id input after)
    unfolding inject
    inject-R fuel run_id input after = search (uphold_rules, st, drive_after-R) depth 20

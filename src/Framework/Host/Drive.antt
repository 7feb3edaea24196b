-- ===== src/Framework/Host/Drive.antt =====
-- The drive loops of `Host`, and `inject`.
use srcport_substrate.Base.{
  ℕ, zero, suc, Bool, true, false, not, Option, none, some, Str, if◌then◌else◌,
}
use srcport_substrate.Base.Map
use srcport_substrate.Proto.{ArtifactStorePolicy, NamedArtifact, Run}
use srcport_substrate.Kernel.Platform.{Platform}
use srcport_substrate.Kernel.Runs.{is_running}
use srcport_substrate.Kernel.Runs
use srcport_substrate.Framework.Foreign.{Foreign}
use srcport_substrate.Framework.Outside.{Outside, Threads}
use srcport_substrate.Framework.Policy.{
  DrivePlan, until_idle_then_wait, DriveAfter, never, FrameworkPolicy, effective_drive,
}
use srcport_substrate.Framework.Host.{H, pure, gets, modify, ◌>>=◌, ◌>>◌, ask, kernel_call, get_run}
use srcport_substrate.Framework.Host.SideTables.{finish_run_storage}
use srcport_substrate.Framework.Host.Waves.{drive_claim_wave}

-- The plan of `drive`.
abbrev pub plan_of : Option FrameworkPolicy → DrivePlan
unfolding effective_drive
plan_of none = DrivePlan.until_idle
plan_of (some policy) = effective_drive policy

-- A run that has left the running state.
abbrev pub has_stopped : Option Run → Bool
has_stopped none = false
has_stopped (some run) = not (is_running run.state)

module _ ⦃f : Foreign⦄ ⦃o : Outside⦄ ⦃p : Platform⦄ ⦃t : Threads⦄
    (policy : ArtifactStorePolicy) where
  -- What follows a round of the loop.
  abbrev pub if_progressed : {A : Type 0} → H A → H A → Bool → H A
  if_progressed again stop true = again
  if_progressed again stop false = stop

  unfoldable pub last_run : Str → H (Option Run)
  unfolding get_run
  last_run run_id = do run ← get_run run_id; pure (some run)

  -- One round of the loop, before what follows it.
  unfoldable pub round_with : H (Option Run) → Str → H (Option Run)
  unfolding drive_claim_wave last_run
  round_with again run_id = do
    progressed ← drive_claim_wave policy run_id false
    if_progressed again (last_run run_id) progressed

  -- `none` is a loop that has used up its fuel.
  unfoldable pub drive_until_idle : ℕ → Str → H (Option Run)
  unfolding round_with
  drive_until_idle zero run_id = pure none
  drive_until_idle (suc fuel) run_id = do
    run ← get_run run_id
    let again = drive_until_idle fuel run_id
    if is_running run.state then round_with again run_id else pure (some run)

  unfoldable pub one_wave : Str → H (Option Run)
  unfolding drive_claim_wave last_run
  one_wave run_id = do progressed ← drive_claim_wave policy run_id true; last_run run_id

  unfoldable pub drive_one_pass : Str → H (Option Run)
  unfolding one_wave
  drive_one_pass run_id = do
    run ← get_run run_id
    if is_running run.state then one_wave run_id else pure (some run)

  unfoldable pub drive_loop : ℕ → Str → DrivePlan → H (Option Run)
  unfolding drive_until_idle drive_one_pass
  drive_loop fuel run_id DrivePlan.until_idle = drive_until_idle fuel run_id
  drive_loop fuel run_id DrivePlan.one_pass = drive_one_pass run_id
  drive_loop fuel run_id until_idle_then_wait = drive_until_idle fuel run_id

  unfoldable pub drive_with : ℕ → Str → DrivePlan → H (Option Run)
  unfolding drive_loop finish_run_storage
  drive_with fuel run_id plan = do
    run ← drive_loop fuel run_id plan
    modify (λ h. if has_stopped run then finish_run_storage run_id h else h)
    pure run

  unfoldable pub drive : ℕ → Str → H (Option Run)
  unfolding drive_with
  drive fuel run_id = do
    plan ← gets (λ h. plan_of (Map.lookup run_id h.run_policies))
    drive_with fuel run_id plan

  unfoldable pub drive_after : ℕ → Str → Run → DriveAfter → H (Option Run)
  unfolding drive_with
  drive_after fuel run_id run never = pure (some run)
  drive_after fuel run_id run DriveAfter.until_idle = drive_with fuel run_id DrivePlan.until_idle
  drive_after fuel run_id run DriveAfter.one_pass = drive_with fuel run_id DrivePlan.one_pass

  unfoldable pub inject : ℕ → Str → NamedArtifact → DriveAfter → H (Option Run)
  unfolding drive_after
  inject fuel run_id input after = do
    now ← ask o.now
    ctx ← gets (λ h. h.ctx)
    run ←
        kernel_call (Runs.inject_input_ctx now (record { run_id = run_id; input = some input }) ctx)
    drive_after fuel run_id run after

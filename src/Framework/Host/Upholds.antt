-- ===== src/Framework/Host/Upholds.antt =====
-- Every method of the host respects every relation that its single calls and writes respect.
pub mod Rules
pub mod Sides
mod Work
pub mod Starts
mod Drives
use srcport_substrate.Base.{List, [], ◌∷◌}
use srcport_substrate.Proto.{ArtifactStorePolicy}
use srcport_substrate.Kernel.Platform.{Platform}
use srcport_substrate.Framework.Foreign.{Foreign}
use srcport_substrate.Framework.Outside.{Outside, Threads}
use srcport_substrate.Framework.Host.{Host, take_step_events}
use srcport_substrate.Framework.Host.Calls.{HostCall, host_after, host_serve}
use Rules.{IsWholly}
use Sides.{get_run-R}
use Work.{try_step-R}
use Starts.{start_pipeline-R, resume_after-R, start_run-R, cancel-R}
use Drives.{drive_with-R, drive-R, inject-R}

module _ ⦃f : Foreign⦄ ⦃o : Outside⦄ ⦃p : Platform⦄ ⦃t : Threads⦄ {policy : ArtifactStorePolicy}
    {R : Host → Host → Type 0} (all : IsWholly policy R) where
  open all use {upheld}

  host_after-R : (c : HostCall) (h : Host) → R h (host_after policy c h)
  unfolding host_after take_step_events
  host_after-R (HostCall.register_plugin plugin) h = (all.on_plugin plugin).at h
  host_after-R HostCall.take_step_events h = upheld.on_events [] h
  host_after-R (HostCall.start_run req) h = (start_run-R upheld req).at h
  host_after-R (HostCall.start_pipeline run_id a inputs plan) h =
      (start_pipeline-R all run_id a inputs plan).at h
  host_after-R (HostCall.resume_after run_id prior node plan) h =
      (resume_after-R all run_id prior node plan).at h
  host_after-R (HostCall.get_run run_id) h = (get_run-R upheld run_id).at h
  host_after-R (HostCall.inject fuel run_id input next) h =
      (inject-R upheld fuel run_id input next).at h
  host_after-R (HostCall.cancel run_id) h = (cancel-R upheld run_id).at h
  host_after-R (HostCall.drive fuel run_id) h = (drive-R upheld fuel run_id).at h
  host_after-R (HostCall.drive_with fuel run_id plan) h =
      (drive_with-R upheld fuel run_id plan).at h
  host_after-R (HostCall.try_step run_id m) h = (try_step-R upheld run_id m).at h

  pub host_serve-R : (cs : List HostCall) (h : Host) → R h (host_serve policy cs h)
  unfolding host_serve
  host_serve-R [] h = upheld.refl_R h
  host_serve-R (c ∷ cs) h = upheld.trans_R h _ _ (host_after-R c h) (host_serve-R cs _)

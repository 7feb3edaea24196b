-- ===== src/Framework/Host/Calls.antt =====
-- The methods of `Host` that a program calls once the host is built, and the host as a machine that
-- performs them.
use srcport_substrate.Base.{ℕ, List, Str}
use srcport_substrate.Proto.{ArtifactStorePolicy, NamedArtifact, Assembly, RunRequest}
use srcport_substrate.Kernel.Platform.{Platform}
use srcport_substrate.Framework.Foreign.{Foreign}
use srcport_substrate.Framework.Outside.{Outside, ModulePlugin, Threads}
use srcport_substrate.Framework.Policy.{DrivePlan, DriveAfter, FrameworkPolicy}
use srcport_substrate.Framework.Host
use srcport_substrate.Framework.Host.{Host}
use srcport_substrate.Framework.Host.Start
use srcport_substrate.Framework.Host.Steps.Finish
use srcport_substrate.Framework.Host.Drive

module _ ⦃f : Foreign⦄ ⦃o : Outside⦄ where
  -- A drive loop carries its fuel.
  pub data HostCall : Type 0 where
    register_plugin : ModulePlugin → HostCall
    take_step_events : HostCall
    start_run : RunRequest → HostCall
    start_pipeline : Str → Assembly → List NamedArtifact → FrameworkPolicy → HostCall
    resume_after : Str → Str → Str → FrameworkPolicy → HostCall
    get_run : Str → HostCall
    inject : ℕ → Str → NamedArtifact → DriveAfter → HostCall
    cancel : Str → HostCall
    drive : ℕ → Str → HostCall
    drive_with : ℕ → Str → DrivePlan → HostCall
    try_step : Str → Str → HostCall

  module _ ⦃p : Platform⦄ ⦃t : Threads⦄ (policy : ArtifactStorePolicy) where
    -- The host that a call leaves, whatever it returns.
    unfoldable pub host_after : HostCall → Host → Host
    host_after (register_plugin plugin) h = (Host.register_plugin policy plugin h).1
    host_after take_step_events h = (Host.take_step_events h).1
    host_after (start_run req) h = (Start.start_run policy req h).1
    host_after (start_pipeline run_id assembly inputs plan) h =
        (Start.start_pipeline policy run_id assembly inputs plan h).1
    host_after (resume_after run_id prior after_node plan) h =
        (Start.resume_after policy run_id prior after_node plan h).1
    host_after (get_run run_id) h = (Host.get_run run_id h).1
    host_after (inject fuel run_id input after) h =
        (Drive.inject policy fuel run_id input after h).1
    host_after (cancel run_id) h = (Start.cancel policy run_id h).1
    host_after (drive fuel run_id) h = (Drive.drive policy fuel run_id h).1
    host_after (drive_with fuel run_id plan) h = (Drive.drive_with policy fuel run_id plan h).1
    host_after (try_step run_id module_name) h = (Finish.try_step policy run_id module_name h).1

    unfoldable pub host_serve : List HostCall → Host → Host
    unfolding host_after
    host_serve List.[] h = h
    host_serve (List.◌∷◌ c cs) h = host_serve cs (host_after c h)

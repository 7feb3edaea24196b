-- ===== src/Framework/Host/Upholds/Starts.antt =====
-- The start and the end of runs, for every relation that the calls and writes respect.
use srcport_substrate.Base.{List, [], ◌∷◌, Str}
use srcport_substrate.Base.Map.{Map}
use srcport_substrate.Proto.{ArtifactStorePolicy, NamedArtifact, Assembly, RunRequest}
use srcport_substrate.Kernel.Platform.{Platform}
use srcport_substrate.Framework.Foreign.{Foreign}
use srcport_substrate.Framework.Outside.{Outside}
use srcport_substrate.Framework.Policy.{FrameworkPolicy}
use srcport_substrate.Framework.Cut.{AssemblyCut, SkippedNode}
use srcport_substrate.Framework.Host.{Host}
use srcport_substrate.Framework.Host.Start.{
  emit_skips, emit_skip_events, check_start, begin_cut, start_cut, start_pipeline, resume_after,
  start_run, cancel,
}
use srcport_substrate.Framework.Host.Upholds.Rules.{
  IsUpheld, IsWholly, Upholds, Upholds-bind, uphold_rules,
}
use srcport_substrate.Framework.Host.Upholds.Sides.{
  ensure_run_storage-R, get_run-R, emit_presentation-R,
}

module _ ⦃f : Foreign⦄ ⦃o : Outside⦄ ⦃p : Platform⦄ {policy : ArtifactStorePolicy}
    {R : Host → Host → Type 0} (st : IsUpheld policy R) where
  emit_skips-R :
      (run_id : Str) (cut : AssemblyCut) (skipped : List SkippedNode)
      → Upholds R (emit_skips policy run_id cut skipped)
  unfolding emit_skips
  emit_skips-R run_id cut [] = search (uphold_rules, st)
  emit_skips-R run_id cut (s ∷ skipped) =
      Upholds-bind st _ _ (emit_presentation-R st s.module_name _)
        (λ u. emit_skips-R run_id cut skipped)

  skip_events-R :
      (run_id : Str) (cut : AssemblyCut) → Upholds R (emit_skip_events policy run_id cut)
  unfolding emit_skip_events
  skip_events-R run_id cut = emit_skips-R run_id cut cut.skipped

  check_start-R :
      (run_id : Str) (plan : FrameworkPolicy) → Upholds R (check_start policy run_id plan)
  unfolding check_start
  check_start-R run_id plan = search (uphold_rules, st) depth 30

  -- For a relation that says nothing of the policies.
  pub begin_cut-R :
      ((m : Map FrameworkPolicy) (h : Host) → R h (record h { run_policies = m }))
      → (run_id : Str) (cut : AssemblyCut) (inputs : List NamedArtifact) (plan : FrameworkPolicy)
      → Upholds R (begin_cut policy run_id cut inputs plan)
  unfolding begin_cut
  begin_cut-R on_policies run_id cut inputs plan =
      search (uphold_rules, st, ensure_run_storage-R, on_policies) depth 20

  pub start_run-R : (req : RunRequest) → Upholds R (start_run policy req)
  unfolding start_run
  start_run-R req = search (uphold_rules, st) depth 12

  pub cancel-R : (run_id : Str) → Upholds R (cancel policy run_id)
  unfolding cancel
  cancel-R run_id = search (uphold_rules, st, st.on_finish) depth 20

module _ ⦃f : Foreign⦄ ⦃o : Outside⦄ ⦃p : Platform⦄ {policy : ArtifactStorePolicy}
    {R : Host → Host → Type 0} (all : IsWholly policy R) where
  start_cut-R :
      (run_id : Str) (cut : AssemblyCut) (inputs : List NamedArtifact) (plan : FrameworkPolicy)
      → Upholds R (start_cut policy run_id cut inputs plan)
  unfolding start_cut
  start_cut-R run_id cut inputs plan =
      search (uphold_rules, all.upheld, skip_events-R, all.on_begin)

  pub start_pipeline-R :
      (run_id : Str) (assembly : Assembly) (inputs : List NamedArtifact) (plan : FrameworkPolicy)
      → Upholds R (start_pipeline policy run_id assembly inputs plan)
  unfolding start_pipeline
  start_pipeline-R run_id assembly inputs plan =
      search (uphold_rules, all.upheld, check_start-R, start_cut-R) depth 30

  pub resume_after-R :
      (run_id prior after_node : Str) (plan : FrameworkPolicy)
      → Upholds R (resume_after policy run_id prior after_node plan)
  unfolding resume_after
  resume_after-R run_id prior after_node plan =
      search (uphold_rules, all.upheld, get_run-R, start_pipeline-R) depth 40

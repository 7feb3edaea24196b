-- ===== src/Framework/Host/Upholds/Work.antt =====
-- The steps of a run, for every relation that the calls and
-- writes respect.
use srcport_substrate.Base.{
  ◌≡◌, refl, Bool, false, Option, none, some, List, [], ◌∷◌, Str, Option-cases, inl, inr,
  if◌then◌else◌,
}
use srcport_substrate.Base.Map.{Map}
use srcport_substrate.Proto.{Artifact, ArtifactRef, ArtifactStorePolicy, NamedArtifact, WorkItem}
use srcport_substrate.Kernel.Platform.{Platform}
use srcport_substrate.Framework.Error.{FrameworkError, Result, ok, err, panic}
use srcport_substrate.Framework.Foreign.{Foreign}
use srcport_substrate.Framework.Outside.{Outside, ModulePlugin}
use srcport_substrate.Framework.Presentation.{Presentation}
use srcport_substrate.Framework.Step.{PortBody, StepOutput, StepContext}
use srcport_substrate.Framework.Memo
use srcport_substrate.Framework.Memo.{MemoRecord}
use srcport_substrate.Framework.Host.{Host, H, pure, ◌>>=◌}
use srcport_substrate.Framework.Host.Steps.{
  find_plugin, ask_digest, cache_digest, exists_after, succeeds, fetch, load_inputs, load_step,
  all_there, hit_of, look_up, hit_with, try_memo_hit, put_record, store_with,
  store_memo_after_success,
}
use srcport_substrate.Framework.Host.Steps.Finish.{
  emit_optional, emit_all, put_output, put_outputs, commit_outputs, commit_step_success, release,
  fail_step, commit_memo_hit, end_step, execute_step, end_unit, finish_work_unit, first_unit,
  try_step,
}
use srcport_substrate.Framework.Host.Upholds.Rules.{
  IsUpheld, Upholds, Upholds-pure, Upholds-bind, Upholds-if, uphold_rules,
}
use srcport_substrate.Framework.Host.Upholds.Sides.{apply_step_storage-R, emit_presentation-R}

module _ ⦃f : Foreign⦄ ⦃o : Outside⦄ ⦃p : Platform⦄ {policy : ArtifactStorePolicy}
    {R : Host → Host → Type 0} (st : IsUpheld policy R) where
  pub find_plugin-R : (m : Str) → Upholds R (find_plugin m)
  unfolding find_plugin
  find_plugin-R m = search (uphold_rules, st)

  ask_digest-R : (plugin : Option ModulePlugin) → Upholds R (ask_digest plugin)
  unfolding ask_digest
  ask_digest-R none = search (uphold_rules, st)
  ask_digest-R (some plugin) = search (uphold_rules, st)

  cache_digest-R : (run_id m node : Str) → Upholds R (cache_digest run_id m node)
  unfolding cache_digest
  cache_digest-R run_id m node = search (uphold_rules, st, ask_digest-R) depth 20

  exists_after-same : {A : Type 0} (r : Result A) (h : Host) → (exists_after r h).1 ≡ h
  unfolding exists_after
  exists_after-same (ok a) h = refl
  exists_after-same (err e) h = refl
  exists_after-same panic h = refl

  succeeds-R : {A : Type 0} (m : H A) → Upholds R m → Upholds R (succeeds m)
  unfolding succeeds
  succeeds-R m k = record { at = λ h. rw (exists_after-same (m h).0 (m h).1) (k.at h) }

  fetch-R : (r : ArtifactRef) → Upholds R (fetch r)
  unfolding fetch
  fetch-R r = search (uphold_rules, st) depth 12

  load_inputs-R :
      (nas : List NamedArtifact) (inputs : Map Artifact) → Upholds R (load_inputs nas inputs)
  unfolding load_inputs
  load_inputs-R [] inputs = search (uphold_rules, st)
  load_inputs-R (na ∷ nas) inputs = elim (Option-cases na.artifact) [
    | inl absent ↦ rw absent (load_inputs-R nas inputs)
    | inr (r, e) ↦ rw e (Upholds-bind st _ _ (fetch-R r) (λ art. load_inputs-R nas _))
  ]

  pub load_step-R : (run_id : Str) (work : WorkItem) → Upholds R (load_step run_id work)
  unfolding load_step
  load_step-R run_id work = search (uphold_rules, st, load_inputs-R)

  if_there-R :
      (r : ArtifactRef) (rest : H Bool)
      → Upholds R rest
      → Upholds R (do there ← succeeds (fetch r); if there then rest else pure false)
  if_there-R r rest k =
      Upholds-bind st _ _ (succeeds-R _ (fetch-R r))
        (λ there. Upholds-if st there _ _ k (Upholds-pure st false))

  all_there-R : (nas : List NamedArtifact) → Upholds R (all_there nas)
  unfolding all_there
  all_there-R [] = search (uphold_rules, st)
  all_there-R (na ∷ nas) = elim (Option-cases na.artifact) [
    | inl absent ↦ rw absent (search (uphold_rules, st))
    | inr (r, e) ↦ rw e (if_there-R r _ (all_there-R nas))
  ]

  hit_of-R : (key : Str) (r : MemoRecord) → Upholds R (hit_of key r)
  unfolding hit_of
  hit_of-R key r = search (uphold_rules, st, all_there-R)

  look_up-R : (key : Str) (store : Option Memo.Store) → Upholds R (look_up key store)
  unfolding look_up
  look_up-R key none = search (uphold_rules, st)
  look_up-R key (some store) = elim (Option-cases (Memo.get key store)) [
    | inl absent ↦ rw (absent, look_up) (search (uphold_rules, st))
    | inr (r, e) ↦ rw (e, look_up) (hit_of-R key r)
  ]

  hit_with-R :
      (m : Str) (work : WorkItem) (digest : Option Str) → Upholds R (hit_with m work digest)
  unfolding hit_with
  hit_with-R m work none = search (uphold_rules, st)
  hit_with-R m work (some digest) = search (uphold_rules, st, look_up-R)

  pub try_memo_hit-R : (run_id m : Str) (work : WorkItem) → Upholds R (try_memo_hit run_id m work)
  unfolding try_memo_hit
  try_memo_hit-R run_id m work = search (uphold_rules, st, cache_digest-R, hit_with-R)

  put_record-R :
      (store : Option Memo.Store) (r : MemoRecord) (h : Host) → R h (put_record store r h)
  unfolding put_record
  put_record-R none r h = st.refl_R h
  put_record-R (some store) r h = st.on_memo _ h

  store_with-R :
      (run_id m : Str) (work : WorkItem) (outputs : List NamedArtifact) (digest : Option Str)
      → Upholds R (store_with run_id m work outputs digest)
  unfolding store_with
  store_with-R run_id m work outputs none = search (uphold_rules, st)
  store_with-R run_id m work outputs (some digest) = search (uphold_rules, st, put_record-R)

  store_memo-R :
      (run_id m : Str) (work : WorkItem) (outputs : List NamedArtifact)
      → Upholds R (store_memo_after_success run_id m work outputs)
  unfolding store_memo_after_success
  store_memo-R run_id m work outputs = search (uphold_rules, st, cache_digest-R, store_with-R)

  pub emit_optional-R :
      (m : Str) (view : Option Presentation) → Upholds R (emit_optional policy m view)
  unfolding emit_optional
  emit_optional-R m none = search (uphold_rules, st)
  emit_optional-R m (some view) = search (emit_presentation-R)

  pub emit_all-R : (m : Str) (views : List Presentation) → Upholds R (emit_all policy m views)
  unfolding emit_all
  emit_all-R m [] = search (uphold_rules, st)
  emit_all-R m (view ∷ views) =
      Upholds-bind st _ _ (emit_presentation-R st m view) (λ u. emit_all-R m views)

  put_output-R : (m : Str) (out : PortBody) → Upholds R (put_output policy m out)
  unfolding put_output
  put_output-R m out = search (uphold_rules, st) depth 12

  put_outputs-R : (m : Str) (outs : List PortBody) → Upholds R (put_outputs policy m outs)
  unfolding put_outputs
  put_outputs-R m [] = search (uphold_rules, st)
  put_outputs-R m (out ∷ outs) =
      Upholds-bind st _ _ (put_output-R m out)
        (λ r. Upholds-bind st _ _ (put_outputs-R m outs) (λ rest. Upholds-pure st _))

  commit_outputs-R :
      (run_id : Str) (work : WorkItem) (outputs : List NamedArtifact)
      → Upholds R (commit_outputs policy run_id work outputs)
  unfolding commit_outputs
  commit_outputs-R run_id work outputs = search (uphold_rules, st) depth 20

  release-R :
      (run_id : Str) (work : WorkItem) (message : Str)
      → Upholds R (release policy run_id work message)
  unfolding release
  release-R run_id work message = search (uphold_rules, st) depth 20

ruleset work_rules = (
  find_plugin-R, load_step-R, try_memo_hit-R, store_memo-R, emit_optional-R, emit_all-R,
  emit_presentation-R, put_outputs-R, commit_outputs-R, release-R, succeeds-R, apply_step_storage-R,
)

module _ ⦃f : Foreign⦄ ⦃o : Outside⦄ ⦃p : Platform⦄ {policy : ArtifactStorePolicy}
    {R : Host → Host → Type 0} (st : IsUpheld policy R) where
  commit_step-R :
      (run_id m : Str) (work : WorkItem) (step : StepContext) (output : StepOutput)
      → Upholds R (commit_step_success policy run_id m work step output)
  unfolding commit_step_success
  commit_step-R run_id m work step output = search (uphold_rules, st, work_rules) depth 30

  fail_step-R :
      (run_id m : Str) (work : WorkItem) (step : StepContext) (e : FrameworkError)
      → Upholds R (fail_step policy run_id m work step e)
  unfolding fail_step
  fail_step-R run_id m work step e = search (uphold_rules, st, work_rules) depth 30

  pub commit_memo_hit-R :
      (run_id m : Str) (work : WorkItem) (step : StepContext) (key : Str)
      (outputs : List NamedArtifact) (source : Str)
      → Upholds R (commit_memo_hit policy run_id m work step key outputs source)
  unfolding commit_memo_hit
  commit_memo_hit-R run_id m work step key outputs source =
      search (uphold_rules, st, work_rules, st.on_hit) depth 30

  pub end_step-R :
      (run_id m : Str) (work : WorkItem) (step : StepContext) (r : Result StepOutput)
      → Upholds R (end_step policy run_id m work step r)
  unfolding end_step
  end_step-R run_id m work step (ok output) = commit_step-R run_id m work step output
  end_step-R run_id m work step (err e) = fail_step-R run_id m work step e
  end_step-R run_id m work step panic = search (uphold_rules, st)

  execute_step-R :
      (run_id : Str) (work : WorkItem) (step : StepContext)
      → Upholds R (execute_step policy run_id work step)
  unfolding execute_step
  execute_step-R run_id work step =
      search (uphold_rules, st, work_rules, end_step-R, st.on_execute) depth 40

  end_unit-R :
      (run_id : Str) (work : WorkItem) (step : StepContext)
      (hit : Option (Str × List NamedArtifact × Str))
      → Upholds R (end_unit policy run_id work step hit)
  unfolding end_unit
  end_unit-R run_id work step none = execute_step-R run_id work step
  end_unit-R run_id work step (some (key, outputs, source)) =
      commit_memo_hit-R run_id work.module_name work step key outputs source

  pub finish_work_unit-R :
      (run_id : Str) (work : WorkItem) → Upholds R (finish_work_unit policy run_id work)
  unfolding finish_work_unit
  finish_work_unit-R run_id work = search (uphold_rules, st, work_rules, end_unit-R)

  first_unit-R : (run_id : Str) (items : List WorkItem) → Upholds R (first_unit policy run_id items)
  unfolding first_unit
  first_unit-R run_id [] = search (uphold_rules, st)
  first_unit-R run_id (work ∷ rest) = search (uphold_rules, st, finish_work_unit-R)

  pub try_step-R : (run_id m : Str) → Upholds R (try_step policy run_id m)
  unfolding try_step
  try_step-R run_id m = search (uphold_rules, st, first_unit-R) depth 20

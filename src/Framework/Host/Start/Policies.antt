-- ===== src/Framework/Host/Start/Policies.antt =====
-- What a started pipeline has passed.
use srcport_substrate.Base.{◌≡◌, refl, sym, ap, ◌∙◌, true, false, some, List, Str, eq_refl, all}
use srcport_substrate.Base.Map
use srcport_substrate.Proto.{Assembly, NamedArtifact, ArtifactStorePolicy, Run}
use srcport_substrate.Kernel.Platform.{Platform}
use srcport_substrate.Framework.Error.{Result, ok, err, panic, refuse_if-ok, ok_inj}
use srcport_substrate.Framework.Foreign.{Foreign}
use srcport_substrate.Framework.Outside.{Outside}
use srcport_substrate.Framework.Policy.{FrameworkPolicy}
use srcport_substrate.Framework.Cut.{AssemblyCut, materialize_cut}
use srcport_substrate.Framework.Seeds.{validate_seeds_present}
use srcport_substrate.Framework.Seeds.Present.{is_provided, validate_seeds_present_iff}
use srcport_substrate.Framework.Host.{Host, H, pure, lift, gets, modify, refuse_if, continue, ◌>>=◌}
use srcport_substrate.Framework.Host.Start.{check_start, begin_cut, start_cut, start_pipeline}

module _ ⦃f : Foreign⦄ ⦃o : Outside⦄ where
  Done : {A : Type 0} → H A → Host → A → Host → Type 0
  Done m h a h' = m h ≡ (ok a, h')

  continue_lem :
      {A B : Type 0} (r : Result A) (next : A → H B) (mid h' : Host) (b : B)
      → continue r next mid ≡ (ok b, h')
      → (a : A) × (r ≡ ok a) × Done (next a) mid b h'
  unfolding Done
  continue_lem (ok a) next mid h' b e = (a, refl, e)
  continue_lem (err x) next mid h' b e = absurd (let q = ap (λ r. r.0) e in cc)
  continue_lem panic next mid h' b e = absurd (let q = ap (λ r. r.0) e in cc)

  -- Inversion of a chain of actions that succeeds.
  bind_lem :
      {A B : Type 0} (m : H A) (next : A → H B) (h h' : Host) (b : B)
      → Done (m >>= next) h b h'
      → (a : A) × (mid : Host) × Done m h a mid × Done (next a) mid b h'
  unfolding ◌>>=◌ Done
  bind_lem m next h h' b e =
      let c = continue_lem (m h).0 next (m h).1 h' b e in
      (c.0, (m h).1, ap (λ r. (r, (m h).1)) c.1, c.2)

  module _ ⦃p : Platform⦄ (policy : ArtifactStorePolicy) where
    check_start_lem :
        (run_id : Str) (plan : FrameworkPolicy) (h h' : Host)
        → Done (check_start policy run_id plan) h tt h'
        → Map.contains_key run_id h.run_policies ≡ false
    unfolding check_start Done refuse_if gets
    check_start_lem run_id plan h h' e =
        let a = bind_lem _ _ h h' tt e in
        let b = bind_lem _ _ a.1 h' tt a.3 in
        let c = bind_lem _ _ b.1 h' tt b.3 in
        let d = bind_lem _ _ c.1 h' tt c.3 in
        let same : h ≡ b.1 = ap (λ r. r.1) a.2 ∙ ap (λ r. r.1) b.2 in
        let known = refuse_if-ok _ _ (ap (λ r. r.0) d.2) in
        ap (λ (x : Host). Map.contains_key run_id x.run_policies) same
        ∙ ok_inj (ap (λ r. r.0) c.2)
        ∙ known

    start_cut_lem :
        (run_id : Str) (cut : AssemblyCut) (inputs : List NamedArtifact) (plan : FrameworkPolicy)
        (h h' : Host) (run : Run)
        → Done (start_cut policy run_id cut inputs plan) h run h'
        → Map.lookup run_id h'.run_policies ≡ some plan
    unfolding start_cut begin_cut Done modify pure
    start_cut_lem run_id cut inputs plan h h' run e =
        let a = bind_lem _ _ h h' run e in
        let b = bind_lem _ _ a.1 h' run a.3 in
        let c = bind_lem _ _ b.1 h' run b.3 in
        let d = bind_lem _ _ c.1 h' run c.3 in
        let g = bind_lem _ _ d.1 h' run d.3 in
        let i = bind_lem _ _ g.1 h' run g.3 in
        let after = ap (λ r. r.1.run_policies) i.2 ∙ ap (λ r. r.1.run_policies) i.3 in
        ap (Map.lookup run_id) (sym after)
        ∙ Map.lookup-insert run_id run_id plan g.1.run_policies
        ∙ rw eq_refl refl

    -- A pipeline starts only when the host has no policy for its run and the plan's cut of the
    -- assembly has all its seeds among the inputs, each with an artifact. The host then has the
    -- plan as the policy of the run.
    pub start_pipeline_lem :
        (run_id : Str) (assembly : Assembly) (inputs : List NamedArtifact) (plan : FrameworkPolicy)
        (h h' : Host) (run : Run)
        → start_pipeline policy run_id assembly inputs plan h ≡ (ok run, h')
        → (cut : AssemblyCut) × (materialize_cut assembly plan.nodes ≡ ok cut)
          × (all (is_provided inputs) cut.required_seeds ≡ true)
          × (Map.contains_key run_id h.run_policies ≡ false)
          × (Map.lookup run_id h'.run_policies ≡ some plan)
    unfolding start_pipeline Done lift
    start_pipeline_lem run_id assembly inputs plan h h' run e =
        let checked = bind_lem _ _ h h' run e in
        let cut = bind_lem _ _ checked.1 h' run checked.3 in
        let seeds = bind_lem _ _ cut.1 h' run cut.3 in
        let made : materialize_cut assembly plan.nodes ≡ ok cut.0 = ap (λ r. r.0) cut.2 in
        let found : validate_seeds_present cut.0 inputs ≡ ok tt = ap (λ r. r.0) seeds.2 in
        (
          cut.0,
          made,
          (validate_seeds_present_iff cut.0 inputs).0 found,
          check_start_lem run_id plan h checked.1 checked.2,
          start_cut_lem run_id cut.0 inputs plan seeds.1 h' run seeds.3,
        )

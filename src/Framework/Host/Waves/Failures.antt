-- ===== src/Framework/Host/Waves/Failures.antt =====
-- What a failed step leaves of the steps behind it.
use srcport_substrate.Base.{◌≡◌, refl, List, ◌∷◌, Str}
use srcport_substrate.Proto.{ArtifactStorePolicy, WorkItem}
use srcport_substrate.Kernel.Platform.{Platform}
use srcport_substrate.Framework.Error.{FrameworkError, Result, ok, err, panic}
use srcport_substrate.Framework.Foreign.{Foreign}
use srcport_substrate.Framework.Outside.{Outside}
use srcport_substrate.Framework.Step.{StepOutput, StepContext}
use srcport_substrate.Framework.Host.{Host, H, lift, ◌>>=◌}
use srcport_substrate.Framework.Host.Steps.Finish.{fail_step, end_step}
use srcport_substrate.Framework.Host.Waves.{Deferred, settle, settle_all}

module _ ⦃f : Foreign⦄ ⦃o : Outside⦄ where
  -- Whatever follows the action is not reached.
  record IsFinal {A : Type 0} (m : H A) : Type 0 where
    drops : (next other : A → H (Unit {0})) (h : Host) → (m >>= next) h ≡ (m >>= other) h

  IsFinal-err : {A : Type 0} (e : FrameworkError) → IsFinal (lift {A = A} (err e))
  unfolding ◌>>=◌
  IsFinal-err e = record { drops = λ next other h. refl }

  IsFinal-run :
      {A B : Type 0} (r : Result A) (next : A → H B)
      → ((a : A) → IsFinal (next a))
      → (then other : B → H (Unit {0})) (h : Host)
      → (lift r >>= next >>= then) h ≡ (lift r >>= next >>= other) h
  unfolding ◌>>=◌
  IsFinal-run (ok a) next k then other h = (k a).drops then other h
  IsFinal-run (err e) next k then other h = refl
  IsFinal-run panic next k then other h = refl

  IsFinal-bind :
      {A B : Type 0} (m : H A) (next : A → H B)
      → ((a : A) → IsFinal (next a))
      → IsFinal (m >>= next)
  unfolding ◌>>=◌
  IsFinal-bind m next k = record {
    drops = λ then other h. IsFinal-run (m h).0 next k then other (m h).1;
  }

  module _ ⦃p : Platform⦄ (policy : ArtifactStorePolicy) where
    fail_step-IsFinal :
        (run_id m : Str) (work : WorkItem) (step : StepContext) (e : FrameworkError)
        → IsFinal (fail_step policy run_id m work step e)
    unfolding fail_step
    fail_step-IsFinal run_id m work step e = search (IsFinal-bind, IsFinal-err) depth 20

    settle-IsFinal :
        (run_id : Str) (d : Deferred) (e : FrameworkError) (step : StepContext)
        → IsFinal (settle policy run_id d (err e) step)
    unfolding settle end_step
    settle-IsFinal run_id d e step = search (IsFinal-bind, fail_step-IsFinal) depth 12

    -- After the threads of a wave, the outcome of a failed step is the last that counts: those
    -- behind it are dropped, whatever they are, with no commit, no failure and no count.
    pub settle_all_failed :
        (run_id : Str) (d : Deferred) (e : FrameworkError) (step : StepContext)
        (rest other : List (Deferred × (Result StepOutput × StepContext))) (h : Host)
        → settle_all policy run_id ((d, (err e, step)) ∷ rest) h
          ≡ settle_all policy run_id ((d, (err e, step)) ∷ other) h
    unfolding settle_all
    settle_all_failed run_id d e step rest other h = (settle-IsFinal run_id d e step).drops _ _ h

-- ===== src/Kernel/Sound.antt =====
-- Runs under any calls: their claims are their own, their steps are within their limits, and a run
-- that is not RUNNING stays as it is.
mod Slots
pub mod Rules
mod Engine
mod Commits
use srcport_substrate.Base.{◌≤◌, ◌≡◌, refl, ap, false, some, List, [], ◌∷◌, Str}
use srcport_substrate.Base.Map
use srcport_substrate.Proto.{Contract, ArtifactStorePolicy}
use srcport_substrate.Kernel.Platform.{Platform}
use srcport_substrate.Kernel.State.{State, RunSlot, M, append_locked}
use srcport_substrate.Kernel.Registry.{
  add_module, store_contract, put_contract, publish_event, subscribe,
}
use srcport_substrate.Kernel.Blobs.{store_blob}
use srcport_substrate.Kernel.Runs.{is_running}
use srcport_substrate.Kernel.Api.{Call, perform, serve}
use srcport_substrate.Kernel.Keeps.{IsPassive, Keeps, Keeps-modify, keeps_rules}
use srcport_substrate.Kernel.Traverse.{put_contract-R, store_rules}
use srcport_substrate.Kernel.Known.{
  Known, known, known-register, known-advance, known-artifact, known-fill, known-reply,
}
use Rules.{IsAllSound, Safe, Safe-refl, Safe-trans, Safe-same, From}
use Engine.{inject-From, cancel-From, claim-From, heartbeat-From, fail_work-From}
use Commits.{start_run-From, commit-From}

module _ ⦃p : Platform⦄ where
  known-Safe : (s t : State) → known t ≡ known s → Safe s t
  known-Safe s t e = Safe-same s t (ap (λ (k : Known). k.runs) e)

  Safe-IsPassive : IsPassive Safe
  unfolding append_locked add_module store_contract publish_event subscribe store_blob
  Safe-IsPassive = record {
    refl_R = Safe-refl;
    trans_R = Safe-trans;
    on_append = λ kind subject detail s. Safe-same s _ refl;
    on_capabilities = λ caps s. known-Safe s _ (known-register caps s);
    on_module = λ m s. Safe-same s _ refl;
    on_advance = λ name from to s. known-Safe s _ (known-advance name from to s);
    on_publish = λ e s. Safe-same s _ refl;
    on_subscribe = λ topics s. Safe-same s _ refl;
    on_artifact = λ a s. known-Safe s _ (known-artifact _ s);
    on_blob = λ req s. known-Safe s _ (known-fill req _ s);
    on_reply = λ op ctx v s. known-Safe s _ (known-reply op ctx v s);
    on_derivation = λ d s. Safe-same s _ refl;
  }

  From-Keeps : {A : Type 0} (m : M A) → ((s : State) → From m s) → Keeps Safe m
  From-Keeps m h = record { at = λ s. (h s).at }

  contract-Safe : (c : Contract) → Keeps Safe (put_contract c)
  unfolding store_contract append_locked
  contract-Safe = put_contract-R Safe-IsPassive (λ c s. Safe-same s _ refl)

  perform-Safe : (policy : ArtifactStorePolicy) (c : Call) → Keeps Safe (perform policy c)
  unfolding perform
  perform-Safe policy (Call.subscribe topics) =
      Keeps-modify Safe-IsPassive _ (Safe-IsPassive.on_subscribe topics)
  perform-Safe policy c = search (
    keeps_rules, store_rules, contract-Safe, Safe-IsPassive, From-Keeps, inject-From, cancel-From,
    claim-From, heartbeat-From, fail_work-From, start_run-From, commit-From,
  )

  serve-Safe :
      (policy : ArtifactStorePolicy) (cs : List Call) (s : State) → Safe s (serve policy cs s)
  unfolding serve
  serve-Safe policy [] s = Safe-refl s
  serve-Safe policy (c ∷ cs) s =
      Safe-trans s _ _ ((perform-Safe policy c).at s) (serve-Safe policy cs _)

  served-IsAllSound :
      (policy : ArtifactStorePolicy) (cs : List Call) (s : State)
      → s.runs ≡ []
      → IsAllSound (serve policy cs s)
  unfolding Map.lookup
  served-IsAllSound policy cs s none_yet =
      (serve-Safe policy cs s).keeps_sound
        (record { sound = λ id slot e. absurd (let q = ap (Map.lookup id) none_yet in cc) })

  -- Whatever calls are served by a kernel that has no runs yet, the steps of each of its runs are
  -- within the run's limit.
  pub steps-serve :
      (policy : ArtifactStorePolicy) (cs : List Call) (s : State) (id : Str) (slot : RunSlot)
      → s.runs ≡ []
      → Map.lookup id (serve policy cs s).runs ≡ some slot
      → slot.run.steps ≤ slot.run.max_steps
  steps-serve policy cs s id slot none_yet e =
      ((served-IsAllSound policy cs s none_yet).sound id slot e).bounded

  -- Whatever calls are served by a kernel that has no runs yet, a run that it then holds and that
  -- is not RUNNING stays as it is, with its slot, whatever is called afterwards.
  pub closed_run-serve :
      (policy : ArtifactStorePolicy) (before later : List Call) (s : State) (id : Str)
      (slot : RunSlot)
      → s.runs ≡ []
      → Map.lookup id (serve policy before s).runs ≡ some slot
      → is_running slot.run.state ≡ false
      → Map.lookup id (serve policy later (serve policy before s)).runs ≡ some slot
  closed_run-serve policy before later s id slot none_yet =
      (serve-Safe policy later _).frozen (served-IsAllSound policy before s none_yet) id slot

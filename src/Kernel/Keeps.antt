-- ===== src/Kernel/Keeps.antt =====
-- Relations between the states before and after an action, with one rule for each way to build an
-- action, and one for each call.
use srcport_substrate.Base.{
  Bool, true, false, Option, none, some, List, [], ◌∷◌, ◌++◌, Str, Bytes, if◌then◌else◌,
}
use srcport_substrate.Proto.{
  Lifecycle, Capability, ModuleManifest, Event, Artifact, PutBlobRequest, RequestContext,
  Derivation,
}
use srcport_substrate.Kernel.Platform.{Platform}
use srcport_substrate.Kernel.Error.{KernelError, Result, ok, err, panic}
use srcport_substrate.Kernel.Digest.{artifact_id_of}
use srcport_substrate.Kernel.State.{
  State, RunSlot, IdempotentResult, M, ◌>>=◌, pure, fail, lift, gets, modify, ok_or, unwrap,
  refuse_if, append_locked, idempotent_put,
}
use srcport_substrate.Kernel.Registry.{
  register_capabilities, add_module, advance_module, publish_event, subscribe,
}
use srcport_substrate.Kernel.Store.{store_artifact}
use srcport_substrate.Kernel.Blobs.{store_blob}
use srcport_substrate.Kernel.Runs.{set_slot}

-- The action takes each state to one that it is related to, whether it returns, fails or panics.
pub record Keeps {A : Type 0} (R : State → State → Type 0) (m : M A) : Type 0 where
  pub at : (s : State) → R s (m s).1

-- A preorder that every write of the kernel respects, but for those of a contract and of a run's slot.
pub record IsPassive ⦃p : Platform⦄ (R : State → State → Type 0) : Type 0 where
  pub refl_R : (s : State) → R s s
  pub trans_R : (s t u : State) → R s t → R t u → R s u
  pub on_append :
      (kind subject : Str) (detail : Bytes) (s : State) → R s (append_locked kind subject detail s)
  pub on_capabilities : (caps : List Capability) (s : State) → R s (register_capabilities caps s)
  pub on_module : (m : ModuleManifest) (s : State) → R s (add_module m s)
  pub on_advance :
      (name : Str) (from to : Lifecycle) (s : State) → R s (advance_module name from to s)
  pub on_publish : (e : Event) (s : State) → R s (publish_event e s)
  pub on_subscribe : (topics : List Str) (s : State) → R s (subscribe topics s)
  pub on_artifact :
      (a : Artifact) (s : State) → R s (store_artifact (record a { id = artifact_id_of a }) s)
  pub on_blob : (req : PutBlobRequest) (s : State) → R s (store_blob req s)
  pub on_reply :
      (op : Str) (ctx : RequestContext) (v : IdempotentResult) (s : State)
      → R s (idempotent_put op ctx v s)
  pub on_derivation :
      (d : Derivation) (s : State) → R s (record s { derivations = s.derivations ++ d ∷ [] })

-- A preorder that every write of the kernel respects, but for that of a contract.
pub record IsStable ⦃p : Platform⦄ (R : State → State → Type 0) : Type 0 where
  pub passive : IsPassive R
  pub on_slot : (id : Str) (slot : RunSlot) (s : State) → R s (set_slot id slot s)

module _ ⦃p : Platform⦄ {R : State → State → Type 0} (st : IsPassive R) where
  open st use {refl_R, trans_R}

  pub Keeps-pure : {A : Type 0} (a : A) → Keeps R (pure a)
  unfolding pure
  Keeps-pure a = record { at = λ s. refl_R s }

  pub Keeps-fail : {A : Type 0} (e : KernelError) → Keeps R (fail {A = A} e)
  unfolding fail
  Keeps-fail e = record { at = λ s. refl_R s }

  pub Keeps-lift : {A : Type 0} (r : Result A) → Keeps R (lift r)
  unfolding lift
  Keeps-lift r = record { at = λ s. refl_R s }

  pub Keeps-gets : {A : Type 0} (f : State → A) → Keeps R (gets f)
  unfolding gets
  Keeps-gets f = record { at = λ s. refl_R s }

  pub Keeps-ok_or : {A : Type 0} (o : Option A) (e : KernelError) → Keeps R (ok_or o e)
  unfolding ok_or
  Keeps-ok_or none e = record { at = λ s. refl_R s }
  Keeps-ok_or (some a) e = record { at = λ s. refl_R s }

  pub Keeps-unwrap : {A : Type 0} (o : Option A) → Keeps R (unwrap o)
  unfolding unwrap
  Keeps-unwrap none = record { at = λ s. refl_R s }
  Keeps-unwrap (some a) = record { at = λ s. refl_R s }

  pub Keeps-refuse_if : (b : Bool) (e : KernelError) → Keeps R (refuse_if b e)
  unfolding refuse_if
  Keeps-refuse_if true e = record { at = λ s. refl_R s }
  Keeps-refuse_if false e = record { at = λ s. refl_R s }

  pub Keeps-modify : (f : State → State) → ((s : State) → R s (f s)) → Keeps R (modify f)
  unfolding modify
  Keeps-modify f h = record { at = h }

  Keeps-run :
      {A B : Type 0} (r : Result A) (f : A → M B)
      → ((a : A) → Keeps R (f a))
      → (s : State) → R s ((lift r >>= f) s).1
  unfolding ◌>>=◌
  Keeps-run (ok a) f h s = (h a).at s
  Keeps-run (err e) f h s = refl_R s
  Keeps-run panic f h s = refl_R s

  pub Keeps-bind :
      {A B : Type 0} (m : M A) (f : A → M B)
      → Keeps R m
      → ((a : A) → Keeps R (f a))
      → Keeps R (m >>= f)
  unfolding ◌>>=◌
  Keeps-bind m f km kf = record {
    at = λ s. trans_R s (m s).1 _ (km.at s) (Keeps-run (m s).0 f kf (m s).1);
  }

  pub Keeps-if :
      {A : Type 0} (b : Bool) (m n : M A) → Keeps R m → Keeps R n → Keeps R (if b then m else n)
  Keeps-if true m n km kn = km
  Keeps-if false m n km kn = kn

  pub if-R : (b : Bool) (s t u : State) → R s t → R s u → R s (if b then t else u)
  if-R true s t u h k = h
  if-R false s t u h k = k

pub ruleset keeps_rules = (
  Keeps-pure, Keeps-fail, Keeps-lift, Keeps-gets, Keeps-ok_or, Keeps-unwrap, Keeps-refuse_if,
  Keeps-modify, Keeps-bind, Keeps-if, if-R,
)

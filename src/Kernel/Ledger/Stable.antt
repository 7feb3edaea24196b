-- ===== src/Kernel/Ledger/Stable.antt =====
-- A preorder on ledgers that one more entry respects is respected by every write of the kernel.
use srcport_substrate.Base.{
  ◌≡◌, refl, ◌∙◌, Bool, true, false, Option, none, some, List, [], ◌∷◌, ◌++◌, Str, Bytes,
  if◌then◌else◌, arith,
}
use srcport_substrate.Proto.{
  Port, Capability, Lifecycle, Contract, Event, LedgerEntry, Artifact, ArtifactStorePolicy,
  PutBlobRequest, RequestContext,
}
use srcport_substrate.Kernel.Platform.{Platform}
use srcport_substrate.Kernel.State.{
  State, BlobSlot, IdempotentResult, next_entry, append_locked, idempotent_put,
}
use srcport_substrate.Kernel.Registry.{
  ensure_contract_placeholder, ensure_traits, ensure_ports, register_capabilities, add_module,
  advance_module, store_contract, publish_event, subscribe,
}
use srcport_substrate.Kernel.Store.{store_artifact}
use srcport_substrate.Kernel.Blobs.{insert_blob, fill_blob, store_blob}
use srcport_substrate.Kernel.Runs.{set_slot}
use srcport_substrate.Kernel.Keeps.{IsStable}
use srcport_substrate.Kernel.Api.{Call, serve}
use srcport_substrate.Kernel.Traverse.{put_contract-R, serve-R}

module _ ⦃p : Platform⦄ where
  ledger-ensure : (ref : Str) (s : State) → (ensure_contract_placeholder ref s).ledger ≡ s.ledger
  unfolding ensure_contract_placeholder
  ledger-ensure ref s = ground arith

  ledger-ensure_traits : (refs : List Str) (s : State) → (ensure_traits refs s).ledger ≡ s.ledger
  unfolding ensure_traits
  ledger-ensure_traits [] s = refl
  ledger-ensure_traits (r ∷ refs) s = ledger-ensure_traits refs _ ∙ ledger-ensure r s

  ledger-ensure_ports : (ports : List Port) (s : State) → (ensure_ports ports s).ledger ≡ s.ledger
  unfolding ensure_ports
  ledger-ensure_ports [] s = refl
  ledger-ensure_ports (q ∷ ports) s = ledger-ensure_ports ports _ ∙ ledger-ensure_traits q.traits s

  ledger-register :
      (caps : List Capability) (s : State) → (register_capabilities caps s).ledger ≡ s.ledger
  unfolding register_capabilities
  ledger-register [] s = refl
  ledger-register (c ∷ caps) s =
      ledger-register caps _ ∙ ledger-ensure_ports (c.inputs ++ c.outputs) _

  ledger-reply :
      (op : Str) (ctx : RequestContext) (v : IdempotentResult) (s : State)
      → (idempotent_put op ctx v s).ledger ≡ s.ledger
  unfolding idempotent_put
  ledger-reply op ctx v s = ground arith

module _ ⦃p : Platform⦄ (Q : List LedgerEntry → List LedgerEntry → Type 0)
    (refl_Q : (l : List LedgerEntry) → Q l l)
    (trans_Q : (l m n : List LedgerEntry) → Q l m → Q m n → Q l n)
    (push_Q : (l : List LedgerEntry) (kind subject : Str) (detail : Bytes)
      → Q l (l ++ next_entry l kind subject detail ∷ [])) where
  append-Q :
      (kind subject : Str) (detail : Bytes) (s : State)
      → Q s.ledger (append_locked kind subject detail s).ledger
  unfolding append_locked
  append-Q kind subject detail s = push_Q s.ledger kind subject detail

  same-Q : (l : List LedgerEntry) {m : List LedgerEntry} → m ≡ l → Q l m
  same-Q l e = rw e (refl_Q l)

  if-Q :
      (b : Bool) (s t u : State)
      → Q s.ledger t.ledger
      → Q s.ledger u.ledger
      → Q s.ledger (if b then t else u).ledger
  if-Q true s t u h k = h
  if-Q false s t u h k = k

  advance-Q :
      (name : Str) (from to : Lifecycle) (s : State)
      → Q s.ledger (advance_module name from to s).ledger
  unfolding advance_module
  advance-Q name from to s = if-Q _ s _ _ (append-Q _ name [] _) (refl_Q s.ledger)

  contract-Q : (c : Contract) (s : State) → Q s.ledger (store_contract c s).ledger
  unfolding store_contract
  contract-Q c s = append-Q _ c.ref _ _

  publish-Q : (e : Event) (s : State) → Q s.ledger (publish_event e s).ledger
  unfolding publish_event
  publish-Q e s = append-Q _ e.topic _ _

  artifact-Q : (a : Artifact) (s : State) → Q s.ledger (store_artifact a s).ledger
  unfolding store_artifact
  artifact-Q a s = if-Q _ s _ _ (refl_Q s.ledger) (append-Q _ a.id _ _)

  fill-Q :
      (req : PutBlobRequest) (o : Option BlobSlot) (s : State)
      → Q s.ledger (fill_blob req o s).ledger
  unfolding fill_blob insert_blob
  fill-Q req none s = append-Q _ _ _ _
  fill-Q req (some slot) s = refl_Q s.ledger

  blob-Q : (req : PutBlobRequest) (s : State) → Q s.ledger (store_blob req s).ledger
  unfolding store_blob
  blob-Q req s = fill-Q req _ s

  ledger-IsStable : IsStable (λ s t. Q s.ledger t.ledger)
  unfolding add_module subscribe set_slot
  ledger-IsStable = record {
    passive = record {
      refl_R = λ s. refl_Q s.ledger;
      trans_R = λ s t u. trans_Q s.ledger t.ledger u.ledger;
      on_append = append-Q;
      on_capabilities = λ caps s. same-Q s.ledger (ledger-register caps s);
      on_module = λ m s. refl_Q s.ledger;
      on_advance = advance-Q;
      on_publish = publish-Q;
      on_subscribe = λ topics s. refl_Q s.ledger;
      on_artifact = λ a s. artifact-Q _ s;
      on_blob = blob-Q;
      on_reply = λ op ctx v s. same-Q s.ledger (ledger-reply op ctx v s);
      on_derivation = λ d s. refl_Q s.ledger;
    };
    on_slot = λ id slot s. refl_Q s.ledger;
  }

  pub serve-Q :
      (policy : ArtifactStorePolicy) (cs : List Call) (s : State)
      → Q s.ledger (serve policy cs s).ledger
  serve-Q = serve-R ledger-IsStable (put_contract-R ledger-IsStable.passive contract-Q)

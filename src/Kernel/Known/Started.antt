-- ===== src/Kernel/Known/Started.antt =====
-- A started run is known by its id.
use srcport_substrate.Base.{
  ◌≡◌, eq_refl, is_empty, lit, refl, ap, true, none, Str, List, [], ◌∷◌, ◌++◌, contains, arith,
}
use srcport_substrate.Base.Map
use srcport_substrate.Base.Map.{Map, lookup-insert}
use srcport_substrate.Proto.{RequestContext, ModuleManifest, RunRequest, Run}
use srcport_substrate.Kernel.Platform.{Platform}
use srcport_substrate.Kernel.State.{
  State, RunSlot, IdempotentResult, append_locked, idempotent_put, idempotent_get, idempotency_key,
  M, ◌>>=◌, ◌>>◌, pure, modify, lift, gets,
}
use srcport_substrate.Kernel.Error.{Result, ok, err, panic}
use srcport_substrate.Base.Int.{ℤ}
use srcport_substrate.Kernel.Runs.{
  new_run, set_slot, log_run, start_fresh, start_unless_replayed, start_run_ctx,
}
use srcport_substrate.Kernel.Registry.{register_capabilities, add_module, register_ctx}
use srcport_substrate.Kernel.Known.{
  Known, known, IsKept, IsKept-same, IsKept-trans, add_module-IsKept, names_of, names_of-append,
  known-register, known-reply,
}

-- An action that holds on its success.
record Ensures {A : Type 0} (Q : State → Type 0) (m : M A) : Type 0 where
  at : (s : State) (a : A) → (m s).0 ≡ ok a → Q (m s).1

Ensures-run :
    {A B : Type 0} (Q : State → Type 0) (r : Result A) (next : A → M B)
    → ((a : A) → Ensures Q (next a))
    → (s : State) (b : B) → ((lift r >>= next) s).0 ≡ ok b
    → Q ((lift r >>= next) s).1
unfolding ◌>>=◌
Ensures-run Q (ok a) next k s b e = (k a).at s b e
Ensures-run Q (err x) next k s b e = absurd cc
Ensures-run Q panic next k s b e = absurd cc

-- What the last action ensures.
Ensures-bind :
    {A B : Type 0} (Q : State → Type 0) (m : M A) (next : A → M B)
    → ((a : A) → Ensures Q (next a))
    → Ensures Q (m >>= next)
unfolding ◌>>=◌
Ensures-bind Q m next k = record { at = λ s b e. Ensures-run Q (m s).0 next k (m s).1 b e }

module _ ⦃p : Platform⦄ where
  slot-inserted :
      (id : Str) (slot : RunSlot) (s : State) → Map.contains_key id (set_slot id slot s).runs ≡ true
  unfolding set_slot Map.contains_key
  slot-inserted id slot s = ground (arith, lookup-insert id id slot s.runs, eq_refl id)

  save-Ensures :
      (id : Str) (slot : RunSlot) (kind op : Str) (run : Run) (ctx : RequestContext)
      (v : IdempotentResult)
      → Ensures
          (λ s. Map.contains_key id s.runs ≡ true)
          (do
            modify (set_slot id slot)
            modify (log_run kind run)
            modify (idempotent_put op ctx v)
            pure run)
  unfolding ◌>>=◌ log_run append_locked
  save-Ensures id slot kind op run ctx v = record {
    at = λ s a h.
        rw
          (ap (λ (k : Known). k.runs)
            (known-reply op ctx v (log_run kind run (set_slot id slot s))))
          (slot-inserted id slot s);
  }

  start_fresh-Ensures :
      (req : RunRequest) (ctx : RequestContext)
      → Ensures (λ s. Map.contains_key req.id s.runs ≡ true) (start_fresh req ctx)
  unfolding start_fresh new_run
  start_fresh-Ensures req ctx = search (Ensures-bind, save-Ensures) depth 12

  no_replay :
      (op : Str) (ctx : RequestContext) (s : State)
      → is_empty ctx.request_key ≡ true
      → idempotent_get op ctx s ≡ none
  unfolding idempotent_get idempotency_key
  no_replay op ctx s e = rw (e, idempotent_get, idempotency_key) refl

  unreplayed-Ensures :
      (req : RunRequest) (ctx : RequestContext)
      → is_empty ctx.request_key ≡ true
      → Ensures
          (λ s. Map.contains_key req.id s.runs ≡ true)
          (do
            replay ← gets (idempotent_get (lit "start_run") ctx)
            start_unless_replayed req ctx replay)
  unfolding ◌>>=◌ start_unless_replayed
  unreplayed-Ensures req ctx e = record {
    at = λ s run. rw (no_replay (lit "start_run") ctx s e) ((start_fresh-Ensures req ctx).at s run);
  }

  start_run-Ensures :
      (now : ℤ) (req : RunRequest) (ctx : RequestContext)
      → is_empty ctx.request_key ≡ true
      → Ensures (λ s. Map.contains_key req.id s.runs ≡ true) (start_run_ctx now req ctx)
  unfolding start_run_ctx
  start_run-Ensures now req ctx e = search (Ensures-bind, unreplayed-Ensures, e)

  -- A run that starts without a request key is known by its id.
  pub start_run_ctx-known :
      (now : ℤ) (req : RunRequest) (ctx : RequestContext) (s : State) (run : Run)
      → is_empty ctx.request_key ≡ true
      → (start_run_ctx now req ctx s).0 ≡ ok run
      → Map.contains_key req.id (start_run_ctx now req ctx s).1.runs ≡ true
  start_run_ctx-known now req ctx s run e = (start_run-Ensures now req ctx e).at s run

contains-last : (l : List Str) (n : Str) → contains (l ++ n ∷ []) n ≡ true
contains-last [] n = rw eq_refl refl
contains-last (x ∷ l) n = ground (arith, contains-last l n)

module _ ⦃p : Platform⦄ where
  -- A module is known once it is registered, and so is what was known before.
  pub register_ctx-known :
      (m : ModuleManifest) (s : State)
      → IsKept (known s) (known (register_ctx m s).1)
        × (contains (names_of (register_ctx m s).1.modules) m.name ≡ true)
  unfolding register_ctx ◌>>=◌ append_locked add_module
  register_ctx-known m s =
      let caps = register_capabilities m.provides s in
      (
        IsKept-trans _ _ _ (IsKept-same (known s) (known-register m.provides s))
            (add_module-IsKept m caps),
        rw names_of-append (contains-last (names_of caps.modules) m.name),
      )

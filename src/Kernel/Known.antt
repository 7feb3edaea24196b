-- ===== src/Kernel/Known.antt =====
-- The names of modules and runs that the kernel knows, under any calls.
pub mod Started
use srcport_substrate.Base.{
  ◌≡◌, refl, ap, ◌∙◌, true, Option, none, some, List, [], ◌∷◌, ◌++◌, map, Str, contains, arith,
}
use srcport_substrate.Base.Map
use srcport_substrate.Base.Map.{Map, lookup-insert}
use srcport_substrate.Proto.{
  Port, Capability, Lifecycle, ArtifactStorePolicy, ModuleManifest, PutBlobRequest, Artifact,
  RequestContext,
}
use srcport_substrate.Kernel.Platform.{Platform}
use srcport_substrate.Kernel.State.{
  State, ModuleSlot, RunSlot, BlobSlot, IdempotentResult, append_locked, idempotent_put,
}
use srcport_substrate.Kernel.Registry.{
  set_lifecycle, ensure_contract_placeholder, ensure_traits, ensure_ports, register_capabilities,
  add_module, advance_module, store_contract, publish_event, subscribe,
}
use srcport_substrate.Kernel.Store.{store_artifact}
use srcport_substrate.Kernel.Blobs.{insert_blob, fill_blob, store_blob}
use srcport_substrate.Kernel.Runs.{set_slot}
use srcport_substrate.Kernel.Keeps.{IsStable}
use srcport_substrate.Kernel.Api.{Call, serve}
use srcport_substrate.Kernel.Traverse.{put_contract-R, serve-R}

pub record Known : Type 0 where
  pub modules : List Str
  pub runs : Map RunSlot

abbrev pub names_of : List ModuleSlot → List Str
names_of = map (λ m. m.manifest.name)

abbrev pub known : State → Known
known s = record { modules = names_of s.modules; runs = s.runs }

-- What is known stays known.
pub record IsKept (v w : Known) : Type 0 where
  pub modules_kept : (n : Str) → contains v.modules n ≡ true → contains w.modules n ≡ true
  pub runs_kept : (id : Str) → Map.contains_key id v.runs ≡ true → Map.contains_key id w.runs ≡ true

pub IsKept-refl : (v : Known) → IsKept v v
IsKept-refl v = record { modules_kept = λ n h. h; runs_kept = λ id h. h }

IsKept-same : (v : Known) {w : Known} → w ≡ v → IsKept v w
IsKept-same v e = rw e (IsKept-refl v)

pub IsKept-trans : (v w x : Known) → IsKept v w → IsKept w x → IsKept v x
IsKept-trans v w x g h = record {
  modules_kept = λ n k. h.modules_kept n (g.modules_kept n k);
  runs_kept = λ id k. h.runs_kept id (g.runs_kept id k);
}

pub contains-append : (l m : List Str) (n : Str) → contains l n ≡ true → contains (l ++ m) n ≡ true
contains-append [] m n h = cc
contains-append (x ∷ l) m n h = ground (arith, contains-append l m n)

pub names_of-append :
    (ms : List ModuleSlot) (m : ModuleSlot)
    → names_of (ms ++ m ∷ []) ≡ names_of ms ++ m.manifest.name ∷ []
names_of-append [] m = refl
names_of-append (x ∷ ms) m = ap (λ l. x.manifest.name ∷ l) (names_of-append ms m)

names_of-set_lifecycle :
    (name : Str) (to : Lifecycle) (ms : List ModuleSlot)
    → names_of (set_lifecycle name to ms) ≡ names_of ms
unfolding set_lifecycle
names_of-set_lifecycle name to [] = refl
names_of-set_lifecycle name to (m ∷ ms) = ground (arith, names_of-set_lifecycle name to ms)

contains_key-insert :
    (k id : Str) (slot : RunSlot) (m : Map RunSlot)
    → Map.contains_key id m ≡ true
    → Map.contains_key id (Map.insert k slot m) ≡ true
unfolding Map.contains_key
contains_key-insert k id slot m h = ground (arith, lookup-insert k id slot m)

module _ ⦃p : Platform⦄ where
  known-ensure_traits : (refs : List Str) (s : State) → known (ensure_traits refs s) ≡ known s
  unfolding ensure_traits ensure_contract_placeholder
  known-ensure_traits [] s = refl
  known-ensure_traits (r ∷ refs) s =
      known-ensure_traits refs (ensure_contract_placeholder r s) ∙ ground arith

  known-ensure_ports : (ports : List Port) (s : State) → known (ensure_ports ports s) ≡ known s
  unfolding ensure_ports
  known-ensure_ports [] s = refl
  known-ensure_ports (q ∷ ports) s = known-ensure_ports ports _ ∙ known-ensure_traits q.traits s

  pub known-register :
      (caps : List Capability) (s : State) → known (register_capabilities caps s) ≡ known s
  unfolding register_capabilities
  known-register [] s = refl
  known-register (c ∷ caps) s = known-register caps _ ∙ known-ensure_ports (c.inputs ++ c.outputs) _

  pub known-advance :
      (name : Str) (from to : Lifecycle) (s : State)
      → known (advance_module name from to s) ≡ known s
  unfolding advance_module append_locked
  known-advance name from to s = ground (arith, names_of-set_lifecycle name to s.modules)

  pub known-artifact : (a : Artifact) (s : State) → known (store_artifact a s) ≡ known s
  unfolding store_artifact append_locked
  known-artifact a s = ground arith

  pub known-fill :
      (req : PutBlobRequest) (o : Option BlobSlot) (s : State) → known (fill_blob req o s) ≡ known s
  unfolding fill_blob insert_blob append_locked
  known-fill req none s = refl
  known-fill req (some slot) s = refl

  pub known-reply :
      (op : Str) (ctx : RequestContext) (v : IdempotentResult) (s : State)
      → known (idempotent_put op ctx v s) ≡ known s
  unfolding idempotent_put
  known-reply op ctx v s = ground arith

  add_module-IsKept : (m : ModuleManifest) (s : State) → IsKept (known s) (known (add_module m s))
  unfolding add_module
  add_module-IsKept m s = record {
    modules_kept = λ n h. rw names_of-append (contains-append (names_of s.modules) _ n h);
    runs_kept = λ id h. h;
  }

  known-IsStable : IsStable (λ s t. IsKept (known s) (known t))
  unfolding append_locked store_contract publish_event subscribe set_slot store_blob
  known-IsStable = record {
    passive = record {
      refl_R = λ s. IsKept-refl (known s);
      trans_R = λ s t u. IsKept-trans (known s) (known t) (known u);
      on_append = λ kind subject detail s. IsKept-refl (known s);
      on_capabilities = λ caps s. IsKept-same (known s) (known-register caps s);
      on_module = add_module-IsKept;
      on_advance = λ name from to s. IsKept-same (known s) (known-advance name from to s);
      on_publish = λ e s. IsKept-refl (known s);
      on_subscribe = λ topics s. IsKept-refl (known s);
      on_artifact = λ a s. IsKept-same (known s) (known-artifact _ s);
      on_blob = λ req s. IsKept-same (known s) (known-fill req _ s);
      on_reply = λ op ctx v s. IsKept-same (known s) (known-reply op ctx v s);
      on_derivation = λ d s. IsKept-refl (known s);
    };
    on_slot = λ id slot s. record {
      modules_kept = λ n h. h;
      runs_kept = λ r. contains_key-insert id r slot s.runs;
    };
  }

  -- A kernel that has served calls still knows each module and each run that it knew.
  pub IsKept-serve :
      (policy : ArtifactStorePolicy) (cs : List Call) (s : State)
      → IsKept (known s) (known (serve policy cs s))
  unfolding store_contract append_locked
  IsKept-serve =
      serve-R known-IsStable (put_contract-R known-IsStable.passive (λ c s. IsKept-refl (known s)))

-- ===== src/Kernel/Registry/Kept.antt =====
-- The contracts that are registered, under any calls.
use srcport_substrate.Base.{
  ◌≡◌, refl, false, Option, none, some, List, [], ◌∷◌, ◌++◌, Str, eq_iff, arith, is_empty,
  Bool-cases, inl, inr,
}
use srcport_substrate.Base.Map
use srcport_substrate.Base.Map.{Map, lookup-insert, contains_key-none}
use srcport_substrate.Proto.{
  Port, Capability, Lifecycle, Contract, Artifact, ArtifactStorePolicy, PutBlobRequest,
  RequestContext,
}
use srcport_substrate.Kernel.Platform.{Platform}
use srcport_substrate.Kernel.Digest.{is_contract_placeholder}
use srcport_substrate.Kernel.State.{
  State, BlobSlot, IdempotentResult, append_locked, idempotent_put,
}
use srcport_substrate.Kernel.Registry.{
  ensure_contract_placeholder, ensure_traits, ensure_ports, register_capabilities, add_module,
  advance_module, publish_event, subscribe, put_contract,
}
use srcport_substrate.Kernel.Registry.Contracts.{contracts-put_contract}
use srcport_substrate.Kernel.Store.{store_artifact}
use srcport_substrate.Kernel.Blobs.{insert_blob, fill_blob, store_blob}
use srcport_substrate.Kernel.Runs.{set_slot}
use srcport_substrate.Kernel.Keeps.{IsStable, Keeps}
use srcport_substrate.Kernel.Api.{Call, serve}
use srcport_substrate.Kernel.Traverse.{serve-R}

-- A contract with content stays.
record IsFixed (v w : Map Contract) : Type 0 where
  fixed :
      (ref : Str) (c : Contract)
      → Map.lookup ref v ≡ some c
      → is_contract_placeholder c ≡ false
      → Map.lookup ref w ≡ some c

IsFixed-refl : (v : Map Contract) → IsFixed v v
IsFixed-refl v = record { fixed = λ ref c e k. e }

IsFixed-trans : (v w x : Map Contract) → IsFixed v w → IsFixed w x → IsFixed v x
IsFixed-trans v w x g h = record { fixed = λ ref c e k. h.fixed ref c (g.fixed ref c e k) k }

IsFixed-same : (v : Map Contract) {w : Map Contract} → w ≡ v → IsFixed v w
IsFixed-same v e = rw e (IsFixed-refl v)

or_insert-IsFixed : (k : Str) (c : Contract) (m : Map Contract) → IsFixed m (Map.or_insert k c m)
unfolding Map.or_insert
or_insert-IsFixed k c m = record {
  fixed = λ ref old e h. elim (Bool-cases (Map.contains_key k m)) [
    | inl there ↦ rw there e
    | inr absent ↦
        rw absent
          (ground (arith, lookup-insert k ref c m, contains_key-none k m absent, eq_iff k ref))
  ];
}

module _ ⦃p : Platform⦄ where
  ensure-IsFixed :
      (ref : Str) (s : State) → IsFixed s.contracts (ensure_contract_placeholder ref s).contracts
  unfolding ensure_contract_placeholder
  ensure-IsFixed ref s = elim (Bool-cases (is_empty ref)) [
    | inl empty ↦ rw empty (IsFixed-refl s.contracts)
    | inr named ↦ rw named (or_insert-IsFixed ref _ s.contracts)
  ]

  traits-IsFixed :
      (refs : List Str) (s : State) → IsFixed s.contracts (ensure_traits refs s).contracts
  unfolding ensure_traits
  traits-IsFixed [] s = IsFixed-refl s.contracts
  traits-IsFixed (r ∷ refs) s = IsFixed-trans _ _ _ (ensure-IsFixed r s) (traits-IsFixed refs _)

  ports-IsFixed :
      (ports : List Port) (s : State) → IsFixed s.contracts (ensure_ports ports s).contracts
  unfolding ensure_ports
  ports-IsFixed [] s = IsFixed-refl s.contracts
  ports-IsFixed (q ∷ ports) s =
      IsFixed-trans _ _ _ (traits-IsFixed q.traits s) (ports-IsFixed ports _)

  register-IsFixed :
      (caps : List Capability) (s : State)
      → IsFixed s.contracts (register_capabilities caps s).contracts
  unfolding register_capabilities
  register-IsFixed [] s = IsFixed-refl s.contracts
  register-IsFixed (c ∷ caps) s =
      IsFixed-trans _ _ _ (ports-IsFixed (c.inputs ++ c.outputs) _) (register-IsFixed caps _)

  contracts-advance :
      (name : Str) (from to : Lifecycle) (s : State)
      → (advance_module name from to s).contracts ≡ s.contracts
  unfolding advance_module append_locked
  contracts-advance name from to s = ground arith

  contracts-artifact : (a : Artifact) (s : State) → (store_artifact a s).contracts ≡ s.contracts
  unfolding store_artifact append_locked
  contracts-artifact a s = ground arith

  contracts-fill :
      (req : PutBlobRequest) (o : Option BlobSlot) (s : State)
      → (fill_blob req o s).contracts ≡ s.contracts
  unfolding fill_blob insert_blob append_locked
  contracts-fill req none s = refl
  contracts-fill req (some slot) s = refl

  contracts-reply :
      (op : Str) (ctx : RequestContext) (v : IdempotentResult) (s : State)
      → (idempotent_put op ctx v s).contracts ≡ s.contracts
  unfolding idempotent_put
  contracts-reply op ctx v s = ground arith

  contracts-IsStable : IsStable (λ s t. IsFixed s.contracts t.contracts)
  unfolding append_locked add_module publish_event subscribe set_slot store_blob
  contracts-IsStable = record {
    passive = record {
      refl_R = λ s. IsFixed-refl s.contracts;
      trans_R = λ s t u. IsFixed-trans s.contracts t.contracts u.contracts;
      on_append = λ kind subject detail s. IsFixed-refl s.contracts;
      on_capabilities = register-IsFixed;
      on_module = λ m s. IsFixed-refl s.contracts;
      on_advance = λ name from to s. IsFixed-same s.contracts (contracts-advance name from to s);
      on_publish = λ e s. IsFixed-refl s.contracts;
      on_subscribe = λ topics s. IsFixed-refl s.contracts;
      on_artifact = λ a s. IsFixed-same s.contracts (contracts-artifact _ s);
      on_blob = λ req s. IsFixed-same s.contracts (contracts-fill req _ s);
      on_reply = λ op ctx v s. IsFixed-same s.contracts (contracts-reply op ctx v s);
      on_derivation = λ d s. IsFixed-refl s.contracts;
    };
    on_slot = λ id slot s. IsFixed-refl s.contracts;
  }

  put_contract-Keeps :
      (c : Contract) → Keeps (λ s t. IsFixed s.contracts t.contracts) (put_contract c)
  put_contract-Keeps c = record { at = λ s. record { fixed = contracts-put_contract c s } }

  -- A contract that is registered with content stays as it is, whatever is called afterwards.
  pub contracts-serve :
      (policy : ArtifactStorePolicy) (cs : List Call) (s : State) (ref : Str) (c : Contract)
      → Map.lookup ref s.contracts ≡ some c
      → is_contract_placeholder c ≡ false
      → Map.lookup ref (serve policy cs s).contracts ≡ some c
  contracts-serve policy cs s = (serve-R contracts-IsStable put_contract-Keeps policy cs s).fixed

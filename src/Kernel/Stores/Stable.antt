-- ===== src/Kernel/Stores/Stable.antt =====
-- The stores of the state that are only added to, and the preorders on them that every write of
-- the kernel respects.
use srcport_substrate.Base.{
  ◌≡◌, refl, ◌∙◌, false, Option, none, some, List, [], ◌∷◌, ◌++◌, Str, arith, Bool-cases,
  Option-cases, inl, inr,
}
use srcport_substrate.Base.Map
use srcport_substrate.Base.Map.{Map}
use srcport_substrate.Proto.{
  Port, Capability, Lifecycle, Artifact, ArtifactStorePolicy, PutBlobRequest, RequestContext,
  Derivation,
}
use srcport_substrate.Kernel.Platform.{Platform}
use srcport_substrate.Kernel.Digest.{blob_id, artifact_id_of}
use srcport_substrate.Kernel.State.{
  State, BlobSlot, BlobEntry, IdempotentResult, blob_lookup, append_locked, idempotent_put,
  idempotency_key,
}
use srcport_substrate.Kernel.Registry.{
  ensure_contract_placeholder, ensure_traits, ensure_ports, register_capabilities, add_module,
  advance_module, store_contract, publish_event, subscribe,
}
use srcport_substrate.Kernel.Store.{store_artifact}
use srcport_substrate.Kernel.Blobs.{ref_of, insert_blob, fill_blob, store_blob}
use srcport_substrate.Kernel.Runs.{set_slot}
use srcport_substrate.Kernel.Keeps.{IsStable}
use srcport_substrate.Kernel.Api.{Call, serve}
use srcport_substrate.Kernel.Traverse.{put_contract-R, serve-R}

pub record Stores : Type 0 where
  pub artifacts : Map Artifact
  pub blobs : List BlobEntry
  pub derivations : List Derivation
  pub replies : Map IdempotentResult

abbrev pub stores : State → Stores
stores s = record {
  artifacts = s.artifacts;
  blobs = s.blobs;
  derivations = s.derivations;
  replies = s.idempotency;
}

module _ ⦃p : Platform⦄ where
  stores-ensure_traits : (refs : List Str) (s : State) → stores (ensure_traits refs s) ≡ stores s
  unfolding ensure_traits ensure_contract_placeholder
  stores-ensure_traits [] s = refl
  stores-ensure_traits (r ∷ refs) s =
      stores-ensure_traits refs (ensure_contract_placeholder r s) ∙ ground arith

  stores-ensure_ports : (ports : List Port) (s : State) → stores (ensure_ports ports s) ≡ stores s
  unfolding ensure_ports
  stores-ensure_ports [] s = refl
  stores-ensure_ports (q ∷ ports) s = stores-ensure_ports ports _ ∙ stores-ensure_traits q.traits s

  stores-register :
      (caps : List Capability) (s : State) → stores (register_capabilities caps s) ≡ stores s
  unfolding register_capabilities
  stores-register [] s = refl
  stores-register (c ∷ caps) s =
      stores-register caps _ ∙ stores-ensure_ports (c.inputs ++ c.outputs) _

  stores-advance :
      (name : Str) (from to : Lifecycle) (s : State)
      → stores (advance_module name from to s) ≡ stores s
  unfolding advance_module append_locked
  stores-advance name from to s = ground arith

  -- The entry that the first write of a blob adds.
  abbrev pub blob_entry : PutBlobRequest → BlobEntry
  blob_entry req = record {
    namespace = req.namespace;
    digest = blob_id req.payload;
    slot = record { payload = req.payload; ref = ref_of req };
  }

-- The preorder, and what it says of the four ways to add to a store.
pub record IsGrowing ⦃p : Platform⦄ (Q : Stores → Stores → Type 0) : Type 0 where
  pub refl_Q : (v : Stores) → Q v v
  pub trans_Q : (v w x : Stores) → Q v w → Q w x → Q v x
  pub new_artifact :
      (a : Artifact) (v : Stores)
      → Map.contains_key (artifact_id_of a) v.artifacts ≡ false
      → Q v (record v {
        artifacts = Map.insert (artifact_id_of a) (record a { id = artifact_id_of a }) v.artifacts;
      })
  pub new_blob :
      (req : PutBlobRequest) (v : Stores)
      → blob_lookup req.namespace (blob_id req.payload) v.blobs ≡ none
      → Q v (record v { blobs = blob_entry req ∷ v.blobs })
  pub new_derivation :
      (d : Derivation) (v : Stores) → Q v (record v { derivations = v.derivations ++ d ∷ [] })
  pub new_reply :
      (k : Str) (r : IdempotentResult) (v : Stores)
      → Q v (record v { replies = Map.or_insert k r v.replies })

module _ ⦃p : Platform⦄ {Q : Stores → Stores → Type 0} (g : IsGrowing Q) where
  same-Q : (v : Stores) {w : Stores} → w ≡ v → Q v w
  same-Q v e = rw e (g.refl_Q v)

  artifact-Q :
      (a : Artifact) (s : State)
      → Q (stores s) (stores (store_artifact (record a { id = artifact_id_of a }) s))
  unfolding store_artifact append_locked
  artifact-Q a s = elim (Bool-cases (Map.contains_key (artifact_id_of a) s.artifacts)) [
    | inl old ↦ rw old (g.refl_Q _)
    | inr new ↦ rw new (g.new_artifact a _ new)
  ]

  fill-Q :
      (req : PutBlobRequest) (o : Option BlobSlot) (s : State)
      → blob_lookup req.namespace (blob_id req.payload) s.blobs ≡ o
      → Q (stores s) (stores (fill_blob req o s))
  unfolding fill_blob insert_blob append_locked
  fill-Q req none s e = g.new_blob req _ e
  fill-Q req (some slot) s e = g.refl_Q _

  blob-Q : (req : PutBlobRequest) (s : State) → Q (stores s) (stores (store_blob req s))
  unfolding store_blob
  blob-Q req s = fill-Q req _ s refl

  reply-Q :
      (op : Str) (ctx : RequestContext) (r : IdempotentResult) (s : State)
      → Q (stores s) (stores (idempotent_put op ctx r s))
  unfolding idempotent_put
  reply-Q op ctx r s = elim (Option-cases (idempotency_key op ctx)) [
    | inl absent ↦ rw (absent, idempotent_put) (g.refl_Q _)
    | inr (k, e) ↦ rw (e, idempotent_put) (g.new_reply k r _)
  ]

  stores-IsStable : IsStable (λ s t. Q (stores s) (stores t))
  unfolding append_locked add_module store_contract publish_event subscribe set_slot
  stores-IsStable = record {
    passive = record {
      refl_R = λ s. g.refl_Q _;
      trans_R = λ s t u. g.trans_Q (stores s) (stores t) (stores u);
      on_append = λ kind subject detail s. g.refl_Q _;
      on_capabilities = λ caps s. same-Q (stores s) (stores-register caps s);
      on_module = λ m s. g.refl_Q _;
      on_advance = λ name from to s. same-Q (stores s) (stores-advance name from to s);
      on_publish = λ e s. g.refl_Q _;
      on_subscribe = λ topics s. g.refl_Q _;
      on_artifact = artifact-Q;
      on_blob = blob-Q;
      on_reply = reply-Q;
      on_derivation = λ d s. g.new_derivation d _;
    };
    on_slot = λ id slot s. g.refl_Q _;
  }

  pub serve-Q :
      (policy : ArtifactStorePolicy) (cs : List Call) (s : State)
      → Q (stores s) (stores (serve policy cs s))
  unfolding store_contract append_locked
  serve-Q = serve-R stores-IsStable (put_contract-R stores-IsStable.passive (λ c s. g.refl_Q _))

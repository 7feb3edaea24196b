-- ===== src/Kernel/Stores/Grows.antt =====
-- The stores before and after calls.
use srcport_substrate.Base.{
  ◌≡◌, refl, sym, ap, ◌∙◌, false, none, some, List, [], ◌∷◌, ◌++◌, Str, ◌==◌, eq_iff, length,
  Bool-cases, inl, inr, arith, append_assoc, append-nil,
}
use srcport_substrate.Base.Map
use srcport_substrate.Base.Map.{Map, lookup-insert, contains_key-none}
use srcport_substrate.Proto.{Artifact, ArtifactStorePolicy, PutBlobRequest, Derivation}
use srcport_substrate.Kernel.Platform.{Platform}
use srcport_substrate.Kernel.Digest.{blob_id, artifact_id_of, artifact_canonical_bytes}
use srcport_substrate.Kernel.State.{State, BlobSlot, BlobEntry, IdempotentResult, blob_lookup}
use srcport_substrate.Kernel.Api.{Call, serve}
use srcport_substrate.Kernel.Stores.Stable.{Stores, stores, blob_entry, IsGrowing, serve-Q}

-- An artifact is stored under its id, which is the address of its traits.
pub record IsAddressed ⦃p : Platform⦄ (m : Map Artifact) : Type 0 where
  pub at_id :
      (id : Str) (a : Artifact) → Map.lookup id m ≡ some a → (a.id ≡ id) × (artifact_id_of a ≡ id)

-- A blob is stored under its namespace and the digest of its bytes, with its size.
pub record IsIntact ⦃p : Platform⦄ (bs : List BlobEntry) : Type 0 where
  pub at_key :
      (namespace digest : Str) (slot : BlobSlot)
      → blob_lookup namespace digest bs ≡ some slot
      → (blob_id slot.payload ≡ digest)
        × (slot.ref.digest ≡ digest)
        × (slot.ref.namespace ≡ namespace)
        × (slot.ref.byte_count ≡ length slot.payload)

-- What an earlier state of the stores says of a later one.
pub record Grows ⦃p : Platform⦄ (v w : Stores) : Type 0 where
  pub artifacts_kept :
      (id : Str) (a : Artifact)
      → Map.lookup id v.artifacts ≡ some a
      → Map.lookup id w.artifacts ≡ some a
  pub addressed_kept : IsAddressed v.artifacts → IsAddressed w.artifacts
  pub blobs_kept :
      (n d : Str) (b : BlobSlot)
      → blob_lookup n d v.blobs ≡ some b
      → blob_lookup n d w.blobs ≡ some b
  pub intact_kept : IsIntact v.blobs → IsIntact w.blobs
  pub derivations_kept : (new : List Derivation) × (w.derivations ≡ v.derivations ++ new)
  pub replies_kept :
      (k : Str) (r : IdempotentResult)
      → Map.lookup k v.replies ≡ some r
      → Map.lookup k w.replies ≡ some r

module _ ⦃p : Platform⦄ where
  Grows-refl : (v : Stores) → Grows v v
  Grows-refl v = record {
    artifacts_kept = λ id a h. h;
    addressed_kept = λ h. h;
    blobs_kept = λ n d b h. h;
    intact_kept = λ h. h;
    derivations_kept = ([], sym (append-nil v.derivations));
    replies_kept = λ k r h. h;
  }

  Grows-trans : (v w x : Stores) → Grows v w → Grows w x → Grows v x
  Grows-trans v w x g h = record {
    artifacts_kept = λ id a e. h.artifacts_kept id a (g.artifacts_kept id a e);
    addressed_kept = λ e. h.addressed_kept (g.addressed_kept e);
    blobs_kept = λ n d b e. h.blobs_kept n d b (g.blobs_kept n d b e);
    intact_kept = λ e. h.intact_kept (g.intact_kept e);
    derivations_kept = (
      g.derivations_kept.0 ++ h.derivations_kept.0,
      h.derivations_kept.1
          ∙ ap (λ (l : List Derivation). l ++ h.derivations_kept.0) g.derivations_kept.1
          ∙ append_assoc v.derivations _ _,
    );
    replies_kept = λ k r e. h.replies_kept k r (g.replies_kept k r e);
  }

  module _ {V : Type 0} where
    insert_kept :
        (k : Str) (v : V) (m : Map V)
        → Map.contains_key k m ≡ false
        → (j : Str) (w : V) → Map.lookup j m ≡ some w
        → Map.lookup j (Map.insert k v m) ≡ some w
    insert_kept k v m new j w h =
        ground (arith, lookup-insert k j v m, contains_key-none k m new, eq_iff k j)

    or_insert_kept :
        (k : Str) (v : V) (m : Map V) (j : Str) (w : V)
        → Map.lookup j m ≡ some w
        → Map.lookup j (Map.or_insert k v m) ≡ some w
    unfolding Map.or_insert
    or_insert_kept k v m j w h = elim (Bool-cases (Map.contains_key k m)) [
      | inl old ↦ rw old h
      | inr new ↦ rw new (insert_kept k v m new j w h)
    ]

  -- The address does not depend on the id field.
  pub artifact_id_of-id :
      (a : Artifact) (id : Str) → artifact_id_of (record a { id = id }) ≡ artifact_id_of a
  unfolding artifact_id_of artifact_canonical_bytes
  artifact_id_of-id a id = refl

  insert-IsAddressed :
      (a : Artifact) (m : Map Artifact)
      → IsAddressed m
      → IsAddressed (Map.insert (artifact_id_of a) (record a { id = artifact_id_of a }) m)
  insert-IsAddressed a m h = record {
    at_id = λ id b e. elim (Bool-cases (artifact_id_of a == id)) [
      | inl here ↦ ground (
        arith,
        lookup-insert (artifact_id_of a) id (record a { id = artifact_id_of a }) m,
        eq_iff (artifact_id_of a) id,
        artifact_id_of-id a (artifact_id_of a),
      )
      | inr other ↦ h.at_id id b (
          ground
            (arith, lookup-insert (artifact_id_of a) id (record a { id = artifact_id_of a }) m))
    ];
  }

  insert-IsIntact :
      (req : PutBlobRequest) (bs : List BlobEntry) → IsIntact bs → IsIntact (blob_entry req ∷ bs)
  unfolding blob_lookup
  insert-IsIntact req bs h = record {
    at_key = λ n d b e.
        ground (arith, h.at_key n d b, eq_iff req.namespace n, eq_iff (blob_id req.payload) d);
  }

  blob_kept :
      (req : PutBlobRequest) (bs : List BlobEntry)
      → blob_lookup req.namespace (blob_id req.payload) bs ≡ none
      → (n d : Str) (b : BlobSlot) → blob_lookup n d bs ≡ some b
      → blob_lookup n d (blob_entry req ∷ bs) ≡ some b
  unfolding blob_lookup
  blob_kept req bs new n d b h =
      ground (arith, eq_iff req.namespace n, eq_iff (blob_id req.payload) d)

  Grows-IsGrowing : IsGrowing Grows
  Grows-IsGrowing = record {
    refl_Q = Grows-refl;
    trans_Q = Grows-trans;
    new_artifact = λ a v new. record {
      artifacts_kept = insert_kept _ _ v.artifacts new;
      addressed_kept = insert-IsAddressed a v.artifacts;
      blobs_kept = λ n d b h. h;
      intact_kept = λ h. h;
      derivations_kept = ([], sym (append-nil v.derivations));
      replies_kept = λ k r h. h;
    };
    new_blob = λ req v new. record {
      artifacts_kept = λ id a h. h;
      addressed_kept = λ h. h;
      blobs_kept = blob_kept req v.blobs new;
      intact_kept = insert-IsIntact req v.blobs;
      derivations_kept = ([], sym (append-nil v.derivations));
      replies_kept = λ k r h. h;
    };
    new_derivation = λ d v. record {
      artifacts_kept = λ id a h. h;
      addressed_kept = λ h. h;
      blobs_kept = λ n e b h. h;
      intact_kept = λ h. h;
      derivations_kept = (d ∷ [], refl);
      replies_kept = λ k r h. h;
    };
    new_reply = λ k r v. record {
      artifacts_kept = λ id a h. h;
      addressed_kept = λ h. h;
      blobs_kept = λ n d b h. h;
      intact_kept = λ h. h;
      derivations_kept = ([], sym (append-nil v.derivations));
      replies_kept = or_insert_kept k r v.replies;
    };
  }

  pub Grows-serve :
      (policy : ArtifactStorePolicy) (cs : List Call) (s : State)
      → Grows (stores s) (stores (serve policy cs s))
  Grows-serve = serve-Q Grows-IsGrowing

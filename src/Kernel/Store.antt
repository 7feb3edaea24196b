-- ===== src/Kernel/Store.antt =====
-- Artifacts and blobs: the store policy, validation, and the content-addressed stores.
pub mod RoundTrip
pub mod Policy
use srcport_substrate.Base.{
  ℕ, Bool, true, false, not, ◌&&◌, ◌||◌, Option, none, some, List, [], ◌∷◌, ◌++◌, Str, Bytes,
  no_bytes, lit, is_empty, ◌==◌, length, ltb, eqb, if◌then◌else◌, unwrap_or, is_nil, ◌^◌,
}
use srcport_substrate.Base.Int.{ℤ, pos}
use srcport_substrate.Base.Map
use srcport_substrate.Base.Map.{Map}
use srcport_substrate.Proto.{
  BlobIngestMode, ingest_mode_of, StoreDurability, durability_of, ObjectRef, Trait, Artifact,
  ArtifactRef, ArtifactStorePolicy, BlobRef, PutBlobRequest, GetBlobRequest, BlobData,
  HasBlobResponse, RequestContext,
}
use srcport_substrate.Kernel.Platform.{Platform, artifact, blob_ref}
use srcport_substrate.Kernel.Error.{
  KernelError, not_found, invalid, blob_integrity, resource_exhausted, Result, ok, err,
}
use srcport_substrate.Kernel.Error
use srcport_substrate.Kernel.Digest.{trait_has_external, blob_id, artifact_id_of, is_sha256_digest}
use srcport_substrate.Kernel.Bag.{artifact_with_external_trait}
use srcport_substrate.Kernel.State.{
  State, BlobSlot, BlobEntry, blob_lookup, IdempotentResult, artifact_ref, M, ◌>>=◌, ◌>>◌, pure,
  fail, lift, gets, modify, ok_or, refuse_if, check_deadline, idempotent_get, idempotent_put,
  append_locked,
}

abbrev pub max_inline_artifact_bytes : ℕ
max_inline_artifact_bytes = 2 ^ 20

-- The two accepted modes are the only ones that the enum has.
ingest_mode : ArtifactStorePolicy → Option BlobIngestMode → Result ArtifactStorePolicy
ingest_mode policy none = ok (record policy { ingest_mode = pos 1 })
ingest_mode policy (some BlobIngestMode.unspecified) = ok (record policy { ingest_mode = pos 1 })
ingest_mode policy (some BlobIngestMode.copy_verify) = ok (record policy { ingest_mode = pos 1 })

durability : ArtifactStorePolicy → StoreDurability → ArtifactStorePolicy
durability policy StoreDurability.unspecified = record policy { durability = pos 1 }
durability policy StoreDurability.ephemeral = policy
durability policy StoreDurability.durable = policy

unfoldable pub normalize_store_policy : ArtifactStorePolicy → Result ArtifactStorePolicy
unfolding ingest_mode durability
normalize_store_policy policy =
    let max =
      if eqb policy.max_inline_bytes 0
      then max_inline_artifact_bytes
      else policy.max_inline_bytes in
    Error.◌>>=◌
      (ingest_mode (record policy { max_inline_bytes = max }) (ingest_mode_of policy.ingest_mode))
      λ p. ok (durability p (unwrap_or (durability_of p.durability) StoreDurability.unspecified))

module _ ⦃p : Platform⦄ where
  unfoldable pub enforce_blob_size : ArtifactStorePolicy → ℕ → Result (Unit {0})
  enforce_blob_size policy len =
      let max = policy.max_blob_bytes in
      if ltb 0 max && ltb max len
      then err (
          resource_exhausted (
            lit "blob size "
            ++ (p.show_nat len ++ (lit " exceeds max_blob_bytes " ++ p.show_nat max))))
      else ok tt

  trait_error : Str → Str → KernelError
  trait_error contract text = invalid (lit "trait " ++ (contract ++ text))

  object_error : Str → Bool → Option ObjectRef → Option KernelError
  object_error contract has_obj none = none
  object_error contract has_obj (some obj) =
      if is_empty obj.digest && (not (eqb obj.byte_count 0) || not (is_empty obj.namespace))
      then some (trait_error contract (lit ": object.digest is required when object is set"))
      else if has_obj && not (is_sha256_digest obj.digest)
      then some (trait_error contract (lit ": object.digest must be sha256:<hex>"))
      else none

  -- The body of the loop of `validate_artifact_content`: the error that it returns, if any.
  unfoldable pub entry_error : ℕ → Str → Trait → Option KernelError
  unfolding trait_error object_error
  entry_error max_inline contract tr =
      let has_obj = trait_has_external tr in
      let has_body = not (is_empty tr.body) in
      if is_empty contract
      then some (invalid (lit "trait contract ref must be non-empty"))
      else if has_obj && has_body
      then some (trait_error contract (lit " must not set both body and object"))
      else if has_body && ltb max_inline (length tr.body)
      then some (
          resource_exhausted (
            lit "trait "
            ++ (contract
                ++ (lit ": body size "
                    ++ (p.show_nat (length tr.body)
                        ++ (lit " exceeds max_inline_bytes " ++ p.show_nat max_inline))))))
      else object_error contract has_obj tr.object

  unfoldable pub validate_traits : ℕ → Map Trait → Result (Unit {0})
  validate_traits max_inline [] = ok tt
  validate_traits max_inline ((contract, tr) ∷ traits) =
      let rest = validate_traits max_inline traits in
      elim (entry_error max_inline contract tr) [ none ↦ rest | some e ↦ err e ]

  unfoldable pub validate_artifact_content : Artifact → ArtifactStorePolicy → Result (Unit {0})
  unfolding validate_traits
  validate_artifact_content a policy =
      if is_nil a.traits
      then err (invalid (lit "artifact must have at least one trait"))
      else validate_traits policy.max_inline_bytes a.traits

  check_slot : ObjectRef → Option BlobSlot → Result (Unit {0})
  check_slot object none = err (
      not_found (
        lit "blob "
        ++ (object.digest ++ (lit " (namespace " ++ (p.debug_str object.namespace ++ lit ")")))))
  check_slot object (some slot) =
      if not (eqb slot.ref.byte_count object.byte_count)
      then err (
          blob_integrity (
            lit "object.byte_count "
            ++ (p.show_nat object.byte_count
                ++ (lit " != stored " ++ p.show_nat slot.ref.byte_count))))
      else if not (blob_id slot.payload == object.digest)
          || not (eqb (length slot.payload) object.byte_count)
      then err (blob_integrity (lit "blob does not match object ref"))
      else ok tt

  unfoldable pub verify_object_ref_locked : State → ObjectRef → Result (Unit {0})
  unfolding check_slot
  verify_object_ref_locked state object =
      check_slot object (blob_lookup object.namespace object.digest state.blobs)

  -- A trait without an external object has nothing to verify.
  verify_trait : State → Trait → Result (Unit {0})
  verify_trait state tr =
      if trait_has_external tr
      then elim tr.object [ none ↦ ok tt | some o ↦ verify_object_ref_locked state o ]
      else ok tt

  unfoldable pub verify_objects : State → Map Trait → Result (Unit {0})
  unfolding verify_trait
  verify_objects state [] = ok tt
  verify_objects state ((contract, tr) ∷ traits) =
      let rest = verify_objects state traits in Error.◌>>◌ (verify_trait state tr) rest

  -- The artifact of the ledger detail: external traits with their bodies taken out.
  unfoldable pub cleared : Map Trait → Map Trait
  cleared [] = []
  cleared ((contract, tr) ∷ traits) =
      (contract, (if trait_has_external tr then record tr { body = [] } else tr)) ∷ cleared traits

  -- The first write of an id stores and ledgers the artifact.
  unfoldable pub store_artifact : Artifact → State → State
  unfolding cleared
  store_artifact a state =
      if Map.contains_key a.id state.artifacts
      then state
      else append_locked (lit "artifact.put") a.id
          (p.encode_to_vec (artifact (record a { traits = cleared a.traits })))
          (record state { artifacts = Map.insert a.id a state.artifacts })

  unfoldable pub put_fresh : Artifact → RequestContext → M ArtifactRef
  put_fresh a ctx = do
    verified ← gets (λ s. verify_objects s a.traits)
    lift verified
    let id = artifact_id_of a
    modify (store_artifact (record a { id = id }))
    let r = let x : ArtifactRef = record { id = id } in x
    modify (idempotent_put (lit "put_artifact") ctx (artifact_ref r))
    pure r

  unfoldable pub put_unless_replayed :
      Artifact → RequestContext → Option IdempotentResult → M ArtifactRef
  put_unless_replayed a ctx (some (artifact_ref r)) = pure r
  put_unless_replayed a ctx _ = put_fresh a ctx

  unfoldable pub put_artifact_ctx :
      ArtifactStorePolicy → ℤ → Artifact → RequestContext → M ArtifactRef
  put_artifact_ctx policy now a ctx = do
    lift (check_deadline now ctx)
    lift (validate_artifact_content a policy)
    replay ← gets (idempotent_get (lit "put_artifact") ctx)
    put_unless_replayed a ctx replay

  unfoldable pub get_artifact : ArtifactRef → M Artifact
  get_artifact ref = do
    found ← gets (λ s. Map.lookup ref.id s.artifacts)
    ok_or found (not_found ref.id)

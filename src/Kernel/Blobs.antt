-- ===== src/Kernel/Blobs.antt =====
-- The blob store.
pub mod RoundTrip
use srcport_substrate.Base.{
  ℕ, Bool, true, false, not, ◌||◌, Option, none, some, List, [], ◌∷◌, ◌++◌, Str, Bytes, no_bytes,
  lit, ◌==◌, length, eqb, if◌then◌else◌,
}
use srcport_substrate.Base.Int.{ℤ, pos, eqb_ℤ}
use srcport_substrate.Proto.{
  ObjectRef, ArtifactRef, ArtifactStorePolicy, BlobRef, PutBlobRequest, GetBlobRequest, BlobData,
  HasBlobResponse, RequestContext,
}
use srcport_substrate.Kernel.Platform.{Platform, blob_ref}
use srcport_substrate.Kernel.Error.{not_found, invalid, blob_integrity}
use srcport_substrate.Kernel.Digest.{blob_id}
use srcport_substrate.Kernel.Bag.{artifact_with_external_trait}
use srcport_substrate.Kernel.State.{
  State, BlobSlot, BlobEntry, blob_lookup, M, ◌>>=◌, ◌>>◌, pure, fail, lift, gets, modify, ok_or,
  refuse_if, append_locked,
}
use srcport_substrate.Kernel.Store.{enforce_blob_size, put_artifact_ctx}

abbrev pub default_context : RequestContext
default_context = record {
  caller = no_bytes;
  request_key = no_bytes;
  deadline_unix_ms = pos 0;
  correlation_id = no_bytes;
}

module _ ⦃p : Platform⦄ where
  abbrev pub ref_of : PutBlobRequest → BlobRef
  ref_of req = record {
    digest = blob_id req.payload;
    byte_count = length req.payload;
    namespace = req.namespace;
  }

  unfoldable pub insert_blob : PutBlobRequest → State → State
  insert_blob req state =
      append_locked (lit "blob.put") (blob_id req.payload) (p.encode_to_vec (blob_ref (ref_of req)))
        (record state {
          blobs =
              (record {
                namespace = req.namespace;
                digest = blob_id req.payload;
                slot = record { payload = req.payload; ref = ref_of req };
              })
              ∷ state.blobs;
        })

  unfoldable pub fill_blob : PutBlobRequest → Option BlobSlot → State → State
  fill_blob req (some slot) state = state
  fill_blob req none state = insert_blob req state

  -- The first write of a key stores and ledgers the blob.
  unfoldable pub store_blob : PutBlobRequest → State → State
  store_blob req state =
      fill_blob req (blob_lookup req.namespace (blob_id req.payload) state.blobs) state

  unfoldable pub put_blob : ArtifactStorePolicy → PutBlobRequest → M BlobRef
  put_blob policy req = do
    lift (enforce_blob_size policy (length req.payload))
    refuse_if (not (eqb_ℤ policy.ingest_mode (pos 1)))
        (invalid (lit "unsupported BlobIngestMode (only COPY_VERIFY)"))
    modify (store_blob req)
    pure (ref_of req)

  unfoldable pub check_stored : BlobSlot → M BlobData
  check_stored slot =
      if not (blob_id slot.payload == slot.ref.digest)
        || not (eqb (length slot.payload) slot.ref.byte_count)
      then fail (blob_integrity (lit "stored blob corrupted"))
      else pure (record {
        digest = slot.ref.digest;
        byte_count = slot.ref.byte_count;
        namespace = slot.ref.namespace;
        payload = slot.payload;
      })

  unfoldable pub get_blob : GetBlobRequest → M BlobData
  get_blob req = do
    found ← gets (λ s. blob_lookup req.namespace req.digest s.blobs)
    slot ← ok_or found (not_found (lit "blob " ++ req.digest))
    check_stored slot

  unfoldable pub put_artifact_with_blob :
      ArtifactStorePolicy → ℤ → Str → Str → Bytes → Str → M (ArtifactRef × BlobRef)
  put_artifact_with_blob policy now contract namespace payload produced_by = do
    blob ← put_blob policy (record { namespace = namespace; payload = payload })
    let object =
        let o : ObjectRef = record {
          digest = blob.digest;
          byte_count = blob.byte_count;
          namespace = blob.namespace;
        } in
        o
    let a = artifact_with_external_trait contract object
    r ← put_artifact_ctx policy now (record a { produced_by = produced_by }) default_context
    pure (r, blob)

unfoldable pub has_blob : GetBlobRequest → State → HasBlobResponse
has_blob req state = elim (blob_lookup req.namespace req.digest state.blobs) [
  | some slot ↦ record { exists = true; byte_count = slot.ref.byte_count }
  | none ↦ record { exists = false; byte_count = 0 }
]
